-- ===== src/Blocklist/Merge/Hits.antt =====
-- What merged rules of src/blocklist.rs hit.
use dns_ligase.Blocklist.Check.Decision.{Hits, AllowHits, BlockHits}
use dns_ligase.Blocklist.Merge.{extend, merge_blocklist}
use dns_ligase.Blocklist.Rules.{External, Blocklist, HashSet, insert, contains, contains-insert}
use dns_ligase.Prelude.{
  Bool, true, false, ◌||◌, List, [], ◌∷◌, ◌++◌, Bytes, any, ◌≡◌, ◌↔◌, ◌⊎◌, inl, inr, refl, arith,
  ◌∙◌, sym,
}

pub contains-extend :
    (d : Bytes) (target source : HashSet)
    → contains (extend target source) d ≡ (contains target d || contains source d)
unfolding extend contains
contains-extend d target [] = ground arith
contains-extend d target (e ∷ es) =
    ground (arith, contains-extend d (insert e target) es, contains-insert e d target)

pub any-append_or :
    {R : Type 0} (p : R → Bool) (xs ys : List R) → any p (xs ++ ys) ≡ (any p xs || any p ys)
any-append_or p [] ys = refl
any-append_or p (x ∷ xs) ys = ground (arith, any-append_or p xs ys)

or_iff : (a b c : Bool) → a ≡ (b || c) → (a ≡ true) ↔ ((b ≡ true) ⊎ (c ≡ true))
or_iff a true c e = ((λ h. inl refl), λ h. e)
or_iff a false c e = ((λ h. inr (sym e ∙ h)), λ h. ground arith)

module _ (x : External) where
  merged_hit :
      (domains domains' : HashSet) (regexes regexes' : List x.Regex) (suffixes suffixes' : HashSet)
      (d : Bytes)
      → Hits x (extend domains domains') (regexes ++ regexes') (extend suffixes suffixes') d
      → Hits x domains regexes suffixes d ⊎ Hits x domains' regexes' suffixes' d
  merged_hit domains domains' regexes regexes' suffixes suffixes' d (inl h) =
      elim ((or_iff _ _ _ (contains-extend d domains domains')).0 h) [
        | inl old ↦ inl (inl old)
        | inr new ↦ inr (inl new)
      ]
  merged_hit domains domains' regexes regexes' suffixes suffixes' d (inr (inl h)) =
      elim ((or_iff _ _ _ (any-append_or (λ r. x.is_match r d) regexes regexes')).0 h) [
        | inl old ↦ inl (inr (inl old))
        | inr new ↦ inr (inr (inl new))
      ]
  merged_hit domains domains' regexes regexes' suffixes suffixes' d (inr (inr (s, h, p))) =
      elim ((or_iff _ _ _ (contains-extend s suffixes suffixes')).0 h) [
        | inl old ↦ inl (inr (inr (s, old, p)))
        | inr new ↦ inr (inr (inr (s, new, p)))
      ]

  hit_merged :
      (domains domains' : HashSet) (regexes regexes' : List x.Regex) (suffixes suffixes' : HashSet)
      (d : Bytes)
      → Hits x domains regexes suffixes d ⊎ Hits x domains' regexes' suffixes' d
      → Hits x (extend domains domains') (regexes ++ regexes') (extend suffixes suffixes') d
  hit_merged domains domains' regexes regexes' suffixes suffixes' d (inl (inl h)) =
      inl ((or_iff _ _ _ (contains-extend d domains domains')).1 (inl h))
  hit_merged domains domains' regexes regexes' suffixes suffixes' d (inr (inl h)) =
      inl ((or_iff _ _ _ (contains-extend d domains domains')).1 (inr h))
  hit_merged domains domains' regexes regexes' suffixes suffixes' d (inl (inr (inl h))) =
      inr (inl ((or_iff _ _ _ (any-append_or (λ r. x.is_match r d) regexes regexes')).1 (inl h)))
  hit_merged domains domains' regexes regexes' suffixes suffixes' d (inr (inr (inl h))) =
      inr (inl ((or_iff _ _ _ (any-append_or (λ r. x.is_match r d) regexes regexes')).1 (inr h)))
  hit_merged domains domains' regexes regexes' suffixes suffixes' d (inl (inr (inr (s, h, p)))) =
      inr (inr (s, (or_iff _ _ _ (contains-extend s suffixes suffixes')).1 (inl h), p))
  hit_merged domains domains' regexes regexes' suffixes suffixes' d (inr (inr (inr (s, h, p)))) =
      inr (inr (s, (or_iff _ _ _ (contains-extend s suffixes suffixes')).1 (inr h), p))

  -- Merged rules allow just what one of the two allows, and block just what one of the two blocks.
  pub merge_blocklist-hits :
      (target source : Blocklist x.Regex) (d : Bytes)
      → (AllowHits x (merge_blocklist target source) d
          ↔ (AllowHits x target d ⊎ AllowHits x source d))
        × (BlockHits x (merge_blocklist target source) d
            ↔ (BlockHits x target d ⊎ BlockHits x source d))
  unfolding merge_blocklist
  merge_blocklist-hits target source d = (
    (
      merged_hit target.allow_domains source.allow_domains target.allow_regex source.allow_regex
          target.allow_suffixes source.allow_suffixes d,
      hit_merged target.allow_domains source.allow_domains target.allow_regex source.allow_regex
          target.allow_suffixes source.allow_suffixes d,
    ),
    (
      merged_hit target.block_domains source.block_domains target.block_regex source.block_regex
          target.block_suffixes source.block_suffixes d,
      hit_merged target.block_domains source.block_domains target.block_regex source.block_regex
          target.block_suffixes source.block_suffixes d,
    ),
  )
