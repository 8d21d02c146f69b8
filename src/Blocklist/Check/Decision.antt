-- ===== src/Blocklist/Check/Decision.antt =====
-- `check` of src/blocklist.rs against the rules that hit a name.
use dns_ligase.Blocklist.Check.Suffix.{IsParent, Longest, suffix_match-Longest}
use dns_ligase.Blocklist.Check.{
  suffix_match, regex_match, lowered, block_part, check_lower, check, on_hit,
}
use dns_ligase.Blocklist.Rules.{
  External, HashSet, contains, Blocklist, MatchOutcome, blocked, allowed, forwarded,
}
use dns_ligase.Prelude.{
  ◌≡◌, refl, sym, ◌∙◌, ◌⊎◌, inl, inr, true, false, List, [], ◌∷◌, ◌++◌, Option, none, some, Bytes,
  any, Bool-cases,
}
use dns_ligase.Text.Search.{codes}
use mathlib.Core.Bool.{false≢true}

module _ (x : External) where
  -- A rule of one of the three kinds matches the name.
  abbrev pub Hits : HashSet → List x.Regex → HashSet → Bytes → Type 0
  Hits domains regexes suffixes d =
      (contains domains d ≡ true)
      ⊎ ((any (λ r. x.is_match r d) regexes ≡ true)
          ⊎ ((s : Bytes) × (contains suffixes s ≡ true) × IsParent s d))

  abbrev pub AllowHits : Blocklist x.Regex → Bytes → Type 0
  AllowHits bl d = Hits bl.allow_domains bl.allow_regex bl.allow_suffixes d

  abbrev pub BlockHits : Blocklist x.Regex → Bytes → Type 0
  BlockHits bl d = Hits bl.block_domains bl.block_regex bl.block_suffixes d

  -- What an outcome says of the rules.
  abbrev pub Decides : Blocklist x.Regex → Bytes → MatchOutcome → Type 0
  Decides bl d (allowed rule) = AllowHits bl d
  Decides bl d (blocked rule) = (¬ AllowHits bl d) × BlockHits bl d
  Decides bl d forwarded = (¬ AllowHits bl d) × (¬ BlockHits bl d)

  abbrev RegexFound : List x.Regex → Bytes → Option Bytes → Type 0
  RegexFound rs d (some t) = any (λ r. x.is_match r d) rs ≡ true
  RegexFound rs d none = any (λ r. x.is_match r d) rs ≡ false

  missed :
      (r : x.Regex) (rs : List x.Regex) (d : Bytes) (found : Option Bytes)
      → x.is_match r d ≡ false
      → RegexFound rs d found
      → RegexFound (r ∷ rs) d found
  missed r rs d (some t) miss h = rw miss h
  missed r rs d none miss h = rw miss h

  regex_match-RegexFound : (rs : List x.Regex) (d : Bytes) → RegexFound rs d (regex_match x rs d)
  unfolding regex_match
  regex_match-RegexFound [] d = refl
  regex_match-RegexFound (r ∷ rs) d = elim (Bool-cases (x.is_match r d)) [
    | inl hit ↦ rw (hit, hit)
    | inr miss ↦ rw miss (missed r rs d (regex_match x rs d) miss (regex_match-RegexFound rs d))
  ]

  no_match :
      (domains : HashSet) (regexes : List x.Regex) (suffixes : HashSet) (d : Bytes)
      → contains domains d ≡ false
      → any (λ r. x.is_match r d) regexes ≡ false
      → ((s : Bytes) → IsParent s d → contains suffixes s ≡ false)
      → ¬ Hits domains regexes suffixes d
  no_match domains regexes suffixes d p q r (inl h) = false≢true (sym p ∙ h)
  no_match domains regexes suffixes d p q r (inr (inl h)) = false≢true (sym q ∙ h)
  no_match domains regexes suffixes d p q r (inr (inr (s, c, h))) = false≢true (sym (r s h) ∙ c)

  -- The rest of the tests, given what each found, and that the earlier ones failed.
  block_part-Decides :
      (bl : Blocklist x.Regex) (d : Bytes) → ¬ AllowHits bl d → Decides bl d (block_part x bl d)
  unfolding block_part
  block_part-Decides bl d no_allow = elim (Bool-cases (contains bl.block_domains d)) [
    | inl hit ↦ rw hit (no_allow, inl hit)
    | inr miss ↦ rw miss (
        suffixes miss (suffix_match bl.block_suffixes d) (suffix_match-Longest bl.block_suffixes d))
  ]
    where
      regexes :
          contains bl.block_domains d ≡ false
          → ((s : Bytes) → IsParent s d → contains bl.block_suffixes s ≡ false)
          → (found : Option Bytes) → RegexFound bl.block_regex d found
          → Decides bl d (on_hit x found (λ re. blocked (codes "block_regex:" ++ re)) forwarded)
      regexes p q (some t) h = (no_allow, inr (inl h))
      regexes p q none h =
          (no_allow, no_match bl.block_domains bl.block_regex bl.block_suffixes d p h q)

      suffixes :
          contains bl.block_domains d ≡ false
          → (found : Option Bytes) → Longest (λ s. IsParent s d) bl.block_suffixes found
          → Decides bl d (
              on_hit x found
                (λ hit. blocked (codes "block_suffix:" ++ hit))
                (on_hit x
                  (regex_match x bl.block_regex d)
                  (λ re. blocked (codes "block_regex:" ++ re))
                  forwarded))
      suffixes p (some hit) h = (no_allow, inr (inr (hit, h.0, h.1)))
      suffixes p none h =
          regexes p h (regex_match x bl.block_regex d) (regex_match-RegexFound bl.block_regex d)

  check_lower-Decides : (bl : Blocklist x.Regex) (d : Bytes) → Decides bl d (check_lower x bl d)
  unfolding check_lower
  check_lower-Decides bl d = elim (Bool-cases (contains bl.allow_domains d)) [
    | inl hit ↦ rw hit (inl hit)
    | inr miss ↦
        rw miss
          (regexes miss (regex_match x bl.allow_regex d) (regex_match-RegexFound bl.allow_regex d))
  ]
    where
      suffixes :
          contains bl.allow_domains d ≡ false
          → any (λ r. x.is_match r d) bl.allow_regex ≡ false
          → (found : Option Bytes) → Longest (λ s. IsParent s d) bl.allow_suffixes found
          → Decides bl d
              (on_hit x found (λ hit. allowed (codes "allow_suffix:" ++ hit)) (block_part x bl d))
      suffixes p q (some hit) h = inr (inr (hit, h.0, h.1))
      suffixes p q none h =
          block_part-Decides bl d
            (no_match bl.allow_domains bl.allow_regex bl.allow_suffixes d p q h)

      regexes :
          contains bl.allow_domains d ≡ false
          → (found : Option Bytes) → RegexFound bl.allow_regex d found
          → Decides bl d (
              on_hit x found
                (λ re. allowed (codes "allow_regex:" ++ re))
                (on_hit x
                  (suffix_match bl.allow_suffixes d)
                  (λ hit. allowed (codes "allow_suffix:" ++ hit))
                  (block_part x bl d)))
      regexes p (some t) h = inr (inl h)
      regexes p none h =
          suffixes p h (suffix_match bl.allow_suffixes d) (suffix_match-Longest bl.allow_suffixes d)

  -- `check` answers `allowed` only if an allow rule matches the name in lower case, `blocked` only
  -- if a block rule does and no allow rule, and `forwarded` only if no rule of either kind does.
  pub check-Decides : (bl : Blocklist x.Regex) (d : Bytes) → Decides bl (lowered x d) (check x bl d)
  unfolding check
  check-Decides bl d = check_lower-Decides bl (lowered x d)
