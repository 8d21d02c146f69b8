-- ===== src/Program/Build/Manual.antt =====
-- What the hand-written rules of a configuration come to in `create_blocklist` of src/main.rs.
use dns_ligase.Program.Build.Added.{manual_allow_rules-Grows, regex_rules-Grows, list_rules-Grows}
use dns_ligase.Blocklist.Check.Decision.{AllowHits, BlockHits, Decides, check-Decides}
use dns_ligase.Blocklist.Rules.{
  contains, blocked, allowed, forwarded, External, Blocklist, insert, MatchOutcome, allowed,
  contains-insert, new,
}
use mathlib.Core.Path.{subst}
use dns_ligase.Prelude.{
  sym, ◌∙◌, bytes_eq, any, Bool-cases, true, false, List, [], ◌∷◌, ◌++◌, ◌≡◌, refl, arith, inl, inr,
  Bytes,
}
use dns_ligase.Program.Build.{
  manual_block_rules, manual_allow_rules, regex_rules, manual_rules, list_rules, allowed_name,
  add_all_lists, create_blocklist, Fetching, Stored, fetch_lists, finish_lists,
}
use dns_ligase.Io.{ok, err, fault, Result, and_then}
use dns_ligase.Blocklist.Grows.{GrowsTo, Grows, Grows-trans, Within, AnyWithin}
use dns_ligase.Program.Config.{Config, MatchingConfig}
use dns_ligase.Cache.Store.{Disk}
use dns_ligase.Blocklist.Check.{lowered, check, check_lower}
use dns_ligase.Text.Search.{codes, bytes_eq_iff, bytes_eq_refl}

module _ (x : External) where
  -- What the hand-written rules hit, the final ones hit.
  Grows-AllowHits :
      (bl bl' : Blocklist x.Regex) (d : Bytes) → Grows bl bl' → AllowHits x bl d → AllowHits x bl' d
  unfolding Within AnyWithin
  Grows-AllowHits bl bl' d g (inl h) = inl (g.allow_domains_stay d h)
  Grows-AllowHits bl bl' d g (inr (inl h)) = inr (inl (g.allow_regex_stay (λ r. x.is_match r d) h))
  Grows-AllowHits bl bl' d g (inr (inr (s, h, p))) = inr (inr (s, g.allow_suffixes_stay s h, p))

  Grows-BlockHits :
      (bl bl' : Blocklist x.Regex) (d : Bytes) → Grows bl bl' → BlockHits x bl d → BlockHits x bl' d
  unfolding Within AnyWithin
  Grows-BlockHits bl bl' d g (inl h) = inl (g.block_domains_stay d h)
  Grows-BlockHits bl bl' d g (inr (inl h)) = inr (inl (g.block_regex_stay (λ r. x.is_match r d) h))
  Grows-BlockHits bl bl' d g (inr (inr (s, h, p))) = inr (inr (s, g.block_suffixes_stay s h, p))

  abbrev pub IsAllowed : MatchOutcome → Type 0
  IsAllowed (allowed rule) = Unit
  IsAllowed _ = ⊥

  abbrev pub IsForwarded : MatchOutcome → Type 0
  IsForwarded forwarded = Unit
  IsForwarded _ = ⊥

  pub create_blocklist-rules :
      (disk : Disk) (cfg : Config) (f : Fetching) (stored : Stored disk)
      → (create_blocklist x disk cfg f stored).0
        ≡ list_rules x cfg (fetch_lists disk cfg f stored).0
  unfolding create_blocklist
  create_blocklist-rules disk cfg f stored =
      built (list_rules x cfg (fetch_lists disk cfg f stored).0) (fetch_lists disk cfg f stored).1
    where
      built :
          (r : Result (Blocklist x.Regex)) (stored' : Stored disk)
          → (elim r as (λ _. Result (Blocklist x.Regex) × Stored disk) [
            | ok bl ↦ (ok bl, finish_lists disk cfg f.saved stored')
            | err e ↦ (err e, stored')
            | fault e ↦ (fault e, stored')
          ]).0
            ≡ r
      built (ok bl) stored' = refl
      built (err e) stored' = refl
      built (fault e) stored' = refl

  create_blocklist-list_rules :
      (disk : Disk) (cfg : Config) (f : Fetching) (stored : Stored disk) (bl : Blocklist x.Regex)
      → (create_blocklist x disk cfg f stored).0 ≡ ok bl
      → list_rules x cfg (fetch_lists disk cfg f stored).0 ≡ ok bl
  create_blocklist-list_rules disk cfg f stored bl h =
      sym (create_blocklist-rules disk cfg f stored) ∙ h

  decided :
      (bl bl' : Blocklist x.Regex) (d : Bytes) (o : MatchOutcome)
      → Grows bl bl'
      → Decides x bl' d o
      → (AllowHits x bl d → IsAllowed o) × (BlockHits x bl d → ¬ IsForwarded o)
  decided bl bl' d (allowed rule) g h = (λ a. tt, λ b f. f)
  decided bl bl' d (blocked rule) g h = (λ a. h.0 (Grows-AllowHits bl bl' d g a), λ b f. f)
  decided bl bl' d forwarded g h =
      (λ a. h.0 (Grows-AllowHits bl bl' d g a), λ b f. h.1 (Grows-BlockHits bl bl' d g b))

  pub list_rules-manual :
      (cfg : Config) (bodies : List (Bytes × Bytes)) (manual bl : Blocklist x.Regex) (d : Bytes)
      → manual_rules x cfg.matching ≡ ok manual
      → list_rules x cfg bodies ≡ ok bl
      → (AllowHits x manual (lowered x d) → IsAllowed (check x bl d))
        × (BlockHits x manual (lowered x d) → ¬ IsForwarded (check x bl d))
  list_rules-manual cfg bodies manual bl d m h =
      decided manual bl (lowered x d) (check x bl d) (list_rules-Grows x cfg bodies manual bl m h)
        (check-Decides x bl d)

  -- By the rules that `create_blocklist` returns, whatever the lists hold: a name that a
  -- hand-written rule allows is allowed, and a name that a hand-written rule blocks is not let
  -- through without an allow rule that matches it.
  pub create_blocklist-manual :
      (disk : Disk) (cfg : Config) (f : Fetching) (stored : Stored disk)
      (manual bl : Blocklist x.Regex) (d : Bytes)
      → manual_rules x cfg.matching ≡ ok manual
      → (create_blocklist x disk cfg f stored).0 ≡ ok bl
      → (AllowHits x manual (lowered x d) → IsAllowed (check x bl d))
        × (BlockHits x manual (lowered x d) → ¬ IsForwarded (check x bl d))
  create_blocklist-manual disk cfg f stored manual bl d m h =
      list_rules-manual cfg (fetch_lists disk cfg f stored).0 manual bl d m
        (create_blocklist-list_rules disk cfg f stored bl h)

  manual_allow_rules-contains :
      (entries : List Bytes) (entry : Bytes) (bl : Blocklist x.Regex)
      → any (bytes_eq entry) entries ≡ true
      → contains (manual_allow_rules x entries bl).allow_domains (allowed_name x entry) ≡ true
  unfolding manual_allow_rules Within
  manual_allow_rules-contains [] entry bl h = ground arith
  manual_allow_rules-contains (e ∷ es) entry bl h = elim (Bool-cases (bytes_eq entry e)) [
    | inl same ↦
        (manual_allow_rules-Grows x es added).allow_domains_stay (allowed_name x entry)
          (rw ((bytes_eq_iff entry e).0 same, contains-insert, bytes_eq_refl) refl)
    | inr differs ↦ manual_allow_rules-contains es entry added (rw differs at h)
  ]
    where
      added : Blocklist x.Regex
      added = record bl { allow_domains = insert (allowed_name x e) bl.allow_domains }

  manual_rules-contains :
      (matching : MatchingConfig) (manual : Blocklist x.Regex) (entry : Bytes)
      → any (bytes_eq entry) matching.manual_allow ≡ true
      → manual_rules x matching ≡ ok manual
      → contains manual.allow_domains (allowed_name x entry) ≡ true
  unfolding manual_rules Within
  manual_rules-contains matching manual entry listed =
      blocks (manual_block_rules x matching.manual_block new)
    where
      blocks :
          (r : Result (Blocklist x.Regex))
          → and_then r (λ bl. ok (
              regex_rules x true matching.regex_allow (
                regex_rules x false matching.regex_block
                  (manual_allow_rules x matching.manual_allow bl))))
            ≡ ok manual
          → contains manual.allow_domains (allowed_name x entry) ≡ true
      blocks (ok bl) e =
          let listing = manual_allow_rules x matching.manual_allow bl in
          let grown : Grows listing manual =
            subst (λ r. GrowsTo listing r) e
              (Grows-trans (regex_rules-Grows x false matching.regex_block listing) (
                regex_rules-Grows x true matching.regex_allow
                  (regex_rules x false matching.regex_block listing))) in
          grown.allow_domains_stay (allowed_name x entry)
            (manual_allow_rules-contains matching.manual_allow entry bl listed)
      blocks (err e') e = ground arith
      blocks (fault e') e = ground arith

  -- Rules from lists come from hand-written ones.
  pub from_manual :
      (cfg : Config) (bodies : List (Bytes × Bytes)) (bl : Blocklist x.Regex)
      → list_rules x cfg bodies ≡ ok bl
      → (manual : Blocklist x.Regex) × (manual_rules x cfg.matching ≡ ok manual)
  unfolding list_rules
  from_manual cfg bodies bl h = built (manual_rules x cfg.matching) h
    where
      built :
          (r : Result (Blocklist x.Regex))
          → and_then r (λ bl. add_all_lists x cfg.blocklists bodies bl) ≡ ok bl
          → (manual : Blocklist x.Regex) × (r ≡ ok manual)
      built (ok manual) e = (manual, refl)
      built (err e') e = ground arith
      built (fault e') e = ground arith

  check_listed :
      (bl : Blocklist x.Regex) (d : Bytes)
      → contains bl.allow_domains (lowered x d) ≡ true
      → check x bl d ≡ allowed (codes "allow:" ++ lowered x d)
  unfolding check check_lower
  check_listed bl d h = rw h refl

  -- A queried name that is in lower case what an entry of `manual_allow` stands for is allowed under
  -- the rule of that entry, whatever else the configuration and the lists hold.
  pub list_rules-manual_allow :
      (cfg : Config) (bodies : List (Bytes × Bytes)) (bl : Blocklist x.Regex) (entry d : Bytes)
      → list_rules x cfg bodies ≡ ok bl
      → any (bytes_eq entry) cfg.matching.manual_allow ≡ true
      → lowered x d ≡ allowed_name x entry
      → check x bl d ≡ allowed (codes "allow:" ++ allowed_name x entry)
  unfolding Within
  list_rules-manual_allow cfg bodies bl entry d built listed named =
      let (manual, made) = from_manual cfg bodies bl built in
      let kept = list_rules-Grows x cfg bodies manual bl made built in
      rw (← named) (
        check_listed bl d (
          rw named (
            kept.allow_domains_stay (allowed_name x entry)
              (manual_rules-contains cfg.matching manual entry listed made))))
