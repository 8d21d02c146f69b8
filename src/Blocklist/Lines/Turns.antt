-- ===== src/Blocklist/Lines/Turns.antt =====
-- The loops over lines in src/blocklist.rs: each line adds the same rules whenever it comes.
use dns_ligase.Blocklist.Lines.{
  parse_auto_mode, parse_each, regex_line, regex_each, add_regex, LineResult, regex_pattern,
}
use dns_ligase.Blocklist.Lines.Alone.{after, parse_auto_mode-after, add_regex-merge}
use dns_ligase.Blocklist.Rules.{External, Blocklist, new}
use dns_ligase.Blocklist.Merge.{merge_blocklist}
use dns_ligase.Blocklist.Unordered.{reads, both, join, with_rules}
use dns_ligase.Blocklist.Unordered.Loops.{IsLoop, merge-new}
use dns_ligase.Io.{ok, err, fault, Result, and_then}
use dns_ligase.Prelude.{
  Bool, true, List, [], ◌∷◌, Option, none, some, Bytes, ◌≡◌, refl, sym, ap, ◌∙◌,
}

module _ (x : External) where
  -- A line without what is said of its regex.
  abbrev pub rules_of : LineResult x → Result (Blocklist x.Regex)
  rules_of (ok (bl, compiled)) = ok bl
  rules_of (err e) = err e
  rules_of (fault f) = fault f

  -- A loop that goes on after each line.
  pub line_then :
      (r : LineResult x) (f : Blocklist x.Regex → Result (Blocklist x.Regex))
      → (elim r as (λ _. Result (Blocklist x.Regex)) [
        | ok (bl, compiled) ↦ f bl
        | err e ↦ err e
        | fault e ↦ fault e
      ])
        ≡ and_then (rules_of r) f
  line_then (ok (bl, compiled)) f = refl
  line_then (err e) f = refl
  line_then (fault e) f = refl

  rules_of-ok : (r : LineResult x) → and_then (rules_of r) (λ bl. ok bl) ≡ rules_of r
  rules_of-ok (ok (bl, compiled)) = refl
  rules_of-ok (err e) = refl
  rules_of-ok (fault e) = refl

  reads-after :
      (bl : Blocklist x.Regex) (r : LineResult x)
      → reads (rules_of (after x bl r)) ≡ both (reads (ok bl)) (reads (rules_of r))
  unfolding both join with_rules
  reads-after bl (ok (added, compiled)) = refl
  reads-after bl (err e) = refl
  reads-after bl (fault e) = refl

  -- So does a loop over lines.
  pub lines-IsLoop :
      {A : Type 0} (line : A → Blocklist x.Regex → LineResult x)
      (loop : List A → Blocklist x.Regex → Result (Blocklist x.Regex))
      → ((bl : Blocklist x.Regex) → loop [] bl ≡ ok bl)
      → ((a : A) (rest : List A) (bl : Blocklist x.Regex)
          → loop (a ∷ rest) bl ≡ and_then (rules_of (line a bl)) (loop rest))
      → ((a : A) (bl : Blocklist x.Regex) → line a bl ≡ after x bl (line a new))
      → IsLoop loop
  lines-IsLoop {A = A} line loop none_left next adds = record {
    no_turn = none_left;
    turn = λ a rest bl. next a rest bl ∙ ap (λ r. and_then r (loop rest)) (sym (single a bl));
    adds = λ a bl.
        ap reads (single a bl ∙ ap rules_of (adds a bl))
        ∙ (reads-after bl (line a new)
            ∙ ap (λ r. both (reads (ok bl)) (reads r)) (sym (single a new)));
  }
    where
      single : (a : A) (bl : Blocklist x.Regex) → loop (a ∷ []) bl ≡ rules_of (line a bl)
      single a bl = next a [] bl ∙ (ends (rules_of (line a bl)) ∙ refl)
        where
          ends : (r : Result (Blocklist x.Regex)) → and_then r (loop []) ≡ r
          ends (ok bl) = none_left bl
          ends (err e) = refl
          ends (fault e) = refl

  pub parse_each-IsLoop : (as_allow : Bool) → IsLoop (parse_each x as_allow)
  unfolding parse_each
  parse_each-IsLoop as_allow =
      lines-IsLoop (λ line bl. parse_auto_mode x bl line as_allow) (parse_each x as_allow)
        (λ bl. refl)
        (λ line rest bl.
          line_then (parse_auto_mode x bl line as_allow) (parse_each x as_allow rest))
        (λ line bl. parse_auto_mode-after x bl line as_allow)

  abbrev regex_turn : Bool → Bytes → Blocklist x.Regex → LineResult x
  regex_turn as_allow line bl = ok (regex_line x as_allow line bl, true)

  regex_line-after :
      (as_allow : Bool) (line : Bytes) (bl : Blocklist x.Regex)
      → regex_line x as_allow line bl ≡ merge_blocklist bl (regex_line x as_allow line new)
  unfolding regex_line
  regex_line-after as_allow line bl = patterned (regex_pattern x line)
    where
      compiled : Option x.Regex → Blocklist x.Regex → Blocklist x.Regex
      compiled o bl = elim o [ some re ↦ add_regex x as_allow re bl | none ↦ bl ]

      compiled-merge : (o : Option x.Regex) → compiled o bl ≡ merge_blocklist bl (compiled o new)
      compiled-merge none = sym (merge-new bl)
      compiled-merge (some re) = add_regex-merge x as_allow re bl

      pattern : Option Bytes → Blocklist x.Regex → Blocklist x.Regex
      pattern o bl = elim o [ some p ↦ compiled (x.regex_new p) bl | none ↦ bl ]

      patterned : (o : Option Bytes) → pattern o bl ≡ merge_blocklist bl (pattern o new)
      patterned none = sym (merge-new bl)
      patterned (some p) = compiled-merge (x.regex_new p)

  pub regex_each-IsLoop : (as_allow : Bool) → IsLoop (λ ls bl. ok (regex_each x as_allow ls bl))
  unfolding regex_each
  regex_each-IsLoop as_allow =
      lines-IsLoop (regex_turn as_allow) (λ ls bl. ok (regex_each x as_allow ls bl)) (λ bl. refl)
        (λ line rest bl. refl)
        (λ line bl. ap (λ b. ok (b, true)) (regex_line-after as_allow line bl))
