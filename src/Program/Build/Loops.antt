-- ===== src/Program/Build/Loops.antt =====
-- The loops of `create_blocklist` in src/main.rs: each turn adds the same rules whenever it comes.
use dns_ligase.Blocklist.Lines.{parse_line_mode, ad_block, add_regex, regex_each, LineResult}
use dns_ligase.Blocklist.Lines.Alone.{parse_line_mode-after, add_regex-merge, after}
use dns_ligase.Blocklist.Lines.Turns.{line_then, lines-IsLoop, rules_of}
use dns_ligase.Blocklist.Merge.{merge_blocklist}
use dns_ligase.Blocklist.Rules.{External, Blocklist, insert, new}
use dns_ligase.Blocklist.Unordered.{reads, both}
use dns_ligase.Blocklist.Unordered.Loops.{IsLoop, Additive, merge-new, both-new}
use dns_ligase.Io.{ok, err, fault, Result, and_then}
use dns_ligase.Prelude.{
  Bool, true, false, List, [], ◌∷◌, Option, none, some, ◌≡◌, refl, sym, ap, ◌∙◌, Bytes, append-nil,
}
use dns_ligase.Program.Build.{
  manual_block_rules, manual_allow_rules, regex_rules, add_lists, body_of, allowed_name,
}

module _ (x : External) where
  abbrev pub Loop : Type 0
  Loop = List Bytes → Blocklist x.Regex → Result (Blocklist x.Regex)

  abbrev pub allow_loop : Loop
  allow_loop entries bl = ok (manual_allow_rules x entries bl)

  abbrev pub regex_loop : Bool → Loop
  regex_loop as_allow patterns bl = ok (regex_rules x as_allow patterns bl)

  abbrev pub regex_list_loop : Bool → Loop
  regex_list_loop as_allow ls bl = ok (regex_each x as_allow ls bl)

  pub manual_block_rules-IsLoop : IsLoop (manual_block_rules x)
  unfolding manual_block_rules
  manual_block_rules-IsLoop =
      lines-IsLoop x (λ entry bl. parse_line_mode x bl entry ad_block false) (manual_block_rules x)
        (λ bl. refl)
        (λ entry rest bl.
          line_then x (parse_line_mode x bl entry ad_block false) (manual_block_rules x rest))
        (λ entry bl. parse_line_mode-after x bl entry ad_block false)

  abbrev allow_turn : Bytes → Blocklist x.Regex → Blocklist x.Regex
  allow_turn entry bl = record bl { allow_domains = insert (allowed_name x entry) bl.allow_domains }

  allow_turn-merge :
      (entry : Bytes) (bl : Blocklist x.Regex)
      → allow_turn entry bl ≡ merge_blocklist bl (allow_turn entry new)
  unfolding merge_blocklist
  allow_turn-merge entry bl = rw (append-nil bl.allow_regex, append-nil bl.block_regex) refl

  pub manual_allow_rules-IsLoop : IsLoop allow_loop
  unfolding manual_allow_rules
  manual_allow_rules-IsLoop =
      lines-IsLoop x (λ entry bl. ok (allow_turn entry bl, true)) allow_loop (λ bl. refl)
        (λ entry rest bl. refl) (λ entry bl. ap (λ b. ok (b, true)) (allow_turn-merge entry bl))

  abbrev compiled : Bool → Option x.Regex → Blocklist x.Regex → LineResult x
  compiled as_allow (some re) bl = ok (add_regex x as_allow re bl, true)
  compiled as_allow none bl = ok (bl, true)

  compiled-after :
      (as_allow : Bool) (o : Option x.Regex) (bl : Blocklist x.Regex)
      → compiled as_allow o bl ≡ after x bl (compiled as_allow o new)
  compiled-after as_allow (some re) bl = ap (λ b. ok (b, true)) (add_regex-merge x as_allow re bl)
  compiled-after as_allow none bl = ap (λ b. ok (b, true)) (sym (merge-new bl))

  pub regex_rules-IsLoop : (as_allow : Bool) → IsLoop (regex_loop as_allow)
  unfolding regex_rules
  regex_rules-IsLoop as_allow =
      lines-IsLoop x (λ p bl. compiled as_allow (x.regex_new p) bl) (regex_loop as_allow)
        (λ bl. refl) (λ p rest bl. next (x.regex_new p) rest bl)
        (λ p bl. compiled-after as_allow (x.regex_new p) bl)
    where
      next :
          (o : Option x.Regex) (rest : List Bytes) (bl : Blocklist x.Regex)
          → ok (elim o as (λ _. Blocklist x.Regex) [
            | some re ↦ regex_rules x as_allow rest (add_regex x as_allow re bl)
            | none ↦ regex_rules x as_allow rest bl
          ])
            ≡ and_then (rules_of x (compiled as_allow o bl)) (regex_loop as_allow rest)
      next (some re) rest bl = refl
      next none rest bl = refl

  -- The loop over the URLs of a kind of list, with the bodies at hand.
  abbrev pub lists_loop :
      (Blocklist x.Regex → Bytes → Result (Blocklist x.Regex)) → List (Bytes × Bytes) → Loop
  lists_loop parse_body bodies urls bl = add_lists x parse_body urls bodies bl

  abbrev pub parsed :
      (Blocklist x.Regex → Bytes → Result (Blocklist x.Regex))
      → Option Bytes
      → Blocklist x.Regex
      → Result (Blocklist x.Regex)
  parsed parse_body (some body) bl = parse_body bl body
  parsed parse_body none bl = ok bl

  add_lists-turn :
      (parse_body : Blocklist x.Regex → Bytes → Result (Blocklist x.Regex))
      (bodies : List (Bytes × Bytes)) (url : Bytes) (urls : List Bytes) (bl : Blocklist x.Regex)
      → add_lists x parse_body (url ∷ urls) bodies bl
        ≡ and_then (parsed parse_body (body_of url bodies) bl) (lists_loop parse_body bodies urls)
  unfolding add_lists
  add_lists-turn parse_body bodies url urls bl = found (body_of url bodies)
    where
      found :
          (o : Option Bytes)
          → (elim o as (λ _. Result (Blocklist x.Regex)) [
            | some body ↦
                and_then (parse_body bl body) λ bl'. add_lists x parse_body urls bodies bl'
            | none ↦ add_lists x parse_body urls bodies bl
          ])
            ≡ and_then (parsed parse_body o bl) (lists_loop parse_body bodies urls)
      found (some body) = refl
      found none = refl

  pub add_lists-single :
      (parse_body : Blocklist x.Regex → Bytes → Result (Blocklist x.Regex))
      (bodies : List (Bytes × Bytes)) (url : Bytes) (bl : Blocklist x.Regex)
      → add_lists x parse_body (url ∷ []) bodies bl ≡ parsed parse_body (body_of url bodies) bl
  unfolding add_lists
  add_lists-single parse_body bodies url bl =
      add_lists-turn parse_body bodies url [] bl ∙ ends (parsed parse_body (body_of url bodies) bl)
    where
      ends : (r : Result (Blocklist x.Regex)) → and_then r (λ bl'. ok bl') ≡ r
      ends (ok bl') = refl
      ends (err e) = refl
      ends (fault e) = refl

  parsed-Additive :
      (parse_body : Blocklist x.Regex → Bytes → Result (Blocklist x.Regex))
      → ((body : Bytes) → Additive (λ bl. parse_body bl body))
      → (o : Option Bytes) → Additive (parsed parse_body o)
  parsed-Additive parse_body add (some body) bl = add body bl
  parsed-Additive parse_body add none bl = sym (both-new (reads (ok bl)))

  pub add_lists-IsLoop :
      (parse_body : Blocklist x.Regex → Bytes → Result (Blocklist x.Regex))
      (bodies : List (Bytes × Bytes))
      → ((body : Bytes) → Additive (λ bl. parse_body bl body))
      → IsLoop (lists_loop parse_body bodies)
  unfolding add_lists
  add_lists-IsLoop parse_body bodies add = record {
    no_turn = λ bl. refl;
    turn = λ url urls bl.
        add_lists-turn parse_body bodies url urls bl
        ∙ ap (λ r. and_then r (lists_loop parse_body bodies urls))
            (sym (add_lists-single parse_body bodies url bl));
    adds = λ url bl.
        ap reads (add_lists-single parse_body bodies url bl)
        ∙ (parsed-Additive parse_body add (body_of url bodies) bl
            ∙ ap (λ r. both (reads (ok bl)) (reads r))
                (sym (add_lists-single parse_body bodies url new)));
  }
