-- ===== src/Program/Build/Each.antt =====
-- The rules that `create_blocklist` of src/main.rs builds, entry by entry and line by line.
use dns_ligase.Blocklist.Lines.{
  parse_each, parse_lines_into, parse_lines_into_allow, parse_lines_into_regex,
}
use dns_ligase.Blocklist.Lines.Turns.{parse_each-IsLoop, regex_each-IsLoop}
use dns_ligase.Blocklist.Pieces.{lines}
use dns_ligase.Blocklist.Rules.{External, Blocklist, new}
use dns_ligase.Blocklist.Unordered.{RuleSet, reads, both}
use dns_ligase.Blocklist.Unordered.Loops.{
  IsLoop, Additive, alone, total, loop-total, loop-Additive, and_then-reads, and_then-Additive,
}
use dns_ligase.Io.{ok, Result, and_then}
use dns_ligase.Prelude.{
  Bool, true, false, List, [], ◌∷◌, Option, none, some, ◌≡◌, refl, sym, ap, ◌∙◌, Bytes,
}
use dns_ligase.Program.Build.{manual_block_rules, manual_rules, body_of, list_rules, add_all_lists}
use dns_ligase.Program.Build.Loops.{
  Loop, allow_loop, regex_loop, regex_list_loop, lists_loop, parsed, manual_block_rules-IsLoop,
  manual_allow_rules-IsLoop, regex_rules-IsLoop, add_lists-IsLoop, add_lists-single,
}
use dns_ligase.Program.Config.{Config, BlocklistConfig, MatchingConfig}

pub total-ap :
    {R A : Type 0} (f g : A → Option (RuleSet R)) (xs : List A)
    → ((a : A) → f a ≡ g a)
    → total f xs ≡ total g xs
unfolding total
total-ap f g [] h = refl
total-ap f g (a ∷ xs) h = ap (λ s. both s (total f xs)) (h a) ∙ ap (both (g a)) (total-ap f g xs h)

module _ (x : External) where
  -- What the lines of a list add, each on its own; a list without a body adds nothing.
  abbrev pub list_each : Loop x → Option Bytes → Option (RuleSet x.Regex)
  list_each loop (some body) = total (alone loop) (lines body)
  list_each loop none = reads (ok new)

  -- What the entries of the configuration add, each on its own.
  unfoldable pub manual_each : MatchingConfig → Option (RuleSet x.Regex)
  manual_each m = both (total (alone (manual_block_rules x)) m.manual_block) (
      both (total (alone (allow_loop x)) m.manual_allow) (
        both (total (alone (regex_loop x false)) m.regex_block)
          (total (alone (regex_loop x true)) m.regex_allow)))

  -- What the lines of its lists add, each on its own.
  unfoldable pub lists_each : BlocklistConfig → List (Bytes × Bytes) → Option (RuleSet x.Regex)
  lists_each lists bodies =
      both (total (λ url. list_each (parse_each x false) (body_of url bodies)) lists.urls) (
        both
          (total (λ url. list_each (parse_each x true) (body_of url bodies)) lists.allowlist_urls)
          (both
            (total (λ url. list_each (regex_list_loop x false) (body_of url bodies))
              lists.regex_block_urls)
            (total (λ url. list_each (regex_list_loop x true) (body_of url bodies))
              lists.regex_allow_urls)))

  -- Four loops, one after the other.
  abbrev run :
      (a b c d : Loop x) (us bs cs ds : List Bytes) → Blocklist x.Regex → Result (Blocklist x.Regex)
  run a b c d us bs cs ds bl =
      and_then (a us bl) λ bl. and_then (b bs bl) λ bl. and_then (c cs bl) (d ds)

  module _ (a b c d : Loop x) (is_a : IsLoop a) (is_b : IsLoop b) (is_c : IsLoop c)
      (is_d : IsLoop d) (us bs cs ds : List Bytes) where
    from_c : Additive (λ bl. and_then (c cs bl) (d ds))
    from_c = and_then-Additive (c cs) (d ds) (loop-Additive c is_c cs) (loop-Additive d is_d ds)

    from_b : Additive (λ bl. and_then (b bs bl) (λ bl. and_then (c cs bl) (d ds)))
    from_b =
        and_then-Additive (b bs) (λ bl. and_then (c cs bl) (d ds)) (loop-Additive b is_b bs) from_c

    run-Additive : Additive (run a b c d us bs cs ds)
    run-Additive =
        and_then-Additive (a us) (λ bl. and_then (b bs bl) (λ bl. and_then (c cs bl) (d ds)))
          (loop-Additive a is_a us) from_b

    run-total :
        reads (run a b c d us bs cs ds new)
        ≡ both
            (total (alone a) us)
            (both (total (alone b) bs) (both (total (alone c) cs) (total (alone d) ds)))
    run-total =
        and_then-reads (a us new) (λ bl. and_then (b bs bl) (λ bl. and_then (c cs bl) (d ds)))
          from_b
        ∙ (ap (both (reads (a us new))) (
              and_then-reads (b bs new) (λ bl. and_then (c cs bl) (d ds)) from_c
              ∙ ap (both (reads (b bs new)))
                  (and_then-reads (c cs new) (d ds) (loop-Additive d is_d ds)))
            ∙ rw
                (
                  loop-total a is_a us,
                  loop-total b is_b bs,
                  loop-total c is_c cs,
                  loop-total d is_d ds,
                )
                refl)

  manual_rules-each : (m : MatchingConfig) → reads (manual_rules x m) ≡ manual_each m
  unfolding manual_rules manual_each
  manual_rules-each m =
      run-total (manual_block_rules x) (allow_loop x) (regex_loop x false) (regex_loop x true)
        (manual_block_rules-IsLoop x) (manual_allow_rules-IsLoop x) (regex_rules-IsLoop x false)
        (regex_rules-IsLoop x true) m.manual_block m.manual_allow m.regex_block m.regex_allow

  -- A body that is parsed by a loop over its lines.
  body_each :
      (parse_body : Blocklist x.Regex → Bytes → Result (Blocklist x.Regex)) (loop : Loop x)
      → IsLoop loop
      → ((bl : Blocklist x.Regex) (body : Bytes) → parse_body bl body ≡ loop (lines body) bl)
      → (o : Option Bytes) → reads (parsed x parse_body o new) ≡ list_each loop o
  body_each parse_body loop is parses none = refl
  body_each parse_body loop is parses (some body) =
      ap reads (parses new body) ∙ loop-total loop is (lines body)

  body_adds :
      (parse_body : Blocklist x.Regex → Bytes → Result (Blocklist x.Regex)) (loop : Loop x)
      → IsLoop loop
      → ((bl : Blocklist x.Regex) (body : Bytes) → parse_body bl body ≡ loop (lines body) bl)
      → (body : Bytes) → Additive (λ bl. parse_body bl body)
  body_adds parse_body loop is parses body bl =
      ap reads (parses bl body)
      ∙ (loop-Additive loop is (lines body) bl
          ∙ ap (λ r. both (reads (ok bl)) (reads r)) (sym (parses new body)))

  list_alone :
      (parse_body : Blocklist x.Regex → Bytes → Result (Blocklist x.Regex)) (loop : Loop x)
      (bodies : List (Bytes × Bytes)) (urls : List Bytes)
      → IsLoop loop
      → ((bl : Blocklist x.Regex) (body : Bytes) → parse_body bl body ≡ loop (lines body) bl)
      → total (alone (lists_loop x parse_body bodies)) urls
        ≡ total (λ url. list_each loop (body_of url bodies)) urls
  list_alone parse_body loop bodies urls is parses =
      total-ap (alone (lists_loop x parse_body bodies)) (λ url. list_each loop (body_of url bodies))
        urls
        (λ url.
          ap reads (add_lists-single x parse_body bodies url new)
          ∙ body_each parse_body loop is parses (body_of url bodies))

  abbrev regex_body : Bool → Blocklist x.Regex → Bytes → Result (Blocklist x.Regex)
  regex_body as_allow bl body = ok (parse_lines_into_regex x bl body as_allow)

  block_parses :
      (bl : Blocklist x.Regex) (body : Bytes)
      → parse_lines_into x bl body ≡ parse_each x false (lines body) bl
  unfolding parse_lines_into
  block_parses bl body = refl

  allow_parses :
      (bl : Blocklist x.Regex) (body : Bytes)
      → parse_lines_into_allow x bl body ≡ parse_each x true (lines body) bl
  unfolding parse_lines_into_allow
  allow_parses bl body = refl

  regex_parses :
      (as_allow : Bool) (bl : Blocklist x.Regex) (body : Bytes)
      → regex_body as_allow bl body ≡ regex_list_loop x as_allow (lines body) bl
  unfolding parse_lines_into_regex
  regex_parses as_allow bl body = refl

  module _ (lists : BlocklistConfig) (bodies : List (Bytes × Bytes)) where
    block_is : IsLoop (lists_loop x (parse_lines_into x) bodies)
    block_is = add_lists-IsLoop x (parse_lines_into x) bodies (
        body_adds (parse_lines_into x) (parse_each x false) (parse_each-IsLoop x false)
          block_parses)

    allow_is : IsLoop (lists_loop x (parse_lines_into_allow x) bodies)
    allow_is = add_lists-IsLoop x (parse_lines_into_allow x) bodies (
        body_adds (parse_lines_into_allow x) (parse_each x true) (parse_each-IsLoop x true)
          allow_parses)

    regex_is : (as_allow : Bool) → IsLoop (lists_loop x (regex_body as_allow) bodies)
    regex_is as_allow = add_lists-IsLoop x (regex_body as_allow) bodies (
        body_adds (regex_body as_allow) (regex_list_loop x as_allow) (regex_each-IsLoop x as_allow)
          (regex_parses as_allow))

    add_all_lists-Additive : Additive (add_all_lists x lists bodies)
    unfolding add_all_lists
    add_all_lists-Additive =
        run-Additive (lists_loop x (parse_lines_into x) bodies)
          (lists_loop x (parse_lines_into_allow x) bodies) (lists_loop x (regex_body false) bodies)
          (lists_loop x (regex_body true) bodies) block_is allow_is (regex_is false) (regex_is true)
          lists.urls lists.allowlist_urls lists.regex_block_urls lists.regex_allow_urls

    add_all_lists-each : reads (add_all_lists x lists bodies new) ≡ lists_each lists bodies
    unfolding add_all_lists lists_each
    add_all_lists-each =
        run-total (lists_loop x (parse_lines_into x) bodies)
          (lists_loop x (parse_lines_into_allow x) bodies) (lists_loop x (regex_body false) bodies)
          (lists_loop x (regex_body true) bodies) block_is allow_is (regex_is false) (regex_is true)
          lists.urls lists.allowlist_urls lists.regex_block_urls lists.regex_allow_urls
        ∙ rw
            (
              list_alone (parse_lines_into x) (parse_each x false) bodies lists.urls
                  (parse_each-IsLoop x false) block_parses,
              list_alone (parse_lines_into_allow x) (parse_each x true) bodies lists.allowlist_urls
                  (parse_each-IsLoop x true) allow_parses,
              list_alone (regex_body false) (regex_list_loop x false) bodies lists.regex_block_urls
                  (regex_each-IsLoop x false) (regex_parses false),
              list_alone (regex_body true) (regex_list_loop x true) bodies lists.regex_allow_urls
                  (regex_each-IsLoop x true) (regex_parses true),
            )
            refl

  -- Up to the order in which they are stored, the rules from a configuration and bodies at hand are
  -- those that each entry of the configuration and each line of the lists' bodies comes to on its
  -- own, and there are none, because a parser panics, exactly when one of them panics on its own.
  pub list_rules-each :
      (cfg : Config) (bodies : List (Bytes × Bytes))
      → reads (list_rules x cfg bodies)
        ≡ both (manual_each cfg.matching) (lists_each cfg.blocklists bodies)
  unfolding list_rules
  list_rules-each cfg bodies =
      and_then-reads (manual_rules x cfg.matching) (add_all_lists x cfg.blocklists bodies)
        (add_all_lists-Additive cfg.blocklists bodies)
      ∙ rw (manual_rules-each cfg.matching, add_all_lists-each cfg.blocklists bodies) refl
