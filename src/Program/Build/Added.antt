-- ===== src/Program/Build/Added.antt =====
-- The parts of `create_blocklist` in src/main.rs add rules to those before them.
use dns_ligase.Blocklist.Lines.Grows.{
  then-GrowsTo, parse_line_mode-LineGrows, add_regex-Grows, parse_lines_into-GrowsTo,
  parse_lines_into_allow-GrowsTo, parse_lines_into_regex-Grows,
}
use dns_ligase.Blocklist.Rules.{External, Blocklist, insert, new}
use mathlib.Core.Path.{subst}
use dns_ligase.Prelude.{Bool, true, false, List, [], ◌∷◌, Option, none, some, ◌≡◌, Bytes}
use dns_ligase.Program.Build.{
  manual_block_rules, manual_allow_rules, regex_rules, manual_rules, add_lists, body_of, list_rules,
  allowed_name, add_all_lists,
}
use dns_ligase.Io.{ok, Result, and_then}
use dns_ligase.Blocklist.Grows.{
  GrowsTo, Grows, Grows-refl, Grows-trans, grows, and_then-GrowsTo, Within-insert, stay, any_stay,
}
use dns_ligase.Program.Config.{Config, BlocklistConfig, MatchingConfig}
use dns_ligase.Blocklist.Lines.{
  parse_line_mode, ad_block, add_regex, parse_lines_into, parse_lines_into_allow,
  parse_lines_into_regex,
}

module _ (x : External) where
  manual_block_rules-GrowsTo :
      (entries : List Bytes) (bl : Blocklist x.Regex) → GrowsTo bl (manual_block_rules x entries bl)
  unfolding manual_block_rules
  manual_block_rules-GrowsTo [] bl = Grows-refl bl
  manual_block_rules-GrowsTo (entry ∷ rest) bl =
      then-GrowsTo x bl (parse_line_mode x bl entry ad_block false) (manual_block_rules x rest)
        (parse_line_mode-LineGrows x bl entry ad_block false)
        (λ bl'. manual_block_rules-GrowsTo rest bl')

  pub manual_allow_rules-Grows :
      (entries : List Bytes) (bl : Blocklist x.Regex) → Grows bl (manual_allow_rules x entries bl)
  unfolding manual_allow_rules
  manual_allow_rules-Grows [] bl = Grows-refl bl
  manual_allow_rules-Grows (entry ∷ rest) bl =
      Grows-trans
        (grows (Within-insert (allowed_name x entry) bl.allow_domains) (stay _) (stay _) (stay _)
          (any_stay _) (any_stay _))
        (manual_allow_rules-Grows rest
          (record bl { allow_domains = insert (allowed_name x entry) bl.allow_domains }))

  pub regex_rules-Grows :
      (as_allow : Bool) (patterns : List Bytes) (bl : Blocklist x.Regex)
      → Grows bl (regex_rules x as_allow patterns bl)
  unfolding regex_rules
  regex_rules-Grows as_allow [] bl = Grows-refl bl
  regex_rules-Grows as_allow (p ∷ ps) bl =
      compiled (x.regex_new p) (λ bl'. regex_rules-Grows as_allow ps bl')
    where
      compiled :
          (o : Option x.Regex)
          → ((bl' : Blocklist x.Regex) → Grows bl' (regex_rules x as_allow ps bl'))
          → Grows bl (elim o as (λ _. Blocklist x.Regex) [
            | some re ↦ regex_rules x as_allow ps (add_regex x as_allow re bl)
            | none ↦ regex_rules x as_allow ps bl
          ])
      compiled none ih = ih bl
      compiled (some re) ih =
          Grows-trans (add_regex-Grows x as_allow re bl) (ih (add_regex x as_allow re bl))

  pub add_lists-GrowsTo :
      (parse_body : Blocklist x.Regex → Bytes → Result (Blocklist x.Regex))
      → ((bl : Blocklist x.Regex) (body : Bytes) → GrowsTo bl (parse_body bl body))
      → (urls : List Bytes) (bodies : List (Bytes × Bytes)) (bl : Blocklist x.Regex)
      → GrowsTo bl (add_lists x parse_body urls bodies bl)
  unfolding add_lists
  add_lists-GrowsTo parse_body g [] bodies bl = Grows-refl bl
  add_lists-GrowsTo parse_body g (url ∷ urls) bodies bl =
      found (body_of url bodies) (add_lists-GrowsTo parse_body g urls bodies)
    where
      found :
          (o : Option Bytes)
          → ((bl' : Blocklist x.Regex) → GrowsTo bl' (add_lists x parse_body urls bodies bl'))
          → GrowsTo bl (elim o as (λ _. Result (Blocklist x.Regex)) [
            | some body ↦
                and_then (parse_body bl body) λ bl'. add_lists x parse_body urls bodies bl'
            | none ↦ add_lists x parse_body urls bodies bl
          ])
      found none ih = ih bl
      found (some body) ih =
          and_then-GrowsTo bl (parse_body bl body) (add_lists x parse_body urls bodies) (g bl body)
            ih

  add_all_lists-GrowsTo :
      (lists : BlocklistConfig) (bodies : List (Bytes × Bytes)) (bl : Blocklist x.Regex)
      → GrowsTo bl (add_all_lists x lists bodies bl)
  unfolding add_all_lists
  add_all_lists-GrowsTo lists bodies bl =
      and_then-GrowsTo bl (block bl)
        (λ bl. and_then (allow bl) (λ bl. and_then (regex_block bl) regex_allow))
        (add_lists-GrowsTo (parse_lines_into x) (parse_lines_into-GrowsTo x) lists.urls bodies bl)
        (λ bl.
          and_then-GrowsTo bl (allow bl) (λ bl. and_then (regex_block bl) regex_allow)
            (add_lists-GrowsTo (parse_lines_into_allow x) (parse_lines_into_allow-GrowsTo x)
              lists.allowlist_urls bodies bl)
            (λ bl.
              and_then-GrowsTo bl (regex_block bl) regex_allow
                (add_lists-GrowsTo (λ bl body. ok (parse_lines_into_regex x bl body false))
                  (parse_lines_into_regex-Grows x false) lists.regex_block_urls bodies bl)
                (λ bl.
                  add_lists-GrowsTo (λ bl body. ok (parse_lines_into_regex x bl body true))
                    (parse_lines_into_regex-Grows x true) lists.regex_allow_urls bodies bl)))
    where
      block : Blocklist x.Regex → Result (Blocklist x.Regex)
      block bl = add_lists x (parse_lines_into x) lists.urls bodies bl

      allow : Blocklist x.Regex → Result (Blocklist x.Regex)
      allow bl = add_lists x (parse_lines_into_allow x) lists.allowlist_urls bodies bl

      regex_block : Blocklist x.Regex → Result (Blocklist x.Regex)
      regex_block bl =
          add_lists x (λ bl body. ok (parse_lines_into_regex x bl body false))
            lists.regex_block_urls bodies bl

      regex_allow : Blocklist x.Regex → Result (Blocklist x.Regex)
      regex_allow bl =
          add_lists x (λ bl body. ok (parse_lines_into_regex x bl body true)) lists.regex_allow_urls
            bodies bl

  -- The lists only add to the hand-written rules.
  pub list_rules-Grows :
      (cfg : Config) (bodies : List (Bytes × Bytes)) (manual bl : Blocklist x.Regex)
      → manual_rules x cfg.matching ≡ ok manual
      → list_rules x cfg bodies ≡ ok bl
      → Grows manual bl
  unfolding list_rules
  list_rules-Grows cfg bodies manual bl m h =
      subst (λ r. GrowsTo manual r) (rw m at h) (add_all_lists-GrowsTo cfg.blocklists bodies manual)

  manual_rules-GrowsTo : (matching : MatchingConfig) → GrowsTo new (manual_rules x matching)
  unfolding manual_rules
  manual_rules-GrowsTo matching =
      and_then-GrowsTo new (manual_block_rules x matching.manual_block new)
        (λ bl. ok (
          regex_rules x true matching.regex_allow (
            regex_rules x false matching.regex_block
              (manual_allow_rules x matching.manual_allow bl))))
        (manual_block_rules-GrowsTo matching.manual_block new)
        (λ bl. Grows-trans (manual_allow_rules-Grows matching.manual_allow bl) (
          Grows-trans
            (regex_rules-Grows false matching.regex_block
              (manual_allow_rules x matching.manual_allow bl))
            (regex_rules-Grows true matching.regex_allow (
              regex_rules x false matching.regex_block
                (manual_allow_rules x matching.manual_allow bl)))))

  -- The rules are built, or a parser panics.
  pub list_rules-GrowsTo :
      (cfg : Config) (bodies : List (Bytes × Bytes)) → GrowsTo new (list_rules x cfg bodies)
  unfolding list_rules
  list_rules-GrowsTo cfg bodies =
      and_then-GrowsTo new (manual_rules x cfg.matching) (add_all_lists x cfg.blocklists bodies)
        (manual_rules-GrowsTo cfg.matching) (add_all_lists-GrowsTo cfg.blocklists bodies)
