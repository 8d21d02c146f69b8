-- ===== src/Blocklist/Lines/Grows.antt =====
-- The list parsers of src/blocklist.rs add rules and take none away.
use dns_ligase.Blocklist.Grows.{
  any-append, Within-insert, Grows, stay, any_stay, grows, Grows-refl, Grows-trans, GrowsTo,
  and_then-GrowsTo,
}
use dns_ligase.Blocklist.Lines.{
  parse_plain, parse_suffix, parse_regex, parse_pattern, parse_ad_block, parse_format,
  parse_line_mode, parse_auto_mode, parse_each, regex_line, regex_each, parse_lines_into_regex,
  add_domain, add_suffix, add_regex, suffix_domain, inner, ListFormat, hosts, pi_hole, ad_block,
  ad_guard, LineResult, looks_ad_block, regex_pattern, parse_lines_into, parse_lines_into_allow,
}
use dns_ligase.Blocklist.Pieces.{clean_domain_static, is_skipped, inner, lines}
use dns_ligase.Blocklist.Rules.{External, Blocklist}
use dns_ligase.Text.Trim.{trim}
use dns_ligase.Prelude.{
  ◌&&◌, ◌||◌, Bool-cases, if◌then◌else◌, Bool, true, false, List, [], ◌∷◌, Option, none, some,
  arith, inl, inr, Bytes,
}
use dns_ligase.Io.{ok, err, fault, Result, out_of_range}
use dns_ligase.Text.Search.{starts_with, codes, ends_with_byte, trim_start_pair}

module _ (x : External) where
  add_domain-Grows :
      (as_allow : Bool) (d : Bytes) (bl : Blocklist x.Regex) → Grows bl (add_domain x as_allow d bl)
  unfolding add_domain
  add_domain-Grows true d bl =
      grows (Within-insert d bl.allow_domains) (stay _) (stay _) (stay _) (any_stay _) (any_stay _)
  add_domain-Grows false d bl =
      grows (stay _) (Within-insert d bl.block_domains) (stay _) (stay _) (any_stay _) (any_stay _)

  add_suffix-Grows :
      (as_allow : Bool) (d : Bytes) (bl : Blocklist x.Regex) → Grows bl (add_suffix x as_allow d bl)
  unfolding add_suffix
  add_suffix-Grows true d bl =
      grows (stay _) (stay _) (Within-insert d bl.allow_suffixes) (stay _) (any_stay _) (any_stay _)
  add_suffix-Grows false d bl =
      grows (stay _) (stay _) (stay _) (Within-insert d bl.block_suffixes) (any_stay _) (any_stay _)

  pub add_regex-Grows :
      (as_allow : Bool) (r : x.Regex) (bl : Blocklist x.Regex)
      → Grows bl (add_regex x as_allow r bl)
  unfolding add_regex
  add_regex-Grows true r bl =
      grows (stay _) (stay _) (stay _) (stay _) (any-append r bl.allow_regex) (any_stay _)
  add_regex-Grows false r bl =
      grows (stay _) (stay _) (stay _) (stay _) (any_stay _) (any-append r bl.block_regex)

  -- The same for the result of a line.
  abbrev pub LineGrows : Blocklist x.Regex → LineResult x → Type 0
  LineGrows bl (ok (bl', compiled)) = Grows bl bl'
  LineGrows bl (err e) = ⊥
  LineGrows bl (fault f) = Unit

  parse_plain-LineGrows :
      (as_allow : Bool) (line : Bytes) (bl : Blocklist x.Regex)
      → LineGrows bl (parse_plain x as_allow line bl)
  unfolding parse_plain
  parse_plain-LineGrows as_allow line bl = cleaned (clean_domain_static line)
    where
      cleaned :
          (o : Option Bytes)
          → LineGrows bl (elim o as (λ _. LineResult x) [
            | some domain ↦ ok (add_domain x as_allow (x.to_lowercase domain) bl, true)
            | none ↦ ok (bl, true)
          ])
      cleaned none = Grows-refl bl
      cleaned (some d) = add_domain-Grows as_allow (x.to_lowercase d) bl

  parse_suffix-LineGrows :
      (as_allow : Bool) (s : Bytes) (bl : Blocklist x.Regex)
      → LineGrows bl (parse_suffix x as_allow s bl)
  unfolding parse_suffix
  parse_suffix-LineGrows as_allow s bl =
      ground (arith, Grows-refl bl, add_suffix-Grows as_allow (suffix_domain x s) bl)

  parse_regex-LineGrows :
      (as_allow : Bool) (s : Bytes) (bl : Blocklist x.Regex)
      → LineGrows bl (parse_regex x as_allow s bl)
  unfolding parse_regex
  parse_regex-LineGrows as_allow s bl = compiled (x.regex_new s)
    where
      compiled :
          (o : Option x.Regex)
          → LineGrows bl (elim o as (λ _. LineResult x) [
            | some re ↦ ok (add_regex x as_allow re bl, true)
            | none ↦ ok (bl, false)
          ])
      compiled none = Grows-refl bl
      compiled (some r) = add_regex-Grows as_allow r bl

  parse_pattern-LineGrows :
      (as_allow : Bool) (s : Bytes) (bl : Blocklist x.Regex)
      → LineGrows bl (parse_pattern x as_allow s bl)
  unfolding parse_pattern
  parse_pattern-LineGrows as_allow s bl = elim (Bool-cases (starts_with (codes "||") s)) [
    | inl e ↦ rw (e, parse_pattern) (parse_suffix-LineGrows as_allow s bl)
    | inr e ↦ elim (Bool-cases (starts_with (codes "/") s && ends_with_byte b'/' s)) [
      | inl k ↦ rw (e, k, parse_pattern) (regex (inner s))
      | inr k ↦ rw (e, k, parse_pattern) (parse_plain-LineGrows as_allow s bl)
    ]
  ]
    where
      regex :
          (o : Option Bytes)
          → LineGrows bl (elim o as (λ _. LineResult x) [
            | some pattern ↦ parse_regex x as_allow pattern bl
            | none ↦ fault out_of_range
          ])
      regex none = tt
      regex (some pattern) = parse_regex-LineGrows as_allow pattern bl

  parse_format-LineGrows :
      (f : ListFormat) (as_allow : Bool) (line : Bytes) (bl : Blocklist x.Regex)
      → LineGrows bl (parse_format x f as_allow line bl)
  unfolding parse_format parse_ad_block
  parse_format-LineGrows hosts as_allow line bl = parse_plain-LineGrows as_allow line bl
  parse_format-LineGrows pi_hole as_allow line bl = parse_plain-LineGrows as_allow line bl
  parse_format-LineGrows ad_block as_allow line bl =
      parse_pattern-LineGrows (as_allow || starts_with (codes "@@") line)
        (if starts_with (codes "@@") line then trim_start_pair b'@' b'@' line else line) bl
  parse_format-LineGrows ad_guard as_allow line bl =
      parse_pattern-LineGrows (as_allow || starts_with (codes "@@") line)
        (if starts_with (codes "@@") line then trim_start_pair b'@' b'@' line else line) bl

  pub parse_line_mode-LineGrows :
      (bl : Blocklist x.Regex) (line : Bytes) (f : ListFormat) (as_allow : Bool)
      → LineGrows bl (parse_line_mode x bl line f as_allow)
  unfolding parse_line_mode
  parse_line_mode-LineGrows bl line f as_allow = elim (Bool-cases (is_skipped (trim line))) [
    | inl skipped ↦ rw (skipped, parse_line_mode) (Grows-refl bl)
    | inr rule ↦ rw (rule, parse_line_mode) (parse_format-LineGrows f as_allow (trim line) bl)
  ]

  parse_auto_mode-LineGrows :
      (bl : Blocklist x.Regex) (line : Bytes) (as_allow : Bool)
      → LineGrows bl (parse_auto_mode x bl line as_allow)
  unfolding parse_auto_mode
  parse_auto_mode-LineGrows bl line as_allow = elim (Bool-cases (is_skipped (trim line))) [
    | inl skipped ↦ rw (skipped, parse_auto_mode) (Grows-refl bl)
    | inr rule ↦
        rw (rule, parse_auto_mode)
          (parse_line_mode-LineGrows bl (trim line)
            (if looks_ad_block x (trim line) then ad_block else hosts) as_allow)
  ]

  -- After a line come the others.
  pub then-GrowsTo :
      (bl : Blocklist x.Regex) (r : LineResult x)
      (f : Blocklist x.Regex → Result (Blocklist x.Regex))
      → LineGrows bl r
      → ((bl' : Blocklist x.Regex) → GrowsTo bl' (f bl'))
      → GrowsTo bl (elim r as (λ _. Result (Blocklist x.Regex)) [
        | ok (bl', compiled) ↦ f bl'
        | err e ↦ err e
        | fault e ↦ fault e
      ])
  then-GrowsTo bl (ok (bl', compiled)) f g h = and_then-GrowsTo bl (ok bl') f g h
  then-GrowsTo bl (err e) f g h = g
  then-GrowsTo bl (fault e) f g h = tt

  pub parse_each-GrowsTo :
      (as_allow : Bool) (ls : List Bytes) (bl : Blocklist x.Regex)
      → GrowsTo bl (parse_each x as_allow ls bl)
  unfolding parse_each
  parse_each-GrowsTo as_allow [] bl = Grows-refl bl
  parse_each-GrowsTo as_allow (l ∷ ls) bl =
      then-GrowsTo bl (parse_auto_mode x bl l as_allow) (parse_each x as_allow ls)
        (parse_auto_mode-LineGrows bl l as_allow) (λ bl'. parse_each-GrowsTo as_allow ls bl')

  regex_line-Grows :
      (as_allow : Bool) (line : Bytes) (bl : Blocklist x.Regex)
      → Grows bl (regex_line x as_allow line bl)
  unfolding regex_line
  regex_line-Grows as_allow line bl = patterned (regex_pattern x line)
    where
      compiled :
          (o : Option x.Regex)
          → Grows bl (elim o as (λ _. Blocklist x.Regex) [
            | some re ↦ add_regex x as_allow re bl
            | none ↦ bl
          ])
      compiled none = Grows-refl bl
      compiled (some r) = add_regex-Grows as_allow r bl

      patterned :
          (o : Option Bytes)
          → Grows bl (elim o as (λ _. Blocklist x.Regex) [
            | some pattern ↦ elim (x.regex_new pattern) [
              | some re ↦ add_regex x as_allow re bl
              | none ↦ bl
            ]
            | none ↦ bl
          ])
      patterned none = Grows-refl bl
      patterned (some pattern) = compiled (x.regex_new pattern)

  regex_each-Grows :
      (as_allow : Bool) (ls : List Bytes) (bl : Blocklist x.Regex)
      → Grows bl (regex_each x as_allow ls bl)
  unfolding regex_each
  regex_each-Grows as_allow [] bl = Grows-refl bl
  regex_each-Grows as_allow (l ∷ ls) bl =
      Grows-trans (regex_line-Grows as_allow l bl)
        (regex_each-Grows as_allow ls (regex_line x as_allow l bl))

  pub parse_lines_into-GrowsTo :
      (bl : Blocklist x.Regex) (body : Bytes) → GrowsTo bl (parse_lines_into x bl body)
  unfolding parse_lines_into
  parse_lines_into-GrowsTo bl body = parse_each-GrowsTo false (lines body) bl

  pub parse_lines_into_allow-GrowsTo :
      (bl : Blocklist x.Regex) (body : Bytes) → GrowsTo bl (parse_lines_into_allow x bl body)
  unfolding parse_lines_into_allow
  parse_lines_into_allow-GrowsTo bl body = parse_each-GrowsTo true (lines body) bl

  pub parse_lines_into_regex-Grows :
      (as_allow : Bool) (bl : Blocklist x.Regex) (body : Bytes)
      → Grows bl (parse_lines_into_regex x bl body as_allow)
  unfolding parse_lines_into_regex
  parse_lines_into_regex-Grows as_allow bl body = regex_each-Grows as_allow (lines body) bl
