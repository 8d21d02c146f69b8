-- ===== src/Blocklist/Lines/Alone.antt =====
-- A line of a list in src/blocklist.rs adds the same rules whatever the rules are that it meets.
use dns_ligase.Blocklist.Lines.{
  parse_plain, parse_suffix, parse_regex, parse_pattern, parse_ad_block, parse_format,
  parse_line_mode, parse_auto_mode, add_domain, add_suffix, add_regex, suffix_domain, ListFormat,
  hosts, pi_hole, ad_block, ad_guard, LineResult, looks_ad_block,
}
use dns_ligase.Blocklist.Pieces.{clean_domain_static, is_skipped, inner}
use dns_ligase.Blocklist.Rules.{External, Blocklist, insert, new}
use dns_ligase.Blocklist.Merge.{merge_blocklist}
use dns_ligase.Blocklist.Unordered.Loops.{merge-new}
use dns_ligase.Io.{ok, err, fault, out_of_range}
use dns_ligase.Prelude.{
  ◌&&◌, ◌||◌, Bool-cases, if◌then◌else◌, Bool, true, false, Option, none, some, arith, inl, inr,
  Bytes, ◌≡◌, refl, sym, ap, append-nil,
}
use dns_ligase.Text.Search.{starts_with, codes, ends_with_byte, trim_start_pair}
use dns_ligase.Text.Trim.{trim}

module _ (x : External) where
  -- The result of a line, with rules before it.
  abbrev pub after : Blocklist x.Regex → LineResult x → LineResult x
  after bl (ok (added, compiled)) = ok (merge_blocklist bl added, compiled)
  after bl (err e) = err e
  after bl (fault f) = fault f

  after-new :
      (bl : Blocklist x.Regex) (compiled : Bool) → after bl (ok (new, compiled)) ≡ ok (bl, compiled)
  after-new bl compiled = ap (λ b. ok (b, compiled)) (merge-new bl)

  add_domain-merge :
      (as_allow : Bool) (d : Bytes) (bl : Blocklist x.Regex)
      → add_domain x as_allow d bl ≡ merge_blocklist bl (add_domain x as_allow d new)
  unfolding add_domain merge_blocklist insert
  add_domain-merge true d bl = rw (append-nil bl.allow_regex, append-nil bl.block_regex) refl
  add_domain-merge false d bl = rw (append-nil bl.allow_regex, append-nil bl.block_regex) refl

  add_suffix-merge :
      (as_allow : Bool) (d : Bytes) (bl : Blocklist x.Regex)
      → add_suffix x as_allow d bl ≡ merge_blocklist bl (add_suffix x as_allow d new)
  unfolding add_suffix merge_blocklist insert
  add_suffix-merge true d bl = rw (append-nil bl.allow_regex, append-nil bl.block_regex) refl
  add_suffix-merge false d bl = rw (append-nil bl.allow_regex, append-nil bl.block_regex) refl

  pub add_regex-merge :
      (as_allow : Bool) (r : x.Regex) (bl : Blocklist x.Regex)
      → add_regex x as_allow r bl ≡ merge_blocklist bl (add_regex x as_allow r new)
  unfolding add_regex merge_blocklist
  add_regex-merge true r bl = rw (append-nil bl.block_regex) refl
  add_regex-merge false r bl = rw (append-nil bl.allow_regex) refl

  parse_plain-after :
      (as_allow : Bool) (line : Bytes) (bl : Blocklist x.Regex)
      → parse_plain x as_allow line bl ≡ after bl (parse_plain x as_allow line new)
  unfolding parse_plain
  parse_plain-after as_allow line bl = cleaned (clean_domain_static line)
    where
      plain : Option Bytes → Blocklist x.Regex → LineResult x
      plain o bl = elim o [
        | some domain ↦ ok (add_domain x as_allow (x.to_lowercase domain) bl, true)
        | none ↦ ok (bl, true)
      ]

      cleaned : (o : Option Bytes) → plain o bl ≡ after bl (plain o new)
      cleaned none = sym (after-new bl true)
      cleaned (some d) = ap (λ b. ok (b, true)) (add_domain-merge as_allow (x.to_lowercase d) bl)

  parse_suffix-after :
      (as_allow : Bool) (s : Bytes) (bl : Blocklist x.Regex)
      → parse_suffix x as_allow s bl ≡ after bl (parse_suffix x as_allow s new)
  unfolding parse_suffix
  parse_suffix-after as_allow s bl =
      ground (arith, after-new bl true, add_suffix-merge as_allow (suffix_domain x s) bl)

  parse_regex-after :
      (as_allow : Bool) (s : Bytes) (bl : Blocklist x.Regex)
      → parse_regex x as_allow s bl ≡ after bl (parse_regex x as_allow s new)
  unfolding parse_regex
  parse_regex-after as_allow s bl = compiled (x.regex_new s)
    where
      added : Option x.Regex → Blocklist x.Regex → LineResult x
      added o bl = elim o [
        | some re ↦ ok (add_regex x as_allow re bl, true)
        | none ↦ ok (bl, false)
      ]

      compiled : (o : Option x.Regex) → added o bl ≡ after bl (added o new)
      compiled none = sym (after-new bl false)
      compiled (some r) = ap (λ b. ok (b, true)) (add_regex-merge as_allow r bl)

  parse_pattern-after :
      (as_allow : Bool) (s : Bytes) (bl : Blocklist x.Regex)
      → parse_pattern x as_allow s bl ≡ after bl (parse_pattern x as_allow s new)
  unfolding parse_pattern
  parse_pattern-after as_allow s bl = elim (Bool-cases (starts_with (codes "||") s)) [
    | inl e ↦ rw (e, parse_pattern) (parse_suffix-after as_allow s bl)
    | inr e ↦ elim (Bool-cases (starts_with (codes "/") s && ends_with_byte b'/' s)) [
      | inl k ↦ rw (e, k, parse_pattern) (regex (inner s))
      | inr k ↦ rw (e, k, parse_pattern) (parse_plain-after as_allow s bl)
    ]
  ]
    where
      delimited : Option Bytes → Blocklist x.Regex → LineResult x
      delimited o bl = elim o [
        | some pattern ↦ parse_regex x as_allow pattern bl
        | none ↦ fault out_of_range
      ]

      regex : (o : Option Bytes) → delimited o bl ≡ after bl (delimited o new)
      regex none = refl
      regex (some pattern) = parse_regex-after as_allow pattern bl

  parse_format-after :
      (f : ListFormat) (as_allow : Bool) (line : Bytes) (bl : Blocklist x.Regex)
      → parse_format x f as_allow line bl ≡ after bl (parse_format x f as_allow line new)
  unfolding parse_format parse_ad_block
  parse_format-after hosts as_allow line bl = parse_plain-after as_allow line bl
  parse_format-after pi_hole as_allow line bl = parse_plain-after as_allow line bl
  parse_format-after ad_block as_allow line bl =
      parse_pattern-after (as_allow || starts_with (codes "@@") line)
        (if starts_with (codes "@@") line then trim_start_pair b'@' b'@' line else line) bl
  parse_format-after ad_guard as_allow line bl =
      parse_pattern-after (as_allow || starts_with (codes "@@") line)
        (if starts_with (codes "@@") line then trim_start_pair b'@' b'@' line else line) bl

  pub parse_line_mode-after :
      (bl : Blocklist x.Regex) (line : Bytes) (f : ListFormat) (as_allow : Bool)
      → parse_line_mode x bl line f as_allow ≡ after bl (parse_line_mode x new line f as_allow)
  unfolding parse_line_mode
  parse_line_mode-after bl line f as_allow = elim (Bool-cases (is_skipped (trim line))) [
    | inl skipped ↦ rw (skipped, parse_line_mode) (sym (after-new bl true))
    | inr rule ↦ rw (rule, parse_line_mode) (parse_format-after f as_allow (trim line) bl)
  ]

  pub parse_auto_mode-after :
      (bl : Blocklist x.Regex) (line : Bytes) (as_allow : Bool)
      → parse_auto_mode x bl line as_allow ≡ after bl (parse_auto_mode x new line as_allow)
  unfolding parse_auto_mode
  parse_auto_mode-after bl line as_allow = elim (Bool-cases (is_skipped (trim line))) [
    | inl skipped ↦ rw (skipped, parse_auto_mode) (sym (after-new bl true))
    | inr rule ↦
        rw (rule, parse_auto_mode)
          (parse_line_mode-after bl (trim line)
            (if looks_ad_block x (trim line) then ad_block else hosts) as_allow)
  ]
