-- ===== src/Blocklist/Lines.antt =====
-- How lines of lists become rules: `parse_line_mode`, `parse_auto_mode` and the functions over whole
-- list bodies in src/blocklist.rs.
pub mod Routing
pub mod Grows
pub mod Alone
pub mod Turns
pub mod Suffix
use dns_ligase.Blocklist.Pieces.{
  clean_domain_static, is_skipped, before, inner, lines, before_text, unwrapped,
}
use dns_ligase.Blocklist.Rules.{External, insert, Blocklist}
use dns_ligase.Io.{Result, ok, err, fault, out_of_range}
use dns_ligase.Prelude.{
  Bool, true, false, ◌&&◌, ◌||◌, List, [], ◌∷◌, ◌++◌, Option, none, some, ◌==◌, if◌then◌else◌,
  Bytes,
}
use dns_ligase.Text.Search.{codes, starts_with, ends_with_byte, trim_start_pair, trim_end_byte}
use dns_ligase.Text.Split.{split, is_empty}
use dns_ligase.Text.Trim.{trim}

pub data ListFormat : Type 0 where
  hosts ad_block pi_hole ad_guard : ListFormat

module _ (x : External) where
  -- The rules after a line, and whether its regex, if it had one, was compiled (`Ok` or `Err`); a
  -- `fault` is a panic.
  abbrev pub LineResult : Type 0
  LineResult = Result (Blocklist x.Regex × Bool)

  add_domain : Bool → Bytes → Blocklist x.Regex → Blocklist x.Regex
  unfolding insert
  add_domain as_allow d bl =
      if as_allow
      then record bl { allow_domains = insert d bl.allow_domains }
      else record bl { block_domains = insert d bl.block_domains }

  add_suffix : Bool → Bytes → Blocklist x.Regex → Blocklist x.Regex
  unfolding insert
  add_suffix as_allow d bl =
      if as_allow
      then record bl { allow_suffixes = insert d bl.allow_suffixes }
      else record bl { block_suffixes = insert d bl.block_suffixes }

  unfoldable pub add_regex : Bool → x.Regex → Blocklist x.Regex → Blocklist x.Regex
  add_regex as_allow r bl =
      if as_allow
      then record bl { allow_regex = bl.allow_regex ++ r ∷ [] }
      else record bl { block_regex = bl.block_regex ++ r ∷ [] }

  -- A bare domain or a line in hosts format.
  parse_plain : Bool → Bytes → Blocklist x.Regex → LineResult
  unfolding clean_domain_static add_domain
  parse_plain as_allow line bl = elim (clean_domain_static line) [
    | some domain ↦ ok (add_domain as_allow (x.to_lowercase domain) bl, true)
    | none ↦ ok (bl, true)
  ]

  -- The domain of a `||` rule: without options, separators and dots at the end, in lower case.
  suffix_domain : Bytes → Bytes
  unfolding trim_start_pair trim_end_byte split
  suffix_domain s =
      x.to_lowercase
        (trim_end_byte b'.' (trim_end_byte b'^' (before b'$' (trim_start_pair b'|' b'|' s))))

  parse_suffix : Bool → Bytes → Blocklist x.Regex → LineResult
  unfolding suffix_domain add_suffix
  parse_suffix as_allow s bl =
      let domain = suffix_domain s in
      if is_empty domain then ok (bl, true) else ok (add_suffix as_allow domain bl, true)

  parse_regex : Bool → Bytes → Blocklist x.Regex → LineResult
  unfolding add_regex
  parse_regex as_allow pattern bl = elim (x.regex_new pattern) [
    | some re ↦ ok (add_regex as_allow re bl, true)
    | none ↦ ok (bl, false)
  ]

  -- A line in AdBlock format, behind its `@@`s.
  parse_pattern : Bool → Bytes → Blocklist x.Regex → LineResult
  unfolding parse_suffix parse_regex parse_plain inner starts_with ends_with_byte
  parse_pattern as_allow s bl =
      if starts_with (codes "||") s
      then parse_suffix as_allow s bl
      else if starts_with (codes "/") s && ends_with_byte b'/' s
      then elim (inner s) [
        | some pattern ↦ parse_regex as_allow pattern bl
        | none ↦ fault out_of_range
      ]
      else parse_plain as_allow s bl

  parse_ad_block : Bool → Bytes → Blocklist x.Regex → LineResult
  unfolding parse_pattern trim_start_pair
  parse_ad_block as_allow line bl =
      let has_at = starts_with (codes "@@") line in
      parse_pattern (as_allow || has_at) (if has_at then trim_start_pair b'@' b'@' line else line)
        bl

  parse_format : ListFormat → Bool → Bytes → Blocklist x.Regex → LineResult
  unfolding parse_plain parse_ad_block
  parse_format hosts as_allow line bl = parse_plain as_allow line bl
  parse_format pi_hole as_allow line bl = parse_plain as_allow line bl
  parse_format ad_block as_allow line bl = parse_ad_block as_allow line bl
  parse_format ad_guard as_allow line bl = parse_ad_block as_allow line bl

  unfoldable pub parse_line_mode : Blocklist x.Regex → Bytes → ListFormat → Bool → LineResult
  unfolding parse_format is_skipped trim
  parse_line_mode bl line format as_allow =
      let line = trim line in
      if is_skipped line then ok (bl, true) else parse_format format as_allow line bl

  -- `parse_line` and `parse_auto` are the cases of block lists.
  abbrev pub parse_line : Blocklist x.Regex → Bytes → ListFormat → LineResult
  parse_line bl line format = parse_line_mode bl line format false

  looks_ad_block : Bytes → Bool
  unfolding starts_with ends_with_byte
  looks_ad_block line =
      starts_with (codes "||") line
      || starts_with (codes "@@") line
      || (starts_with (codes "/") line && ends_with_byte b'/' line)

  unfoldable pub parse_auto_mode : Blocklist x.Regex → Bytes → Bool → LineResult
  unfolding parse_line_mode looks_ad_block is_skipped trim
  parse_auto_mode bl line as_allow =
      let line = trim line in
      if is_skipped line
      then ok (bl, true)
      else parse_line_mode bl line (if looks_ad_block line then ad_block else hosts) as_allow

  abbrev pub parse_auto : Blocklist x.Regex → Bytes → LineResult
  parse_auto bl line = parse_auto_mode bl line false

  -- `for line in body.lines() { let _ = .. }`: a line that fails leaves the rules as they are.
  unfoldable pub parse_each : Bool → List Bytes → Blocklist x.Regex → Result (Blocklist x.Regex)
  unfolding parse_auto_mode
  parse_each as_allow [] bl = ok bl
  parse_each as_allow (line ∷ rest) bl = elim (parse_auto_mode bl line as_allow) [
    | ok (bl', compiled) ↦ parse_each as_allow rest bl'
    | err e ↦ err e
    | fault f ↦ fault f
  ]

  -- `parse_lines_into` and `parse_lines_into_allow`.
  unfoldable pub parse_lines_into : Blocklist x.Regex → Bytes → Result (Blocklist x.Regex)
  unfolding parse_each lines
  parse_lines_into bl body = parse_each false (lines body) bl

  unfoldable pub parse_lines_into_allow : Blocklist x.Regex → Bytes → Result (Blocklist x.Regex)
  unfolding parse_each lines
  parse_lines_into_allow bl body = parse_each true (lines body) bl

  -- The pattern of a line of a regex list, if it has one.
  regex_pattern : Bytes → Option Bytes
  unfolding starts_with trim before_text unwrapped is_skipped
  regex_pattern line =
      let line = trim line in
      let pattern = trim (before_text (codes " -- ") line) in
      let bare = unwrapped pattern in
      if is_skipped line || starts_with (codes "--") line
      then none
      else if is_empty pattern
      then none
      else if is_empty bare
      then none
      else some bare

  regex_line : Bool → Bytes → Blocklist x.Regex → Blocklist x.Regex
  unfolding regex_pattern add_regex
  regex_line as_allow line bl = elim (regex_pattern line) [
    | some pattern ↦ elim (x.regex_new pattern) [ some re ↦ add_regex as_allow re bl | none ↦ bl ]
    | none ↦ bl
  ]

  pub regex_each : Bool → List Bytes → Blocklist x.Regex → Blocklist x.Regex
  unfolding regex_line
  regex_each as_allow [] bl = bl
  regex_each as_allow (line ∷ rest) bl = regex_each as_allow rest (regex_line as_allow line bl)

  unfoldable pub parse_lines_into_regex : Blocklist x.Regex → Bytes → Bool → Blocklist x.Regex
  unfolding regex_each lines
  parse_lines_into_regex bl body as_allow = regex_each as_allow (lines body) bl
