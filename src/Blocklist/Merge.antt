-- ===== src/Blocklist/Merge.antt =====
-- `Blocklist::clear`, `fetch_and_parse` and `merge_blocklist` in src/blocklist.rs.
pub mod Hits
use dns_ligase.Blocklist.Lines.{
  ListFormat, parse_line_mode, parse_auto_mode, parse_line, parse_auto,
}
use dns_ligase.Blocklist.Pieces.{lines}
use dns_ligase.Blocklist.Rules.{External, Blocklist, HashSet, insert, new}
use dns_ligase.Io.{Result, ok, err, fault}
use dns_ligase.Prelude.{Bool, true, false, List, [], ◌∷◌, ◌++◌, Option, none, some, Bytes}

abbrev pub clear : {R : Type 0} → Blocklist R → Blocklist R
clear bl = record {
  allow_domains = [];
  block_domains = [];
  allow_suffixes = [];
  block_suffixes = [];
  allow_regex = [];
  block_regex = [];
}

-- `target.extend(source)`
unfoldable pub extend : HashSet → HashSet → HashSet
unfolding insert
extend target [] = target
extend target (entry ∷ entries) = extend (insert entry target) entries

unfoldable pub merge_blocklist : {R : Type 0} → (target source : Blocklist R) → Blocklist R
unfolding extend
merge_blocklist target source = record {
  allow_domains = extend target.allow_domains source.allow_domains;
  block_domains = extend target.block_domains source.block_domains;
  allow_suffixes = extend target.allow_suffixes source.allow_suffixes;
  block_suffixes = extend target.block_suffixes source.block_suffixes;
  allow_regex = target.allow_regex ++ source.allow_regex;
  block_regex = target.block_regex ++ source.block_regex;
}

module _ (x : External) where
  parse_one : Option ListFormat → Bytes → Blocklist x.Regex → Result (Blocklist x.Regex × Bool)
  unfolding parse_line_mode parse_auto_mode
  parse_one (some format) line bl = parse_line x bl line format
  parse_one none line bl = parse_auto x bl line

  -- The lines up to the first whose regex is invalid, which ends the loop with an error.
  parse_until :
      Option ListFormat → List Bytes → Blocklist x.Regex → Result (Blocklist x.Regex × Bool)
  unfolding parse_one
  parse_until format [] bl = ok (bl, true)
  parse_until format (line ∷ rest) bl = elim (parse_one format line bl) [
    | ok (bl', true) ↦ parse_until format rest bl'
    | ok (bl', false) ↦ ok (bl', false)
    | err e ↦ err e
    | fault f ↦ fault f
  ]

  -- The rules afterwards, and whether it returns `Ok`; `fetched` is the body, if the request succeeds.
  unfoldable pub fetch_and_parse :
      (fetched : Option Bytes)
      → Option ListFormat
      → Blocklist x.Regex
      → Result (Blocklist x.Regex × Bool)
  unfolding parse_until lines
  fetch_and_parse (some content) format bl = parse_until format (lines content) bl
  fetch_and_parse none format bl = ok (bl, false)
