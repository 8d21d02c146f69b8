-- ===== src/Blocklist/Lines/Routing.antt =====
-- Where src/blocklist.rs puts the rules of a line, and lines that it cannot take apart.
use dns_ligase.Blocklist.Lines.{
  parse_plain, parse_pattern, parse_ad_block, parse_format, parse_line_mode, parse_auto_mode,
  parse_each, parse_lines_into_allow, ListFormat, hosts, pi_hole, ad_block, ad_guard, LineResult,
  looks_ad_block,
}
use dns_ligase.Blocklist.Pieces.{
  clean_domain_static, is_local_name, is_cosmetic, hosts_domain, lines, is_skipped, before,
}
use dns_ligase.Blocklist.Rules.{External, Blocklist}
use dns_ligase.Io.{Result, ok, err, fault, out_of_range}
use dns_ligase.Prelude.{
  ◌≡◌, ◌≢◌, refl, Bool, true, false, List, [], ◌∷◌, ◌++◌, some, none, arith, Bytes, Bool-cases,
  if◌then◌else◌, inl, sym, inr,
}
use dns_ligase.Text.Search.{codes, starts_with, trim_start_pair}
use dns_ligase.Text.Trim.{trim}

hosts_domain-is_local_name : (s d : Bytes) → hosts_domain s ≡ some d → is_local_name d ≡ false
unfolding hosts_domain
hosts_domain-is_local_name s d h = ground arith

none≢some : {d : Bytes} → some d ≢ none
none≢some e = cc

-- The domain taken from a line is none of the names of the local host, in any case of letters.
pub clean_domain_static-is_local_name :
    (line d : Bytes) → clean_domain_static line ≡ some d → is_local_name d ≡ false
unfolding clean_domain_static
clean_domain_static-is_local_name line d h = elim (Bool-cases (is_cosmetic line)) [
  | inl cosmetic ↦ absurd (none≢some (sym (rw cosmetic at h)))
  | inr rule ↦ hosts_domain-is_local_name (trim (before b'#' line)) d (rw rule at h)
]

module _ (x : External) where
  abbrev pub SameBlocks : Blocklist x.Regex → LineResult x → Type 0
  SameBlocks bl (ok (bl', compiled)) =
      (bl'.block_domains ≡ bl.block_domains)
      × (bl'.block_suffixes ≡ bl.block_suffixes)
      × (bl'.block_regex ≡ bl.block_regex)
  SameBlocks bl (err e) = Unit
  SameBlocks bl (fault f) = Unit

  parse_plain-SameBlocks :
      (line : Bytes) (bl : Blocklist x.Regex) → SameBlocks bl (parse_plain x true line bl)
  unfolding parse_plain
  parse_plain-SameBlocks line bl = ground arith

  parse_pattern-SameBlocks :
      (s : Bytes) (bl : Blocklist x.Regex) → SameBlocks bl (parse_pattern x true s bl)
  unfolding parse_pattern
  parse_pattern-SameBlocks s bl = ground (arith, parse_plain-SameBlocks s bl)

  parse_ad_block-SameBlocks :
      (line : Bytes) (bl : Blocklist x.Regex) → SameBlocks bl (parse_ad_block x true line bl)
  unfolding parse_ad_block
  parse_ad_block-SameBlocks line bl =
      parse_pattern-SameBlocks
        (if starts_with (codes "@@") line then trim_start_pair b'@' b'@' line else line) bl

  parse_format-SameBlocks :
      (f : ListFormat) (line : Bytes) (bl : Blocklist x.Regex)
      → SameBlocks bl (parse_format x f true line bl)
  unfolding parse_format
  parse_format-SameBlocks hosts line bl = parse_plain-SameBlocks line bl
  parse_format-SameBlocks pi_hole line bl = parse_plain-SameBlocks line bl
  parse_format-SameBlocks ad_block line bl = parse_ad_block-SameBlocks line bl
  parse_format-SameBlocks ad_guard line bl = parse_ad_block-SameBlocks line bl

  parse_line_mode-SameBlocks :
      (bl : Blocklist x.Regex) (line : Bytes) (f : ListFormat)
      → SameBlocks bl (parse_line_mode x bl line f true)
  unfolding parse_line_mode
  parse_line_mode-SameBlocks bl line f = elim (Bool-cases (is_skipped (trim line))) [
    | inl skipped ↦ rw (skipped, parse_line_mode) (refl, refl, refl)
    | inr rule ↦ rw (rule, parse_line_mode) (parse_format-SameBlocks f (trim line) bl)
  ]

  parse_auto_mode-SameBlocks :
      (bl : Blocklist x.Regex) (line : Bytes) → SameBlocks bl (parse_auto_mode x bl line true)
  unfolding parse_auto_mode
  parse_auto_mode-SameBlocks bl line = elim (Bool-cases (is_skipped (trim line))) [
    | inl skipped ↦ rw (skipped, parse_auto_mode) (refl, refl, refl)
    | inr rule ↦
        rw (rule, parse_auto_mode)
          (parse_line_mode-SameBlocks bl (trim line)
            (if looks_ad_block x (trim line) then ad_block else hosts))
  ]

  abbrev pub BlocksOf : Blocklist x.Regex → Blocklist x.Regex → Type 0
  BlocksOf bl bl' =
      (bl'.block_domains ≡ bl.block_domains)
      × (bl'.block_suffixes ≡ bl.block_suffixes)
      × (bl'.block_regex ≡ bl.block_regex)

  parse_each-SameBlocks :
      (ls : List Bytes) (bl bl' : Blocklist x.Regex)
      → parse_each x true ls bl ≡ ok bl'
      → BlocksOf bl bl'
  unfolding parse_each
  parse_each-SameBlocks [] bl bl' h = ground arith
  parse_each-SameBlocks (l ∷ ls) bl bl' h =
      next (parse_auto_mode x bl l true) (parse_auto_mode-SameBlocks bl l)
        (λ bl₁. parse_each-SameBlocks ls bl₁ bl') h
    where
      next :
          (r : LineResult x)
          → SameBlocks bl r
          → ((bl₁ : Blocklist x.Regex) → parse_each x true ls bl₁ ≡ ok bl' → BlocksOf bl₁ bl')
          → (elim r as (λ _. Result (Blocklist x.Regex)) [
            | ok (bl₁, compiled) ↦ parse_each x true ls bl₁
            | err e ↦ err e
            | fault f ↦ fault f
          ])
            ≡ ok bl'
          → BlocksOf bl bl'
      next (ok (bl₁, compiled)) k ih e = ground (arith, ih bl₁ e)
      next (err e') k ih e = ground arith
      next (fault f) k ih e = ground arith

  -- An allow list that is parsed to its end adds no block rule, whatever its lines are.
  pub parse_lines_into_allow-blocks :
      (bl bl' : Blocklist x.Regex) (body : Bytes)
      → parse_lines_into_allow x bl body ≡ ok bl'
      → (bl'.block_domains ≡ bl.block_domains)
        × (bl'.block_suffixes ≡ bl.block_suffixes)
        × (bl'.block_regex ≡ bl.block_regex)
  unfolding parse_lines_into_allow
  parse_lines_into_allow-blocks bl bl' body h = parse_each-SameBlocks (lines body) bl bl' h

  -- A line that is a single slash.
  slash_faults :
      (bl : Blocklist x.Regex) (line : Bytes) (as_allow : Bool)
      → trim line ≡ codes "/"
      → parse_auto_mode x bl line as_allow ≡ fault out_of_range
  unfolding parse_auto_mode
  slash_faults bl line as_allow h = rw (h, parse_auto_mode)

  -- A list with a line that is a single slash, whatever surrounds it, is never parsed to its end.
  pub slash_line_panics :
      (pre post : List Bytes) (line : Bytes) (as_allow : Bool) (bl bl' : Blocklist x.Regex)
      → trim line ≡ codes "/"
      → parse_each x as_allow (pre ++ line ∷ post) bl ≢ ok bl'
  unfolding parse_each
  slash_line_panics [] post line as_allow bl bl' h e =
      fault≢ok (parse_auto_mode x bl line as_allow) (slash_faults bl line as_allow h) e
    where
      fault≢ok :
          (r : LineResult x)
          → r ≡ fault out_of_range
          → (elim r as (λ _. Result (Blocklist x.Regex)) [
            | ok (bl₁, compiled) ↦ parse_each x as_allow post bl₁
            | err e ↦ err e
            | fault f ↦ fault f
          ])
            ≢ ok bl'
      fault≢ok (ok (bl₁, compiled)) k e = ground arith
      fault≢ok (err e') k e = ground arith
      fault≢ok (fault f) k e = ground arith
  slash_line_panics (l ∷ pre) post line as_allow bl bl' h e =
      next (parse_auto_mode x bl l as_allow)
        (λ bl₁. slash_line_panics pre post line as_allow bl₁ bl' h) e
    where
      next :
          (r : LineResult x)
          → ((bl₁ : Blocklist x.Regex) → parse_each x as_allow (pre ++ line ∷ post) bl₁ ≢ ok bl')
          → (elim r as (λ _. Result (Blocklist x.Regex)) [
            | ok (bl₁, compiled) ↦ parse_each x as_allow (pre ++ line ∷ post) bl₁
            | err e ↦ err e
            | fault f ↦ fault f
          ])
            ≢ ok bl'
      next (ok (bl₁, compiled)) ih e = ih bl₁ e
      next (err e') ih e = ground arith
      next (fault f) ih e = ground arith
