-- ===== src/Blocklist/Lines/Suffix.antt =====
-- What a `||` line of a list in src/blocklist.rs comes to.
use dns_ligase.Blocklist.Lines.{
  parse_suffix, parse_pattern, parse_ad_block, parse_format, parse_line_mode, parse_auto_mode,
  parse_each, add_suffix, suffix_domain, ad_block, LineResult,
}
use dns_ligase.Blocklist.Rules.{External, Blocklist, contains, contains-insert}
use dns_ligase.Prelude.{
  ℕ, ◌<◌, ◌≡◌, refl, sym, ◌∙◌, Bool, true, false, ◌&&◌, ◌||◌, List, [], ◌∷◌, ◌++◌, map, All, any,
  arith, ◌==◌, leb, inl, inr, Bytes, bytes_eq, Bool-cases, ==_iff,
}
use dns_ligase.Text.Search.{
  codes, trim_end_byte, trim_start_pair, drop_while_eq, to_ascii_lowercase, bytes_eq_iff,
  bytes_eq_refl,
}
use dns_ligase.Text.Split.{split, split-single, Lacks, is_empty}
use dns_ligase.Text.Trim.{trim-keep}
use dns_ligase.Blocklist.Grows.{GrowsTo, Within}
use dns_ligase.Blocklist.Lines.Grows.{parse_each-GrowsTo}
use dns_ligase.Prelude.{if◌then◌else◌}
use dns_ligase.Io.{ok, err, fault, Result}
use mathlib.Core.List.{reverse, reverse-cons, reverse-append, reverse-reverse}
use mathlib.Core.Bool.{false≢true}
use mathlib.Core.Path.{subst}

-- A lower case letter, a digit, a dash, an underscore or a dot.
abbrev pub is_name_byte : ℕ → Bool
is_name_byte b =
    (leb b'a' b && leb b b'z') || (leb b'0' b && leb b b'9') || b == b'-' || b == b'_' || b == b'.'

-- A name as lists write it: not empty, of such bytes, and not with a dot at the end.
pub record IsPlain (d : Bytes) : Type 0 where
  pub not_empty : is_empty d ≡ false
  pub name_bytes : All (λ b. is_name_byte b ≡ true) d
  pub no_dot_behind : trim_end_byte b'.' d ≡ d

abbrev pub suffix_line : Bytes → Bytes
suffix_line d = codes "||" ++ (d ++ codes "^")

plain-Lacks :
    (sep : ℕ) (d : Bytes)
    → is_name_byte sep ≡ false
    → All (λ b. is_name_byte b ≡ true) d
    → Lacks sep d
plain-Lacks sep [] s h = refl
plain-Lacks sep (b ∷ d) s h = elim (Bool-cases (b == sep)) [
  | inl e ↦
      absurd (false≢true (sym s ∙ subst (λ c. is_name_byte c ≡ true) ((==_iff b sep).0 e) h.0))
  | inr e ↦ rw e (plain-Lacks sep d s h.1)
]

lowercase_byte : (b : ℕ) → is_name_byte b ≡ true → to_ascii_lowercase b ≡ b
lowercase_byte b h = ground arith

ascii_byte : (b : ℕ) → is_name_byte b ≡ true → b < 128
ascii_byte b h = ground arith

plain-lowercase : (d : Bytes) → All (λ b. is_name_byte b ≡ true) d → map to_ascii_lowercase d ≡ d
plain-lowercase [] h = refl
plain-lowercase (b ∷ d) h = rw (lowercase_byte b h.0, plain-lowercase d h.1) refl

plain-ascii : (d : Bytes) → All (λ b. is_name_byte b ≡ true) d → All (λ b. b < 128) d
plain-ascii [] h = tt
plain-ascii (b ∷ d) h = (ascii_byte b h.0, plain-ascii d h.1)

Lacks-append : (sep : ℕ) (s t : Bytes) → Lacks sep s → Lacks sep t → Lacks sep (s ++ t)
Lacks-append sep [] t h k = k
Lacks-append sep (b ∷ s) t h k = ground (arith, Lacks-append sep s t)

Lacks-reverse : (sep : ℕ) (s : Bytes) → Lacks sep s → Lacks sep (reverse s)
Lacks-reverse sep [] h = refl
Lacks-reverse sep (b ∷ s) h = rw (reverse-cons b s) (
    Lacks-append sep (reverse s) (b ∷ []) (Lacks-reverse sep s (ground (arith, h)))
      (ground (arith, h)))

drop_while_eq-Lacks : (b : ℕ) (s : Bytes) → Lacks b s → drop_while_eq b s ≡ s
unfolding drop_while_eq
drop_while_eq-Lacks b [] h = refl
drop_while_eq-Lacks b (c ∷ s) h = ground (arith, h)

-- A separator at the end goes, and nothing else.
trim_end_byte-last : (b : ℕ) (s : Bytes) → Lacks b s → trim_end_byte b (s ++ b ∷ []) ≡ s
unfolding trim_end_byte drop_while_eq
trim_end_byte-last b s h =
    rw
      (
        reverse-append s (b ∷ []),
        same b,
        drop_while_eq-Lacks b (reverse s) (Lacks-reverse b s h),
        reverse-reverse s,
      )
      refl
  where
    same : (b : ℕ) → (b == b) ≡ true
    same b = ground arith

trim_start_pair-keep :
    (a b : ℕ) (d rest : Bytes)
    → is_empty d ≡ false
    → Lacks a d
    → trim_start_pair a b (d ++ rest) ≡ d ++ rest
unfolding trim_start_pair
trim_start_pair-keep a b [] rest h k = ground arith
trim_start_pair-keep a b (c ∷ []) [] h k = refl
trim_start_pair-keep a b (c ∷ []) (x ∷ rest) h k = ground (arith, k)
trim_start_pair-keep a b (c ∷ x ∷ d) rest h k = ground (arith, k)

module _ (x : External) where
  suffix_domain-plain : (d : Bytes) → IsPlain d → suffix_domain x (suffix_line d) ≡ d
  unfolding suffix_domain split trim_start_pair
  suffix_domain-plain d p =
      let lacks : (sep : ℕ) → is_name_byte sep ≡ false → Lacks sep d =
        λ sep h. plain-Lacks sep d h p.name_bytes in
      rw
        (
          suffix_domain,
          trim_start_pair,
          trim_start_pair-keep b'|' b'|' d (codes "^") p.not_empty (lacks b'|' refl),
          split-single b'$' (d ++ codes "^")
              (Lacks-append b'$' d (codes "^") (lacks b'$' refl) refl),
          trim_end_byte-last b'^' d (lacks b'^' refl),
          p.no_dot_behind,
          x.to_lowercase_ascii d (plain-ascii d p.name_bytes),
          plain-lowercase d p.name_bytes,
        )
        refl

  parse_suffix-plain :
      (as_allow : Bool) (d : Bytes) (bl : Blocklist x.Regex)
      → IsPlain d
      → parse_suffix x as_allow (suffix_line d) bl ≡ ok (add_suffix x as_allow d bl, true)
  unfolding parse_suffix
  parse_suffix-plain as_allow d bl p = rw (suffix_domain-plain d p, p.not_empty) refl

  parse_line_mode-plain :
      (as_allow : Bool) (d : Bytes) (bl : Blocklist x.Regex)
      → IsPlain d
      → parse_line_mode x bl (suffix_line d) ad_block as_allow
        ≡ ok (add_suffix x as_allow d bl, true)
  unfolding parse_line_mode parse_format parse_ad_block parse_pattern parse_suffix
  parse_line_mode-plain true d bl p = rw (trim-keep (b'|' ∷ d)) (parse_suffix-plain true d bl p)
  parse_line_mode-plain false d bl p = rw (trim-keep (b'|' ∷ d)) (parse_suffix-plain false d bl p)

  -- A line `||d^` in lower case is a rule for `d` and the names below it.
  parse_auto_mode-plain :
      (as_allow : Bool) (d : Bytes) (bl : Blocklist x.Regex)
      → IsPlain d
      → parse_auto_mode x bl (suffix_line d) as_allow ≡ ok (add_suffix x as_allow d bl, true)
  unfolding parse_auto_mode
  parse_auto_mode-plain as_allow d bl p =
      rw (trim-keep (b'|' ∷ d)) (parse_line_mode-plain as_allow d bl p)

  -- The rule is among those of the list, whatever its other lines are.
  pub parse_each-plain :
      (as_allow : Bool) (d : Bytes) (ls : List Bytes) (bl bl' : Blocklist x.Regex)
      → IsPlain d
      → any (bytes_eq (suffix_line d)) ls ≡ true
      → parse_each x as_allow ls bl ≡ ok bl'
      → contains (if as_allow then bl'.allow_suffixes else bl'.block_suffixes) d ≡ true
  unfolding parse_each Within add_suffix
  parse_each-plain as_allow d [] bl bl' p m h = ground arith
  parse_each-plain as_allow d (l ∷ ls) bl bl' p m h =
      elim (Bool-cases (bytes_eq (suffix_line d) l)) [
        | inl e ↦ added as_allow (
            rw
              (
                ← (bytes_eq_iff (suffix_line d) l).0 e,
                parse_each,
                parse_auto_mode-plain as_allow d bl p,
              )
              at h)
        | inr e ↦
            next (parse_auto_mode x bl l as_allow)
              (λ bl₁. parse_each-plain as_allow d ls bl₁ bl' p (rw e at m)) h
      ]
    where
      added :
          (as_allow : Bool)
          → parse_each x as_allow ls (add_suffix x as_allow d bl) ≡ ok bl'
          → contains (if as_allow then bl'.allow_suffixes else bl'.block_suffixes) d ≡ true
      added true e =
          (subst (GrowsTo (add_suffix x true d bl)) e
              (parse_each-GrowsTo x true ls (add_suffix x true d bl))).allow_suffixes_stay
            d (rw (contains-insert d d bl.allow_suffixes, bytes_eq_refl d) refl)
      added false e =
          (subst (GrowsTo (add_suffix x false d bl)) e
              (parse_each-GrowsTo x false ls (add_suffix x false d bl))).block_suffixes_stay
            d (rw (contains-insert d d bl.block_suffixes, bytes_eq_refl d) refl)

      next :
          (r : LineResult x)
          → ((bl₁ : Blocklist x.Regex)
              → parse_each x as_allow ls bl₁ ≡ ok bl'
              → contains (if as_allow then bl'.allow_suffixes else bl'.block_suffixes) d ≡ true)
          → (elim r as (λ _. Result (Blocklist x.Regex)) [
            | ok (bl₁, compiled) ↦ parse_each x as_allow ls bl₁
            | err e ↦ err e
            | fault f ↦ fault f
          ])
            ≡ ok bl'
          → contains (if as_allow then bl'.allow_suffixes else bl'.block_suffixes) d ≡ true
      next (ok (bl₁, compiled)) ih e = ih bl₁ e
      next (err e') ih e = ground arith
      next (fault f) ih e = ground arith
