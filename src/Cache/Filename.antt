-- ===== src/Cache/Filename.antt =====
-- `url_to_filename` in src/blocklist.rs.
use dns_ligase.Prelude.{
  ℕ, zero, suc, ◌+◌, ◌*◌, ◌/◌, ◌%◌, ◌^◌, ◌≤◌, ◌≡◌, bit_xor, Bool, true, ◌&&◌, ◌||◌, [], ◌∷◌, ◌++◌,
  none, some, ◌==◌, ltb, leb, if◌then◌else◌, Bytes, length, take, All, arith, refl, Bool-cases, inl,
  inr, ◌-◌, All-append, length-append,
}
use dns_ligase.Text.Search.{codes, strip_prefix, is_ascii_uppercase}

is_ascii_digit : ℕ → Bool
is_ascii_digit b = leb b'0' b && leb b b'9'

is_ascii_lowercase : ℕ → Bool
is_ascii_lowercase b = leb b'a' b && leb b b'z'

-- The characters that a file name keeps.
unfoldable pub is_plain : ℕ → Bool
unfolding is_ascii_digit is_ascii_lowercase
is_plain b =
    is_ascii_uppercase b
    || is_ascii_lowercase b
    || is_ascii_digit b
    || b == b'.'
    || b == b'_'
    || b == b'-'

without_scheme : Bytes → Bytes
unfolding strip_prefix
without_scheme url = elim (strip_prefix (codes "https://") url) [
  | some rest ↦ rest
  | none ↦ elim (strip_prefix (codes "http://") url) [ some rest ↦ rest | none ↦ url ]
]

-- One `_` for every other character: one that is not ASCII is its first byte and those that go on
-- from it, which are from 128 to 191.
sanitized : Bytes → Bytes
unfolding is_plain
sanitized [] = []
sanitized (b ∷ s) =
    let rest = sanitized s in
    if leb 128 b && ltb b 192 then rest else if is_plain b then b ∷ rest else b'_' ∷ rest

-- FNV-1a in 64 bits.
fnv1a : ℕ → Bytes → ℕ
fnv1a h [] = h
fnv1a h (b ∷ s) = fnv1a (bit_xor h b * 0x100000001b3 % 2 ^ 64) s

hex_digit : ℕ → ℕ
hex_digit n = if ltb (n % 16) 10 then b'0' + n % 16 else b'a' + (n % 16 - 10)

-- `{:016x}`, before `rest`.
hex : (width : ℕ) → ℕ → Bytes → Bytes
unfolding hex_digit
hex zero n rest = rest
hex (suc w) n rest = hex w (n / 16) (hex_digit n ∷ rest)

unfoldable pub url_to_filename : Bytes → Bytes
unfolding without_scheme sanitized fnv1a hex
url_to_filename url =
    take 100 (sanitized (without_scheme url))
    ++ b'_' ∷ hex 16 (fnv1a 0xcbf29ce484222325 url) (codes ".txt")

abbrev Plain : Bytes → Type 0
Plain s = All (λ b. is_plain b ≡ true) s

sanitized-Plain : (s : Bytes) → Plain (sanitized s)
unfolding sanitized
sanitized-Plain [] = tt
sanitized-Plain (b ∷ s) = elim (Bool-cases (leb 128 b && ltb b 192)) [
  | inl e ↦ rw e (sanitized-Plain s)
  | inr e ↦ elim (Bool-cases (is_plain b)) [
    | inl p ↦ rw (e, p) (p, sanitized-Plain s)
    | inr p ↦ rw (e, p) (refl, sanitized-Plain s)
  ]
]

take-Plain : (n : ℕ) (s : Bytes) → Plain s → Plain (take n s) × (length (take n s) ≤ n)
take-Plain zero s h = (tt, omega arith)
take-Plain (suc n) [] h = (tt, omega arith)
take-Plain (suc n) (b ∷ s) h =
    ((h.0, (take-Plain n s h.1).0), omega (arith, (take-Plain n s h.1).1))

hex_digit-Plain : (n : ℕ) → is_plain (hex_digit n) ≡ true
unfolding is_plain hex_digit is_ascii_digit is_ascii_lowercase
hex_digit-Plain n = ground arith

hex-Plain :
    (w n : ℕ) (rest : Bytes)
    → Plain rest
    → Plain (hex w n rest) × (length (hex w n rest) ≡ w + length rest)
unfolding hex
hex-Plain zero n rest h = (h, omega arith)
hex-Plain (suc w) n rest h = (
  (hex-Plain w (n / 16) (hex_digit n ∷ rest) (hex_digit-Plain n, h)).0,
  omega (arith, (hex-Plain w (n / 16) (hex_digit n ∷ rest) (hex_digit-Plain n, h)).1),
)

-- A file name is made of letters, digits, dots, dashes and underscores, so it has no `/` and stays in the
-- directory of the bodies, and it is at most 121 bytes long.
pub url_to_filename-Plain :
    (url : Bytes)
    → All (λ b. is_plain b ≡ true) (url_to_filename url) × (length (url_to_filename url) ≤ 121)
unfolding url_to_filename
url_to_filename-Plain url =
    let prefix = take 100 (sanitized (without_scheme url)) in
    let hash = hex 16 (fnv1a 0xcbf29ce484222325 url) (codes ".txt") in
    let short =
      take-Plain 100 (sanitized (without_scheme url)) (sanitized-Plain (without_scheme url)) in
    let end =
      hex-Plain 16 (fnv1a 0xcbf29ce484222325 url) (codes ".txt")
        (refl, (refl, (refl, (refl, tt)))) in
    (
      All-append (λ b. is_plain b ≡ true) prefix (b'_' ∷ hash) short.0 (refl, end.0),
      omega (arith, length-append prefix (b'_' ∷ hash), short.1, end.1),
    )
