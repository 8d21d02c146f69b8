-- ===== src/Text/Search.antt =====
-- Prefixes, suffixes, substrings, comparison and ASCII case of `str`.
use dns_ligase.Prelude.{
  ℕ, ◌+◌, ◌≡◌, ◌↔◌, refl, Bool, true, false, ◌&&◌, ◌||◌, [], ◌∷◌, map, Option, none, some, arith,
  ◌==◌, leb, if◌then◌else◌, Bytes, bytes_eq,
}
use mathlib.Core.List.{reverse}
use Prim.Native.Char.{code}
use Prim.Native.String.{String}

-- The bytes of an ASCII literal.
abbrev pub codes : String → Bytes
codes String.[] = []
codes (String.◌∷◌ c s) = code c ∷ codes s

-- `strip_prefix`
unfoldable pub strip_prefix : Bytes → Bytes → Option Bytes
strip_prefix [] s = some s
strip_prefix (p ∷ ps) [] = none
strip_prefix (p ∷ ps) (x ∷ xs) = let rest = strip_prefix ps xs in if p == x then rest else none

unfoldable pub starts_with : Bytes → Bytes → Bool
starts_with [] s = true
starts_with (p ∷ ps) [] = false
starts_with (p ∷ ps) (x ∷ xs) = p == x && starts_with ps xs

unfoldable pub ends_with_byte : ℕ → Bytes → Bool
ends_with_byte b [] = false
ends_with_byte b (x ∷ []) = x == b
ends_with_byte b (x ∷ y ∷ ys) = ends_with_byte b (y ∷ ys)

-- `contains` of a text.
unfoldable pub contains_text : Bytes → Bytes → Bool
unfolding starts_with
contains_text p [] = starts_with p []
contains_text p (x ∷ xs) = starts_with p (x ∷ xs) || contains_text p xs

-- `trim_start_matches` of a two-byte pattern: every copy at the front goes.
unfoldable pub trim_start_pair : ℕ → ℕ → Bytes → Bytes
trim_start_pair a b [] = []
trim_start_pair a b (x ∷ []) = x ∷ []
trim_start_pair a b (x ∷ y ∷ ys) =
    let rest = trim_start_pair a b ys in if x == a && y == b then rest else x ∷ y ∷ ys

-- The bytes at the front that equal `b` go.
unfoldable pub drop_while_eq : ℕ → Bytes → Bytes
drop_while_eq b [] = []
drop_while_eq b (x ∷ xs) = let rest = drop_while_eq b xs in if x == b then rest else x ∷ xs

-- `trim_end_matches` of one character.
unfoldable pub trim_end_byte : ℕ → Bytes → Bytes
unfolding drop_while_eq
trim_end_byte b s = reverse (drop_while_eq b (reverse s))

abbrev pub is_ascii_uppercase : ℕ → Bool
is_ascii_uppercase b = leb b'A' b && leb b b'Z'

abbrev pub to_ascii_lowercase : ℕ → ℕ
to_ascii_lowercase b = if is_ascii_uppercase b then b + 32 else b

-- `eq_ignore_ascii_case`
unfoldable pub eq_ignore_ascii_case : Bytes → Bytes → Bool
eq_ignore_ascii_case s t = bytes_eq (map to_ascii_lowercase s) (map to_ascii_lowercase t)

pub bytes_eq_iff : (s t : Bytes) → (bytes_eq s t ≡ true) ↔ (s ≡ t)
bytes_eq_iff (x ∷ s) (y ∷ t) = ground (arith, bytes_eq_iff s t)
bytes_eq_iff _ _ = ground arith

pub bytes_eq_refl : (s : Bytes) → bytes_eq s s ≡ true
bytes_eq_refl s = (bytes_eq_iff s s).1 refl
