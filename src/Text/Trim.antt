-- ===== src/Text/Trim.antt =====
-- `str::trim` and `str::split_whitespace`: the characters of Unicode's White_Space property, by
-- their UTF-8 encodings.
use dns_ligase.Prelude.{
  ℕ, zero, suc, Bool, ◌&&◌, ◌||◌, List, [], ◌∷◌, ◌++◌, ◌==◌, leb, if◌then◌else◌, Bytes, ◌≡◌, refl,
  sym, arith, ◌∙◌, ap,
}
use mathlib.Core.List.{reverse, reverse-append, reverse-reverse}

abbrev is_ascii_space : ℕ → Bool
is_ascii_space b = b == 0x20 || (leb 0x09 b && leb b 0x0d)

-- U+0085 and U+00A0.
abbrev is_space_2 : ℕ → ℕ → Bool
is_space_2 a b = a == 0xc2 && (b == 0x85 || b == 0xa0)

-- U+1680, U+2000 to U+200A, U+2028, U+2029, U+202F, U+205F and U+3000.
abbrev is_space_3 : ℕ → ℕ → ℕ → Bool
is_space_3 a b c =
    (a == 0xe1 && b == 0x9a && c == 0x80)
    || (a == 0xe2
        && b == 0x80
        && ((leb 0x80 c && leb c 0x8a) || c == 0xa8 || c == 0xa9 || c == 0xaf))
    || (a == 0xe2 && b == 0x81 && c == 0x9f)
    || (a == 0xe3 && b == 0x80 && c == 0x80)

-- The number of bytes of the white space character at the front, 0 if there is none.
space_width : Bytes → ℕ
space_width [] = 0
space_width (a ∷ []) = if is_ascii_space a then 1 else 0
space_width (a ∷ b ∷ []) = if is_ascii_space a then 1 else if is_space_2 a b then 2 else 0
space_width (a ∷ b ∷ c ∷ r) =
    if is_ascii_space a then 1 else if is_space_2 a b then 2 else if is_space_3 a b c then 3 else 0

-- The same at the end of a text that is given backwards.
space_width_back : Bytes → ℕ
space_width_back [] = 0
space_width_back (a ∷ []) = if is_ascii_space a then 1 else 0
space_width_back (b ∷ a ∷ []) = if is_ascii_space b then 1 else if is_space_2 a b then 2 else 0
space_width_back (c ∷ b ∷ a ∷ r) =
    if is_ascii_space c then 1 else if is_space_2 b c then 2 else if is_space_3 a b c then 3 else 0

-- Drops white space at the front; the first argument counts the bytes of a character begun.
skip_space : (Bytes → ℕ) → ℕ → Bytes → Bytes
skip_space width n [] = []
skip_space width (suc n) (x ∷ xs) = skip_space width n xs
skip_space width zero (x ∷ xs) = elim (width (x ∷ xs)) [
  | zero ↦ x ∷ xs
  | suc k ↦ skip_space width k xs
]

unfoldable pub trim : Bytes → Bytes
unfolding skip_space space_width space_width_back
trim s = reverse (skip_space space_width_back 0 (reverse (skip_space space_width 0 s)))

abbrev flush : Bytes → List Bytes → List Bytes
flush [] words = words
flush (x ∷ xs) words = (x ∷ xs) ∷ words

-- `word` is the word begun.
words_from : ℕ → Bytes → Bytes → List Bytes
words_from n word [] = flush word []
words_from (suc n) word (x ∷ xs) = words_from n word xs
words_from zero word (x ∷ xs) = elim (space_width (x ∷ xs)) [
  | zero ↦ words_from zero (word ++ x ∷ []) xs
  | suc k ↦ flush word (words_from k [] xs)
]

unfoldable pub split_whitespace : Bytes → List Bytes
unfolding words_from space_width
split_whitespace s = words_from 0 [] s

-- A character that is no white space at either end keeps a text as it is.
skip_space-keep :
    (width : Bytes → ℕ) (x : ℕ) (xs : Bytes)
    → width (x ∷ xs) ≡ 0
    → skip_space width 0 (x ∷ xs) ≡ x ∷ xs
unfolding skip_space
skip_space-keep width x xs h = rw (h, skip_space) refl

bar_no_space : (s : Bytes) → space_width (b'|' ∷ s) ≡ 0
unfolding space_width
bar_no_space [] = refl
bar_no_space (b ∷ []) = refl
bar_no_space (b ∷ c ∷ s) = refl

caret_no_space : (s : Bytes) → space_width_back (b'^' ∷ s) ≡ 0
unfolding space_width_back
caret_no_space [] = refl
caret_no_space (a ∷ []) = ground arith
caret_no_space (b ∷ a ∷ s) = ground arith

-- A text between a bar and a caret.
pub trim-keep : (s : Bytes) → trim (b'|' ∷ (s ++ b'^' ∷ [])) ≡ b'|' ∷ (s ++ b'^' ∷ [])
unfolding trim
trim-keep s =
    let line : Bytes = b'|' ∷ s in
    ap (λ t. reverse (skip_space space_width_back 0 (reverse t)))
      (skip_space-keep space_width b'|' (s ++ b'^' ∷ []) (bar_no_space (s ++ b'^' ∷ [])))
    ∙ (ap (λ t. reverse (skip_space space_width_back 0 t)) (reverse-append line (b'^' ∷ []))
        ∙ (ap reverse
              (skip_space-keep space_width_back b'^' (reverse line) (caret_no_space (reverse line)))
            ∙ (ap reverse (sym (reverse-append line (b'^' ∷ [])))
                ∙ reverse-reverse (line ++ b'^' ∷ []))))
