-- ===== src/Text/Split.antt =====
-- `str::split` on one ASCII character and `[String]::join`.
use dns_ligase.Prelude.{
  ℕ, ◌≡◌, refl, ap, ◌∙◌, Bool, true, false, not, inl, inr, List, [], ◌∷◌, ◌++◌, arith, ◌==◌,
  if◌then◌else◌, Bool-cases, Bytes, All, keep_if, any,
}

abbrev pub onto_head : ℕ → List Bytes → List Bytes
onto_head x [] = (x ∷ []) ∷ []
onto_head x (p ∷ ps) = (x ∷ p) ∷ ps

-- The pieces between the separators; there is always at least one.
unfoldable pub split : ℕ → Bytes → List Bytes
split sep [] = [] ∷ []
split sep (x ∷ xs) = let rest = split sep xs in if x == sep then [] ∷ rest else onto_head x rest

unfoldable pub join : ℕ → List Bytes → Bytes
join sep [] = []
join sep (p ∷ []) = p
join sep (p ∷ q ∷ ps) = p ++ sep ∷ join sep (q ∷ ps)

abbrev pub is_empty : Bytes → Bool
is_empty [] = true
is_empty (x ∷ xs) = false

-- The pieces that are not empty.
unfoldable pub labels_of : Bytes → List Bytes
unfolding split
labels_of name = keep_if (λ p. not (is_empty p)) (split b'.' name)

-- No byte is the separator.
abbrev pub Lacks : ℕ → Bytes → Type 0
Lacks sep bs = any (λ b. b == sep) bs ≡ false

pub split-single : (sep : ℕ) (p : Bytes) → Lacks sep p → split sep p ≡ p ∷ []
unfolding split
split-single sep [] h = refl
split-single sep (x ∷ p) h = ground (arith, split-single sep p)

pub split-append :
    (sep : ℕ) (p rest : Bytes) → Lacks sep p → split sep (p ++ sep ∷ rest) ≡ p ∷ split sep rest
unfolding split
split-append sep [] rest h = ground arith
split-append sep (x ∷ p) rest h = ground (arith, split-append sep p rest)

-- Splitting undoes joining, for pieces without the separator.
pub split-join :
    (sep : ℕ) (p : Bytes) (ps : List Bytes)
    → All (Lacks sep) (p ∷ ps)
    → split sep (join sep (p ∷ ps)) ≡ p ∷ ps
unfolding join
split-join sep p [] h = split-single sep p h.0
split-join sep p (q ∷ ps) h =
    split-append sep p (join sep (q ∷ ps)) h.0 ∙ ap (◌∷◌ p) (split-join sep q ps h.1)

onto_head-Lacks :
    (sep x : ℕ) (ps : List Bytes)
    → (x == sep) ≡ false
    → All (Lacks sep) ps
    → All (Lacks sep) (onto_head x ps)
onto_head-Lacks sep x [] e h = ground arith
onto_head-Lacks sep x (p ∷ ps) e h = ground arith

-- No piece of a split holds the separator.
pub split-Lacks : (sep : ℕ) (xs : Bytes) → All (Lacks sep) (split sep xs)
unfolding split
split-Lacks sep [] = (refl, tt)
split-Lacks sep (x ∷ xs) = elim (Bool-cases (x == sep)) [
  | inl e ↦ rw e (refl, split-Lacks sep xs)
  | inr e ↦ rw e (onto_head-Lacks sep x (split sep xs) e (split-Lacks sep xs))
]
