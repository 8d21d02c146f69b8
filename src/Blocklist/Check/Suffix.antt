-- ===== src/Blocklist/Check/Suffix.antt =====
-- `suffix_match` of src/blocklist.rs against the parents of a name.
use dns_ligase.Blocklist.Check.{suffix_loop, suffix_match}
use dns_ligase.Blocklist.Rules.{HashSet, contains}
use dns_ligase.Prelude.{
  ℕ, ◌≤◌, ◌<◌, ◌≡◌, ◌⊎◌, refl, sym, ap, ◌∙◌, inl, inr, true, false, [], ◌∷◌, Option, none, some,
  arith, ◌==◌, ==_iff, Bytes, length, Bool-cases,
}
use mathlib.Core.Bool.{false≢true}

-- `s` stands behind a dot in `d`.
pub data BehindDot (s : Bytes) : Bytes → Type 0 where
  at_dot : BehindDot s (b'.' ∷ s)
  later : {d : Bytes} (b : ℕ) → BehindDot s d → BehindDot s (b ∷ d)

-- `s` is the domain `d` or one that `d` lies below.
abbrev pub IsParent : Bytes → Bytes → Type 0
IsParent s d = (s ≡ d) ⊎ BehindDot s d

-- The stored name that is found, with the evidence that it is one and that none is longer; or
-- the evidence that there is none.
abbrev pub Longest : (Bytes → Type 0) → HashSet → Option Bytes → Type 0
Longest P set (some hit) =
    (contains set hit ≡ true)
    × P hit
    × ((s : Bytes) → contains set s ≡ true → P s → length s ≤ length hit)
Longest P set none = (s : Bytes) → P s → contains set s ≡ false

pub BehindDot-cons :
    {s : Bytes} (b : ℕ) (d : Bytes) → BehindDot s (b ∷ d) → ((b ≡ b'.') × (s ≡ d)) ⊎ BehindDot s d
BehindDot-cons b d at_dot = inl (refl, refl)
BehindDot-cons b d (later _ h) = inr h

BehindDot-length : {s d : Bytes} → BehindDot s d → length s < length d
BehindDot-length at_dot = omega arith
BehindDot-length (later b h) = omega (arith, BehindDot-length h)

-- One byte more in front, where it makes no match of its own.
Longest-later :
    (set : HashSet) (b : ℕ) (d : Bytes) (found : Option Bytes)
    → ((b ≡ b'.') → contains set d ≡ false)
    → Longest (λ s. BehindDot s d) set found
    → Longest (λ s. BehindDot s (b ∷ d)) set found
Longest-later set b d (some hit) no_hit l = (
  l.0,
  later b l.1,
  λ s c h. elim (BehindDot-cons b d h) [
    | inl (dot, same) ↦ absurd (false≢true (sym (no_hit dot) ∙ rw (← same) c))
    | inr h' ↦ l.2 s c h'
  ],
)
Longest-later set b d none no_hit l =
    λ s h. elim (BehindDot-cons b d h) [ inl (dot, same) ↦ rw same (no_hit dot) | inr h' ↦ l s h' ]

-- A dot in front, and what stands behind it is stored.
Longest-dot :
    (set : HashSet) (d : Bytes)
    → contains set d ≡ true
    → Longest (λ s. BehindDot s (b'.' ∷ d)) set (some d)
Longest-dot set d c = (c, at_dot, λ s _ h. omega (arith, BehindDot-length h))

suffix_loop-Longest :
    (set : HashSet) (d : Bytes) → Longest (λ s. BehindDot s d) set (suffix_loop set d)
unfolding suffix_loop
suffix_loop-Longest set [] = λ s h. elim h [ ]
suffix_loop-Longest set (b ∷ d) = elim (Bool-cases (b == b'.')) [
  | inl dot ↦ elim (Bool-cases (contains set d)) [
    | inl hit ↦ rw (dot, hit, (==_iff b b'.').0 dot) (Longest-dot set d hit)
    | inr miss ↦ rw (dot, miss) (Longest-later set b d _ (λ _. miss) (suffix_loop-Longest set d))
  ]
  | inr other ↦ rw other (
      Longest-later set b d _ (λ dot. absurd (false≢true (sym other ∙ (==_iff b b'.').1 dot)))
        (suffix_loop-Longest set d))
]

Longest-or :
    (set : HashSet) (d : Bytes) (found : Option Bytes)
    → contains set d ≡ false
    → Longest (λ s. BehindDot s d) set found
    → Longest (λ s. IsParent s d) set found
Longest-or set d (some hit) c l = (
  l.0,
  inr l.1,
  λ s k h. elim h [
    | inl same ↦ absurd (false≢true (sym c ∙ rw (← same) k))
    | inr behind ↦ l.2 s k behind
  ],
)
Longest-or set d none c l = λ s h. elim h [ inl same ↦ rw same c | inr behind ↦ l s behind ]

Longest-self :
    (set : HashSet) (d : Bytes) → contains set d ≡ true → Longest (λ s. IsParent s d) set (some d)
Longest-self set d c = (
  c,
  inl refl,
  λ s _ h. elim h [
    | inl same ↦ omega (arith, ap length same)
    | inr behind ↦ omega (arith, BehindDot-length behind)
  ],
)

-- `suffix_match` finds a stored name that is the queried name or a parent of it, and no stored
-- parent is longer; it finds none only if no parent is stored.
pub suffix_match-Longest :
    (set : HashSet) (d : Bytes) → Longest (λ s. IsParent s d) set (suffix_match set d)
unfolding suffix_match
suffix_match-Longest set d = elim (Bool-cases (contains set d)) [
  | inl hit ↦ rw hit (Longest-self set d hit)
  | inr miss ↦ rw miss (Longest-or set d _ miss (suffix_loop-Longest set d))
]
