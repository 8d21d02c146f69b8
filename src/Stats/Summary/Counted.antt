-- ===== src/Stats/Summary/Counted.antt =====
-- The counters of `print_summary` in src/stats.rs.
use dns_ligase.Prelude.{
  ℕ, ◌+◌, ◌<◌, ◌≡◌, refl, arith, false, Bool-cases, inl, inr, if◌then◌else◌, List, [], ◌∷◌, Bytes,
  bytes_eq, All, ap, ◌∙◌, sym,
}
use dns_ligase.Stats.Entries.{QueryEntry}
use dns_ligase.Stats.Summary.{Counts, tally, Counters, count_entry, count_entries}
use dns_ligase.Text.Search.{codes, bytes_eq_iff, bytes_eq_refl}
use mathlib.Core.Bool.{false≢true}

-- How often a key stands in a list.
abbrev pub times : Bytes → List Bytes → ℕ
times key [] = 0
times key (k ∷ ks) = (if bytes_eq key k then 1 else 0) + times key ks

-- The domains of the blocked entries.
abbrev pub blocked_names : List QueryEntry → List Bytes
blocked_names [] = []
blocked_names (e ∷ es) =
    if bytes_eq e.action (codes "blocked") then e.domain ∷ blocked_names es else blocked_names es

-- The count that a map has for a key.
abbrev pub count_of : Bytes → Counts → ℕ
count_of key [] = 0
count_of key ((k, n) ∷ counts) = if bytes_eq key k then n else count_of key counts

abbrev pub Fresh : Bytes → Counts → Type 0
Fresh key counts = All (λ p. bytes_eq (p.0) key ≡ false) counts

abbrev pub IsMap : Counts → Type 0
IsMap [] = Unit
IsMap ((k, n) ∷ counts) = Fresh k counts × IsMap counts

pub All-both {ℓ} :
    {A : Type ℓ} (P Q R : A → Type 0) (xs : List A)
    → ((a : A) → P a → Q a → R a)
    → All P xs
    → All Q xs
    → All R xs
All-both P Q R [] f h k = tt
All-both P Q R (x ∷ xs) f h k = (f x h.0 k.0, All-both P Q R xs f h.1 k.1)

pub bytes_eq_sym : (a b : Bytes) → bytes_eq a b ≡ false → bytes_eq b a ≡ false
bytes_eq_sym a b h = elim (Bool-cases (bytes_eq b a)) [
  | inl same ↦
      absurd (
        false≢true (sym h ∙ (ap (λ c. bytes_eq a c) ((bytes_eq_iff b a).0 same) ∙ bytes_eq_refl a)))
  | inr differs ↦ differs
]

count_of-tally :
    (key k : Bytes) (counts : Counts)
    → count_of key (tally k counts) ≡ (if bytes_eq key k then 1 else 0) + count_of key counts
unfolding tally
count_of-tally key k [] = ground arith
count_of-tally key k ((k', n) ∷ counts) = elim (Bool-cases (bytes_eq k k')) [
  | inl same ↦
      rw (same, tally) (ground (arith, ap (λ j. bytes_eq key j) ((bytes_eq_iff k k').0 same)))
  | inr differs ↦ elim (Bool-cases (bytes_eq key k')) [
    | inl found ↦
        rw (differs, tally, found)
          (ground (
            arith,
            ap (λ j. bytes_eq j k) ((bytes_eq_iff key k').0 found),
            bytes_eq_sym k k' differs,
          ))
    | inr other ↦ rw (differs, tally, other) (count_of-tally key k counts)
  ]
]

Fresh-tally :
    (key k : Bytes) (counts : Counts)
    → bytes_eq k key ≡ false
    → Fresh key counts
    → Fresh key (tally k counts)
unfolding tally
Fresh-tally key k [] h f = (h, tt)
Fresh-tally key k ((k', n) ∷ counts) h f = ground (arith, Fresh-tally key k counts h f.1)

tally-IsMap : (k : Bytes) (counts : Counts) → IsMap counts → IsMap (tally k counts)
unfolding tally
tally-IsMap k [] m = (tt, tt)
tally-IsMap k ((k', n) ∷ counts) m = elim (Bool-cases (bytes_eq k k')) [
  | inl same ↦ rw (same, tally) m
  | inr differs ↦
      rw (differs, tally) (Fresh-tally k' k counts differs m.0, tally-IsMap k counts m.1)
]

-- In a map an entry is the count of its key.
pub IsMap-count_of :
    (counts : Counts) → IsMap counts → All (λ p. p.1 ≡ count_of (p.0) counts) counts
IsMap-count_of [] m = tt
IsMap-count_of ((k, n) ∷ counts) m = (
  rw (bytes_eq_refl k) refl,
  All-both (λ p. bytes_eq (p.0) k ≡ false) (λ p. p.1 ≡ count_of (p.0) counts)
      (λ p. p.1 ≡ count_of (p.0) ((k, n) ∷ counts)) counts (λ p e h. rw e h) m.0
      (IsMap-count_of counts m.1),
)

pub All-count_of :
    (P : Bytes × ℕ → Type 0) (key : Bytes) (counts : Counts)
    → All P counts
    → 0 < count_of key counts
    → P (key, count_of key counts)
All-count_of P key [] h pos = absurd (omega arith)
All-count_of P key ((k, n) ∷ counts) h pos = elim (Bool-cases (bytes_eq key k)) [
  | inl same ↦ rw (same, (bytes_eq_iff key k).0 same) (h.0)
  | inr other ↦ rw other (All-count_of P key counts h.1 (rw other at pos))
]

tally-blocked :
    (e : QueryEntry) (c : Counters) (key : Bytes) (es : List QueryEntry)
    → count_of key (count_entry e c).blocked_domains + times key (blocked_names es)
      ≡ times key (blocked_names (e ∷ es)) + count_of key c.blocked_domains
unfolding count_entry
tally-blocked e c key es = ground (arith, count_of-tally key e.domain c.blocked_domains)

pub count_entries-blocked :
    (es : List QueryEntry) (c : Counters) (key : Bytes)
    → count_of key (count_entries es c).blocked_domains
      ≡ times key (blocked_names es) + count_of key c.blocked_domains
unfolding count_entries
count_entries-blocked [] c key = omega arith
count_entries-blocked (e ∷ es) c key =
    omega (arith, count_entries-blocked es (count_entry e c) key, tally-blocked e c key es)

pub count_entries-IsMap :
    (es : List QueryEntry) (c : Counters)
    → IsMap c.blocked_domains
    → IsMap (count_entries es c).blocked_domains
unfolding count_entries count_entry
count_entries-IsMap [] c m = m
count_entries-IsMap (e ∷ es) c m =
    count_entries-IsMap es (count_entry e c)
      (ground (arith, tally-IsMap e.domain c.blocked_domains m))
