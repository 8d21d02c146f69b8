-- ===== src/Stats/Summary/Sorting.antt =====
-- How `print_summary` of src/stats.rs sorts the counts and cuts the list.
use dns_ligase.Prelude.{
  ℕ, zero, suc, ◌≤◌, ◌≡◌, refl, arith, true, Bool-cases, inl, inr, ◌⊎◌, ◌↔◌, [], ◌∷◌, Bytes,
  bytes_eq, leb, leb→le, length, take, All, any, ap,
}
use dns_ligase.Stats.Summary.{Counts, insert_by_count, sort_by_count}
use dns_ligase.Stats.Summary.Counted.{All-both}
use dns_ligase.Text.Search.{bytes_eq_refl}

module _ (P : Bytes × ℕ → Type 0) where
  pub insert_by_count-All :
      (p : Bytes × ℕ) (qs : Counts) → P p → All P qs → All P (insert_by_count p qs)
  unfolding insert_by_count
  insert_by_count-All p [] h k = (h, tt)
  insert_by_count-All p (q ∷ qs) h k = elim (Bool-cases (leb (q.1) (p.1))) [
    | inl below ↦ rw (below, insert_by_count) (h, k)
    | inr above ↦ rw (above, insert_by_count) (k.0, insert_by_count-All p qs h k.1)
  ]

  pub All-insert_by_count :
      (p : Bytes × ℕ) (qs : Counts) → All P (insert_by_count p qs) → P p × All P qs
  unfolding insert_by_count
  All-insert_by_count p [] h = h
  All-insert_by_count p (q ∷ qs) h = elim (Bool-cases (leb (q.1) (p.1))) [
    | inl below ↦ (rw (below, insert_by_count) at h)
    | inr above ↦
        let k = (rw (above, insert_by_count) at h) in
        let (here, there) = All-insert_by_count p qs k.1 in (here, (k.0, there))
  ]

  pub sort_by_count-All : (ps : Counts) → All P ps ↔ All P (sort_by_count ps)
  unfolding sort_by_count
  sort_by_count-All [] = (λ h. h, λ h. h)
  sort_by_count-All (p ∷ ps) = (
    (λ h. insert_by_count-All p (sort_by_count ps) h.0 ((sort_by_count-All ps).0 h.1)),
    (λ h.
        let (here, there) = All-insert_by_count p (sort_by_count ps) h in
        (here, (sort_by_count-All ps).1 there)),
  )

  pub All-take : (n : ℕ) (ps : Counts) → All P ps → All P (take n ps)
  All-take zero ps h = tt
  All-take (suc n) [] h = tt
  All-take (suc n) (p ∷ ps) h = (h.0, All-take n ps h.1)

pub length-take_bound : (n : ℕ) (ps : Counts) → length (take n ps) ≤ n
length-take_bound zero ps = omega arith
length-take_bound (suc n) [] = omega arith
length-take_bound (suc n) (p ∷ ps) = omega (arith, length-take_bound n ps)

-- The counts fall.
abbrev pub Falling : Counts → Type 0
Falling [] = Unit
Falling (p ∷ ps) = All (λ q. q.1 ≤ p.1) ps × Falling ps

insert_by_count-Falling :
    (p : Bytes × ℕ) (qs : Counts) → Falling qs → Falling (insert_by_count p qs)
unfolding insert_by_count
insert_by_count-Falling p [] f = (tt, tt)
insert_by_count-Falling p (q ∷ qs) f = elim (Bool-cases (leb (q.1) (p.1))) [
  | inl below ↦
      rw (below, insert_by_count)
        (
          (
            leb→le _ _ below,
            All-both (λ r. r.1 ≤ q.1) (λ r. r.1 ≤ q.1) (λ r. r.1 ≤ p.1) qs
                (λ r h k. (let b = leb→le (q.1) (p.1) below in omega arith)) f.0 f.0,
          ),
          f,
        )
  | inr above ↦
      rw (above, insert_by_count)
        (
          insert_by_count-All (λ r. r.1 ≤ q.1) p qs (ground (arith, above)) f.0,
          insert_by_count-Falling p qs f.1,
        )
]

pub sort_by_count-Falling : (ps : Counts) → Falling (sort_by_count ps)
unfolding sort_by_count
sort_by_count-Falling [] = tt
sort_by_count-Falling (p ∷ ps) =
    insert_by_count-Falling p (sort_by_count ps) (sort_by_count-Falling ps)

-- The key is listed, or no listed one has a lower count.
abbrev pub ListedOr : ℕ → Bytes → Counts → Type 0
ListedOr n key top = (any (λ p. bytes_eq key (p.0)) top ≡ true) ⊎ All (λ p. n ≤ p.1) top

pub always : (P : Bytes × ℕ → Type 0) (ps : Counts) → ((p : Bytes × ℕ) → P p) → All P ps
always P [] h = tt
always P (p ∷ ps) h = (h p, always P ps h)

ListedOr-next :
    (n m : ℕ) (key k : Bytes) (top : Counts)
    → n ≤ m
    → ListedOr n key top
    → ListedOr n key ((k, m) ∷ top)
ListedOr-next n m key k top le (inl listed) = inl (ground arith)
ListedOr-next n m key k top le (inr least) = inr (le, least)

pub take-ListedOr :
    (n : ℕ) (ps : Counts) → Falling ps → All (λ q. ListedOr (q.1) (q.0) (take n ps)) ps
take-ListedOr zero ps f = always (λ q. ListedOr (q.1) (q.0) []) ps (λ q. inr tt)
take-ListedOr (suc n) [] f = tt
take-ListedOr (suc n) ((k, m) ∷ ps) f = (
  inl (rw (bytes_eq_refl k) refl),
  All-both (λ q. q.1 ≤ m) (λ q. ListedOr (q.1) (q.0) (take n ps))
      (λ q. ListedOr (q.1) (q.0) ((k, m) ∷ take n ps)) ps
      (λ q le h. ListedOr-next (q.1) m (q.0) k (take n ps) le h) f.0 (take-ListedOr n ps f.1),
)

-- Where the list is not longer than the cut, nothing is cut off.
pub take_all : (n : ℕ) (ps : Counts) → length ps ≤ n → take n ps ≡ ps
take_all zero [] h = refl
take_all zero (p ∷ ps) h = absurd (omega arith)
take_all (suc n) [] h = refl
take_all (suc n) (p ∷ ps) h = ap (λ qs. p ∷ qs) (take_all n ps (omega arith))

pub length-take_full : (n : ℕ) (ps : Counts) → n ≤ length ps → length (take n ps) ≡ n
length-take_full zero ps h = refl
length-take_full (suc n) [] h = absurd (omega arith)
length-take_full (suc n) (p ∷ ps) h = omega (arith, length-take_full n ps (omega arith))
