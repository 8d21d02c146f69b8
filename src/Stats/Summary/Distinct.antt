-- ===== src/Stats/Summary/Distinct.antt =====
-- The keys of the counts of `print_summary` in src/stats.rs, in whatever order a map is gone through.
use dns_ligase.Prelude.{
  ℕ, zero, suc, ◌≡◌, refl, arith, true, false, Bool-cases, inl, inr, [], ◌∷◌, Bytes, bytes_eq, leb,
  take, All, any, ap,
}
use dns_ligase.Stats.Summary.{Counts, insert_by_count, sort_by_count}
use dns_ligase.Stats.Summary.Counted.{IsMap, Fresh, All-both, bytes_eq_sym}
use dns_ligase.Stats.Summary.Sorting.{insert_by_count-All, sort_by_count-All, All-take}
use dns_ligase.Text.Search.{bytes_eq_refl}
use mathlib.Core.List.{Permᴰ}
use mathlib.Core.Path.{subst}

pub Permᴰ-All : (P : Bytes × ℕ → Type 0) {ps qs : Counts} → Permᴰ ps qs → All P ps → All P qs
Permᴰ-All P Permᴰ.nil h = h
Permᴰ-All P (Permᴰ.cons e d) h = (subst P e h.0, Permᴰ-All P d h.1)
Permᴰ-All P (Permᴰ.swap e f) h = (subst P f h.1.0, (subst P e h.0, h.1.1))
Permᴰ-All P (Permᴰ.trans d d') h = Permᴰ-All P d' (Permᴰ-All P d h)

-- The same, with the keys taken from pairs that are not split.
abbrev Keyed : Counts → Type 0
Keyed [] = Unit
Keyed (p ∷ ps) = Fresh (p.0) ps × Keyed ps

Keyed-IsMap : (ps : Counts) → Keyed ps → IsMap ps
Keyed-IsMap [] h = tt
Keyed-IsMap ((k, n) ∷ ps) h = (h.0, Keyed-IsMap ps h.1)

IsMap-Keyed : (ps : Counts) → IsMap ps → Keyed ps
IsMap-Keyed [] h = tt
IsMap-Keyed ((k, n) ∷ ps) h = (h.0, IsMap-Keyed ps h.1)

Permᴰ-Keyed : {ps qs : Counts} → Permᴰ ps qs → Keyed ps → Keyed qs
Permᴰ-Keyed Permᴰ.nil h = h
Permᴰ-Keyed (Permᴰ.cons {l₂ = qs} e d) h =
    (subst (λ k. Fresh k qs) (ap (λ p. p.0) e) (Permᴰ-All _ d h.0), Permᴰ-Keyed d h.1)
Permᴰ-Keyed (Permᴰ.swap {a = a} {b = b} {b' = b'} {l = l} e f) h =
    subst (λ p. Keyed (p ∷ b' ∷ l)) f
      (subst (λ q. Keyed (b ∷ q ∷ l)) e ((bytes_eq_sym (b.0) (a.0) h.0.0, h.1.0), (h.0.1, h.1.1)))
Permᴰ-Keyed (Permᴰ.trans d d') h = Permᴰ-Keyed d' (Permᴰ-Keyed d h)

insert_by_count-Keyed :
    (p : Bytes × ℕ) (qs : Counts) → Fresh (p.0) qs → Keyed qs → Keyed (insert_by_count p qs)
unfolding insert_by_count
insert_by_count-Keyed p [] f h = (tt, tt)
insert_by_count-Keyed p (q ∷ qs) f h = elim (Bool-cases (leb (q.1) (p.1))) [
  | inl below ↦ rw (below, insert_by_count) (f, h)
  | inr above ↦
      rw (above, insert_by_count)
        (
          insert_by_count-All (λ r. bytes_eq (r.0) (q.0) ≡ false) p qs
              (bytes_eq_sym (q.0) (p.0) f.0) h.0,
          insert_by_count-Keyed p qs f.1 h.1,
        )
]

sort_by_count-Keyed : (ps : Counts) → Keyed ps → Keyed (sort_by_count ps)
unfolding sort_by_count
sort_by_count-Keyed [] h = tt
sort_by_count-Keyed (p ∷ ps) h =
    insert_by_count-Keyed p (sort_by_count ps)
      ((sort_by_count-All (λ r. bytes_eq (r.0) (p.0) ≡ false) ps).0 h.0)
      (sort_by_count-Keyed ps h.1)

take-Keyed : (n : ℕ) (ps : Counts) → Keyed ps → Keyed (take n ps)
take-Keyed zero ps h = tt
take-Keyed (suc n) [] h = tt
take-Keyed (suc n) (p ∷ ps) h =
    (All-take (λ r. bytes_eq (r.0) (p.0) ≡ false) n ps h.0, take-Keyed n ps h.1)

-- The keys stay distinct.
pub take-IsMap :
    (n : ℕ) {ps qs : Counts} → Permᴰ ps qs → IsMap ps → IsMap (take n (sort_by_count qs))
take-IsMap n {ps} {qs} d m =
    Keyed-IsMap (take n (sort_by_count qs))
      (take-Keyed n (sort_by_count qs) (sort_by_count-Keyed qs (Permᴰ-Keyed d (IsMap-Keyed ps m))))

-- The key of each entry is found.
pub keys_found : (ps : Counts) → All (λ q. any (λ p. bytes_eq (q.0) (p.0)) ps ≡ true) ps
keys_found [] = tt
keys_found (p ∷ ps) = (
  rw (bytes_eq_refl (p.0)) refl,
  All-both (λ q. any (λ r. bytes_eq (q.0) (r.0)) ps ≡ true)
      (λ q. any (λ r. bytes_eq (q.0) (r.0)) ps ≡ true)
      (λ q. any (λ r. bytes_eq (q.0) (r.0)) (p ∷ ps) ≡ true) ps (λ q h k. ground arith)
      (keys_found ps) (keys_found ps),
)
