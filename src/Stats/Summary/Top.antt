-- ===== src/Stats/Summary/Top.antt =====
-- Which domains `print_summary` of src/stats.rs lists.
use dns_ligase.Prelude.{
  ℕ, zero, suc, ◌≤◌, ◌≡◌, refl, arith, true, Bool-cases, inl, inr, ◌⊎◌, sym, ◌<◌, List, [], ◌∷◌,
  none, some, Bytes, bytes_eq, leb, leb→le, length, take, All, any, ap, ◌∙◌,
}
use dns_ligase.Stats.Entries.{QueryEntry}
use dns_ligase.Stats.Summary.{
  Counts, count_entries, no_counts, sort_by_count, top_ten, Summary, print_summary,
}
use dns_ligase.Stats.Summary.Counted.{
  times, blocked_names, count_of, IsMap, All-both, IsMap-count_of, All-count_of,
  count_entries-blocked, count_entries-IsMap,
}
use mathlib.Core.Path.{subst}
use dns_ligase.Stats.Summary.Sorting.{
  sort_by_count-All, All-take, length-take_bound, sort_by_count-Falling, ListedOr, take-ListedOr,
  always, take_all, length-take_full,
}
use dns_ligase.Stats.Summary.Distinct.{Permᴰ-All, take-IsMap, keys_found}
use mathlib.Core.List.{Permᴰ}
use mathlib.Core.List.Permᴰ

-- A list of at most ten different keys with the times that they stand among the names; it has ten, or
-- all names that there are; a name that is not listed does not stand there more often than any that
-- is.
pub record TopTen (names : List Bytes) (top : Counts) : Type 0 where
  pub short : length top ≤ 10
  pub distinct : IsMap top
  pub counted : All (λ p. p.1 ≡ times (p.0) names) top
  pub full :
      (length top ≡ 10)
      ⊎ ((name : Bytes) → 0 < times name names → any (λ p. bytes_eq name (p.0)) top ≡ true)
  pub highest : (name : Bytes) → ListedOr (times name names) name top

module _ (iter : Counts → Counts) (permutes : (counts : Counts) → Permᴰ counts (iter counts)) where
  top_ten-TopTen :
      (names : List Bytes) (counts : Counts)
      → IsMap counts
      → ((name : Bytes) → count_of name counts ≡ times name names)
      → TopTen names (top_ten (iter counts))
  unfolding top_ten
  top_ten-TopTen names counts m same = record {
    short = length-take_bound 10 (sort_by_count (iter counts));
    distinct = take-IsMap 10 (permutes counts) m;
    counted = All-take IsTimes 10 (sort_by_count (iter counts)) (
        (sort_by_count-All IsTimes (iter counts)).0 (
          Permᴰ-All IsTimes (permutes counts) (
            All-both IsCount IsCount IsTimes counts (λ p h k. h ∙ same (p.0))
              (IsMap-count_of counts m) (IsMap-count_of counts m))));
    full = elim (Bool-cases (leb 10 (length (sort_by_count (iter counts))))) [
      | inl enough ↦ inl (length-take_full 10 (sort_by_count (iter counts)) (leb→le _ _ enough))
      | inr few ↦ inr (λ name some_times.
          subst (λ top. any (λ p. bytes_eq name (p.0)) top ≡ true)
            (sym (take_all 10 (sort_by_count (iter counts)) (ground (arith, few))))
            (listed name (omega (arith, same name))))
    ];
    highest = λ name. rw (← same name) (placed name (count_of name counts) refl);
  }
    where
      IsTimes : Bytes × ℕ → Type 0
      IsTimes p = p.1 ≡ times (p.0) names

      IsCount : Bytes × ℕ → Type 0
      IsCount p = p.1 ≡ count_of (p.0) counts

      IsPlaced : Bytes × ℕ → Type 0
      IsPlaced q = ListedOr (q.1) (q.0) (take 10 (sort_by_count (iter counts)))

      IsListed : Bytes × ℕ → Type 0
      IsListed q = any (λ p. bytes_eq (q.0) (p.0)) (sort_by_count (iter counts)) ≡ true

      listed : (name : Bytes) → 0 < count_of name counts → IsListed (name, count_of name counts)
      listed name h =
          All-count_of IsListed name counts
            (Permᴰ-All IsListed (Permᴰ.symm (permutes counts)) (
              (sort_by_count-All IsListed (iter counts)).1
                (keys_found (sort_by_count (iter counts)))))
            h

      placed :
          (name : Bytes) (n : ℕ)
          → count_of name counts ≡ n
          → ListedOr n name (take 10 (sort_by_count (iter counts)))
      placed name zero e =
          inr (always (λ p. 0 ≤ p.1) (take 10 (sort_by_count (iter counts))) (λ p. omega arith))
      placed name (suc n) e = rw (← e) (
          All-count_of IsPlaced name counts
            (Permᴰ-All IsPlaced (Permᴰ.symm (permutes counts)) (
              (sort_by_count-All IsPlaced (iter counts)).1 (
                take-ListedOr 10 (sort_by_count (iter counts))
                  (sort_by_count-Falling (iter counts)))))
            (omega arith))

  -- In whatever order a map is gone through: at most ten different domains are listed, each with the
  -- number of its blocked entries; they are ten, or every domain with a blocked entry is listed; and a
  -- domain that is not listed has no more of them than any that is.
  pub print_summary-TopTen :
      (entries : List QueryEntry) (s : Summary)
      → print_summary iter entries ≡ some s
      → TopTen (blocked_names entries) s.top_blocked
  unfolding print_summary
  print_summary-TopTen [] s e = ground arith
  print_summary-TopTen (entry ∷ es) s e =
      subst (λ t. TopTen (blocked_names (entry ∷ es)) t)
        (ap (λ r. (elim r as (λ _. Counts) [ some t ↦ t.top_blocked | none ↦ [] ])) e)
        (top_ten-TopTen (blocked_names (entry ∷ es))
          (count_entries (entry ∷ es) no_counts).blocked_domains
          (count_entries-IsMap (entry ∷ es) no_counts tt)
          (λ name. omega (arith, count_entries-blocked (entry ∷ es) no_counts name)))
