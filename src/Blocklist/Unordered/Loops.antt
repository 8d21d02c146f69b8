-- ===== src/Blocklist/Unordered/Loops.antt =====
-- Loops of src/blocklist.rs and src/main.rs whose turns each add rules.
use dns_ligase.Blocklist.Merge.{merge_blocklist}
use dns_ligase.Blocklist.Rules.{Blocklist, new}
use dns_ligase.Blocklist.Unordered.{RuleSet, SameHits, join, both, both_comm, both_assoc, reads}
use dns_ligase.Io.{Result, ok, err, fault, and_then}
use dns_ligase.Prelude.{◌≡◌, refl, sym, ap, ◌∙◌, List, [], ◌∷◌, Option, none, some, append-nil}
use mathlib.Core.List.{Permᴰ}
use mathlib.Core.List.Permᴰ.{nil, cons, swap, trans}
use mathlib.Core.Quot
use mathlib.Core.Quot.{Quot-set}
use mathlib.Core.Option
use mathlib.Core.Logic.{∥∥₁_elim}

module _ {R : Type 0} where
  pub merge-new : (bl : Blocklist R) → merge_blocklist bl new ≡ bl
  unfolding merge_blocklist
  merge-new bl = rw (append-nil bl.allow_regex, append-nil bl.block_regex) refl

  pub both-new : (s : Option (RuleSet R)) → both s (reads (ok new)) ≡ s
  unfolding both join
  both-new none = refl
  both-new (some s) =
      Quot.ind {r = SameHits} {β = λ s. both (some s) (reads (ok new)) ≡ some s}
        (λ s. Option.is_set Quot-set _ _) (λ bl. ap (λ b. some (Quot.mk b)) (merge-new bl)) s

  -- It adds the same rules whatever the rules are that it meets.
  abbrev pub Additive : (Blocklist R → Result (Blocklist R)) → Type 0
  Additive f = (bl : Blocklist R) → reads (f bl) ≡ both (reads (ok bl)) (reads (f new))

  pub and_then-reads :
      (r : Result (Blocklist R)) (f : Blocklist R → Result (Blocklist R))
      → Additive f
      → reads (and_then r f) ≡ both (reads r) (reads (f new))
  unfolding both
  and_then-reads (ok bl) f add = add bl
  and_then-reads (err e) f add = refl
  and_then-reads (fault e) f add = refl

  pub and_then-Additive :
      (f g : Blocklist R → Result (Blocklist R))
      → Additive f
      → Additive g
      → Additive (λ bl. and_then (f bl) g)
  and_then-Additive f g add_f add_g bl =
      and_then-reads (f bl) g add_g
      ∙ (ap (λ s. both s (reads (g new))) (add_f bl)
          ∙ (both_assoc (reads (ok bl)) (reads (f new)) (reads (g new))
              ∙ ap (both (reads (ok bl))) (sym (and_then-reads (f new) g add_g))))

  -- The rules of all elements together.
  unfoldable pub total : {A : Type 0} → (A → Option (RuleSet R)) → List A → Option (RuleSet R)
  unfolding both
  total f [] = reads (ok new)
  total f (a ∷ xs) = both (f a) (total f xs)

  swap_both : (s t u : Option (RuleSet R)) → both s (both t u) ≡ both t (both s u)
  swap_both s t u = sym (both_assoc s t u) ∙ (ap (λ v. both v u) (both_comm s t) ∙ both_assoc t s u)

  totalᴰ :
      {A : Type 0} (f : A → Option (RuleSet R)) (xs ys : List A)
      → Permᴰ xs ys
      → total f xs ≡ total f ys
  unfolding total
  totalᴰ f _ _ nil = refl
  totalᴰ f _ _ (cons {a = a} {b = b} {l₁ = xs} {l₂ = ys} e p) =
      ap (λ c. both (f c) (total f xs)) e ∙ ap (both (f b)) (totalᴰ f xs ys p)
  totalᴰ f _ _ (swap {a = a} {b = b} {a' = a'} {b' = b'} {l = l} e k) =
      swap_both (f a) (f b) (total f l)
      ∙ (ap (λ c. both (f c) (both (f a) (total f l))) k
          ∙ ap (λ c. both (f a') (both (f c) (total f l))) e)
  totalᴰ f _ _ (trans {l₁ = xs} {l₂ = ys} {l₃ = zs} p q) = totalᴰ f xs ys p ∙ totalᴰ f ys zs q

  -- In whatever order they come.
  pub total-Perm :
      {A : Type 0} (f : A → Option (RuleSet R)) (xs ys : List A)
      → ∥ Permᴰ xs ys ∥₁
      → total f xs ≡ total f ys
  total-Perm f xs ys p =
      ∥∥₁_elim p (Option.is_set Quot-set (total f xs) (total f ys)) (totalᴰ f xs ys)

  -- A loop over a list, each turn of which adds the same rules whenever it comes.
  pub record IsLoop {A : Type 0} (loop : List A → Blocklist R → Result (Blocklist R)) : Type 0 where
    pub no_turn : (bl : Blocklist R) → loop [] bl ≡ ok bl
    pub turn :
        (a : A) (xs : List A) (bl : Blocklist R)
        → loop (a ∷ xs) bl ≡ and_then (loop (a ∷ []) bl) (loop xs)
    pub adds : (a : A) → Additive (loop (a ∷ []))

  -- What one turn adds.
  abbrev pub alone :
      {A : Type 0} → (List A → Blocklist R → Result (Blocklist R)) → A → Option (RuleSet R)
  alone loop a = reads (loop (a ∷ []) new)

  pub loop-Additive :
      {A : Type 0} (loop : List A → Blocklist R → Result (Blocklist R))
      → IsLoop loop
      → (xs : List A) → Additive (loop xs)
  loop-Additive loop is [] bl =
      ap reads (is.no_turn bl)
      ∙ (sym (both-new (reads (ok bl)))
          ∙ ap (λ r. both (reads (ok bl)) (reads r)) (sym (is.no_turn new)))
  loop-Additive loop is (a ∷ xs) bl =
      ap reads (is.turn a xs bl)
      ∙ (and_then-Additive (loop (a ∷ [])) (loop xs) (is.adds a) (loop-Additive loop is xs) bl
          ∙ ap (λ r. both (reads (ok bl)) (reads r)) (sym (is.turn a xs new)))

  pub loop-total :
      {A : Type 0} (loop : List A → Blocklist R → Result (Blocklist R))
      → IsLoop loop
      → (xs : List A) → reads (loop xs new) ≡ total (alone loop) xs
  unfolding total
  loop-total loop is [] = ap reads (is.no_turn new)
  loop-total loop is (a ∷ xs) =
      ap reads (is.turn a xs new)
      ∙ (and_then-reads (loop (a ∷ []) new) (loop xs) (loop-Additive loop is xs)
          ∙ ap (both (alone loop a)) (loop-total loop is xs))
