-- ===== src/Blocklist/Unordered.antt =====
-- The rules of src/blocklist.rs up to the order in which they are stored: a `HashSet` has none, and
-- which regex comes first only shows in the text that is logged.
pub mod Verdict
pub mod Loops
use dns_ligase.Blocklist.Merge.{extend, merge_blocklist}
use dns_ligase.Blocklist.Merge.Hits.{contains-extend, any-append_or}
use dns_ligase.Blocklist.Rules.{Blocklist, HashSet, contains}
use dns_ligase.Io.{Result, ok, err, fault}
use dns_ligase.Prelude.{
  Bool, any, Bytes, ◌≡◌, refl, sym, ap, ◌∙◌, List, ◌++◌, append_assoc, arith, Option, none, some,
}
use mathlib.Core.Quot
use mathlib.Core.Quot.{Quot, Quot-set}

-- The same names and suffixes, and regexes that match the same.
pub record SameHits {R : Type 0} (a b : Blocklist R) : Type 0 where
  pub allow_domains_same : (d : Bytes) → contains a.allow_domains d ≡ contains b.allow_domains d
  pub block_domains_same : (d : Bytes) → contains a.block_domains d ≡ contains b.block_domains d
  pub allow_suffixes_same : (d : Bytes) → contains a.allow_suffixes d ≡ contains b.allow_suffixes d
  pub block_suffixes_same : (d : Bytes) → contains a.block_suffixes d ≡ contains b.block_suffixes d
  pub allow_regex_same : (p : R → Bool) → any p a.allow_regex ≡ any p b.allow_regex
  pub block_regex_same : (p : R → Bool) → any p a.block_regex ≡ any p b.block_regex

abbrev pub RuleSet : Type 0 → Type 0
RuleSet R = Quot {α = Blocklist R} SameHits

pub SameHits-sym : {R : Type 0} {a b : Blocklist R} → SameHits a b → SameHits b a
SameHits-sym h = record {
  allow_domains_same = λ d. sym (h.allow_domains_same d);
  block_domains_same = λ d. sym (h.block_domains_same d);
  allow_suffixes_same = λ d. sym (h.allow_suffixes_same d);
  block_suffixes_same = λ d. sym (h.block_suffixes_same d);
  allow_regex_same = λ p. sym (h.allow_regex_same p);
  block_regex_same = λ p. sym (h.block_regex_same p);
}

extend_same :
    (a b rules : HashSet) (d : Bytes)
    → contains a d ≡ contains b d
    → contains (extend a rules) d ≡ contains (extend b rules) d
extend_same a b rules d h = ground (arith, contains-extend d a rules, contains-extend d b rules)

append_same :
    {R : Type 0} (a b rules : List R) (p : R → Bool)
    → any p a ≡ any p b
    → any p (a ++ rules) ≡ any p (b ++ rules)
append_same a b rules p h = ground (arith, any-append_or p a rules, any-append_or p b rules)

-- Merging respects this in its first argument.
pub merge-SameHits :
    {R : Type 0} (a b rules : Blocklist R)
    → SameHits a b
    → SameHits (merge_blocklist a rules) (merge_blocklist b rules)
unfolding merge_blocklist
merge-SameHits a b rules h = record {
  allow_domains_same = λ d.
      extend_same a.allow_domains b.allow_domains rules.allow_domains d (h.allow_domains_same d);
  block_domains_same = λ d.
      extend_same a.block_domains b.block_domains rules.block_domains d (h.block_domains_same d);
  allow_suffixes_same = λ d.
      extend_same a.allow_suffixes b.allow_suffixes rules.allow_suffixes d
        (h.allow_suffixes_same d);
  block_suffixes_same = λ d.
      extend_same a.block_suffixes b.block_suffixes rules.block_suffixes d
        (h.block_suffixes_same d);
  allow_regex_same =
      λ p. append_same a.allow_regex b.allow_regex rules.allow_regex p (h.allow_regex_same p);
  block_regex_same =
      λ p. append_same a.block_regex b.block_regex rules.block_regex p (h.block_regex_same p);
}

-- And in its second.
merge-SameHits_right :
    {R : Type 0} (bl a b : Blocklist R)
    → SameHits a b
    → SameHits (merge_blocklist bl a) (merge_blocklist bl b)
unfolding merge_blocklist
merge-SameHits_right bl a b h = record {
  allow_domains_same =
      λ d. extends bl.allow_domains a.allow_domains b.allow_domains d (h.allow_domains_same d);
  block_domains_same =
      λ d. extends bl.block_domains a.block_domains b.block_domains d (h.block_domains_same d);
  allow_suffixes_same =
      λ d. extends bl.allow_suffixes a.allow_suffixes b.allow_suffixes d (h.allow_suffixes_same d);
  block_suffixes_same =
      λ d. extends bl.block_suffixes a.block_suffixes b.block_suffixes d (h.block_suffixes_same d);
  allow_regex_same =
      λ p. appends bl.allow_regex a.allow_regex b.allow_regex p (h.allow_regex_same p);
  block_regex_same =
      λ p. appends bl.block_regex a.block_regex b.block_regex p (h.block_regex_same p);
}
  where
    extends :
        (xs a b : HashSet) (d : Bytes)
        → contains a d ≡ contains b d
        → contains (extend xs a) d ≡ contains (extend xs b) d
    extends xs a b d h = ground (arith, contains-extend d xs a, contains-extend d xs b)

    appends :
        {R : Type 0} (xs a b : List R) (p : R → Bool)
        → any p a ≡ any p b
        → any p (xs ++ a) ≡ any p (xs ++ b)
    appends xs a b p h = ground (arith, any-append_or p xs a, any-append_or p xs b)

merge-SameHits_comm :
    {R : Type 0} (a b : Blocklist R) → SameHits (merge_blocklist a b) (merge_blocklist b a)
unfolding merge_blocklist
merge-SameHits_comm a b = record {
  allow_domains_same = extends a.allow_domains b.allow_domains;
  block_domains_same = extends a.block_domains b.block_domains;
  allow_suffixes_same = extends a.allow_suffixes b.allow_suffixes;
  block_suffixes_same = extends a.block_suffixes b.block_suffixes;
  allow_regex_same = appends a.allow_regex b.allow_regex;
  block_regex_same = appends a.block_regex b.block_regex;
}
  where
    extends : (a b : HashSet) (d : Bytes) → contains (extend a b) d ≡ contains (extend b a) d
    extends a b d = ground (arith, contains-extend d a b, contains-extend d b a)

    appends : {R : Type 0} (a b : List R) (p : R → Bool) → any p (a ++ b) ≡ any p (b ++ a)
    appends a b p = ground (arith, any-append_or p a b, any-append_or p b a)

merge-SameHits_assoc :
    {R : Type 0} (a b c : Blocklist R)
    → SameHits (merge_blocklist (merge_blocklist a b) c) (merge_blocklist a (merge_blocklist b c))
unfolding merge_blocklist
merge-SameHits_assoc a b c = record {
  allow_domains_same = extends a.allow_domains b.allow_domains c.allow_domains;
  block_domains_same = extends a.block_domains b.block_domains c.block_domains;
  allow_suffixes_same = extends a.allow_suffixes b.allow_suffixes c.allow_suffixes;
  block_suffixes_same = extends a.block_suffixes b.block_suffixes c.block_suffixes;
  allow_regex_same = appends a.allow_regex b.allow_regex c.allow_regex;
  block_regex_same = appends a.block_regex b.block_regex c.block_regex;
}
  where
    extends :
        (a b c : HashSet) (d : Bytes)
        → contains (extend (extend a b) c) d ≡ contains (extend a (extend b c)) d
    extends a b c d = ground (
      arith,
      contains-extend d (extend a b) c,
      contains-extend d a b,
      contains-extend d a (extend b c),
      contains-extend d b c,
    )

    appends :
        {R : Type 0} (a b c : List R) (p : R → Bool) → any p ((a ++ b) ++ c) ≡ any p (a ++ (b ++ c))
    appends a b c p = rw (append_assoc a b c) refl

unfoldable pub with_rules : {R : Type 0} → Blocklist R → RuleSet R → RuleSet R
unfolding merge_blocklist
with_rules rules =
    Quot.lift Quot-set (λ a. Quot.mk (merge_blocklist a rules))
      (λ a b h. Quot.sound (merge-SameHits a b rules h))

pub with_rules-SameHits :
    {R : Type 0} (a b : Blocklist R)
    → SameHits a b
    → (s : RuleSet R) → with_rules a s ≡ with_rules b s
unfolding with_rules
with_rules-SameHits a b h =
    Quot.ind (λ s. Quot-set _ _) (λ bl. Quot.sound (merge-SameHits_right bl a b h))

-- The rules of both.
unfoldable pub join : {R : Type 0} → RuleSet R → RuleSet R → RuleSet R
unfolding with_rules
join s t = Quot.lift Quot-set (λ rules. with_rules rules s) (λ a b h. with_rules-SameHits a b h s) t

join_comm : {R : Type 0} (s t : RuleSet R) → join s t ≡ join t s
unfolding join
join_comm s t =
    Quot.ind {r = SameHits} {β = λ s. join s t ≡ join t s} (λ s. Quot-set _ _)
      (λ a.
        Quot.ind {r = SameHits} {β = λ t. join (Quot.mk a) t ≡ join t (Quot.mk a)}
          (λ t. Quot-set _ _) (λ b. Quot.sound (merge-SameHits_comm a b)) t)
      s

join_assoc : {R : Type 0} (s t u : RuleSet R) → join (join s t) u ≡ join s (join t u)
unfolding join
join_assoc s t u =
    Quot.ind {r = SameHits} {β = λ s. join (join s t) u ≡ join s (join t u)} (λ s. Quot-set _ _)
      (λ a.
        Quot.ind {r = SameHits} {β = λ t. join (join (Quot.mk a) t) u ≡ join (Quot.mk a) (join t u)}
          (λ t. Quot-set _ _)
          (λ b.
            Quot.ind {r = SameHits}
              {β = λ u.
                join (join (Quot.mk a) (Quot.mk b)) u ≡ join (Quot.mk a) (join (Quot.mk b) u)}
              (λ u. Quot-set _ _) (λ c. Quot.sound (merge-SameHits_assoc a b c)) u)
          t)
      s

-- Of two results, the rules of both, if neither is a panic.
unfoldable pub both : {R : Type 0} → Option (RuleSet R) → Option (RuleSet R) → Option (RuleSet R)
unfolding join
both none t = none
both (some s) none = none
both (some s) (some t) = some (join s t)

pub both_comm : {R : Type 0} (s t : Option (RuleSet R)) → both s t ≡ both t s
unfolding both
both_comm none none = refl
both_comm none (some t) = refl
both_comm (some s) none = refl
both_comm (some s) (some t) = rw (join_comm s t) refl

pub both_assoc : {R : Type 0} (s t u : Option (RuleSet R)) → both (both s t) u ≡ both s (both t u)
unfolding both
both_assoc none t u = refl
both_assoc (some s) none u = refl
both_assoc (some s) (some t) none = refl
both_assoc (some s) (some t) (some u) = rw (join_assoc s t u) refl

pub both_swap : {R : Type 0} (s t u : Option (RuleSet R)) → both (both s t) u ≡ both (both s u) t
both_swap s t u = both_assoc s t u ∙ (ap (both s) (both_comm t u) ∙ sym (both_assoc s u t))

-- What a computation of rules comes to; a panic is `none`.
abbrev pub reads : {R : Type 0} → Result (Blocklist R) → Option (RuleSet R)
reads (ok bl) = some (Quot.mk bl)
reads (err e) = none
reads (fault f) = none
