-- ===== src/Blocklist/Grows.antt =====
-- Rules that stay when rules are added to a `Blocklist` of src/blocklist.rs.
use dns_ligase.Blocklist.Rules.{Blocklist, contains, insert, contains-insert, HashSet}
use dns_ligase.Prelude.{any, Bool, true, List, [], ◌∷◌, ◌++◌, ◌≡◌, arith, Bytes}
use dns_ligase.Io.{ok, err, fault, Result, and_then}

-- Every element stays.
unfoldable pub Within : HashSet → HashSet → Type 0
Within xs ys = (d : Bytes) → contains xs d ≡ true → contains ys d ≡ true

-- Every match stays.
unfoldable pub AnyWithin : {R : Type 0} → List R → List R → Type 0
AnyWithin {R} xs ys = (p : R → Bool) → any p xs ≡ true → any p ys ≡ true

pub any-append : {R : Type 0} (r : R) (xs : List R) → AnyWithin xs (xs ++ r ∷ [])
unfolding AnyWithin
any-append r [] p h = ground arith
any-append r (x ∷ xs) p h = ground (arith, any-append r xs p)

pub Within-insert : (d : Bytes) (xs : HashSet) → Within xs (insert d xs)
unfolding Within
Within-insert d xs e h = ground (arith, contains-insert d e xs)

-- All rules of the first stay in the second.
pub record Grows {R : Type 0} (bl bl' : Blocklist R) : Type 0 where
  pub allow_domains_stay : Within bl.allow_domains bl'.allow_domains
  pub block_domains_stay : Within bl.block_domains bl'.block_domains
  pub allow_suffixes_stay : Within bl.allow_suffixes bl'.allow_suffixes
  pub block_suffixes_stay : Within bl.block_suffixes bl'.block_suffixes
  pub allow_regex_stay : AnyWithin bl.allow_regex bl'.allow_regex
  pub block_regex_stay : AnyWithin bl.block_regex bl'.block_regex

pub stay : (xs : HashSet) → Within xs xs
unfolding Within
stay xs d h = h

pub any_stay : {R : Type 0} (rs : List R) → AnyWithin rs rs
unfolding AnyWithin
any_stay rs p h = h

pub grows :
    {R : Type 0} {bl bl' : Blocklist R}
    → Within bl.allow_domains bl'.allow_domains
    → Within bl.block_domains bl'.block_domains
    → Within bl.allow_suffixes bl'.allow_suffixes
    → Within bl.block_suffixes bl'.block_suffixes
    → AnyWithin bl.allow_regex bl'.allow_regex
    → AnyWithin bl.block_regex bl'.block_regex
    → Grows bl bl'
grows a b c d e f = record {
  allow_domains_stay = a;
  block_domains_stay = b;
  allow_suffixes_stay = c;
  block_suffixes_stay = d;
  allow_regex_stay = e;
  block_regex_stay = f;
}

pub Grows-refl : {R : Type 0} (bl : Blocklist R) → Grows bl bl
Grows-refl bl = grows (stay _) (stay _) (stay _) (stay _) (any_stay _) (any_stay _)

pub Grows-trans : {R : Type 0} {a b c : Blocklist R} → Grows a b → Grows b c → Grows a c
unfolding Within AnyWithin
Grows-trans g h = record {
  allow_domains_stay = λ d k. h.allow_domains_stay d (g.allow_domains_stay d k);
  block_domains_stay = λ d k. h.block_domains_stay d (g.block_domains_stay d k);
  allow_suffixes_stay = λ d k. h.allow_suffixes_stay d (g.allow_suffixes_stay d k);
  block_suffixes_stay = λ d k. h.block_suffixes_stay d (g.block_suffixes_stay d k);
  allow_regex_stay = λ p k. h.allow_regex_stay p (g.allow_regex_stay p k);
  block_regex_stay = λ p k. h.block_regex_stay p (g.block_regex_stay p k);
}

-- A result is rules, the old ones and more, or a panic; it is not an error.
abbrev pub GrowsTo : {R : Type 0} → Blocklist R → Result (Blocklist R) → Type 0
GrowsTo bl (ok bl') = Grows bl bl'
GrowsTo bl (err e) = ⊥
GrowsTo bl (fault f) = Unit

pub and_then-GrowsTo :
    {R : Type 0} (bl : Blocklist R) (r : Result (Blocklist R))
    (f : Blocklist R → Result (Blocklist R))
    → GrowsTo bl r
    → ((bl' : Blocklist R) → GrowsTo bl' (f bl'))
    → GrowsTo bl (and_then r f)
and_then-GrowsTo {R} bl (ok bl') f g h = widen (f bl') (h bl')
  where
    widen : (r : Result (Blocklist R)) → GrowsTo bl' r → GrowsTo bl r
    widen (ok c) k = Grows-trans g k
    widen (err e) k = k
    widen (fault e) k = tt
and_then-GrowsTo bl (err e) f g h = g
and_then-GrowsTo bl (fault e) f g h = tt
