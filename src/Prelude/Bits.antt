-- ===== src/Prelude/Bits.antt =====
-- `|` and `&` at variables: one equation for the lowest bit, and what follows for setting a bit.
use Prim.Native.Nat.{
  ℕ, zero, suc, ◌+◌, ◌*◌, ◌/◌, ◌%◌, ◌^◌, ◌≤◌, ◌<◌, min, max, digits, bit_and, bit_or,
  bit_and-bitwise, bit_or-bitwise,
}
use mathlib.Core.Path.{◌≡◌, ◌∙◌, refl, ap, sym}
use native.Mathlib.Nat.{pow-suc}
use native.Mathlib.Omega.{arith}

-- More fuel than the left number changes nothing.
module _ (ends : ℕ → ℕ) (bit : ℕ → ℕ → ℕ) where
  fuel_free : (a n m b : ℕ) → a ≤ n → a ≤ m → digits ends bit n a b ≡ digits ends bit m a b
  fuel_free zero zero zero b p q = refl
  fuel_free zero zero (suc m) b p q = refl
  fuel_free zero (suc n) zero b p q = refl
  fuel_free zero (suc n) (suc m) b p q = refl
  fuel_free (suc a) zero m b p q = absurd (omega arith)
  fuel_free (suc a) (suc n) zero b p q = absurd (omega arith)
  fuel_free (suc a) (suc n) (suc m) b p q =
      rw (fuel_free (suc a / 2) n m (b / 2) (omega arith) (omega arith))

  -- An operation on bits acts on the lowest bits and on the halves.
  low_bits :
      (op : ℕ → ℕ → ℕ)
      → ((a b : ℕ) → op a b ≡ digits ends bit a a b)
      → ((b : ℕ) → ends b ≡ ends (b / 2) * 2 + bit 0 (b % 2))
      → (a b : ℕ) → op a b ≡ op (a / 2) (b / 2) * 2 + bit (a % 2) (b % 2)
  low_bits op means ends_low zero b = omega (arith, means 0 b, means 0 (b / 2), ends_low b)
  low_bits op means ends_low (suc a) b =
      means (suc a) b
      ∙ ap (λ h. h * 2 + bit (suc a % 2) (b % 2))
          (fuel_free (suc a / 2) a (suc a / 2) (b / 2) (omega arith) (omega arith)
            ∙ sym (means (suc a / 2) (b / 2)))

bit_or_low : (a b : ℕ) → bit_or a b ≡ bit_or (a / 2) (b / 2) * 2 + max (a % 2) (b % 2)
bit_or_low = low_bits (λ y. y) max bit_or bit_or-bitwise (λ b. omega arith)

bit_and_low : (a b : ℕ) → bit_and a b ≡ bit_and (a / 2) (b / 2) * 2 + min (a % 2) (b % 2)
bit_and_low = low_bits (λ y. 0) min bit_and bit_and-bitwise (λ b. omega arith)

bit_and-zero : (n a : ℕ) → a ≤ n → bit_and a 0 ≡ 0
bit_and-zero zero zero h = refl
bit_and-zero zero (suc a) h = absurd (omega arith)
bit_and-zero (suc n) zero h = refl
bit_and-zero (suc n) (suc a) h =
    omega (arith, bit_and_low (suc a) 0, bit_and-zero n (suc a / 2) (omega arith))

double_half : (p : ℕ) → p * 2 / 2 ≡ p
double_half p = omega arith

bit_or-double : (a p : ℕ) → bit_or a (p * 2) ≡ bit_or (a / 2) p * 2 + a % 2
bit_or-double a p = omega (arith, bit_or_low a (p * 2), ap (bit_or (a / 2)) (double_half p))

bit_and-double : (a p : ℕ) → bit_and a (p * 2) ≡ bit_and (a / 2) p * 2
bit_and-double a p = omega (arith, bit_and_low a (p * 2), ap (bit_and (a / 2)) (double_half p))

found_one_up :
    (a p : ℕ) → bit_and (bit_or (a / 2) p) p ≡ p → bit_and (bit_or a (p * 2)) (p * 2) ≡ p * 2
found_one_up a p h =
    omega (arith, bit_and-double (bit_or a (p * 2)) p, ap (λ (y : ℕ). bit_and y p) half)
  where
    half : bit_or a (p * 2) / 2 ≡ bit_or (a / 2) p
    half = omega (arith, bit_or-double a p)

pow_double : (k : ℕ) → 2 ^ suc k ≡ 2 ^ k * 2
pow_double k = omega (arith, pow-suc 2 k)

-- A bit that was set is found set.
pub bit_and-bit_or : (k a : ℕ) → bit_and (bit_or a (2 ^ k)) (2 ^ k) ≡ 2 ^ k
bit_and-bit_or zero a = omega (
  arith,
  bit_or_low a 1,
  bit_and_low (bit_or a 1) 1,
  bit_and-zero (bit_or a 1 / 2) (bit_or a 1 / 2) (omega arith),
)
bit_and-bit_or (suc k) a = rw (pow_double k) (found_one_up a (2 ^ k) (bit_and-bit_or k (a / 2)))

zero_only : (a : ℕ) → a < 1 → a ≡ 0
zero_only a h = omega arith

-- Setting a bit stays within the word.
pub bit_or-lt : (n a b : ℕ) → a < 2 ^ n → b < 2 ^ n → bit_or a b < 2 ^ n
bit_or-lt zero a b p q = rw (zero_only a p, zero_only b q) (omega arith)
bit_or-lt (suc n) a b p q = omega (
  arith,
  pow_double n,
  bit_or_low a b,
  bit_or-lt n (a / 2) (b / 2) (omega (arith, pow_double n)) (omega (arith, pow_double n)),
)
