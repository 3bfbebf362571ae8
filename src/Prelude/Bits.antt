-- ===== src/Prelude/Bits.antt =====
-- `bit_and` with a bit or a mask, and `bit_or` of two fields, one digit at a time.
use Prim.Native.Nat.{
  bit_or, bit_or-bitwise, max, ℕ, zero, suc, ◌+◌, ◌-◌, ◌*◌, ◌/◌, ◌%◌, ◌^◌, ◌≤◌, ◌<◌, min, bit_and,
  bit_and-bitwise,
}
use mathlib.Core.Path.{◌≡◌, refl, sym, ap, ◌∙◌}
use native.Mathlib.Nat.{le_refl, pow-suc, one-le-pow, div-add-mod', div-div-eq-div-mul}
use native.Mathlib.Omega.{arith}
use star_server.Prelude.Xor.{half_digits, mod_of_parts}

-- The lowest digit of an `and`, and what is above it.
and_step : (a b : ℕ) → bit_and a b ≡ min (a % 2) (b % 2) + 2 * bit_and (a / 2) (b / 2)
and_step zero b = simp bit_and-bitwise (omega arith)
and_step (suc a) b = omega (
  arith,
  bit_and-bitwise (suc a) b,
  bit_and-bitwise (suc a / 2) (b / 2),
  half_digits (λ y. 0) min a b,
)

and_zero_below : (n a : ℕ) → a ≤ n → bit_and a 0 ≡ 0
and_zero_below n zero h = refl
and_zero_below zero (suc a) h = absurd (omega arith)
and_zero_below (suc n) (suc a) h =
    omega (arith, and_step (suc a) 0, and_zero_below n (suc a / 2) (omega arith))

and-zero : (a : ℕ) → bit_and a 0 ≡ 0
and-zero a = and_zero_below a a (le_refl _)

div_twice : (a p : ℕ) → a / (2 * p) ≡ a / 2 / p
div_twice a p = sym (div-div-eq-div-mul a 2 p)

mod_twice : (a p : ℕ) → 0 < p → a % (2 * p) ≡ a / 2 % p * 2 + a % 2
mod_twice a p h = ap (λ x. x % (2 * p)) parts ∙ mod_of_parts (2 * p) (a / 2 / p) _ (grind arith)
  where
    parts : a ≡ a / 2 / p * (2 * p) + (a / 2 % p * 2 + a % 2)
    parts = omega (arith, div-add-mod' (a / 2) p)

half_of_pow : (k : ℕ) → 2 ^ suc k / 2 ≡ 2 ^ k
half_of_pow k = omega (arith, pow-suc 2 k)

half_of_mask : (k : ℕ) → (2 ^ suc k - 1) / 2 ≡ 2 ^ k - 1
half_of_mask k = omega (arith, pow-suc 2 k)

-- `and` with one bit picks that bit.
pub and_bit : (k a : ℕ) → bit_and a (2 ^ k) ≡ a / 2 ^ k % 2 * 2 ^ k
and_bit zero a = omega (arith, and_step a 1, and-zero (a / 2))
and_bit (suc k) a = omega (
  arith,
  and_step a (2 ^ suc k),
  pow-suc 2 k,
  ap (bit_and (a / 2)) (half_of_pow k),
  and_bit k (a / 2),
  ap (λ (t : ℕ). t * 2 ^ suc k) bit_up,
  ap (λ (t : ℕ). a / 2 / 2 ^ k % 2 * t) (pow-suc 2 k),
)
  where
    bit_up : a / 2 ^ suc k % 2 ≡ a / 2 / 2 ^ k % 2
    bit_up = ap (λ (t : ℕ). a / t % 2) double ∙ ap (λ (t : ℕ). t % 2) (div_twice a (2 ^ k))
      where
        double : 2 ^ suc k ≡ 2 * 2 ^ k
        double = omega (arith, pow-suc 2 k)

-- `and` with a mask of ones is the remainder.
pub and_mask : (k a : ℕ) → bit_and a (2 ^ k - 1) ≡ a % 2 ^ k
and_mask zero a = omega (arith, and-zero a)
and_mask (suc k) a = omega (
  arith,
  and_step a (2 ^ suc k - 1),
  double,
  pos,
  ap (bit_and (a / 2)) (half_of_mask k),
  and_mask k (a / 2),
  mod_twice a (2 ^ k) pos,
  ap (λ (t : ℕ). a % t) double,
)
  where
    double : 2 ^ suc k ≡ 2 * 2 ^ k
    double = omega (arith, pow-suc 2 k)

    pos : 0 < 2 ^ k
    pos = one-le-pow k 2 (omega arith)

-- The lowest digit of an `or`, and what is above it.
or_step : (a b : ℕ) → bit_or a b ≡ bit_or (a / 2) (b / 2) * 2 + max (a % 2) (b % 2)
or_step zero b = simp bit_or-bitwise (omega arith)
or_step (suc a) b = omega (
  arith,
  bit_or-bitwise (suc a) b,
  bit_or-bitwise (suc a / 2) (b / 2),
  half_digits (λ y. y) max a b,
)

-- `or` puts a field above another.
pub or_fields : (k r q : ℕ) → r < 2 ^ k → bit_or r (q * 2 ^ k) ≡ r + q * 2 ^ k
or_fields zero zero q h = omega (arith, bit_or-bitwise 0 (q * 1))
or_fields zero (suc r) q h = absurd (omega arith)
or_fields (suc k) r q h = omega (
  arith,
  or_step r (q * 2 ^ suc k),
  ap (bit_or (r / 2)) half_of,
  double,
  or_fields k (r / 2) q (omega (arith, pow-suc 2 k)),
)
  where
    double : q * 2 ^ suc k ≡ 2 * (q * 2 ^ k)
    double = omega (arith, ap (λ (t : ℕ). q * t) (pow-suc 2 k))

    half_of : q * 2 ^ suc k / 2 ≡ q * 2 ^ k
    half_of = omega (arith, double)
