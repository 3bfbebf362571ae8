-- ===== src/Prelude/Xor.antt =====
-- `bit_xor` at variables: it is one digit at a time the sum modulo 2, and from that come its laws.
use Prim.Native.Nat.{
  ℕ, zero, suc, ◌+◌, ◌*◌, ◌/◌, ◌%◌, ◌^◌, ◌≤◌, ◌<◌, bit_xor, bit_xor-bitwise, digits, differ,
}
use mathlib.Core.Path.{◌≡◌, refl, sym, ap, ap₂, ◌∙◌}
use native.Mathlib.Nat.{le_refl, pow-suc, one-le-pow, div-add-mod'}
use native.Mathlib.Omega.{arith}

module _ (z : ℕ → ℕ) (f : ℕ → ℕ → ℕ) where
  digits_enough : (n m a b : ℕ) → a ≤ n → a ≤ m → digits z f n a b ≡ digits z f m a b
  digits_enough zero zero a c h k = refl
  digits_enough zero (suc m) zero c h k = refl
  digits_enough zero (suc m) (suc a) b p q = absurd (omega arith)
  digits_enough (suc n) zero zero b p q = refl
  digits_enough (suc n) zero (suc a) b p q = absurd (omega arith)
  digits_enough (suc n) (suc m) zero b p q = refl
  digits_enough (suc n) (suc m) (suc a) b p q =
      rw (digits_enough n m (suc a / 2) (b / 2) (omega arith) (omega arith))

  -- The fuel that the step of a number leaves, and the fuel of its half.
  pub half_digits :
      (a b : ℕ) → digits z f a (suc a / 2) (b / 2) ≡ digits z f (suc a / 2) (suc a / 2) (b / 2)
  half_digits a b = digits_enough a (suc a / 2) (suc a / 2) (b / 2) (omega arith) (le_refl _)

differ_digits : (a b : ℕ) → a < 2 → b < 2 → differ a b ≡ (a + b) % 2
differ_digits zero b p q = omega arith
differ_digits (suc zero) zero p q = omega arith
differ_digits (suc zero) (suc zero) p q = omega arith
differ_digits (suc zero) (suc (suc b)) p q = absurd (omega arith)
differ_digits (suc (suc a)) b p q = absurd (omega arith)

-- The lowest digit of a `xor`, and what is above it.
xor_step : (a b : ℕ) → bit_xor a b ≡ bit_xor (a / 2) (b / 2) * 2 + (a + b) % 2
xor_step zero b = simp bit_xor-bitwise (omega arith)
xor_step (suc a) b = omega (
  arith,
  bit_xor-bitwise (suc a) b,
  bit_xor-bitwise (suc a / 2) (b / 2),
  half_digits (λ y. y) differ a b,
  differ_digits (suc a % 2) (b % 2) (omega arith) (omega arith),
)

xor_half : (a b : ℕ) → bit_xor a b / 2 ≡ bit_xor (a / 2) (b / 2)
xor_half a b = omega (arith, xor_step a b)

pub xor_parity : (a b : ℕ) → bit_xor a b % 2 ≡ (a + b) % 2
xor_parity a b = omega (arith, xor_step a b)

comm_below : (n a b : ℕ) → a + b ≤ n → bit_xor a b ≡ bit_xor b a
comm_below n zero zero h = refl
comm_below zero a b h = let e : a ≡ b = omega arith in ap₂ bit_xor e (sym e)
comm_below (suc n) a b h =
    omega (arith, xor_step a b, xor_step b a, comm_below n (a / 2) (b / 2) (omega arith))

pub xor_comm : (a b : ℕ) → bit_xor a b ≡ bit_xor b a
xor_comm a b = comm_below (a + b) a b (le_refl _)

assoc_below : (n a b c : ℕ) → a + b + c ≤ n → bit_xor (bit_xor a b) c ≡ bit_xor a (bit_xor b c)
assoc_below n zero zero zero h = refl
assoc_below zero a b c h = absurd (omega arith)
assoc_below (suc n) a b c h = omega (
  arith,
  xor_step a b,
  xor_step b c,
  xor_step (bit_xor a b) c,
  xor_step a (bit_xor b c),
  ap (λ x. bit_xor x (c / 2)) (xor_half a b),
  ap (bit_xor (a / 2)) (xor_half b c),
  assoc_below n (a / 2) (b / 2) (c / 2) (omega arith),
)

pub xor_assoc : (a b c : ℕ) → bit_xor (bit_xor a b) c ≡ bit_xor a (bit_xor b c)
xor_assoc a b c = assoc_below (a + b + c) a b c (le_refl _)

-- The digits from the k-th up and those below it do not mix.
pub xor_fields :
    (k a b r s : ℕ)
    → r < 2 ^ k
    → s < 2 ^ k
    → bit_xor (a * 2 ^ k + r) (b * 2 ^ k + s) ≡ bit_xor a b * 2 ^ k + bit_xor r s
xor_fields zero a b r s p q =
    omega (arith, ap₂ bit_xor (low a r p) (low b s q), ap₂ bit_xor (zero_of r p) (zero_of s q))
  where
    low : (x y : ℕ) → y < 1 → x * 1 + y ≡ x
    low x y h = omega arith

    zero_of : (y : ℕ) → y < 1 → y ≡ 0
    zero_of y h = omega arith
xor_fields (suc k) a b r s p q = omega (
  arith,
  xor_step (a * 2 ^ suc k + r) (b * 2 ^ suc k + s),
  xor_step r s,
  ap₂ bit_xor (half_of a r) (half_of b s),
  xor_fields k a b (r / 2) (s / 2) (fits r p) (fits s q),
  double a,
  double b,
  double (bit_xor a b),
)
  where
    double : (x : ℕ) → x * 2 ^ suc k ≡ 2 * (x * 2 ^ k)
    double x = omega (arith, ap (λ (t : ℕ). x * t) (pow-suc 2 k))

    half_of : (x y : ℕ) → (x * 2 ^ suc k + y) / 2 ≡ x * 2 ^ k + y / 2
    half_of x y = omega (arith, double x)

    fits : (y : ℕ) → y < 2 ^ suc k → y / 2 < 2 ^ k
    fits y h = omega (arith, pow-suc 2 k)

-- A `xor` of numbers of k digits has k digits.
pub xor-lt : (k a b : ℕ) → a < 2 ^ k → b < 2 ^ k → bit_xor a b < 2 ^ k
xor-lt zero a b p q = omega (arith, ap₂ bit_xor (zero_of a p) (zero_of b q))
  where
    zero_of : (y : ℕ) → y < 1 → y ≡ 0
    zero_of y h = omega arith
xor-lt (suc k) a b p q = omega (
  arith,
  xor_step a b,
  pow-suc 2 k,
  xor-lt k (a / 2) (b / 2) (omega (arith, pow-suc 2 k)) (omega (arith, pow-suc 2 k)),
)

-- The last k digits of a `xor`, and the rest.
xor_split :
    (k a b : ℕ)
    → bit_xor a b ≡ bit_xor (a / 2 ^ k) (b / 2 ^ k) * 2 ^ k + bit_xor (a % 2 ^ k) (b % 2 ^ k)
xor_split k a b =
    ap₂ bit_xor (parts a) (parts b)
    ∙ xor_fields k (a / 2 ^ k) (b / 2 ^ k) (a % 2 ^ k) (b % 2 ^ k) (below a) (below b)
  where
    parts : (x : ℕ) → x ≡ x / 2 ^ k * 2 ^ k + x % 2 ^ k
    parts x = sym (div-add-mod' x (2 ^ k))

    below : (x : ℕ) → x % 2 ^ k < 2 ^ k
    below x = omega (arith, one-le-pow k 2)

div_of_parts : (p h l : ℕ) → l < p → (h * p + l) / p ≡ h
div_of_parts p h l lt = grind arith

pub mod_of_parts : (p h l : ℕ) → l < p → (h * p + l) % p ≡ l
mod_of_parts p h l lt = grind arith

low-lt : (k a b : ℕ) → bit_xor (a % 2 ^ k) (b % 2 ^ k) < 2 ^ k
low-lt k a b = xor-lt k (a % 2 ^ k) (b % 2 ^ k) (below a) (below b)
  where
    below : (x : ℕ) → x % 2 ^ k < 2 ^ k
    below x = omega (arith, one-le-pow k 2)

pub xor-mod : (k a b : ℕ) → bit_xor a b % 2 ^ k ≡ bit_xor (a % 2 ^ k) (b % 2 ^ k)
xor-mod k a b = ap (λ x. x % 2 ^ k) (xor_split k a b) ∙ mod_of_parts (2 ^ k) _ _ (low-lt k a b)

xor-div : (k a b : ℕ) → bit_xor a b / 2 ^ k ≡ bit_xor (a / 2 ^ k) (b / 2 ^ k)
xor-div k a b = ap (λ x. x / 2 ^ k) (xor_split k a b) ∙ div_of_parts (2 ^ k) _ _ (low-lt k a b)

pub xor_double : (a b : ℕ) → bit_xor (a * 2) (b * 2) ≡ bit_xor a b * 2
xor_double a b = omega (arith, xor_step (a * 2) (b * 2), ap₂ bit_xor (half_of a) (half_of b))
  where
    half_of : (x : ℕ) → x * 2 / 2 ≡ x
    half_of x = omega arith

zero_xor : (a : ℕ) → bit_xor 0 a ≡ a
zero_xor a = bit_xor-bitwise 0 a

self_below : (n a : ℕ) → a ≤ n → bit_xor a a ≡ 0
self_below n zero h = refl
self_below zero (suc a) h = absurd (omega arith)
self_below (suc n) (suc a) h =
    omega (arith, xor_step (suc a) (suc a), self_below n (suc a / 2) (omega arith))

xor_self : (a : ℕ) → bit_xor a a ≡ 0
xor_self a = self_below a a (le_refl _)

pub xor-zero : (a : ℕ) → bit_xor a 0 ≡ a
xor-zero a = xor_comm a 0 ∙ zero_xor a

pub zero-xor : (a : ℕ) → bit_xor 0 a ≡ a
zero-xor = zero_xor

-- `xor` by the same number twice changes nothing, so it can be cancelled.
xor_undo : (a b : ℕ) → bit_xor (bit_xor a b) b ≡ a
xor_undo a b = xor_assoc a b b ∙ ap (bit_xor a) (xor_self b) ∙ xor-zero a

pub xor_cancel : (a b c : ℕ) → bit_xor a c ≡ bit_xor b c → a ≡ b
xor_cancel a b c e = sym (xor_undo a c) ∙ ap (λ x. bit_xor x c) e ∙ xor_undo b c
