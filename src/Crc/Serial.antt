-- ===== src/Crc/Serial.antt =====
-- The reference for the checksums: a shift register that takes one bit at a time. Its width is
-- k + 8 bits, and its lemmas hold for every k.
use native.Mathlib.Nat.{pow-suc, one-le-pow, div-add-mod'}
use native.Mathlib.Numerals.{towards_suc}
use star_server.Prelude.{
  ℕ, zero, suc, ◌+◌, ◌-◌, ◌*◌, ◌/◌, ◌%◌, ◌^◌, ◌≤◌, ◌<◌, ◌≡◌, sym, ap, ap₂, ◌∙◌, bit_xor, List, [],
  ◌∷◌, if◌then◌else◌, ltb, arith, inl, inr, Bool-cases,
}
use star_server.Prelude.Xor.{
  xor_assoc, xor_comm, xor_double, xor-lt, xor_fields, xor-zero, zero-xor, mod_of_parts,
}

-- One bit leaves a register of h + 1 bits; if it is set, the polynomial is added.
unfoldable pub shift : ℕ → ℕ → ℕ → ℕ
shift h poly x = if ltb x (2 ^ h) then x * 2 else bit_xor (x * 2 - 2 * 2 ^ h) poly

unfoldable pub shifts : ℕ → ℕ → ℕ → ℕ → ℕ
shifts zero h poly x = x
shifts (suc n) h poly x = shifts n h poly (shift h poly x)

-- A byte is added at the top of the register, and eight bits are shifted out.
unfoldable pub serial_byte : ℕ → ℕ → ℕ → ℕ → ℕ
serial_byte k poly x d = shifts 8 (k + 7) poly (bit_xor x (d * 2 ^ k))

unfoldable pub serial : ℕ → ℕ → ℕ → List ℕ → ℕ
serial k poly x [] = x
serial k poly x (d ∷ ds) = serial k poly (serial_byte k poly x d) ds

-- A register stays in its width.
shift-lt : (h poly x : ℕ) → poly < 2 * 2 ^ h → x < 2 * 2 ^ h → shift h poly x < 2 * 2 ^ h
unfolding shift
shift-lt h poly x p q = ground (arith, pow-suc 2 h, xor-lt (suc h) (x * 2 - 2 * 2 ^ h) poly)

pub shifts-lt : (n h poly x : ℕ) → poly < 2 * 2 ^ h → x < 2 * 2 ^ h → shifts n h poly x < 2 * 2 ^ h
unfolding shifts
shifts-lt zero h poly x p q = q
shifts-lt (suc n) h poly x p q = shifts-lt n h poly (shift h poly x) p (shift-lt h poly x p q)

-- The top bit of a register, if it is set, stays set under what lies below it.
top_bit :
    (h x y : ℕ)
    → 2 ^ h ≤ x
    → x < 2 * 2 ^ h
    → y < 2 ^ h
    → bit_xor x y ≡ 2 ^ h + bit_xor (x - 2 ^ h) y
top_bit h x y p q r =
    omega (arith, ap₂ bit_xor parts whole, xor_fields h 1 0 (x - 2 ^ h) y (omega arith) r)
  where
    parts : x ≡ 1 * 2 ^ h + (x - 2 ^ h)
    parts = omega arith

    whole : y ≡ 0 * 2 ^ h + y
    whole = omega arith

swap_last : (a b c : ℕ) → bit_xor (bit_xor a b) c ≡ bit_xor (bit_xor a c) b
swap_last a b c = xor_assoc a b c ∙ ap (bit_xor a) (xor_comm b c) ∙ sym (xor_assoc a c b)

pub shift_low : (h poly x : ℕ) → x < 2 ^ h → shift h poly x ≡ x * 2
unfolding shift
shift_low h poly x p = ground arith

pub shift_high : (h poly x : ℕ) → 2 ^ h ≤ x → shift h poly x ≡ bit_xor ((x - 2 ^ h) * 2) poly
unfolding shift
shift_high h poly x p = ground (arith, ap (λ (t : ℕ). bit_xor t poly) twice)
  where
    twice : x * 2 - 2 * 2 ^ h ≡ (x - 2 ^ h) * 2
    twice = omega arith

-- What lies below the top bit is shifted and meets no polynomial.
shift-xor :
    (h poly x y : ℕ)
    → x < 2 * 2 ^ h
    → y < 2 ^ h
    → shift h poly (bit_xor x y) ≡ bit_xor (shift h poly x) (y * 2)
shift-xor h poly x y p q = elim (Bool-cases (ltb x (2 ^ h))) [
  | inl low ↦
      shift_low h poly (bit_xor x y) (xor-lt h x y (ground arith) q)
      ∙ sym (xor_double x y)
      ∙ ap (λ t. bit_xor t (y * 2)) (sym (shift_low h poly x (ground arith)))
  | inr high ↦
      let above : 2 ^ h ≤ x = ground arith in
      let sum = top_bit h x y above p q in
      shift_high h poly (bit_xor x y) (omega (arith, sum))
      ∙ ap (λ (t : ℕ). bit_xor (t * 2) poly) (rest sum)
      ∙ ap (λ t. bit_xor t poly) (sym (xor_double (x - 2 ^ h) y))
      ∙ swap_last ((x - 2 ^ h) * 2) (y * 2) poly
      ∙ ap (λ t. bit_xor t (y * 2)) (sym (shift_high h poly x above))
]
  where
    rest : bit_xor x y ≡ 2 ^ h + bit_xor (x - 2 ^ h) y → bit_xor x y - 2 ^ h ≡ bit_xor (x - 2 ^ h) y
    rest e = omega arith

pub shifts-xor :
    (n h poly x y : ℕ)
    → poly < 2 * 2 ^ h
    → x < 2 * 2 ^ h
    → y * 2 ^ n < 2 * 2 ^ h
    → shifts n h poly (bit_xor x y) ≡ bit_xor (shifts n h poly x) (y * 2 ^ n)
unfolding shifts
shifts-xor zero h poly x y p q r = ap (bit_xor x) (omega arith)
shifts-xor (suc n) h poly x y p q r =
    ap (shifts n h poly) (shift-xor h poly x y q small)
    ∙ shifts-xor n h poly (shift h poly x) (y * 2) p (shift-lt h poly x p q) (omega (arith, double))
    ∙ ap (bit_xor (shifts n h poly (shift h poly x))) (sym double)
  where
    double : y * 2 ^ suc n ≡ y * 2 * 2 ^ n
    double = omega (arith, ap (λ (t : ℕ). y * t) (pow-suc 2 n))

    small : y < 2 ^ h
    small = grind (arith, one-le-pow n 2, double)

top_of : (k : ℕ) → 2 * 2 ^ (k + 7) ≡ 256 * 2 ^ k
top_of k = simp towards_suc (
    omega (
      arith,
      pow-suc 2 k,
      pow-suc 2 (suc k),
      pow-suc 2 (suc (suc k)),
      pow-suc 2 (suc (suc (suc k))),
      pow-suc 2 (suc (suc (suc (suc k)))),
      pow-suc 2 (suc (suc (suc (suc (suc k))))),
      pow-suc 2 (suc (suc (suc (suc (suc (suc k)))))),
    ))

-- What is shifted out of the register is cut off.
low_byte : (p x : ℕ) → 0 < p → x % p * 256 ≡ x * 256 % (256 * p)
low_byte p x h =
    sym (ap (λ (t : ℕ). t % (256 * p)) parts ∙ mod_of_parts (256 * p) (x / p) _ (grind arith))
  where
    parts : x * 256 ≡ x / p * (256 * p) + x % p * 256
    parts = omega (arith, div-add-mod' x p)

module _ (k poly x d : ℕ) (p : poly < 256 * 2 ^ k) (q : x < 256 * 2 ^ k) (r : d < 256) where
  pos : 0 < 2 ^ k
  pos = one-le-pow k 2 (omega arith)

  low : x % 2 ^ k < 2 ^ k
  low = omega (arith, pos)

  -- The byte is added to the top byte of the register.
  added_sum : bit_xor x (d * 2 ^ k) ≡ bit_xor (x / 2 ^ k) d * 2 ^ k + x % 2 ^ k
  added_sum =
      ap₂ bit_xor parts whole
      ∙ xor_fields k (x / 2 ^ k) d (x % 2 ^ k) 0 low pos
      ∙ ap (λ t. bit_xor (x / 2 ^ k) d * 2 ^ k + t) (xor-zero (x % 2 ^ k))
    where
      parts : x ≡ x / 2 ^ k * 2 ^ k + x % 2 ^ k
      parts = sym (div-add-mod' x (2 ^ k))

      whole : d * 2 ^ k ≡ d * 2 ^ k + 0
      whole = omega arith

  added : bit_xor x (d * 2 ^ k) ≡ bit_xor (bit_xor (x / 2 ^ k) d * 2 ^ k) (x % 2 ^ k)
  added =
      added_sum
      ∙ sym (
          omega (
            arith,
            xor_fields k (bit_xor (x / 2 ^ k) d) 0 0 (x % 2 ^ k) pos low,
            ap (λ (t : ℕ). t * 2 ^ k) (xor-zero (bit_xor (x / 2 ^ k) d)),
            zero-xor (x % 2 ^ k),
            ap₂ bit_xor (whole (bit_xor (x / 2 ^ k) d)) (none_above (x % 2 ^ k)),
          ))
    where
      whole : (t : ℕ) → t * 2 ^ k ≡ t * 2 ^ k + 0
      whole t = omega arith

      none_above : (t : ℕ) → t ≡ 0 * 2 ^ k + t
      none_above t = omega arith

  -- The index into the table.
  pub index-lt : bit_xor (x / 2 ^ k) d < 256
  index-lt = xor-lt 8 (x / 2 ^ k) d (grind arith) r

  -- With a table of the top bytes, a byte takes one look-up.
  pub serial_byte_by_table :
      serial_byte k poly x d
      ≡ bit_xor (x * 256 % (256 * 2 ^ k)) (shifts 8 (k + 7) poly (bit_xor (x / 2 ^ k) d * 2 ^ k))
  unfolding serial_byte
  serial_byte_by_table =
      ap (shifts 8 (k + 7) poly) added
      ∙ shifts-xor 8 (k + 7) poly (bit_xor (x / 2 ^ k) d * 2 ^ k) (x % 2 ^ k)
          (omega (arith, top_of k)) (grind (arith, top_of k, index-lt, pos))
          (omega (arith, top_of k, low))
      ∙ xor_comm _ _
      ∙ ap (λ t. bit_xor t (shifts 8 (k + 7) poly (bit_xor (x / 2 ^ k) d * 2 ^ k)))
          (low_byte (2 ^ k) x pos)

  pub serial_byte-lt : serial_byte k poly x d < 256 * 2 ^ k
  unfolding serial_byte
  serial_byte-lt = omega (
    arith,
    top_of k,
    shifts-lt 8 (k + 7) poly (bit_xor x (d * 2 ^ k)) (omega (arith, top_of k)) added-lt,
  )
    where
      added-lt : bit_xor x (d * 2 ^ k) < 2 * 2 ^ (k + 7)
      added-lt = grind (arith, added_sum, low, index-lt, top_of k)
