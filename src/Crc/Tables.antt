-- ===== src/Crc/Tables.antt =====
-- The tables hold what the shift register leaves of each top byte, and with them the loops of the
-- checksums, which work on `u32` registers, are the shift register.
use native.Mathlib.Nat.{one-le-pow, pow-suc, div-add-mod', mod-mod_of_dvd, mod-eq_of_lt, mul_comm}
use star_server.Prelude.{
  ◌==◌, ℕ, zero, suc, ◌+◌, ◌*◌, ◌/◌, ◌%◌, ◌^◌, ◌<◌, ◌≡◌, refl, sym, ap, ap₂, ◌∙◌, bit_and, bit_xor,
  List, [], ◌∷◌, arith, get_or, u32, inl, inr, Bool-cases,
}
use star_server.Prelude.Xor.{xor-mod, mod_of_parts}
use star_server.Prelude.Bits.{and_bit}
use star_server.Crc.{table_bit, repeat, fill}
use star_server.Crc.Serial.{shift, shifts, shift_low, shift_high}

-- Every cell of the list is a byte.
abbrev pub AllBytes : List ℕ → Type 0
AllBytes [] = Unit {0}
AllBytes (d ∷ ds) = (d < 256) × AllBytes ds

pub get_or-fill : (n i j : ℕ) (entry : ℕ → ℕ) → j < n → get_or (fill n i entry) j 0 ≡ entry (i + j)
unfolding fill
get_or-fill zero i j entry h = elim h [ ]
get_or-fill (suc n) i zero entry h = ap entry (omega arith)
get_or-fill (suc n) i (suc j) entry h =
    get_or-fill n (i + 1) j entry (omega arith) ∙ ap entry (omega arith)

-- A register of h + 1 bits inside a `u32`.
module _ (h m poly : ℕ) (wide : 2 ^ 32 ≡ m * (2 * 2 ^ h)) (p : poly < 2 * 2 ^ h) where
  pub narrow : (t : ℕ) → u32 t % (2 * 2 ^ h) ≡ t % (2 * 2 ^ h)
  narrow t =
      ap (λ (w : ℕ). t % w % (2 * 2 ^ h)) wide
      ∙ mod-mod_of_dvd (2 * 2 ^ h) t ∣ (m, mul_comm m (2 * 2 ^ h)) ∣₁

  pos : 0 < 2 ^ h
  pos = one-le-pow h 2 (omega arith)

  -- The register is its top bit and the digits below.
  whole : (r : ℕ) → r ≡ r / 2 ^ h / 2 * (2 * 2 ^ h) + (r / 2 ^ h % 2 * 2 ^ h + r % 2 ^ h)
  whole r = omega (arith, div-add-mod' r (2 ^ h), ap (λ (t : ℕ). t * 2 ^ h) digits)
    where
      digits : r / 2 ^ h ≡ 2 * (r / 2 ^ h / 2) + r / 2 ^ h % 2
      digits = omega arith

  top_digit : (r : ℕ) → r % (2 * 2 ^ h) ≡ r / 2 ^ h % 2 * 2 ^ h + r % 2 ^ h
  top_digit r =
      ap (λ (t : ℕ). t % (2 * 2 ^ h)) (whole r)
      ∙ mod_of_parts (2 * 2 ^ h) (r / 2 ^ h / 2) _ (grind (arith, pos))

  -- The double of the register loses the top bit.
  doubled : (r : ℕ) → u32 (r * 2) % (2 * 2 ^ h) ≡ r % 2 ^ h * 2
  doubled r =
      narrow (r * 2)
      ∙ ap (λ (t : ℕ). t % (2 * 2 ^ h)) parts
      ∙ mod_of_parts (2 * 2 ^ h) (r / 2 ^ h) _ (grind (arith, pos))
    where
      parts : r * 2 ≡ r / 2 ^ h * (2 * 2 ^ h) + r % 2 ^ h * 2
      parts = grind (arith, div-add-mod' r (2 ^ h))

  added : (a : ℕ) → bit_xor a poly % (2 * 2 ^ h) ≡ bit_xor (a % (2 * 2 ^ h)) poly
  added a =
      ap (λ (w : ℕ). bit_xor a poly % w) double
      ∙ xor-mod (suc h) a poly
      ∙ ap₂ bit_xor (ap (λ (w : ℕ). a % w) (sym double)) (mod-eq_of_lt (omega (arith, double)))
    where
      double : 2 * 2 ^ h ≡ 2 ^ suc h
      double = omega (arith, pow-suc 2 h)

  bit_is : (r q : ℕ) → r / 2 ^ h % 2 ≡ q → bit_and r (2 ^ h) ≡ q * 2 ^ h
  bit_is r q e = and_bit h r ∙ ap (λ (t : ℕ). t * 2 ^ h) e

  register_is : (r q : ℕ) → r / 2 ^ h % 2 ≡ q → r % (2 * 2 ^ h) ≡ q * 2 ^ h + r % 2 ^ h
  register_is r q e = top_digit r ∙ ap (λ (t : ℕ). t * 2 ^ h + r % 2 ^ h) e

  table_bit_set :
      (r : ℕ) → r / 2 ^ h % 2 ≡ 1 → table_bit (2 ^ h) poly r ≡ bit_xor (u32 (r * 2)) poly
  unfolding table_bit
  table_bit_set r e = ground (arith, bit_is r 1 e, pos)

  table_bit_clear : (r : ℕ) → r / 2 ^ h % 2 ≡ 0 → table_bit (2 ^ h) poly r ≡ u32 (r * 2)
  unfolding table_bit
  table_bit_clear r e = ground (arith, bit_is r 0 e)

  table_bit-mod : (r : ℕ) → table_bit (2 ^ h) poly r % (2 * 2 ^ h) ≡ shift h poly (r % (2 * 2 ^ h))
  table_bit-mod r = elim (Bool-cases (r / 2 ^ h % 2 == 1)) [
    | inl set ↦
        let one : r / 2 ^ h % 2 ≡ 1 = ground arith in
        let reg = register_is r 1 one in
        ap (λ (t : ℕ). t % (2 * 2 ^ h)) (table_bit_set r one)
        ∙ added (u32 (r * 2))
        ∙ ap (λ t. bit_xor t poly) (doubled r ∙ omega (arith, reg))
        ∙ sym (shift_high h poly (r % (2 * 2 ^ h)) (omega (arith, reg)))
    | inr clear ↦
        let none_set : r / 2 ^ h % 2 ≡ 0 = ground arith in
        let reg = register_is r 0 none_set in
        ap (λ (t : ℕ). t % (2 * 2 ^ h)) (table_bit_clear r none_set)
        ∙ doubled r
        ∙ omega (arith, reg, shift_low h poly (r % (2 * 2 ^ h)) (omega (arith, reg, pos)))
  ]

  pub repeat-mod :
      (n r : ℕ)
      → repeat n (table_bit (2 ^ h) poly) r % (2 * 2 ^ h) ≡ shifts n h poly (r % (2 * 2 ^ h))
  unfolding shifts
  repeat-mod zero r = refl
  repeat-mod (suc n) r =
      repeat-mod n (table_bit (2 ^ h) poly r) ∙ ap (shifts n h poly) (table_bit-mod r)
