-- ===== src/Crc/Corruption.antt =====
-- What the checksum of a packet detects: a damage of up to two neighbouring bytes.
use star_server.Prelude.{
  ℕ, zero, suc, ◌+◌, ◌-◌, ◌*◌, ◌%◌, ◌^◌, ◌≤◌, ◌<◌, ◌≡◌, refl, sym, ap, ap₂, ◌∙◌, ◌≢◌, bit_xor, List,
  [], ◌∷◌, arith, ltb, true, false, ◌⊎◌, inl, inr, ◌==◌, Bool-cases, u16, Mem, read,
}
use star_server.Prelude.Xor.{
  xor_parity, xor_cancel, xor_comm, xor_assoc, xor-lt, xor_fields, xor-zero, zero-xor,
}
use star_server.Crc.{stos_crc16, stos_init_crc_table, crc16_standard_poly}
use star_server.Crc.Serial.{
  shift, shifts, serial, serial_byte, shift_low, shift_high, shifts-xor, serial_byte-lt,
}
use star_server.Crc.Checksums.{IsBytes, stos_crc16-serial}

-- With an odd polynomial the last digit of the register tells whether the polynomial was added.
shift_parity_low : (h poly x : ℕ) → x < 2 ^ h → shift h poly x % 2 ≡ 0
shift_parity_low h poly x p = omega (arith, shift_low h poly x p)

shift_parity_high : (h poly x : ℕ) → poly % 2 ≡ 1 → 2 ^ h ≤ x → shift h poly x % 2 ≡ 1
shift_parity_high h poly x o p =
    omega (arith, shift_high h poly x p, xor_parity ((x - 2 ^ h) * 2) poly)

-- So no two registers become the same.
shift-injective : (h poly x y : ℕ) → poly % 2 ≡ 1 → shift h poly x ≡ shift h poly y → x ≡ y
shift-injective h poly x y o e = cases (Bool-cases (ltb x (2 ^ h))) (Bool-cases (ltb y (2 ^ h)))
  where
    cases :
        (ltb x (2 ^ h) ≡ true) ⊎ (ltb x (2 ^ h) ≡ false)
        → (ltb y (2 ^ h) ≡ true) ⊎ (ltb y (2 ^ h) ≡ false)
        → x ≡ y
    cases (inl p) (inl q) =
        omega (arith, e, shift_low h poly x (ground arith), shift_low h poly y (ground arith))
    cases (inl p) (inr q) = absurd (
        omega (
          arith,
          ap (λ (t : ℕ). t % 2) e,
          shift_parity_low h poly x (ground arith),
          shift_parity_high h poly y o (ground arith),
        ))
    cases (inr p) (inl q) = absurd (
        omega (
          arith,
          ap (λ (t : ℕ). t % 2) e,
          shift_parity_high h poly x o (ground arith),
          shift_parity_low h poly y (ground arith),
        ))
    cases (inr p) (inr q) =
        let px : 2 ^ h ≤ x = ground arith in
        let py : 2 ^ h ≤ y = ground arith in
        omega (
          arith,
          xor_cancel ((x - 2 ^ h) * 2) ((y - 2 ^ h) * 2) poly
              (sym (shift_high h poly x px) ∙ e ∙ shift_high h poly y py),
        )

shifts-injective : (n h poly x y : ℕ) → poly % 2 ≡ 1 → shifts n h poly x ≡ shifts n h poly y → x ≡ y
unfolding shifts
shifts-injective zero h poly x y o e = e
shifts-injective (suc n) h poly x y o e =
    shift-injective h poly x y o (shifts-injective n h poly (shift h poly x) (shift h poly y) o e)

serial_byte-injective :
    (k poly x y d : ℕ) → poly % 2 ≡ 1 → serial_byte k poly x d ≡ serial_byte k poly y d → x ≡ y
unfolding serial_byte
serial_byte-injective k poly x y d o e =
    xor_cancel x y (d * 2 ^ k) (shifts-injective 8 (k + 7) poly _ _ o e)

serial-injective :
    (k poly x y : ℕ) (ds : List ℕ) → poly % 2 ≡ 1 → serial k poly x ds ≡ serial k poly y ds → x ≡ y
unfolding serial
serial-injective k poly x y [] o e = e
serial-injective k poly x y (d ∷ ds) o e =
    serial_byte-injective k poly x y d o
      (serial-injective k poly (serial_byte k poly x d) (serial_byte k poly y d) ds o e)

same_added : (x a b : ℕ) → bit_xor x a ≡ bit_xor x b → a ≡ b
same_added x a b e = xor_cancel a b x (xor_comm a x ∙ e ∙ xor_comm x b)

-- One byte, from the same register.
byte_counts :
    (poly x d d' : ℕ) → poly % 2 ≡ 1 → serial_byte 8 poly x d ≡ serial_byte 8 poly x d' → d ≡ d'
unfolding serial_byte
byte_counts poly x d d' o e = omega (
  arith,
  same_added x (d * 2 ^ 8) (d' * 2 ^ 8)
      (shifts-injective 8 15 poly (bit_xor x (d * 2 ^ 8)) (bit_xor x (d' * 2 ^ 8)) o e),
)

-- Two bytes make one number of 16 bits, which is added to the register of 16.
two_bytes :
    (poly x d e : ℕ)
    → poly < 2 ^ 16
    → x < 2 ^ 16
    → d < 256
    → e < 256
    → serial_byte 8 poly (serial_byte 8 poly x d) e
      ≡ shifts 8 15 poly (shifts 8 15 poly (bit_xor x (d * 2 ^ 8 + e)))
unfolding serial_byte
two_bytes poly x d e p q r s = ap (shifts 8 15 poly) (
    sym (
      shifts-xor 8 15 poly (bit_xor x (d * 2 ^ 8)) e p (xor-lt 16 x (d * 2 ^ 8) q (omega arith))
        (omega arith))
    ∙ ap (shifts 8 15 poly) (xor_assoc x (d * 2 ^ 8) e ∙ ap (bit_xor x) joined))
  where
    joined : bit_xor (d * 2 ^ 8) e ≡ d * 2 ^ 8 + e
    joined =
        omega (
          arith,
          ap₂ bit_xor whole low,
          xor_fields 8 d 0 0 e (omega arith) s,
          xor-zero d,
          zero-xor e,
        )
      where
        whole : d * 2 ^ 8 ≡ d * 2 ^ 8 + 0
        whole = omega arith

        low : e ≡ 0 * 2 ^ 8 + e
        low = omega arith

two_bytes_count :
    (poly x d e d' e' : ℕ)
    → poly % 2 ≡ 1
    → poly < 2 ^ 16
    → x < 2 ^ 16
    → (d < 256) × (e < 256)
    → (d' < 256) × (e' < 256)
    → serial_byte 8 poly (serial_byte 8 poly x d) e
      ≡ serial_byte 8 poly (serial_byte 8 poly x d') e'
    → d ≡ d'
two_bytes_count poly x d e d' e' o p q r s eq =
    omega (arith, same_added x (d * 2 ^ 8 + e) (d' * 2 ^ 8 + e') same)
  where
    same : bit_xor x (d * 2 ^ 8 + e) ≡ bit_xor x (d' * 2 ^ 8 + e')
    same = shifts-injective 8 15 poly _ _ o (
        shifts-injective 8 15 poly _ _ o
          (sym (two_bytes poly x d e p q r.0 r.1) ∙ eq ∙ two_bytes poly x d' e' p q s.0 s.1))

-- Two memories that differ at `p` and agree but there and at the next byte.
pub record Damaged (m m' : Mem) (p : ℕ) : Type 0 where
  pub differs : m p ≢ m' p
  pub elsewhere : (i : ℕ) → i ≢ p → i ≢ p + 1 → m i ≡ m' i

module _ (m m' : Mem) (b : IsBytes m) (b' : IsBytes m') where
  read_same : (a n : ℕ) → ((i : ℕ) → a ≤ i → m i ≡ m' i) → read m a n ≡ read m' a n
  read_same a zero h = refl
  read_same a (suc n) h =
      ap₂ ◌∷◌ (h a (omega arith)) (read_same (a + 1) n (λ i l. h i (omega arith)))

  abbrev after : ℕ → Mem → ℕ → ℕ → ℕ
  after x w a n = serial 8 crc16_standard_poly x (read w a n)

  starts-Damaged :
      (n a x : ℕ) → x < 2 ^ 16 → Damaged m m' a → 0 < n → after x m a n ≢ after x m' a n
  unfolding serial
  starts-Damaged zero a x q dmg h e = elim h [ ]
  starts-Damaged (suc zero) a x q dmg h e =
      dmg.differs (byte_counts crc16_standard_poly x (m a) (m' a) refl e)
  starts-Damaged (suc (suc n)) a x q dmg h e = dmg.differs (
      two_bytes_count crc16_standard_poly x (m a) (m (a + 1)) (m' a) (m' (a + 1)) refl (omega arith)
        q (b a, b (a + 1)) (b' a, b' (a + 1))
        (serial-injective 8 crc16_standard_poly _ _ (read m (a + 1 + 1) n) refl
          (e ∙ ap (serial 8 crc16_standard_poly _) (sym rest))))
    where
      rest : read m (a + 1 + 1) n ≡ read m' (a + 1 + 1) n
      rest = read_same (a + 1 + 1) n (λ i l. dmg.elsewhere i (omega arith) (omega arith))

  serial_detects :
      (n a x p : ℕ)
      → x < 2 ^ 16
      → Damaged m m' p
      → a ≤ p
      → p < a + n
      → after x m a n ≢ after x m' a n
  unfolding serial
  serial_detects zero a x p q dmg lo hi e = absurd (omega arith)
  serial_detects (suc n) a x p q dmg lo hi e = elim (Bool-cases (a == p)) [
    | inl here ↦
        let start : a ≡ p = ground arith in
        starts-Damaged (suc n) a x q (rw start dmg) (omega arith) e
    | inr later ↦
        let past : a < p = ground arith in
        serial_detects n (a + 1) (serial_byte 8 crc16_standard_poly x (m a)) p
          (serial_byte-lt 8 crc16_standard_poly x (m a) (omega arith) q (b a)) dmg (omega arith)
          (omega arith)
          (e
            ∙ ap (λ t. after (serial_byte 8 crc16_standard_poly x t) m' (a + 1) n)
                (sym (dmg.elsewhere a (omega arith) (omega arith))))
  ]

-- `STOS_CRC16`, with the table that `STOS_InitCRCTable` makes, tells two memories of bytes apart
-- that differ at one byte of the range that it reads, whatever the byte after that holds, and are
-- the same elsewhere.
pub stos_crc16_detects :
    (m m' : Mem) (a n p : ℕ)
    → IsBytes m
    → IsBytes m'
    → Damaged m m' p
    → a ≤ p
    → p < a + u16 n
    → stos_crc16 stos_init_crc_table.crc16 m a n ≢ stos_crc16 stos_init_crc_table.crc16 m' a n
unfolding stos_init_crc_table
stos_crc16_detects m m' a n p b b' dmg lo hi e =
    serial_detects m m' b b' (u16 n) a 0 p (omega arith) dmg lo hi (
      sym (stos_crc16-serial crc16_standard_poly m a n (omega arith) b)
      ∙ e
      ∙ stos_crc16-serial crc16_standard_poly m' a n (omega arith) b')
