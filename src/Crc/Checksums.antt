-- ===== src/Crc/Checksums.antt =====
-- `STOS_CRC8`, `STOS_CRC16` and `STOS_CRC32` against the shift register.
use native.Mathlib.Nat.{mod-eq_of_lt}
use star_server.Prelude.{
  ℕ, zero, suc, ◌+◌, ◌*◌, ◌/◌, ◌%◌, ◌^◌, ◌<◌, ◌≡◌, refl, sym, ap, ap₂, ◌∙◌, bit_and, bit_xor, List,
  [], ◌∷◌, arith, get_or, u8, u16, u32, Mem, read,
}
use star_server.Prelude.Xor.{xor-mod, zero-xor, xor-lt}
use star_server.Prelude.Bits.{and_mask}
use star_server.Prelude.{◌≤◌}
use star_server.Prelude.Writes.{read_agree}
use star_server.Crc.{
  table_bit, crc8_entry, crc16_entry, crc32_entry, init_crc8_table, init_crc16_table,
  init_crc32_table, crc8_next, crc16_next, crc32_next, crc_loop, stos_crc8, stos_crc16, stos_crc32,
}
use star_server.Crc.Serial.{
  shifts, serial, serial_byte, shifts-lt, serial_byte_by_table, serial_byte-lt, index-lt,
}
use star_server.Crc.Tables.{AllBytes, get_or-fill, repeat-mod}

abbrev pub IsBytes : Mem → Type 0
IsBytes m = (a : ℕ) → m a < 256

read-AllBytes : (m : Mem) (a n : ℕ) → IsBytes m → AllBytes (read m a n)
read-AllBytes m a zero b = tt
read-AllBytes m a (suc n) b = (b a, read-AllBytes m (a + 1) n b)

-- The index into the table: the byte that leaves the register, and the byte of the data.
index_of : (x d : ℕ) → d < 256 → bit_and (bit_xor x d) 0xff ≡ bit_xor (x % 256) d
index_of x d h = and_mask 8 (bit_xor x d) ∙ xor-mod 8 x d ∙ ap (bit_xor (x % 256)) (mod-eq_of_lt h)

table_bit-lt : (top poly r : ℕ) → poly < 2 ^ 32 → table_bit top poly r < 2 ^ 32
unfolding table_bit
table_bit-lt top poly r p = ground (arith, xor-lt 32 (u32 (r * 2)) poly)

module _ (poly : ℕ) where
  crc8_cell :
      (i : ℕ)
      → poly < 2 ^ 8
      → i < 256
      → get_or (init_crc8_table poly) i 0 ≡ shifts 8 7 poly (i * 2 ^ 0)
  unfolding init_crc8_table
  crc8_cell i p h =
      get_or-fill 256 0 i (crc8_entry poly) h
      ∙ repeat-mod 7 (2 ^ 24) poly refl p 8 (0 + i)
      ∙ ap (shifts 8 7 poly) (omega arith)

  crc16_cell :
      (i : ℕ)
      → poly < 2 ^ 16
      → i < 256
      → get_or (init_crc16_table poly) i 0 ≡ shifts 8 15 poly (i * 2 ^ 8)
  unfolding init_crc16_table
  crc16_cell i p h =
      get_or-fill 256 0 i (crc16_entry poly) h
      ∙ repeat-mod 15 (2 ^ 16) poly refl p 8 (u32 ((0 + i) * 2 ^ 8))
      ∙ ap (shifts 8 15 poly) (omega arith)

  crc32_cell :
      (i : ℕ)
      → poly < 2 ^ 32
      → i < 256
      → get_or (init_crc32_table poly) i 0 ≡ shifts 8 31 poly (i * 2 ^ 24)
  unfolding init_crc32_table
  crc32_cell i p h =
      get_or-fill 256 0 i (crc32_entry poly) h
      ∙ sym (mod-eq_of_lt (table_bit-lt _ poly _ p))
      ∙ repeat-mod 31 1 poly refl p 8 (u32 ((0 + i) * 2 ^ 24))
      ∙ ap (shifts 8 31 poly) (omega arith)

  crc8_next-serial :
      (x d : ℕ)
      → poly < 2 ^ 8
      → x < 2 ^ 8
      → d < 256
      → crc8_next (init_crc8_table poly) x d ≡ serial_byte 0 poly x d
  unfolding crc8_next
  crc8_next-serial x d p q r =
      ap (λ i. get_or (init_crc8_table poly) i 0)
        (index_of x d r ∙ ap (λ t. bit_xor t d) (omega arith))
      ∙ crc8_cell (bit_xor (x / 2 ^ 0) d) p (index-lt 0 poly x d p q r)
      ∙ sym (zero-xor _)
      ∙ ap (λ t. bit_xor t (shifts 8 7 poly (bit_xor (x / 2 ^ 0) d * 2 ^ 0))) (omega arith)
      ∙ sym (serial_byte_by_table 0 poly x d p q r)

  crc16_next-serial :
      (x d : ℕ)
      → poly < 2 ^ 16
      → d < 256
      → u16 (crc16_next (init_crc16_table poly) x d) ≡ serial_byte 8 poly (u16 x) d
  unfolding crc16_next
  crc16_next-serial x d p r =
      xor-mod 16 (u32 (x * 2 ^ 8)) _
      ∙ ap₂ bit_xor (omega arith) (
          ap u16 cell
          ∙ mod-eq_of_lt (
              shifts-lt 8 15 poly (bit_xor (u16 x / 2 ^ 8) d * 2 ^ 8) p
                (omega (arith, index-lt 8 poly (u16 x) d p (omega arith) r))))
      ∙ sym (serial_byte_by_table 8 poly (u16 x) d p (omega arith) r)
    where
      cell :
          get_or (init_crc16_table poly) (bit_and (bit_xor (x / 2 ^ 8) d) 0xff) 0
          ≡ shifts 8 15 poly (bit_xor (u16 x / 2 ^ 8) d * 2 ^ 8)
      cell =
          ap (λ i. get_or (init_crc16_table poly) i 0)
            (index_of (x / 2 ^ 8) d r ∙ ap (λ t. bit_xor t d) (omega arith))
          ∙ crc16_cell (bit_xor (u16 x / 2 ^ 8) d) p (index-lt 8 poly (u16 x) d p (omega arith) r)

  crc32_next-serial :
      (x d : ℕ)
      → poly < 2 ^ 32
      → x < 2 ^ 32
      → d < 256
      → crc32_next (init_crc32_table poly) x d ≡ serial_byte 24 poly x d
  unfolding crc32_next
  crc32_next-serial x d p q r =
      ap (bit_xor (u32 (x * 2 ^ 8))) cell ∙ sym (serial_byte_by_table 24 poly x d p q r)
    where
      cell :
          get_or (init_crc32_table poly) (bit_and (bit_xor (x / 2 ^ 24) d) 0xff) 0
          ≡ shifts 8 31 poly (bit_xor (x / 2 ^ 24) d * 2 ^ 24)
      cell =
          ap (λ i. get_or (init_crc32_table poly) i 0)
            (index_of (x / 2 ^ 24) d r ∙ ap (λ t. bit_xor t d) (omega arith))
          ∙ crc32_cell (bit_xor (x / 2 ^ 24) d) p (index-lt 24 poly x d p q r)

  crc8_loop-serial :
      (x : ℕ) (ds : List ℕ)
      → poly < 2 ^ 8
      → x < 2 ^ 8
      → AllBytes ds
      → crc_loop (crc8_next (init_crc8_table poly)) x ds ≡ serial 0 poly x ds
  unfolding crc_loop serial
  crc8_loop-serial x [] p q b = refl
  crc8_loop-serial x (d ∷ ds) p q b =
      ap (λ y. crc_loop (crc8_next (init_crc8_table poly)) y ds) (crc8_next-serial x d p q b.0)
      ∙ crc8_loop-serial (serial_byte 0 poly x d) ds p (serial_byte-lt 0 poly x d p q b.0) b.1

  crc16_loop-serial :
      (x : ℕ) (ds : List ℕ)
      → poly < 2 ^ 16
      → AllBytes ds
      → u16 (crc_loop (crc16_next (init_crc16_table poly)) x ds) ≡ serial 8 poly (u16 x) ds
  unfolding crc_loop serial
  crc16_loop-serial x [] p b = refl
  crc16_loop-serial x (d ∷ ds) p b =
      crc16_loop-serial (crc16_next (init_crc16_table poly) x d) ds p b.1
      ∙ ap (λ y. serial 8 poly y ds) (crc16_next-serial x d p b.0)

  crc32_loop-serial :
      (x : ℕ) (ds : List ℕ)
      → poly < 2 ^ 32
      → x < 2 ^ 32
      → AllBytes ds
      → crc_loop (crc32_next (init_crc32_table poly)) x ds ≡ serial 24 poly x ds
  unfolding crc_loop serial
  crc32_loop-serial x [] p q b = refl
  crc32_loop-serial x (d ∷ ds) p q b =
      ap (λ y. crc_loop (crc32_next (init_crc32_table poly)) y ds) (crc32_next-serial x d p q b.0)
      ∙ crc32_loop-serial (serial_byte 24 poly x d) ds p (serial_byte-lt 24 poly x d p q b.0) b.1

  serial-lt :
      (k x : ℕ) (ds : List ℕ)
      → poly < 256 * 2 ^ k
      → x < 256 * 2 ^ k
      → AllBytes ds
      → serial k poly x ds < 256 * 2 ^ k
  unfolding serial
  serial-lt k x [] p q b = q
  serial-lt k x (d ∷ ds) p q b =
      serial-lt k (serial_byte k poly x d) ds p (serial_byte-lt k poly x d p q b.0) b.1

-- With the table of any 16-bit polynomial, `STOS_CRC16` over a memory of bytes gives what the
-- 16-bit shift register, started at 0, leaves of the bytes from `a` on, as many as the length
-- counts modulo 2^16.
pub stos_crc16-serial :
    (poly : ℕ) (m : Mem) (a n : ℕ)
    → poly < 2 ^ 16
    → IsBytes m
    → stos_crc16 (init_crc16_table poly) m a n ≡ serial 8 poly 0 (read m a (u16 n))
unfolding stos_crc16
stos_crc16-serial poly m a n p b =
    crc16_loop-serial poly 0 (read m a (u16 n)) p (read-AllBytes m a (u16 n) b)

-- Likewise `STOS_CRC8` is the 8-bit shift register started at 0, and `STOS_CRC32` the 32-bit one
-- started at 2^32 - 1, each over the whole length and for any polynomial of its width.
pub stos_crc8_crc32-serial :
    (poly8 poly32 : ℕ) (m : Mem) (a n : ℕ)
    → poly8 < 2 ^ 8
    → poly32 < 2 ^ 32
    → IsBytes m
    → (stos_crc8 (init_crc8_table poly8) m a n ≡ serial 0 poly8 0 (read m a n))
      × (stos_crc32 (init_crc32_table poly32) m a n ≡ serial 24 poly32 0xffff_ffff (read m a n))
unfolding stos_crc8 stos_crc32
stos_crc8_crc32-serial poly8 poly32 m a n p q b =
    let bytes = read-AllBytes m a n b in
    (
      ap u8 (crc8_loop-serial poly8 0 (read m a n) p (omega arith) bytes)
          ∙ mod-eq_of_lt (serial-lt poly8 0 0 (read m a n) p (omega arith) bytes),
      crc32_loop-serial poly32 0xffff_ffff (read m a n) q (omega arith) bytes,
    )

-- The sum reads its own range only, and is a `u16`.
pub stos_crc16-agree :
    (t : List ℕ) (m m' : Mem) (a n : ℕ)
    → ((k : ℕ) → a ≤ k → m k ≡ m' k)
    → stos_crc16 t m a n ≡ stos_crc16 t m' a n
unfolding stos_crc16
stos_crc16-agree t m m' a n h =
    ap (λ bs. u16 (crc_loop (crc16_next t) 0 bs)) (read_agree m m' a (u16 n) (λ k lo hi. h k lo))

pub stos_crc16-lt : (t : List ℕ) (m : Mem) (a n : ℕ) → stos_crc16 t m a n < 2 ^ 16
unfolding stos_crc16
stos_crc16-lt t m a n = omega arith
