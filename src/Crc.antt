-- ===== src/Crc.antt =====
-- The CRC functions of StarServer/StarSocketServer.cpp: the tables, which `STOS_InitCRCTable`
-- fills, and the three checksums that look up in them. Registers are `u32`, as in the source.
pub mod Serial
pub mod Tables
pub mod Checksums
pub mod Corruption
mod Examples
use star_server.Prelude.{
  ℕ, zero, suc, ◌+◌, ◌*◌, ◌/◌, ◌^◌, bit_and, bit_xor, List, [], ◌∷◌, if◌then◌else◌, get_or, u8, u16,
  u32, nonzero, Mem, read,
}

abbrev crc8_standard_poly : ℕ
crc8_standard_poly = 0x07

abbrev pub crc16_standard_poly : ℕ
crc16_standard_poly = 0xa001

abbrev crc32_standard_poly : ℕ
crc32_standard_poly = 0xedb8_8320

-- One round of the inner loop: `top` is the bit that is tested.
unfoldable pub table_bit : ℕ → ℕ → ℕ → ℕ
table_bit top poly r = if nonzero (bit_and r top) then bit_xor (u32 (r * 2)) poly else u32 (r * 2)

-- `for (j = 0; j < n; j++) r = f(r)`
abbrev pub repeat : ℕ → (ℕ → ℕ) → ℕ → ℕ
repeat zero f r = r
repeat (suc n) f r = repeat n f (f r)

-- `for (; n > 0; n--, i++) t[i] = entry(i)`
unfoldable pub fill : ℕ → ℕ → (ℕ → ℕ) → List ℕ
fill zero i entry = []
fill (suc n) i entry = entry i ∷ fill n (i + 1) entry

abbrev pub crc8_entry : ℕ → ℕ → ℕ
crc8_entry poly i = u8 (repeat 8 (table_bit 0x80 poly) i)

abbrev pub crc16_entry : ℕ → ℕ → ℕ
crc16_entry poly i = u16 (repeat 8 (table_bit 0x8000 poly) (u32 (i * 2 ^ 8)))

abbrev pub crc32_entry : ℕ → ℕ → ℕ
crc32_entry poly i = repeat 8 (table_bit 0x8000_0000 poly) (u32 (i * 2 ^ 24))

pub init_crc8_table : ℕ → List ℕ
init_crc8_table poly = fill 256 0 (crc8_entry poly)

unfoldable pub init_crc16_table : ℕ → List ℕ
init_crc16_table poly = fill 256 0 (crc16_entry poly)

pub init_crc32_table : ℕ → List ℕ
init_crc32_table poly = fill 256 0 (crc32_entry poly)

pub record CrcTables : Type 0 where
  pub crc8 : List ℕ
  pub crc16 : List ℕ
  pub crc32 : List ℕ

unfoldable pub stos_init_crc_table : CrcTables
stos_init_crc_table = record {
  crc8 = init_crc8_table crc8_standard_poly;
  crc16 = init_crc16_table crc16_standard_poly;
  crc32 = init_crc32_table crc32_standard_poly;
}

-- The bodies of the three loops: one byte `d` read.
pub crc8_next : List ℕ → ℕ → ℕ → ℕ
crc8_next t r d = get_or t (bit_and (bit_xor r d) 0xff) 0

unfoldable pub crc16_next : List ℕ → ℕ → ℕ → ℕ
crc16_next t r d = bit_xor (u32 (r * 2 ^ 8)) (get_or t (bit_and (bit_xor (r / 2 ^ 8) d) 0xff) 0)

pub crc32_next : List ℕ → ℕ → ℕ → ℕ
crc32_next t r d = bit_xor (u32 (r * 2 ^ 8)) (get_or t (bit_and (bit_xor (r / 2 ^ 24) d) 0xff) 0)

-- `for (i = 0; i < dataLength; i++)`, over the bytes that the loop reads.
unfoldable pub crc_loop : (ℕ → ℕ → ℕ) → ℕ → List ℕ → ℕ
crc_loop next r [] = r
crc_loop next r (d ∷ ds) = crc_loop next (next r d) ds

pub stos_crc8 : List ℕ → Mem → ℕ → ℕ → ℕ
stos_crc8 t m a data_length = u8 (crc_loop (crc8_next t) 0 (read m a data_length))

-- The length is a `u16`: a longer one is cut by the call.
unfoldable pub stos_crc16 : List ℕ → Mem → ℕ → ℕ → ℕ
stos_crc16 t m a data_length = u16 (crc_loop (crc16_next t) 0 (read m a (u16 data_length)))

pub stos_crc32 : List ℕ → Mem → ℕ → ℕ → ℕ
stos_crc32 t m a data_length = crc_loop (crc32_next t) 0xffff_ffff (read m a data_length)
