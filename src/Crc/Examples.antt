-- ===== src/Crc/Examples.antt =====
-- The CRC theorems on concrete bytes.
use mathlib.Core.Logic.{◌≢◌}
use star_server.Prelude.{◌≡◌, Mem, read, if◌then◌else◌, ltb, ◌==◌, arith}
use star_server.Crc.{
  stos_crc8, stos_crc16, stos_crc32, init_crc8_table, init_crc16_table, init_crc32_table,
  stos_init_crc_table,
}
use star_server.Crc.Serial.{serial}
use star_server.Crc.Checksums.{stos_crc16-serial, stos_crc8_crc32-serial, IsBytes}
use star_server.Crc.Corruption.{Damaged, stos_crc16_detects}

abbrev bytes : Mem
bytes i = if ltb i 200 then i else 7

abbrev other_bytes : Mem
other_bytes i = if i == 3 then 200 else bytes i

bytes-IsBytes : IsBytes bytes
bytes-IsBytes i = ground arith

other_bytes-IsBytes : IsBytes other_bytes
other_bytes-IsBytes i = ground arith

bytes-Damaged : Damaged bytes other_bytes 3
bytes-Damaged = record { differs = λ e. omega arith; elsewhere = λ i h k. ground arith }

stos_crc16-serial_example :
    stos_crc16 (init_crc16_table 0x1021) bytes 2 65541 ≡ serial 8 0x1021 0 (read bytes 2 5)
stos_crc16-serial_example = stos_crc16-serial 0x1021 bytes 2 65541 (omega arith) bytes-IsBytes

stos_crc8_crc32-serial_example :
    (stos_crc8 (init_crc8_table 7) bytes 1 4 ≡ serial 0 7 0 (read bytes 1 4))
    × (stos_crc32 (init_crc32_table 0x04c11db7) bytes 1 4
        ≡ serial 24 0x04c11db7 0xffff_ffff (read bytes 1 4))
stos_crc8_crc32-serial_example =
    stos_crc8_crc32-serial 7 0x04c11db7 bytes 1 4 (omega arith) (omega arith) bytes-IsBytes

stos_crc16_detects_example :
    stos_crc16 stos_init_crc_table.crc16 bytes 0 6
    ≢ stos_crc16 stos_init_crc_table.crc16 other_bytes 0 6
stos_crc16_detects_example =
    stos_crc16_detects bytes other_bytes 0 6 3 bytes-IsBytes other_bytes-IsBytes bytes-Damaged
      (omega arith) (omega arith)
