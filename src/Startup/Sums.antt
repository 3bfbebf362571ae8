-- ===== src/Startup/Sums.antt =====
-- When no sum of a start leaves its type.
use native.Mathlib.Nat.{mod-eq_of_lt}
use star_server.Prelude.{
  ℕ, ◌+◌, ◌*◌, ◌%◌, ◌^◌, ◌<◌, ◌≤◌, ◌≡◌, refl, ◌∙◌, sym, ap, Bool, true, false, if◌then◌else◌, arith,
}
use star_server.Config.Settings.{Settings}
use star_server.Startup.Memory.{to_size, rounds32, Sizes}
use star_server.Startup.Init.{bigdata_buffer}
use star_server.Startup.Counted.{clients_taken, clients_counted, database_taken, database_counted}

-- What is counted, in full.
abbrev pub counted : Sizes → Settings → ℕ
counted z t =
    t.max_connection * z.client
    + (t.max_connection * t.data_buffer * 2 + t.max_connection * z.client)
    + (t.db_max_connect * t.sql_buffer
        + t.db_max_connect * z.sql_buffer
        + (z.mysql * t.db_max_connect + z.pointer * t.db_max_connect + z.bool * t.db_max_connect))

-- No sum leaves its type: `sumMemoryUse` is an `int` where the server is not unlimited.
pub record Fits (unlimited : Bool) (z : Sizes) (t : Settings) : Type 0 where
  pub connections : t.max_connection < 2 ^ 31
  pub buffer : t.data_buffer < 2 ^ 31
  pub rooms : t.max_room < 2 ^ 31
  pub room_memory : t.max_room * z.room < 2 ^ 64
  pub db_connections : t.db_max_connect < 2 ^ 31
  pub sql_buffer : t.sql_buffer < 2 ^ 31
  pub commands : t.db_max_connect * t.sql_buffer < 2 ^ 31
  pub int_memory : z.int * t.db_max_connect < 2 ^ 64
  pub all : bigdata_buffer + counted z t < (if unlimited then 2 ^ 64 else 2 ^ 31)

-- What is taken and not counted: the rooms, and four of the arrays of the database.
abbrev pub not_counted : Sizes → Settings → ℕ
not_counted z t = t.max_room * z.room + t.db_max_connect * (2 * z.pointer + 2 * z.int)

pub to_size_lem : (v : ℕ) → v < 2 ^ 31 → to_size v ≡ v
to_size_lem v h = ground arith

rounds32_lem : (v : ℕ) → v < 2 ^ 31 → rounds32 v ≡ v
rounds32_lem v h = ground arith

module _ (unlimited : Bool) (z : Sizes) (t : Settings) (fits : Fits unlimited z t) where
  pub counted-lt : bigdata_buffer + counted z t < 2 ^ 64
  counted-lt = below unlimited fits.all
    where
      below :
          (b : Bool)
          → bigdata_buffer + counted z t < (if b then 2 ^ 64 else 2 ^ 31)
          → bigdata_buffer + counted z t < 2 ^ 64
      below true h = h
      below false h = omega arith

  pub counted_lem : clients_counted z t + database_counted z t ≡ counted z t
  counted_lem =
      rw
        (
          to_size_lem t.max_connection fits.connections,
          to_size_lem t.data_buffer fits.buffer,
          to_size_lem t.db_max_connect fits.db_connections,
          mod-eq_of_lt {n = t.db_max_connect * t.sql_buffer} {m = 2 ^ 32} (omega arith),
          to_size_lem (t.db_max_connect * t.sql_buffer) fits.commands,
        )
        refl

  pub taken_lem :
      clients_taken z t + database_taken z t + t.max_connection * z.client
      ≡ counted z t + not_counted z t
  taken_lem =
      rw
        (
          to_size_lem t.max_connection fits.connections,
          to_size_lem t.data_buffer fits.buffer,
          to_size_lem t.db_max_connect fits.db_connections,
          to_size_lem t.max_room fits.rooms,
          to_size_lem t.sql_buffer fits.sql_buffer,
          rounds32_lem t.max_connection fits.connections,
          rounds32_lem t.db_max_connect fits.db_connections,
        )
        (omega (
          arith,
          mod-eq_of_lt fits.room_memory,
          mod-eq_of_lt fits.int_memory,
          part (t.max_connection * z.client) (omega (arith, counted-lt)),
          part (t.db_max_connect * z.sql_buffer) (omega (arith, counted-lt)),
          part (z.mysql * t.db_max_connect) (omega (arith, counted-lt)),
          part (z.pointer * t.db_max_connect) (omega (arith, counted-lt)),
          part (z.bool * t.db_max_connect) (omega (arith, counted-lt)),
        ))
    where
      part : (v : ℕ) → v ≤ counted z t → v % 2 ^ 64 ≡ v
      part v h = mod-eq_of_lt (omega (arith, counted-lt))

abbrev pub width : Bool → ℕ
width unlimited = if unlimited then 64 else 32

abbrev pub widen : Bool → ℕ → ℕ
widen unlimited v = if unlimited then v else to_size v

-- A sum that fits its word is kept as it is.
pub kept_sum :
    (unlimited : Bool) (sum n : ℕ)
    → n < (if unlimited then 2 ^ 64 else 2 ^ 31)
    → sum < 2 ^ width unlimited
    → sum % 2 ^ width unlimited ≡ n % 2 ^ width unlimited
    → widen unlimited sum ≡ n
kept_sum true sum n h k e = sym (mod-eq_of_lt k) ∙ e ∙ mod-eq_of_lt h
kept_sum false sum n h k e = let same : sum ≡ n = omega arith in ap to_size same ∙ to_size_lem n h

pub bigdata-lt : (unlimited : Bool) → bigdata_buffer < 2 ^ width unlimited
bigdata-lt true = omega arith
bigdata-lt false = omega arith
