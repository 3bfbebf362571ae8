-- ===== src/Startup/Memory.antt =====
-- Memory from `malloc`, and the widths of the sums.
use star_server.Prelude.{ℕ, ◌+◌, ◌-◌, ◌^◌, Bool, if◌then◌else◌, ltb}

-- How many bytes were given, how many calls there were, and which calls give memory.
pub record Heap : Type 0 where
  pub allocated : ℕ
  pub calls : ℕ
  pub grants : ℕ → Bool

abbrev pub give : Bool → ℕ → Heap → Heap
give granted size h = record h {
  allocated = h.allocated + (if granted then size else 0);
  calls = h.calls + 1;
}

-- Whether the pointer is not NULL.
unfoldable pub malloc : ℕ → Heap → Bool × Heap
malloc size h = (h.grants h.calls, give (h.grants h.calls) size h)

-- An `int` in a sum of `size_t`.
abbrev pub to_size : ℕ → ℕ
to_size v = if ltb v (2 ^ 31) then v else v + (2 ^ 64 - 2 ^ 32)

-- The rounds of `i < n` for an `int` n.
abbrev pub rounds32 : ℕ → ℕ
rounds32 v = if ltb v (2 ^ 31) then v else 0

-- The sizes of the types in bytes, which the compiler and the MySQL headers give.
pub record Sizes : Type 0 where
  pub client : ℕ
  pub room : ℕ
  pub sql_buffer : ℕ
  pub mysql : ℕ
  pub pointer : ℕ
  pub bool : ℕ
  pub int : ℕ
