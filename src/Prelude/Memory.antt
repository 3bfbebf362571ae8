-- ===== src/Prelude/Memory.antt =====
-- Machine words as numbers, and byte-addressed memory.
use Prim.Native.Nat.{ℕ, zero, suc, ◌+◌, ◌*◌, ◌/◌, ◌%◌, ◌^◌, compare, Ordering}
use mathlib.Core.Bool.{Bool, true, false}
use mathlib.Core.List.{List, [], ◌∷◌}
use star_server.Prelude.Tests.{◌==◌, if◌then◌else◌}

abbrev pub u8 : ℕ → ℕ
u8 n = n % 2 ^ 8

abbrev pub u16 : ℕ → ℕ
u16 n = n % 2 ^ 16

abbrev pub u32 : ℕ → ℕ
u32 n = n % 2 ^ 32

abbrev pub nonzero : ℕ → Bool
nonzero n = elim (compare n 0) [ Ordering.eq ↦ false | _ ↦ true ]

abbrev pub Mem : Type 0
Mem = ℕ → ℕ

-- The `n` bytes from address `a` on.
abbrev pub read : Mem → ℕ → ℕ → List ℕ
read m a zero = []
read m a (suc n) = m a ∷ read m (a + 1) n

abbrev pub set_at {ℓ} : {A : Type ℓ} → (ℕ → A) → ℕ → A → ℕ → A
set_at f i v k = if k == i then v else f k

-- Bytes stored from address `a` on.
unfoldable pub write : Mem → ℕ → List ℕ → Mem
write m a [] = m
write m a (b ∷ bs) = write (set_at m a b) (a + 1) bs

-- The two bytes of a `u16` and the four of a `u32`, the lowest first.
abbrev pub bytes16 : ℕ → List ℕ
bytes16 v = v % 256 ∷ v / 256 % 256 ∷ []

abbrev pub bytes32 : ℕ → List ℕ
bytes32 v = v % 256 ∷ v / 256 % 256 ∷ v / 65536 % 256 ∷ v / 16777216 % 256 ∷ []

unfoldable pub get16 : Mem → ℕ → ℕ
get16 m a = m a + 256 * m (a + 1)

unfoldable pub get32 : Mem → ℕ → ℕ
get32 m a = m a + 256 * m (a + 1) + 65536 * m (a + 2) + 16777216 * m (a + 3)
