-- ===== src/Prelude/Writes.antt =====
-- What a write leaves in memory, and what it leaves alone.
use Prim.Native.Nat.{ℕ, zero, suc, ◌+◌, ◌^◌, ◌≤◌, ◌<◌}
use mathlib.Core.Path.{◌≡◌, refl, ap, ap₂, ◌∙◌, fun_ext}
use mathlib.Core.Logic.{◌≢◌, ◌⊎◌}
use mathlib.Core.List.{List, [], ◌∷◌, ◌++◌}
use native.Mathlib.Omega.{arith}
use mathlib.Core.Logic.{inl, inr}
use star_server.Prelude.Tests.{Bool-cases, ◌==◌}
use star_server.Prelude.Lists.{length}
use star_server.Prelude.Memory.{Mem, read, write, set_at, bytes16, bytes32, get16, get32}

-- A write changes its own range only.
pub write_outside :
    (m : Mem) (a : ℕ) (bs : List ℕ) (k : ℕ) → (k < a) ⊎ (a + length bs ≤ k) → write m a bs k ≡ m k
unfolding write
write_outside m a [] k h = refl
write_outside m a (b ∷ bs) k h =
    write_outside (set_at m a b) (a + 1) bs k (ground arith) ∙ ground arith

pub read_agree :
    (m m' : Mem) (a n : ℕ) → ((k : ℕ) → a ≤ k → k < a + n → m k ≡ m' k) → read m a n ≡ read m' a n
read_agree m m' a zero h = refl
read_agree m m' a (suc n) h =
    ap₂ ◌∷◌ (h a (omega arith) (omega arith))
      (read_agree m m' (a + 1) n (λ k lo hi. h k (omega arith) (omega arith)))

pub read-write_outside :
    (m : Mem) (a : ℕ) (bs : List ℕ) (b n : ℕ)
    → (b + n ≤ a) ⊎ (a + length bs ≤ b)
    → read (write m a bs) b n ≡ read m b n
read-write_outside m a bs b n h =
    read_agree (write m a bs) m b n (λ k lo hi. write_outside m a bs k (ground arith))

pub read-write : (m : Mem) (a : ℕ) (bs : List ℕ) → read (write m a bs) a (length bs) ≡ bs
unfolding write
read-write m a [] = refl
read-write m a (b ∷ bs) =
    ap₂ ◌∷◌ (write_outside (set_at m a b) (a + 1) bs a (omega arith) ∙ ground arith)
      (read-write (set_at m a b) (a + 1) bs)

pub read-add : (m : Mem) (a i j : ℕ) → read m a (i + j) ≡ read m a i ++ read m (a + i) j
read-add m a zero j = ap₂ (read m) (omega arith) (omega arith)
read-add m a (suc i) j =
    ap (read m a) next
    ∙ ap (λ t. m a ∷ t) (read-add m (a + 1) i j)
    ∙ ap (λ t. m a ∷ (read m (a + 1) i ++ read m t j)) (omega arith)
  where
    next : suc i + j ≡ suc (i + j)
    next = omega arith

pub length-read : (m : Mem) (a n : ℕ) → length (read m a n) ≡ n
length-read m a zero = refl
length-read m a (suc n) = ap suc (length-read m (a + 1) n)

-- A `u16` that was stored is read back.
pub get16-write : (m : Mem) (a v : ℕ) → v < 2 ^ 16 → get16 (write m a (bytes16 v)) a ≡ v
unfolding get16 write
get16-write m a v h = ground arith

pub set_at_self {ℓ} : {A : Type ℓ} (f : ℕ → A) (i : ℕ) (v : A) → set_at f i v i ≡ v
set_at_self f i v = ground arith

pub set_at_ne {ℓ} : {A : Type ℓ} (f : ℕ → A) (i k : ℕ) (v : A) → k ≢ i → set_at f i v k ≡ f k
set_at_ne f i k v h = ground arith

pub get16_agree :
    (m m' : Mem) (a : ℕ) → ((k : ℕ) → a ≤ k → k < a + 2 → m k ≡ m' k) → get16 m a ≡ get16 m' a
unfolding get16
get16_agree m m' a h =
    omega (arith, h a (omega arith) (omega arith), h (a + 1) (omega arith) (omega arith))

pub get32_agree :
    (m m' : Mem) (a : ℕ) → ((k : ℕ) → a ≤ k → k < a + 4 → m k ≡ m' k) → get32 m a ≡ get32 m' a
unfolding get32
get32_agree m m' a h = omega (
  arith,
  h a (omega arith) (omega arith),
  h (a + 1) (omega arith) (omega arith),
  h (a + 2) (omega arith) (omega arith),
  h (a + 3) (omega arith) (omega arith),
)

-- A `u32` that was stored is read back.
pub get32-write : (m : Mem) (a v : ℕ) → v < 2 ^ 32 → get32 (write m a (bytes32 v)) a ≡ v
unfolding get32 write
get32-write m a v h = ground arith

-- A place that is written twice.
pub set_at-twice {ℓ} :
    {A : Type ℓ} (f : ℕ → A) (i : ℕ) (a b : A) → set_at (set_at f i a) i b ≡ set_at f i b
set_at-twice f i a b =
    fun_ext λ j. elim (Bool-cases (j == i)) [ inl same ↦ rw same refl | inr other ↦ rw other refl ]
