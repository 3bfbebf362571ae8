-- ===== src/Prelude/Counts.antt =====
-- Counting in a function of flags.
use Prim.Native.Nat.{ℕ, zero, suc, ◌+◌, ◌≤◌, ◌<◌}
use mathlib.Core.Path.{◌≡◌, refl, ap, ap₂, ◌∙◌}
use mathlib.Core.Logic.{inl, inr}
use mathlib.Core.Bool.{Bool, true, false}
use native.Mathlib.Omega.{arith}
use star_server.Prelude.Tests.{◌==◌, ==_iff, if◌then◌else◌, Bool-cases}
use star_server.Prelude.Memory.{set_at}
use star_server.Prelude.Writes.{set_at_self, set_at_ne}

-- How many of the first n are true.
unfoldable pub count_true : (ℕ → Bool) → ℕ → ℕ
count_true lock zero = 0
count_true lock (suc n) = count_true lock n + (if lock n then 1 else 0)

pub count_true-agree :
    (lock lock' : ℕ → Bool) (n : ℕ)
    → ((k : ℕ) → k < n → lock k ≡ lock' k)
    → count_true lock n ≡ count_true lock' n
unfolding count_true
count_true-agree lock lock' zero h = refl
count_true-agree lock lock' (suc n) h =
    ap₂ (λ c b. c + (if b then 1 else 0)) (count_true-agree lock lock' n (λ k l. h k (omega arith)))
      (h n (omega arith))

-- One that is set counts one more, and one that is cleared one less.
pub count_true-set :
    (lock : ℕ → Bool) (i n : ℕ)
    → i < n
    → lock i ≡ false
    → count_true (set_at lock i true) n ≡ count_true lock n + 1
unfolding count_true
count_true-set lock i zero h e = absurd (omega arith)
count_true-set lock i (suc n) h e = elim (Bool-cases (n == i)) [
  | inl last ↦
      let here : n ≡ i = ground arith in
      let below =
        count_true-agree (set_at lock i true) lock n
          (λ k l. set_at_ne lock i k true (omega (arith, here, l))) in
      rw (last, below, ap lock here ∙ e) (omega arith)
  | inr earlier ↦ rw earlier (omega (arith, count_true-set lock i n (ground arith) e))
]

pub count_true-clear :
    (lock : ℕ → Bool) (i n : ℕ)
    → i < n
    → lock i ≡ true
    → count_true lock n ≡ count_true (set_at lock i false) n + 1
count_true-clear lock i n h e =
    count_true-agree lock (set_at (set_at lock i false) i true) n again
    ∙ count_true-set (set_at lock i false) i n h (set_at_self lock i false)
  where
    again : (k : ℕ) → k < n → lock k ≡ set_at (set_at lock i false) i true k
    again k l = elim (Bool-cases (k == i)) [
      | inl same ↦ rw same (ap lock ((==_iff k i).0 same) ∙ e)
      | inr other ↦ rw other refl
    ]

pub count_true-le : (lock : ℕ → Bool) (n : ℕ) → count_true lock n ≤ n
unfolding count_true
count_true-le lock zero = omega arith
count_true-le lock (suc n) = ground (arith, count_true-le lock n)

pub count_true-idle : (lock : ℕ → Bool) (n : ℕ) → ((i : ℕ) → lock i ≡ false) → count_true lock n ≡ 0
unfolding count_true
count_true-idle lock zero h = refl
count_true-idle lock (suc n) h = rw (count_true-idle lock n h, h n) refl
