-- ===== src/Startup/Grown.antt =====
-- What a step of a start adds to the memory that is taken and to the sum that is counted.
use native.Mathlib.Nat.{mod-add-mod}
use mathlib.Core.Path.{subst}
use star_server.Prelude.{ℕ, ◌+◌, ◌%◌, ◌^◌, ◌<◌, ◌≡◌, refl, ◌∙◌, sym, ap, true, arith}
use star_server.Startup.State.{State, Result}
use star_server.Startup.Steps.{Ensures}

-- Every call of `malloc` gives memory.
abbrev pub AllGranted : State → Type 0
AllGranted s = (k : ℕ) → s.heap.grants k ≡ true

-- From `s` to `s'` the heap gave x bytes, and y was added to the sum of a word of w bits.
pub record Grown (w x y : ℕ) (s s' : State) : Type 0 where
  pub allocated : s'.heap.allocated ≡ s.heap.allocated + x
  pub sum : s'.sum % 2 ^ w ≡ (s.sum + y) % 2 ^ w
  pub bounded : s.sum < 2 ^ w → s'.sum < 2 ^ w
  pub grants : s'.heap.grants ≡ s.heap.grants
  pub settings : s'.settings ≡ s.settings
  pub mem_use : s'.mem_use ≡ s.mem_use
  pub stack : s'.max_stack_size ≡ s.max_stack_size

abbrev pub Grows : {A : Type 0} → ℕ → ℕ → ℕ → State → Result A → Type 0
Grows w x y s r = Ensures (λ a s'. Grown w x y s s') r

pub Grown-trans :
    (w x y x' y' : ℕ) (s s' s'' : State)
    → Grown w x y s s'
    → Grown w x' y' s' s''
    → Grown w (x + x') (y + y') s s''
Grown-trans w x y x' y' s s' s'' h k = record {
  allocated = omega (arith, h.allocated, k.allocated);
  sum =
      k.sum
      ∙ sym (mod-add-mod s'.sum (2 ^ w) y')
      ∙ ap (λ t. (t + y') % 2 ^ w) h.sum
      ∙ mod-add-mod (s.sum + y) (2 ^ w) y'
      ∙ ap (λ t. t % 2 ^ w) {x = s.sum + y + y'} (omega arith);
  bounded = λ l. k.bounded (h.bounded l);
  grants = k.grants ∙ h.grants;
  settings = k.settings ∙ h.settings;
  mem_use = k.mem_use ∙ h.mem_use;
  stack = k.stack ∙ h.stack;
}

-- A state that differs in nothing that is counted.
pub Grown-refl : (w : ℕ) (s : State) → Grown w 0 0 s s
Grown-refl w s = record {
  allocated = omega arith;
  sum = ap (λ t. t % 2 ^ w) {x = s.sum} (omega arith);
  bounded = λ l. l;
  grants = refl;
  settings = refl;
  mem_use = refl;
  stack = refl;
}

pub as-Grown :
    (w x y x' y' : ℕ) (s s' : State) → x ≡ x' → y ≡ y' → Grown w x y s s' → Grown w x' y' s s'
as-Grown w x y x' y' s s' p q h =
    subst (λ a. Grown w a y' s s') p (subst (λ b. Grown w x b s s') q h)

pub AllGranted-Grown : (w x y : ℕ) (s s' : State) → Grown w x y s s' → AllGranted s → AllGranted s'
AllGranted-Grown w x y s s' h all k = ap (λ g. g k) h.grants ∙ all k
