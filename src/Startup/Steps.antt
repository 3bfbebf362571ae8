-- ===== src/Startup/Steps.antt =====
-- What holds of a state in which a step of the start ends, where it does not fail.
use mathlib.Core.Path.{subst}
use star_server.Prelude.{◌≡◌, refl, Bool, true, false}
use star_server.Startup.State.{State, Result, M, continue_with, require}

unfoldable pub Ensures : {A : Type 0} → (A → State → Type 0) → Result A → Type 0
Ensures p (Result.done a s) = p a s
Ensures p (Result.failed s) = Unit {0}
Ensures p Result.undefined = Unit {0}

module _ {A : Type 0} (p : A → State → Type 0) where
  pub done-Ensures : (a : A) (s : State) → p a s → Ensures p (Result.done a s)
  unfolding Ensures
  done-Ensures a s h = h

  pub failed-Ensures : (s : State) → Ensures p (Result.failed s)
  unfolding Ensures
  failed-Ensures s = _

  pub undefined-Ensures : Ensures p Result.undefined
  unfolding Ensures
  undefined-Ensures = _

  pub Ensures-done : (r : Result A) (a : A) (s : State) → Ensures p r → r ≡ Result.done a s → p a s
  unfolding Ensures
  Ensures-done r a s h e = subst (Ensures p) e h

-- What goes on from a step.
module _ {A B : Type 0} (p : A → State → Type 0) (q : B → State → Type 0) (f : A → M B) where
  pub continue-Ensures :
      (r : Result A)
      → Ensures p r
      → ((a : A) (s : State) → p a s → Ensures q (f a s))
      → Ensures q (continue_with f r)
  unfolding Ensures continue_with
  continue-Ensures (Result.done a s) h k = k a s h
  continue-Ensures (Result.failed s) h k = _
  continue-Ensures Result.undefined h k = _

-- A step that is done.
pub done_then-Ensures :
    {A B : Type 0} (q : B → State → Type 0) (f : A → M B) (a : A) (s : State)
    → Ensures q (f a s)
    → Ensures q (continue_with f (Result.done a s))
unfolding continue_with
done_then-Ensures q f a s h = h

-- The same, where the last steps alone matter.
pub last-Ensures :
    {A B : Type 0} (q : B → State → Type 0) (f : A → M B) (r : Result A)
    → ((a : A) (s : State) → Ensures q (f a s))
    → Ensures q (continue_with f r)
unfolding Ensures continue_with
last-Ensures q f (Result.done a s) k = k a s
last-Ensures q f (Result.failed s) k = _
last-Ensures q f Result.undefined k = _

pub require-Ensures :
    (q : Unit {0} → State → Type 0) (b : Bool) (s : State)
    → (b ≡ true → q tt s)
    → Ensures q (require b s)
unfolding Ensures
require-Ensures q true s h = h refl
require-Ensures q false s h = _

pub Ensures-map :
    {A : Type 0} (p q : A → State → Type 0) (r : Result A)
    → ((a : A) (s : State) → p a s → q a s)
    → Ensures p r
    → Ensures q r
unfolding Ensures
Ensures-map p q (Result.done a s) k h = k a s h
Ensures-map p q (Result.failed s) k h = _
Ensures-map p q Result.undefined k h = _
