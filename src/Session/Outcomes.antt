-- ===== src/Session/Outcomes.antt =====
-- Properties of the results of `processMessageBuffer` and of its steps.
use mathlib.Core.Path.{subst}
use star_server.Prelude.{◌≡◌, Bool, true, false, Option, none, some, if◌then◌else◌}
use star_server.Io.{Got, Put}
use star_server.Session.State.{World, Outcome, finish, on_read, on_write}
use star_server.Session.Receive.{and_then}

-- What holds of the result, where a call returns one.
unfoldable pub Ensures : (Bool → World → Type 0) → Outcome → Type 0
Ensures p Outcome.fault = Unit {0}
Ensures p Outcome.waiting = Unit {0}
Ensures p (Outcome.returned ok w) = p ok w

module _ (p : Bool → World → Type 0) where
  pub Ensures-fault : Ensures p Outcome.fault
  unfolding Ensures
  Ensures-fault = _

  pub Ensures-waiting : Ensures p Outcome.waiting
  unfolding Ensures
  Ensures-waiting = _

  pub Ensures-returned : (ok : Bool) (w : World) → p ok w → Ensures p (Outcome.returned ok w)
  unfolding Ensures
  Ensures-returned ok w h = h

  pub on_read-Ensures :
      (o : Option Got) (next : Got → Outcome)
      → ((got : Got) → Ensures p (next got))
      → Ensures p (on_read o next)
  on_read-Ensures none next h = Ensures-waiting
  on_read-Ensures (some got) next h = h got

  pub finish-Ensures :
      (ok : Bool) (o : Option Put) (next : Put → World)
      → ((put : Put) → p ok (next put))
      → Ensures p (finish ok (on_write o next))
  finish-Ensures ok none next h = Ensures-waiting
  finish-Ensures ok (some put) next h = Ensures-returned ok (next put) (h put)

  -- The steps that `ret != 0` chains.
  pub and_then-Ensures :
      (q : World → Type 0) (o : Outcome) (next : World → Outcome)
      → ((w : World) → q w → Ensures p (next w))
      → Ensures (λ ok w. if ok then q w else p false w) o
      → Ensures p (and_then o next)
  unfolding Ensures
  and_then-Ensures q Outcome.fault next h k = _
  and_then-Ensures q Outcome.waiting next h k = _
  and_then-Ensures q (Outcome.returned true w) next h k = h w k
  and_then-Ensures q (Outcome.returned false w) next h k = k

  pub Ensures-result :
      (o : Outcome) (ok : Bool) (w : World) → Ensures p o → o ≡ Outcome.returned ok w → p ok w
  unfolding Ensures
  Ensures-result o ok w h e = subst (Ensures p) e h
