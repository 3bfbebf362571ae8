-- ===== src/Slots/Sockets/Accepting.antt =====
-- What `AcceptConnection` leaves when it returns, and when it does.
use mathlib.Core.Bool.{true≢false}
use star_server.Prelude.{
  sym, ◌∙◌, ℕ, ◌≡◌, refl, ap, inl, inr, Bool, true, false, Bool-cases, Option, none, some, ==_refl,
  if◌then◌else◌, set_at, OnSome,
}
use star_server.Io.{Put}
use star_server.Prelude.Writes.{set_at-twice}
use star_server.Slots.{accept_connection as take_slot}
use star_server.Slots.Sockets.{
  Net, accept_at, join_thread, give_id, create_thread, set_up, on_net, keep_put,
}

-- The slot i was taken for the socket d; where no thread was made, the socket is closed.
pub record Accepted (i d : ℕ) (created : Bool) (n n' : Net) : Type 0 where
  pub joined : (n.slots.clients i).thread ≡ true → n.slots.running i ≡ false
  pub slots : n'.slots ≡ take_slot i created n.slots
  pub socket : n'.socket ≡ set_at n.socket i d
  pub is_open : n'.is_open ≡ (if created then n.is_open else set_at n.is_open d false)
  pub listen_socket : n'.listen_socket ≡ n.listen_socket

module _ (i d : ℕ) (n : Net)
    (joined : (n.slots.clients i).thread ≡ true → n.slots.running i ≡ false) where
  created-Accepted :
      (created : Bool) (o : Option Put)
      → OnSome (Accepted i d created n) (
          on_net
            (keep_put (set_at n.socket i d i) (set_up i d n) o)
            (λ n. some (create_thread i created n)))
  unfolding create_thread OnSome take_slot
  created-Accepted created none = _
  created-Accepted true (some p) = record {
    joined = joined;
    slots = refl;
    socket = refl;
    is_open = refl;
    listen_socket = refl;
  }
  created-Accepted false (some p) = record {
    joined = joined;
    slots =
        rw (==_refl i)
          (ap (λ c. record n.slots { clients = c }) (set_at-twice n.slots.clients i _ _));
    socket = refl;
    is_open = rw (==_refl i) refl;
    listen_socket = refl;
  }

pub accept_at-Accepted :
    (i d : ℕ) (created : Bool) (n : Net) → OnSome (Accepted i d created n) (accept_at i d created n)
unfolding accept_at join_thread give_id OnSome
accept_at-Accepted i d created n = elim (Bool-cases (n.slots.clients i).thread) [
  | inl begun ↦ elim (Bool-cases (n.slots.running i)) [
    | inl runs ↦ rw (begun, runs) tt
    | inr stopped ↦ rw (begun, stopped) (created-Accepted i d n (λ e. stopped) created _)
  ]
  | inr fresh ↦
      rw fresh (created-Accepted i d n (λ e. absurd (true≢false (sym e ∙ fresh))) created _)
]
