-- ===== src/Slots/Sockets/Reached.antt =====
-- What the accepting thread and the clients' threads reach: the sockets that are open are those in use.
use mathlib.Core.Path.{subst}
use mathlib.Core.Bool.{true≢false}
use star_server.Prelude.{
  ℕ, ◌<◌, ◌≡◌, sym, ◌∙◌, inl, inr, Bool, true, false, Bool-cases, none, some, set_at, OnSome,
}
use star_server.Io.{Wire}
use star_server.Slots.{
  find_free_idx_host, start_thread, leave, end_thread, accept_connection as take_slot,
}
use star_server.Slots.Served.{
  IsServed, accept-IsServed, start-IsServed, leave-IsServed, end-IsServed,
}
use star_server.Slots.Threads.{IsStart as StartedSlots, start-server-IsServed}
use star_server.Slots.Sockets.{
  Net, Connection, opened, destroy_socket, with_slots, accept_at, finish_thread,
}
use star_server.Slots.Sockets.Owned.{Owned, Owned-refused, Owned-socket, Owned-begin, Owned-end}
use star_server.Slots.Sockets.Accepting.{Accepted, accept_at-Accepted}

-- The steps. `accept` gives a descriptor that is not open; the slot that `AcceptConnection` found stays
-- offline while it joins, so that the steps of the clients before the join's end come first.
pub data Step (n : Net) : Net → Type 0 where
  refuses :
      (c : Connection)
      → n.is_open c.descriptor ≡ false
      → find_free_idx_host n.slots ≡ none
      → Step n (destroy_socket c.descriptor (opened c n))
  accepts :
      (i : ℕ) (c : Connection) (created : Bool) (n' : Net)
      → n.is_open c.descriptor ≡ false
      → i < n.slots.max_connection
      → (n.slots.clients i).online ≡ false
      → accept_at i c.descriptor created (opened c n) ≡ some n'
      → Step n n'
  starts :
      (i : ℕ)
      → i < n.slots.max_connection
      → n.slots.running i ≡ true
      → Step n (with_slots (start_thread i n.slots) n)
  talks :
      (i : ℕ) (w : Wire)
      → i < n.slots.max_connection
      → n.slots.running i ≡ true
      → Step n (record n { wires = set_at n.wires (n.socket i) w })
  leaves :
      (i : ℕ)
      → i < n.slots.max_connection
      → n.slots.running i ≡ true
      → (n.slots.clients i).thread ≡ true
      → Step n (with_slots (leave i n.slots) n)
  ends :
      (i : ℕ)
      → i < n.slots.max_connection
      → n.slots.running i ≡ true
      → (n.slots.clients i).thread ≡ true
      → (n.slots.clients i).online ≡ false
      → Step n (finish_thread i n)

pub data Reaches (n : Net) : Net → Type 0 where
  begins : Reaches n n
  goes_on : (m o : Net) → Reaches n m → Step m o → Reaches n o

abbrev OwnedNet : Net → Type 0
OwnedNet n = Owned n.slots.max_connection n.slots.running n.socket n.is_open n.listen_socket

pub record IsOwned (n : Net) : Type 0 where
  pub served : IsServed n.slots
  pub owned : OwnedNet n

-- The slot that is taken has no thread.
stopped :
    (n : Net) (i : ℕ)
    → IsServed n.slots
    → i < n.slots.max_connection
    → (n.slots.clients i).online ≡ false
    → ((n.slots.clients i).thread ≡ true → n.slots.running i ≡ false)
    → n.slots.running i ≡ false
stopped n i h inside off joined = elim (Bool-cases (n.slots.running i)) [
  | inl runs ↦ joined (h.begun i inside runs off)
  | inr idle ↦ idle
]

module _ (n : Net) (h : IsOwned n) where
  taken-Owned :
      (i : ℕ) (c : Connection) (created : Bool) (n' : Net)
      → n.is_open c.descriptor ≡ false
      → i < n.slots.max_connection
      → n.slots.running i ≡ false
      → Accepted i c.descriptor created (opened c n) n'
      → OwnedNet n'
  unfolding take_slot
  taken-Owned i c true n' closed inside idle a =
      rw (a.slots, a.socket, a.is_open, a.listen_socket)
        (Owned-begin _ _ _ _ _ i c.descriptor h.owned inside idle closed)
  taken-Owned i c false n' closed inside idle a =
      rw (a.slots, a.socket, a.is_open, a.listen_socket)
        (Owned-refused _ _ _ _ _ (Owned-socket _ _ _ _ _ h.owned i c.descriptor idle) c.descriptor
          closed)

  accepts-IsOwned :
      (i : ℕ) (c : Connection) (created : Bool) (n' : Net)
      → n.is_open c.descriptor ≡ false
      → i < n.slots.max_connection
      → (n.slots.clients i).online ≡ false
      → Accepted i c.descriptor created (opened c n) n'
      → IsOwned n'
  accepts-IsOwned i c created n' closed inside off a =
      let idle = stopped n i h.served inside off a.joined in
      record {
        served =
            subst IsServed (sym a.slots) (accept-IsServed n.slots h.served i created idle inside);
        owned = taken-Owned i c created n' closed inside idle a;
      }

pub Step-IsOwned : (n n' : Net) → IsOwned n → Step n n' → IsOwned n'
unfolding start_thread leave end_thread OnSome
Step-IsOwned n _ h (Step.refuses c closed full) = record {
  served = h.served;
  owned = Owned-refused _ _ _ _ _ h.owned c.descriptor closed;
}
Step-IsOwned n _ h (Step.accepts i c created n' closed inside off e) =
    accepts-IsOwned n h i c created n' closed inside off (
      subst (OnSome (Accepted i c.descriptor created (opened c n))) e
        (accept_at-Accepted i c.descriptor created (opened c n)))
Step-IsOwned n _ h (Step.starts i inside runs) = record {
  served = start-IsServed n.slots h.served i;
  owned = h.owned;
}
Step-IsOwned n _ h (Step.talks i w inside runs) = record { served = h.served; owned = h.owned }
Step-IsOwned n _ h (Step.leaves i inside runs began) = record {
  served = leave-IsServed n.slots h.served i began;
  owned = h.owned;
}
Step-IsOwned n _ h (Step.ends i inside runs began off) = record {
  served = end-IsServed n.slots h.served i inside runs off;
  owned = Owned-end _ _ _ _ _ h.owned i inside runs;
}

-- A server that starts: no thread runs, and the listening socket is the only one.
pub record IsStart (n : Net) : Type 0 where
  pub slots : StartedSlots n.slots
  pub listening : n.is_open n.listen_socket ≡ true
  pub only : (d : ℕ) → n.is_open d ≡ true → d ≡ n.listen_socket

start-IsOwned : (n : Net) → IsStart n → IsOwned n
start-IsOwned n h = record {
  served = start-server-IsServed n.slots h.slots;
  owned = record {
    owns = λ i l r. absurd (idle i r);
    alone = λ i j l l' r r' e. absurd (idle i r);
    apart = λ i l r e. idle i r;
    listening = h.listening;
    owner = λ d o. inl (h.only d o);
  };
}
  where
    idle : (i : ℕ) → n.slots.running i ≡ true → ⊥
    idle i r = true≢false (sym r ∙ h.slots.idle i)

steps-IsOwned : (n n' : Net) → IsOwned n → Reaches n n' → IsOwned n'
steps-IsOwned n _ h Reaches.begins = h
steps-IsOwned n _ h (Reaches.goes_on m o r step) = Step-IsOwned m o (steps-IsOwned n m h r) step

pub Reaches-IsOwned : (n n' : Net) → IsStart n → Reaches n n' → IsOwned n'
Reaches-IsOwned n n' start reached = steps-IsOwned n n' (start-IsOwned n start) reached
