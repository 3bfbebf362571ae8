-- ===== src/Slots/Sockets/Refined.antt =====
-- `AcceptConnection` makes the steps of the relation, and so does the loop that calls it.
use star_server.Prelude.{
  ◌≡◌, inl, inr, Bool, false, Bool-cases, Option-cases, List, [], ◌∷◌, Option, none, some, OnSome,
  OnSome-intro, OnSome-map, arith,
}
use star_server.Slots.{find_free_idx_host}
use star_server.Slots.Served.{found_offline}
use star_server.Slots.Sockets.{
  Net, Connection, Round, opened, accept_loop, accept_at, accept_connection, on_net, accept_round,
  poll_accept_func,
}
use star_server.Slots.Sockets.Reached.{Step, Reaches, IsStart, IsOwned, Reaches-IsOwned}

accept_connection-Step :
    (results : List (Option Connection)) (c : Connection) (created : Bool) (n : Net)
    → accept_loop results ≡ some c
    → n.is_open c.descriptor ≡ false
    → OnSome (Step n) (accept_connection results created n)
unfolding accept_connection find_free_idx_host OnSome
accept_connection-Step results c created n given closed =
    elim (Option-cases (find_free_idx_host n.slots)) [
      | inl full ↦ rw (given, full) (Step.refuses c closed full)
      | inr (i, free) ↦
          let (off, inside) = found_offline n.slots.max_connection 0 n.slots.clients i free in
          rw (given, free)
            (OnSome-intro (Step n) (accept_at i c.descriptor created (opened c n))
              (λ n' e. Step.accepts i c created n' closed (omega arith) off e))
    ]

-- In each round, a descriptor that `accept` gives is not open then.
unfoldable pub GivesFresh : List Round → Net → Type 0
GivesFresh [] n = Unit {0}
GivesFresh (r ∷ rounds) n =
    ((c : Connection) → accept_loop r.accepts ≡ some c → n.is_open c.descriptor ≡ false)
    × OnSome (GivesFresh rounds) (accept_round r n)

accept_round-Reaches :
    (r : Round) (s n : Net)
    → ((c : Connection) → accept_loop r.accepts ≡ some c → n.is_open c.descriptor ≡ false)
    → Reaches s n
    → OnSome (Reaches s) (accept_round r n)
unfolding accept_round accept_connection OnSome
accept_round-Reaches r s n fresh reached = elim (Bool-cases r.ready) [
  | inr quiet ↦ rw quiet reached
  | inl ready ↦ elim (Option-cases (accept_loop r.accepts)) [
    | inl nothing ↦ rw (ready, nothing) tt
    | inr (c, given) ↦ rw ready (
        OnSome-map (Step n) (Reaches s) (accept_connection r.accepts r.creates n)
          (λ n' step. Reaches.goes_on n n' reached step)
          (accept_connection-Step r.accepts c r.creates n given (fresh c given)))
  ]
]

-- What follows a call, from two things that hold of its result.
OnSome-on_net :
    (p q r : Net → Type 0) (o : Option Net) (next : Net → Option Net)
    → ((n : Net) → p n → q n → OnSome r (next n))
    → OnSome p o
    → OnSome q o
    → OnSome r (on_net o next)
unfolding OnSome
OnSome-on_net p q r none next f h k = _
OnSome-on_net p q r (some n) next f h k = f n h k

rounds-Reaches :
    (rounds : List Round) (s n : Net)
    → GivesFresh rounds n
    → Reaches s n
    → OnSome (Reaches s) (poll_accept_func rounds n)
unfolding poll_accept_func GivesFresh OnSome
rounds-Reaches [] s n fresh reached = reached
rounds-Reaches (r ∷ rounds) s n fresh reached =
    OnSome-on_net (GivesFresh rounds) (Reaches s) (Reaches s) (accept_round r n)
      (poll_accept_func rounds) (rounds-Reaches rounds s) fresh.1
      (accept_round-Reaches r s n fresh.0 reached)

-- A TCP server started, and its threads took any steps. Then the accepting thread runs on: in each round
-- of its loop a descriptor that `accept` gives is not open at that time. When the rounds are over, what it
-- did are steps of the relation. And the sockets that are open are the listening one and, for each
-- running thread, the one of its client, which no other running thread has and which is not the
-- listening one: a client that is refused, that gets no thread, or that has left leaves none open, and
-- none is closed while it is in use. The invariant of the slots holds too.
pub poll_accept_func-Reaches :
    (rounds : List Round) (s n : Net)
    → IsStart s
    → Reaches s n
    → GivesFresh rounds n
    → OnSome (λ m. Reaches s m × IsOwned m) (poll_accept_func rounds n)
poll_accept_func-Reaches rounds s n start reached fresh =
    OnSome-map (Reaches s) (λ m. Reaches s m × IsOwned m) (poll_accept_func rounds n)
      (λ m r. (r, Reaches-IsOwned s m start r)) (rounds-Reaches rounds s n fresh reached)
