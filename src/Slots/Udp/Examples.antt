-- ===== src/Slots/Udp/Examples.antt =====
-- A client knocks, leaves, and another one knocks before the first one's thread has ended.
use star_server.Prelude.{ℕ, ◌≡◌, refl, true, List, [], ◌∷◌, Option, some, get16, write, Mem, arith}
use star_server.Io.{Protocol}
use star_server.Slots.{find_free_idx, find_free_idx_host, start_thread, leave}
use star_server.Slots.Sockets.{Net, with_slots, create_thread}
use star_server.Slots.Sockets.Reached.{
  Step, Reaches, IsStart, IsOwned, Step-IsOwned, Reaches-IsOwned,
}
use star_server.Slots.Sockets.Examples.{started, started-IsStart, at_descriptor}
use star_server.Slots.Udp.{Calls, Outcome, hear, serve_child, listen_again, accept_connection_udp}
use star_server.Slots.Udp.Owned.{served-IsOwned, accept_connection_udp-IsOwned}
use star_server.Slots.Udp.Second.{HasTwo, accept_connection_udp-HasTwo}

abbrev idle : Net
idle = record started { protocol = Protocol.udp }

idle-IsOwned : IsOwned idle
idle-IsOwned = Reaches-IsOwned idle idle start Reaches.begins
  where
    start : IsStart idle
    start = record { slots = started-IsStart.slots; listening = refl; only = started-IsStart.only }

-- An empty datagram, and one of a client that knocks.
abbrev datagrams : List (Option (List ℕ))
datagrams = some [] ∷ some (0xfd ∷ 0xff ∷ 7 ∷ 0 ∷ 0 ∷ 0 ∷ 0 ∷ 0 ∷ []) ∷ []

abbrev stack : Mem
stack = λ a. 0

abbrev calls : ℕ → ℕ → Calls
calls d l = record {
  child = at_descriptor d;
  creates_thread = true;
  listener = at_descriptor l;
  binds = true;
}

accept_connection_udp-IsOwned_example :
    (n' : Net) × (accept_connection_udp datagrams stack (calls 4 3) idle ≡ Outcome.returned n')
    × IsOwned n'
    × (n'.listen_socket ≡ 3)
unfolding hear write get16 find_free_idx_host find_free_idx create_thread
accept_connection_udp-IsOwned_example =
    accept_connection_udp-IsOwned datagrams stack (calls 4 3) idle 0 refl idle-IsOwned refl refl
      refl refl refl

abbrev served : Net
served = listen_again (calls 4 3) (serve_child 0 (calls 4 3) idle)

abbrev begun : Net
begun = with_slots (start_thread 0 served.slots) served

abbrev left : Net
left = with_slots (leave 0 begun.slots) begun

left-IsOwned : IsOwned left
unfolding create_thread start_thread
left-IsOwned =
    Step-IsOwned begun left
      (Step-IsOwned served begun
        (served-IsOwned idle idle-IsOwned 0 (calls 4 3) (omega arith) refl refl refl true refl refl)
        (Step.starts 0 (omega arith) refl))
      (Step.leaves 0 (omega arith) refl refl)

accept_connection_udp-HasTwo_example :
    (n' : Net) × (accept_connection_udp datagrams stack (calls 5 3) left ≡ Outcome.returned n')
    × HasTwo 0 (calls 5 3) left n'
unfolding hear write get16 find_free_idx_host find_free_idx create_thread start_thread leave
accept_connection_udp-HasTwo_example =
    accept_connection_udp-HasTwo datagrams stack (calls 5 3) left 0 refl left-IsOwned refl refl refl
      refl refl
