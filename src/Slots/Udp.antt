-- ===== src/Slots/Udp.antt =====
-- `AcceptConnectionUDP` and `STSV_KoockAcceptFunc` of StarServer/StarSocketServer.cpp. What `recvfrom`
-- and the other calls of the system give are arguments, and so are the bytes that the stack had where
-- `dataBuff` stands.
pub mod Owned
pub mod Second
mod Examples
use star_server.Prelude.{
  ℕ, ◌≡◌, Bool, true, false, List, [], ◌∷◌, Option, none, some, if◌then◌else◌, ◌==◌, length, take,
  set_at, u16, Mem, write, get16,
}
use star_server.Session.State.{datasize_size}
use star_server.Slots.{Slots, find_free_idx_host}
use star_server.Slots.Sockets.{Net, Connection, opened, destroy_socket, with_slots, create_thread}

abbrev sockmsg_knock : ℕ
sockmsg_knock = 0xfffd

-- What the reads of the listening socket come to: none of them returns, or a message of another type came,
-- or one that asks for a connection.
pub data Heard : Type 0 where
  nothing : Heard
  other : Heard
  knock : Heard

abbrev heard : Mem → Heard
heard m = if get16 m 0 == sockmsg_knock then Heard.knock else Heard.other

-- `while (!ok)` up to the message, over what `recvfrom` returns: -1, which is taken for a message, or a
-- datagram, of which 12 bytes are kept.
unfoldable pub hear : List (Option (List ℕ)) → Mem → Heard
hear [] m = Heard.nothing
hear (none ∷ results) m = heard m
hear (some bs ∷ results) m =
    let got = take datasize_size bs in
    let rest = hear results m in if length got == 0 then rest else heard (write m 0 got)

-- What the calls for the new client and for the new listening socket give.
pub record Calls : Type 0 where
  pub child : Connection
  pub creates_thread : Bool
  pub listener : Connection
  pub binds : Bool

-- How the call ends: it waits for a datagram, it writes at the index -1, or it returns.
pub data Outcome : Type 0 where
  waiting : Outcome
  fault : Outcome
  returned : Net → Outcome

-- The fields that are set in the slot that was found.
abbrev enter_udp : ℕ → Net → Net
enter_udp i n =
    with_slots
      (record n.slots {
        clients =
            set_at n.slots.clients i
              (record (n.slots.clients i) { online = true; pack_ref = 0; idx = u16 i });
      })
      n

-- The new client's socket, and its thread.
abbrev pub serve_child : ℕ → Calls → Net → Net
serve_child i k n =
    let n' = opened k.child (destroy_socket n.listen_socket (enter_udp i n)) in
    create_thread i k.creates_thread (record n' { socket = set_at n'.socket i k.child.descriptor })

-- `if(ok)`: another listening socket.
abbrev pub listen_again : Calls → Net → Net
listen_again k n =
    let n' = opened k.listener n in
    if k.binds
    then record n' { listen_socket = k.listener.descriptor }
    else destroy_socket k.listener.descriptor n'

abbrev on_slot : Option ℕ → Calls → Net → Outcome
on_slot none k n = Outcome.fault
on_slot (some i) k n = Outcome.returned (listen_again k (serve_child i k n))

abbrev on_heard : Heard → Calls → Net → Outcome
on_heard Heard.nothing k n = Outcome.waiting
on_heard Heard.other k n = Outcome.returned n
on_heard Heard.knock k n = on_slot (find_free_idx_host n.slots) k n

-- `AcceptConnectionUDP`
unfoldable pub accept_connection_udp : List (Option (List ℕ)) → Mem → Calls → Net → Outcome
accept_connection_udp results m k n = on_heard (hear results m) k n

-- A round of `STSV_KoockAcceptFunc`: whether `poll` returns more than 0, and what the calls of
-- `AcceptConnectionUDP` find.
record UdpRound : Type 0 where
  pub ready : Bool
  pub datagrams : List (Option (List ℕ))
  pub stack : Mem
  pub calls : Calls

abbrev on_outcome : Outcome → (Net → Outcome) → Outcome
on_outcome Outcome.waiting next = Outcome.waiting
on_outcome Outcome.fault next = Outcome.fault
on_outcome (Outcome.returned n) next = next n

abbrev udp_round : UdpRound → Net → Outcome
udp_round r n =
    if r.ready then accept_connection_udp r.datagrams r.stack r.calls n else Outcome.returned n

-- `STSV_KoockAcceptFunc`, whose `online` nothing resets, over the rounds so far.
unfoldable koock_accept_func : List UdpRound → Net → Outcome
koock_accept_func [] n = Outcome.returned n
koock_accept_func (r ∷ rounds) n = on_outcome (udp_round r n) (koock_accept_func rounds)
