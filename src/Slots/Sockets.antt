-- ===== src/Slots/Sockets.antt =====
-- The sockets of the slots, StarServer/StarSocketServer.cpp: `DestroySocket`, `SetNonBlocking`,
-- `AcceptConnection` in full, the end of a client's thread, `STSV_PollAcceptFunc` and `STSV_Stop`. A
-- descriptor is a number; what `accept` gives, and the wire behind it, are arguments. Left out: the
-- addresses and what is printed.
pub mod Owned
pub mod Reached
pub mod Accepting
pub mod Welcomed
pub mod Refined
pub mod Stopped
pub mod Examples
use star_server.Prelude.{
  ℕ, zero, suc, ◌+◌, Bool, true, false, List, [], ◌∷◌, Option, none, some, if◌then◌else◌, u32,
  set_at,
}
use star_server.Io.{Wire, Put, Protocol, write_to}
use star_server.Session.State.{data_size_message}
use star_server.Database.{Db}
use star_server.Database.RealQuery.{stdb_disconnect}
use star_server.Slots.{Slots, find_free_idx_host, set_up_client, end_thread}

pub record Net : Type 0 where
  pub slots : Slots
  pub protocol : Protocol
  -- `socket` and `NonBlocking` of each client.
  pub socket : ℕ → ℕ
  pub non_blocking : ℕ → Bool
  pub listen_socket : ℕ
  -- The descriptors of sockets that are open, and what passes through them.
  pub is_open : ℕ → Bool
  pub wires : ℕ → Wire

-- `DestroySocket`, whose `close` does not fail.
abbrev pub destroy_socket : ℕ → Net → Net
destroy_socket d n = record n { is_open = set_at n.is_open d false }

-- `SetNonBlocking`
abbrev set_non_blocking : ℕ → Bool → Net → Net
set_non_blocking i b n = record n { non_blocking = set_at n.non_blocking i b }

-- A connection that `accept` gives: the descriptor and what passes through it.
pub record Connection : Type 0 where
  pub descriptor : ℕ
  pub wire : Wire

abbrev pub opened : Connection → Net → Net
opened c n = record n {
  is_open = set_at n.is_open c.descriptor true;
  wires = set_at n.wires c.descriptor c.wire;
}

-- `while (connectSock == STSV_INVALID_SOCKET)`, over what `accept` returns. The list's end is a call that
-- does not return.
unfoldable pub accept_loop : List (Option Connection) → Option Connection
accept_loop [] = none
accept_loop (none ∷ results) = accept_loop results
accept_loop (some c ∷ results) = some c

-- `pthread_join` of the thread that a slot had. `none`: it still runs, and the call waits.
unfoldable pub join_thread : ℕ → Net → Option Net
join_thread i n =
    if (n.slots.clients i).thread then (if n.slots.running i then none else some n) else some n

abbrev pub with_slots : Slots → Net → Net
with_slots s n = record n { slots = s }

-- The fields of the client, `SetNonBlocking` included.
abbrev pub set_up : ℕ → ℕ → Net → Net
set_up i d n = set_non_blocking i true (record n {
  slots = record n.slots {
    clients = set_at n.slots.clients i (set_up_client i (n.slots.clients i));
  };
  socket = set_at n.socket i d;
})

abbrev pub sockmsg_giveid : ℕ
sockmsg_giveid = 0xfffe

abbrev pub keep_put : ℕ → Net → Option Put → Option Net
keep_put d n none = none
keep_put d n (some p) = some (record n { wires = set_at n.wires d p.wire })

-- The message with the client's number. What `WriteTo` returns is not looked at.
unfoldable pub give_id : ℕ → Net → Option Net
give_id i n =
    keep_put (n.socket i) n
      (write_to n.protocol (n.wires (n.socket i)) (data_size_message sockmsg_giveid i))

-- `pthread_create` made the thread, or failed.
unfoldable pub create_thread : ℕ → Bool → Net → Net
create_thread i true n =
    with_slots
      (record n.slots {
        running = set_at n.slots.running i true;
        login_count = u32 (n.slots.login_count + 1);
      })
      n
create_thread i false n = destroy_socket (n.socket i) (
    with_slots
      (record n.slots {
        clients = set_at n.slots.clients i (record (n.slots.clients i) { online = false });
      })
      n)

abbrev pub on_net : Option Net → (Net → Option Net) → Option Net
on_net none next = none
on_net (some n) next = next n

-- `AcceptConnection` behind `FindFreeIdxHost`, for the slot i.
unfoldable pub accept_at : ℕ → ℕ → Bool → Net → Option Net
accept_at i d created n =
    on_net (join_thread i n)
      (λ n. on_net (give_id i (set_up i d n)) (λ n. some (create_thread i created n)))

abbrev on_found : Option ℕ → ℕ → Bool → Net → Option Net
on_found none d created n = some (destroy_socket d n)
on_found (some i) d created n = accept_at i d created n

abbrev on_connection : Option Connection → Bool → Net → Option Net
on_connection none created n = none
on_connection (some c) created n =
    let n' = opened c n in on_found (find_free_idx_host n'.slots) c.descriptor created n'

-- `AcceptConnection`. `none`: it does not return.
unfoldable pub accept_connection : List (Option Connection) → Bool → Net → Option Net
accept_connection results created n = on_connection (accept_loop results) created n

-- The end of `STSV_ClientThreadFuncAlway`, behind its loop.
abbrev pub finish_thread : ℕ → Net → Net
finish_thread i n = with_slots (end_thread i n.slots) (destroy_socket (n.socket i) n)

-- A round of `STSV_PollAcceptFunc`: whether `select` returns more than 0, and what the calls of
-- `AcceptConnection` do.
pub record Round : Type 0 where
  pub ready : Bool
  pub accepts : List (Option Connection)
  pub creates : Bool

unfoldable pub accept_round : Round → Net → Option Net
accept_round r n = if r.ready then accept_connection r.accepts r.creates n else some n

-- `STSV_PollAcceptFunc`, whose `online` nothing resets, over the rounds so far.
unfoldable pub poll_accept_func : List Round → Net → Option Net
poll_accept_func [] n = some n
poll_accept_func (r ∷ rounds) n = on_net (accept_round r n) (poll_accept_func rounds)

-- The first loop of `STSV_Stop`, with n slots left from i on.
unfoldable pub stop_clients : ℕ → ℕ → Net → Net
stop_clients zero i s = s
stop_clients (suc n) i s =
    let s' = if (s.slots.clients i).online then destroy_socket (s.socket i) s else s in
    stop_clients n (i + 1) s'

-- `STSV_Stop`. `close` is `mysql_close` of a connection.
unfoldable pub stsv_stop : {S : Type 0} → (ℕ → S → S) → Net → Db S → Net × Db S
stsv_stop close n db = (
  destroy_socket n.listen_socket (stop_clients n.slots.max_connection 0 n),
  stdb_disconnect close db,
)
