-- ===== src/Slots/Sockets/Examples.antt =====
-- A client comes, begins, leaves and ends, and another one comes.
use mathlib.Core.Option.{some-injective}
use star_server.Prelude.{
  ℕ, ◌≡◌, ◌↔◌, refl, sym, true, false, [], ◌∷◌, Option, none, some, replicate, negsuc, OnSome,
  arith, ◌==◌,
}
use star_server.Io.{Wire, Protocol, write_to, write_loop}
use star_server.Io.Complete.{IsOpen-replicate}
use star_server.Io.Progress.{passes}
use star_server.Database.{Db}
use star_server.Packet.Examples.{fresh}
use star_server.Session.State.{data_size_message}
use star_server.Slots.{find_free_idx, find_free_idx_host, start_thread, leave, end_thread}
use star_server.Slots.Sockets.{
  Net, Connection, Round, opened, with_slots, accept_loop, accept_at, accept_connection,
  join_thread, give_id, create_thread, finish_thread, accept_round, poll_accept_func, stsv_stop,
}
use star_server.Slots.Sockets.Reached.{Step, Reaches, IsStart, IsOwned}
use star_server.Slots.Sockets.Welcomed.{Welcomed, accept_connection-Welcomed}
use star_server.Slots.Sockets.Refined.{GivesFresh, poll_accept_func-Reaches}
use star_server.Slots.Sockets.Stopped.{Leaving, stsv_stop-open}

abbrev wire : Wire
wire = record { incoming = []; recvs = []; outgoing = []; sends = replicate 12 (some 1) }

abbrev pub started : Net
started = record {
  slots = record {
    max_connection = 2;
    clients = λ i. record fresh { online = false; thread = false };
    running = λ i. false;
    login_count = 0;
  };
  protocol = Protocol.tcp;
  socket = λ i. 0;
  non_blocking = λ i. false;
  listen_socket = 3;
  is_open = λ d. d == 3;
  wires = λ d. wire;
}

pub started-IsStart : IsStart started
started-IsStart = record {
  slots = record {
    offline = λ i l. refl;
    idle = λ i. refl;
    no_login = refl;
    bounded = omega arith;
  };
  listening = refl;
  only = λ d o. ground (arith, o);
}

-- `accept` gives the descriptor d.
abbrev pub at_descriptor : ℕ → Connection
at_descriptor d = record { descriptor = d; wire = wire }

abbrev round : ℕ → Round
round d = record { ready = true; accepts = none ∷ some (at_descriptor d) ∷ []; creates = true }

abbrev or_started : Option Net → Net
or_started none = started
or_started (some n) = n

-- A client is online, with the descriptor 5.
abbrev joined : Net
joined = or_started (accept_at 0 5 true (opened (at_descriptor 5) started))

joined-Reaches : Reaches started joined
unfolding accept_at join_thread give_id create_thread write_to write_loop data_size_message
joined-Reaches =
    Reaches.goes_on started joined Reaches.begins
      (Step.accepts 0 (at_descriptor 5) true joined refl (omega arith) refl refl)

abbrev begun : Net
begun = with_slots (start_thread 0 joined.slots) joined

abbrev left : Net
left = with_slots (leave 0 begun.slots) begun

left-Reaches : Reaches started left
unfolding accept_at join_thread give_id create_thread write_to write_loop data_size_message
    start_thread leave
left-Reaches =
    Reaches.goes_on begun left
      (Reaches.goes_on joined begun joined-Reaches (Step.starts 0 (omega arith) refl))
      (Step.leaves 0 (omega arith) refl refl)

abbrev over : Net
over = finish_thread 0 left

over-Reaches : Reaches started over
unfolding accept_at join_thread give_id create_thread write_to write_loop data_size_message
    start_thread leave end_thread
over-Reaches = Reaches.goes_on left over left-Reaches (Step.ends 0 (omega arith) refl refl refl)

poll_accept_func-Reaches_example :
    OnSome (λ m. Reaches started m × IsOwned m) (poll_accept_func (round 5 ∷ []) over)
unfolding GivesFresh accept_at join_thread give_id create_thread write_to write_loop
    data_size_message start_thread leave end_thread accept_loop accept_round accept_connection
    OnSome find_free_idx_host find_free_idx
poll_accept_func-Reaches_example =
    poll_accept_func-Reaches (round 5 ∷ []) started over started-IsStart over-Reaches
      ((λ c e. rw (sym (some-injective (at_descriptor 5) c e)) refl), tt)

accept_connection-Welcomed_example :
    Welcomed 0 5 true
      (opened (at_descriptor 5) over)
      (accept_connection (none ∷ some (at_descriptor 5) ∷ []) true over)
unfolding accept_at join_thread give_id create_thread write_to write_loop data_size_message
    start_thread leave end_thread accept_loop find_free_idx_host find_free_idx passes
accept_connection-Welcomed_example =
    accept_connection-Welcomed (none ∷ some (at_descriptor 5) ∷ []) (at_descriptor 5) 0 true over
      refl refl (λ e. refl) refl (IsOpen-replicate 12 1 (omega arith)) (omega arith)

abbrev no_database : Db ℕ
no_database = record {
  max_connect = 0;
  sql_buffer = 100;
  cur_connect = 0;
  have_connect = false;
  lock = λ i. false;
  connected = λ i. false;
  result = λ i. none;
  num_row = λ i. negsuc 0;
  num_fields = λ i. negsuc 0;
  row = λ i. none;
  mysql = 0;
}

stsv_stop-open_example :
    ((stsv_stop (λ i s. s) left no_database).0.is_open 5 ≡ true) ↔ Leaving left 5
stsv_stop-open_example =
    stsv_stop-open (λ i s. s) started left no_database 5 started-IsStart left-Reaches
