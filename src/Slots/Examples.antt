-- ===== src/Slots/Examples.antt =====
-- A client comes, begins, leaves, and its slot is taken again.
use star_server.Prelude.{true, false}
use star_server.Packet.Examples.{fresh}
use star_server.Slots.{Slots, accept_connection, start_thread, leave, end_thread}

abbrev started : Slots
started = record {
  max_connection = 2;
  clients = λ i. record fresh { online = false; thread = false };
  running = λ i. false;
  login_count = 0;
}

abbrev left : Slots
left = leave 0 (start_thread 0 (accept_connection 0 true started))

abbrev ended : Slots
ended = end_thread 0 left
