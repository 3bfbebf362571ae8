-- ===== src/Startup/Examples.antt =====
-- A start with the default configuration, in both modes.
use star_server.Prelude.{
  ℕ, ◌+◌, ◌*◌, ◌^◌, ◌≤◌, ◌≡◌, ◌↔◌, ◌/◌, refl, true, false, [], none, negsuc, arith,
}
use star_server.Client.{Client}
use star_server.Config.Settings.{default_settings, read_config_file}
use star_server.Database.{Db}
use star_server.Database.Locking.{IsCounted}
use star_server.Slots.Threads.{IsStart}
use star_server.Startup.Memory.{Sizes, malloc}
use star_server.Startup.Limits.{check_limite, check_limite_iff}
use star_server.Startup.Listening.{create_server}
use star_server.Startup.State.{State, Host, Result, continue_with, allocate, count}
use star_server.Startup.Init.{
  configure, allocate_each, allocate_buffers, allocate_clients, allocate_arrays, allocate_database,
  finish, init_server_limit, init_server_unlimit, prepare, stsv_init,
}
use star_server.Startup.Ready.{slots_of, stsv_init-IsStart}
use star_server.Startup.Sums.{Fits, not_counted}
use star_server.Startup.Balance.{stsv_init-counted}
use star_server.Rooms
use star_server.Rooms.{Lobby, fill_room}
use star_server.Rooms.Reached.{accept}
use star_server.Startup.Lobby.{lobby_of}
use star_server.Startup.Planned.{IsPlannable, per_connection, stsv_init-planned}

abbrev sizes : Sizes
sizes = record {
  client = 1800;
  room = 264;
  sql_buffer = 8;
  mysql = 1272;
  pointer = 8;
  bool = 1;
  int = 4;
}

abbrev client : Client
client = record {
  online = true;
  thread = true;
  idx = 7;
  room_idx = negsuc 0;
  send_data_size = 0;
  send_done = false;
  recv_buffer = λ a. 0;
  send_buffer = λ a. 0;
  pack_ref = 9;
  send_count = 0;
  recv_count = 0;
  cur_packet_no = 0;
  send_packet_no = λ i. 0;
  send_msg_size = λ i. 0;
  recv_msg = λ i. 0;
  recv_msg_size = λ i. 0;
  big_data_ready = false;
  big_data_read_size = 0;
  big_data_read_size_done = 0;
  file_data_ready = false;
  file_data_name = [];
  file_send_name = [];
  file_data_sending = false;
  big_data_send_size = 0;
  big_data_send_size_done = 0;
}

abbrev database : Db (Unit {0})
database = record {
  max_connect = 0;
  sql_buffer = 0;
  cur_connect = 4;
  have_connect = false;
  lock = λ i. true;
  connected = λ i. false;
  result = λ i. none;
  num_row = λ i. negsuc 0;
  num_fields = λ i. negsuc 0;
  row = λ i. none;
  mysql = tt;
}

abbrev start : State
start = record {
  settings = default_settings;
  mem_use = 0;
  sum = 0;
  max_stack_size = 0;
  max_file = 0;
  heap = record { allocated = 0; calls = 0; grants = λ k. true };
  clients = λ i. client;
  db = database;
  listener = record { online = false; login_count = 3; db_connect = 4 };
  estimate_ram = 0;
}

abbrev host : Host
host = record {
  rlimits = record { stack = 2 ^ 23; files = 1024 };
  file = none;
  stack = [];
  value = λ a. 0;
  socket = record {
    binds = true;
    in_use = false;
    binds_again = false;
    listens = true;
    creates_thread = true;
  };
  connects = λ i. true;
}

abbrev ended : Result (Unit {0}) → State
ended (Result.done _ s) = s
ended _ = start

abbrev started : State
unfolding stsv_init prepare init_server_limit init_server_unlimit configure allocate count malloc
    continue_with allocate_each allocate_buffers allocate_clients allocate_arrays allocate_database
    finish check_limite create_server read_config_file
started = ended (stsv_init false sizes host start)

started_lem : stsv_init false sizes host start ≡ Result.done tt started
unfolding stsv_init prepare init_server_limit init_server_unlimit configure allocate count malloc
    continue_with allocate_each allocate_buffers allocate_clients allocate_arrays allocate_database
    finish check_limite create_server read_config_file
started_lem = refl

stsv_init-IsStart_example :
    IsStart (slots_of started)
    × IsCounted started.db
    × (started.listener.online ≡ true)
    × ((i : ℕ) → started.db.lock i ≡ false)
stsv_init-IsStart_example = stsv_init-IsStart false sizes host start started started_lem

started_Fits : Fits false sizes started.settings
unfolding started
started_Fits = record {
  connections = omega arith;
  buffer = omega arith;
  rooms = omega arith;
  room_memory = omega arith;
  db_connections = omega arith;
  sql_buffer = omega arith;
  commands = omega arith;
  int_memory = omega arith;
  all = omega arith;
}

stsv_init-counted_example :
    started.mem_use + not_counted sizes started.settings + 0 ≡ started.heap.allocated + 50 * 1800
unfolding started
stsv_init-counted_example =
    stsv_init-counted false sizes host start started (λ k. refl) started_lem started_Fits

abbrev unlimited : State
unfolding stsv_init prepare init_server_limit init_server_unlimit configure allocate count malloc
    continue_with allocate_each allocate_buffers allocate_clients allocate_arrays allocate_database
    finish check_limite create_server read_config_file
unlimited = ended (stsv_init true sizes host start)

unlimited_lem : stsv_init true sizes host start ≡ Result.done tt unlimited
unfolding stsv_init prepare init_server_limit init_server_unlimit configure allocate count malloc
    continue_with allocate_each allocate_buffers allocate_clients allocate_arrays allocate_database
    finish check_limite create_server read_config_file
unlimited_lem = refl

unlimited_IsPlannable : IsPlannable sizes unlimited.settings unlimited.max_stack_size
unfolding unlimited
unlimited_IsPlannable = record {
  memory = omega arith;
  buffer = omega arith;
  stack_size = omega arith;
  sizes = omega arith;
}

stsv_init-planned_example :
    unlimited.settings.max_connection
      * per_connection sizes unlimited.settings unlimited.max_stack_size
    ≤ 2 * 2 ^ 30
unfolding unlimited
stsv_init-planned_example =
    stsv_init-planned sizes host start unlimited (λ k. refl) unlimited_lem unlimited_IsPlannable

check_limite_iff_example :
    (check_limite (record { stack = 2 ^ 23; files = 1024 }) 2 50 ≡ true)
    ↔ ((512 * 1024 ≤ 2 ^ 23) × (50 * (2 ^ 23 / 1024) ≤ 2 * (1024 * 1024)) × (50 * 3 ≤ 1024))
check_limite_iff_example =
    check_limite_iff (record { stack = 2 ^ 23; files = 1024 }) 2 50 (omega arith) (omega arith)

-- The memory of the rooms held zeros. The slot 0 is given to a client, which makes a room.
abbrev lobby : Lobby
lobby = lobby_of unlimited (λ r. Rooms.cleared)

abbrev made : Lobby
made = fill_room 0 0 (accept 0 lobby)
