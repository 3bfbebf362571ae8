-- ===== src/Startup/Init.antt =====
-- `InitServerLimit`, `InitServerUnlimit` and `STSV_Init`. What they print is left out.
use star_server.Prelude.{
  ℕ, zero, suc, ◌+◌, ◌-◌, ◌*◌, ◌/◌, ◌%◌, ◌^◌, Bool, false, ◌&&◌, List, Option, none, some,
  if◌then◌else◌, ltb, u32, replicate, pos, negsuc,
}
use star_server.Client.{Client}
use star_server.Config.Settings.{Settings, read_config_file}
use star_server.Database.{Db, MySql, stdb_connect}
use star_server.Startup.Memory.{to_size, rounds32, Sizes}
use star_server.Startup.Limits.{check_limite}
use star_server.Startup.Listening.{Listener, Created, create_server}
use star_server.Startup.State.{
  State, Host, Result, M, ◌>>=◌, ◌>>◌, return, modify, require, allocate, count,
}

-- `STSV_BIGDATA_POOL_BLOCK * STSV_BIGDATA_BUFFER`: the pool has one block.
abbrev pub bigdata_buffer : ℕ
bigdata_buffer = 1 * 1024 * 1024

-- `ReadConfigFile`, and the variables of the database that it sets.
abbrev pub keep_settings : State → Option (Settings × Option (List ℕ)) → Result (Unit {0})
keep_settings s none = Result.undefined
keep_settings s (some (t, file)) = Result.done tt (record s {
  settings = t;
  db = record s.db { max_connect = rounds32 t.db_max_connect; sql_buffer = t.sql_buffer };
})

unfoldable pub configure : Host → M (Unit {0})
configure host s = keep_settings s (read_config_file host.file host.stack host.value)

-- A client in memory that `memset` cleared.
abbrev pub cleared : Client → Client
cleared c = record c {
  online = false;
  thread = false;
  idx = 0;
  room_idx = pos 0;
  send_data_size = 0;
  send_done = false;
  pack_ref = 0;
  send_count = 0;
  recv_count = 0;
  cur_packet_no = 0;
  send_packet_no = λ i. 0;
  send_msg_size = λ i. 0;
  recv_msg = λ i. 0;
  recv_msg_size = λ i. 0;
  big_data_ready = false;
  big_data_read_size = 0;
  big_data_read_size_done = 0;
  file_data_ready = false;
  file_data_name = replicate 32 0;
  file_send_name = replicate 32 0;
  file_data_sending = false;
  big_data_send_size = 0;
  big_data_send_size_done = 0;
}

-- `n` calls of `malloc` that must all give memory.
unfoldable pub allocate_each : ℕ → ℕ → M (Unit {0})
allocate_each zero size = return tt
allocate_each (suc n) size = do given ← allocate size; require given; allocate_each n size

-- The two buffers of each client, which are tested together. `sendBufferMSG` is set to places in the
-- first, which `Client` has as `block_address`.
unfoldable pub allocate_buffers : ℕ → ℕ → M (Unit {0})
allocate_buffers zero size = return tt
allocate_buffers (suc n) size = do
  send ← allocate size
  recv ← allocate size
  require (send && recv)
  allocate_buffers n size

-- What is the same in both functions: the clients, their buffers, and the rooms, of which the memory
-- is not tested. The second sum is the one behind the rooms.
unfoldable pub allocate_clients : ℕ → Sizes → M (Unit {0})
allocate_clients width z = do
  t ← λ s. Result.done s.settings s
  let n = to_size t.max_connection
  clients ← allocate (n * z.client % 2 ^ 64)
  require clients
  modify (λ s. record s { clients = λ i. cleared (s.clients i) })
  count width (n * z.client)
  allocate_buffers (rounds32 t.max_connection) (to_size t.data_buffer)
  count width (n * to_size t.data_buffer * 2)
  rooms ← allocate (to_size t.max_room * z.room % 2 ^ 64)
  count width (n * z.client)

-- The seven arrays of the database, which are tested together.
unfoldable pub allocate_arrays : ℕ → Sizes → M (Unit {0})
allocate_arrays n z = do
  mysql ← allocate (z.mysql * n % 2 ^ 64)
  p_mysql ← allocate (z.pointer * n % 2 ^ 64)
  lock ← allocate (z.bool * n % 2 ^ 64)
  res ← allocate (z.pointer * n % 2 ^ 64)
  row ← allocate (z.pointer * n % 2 ^ 64)
  num_row ← allocate (z.int * n % 2 ^ 64)
  num_fields ← allocate (z.int * n % 2 ^ 64)
  require (mysql && p_mysql && lock && res && row && num_row && num_fields)

-- What the loop over the connections sets.
abbrev pub no_connection : Db (Unit {0}) → Db (Unit {0})
no_connection db = record db {
  connected = λ i. false;
  lock = λ i. false;
  result = λ i. none;
  num_row = λ i. negsuc 0;
  num_fields = λ i. negsuc 0;
}

-- The MySQL library as the start sees it: which connections it makes. The other calls are not made.
abbrev pub library : Host → MySql (Unit {0})
library host = record {
  connect = λ i s. (host.connects i, tt);
  query = λ i command s. (1, tt);
  errno = λ i s. 0;
  store_result = λ i s. (none, tt);
  insert_id = λ i s. 0;
}

-- From `mMySqlCommand` on, with `STDB_Connect`.
unfoldable pub allocate_database : ℕ → Sizes → Host → M (Unit {0})
allocate_database width z host = do
  t ← λ s. Result.done s.settings s
  let n = to_size t.db_max_connect
  commands ← allocate (n * z.sql_buffer % 2 ^ 64)
  require commands
  allocate_each (rounds32 t.db_max_connect) (to_size t.sql_buffer)
  count width (to_size (u32 (t.db_max_connect * t.sql_buffer)) + n * z.sql_buffer)
  allocate_arrays n z
  count width (z.mysql * n + z.pointer * n + z.bool * n)
  modify (λ s. record s { db = (stdb_connect (library host) (no_connection s.db)).1 })

-- Every client is offline and has no thread.
abbrev pub without_clients : State → State
without_clients s = record s {
  clients = λ i. record (s.clients i) { online = false; thread = false };
}

abbrev pub listening : Listener → State → State
listening l s = record s { listener = l; db = record s.db { cur_connect = l.db_connect } }

abbrev pub on_created : State → Created → Result (Unit {0})
on_created s Created.undefined = Result.undefined
on_created s (Created.returned (pos zero) l) = Result.done tt (listening l s)
on_created s (Created.returned _ l) = Result.failed (listening l s)

-- The end of both functions. `s_nMemoryUse += sumMemoryUse` is in a `size_t`.
unfoldable pub finish : (ℕ → ℕ) → Host → M (Unit {0})
finish widened host = do
  modify (λ s. record s { mem_use = (s.mem_use + widened s.sum) % 2 ^ 64 })
  modify without_clients
  λ s. on_created s (create_server s.settings.protocol host.socket s.listener)

-- `InitServerLimit`, where `sumMemoryUse` is an `int`.
unfoldable pub init_server_limit : Sizes → Host → M (Unit {0})
init_server_limit z host = do
  modify (λ s. record s { sum = bigdata_buffer })
  configure host
  t ← λ s. Result.done s.settings s
  require (check_limite host.rlimits t.server_mem_g t.max_connection)
  allocate_clients 32 z
  allocate_database 32 z host
  finish to_size host

-- `memPerUser`, in a `size_t`.
abbrev pub mem_per_user : Sizes → Settings → ℕ → ℕ
mem_per_user z t stack =
    (z.client + to_size (u32 (2 * t.data_buffer)) + to_size stack + z.room / 2) % 2 ^ 64

abbrev pub memory_have : ℕ → ℕ
memory_have server_mem_g = to_size server_mem_g * 1024 * 1024 * 1024 % 2 ^ 64

-- `/ 2` of an `int`, towards 0.
abbrev int_half : ℕ → ℕ
int_half v = if ltb v (2 ^ 31) then v / 2 else (2 ^ 32 - (2 ^ 32 - v) / 2) % 2 ^ 32

-- How many connections the memory has room for, and the rooms for two players each.
abbrev pub planned : Sizes → State → State
planned z s =
    let n =
      u32 (memory_have s.settings.server_mem_g / mem_per_user z s.settings s.max_stack_size) in
    record s { settings = record s.settings { max_connection = n; max_room = int_half n } }

-- `InitServerUnlimit`, where `sumMemoryUse` is a `size_t`.
unfoldable pub init_server_unlimit : Sizes → Host → M (Unit {0})
init_server_unlimit z host = do
  modify (λ s. record s { sum = bigdata_buffer })
  configure host
  modify (planned z)
  allocate_clients 64 z
  allocate_database 64 z host
  finish (λ n. n) host

-- What `STSV_Init` does before: the limits, and the buffer of `initBigDataMemory`.
unfoldable pub prepare : Host → M (Unit {0})
prepare host = do
  modify (λ s. record s {
    mem_use = 0;
    max_stack_size = u32 host.rlimits.stack;
    max_file = u32 host.rlimits.files;
  })
  given ← allocate bigdata_buffer
  require given

-- `s_EstimateRam`
abbrev estimated : State → State
estimated s = record s {
  estimate_ram =
      (to_size (u32 (s.max_stack_size * s.settings.max_connection))
        + s.mem_use
        + to_size (u32 (151 * 1024 * 1024 + u32 (s.settings.db_max_connect * 4))))
      % 2 ^ 64;
}

-- The estimate is made whatever the function before it returned.
abbrev pub with_estimate : Result (Unit {0}) → Result (Unit {0})
with_estimate (Result.done _ s) = Result.done tt (estimated s)
with_estimate (Result.failed s) = Result.failed (estimated s)
with_estimate Result.undefined = Result.undefined

-- `STSV_Init`, where `unlimited` is `s_bUnlimit`.
unfoldable pub stsv_init : Bool → Sizes → Host → M (Unit {0})
stsv_init unlimited z host = do
  prepare host
  λ s.
      with_estimate (if unlimited then init_server_unlimit z host s else init_server_limit z host s)
