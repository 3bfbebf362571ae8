-- ===== src/Config/Settings.antt =====
-- `ReadConfigFile`: the server's variables that it sets, from the file or from the defaults.
use star_server.Prelude.{
  ℕ, ◌+◌, ◌*◌, Bool, true, List, [], ◌∷◌, ◌++◌, Option, none, some, if◌then◌else◌, ltb, length,
  drop, nonzero, Mem, read,
}
use star_server.Prelude.Text.{codes}
use star_server.Transfer.Files.{c_string}
use star_server.Config.{get_string_value_config, atoi, value_size}

pub record Settings : Type 0 where
  pub debug_version : Bool
  pub port : ℕ
  pub protocol : ℕ
  pub max_connection : ℕ
  pub data_buffer : ℕ
  pub sql_buffer : ℕ
  pub db_max_connect : ℕ
  pub server_type : ℕ
  pub server_mem_g : ℕ
  pub max_room : ℕ
  pub room_count : ℕ
  pub db_user : List ℕ
  pub db_pass : List ℕ
  pub db_name : List ℕ
  pub ip : List ℕ

-- `valueBuffer` as a string, and the memory for the next value.
abbrev as_string : Option Mem → Option (List ℕ × Mem)
as_string none = none
as_string (some value) = elim (c_string (read value 0 value_size)) [
  | none ↦ none
  | some s ↦ some (s, value)
]

abbrev get_string : List ℕ → List ℕ → Mem → Option (List ℕ × Mem)
get_string config tag value = as_string (get_string_value_config config tag value)

-- `atoi(valueBuffer)`
abbrev get_int : List ℕ → List ℕ → Mem → Option (ℕ × Mem)
get_int config tag value = elim (get_string config tag value) [
  | none ↦ none
  | some (s, value') ↦ elim (atoi (s ++ 0 ∷ [])) [ none ↦ none | some n ↦ some (n, value') ]
]

-- `strcpy` into an array of `size` bytes.
abbrev get_copy : ℕ → List ℕ → List ℕ → Mem → Option (List ℕ × Mem)
get_copy size config tag value = elim (get_string config tag value) [
  | none ↦ none
  | some (s, value') ↦ if ltb (length s) size then some (s, value') else none
]

infixl 5 ◌>>=◌
abbrev pub ◌>>=◌ : {A B : Type 0} → Option A → (A → Option B) → Option B
none >>= f = none
some a >>= f = f a

-- The values of a configuration that is in `configBuffer`, in the order of the calls.
unfoldable pub read_settings : List ℕ → Mem → Option Settings
read_settings config v = do
  (debug, v) ← get_int config (codes "DEBUG") v
  (port, v) ← get_int config (codes "PORT") v
  (protocol, v) ← get_int config (codes "PROTOCOL") v
  (max_connection, v) ← get_int config (codes "MAX_CCU") v
  (data_buffer, v) ← get_int config (codes "DATA_BUFFER") v
  (sql_buffer, v) ← get_int config (codes "SQL_BUFFER") v
  (db_max_connect, v) ← get_int config (codes "DB_CCU") v
  (server_type, v) ← get_int config (codes "ALWAYON") v
  (server_mem_g, v) ← get_int config (codes "SERVERMEM(GB)") v
  (db_user, v) ← get_copy 16 config (codes "DB_USER") v
  (db_pass, v) ← get_copy 16 config (codes "DB_PASS") v
  (db_name, v) ← get_copy 16 config (codes "DB_NAME") v
  (ip, v) ← get_copy 32 config (codes "DB_IP") v
  some (record {
    debug_version = nonzero debug;
    port = port;
    protocol = protocol;
    max_connection = max_connection;
    data_buffer = data_buffer;
    sql_buffer = sql_buffer;
    db_max_connect = db_max_connect;
    server_type = server_type;
    server_mem_g = server_mem_g;
    max_room = 0;
    room_count = 0;
    db_user = db_user;
    db_pass = db_pass;
    db_name = db_name;
    ip = ip;
  })

abbrev config_size : ℕ
config_size = 2048

-- `configBuffer` once the file is read and its end is marked, over what the array held before.
abbrev config_buffer : List ℕ → List ℕ → List ℕ
config_buffer file before = file ++ 0 ∷ drop (length file + 1) before

-- The default configuration, which is used where there is no file.
abbrev pub default_settings : Settings
default_settings = record {
  debug_version = true;
  port = 9009;
  protocol = 0;
  max_connection = 50;
  data_buffer = 64 * 1024;
  sql_buffer = 64 * 1024;
  db_max_connect = 10;
  server_type = 1;
  server_mem_g = 2;
  max_room = 0;
  room_count = 0;
  db_user = codes "root";
  db_pass = codes "123456";
  db_name = codes "StarDB";
  ip = codes "127.0.0.1";
}

abbrev line : List ℕ → List ℕ → List ℕ
line text rest = text ++ b'\n' ∷ rest

-- The file that is written then.
abbrev pub default_file : List ℕ
default_file = line (codes "[STAR_SOCKET_SERVER_CONFIG]") (
    line (codes "DEBUG = 1") (
      line (codes "PORT  = 9009") (
        line (codes "PROTOCOL = 0 #TCP = 0,UDP =1") (
          line (codes "MAX_CCU = 50") (
            line (codes "DATA_BUFFER = 65536") (
              line (codes "SQL_BUFFER = 65536") (
                line (codes "DB_CCU = 10") (
                  line (codes "ALWAYON = 1") (
                    line (codes "SERVERMEM(GB) = 2") (
                      line (codes "[DB_CONFIG]") (
                        line (codes "DB_USER = root") (
                          line (codes "DB_PASS = ''") (
                            line (codes "DB_NAME = StarDB")
                              (line (codes "DB_IP = 127.0.0.1") []))))))))))))))

-- What `ReadConfigFile` leaves: the settings and the file. `file` is `none` where there is no file,
-- which then can be written. `before` and `value` are what the two arrays on the stack held.
unfoldable pub read_config_file :
    Option (List ℕ) → List ℕ → Mem → Option (Settings × Option (List ℕ))
read_config_file none before value = some (default_settings, some default_file)
read_config_file (some file) before value =
    if ltb (length file) config_size
    then read_settings (config_buffer file before) value >>= (λ s. some (s, some file))
    else none
