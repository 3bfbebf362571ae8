-- ===== src/Session/Register.antt =====
-- The registration of a client and the packet that is sent again: two cases of `processMessageBuffer`.
use star_server.Prelude.{
  ℕ, ◌+◌, ◌-◌, ◌^◌, Bool, true, false, not, ◌||◌, if◌then◌else◌, ltb, leb, ◌==◌, u32, Mem, read,
  write, bytes16, get32, ℤ, pos, negsuc,
}
use star_server.Io.{Got, read_from}
use star_server.Session.State.{
  datasize_size, sockmsg_register, ServerType, Server, World, Outcome, refuse, with_client,
  set_offline, on_read, send_or_leave, finish,
}

-- `StarVersion`, three signed words as bit patterns.
pub record StarVersion : Type 0 where
  pub major : ℕ
  pub minor : ℕ
  pub revision : ℕ

abbrev engine_support : StarVersion
engine_support = record { major = 2; minor = 86; revision = 0 }

abbrev client_support : StarVersion
client_support = record { major = 1; minor = 8; revision = 0 }

-- `<` of signed words.
abbrev pub signed : ℕ → ℕ
signed v = u32 (v + 2 ^ 31)

is_older : StarVersion → StarVersion → Bool
is_older v support =
    ltb (signed v.major) (signed support.major)
    || ltb (signed v.minor) (signed support.minor)
    || ltb (signed v.revision) (signed support.revision)

abbrev read_version : Mem → ℕ → StarVersion
read_version m a = record { major = get32 m a; minor = get32 m (a + 4); revision = get32 m (a + 8) }

abbrev regis_ok : ServerType → ℕ
regis_ok ServerType.one_time = 2
regis_ok ServerType.always_on = 1

-- `s_nCurLoginCount >= s_nMaxConnection - 10`, compared as `u32`.
is_full : Server → Bool
is_full s = leb (u32 (s.max_connection + 2 ^ 32 - 10)) s.cur_login_count

-- The answer of a registration, in `fromID`: 3 `OLD_VERSION`, 4 `SERVER_FULL`, 5 `CLIENT_WRONG`.
pub register_answer : Server → StarVersion → StarVersion → ℕ
register_answer s engine client =
    if is_full s
    then 4
    else if is_older client client_support
    then 5
    else if is_older engine engine_support
    then 3
    else regis_ok s.server_type

abbrev pub count_of : ℤ → ℕ
count_of (pos n) = n
count_of (negsuc n) = 0

-- The bytes of a read are in the client's receive buffer.
abbrev pub received : World → Got → World
received w got = record w { client = record w.client { recv_buffer = got.memory }; wire = got.wire }

-- The answer to what was read. The bytes behind the answer's type and `fromID` stay as they were.
unfoldable pub answer_register : Server → World → Got → Outcome
answer_register s w got =
    let w' = received w got in
    let answer = register_answer s (read_version got.memory 12) (read_version got.memory 24) in
    let m = write (write w.client.send_buffer 2 (bytes16 answer)) 0 (bytes16 sockmsg_register) in
    if ltb s.data_buffer (datasize_size + count_of got.size)
    then Outcome.fault
    else if not (count_of got.size == 24)
    then refuse (set_offline w')
    else finish false (
        send_or_leave s
          (with_client w' (record w'.client { send_buffer = m; send_data_size = datasize_size }))
          (read m 0 datasize_size))

-- `case STSOCKMSG_REGISTER`. Its rest of 24 bytes is read without waiting, and -1 is returned.
unfoldable pub register : Server → World → Outcome
register s w =
    on_read
      (read_from w.wire w.client.recv_buffer datasize_size (get32 w.client.recv_buffer 8) true)
      (answer_register s w)

-- `case STSOCKMSG_RETRASMIT`: the last packet is sent again.
unfoldable pub retrasmit : Server → World → Outcome
retrasmit s w =
    finish false (send_or_leave s w (read w.client.send_buffer 0 w.client.send_data_size))
