-- ===== src/Session/State.antt =====
-- What a client's thread reads and changes, how its calls end, and the short messages that it sends.
use star_server.Prelude.{
  ℕ, ◌*◌, Bool, false, List, ◌++◌, Option, none, some, if◌then◌else◌, ◌==◌, ◌≡◌, refl, length,
  bytes16, bytes32,
}
use star_server.Client.{Client}
use star_server.Crc.{CrcTables}
use star_server.Packet.{sockid_server}
use star_server.Io.{Wire, Got, Put, Protocol, write_to}
use star_server.Transfer.Files.{Disk}

-- `STSOCKMSGDATA_DATASIZE` has 12 bytes.
abbrev pub datasize_size : ℕ
datasize_size = 12

-- Negative types, as 16-bit patterns.
abbrev pub sockmsg_register : ℕ
sockmsg_register = 0xfffb

abbrev pub sockmsg_retrasmit : ℕ
sockmsg_retrasmit = 0xfffa

abbrev pub sockmsg_ping : ℕ
sockmsg_ping = 0xfff7

abbrev sockmsg_confirm : ℕ
sockmsg_confirm = 0xfff6

abbrev sockmsg_duplicate : ℕ
sockmsg_duplicate = 0xfff5

abbrev pub sockmsg_alldata : ℕ
sockmsg_alldata = 0x000f

abbrev pub sockmsg_filedata : ℕ
sockmsg_filedata = 0x0004

abbrev pub sockmsg_bigdata : ℕ
sockmsg_bigdata = 0x0008

abbrev pub max_buffer : ℕ
max_buffer = 64 * 1024

pub data ServerType : Type 0 where
  always_on : ServerType
  one_time : ServerType

-- The server's variables that a client's thread reads.
pub record Server : Type 0 where
  pub protocol : Protocol
  pub server_type : ServerType
  pub max_connection : ℕ
  pub cur_login_count : ℕ
  pub data_buffer : ℕ
  pub crc_tables : CrcTables

-- What a client's thread changes.
pub record World : Type 0 where
  pub client : Client
  pub wire : Wire
  pub disk : Disk

-- How a call ends: it goes out of a buffer, it waits on the socket, or it returns.
pub data Outcome : Type 0 where
  fault : Outcome
  waiting : Outcome
  returned : Bool → World → Outcome

-- `return -1`
abbrev pub refuse : World → Outcome
refuse w = Outcome.returned false w

abbrev pub with_client : World → Client → World
with_client w c = record w { client = c }

abbrev pub set_offline : World → World
set_offline w = record w { client = record w.client { online = false } }

-- What follows a read or a write, which may not return.
abbrev pub on_read : Option Got → (Got → Outcome) → Outcome
on_read none next = Outcome.waiting
on_read (some got) next = next got

abbrev pub on_write : Option Put → (Put → World) → Option World
on_write none next = none
on_write (some p) next = some (next p)

-- `STSOCKMSGDATA_DATASIZE` with the given type and packet number, from the server, of size 0.
unfoldable pub data_size_message : ℕ → ℕ → List ℕ
data_size_message type pack_no =
    bytes16 type ++ bytes16 sockid_server ++ bytes32 pack_no ++ bytes32 0

pub length-data_size_message :
    (type pack_no : ℕ) → length (data_size_message type pack_no) ≡ datasize_size
unfolding data_size_message
length-data_size_message type pack_no = refl

-- `if(WriteTo(..) == 0) online = false`
abbrev pub leave_on_zero : World → Put → World
leave_on_zero w p =
    let w' = record w { wire = p.wire } in if p.size == 0 then set_offline w' else w'

unfoldable pub send_or_leave : Server → World → List ℕ → Option World
send_or_leave s w bs = on_write (write_to s.protocol w.wire bs) (leave_on_zero w)

abbrev pub finish : Bool → Option World → Outcome
finish ok none = Outcome.waiting
finish ok (some w) = Outcome.returned ok w

-- `SendReTrasmit`
unfoldable pub send_retrasmit : Server → ℕ → World → Option World
send_retrasmit s packet_no w = send_or_leave s w (data_size_message sockmsg_retrasmit packet_no)

-- `SendConfirmMessage`
unfoldable pub send_confirm_message : Server → ℕ → World → Option World
send_confirm_message s packet_no w = send_or_leave s w (data_size_message sockmsg_confirm packet_no)

-- `STSV_SendDuplicateLogin`, whose packet number is not set: it is an argument here.
send_duplicate_login : Server → ℕ → World → Option World
send_duplicate_login s garbage w =
    on_write (write_to s.protocol w.wire (data_size_message sockmsg_duplicate garbage))
      (λ p. set_offline (record w { wire = p.wire }))

-- `STSV_SendServerFULL`: likewise, and its type is a number of a registration's answer.
send_server_full : Server → ℕ → World → Option World
send_server_full s garbage w =
    on_write (write_to s.protocol w.wire (data_size_message 4 garbage))
      (λ p. set_offline (record w { wire = p.wire }))
