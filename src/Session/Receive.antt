-- ===== src/Session/Receive.antt =====
-- A packet of data, and `processMessageBuffer` as a whole.
use star_server.Prelude.{
  ℕ, ◌+◌, ◌-◌, ◌^◌, bit_and, Bool, true, false, not, ◌&&◌, ◌||◌, Option, none, some, if◌then◌else◌,
  ltb, leb, ◌==◌, nonzero, u16, Mem, get16, get32,
}
use star_server.Client.{Client}
use star_server.Crc.{stos_crc16}
use star_server.Packet.{process_message_packet, pack_header_size, sockmsg_packdatasize}
use star_server.Io.{Got, read_from}
use star_server.Transfer.Receive.{Received, process_message_big_data, process_message_file_data}
use star_server.Session.State.{
  datasize_size, sockmsg_register, sockmsg_retrasmit, sockmsg_ping, sockmsg_alldata,
  sockmsg_filedata, sockmsg_bigdata, max_buffer, ServerType, Server, World, Outcome, refuse,
  with_client, set_offline, on_read, finish, send_retrasmit,
}
use star_server.Session.Register.{count_of, received, register, retrasmit}

abbrev pub of_process : Option Client → World → Outcome
of_process none w = Outcome.fault
of_process (some c) w = Outcome.returned true (with_client w c)

abbrev pub of_received : Option Received → World → Outcome
of_received none w = Outcome.fault
of_received (some r) w = Outcome.returned r.ok (record w { client = r.client; disk = r.disk })

-- `if(ret != 0) return ret`: the next step is taken only after a 0.
abbrev pub and_then : Outcome → (World → Outcome) → Outcome
and_then Outcome.fault next = Outcome.fault
and_then Outcome.waiting next = Outcome.waiting
and_then (Outcome.returned false w) next = Outcome.returned false w
and_then (Outcome.returned true w) next = next w

abbrev pub when : Bool → (World → Outcome) → World → Outcome
when b step w = if b then step w else Outcome.returned true w

abbrev pub message_part : Server → ℕ → World → Outcome
message_part s type =
    when (nonzero (bit_and type sockmsg_packdatasize))
      (λ w. of_process (process_message_packet s.data_buffer w.client) w)

abbrev pub big_data_part : Server → ℕ → World → Outcome
big_data_part s type =
    when (nonzero (bit_and type sockmsg_bigdata))
      (λ w. of_received (process_message_big_data s.data_buffer w.client w.disk) w)

abbrev pub file_data_part : Server → ℕ → World → Outcome
file_data_part s type =
    when (nonzero (bit_and type sockmsg_filedata))
      (λ w. of_received (process_message_file_data s.data_buffer w.client w.disk) w)

-- `client->packRef = DataMsg->packNo`
abbrev pub take_packet : ℕ → World → Outcome
take_packet pack_no w =
    Outcome.returned true (with_client w (record w.client { pack_ref = pack_no }))

abbrev pub after_big_data : Server → ℕ → ℕ → World → Outcome
after_big_data s type pack_no w = and_then (file_data_part s type w) (take_packet pack_no)

abbrev pub after_message : Server → ℕ → ℕ → World → Outcome
after_message s type pack_no w = and_then (big_data_part s type w) (after_big_data s type pack_no)

-- From "Start Encode Packet" on: the parts that the type names, in turn, then `packRef`.
unfoldable pub encode_packet : Server → ℕ → ℕ → World → Outcome
encode_packet s type pack_no w = and_then (message_part s type w) (after_message s type pack_no)

-- The length that `STOS_CRC16` is called with, and the comparison with `PackData->crc`.
abbrev pub crc_length : ℕ → ℕ
crc_length size = u16 (size + 2 ^ 16 - 4)

unfoldable pub crc_matches : Server → Mem → ℕ → Bool
crc_matches s m size =
    stos_crc16 s.crc_tables.crc16 m pack_header_size (size + 2 ^ 16 - 4) == get16 m datasize_size

-- The checks of a packet that was read whole.
unfoldable pub check_crc : Server → ℕ → ℕ → ℕ → World → Outcome
check_crc s type pack_no size w =
    if ltb s.data_buffer (pack_header_size + crc_length size)
    then Outcome.fault
    else if crc_matches s w.client.recv_buffer size
    then encode_packet s type pack_no w
    else finish false (send_retrasmit s pack_no w)

abbrev pub is_one_time : ServerType → Bool
is_one_time ServerType.one_time = true
is_one_time ServerType.always_on = false

-- A client of a server of one-time connections that has sent all, without a file in its packet.
abbrev is_over : Server → ℕ → World → Bool
is_over s type w =
    is_one_time s.server_type
    && w.client.send_done
    && (not (nonzero (bit_and type sockmsg_bigdata))
        && not (nonzero (bit_and type sockmsg_filedata)))

-- What follows the read of the packet's rest. `packNo` is compared as a `u32`.
unfoldable pub check_packet : Server → ℕ → ℕ → ℕ → World → Got → Outcome
check_packet s type pack_no size w got =
    let w' = received w got in
    if leb pack_no w'.client.pack_ref
    then refuse w'
    else if is_over s type w'
    then refuse (set_offline w')
    else if not (count_of got.size == size)
    then finish false (send_retrasmit s pack_no w')
    else check_crc s type pack_no size w'

-- The packet behind its first 12 bytes, of `size` bytes.
unfoldable pub receive_packet : Server → ℕ → ℕ → ℕ → World → Outcome
receive_packet s type pack_no size w =
    if ltb s.data_buffer (datasize_size + size)
    then Outcome.fault
    else on_read (read_from w.wire w.client.recv_buffer datasize_size size false)
        (check_packet s type pack_no size w)

-- `default`: a packet of data, where `fromID` is a client's number and the size is in bounds.
unfoldable pub screen_packet : Server → World → ℕ → ℕ → ℕ → ℕ → Outcome
screen_packet s w type from_id pack_no size =
    if leb (2 ^ 15) from_id || leb s.max_connection from_id
    then refuse (set_offline w)
    else if not (nonzero (bit_and type sockmsg_alldata))
    then refuse w
    else if leb (2 ^ 31) size || ltb max_buffer size
    then refuse (set_offline w)
    else receive_packet s type pack_no size w

-- `switch (Msg->type)`
unfoldable pub route_type : Server → World → ℕ → Outcome
route_type s w type =
    if type == sockmsg_register
    then register s w
    else if type == sockmsg_retrasmit
    then retrasmit s w
    else if type == sockmsg_ping
    then refuse w
    else screen_packet s w type (get16 w.client.recv_buffer 2) (get32 w.client.recv_buffer 4)
        (get32 w.client.recv_buffer 8)

-- What follows the read of the first 12 bytes.
unfoldable pub after_header : Server → World → Got → Outcome
after_header s w got =
    if count_of got.size == 0
    then refuse (set_offline (received w got))
    else route_type s (received w got) (get16 got.memory 0)

-- `processMessageBuffer`
unfoldable pub process_message_buffer : Server → World → Outcome
process_message_buffer s w =
    on_read (read_from w.wire w.client.recv_buffer 0 datasize_size false)
      (after_header s (with_client w (record w.client { recv_count = 0 })))

abbrev pub number_in : Option Got → ℕ
number_in none = 0
number_in (some got) = get32 got.memory 4

-- `DataMsg->packNo` of the packet whose first 12 bytes come next.
unfoldable pub next_pack_no : World → ℕ
next_pack_no w = number_in (read_from w.wire w.client.recv_buffer 0 datasize_size false)
