-- ===== src/Session/Answer.antt =====
-- `EndPackSendData`, and a round of the client's thread.
use star_server.Prelude.{
  ◌+◌, ◌-◌, ◌^◌, true, false, ◌||◌, Option, none, some, if◌then◌else◌, ltb, read, write, bytes16,
  bytes32, get32,
}
use star_server.Client.{Client}
use star_server.Crc.{stos_crc16}
use star_server.Packet.{pack_data_with_packet, pack_header_size}
use star_server.Transfer.Send.{pack_data_with_big_data}
use star_server.Session.State.{
  datasize_size, Server, World, Outcome, with_client, send_or_leave, send_confirm_message,
}
use star_server.Session.Receive.{is_one_time, process_message_buffer}

-- `_PackDataWithCRC16`
unfoldable pub pack_data_with_crc16 : Server → Client → Client
pack_data_with_crc16 s c =
    let m = c.send_buffer in
    let crc = stos_crc16 s.crc_tables.crc16 m pack_header_size (get32 m 8 + 2 ^ 16 - 4) in
    record c { send_buffer = write m datasize_size (bytes16 crc) }

-- The last changes to the packet: its CRC, then the number that it confirms.
unfoldable pub seal_packet : Server → Client → Client
seal_packet s c =
    let c' = pack_data_with_crc16 s c in
    record c' {
      send_data_size = get32 c'.send_buffer 8 + datasize_size;
      send_buffer = write c'.send_buffer 4 (bytes32 c'.pack_ref);
    }

abbrev pub sealed : Server → Option Client → Option Client
sealed s none = none
sealed s (some c) = some (seal_packet s c)

-- The packet that `EndPackSendData` makes, before it is sent.
unfoldable pub make_packet : Server → World → Option Client
make_packet s w =
    let packed = pack_data_with_packet w.client in
    sealed s (
      if w.client.file_data_sending
      then pack_data_with_big_data s.data_buffer packed w.disk
      else some packed)

-- After the packet is sent nothing is queued.
abbrev pub emptied : World → World
emptied w = with_client w (record w.client { recv_count = 0; send_count = 0; cur_packet_no = 0 })

abbrev pub on_sent : Option World → (World → World) → Outcome
on_sent none next = Outcome.waiting
on_sent (some w) next = Outcome.returned true (next w)

abbrev pub send_packet : Server → World → Option Client → Outcome
send_packet s w none = Outcome.fault
send_packet s w (some c) =
    on_sent (send_or_leave s (with_client w c) (read c.send_buffer 0 c.send_data_size)) emptied

abbrev pub sent_confirm : Server → World → World
sent_confirm s w =
    if is_one_time s.server_type then with_client w (record w.client { send_done = true }) else w

-- `EndPackSendData`, whose mutex is held while the packet is made and sent. What is queued and the
-- file are sent with the confirmation, which alone is sent where there is neither.
unfoldable pub end_pack_send_data : Server → World → Outcome
end_pack_send_data s w =
    if ltb 0 w.client.send_count || w.client.file_data_sending
    then send_packet s w (make_packet s w)
    else on_sent (send_confirm_message s w.client.pack_ref w) (sent_confirm s)

-- A round of `STSV_ClientThreadFuncAlway`: the socket is ready, and the game's handler, a parameter,
-- runs between the packet and the answer. After -1 there is no answer.
unfoldable pub client_round : Server → (World → World) → World → Outcome
client_round s client_request w = elim (process_message_buffer s w) [
  | Outcome.fault ↦ Outcome.fault
  | Outcome.waiting ↦ Outcome.waiting
  | Outcome.returned ok w' ↦
      if ok then end_pack_send_data s (client_request w') else Outcome.returned false w'
]
