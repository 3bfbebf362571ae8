-- ===== src/Session/Examples.antt =====
-- The theorems on a session, on short packets.
use star_server.Prelude.{
  ℕ, ◌≤◌, ◌<◌, ◌≡◌, refl, ◌⊎◌, true, false, List, [], ◌∷◌, ◌++◌, none, some, if◌then◌else◌, ◌==◌,
  Mem, read, write, get16, get32, arith,
}
use star_server.Client.{Client}
use star_server.Crc.{
  stos_crc16, crc_loop, crc16_next, stos_init_crc_table, init_crc16_table, fill, table_bit,
}
use star_server.Crc.Checksums.{IsBytes}
use star_server.Crc.Corruption.{Damaged}
use star_server.Packet.{
  pack_data_with_packet, process_message_packet, pack_table, pack_blocks, pack_header, packed_size,
  sum_sizes, toggle,
}
use star_server.Packet.Examples.{fresh}
use star_server.Io.{Wire, Protocol, read_from, read_loop, write_to}
use star_server.Io.Progress.{passes}
use star_server.Transfer.Files.{Disk}
use star_server.Session.State.{
  Server, ServerType, World, Outcome, with_client, set_offline, finish, send_retrasmit,
  send_or_leave, send_confirm_message,
}
use star_server.Session.Receive.{
  process_message_buffer, after_header, route_type, screen_packet, receive_packet, check_packet,
  check_crc, crc_matches, encode_packet, next_pack_no,
}
use star_server.Session.Answer.{seal_packet, make_packet, end_pack_send_data, pack_data_with_crc16}
use star_server.Session.Numbers.{process_message_buffer-pack_ref}
use star_server.Session.Integrity.{check_crc-Damaged, seal_packet-crc_matches}
use star_server.Session.Thread.{client_thread}
use star_server.Session.Rounds.{IsOrdered, client_thread-IsOrdered}
use star_server.Session.Replying.{Sent, end_pack_send_data-Sent, end_pack_send_data-udp}

abbrev server : Server
server = record {
  protocol = Protocol.tcp;
  server_type = ServerType.always_on;
  max_connection = 50;
  cur_login_count = 3;
  data_buffer = 65536;
  crc_tables = stos_init_crc_table;
}

abbrev no_files : Disk
no_files = record { content = λ p. none; writable = λ p. true }

-- A packet of no messages, with the number 1: type 1, `fromID` 2, size 4.
abbrev header : List ℕ
header = 1 ∷ 0 ∷ 2 ∷ 0 ∷ 1 ∷ 0 ∷ 0 ∷ 0 ∷ 4 ∷ 0 ∷ 0 ∷ 0 ∷ []

abbrev rest : List ℕ
rest = 0 ∷ 0 ∷ 0 ∷ 0 ∷ []

abbrev socket : Wire
socket = record {
  incoming = header ++ rest;
  recvs = none ∷ some 16 ∷ some 9 ∷ [];
  outgoing = [];
  sends = some 12 ∷ [];
}

abbrev world : World
world = record { client = fresh; wire = socket; disk = no_files }

abbrev accepted : World
accepted = record {
  client = record fresh {
    recv_buffer = write (write fresh.recv_buffer 0 header) 12 rest;
    pack_ref = 1;
  };
  wire = record socket { incoming = []; recvs = [] };
  disk = no_files;
}

process_message_buffer-accepted :
    process_message_buffer server world ≡ Outcome.returned true accepted
unfolding process_message_buffer after_header route_type screen_packet receive_packet check_packet
    check_crc crc_matches encode_packet read_from read_loop process_message_packet stos_crc16
    crc_loop write get16 get32
process_message_buffer-accepted = refl

process_message_buffer-pack_ref_example :
    ((true ≡ true)
      × (accepted.client.pack_ref ≡ next_pack_no world)
      × (world.client.pack_ref < next_pack_no world))
    ⊎ ((true ≡ false) × (accepted.client.pack_ref ≡ world.client.pack_ref))
process_message_buffer-pack_ref_example =
    process_message_buffer-pack_ref server world accepted true process_message_buffer-accepted

-- Two bytes of data, 0 and 0, whose sum is 0.
abbrev zeros : Mem
zeros i = 0

abbrev flipped : Mem
flipped i = if i == 17 then 5 else 0

zeros-IsBytes : IsBytes zeros
zeros-IsBytes i = omega arith

flipped-IsBytes : IsBytes flipped
flipped-IsBytes i = ground arith

flipped-Damaged : Damaged zeros flipped 17
flipped-Damaged = record { differs = λ e. omega arith; elsewhere = λ i h k. ground arith }

zeros-crc_matches : crc_matches server zeros 6 ≡ true
unfolding crc_matches stos_crc16 crc_loop crc16_next stos_init_crc_table init_crc16_table fill
    table_bit get16
zeros-crc_matches = refl

abbrev damaged : World
damaged = with_client world (record fresh { recv_buffer = flipped })

check_crc-Damaged_example :
    check_crc server 1 1 6 damaged ≡ finish false (send_retrasmit server 1 damaged)
check_crc-Damaged_example =
    check_crc-Damaged server 1 1 6 17 zeros damaged refl zeros-IsBytes flipped-IsBytes
      zeros-crc_matches flipped-Damaged (omega arith) (omega arith) (omega arith)

-- A client that has one message of one byte queued.
abbrev queued_one : World
queued_one = record {
  client = record fresh { send_count = 1; send_msg_size = λ i. 1 };
  wire = record socket {
    sends =
        some 10
        ∷ some 1
        ∷ some 1
        ∷ some 1
        ∷ some 1
        ∷ some 1
        ∷ some 1
        ∷ some 1
        ∷ some 1
        ∷ some 1
        ∷ some 1
        ∷ some 1
        ∷ some 1
        ∷ some 1
        ∷ some 1
        ∷ some 1
        ∷ some 1
        ∷ some 1
        ∷ some 1
        ∷ [];
  };
  disk = no_files;
}

abbrev packet : Client
packet = seal_packet server (pack_data_with_packet queued_one.client)

seal_packet-crc_matches_example :
    crc_matches server packet.send_buffer (get32 packet.send_buffer 8) ≡ true
seal_packet-crc_matches_example =
    seal_packet-crc_matches server (pack_data_with_packet queued_one.client)

packet-size : packet.send_data_size ≤ passes queued_one.wire.sends
unfolding seal_packet pack_data_with_crc16 pack_data_with_packet pack_table pack_blocks pack_header
    packed_size sum_sizes passes write get32 toggle
packet-size = omega arith

make_packet_one : make_packet server queued_one ≡ some packet
unfolding make_packet
make_packet_one = refl

end_pack_send_data-Sent_example :
    (w' : World) × (end_pack_send_data server queued_one ≡ Outcome.returned true w')
    × Sent (with_client queued_one packet) (read packet.send_buffer 0 packet.send_data_size) w'
    × (w'.client.send_count ≡ 0)
    × (w'.client.cur_packet_no ≡ 0)
end_pack_send_data-Sent_example =
    end_pack_send_data-Sent server queued_one packet refl refl make_packet_one packet-size

abbrev udp_server : Server
udp_server = record server { protocol = Protocol.udp }

end_pack_send_data_left :
    end_pack_send_data udp_server world ≡ Outcome.returned true (set_offline world)
unfolding end_pack_send_data send_confirm_message send_or_leave write_to
end_pack_send_data_left = refl

end_pack_send_data-udp_example :
    ((set_offline world).client.online ≡ false)
    × ((set_offline world).wire.outgoing ≡ world.wire.outgoing)
end_pack_send_data-udp_example =
    end_pack_send_data-udp udp_server world (set_offline world) true refl end_pack_send_data_left

-- The handler frees the file; the socket is ready twice, and then not any more.
abbrev free_file : World → World
free_file w = with_client w (record w.client { file_data_ready = false })

client_thread-IsOrdered_example :
    IsOrdered 0 (client_thread server (λ w. w) free_file (true ∷ true ∷ false ∷ []) world)
client_thread-IsOrdered_example =
    client_thread-IsOrdered server (λ w. w) free_file (true ∷ true ∷ false ∷ []) world (λ w. refl)
      (λ w. refl)
