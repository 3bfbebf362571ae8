-- ===== src/Session/Taken.antt =====
-- A packet of one message is taken.
use star_server.Prelude.{
  ℕ, replicate, ◌≡◌, refl, List, [], ◌∷◌, ◌++◌, none, some, true, Mem, read, write, get16, get32,
  arith,
}
use star_server.Crc.{
  stos_crc16, stos_init_crc_table, crc_loop, crc16_next, init_crc16_table, fill, table_bit,
}
use star_server.Io.Progress.{passes}
use star_server.Io.Complete.{IsOpen, IsOpen-replicate}
use star_server.Packet.Examples.{fresh}
use star_server.Io.{Protocol}
use star_server.Packet.Blocks.{contents, messages_from}
use star_server.Packet.Queue.{Block}
use star_server.Packet.Messages.{messages_of}
use star_server.Packet.Layout.{tagged, next_tag, bytes_of}
use star_server.Session.State.{World, Server, ServerType, Outcome}
use star_server.Session.Receive.{crc_matches, process_message_buffer}
use star_server.Session.Accepting.{IsSound}
use star_server.Session.Accepted.{HasBlocks, process_message_buffer-takes}

-- Type 1, from client 2, number 5, 7 bytes behind the first 12: the CRC, one block, its size and its byte.
abbrev bytes : List ℕ
bytes = 1 ∷ 0 ∷ 2 ∷ 0 ∷ 5 ∷ 0 ∷ 0 ∷ 0 ∷ 7 ∷ 0 ∷ 0 ∷ 0 ∷ 211 ∷ 51 ∷ 1 ∷ 0 ∷ 1 ∷ 0 ∷ 65 ∷ []

abbrev packet : Mem
packet = write (λ k. 0) 0 bytes

abbrev block : List Block
block = (0, 65 ∷ []) ∷ []

abbrev server : Server
server = record {
  protocol = Protocol.tcp;
  server_type = ServerType.always_on;
  max_connection = 50;
  cur_login_count = 3;
  data_buffer = 65536;
  crc_tables = stos_init_crc_table;
}

-- The bytes arrive in pieces of at most 5, behind a call that fails, and two more bytes are behind them.
abbrev arriving : World
arriving = record {
  client = fresh;
  wire = record {
    incoming = read packet 0 19 ++ 7 ∷ 7 ∷ [];
    recvs = none ∷ replicate 19 (some 5);
    outgoing = [];
    sends = [];
  };
  disk = record { content = λ q. none; writable = λ q. true };
}

packet-IsSound : IsSound server 0 packet 7
unfolding write get16 get32 crc_matches stos_crc16 crc_loop crc16_next stos_init_crc_table
    init_crc16_table fill table_bit
packet-IsSound = record {
  type = refl;
  from_id = omega arith;
  from_client = omega arith;
  later = omega arith;
  sized = refl;
  least = omega arith;
  most = omega arith;
  fits = omega arith;
  sum = refl;
}

packet-HasBlocks : HasBlocks server packet 7 block
unfolding write get16 tagged next_tag bytes_of messages_of messages_from
packet-HasBlocks = record {
  packed = record { count = refl; table = refl; payload = refl };
  whole = omega arith;
  some_block = omega arith;
  few = omega arith;
  table = omega arith;
  blocked = (omega arith, _);
  first_zero = refl;
  few_messages = omega arith;
}

process_message_buffer-takes_example :
    (w' : World) × (process_message_buffer server arriving ≡ Outcome.returned true w')
    × (contents w'.client.recv_buffer w'.client.recv_msg w'.client.recv_msg_size
          w'.client.recv_count
        ≡ messages_of (tagged 0 0 block))
    × (w'.client.pack_ref ≡ get32 packet 4)
    × (w'.wire.incoming ≡ 7 ∷ 7 ∷ [])
unfolding IsOpen passes
process_message_buffer-takes_example =
    process_message_buffer-takes server arriving packet 7 block (7 ∷ 7 ∷ []) refl packet-IsSound
      packet-HasBlocks refl (IsOpen-replicate 19 5 (omega arith)) (omega arith)
