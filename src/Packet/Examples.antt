-- ===== src/Packet/Examples.antt =====
-- The packet theorems on a client with short messages.
use star_server.Prelude.{
  if◌then◌else◌, ltb, u16, ◌+◌, ℕ, ◌-◌, ◌≡◌, refl, List, [], ◌∷◌, ◌++◌, map, false, true, take, u8,
  negsuc, arith,
}
use star_server.Client.{Client}
use star_server.Packet.{
  put_block, fill_blocks, rest_part, block_part, send_data, pack_data_with_packet,
  process_message_packet, max_block,
}
use star_server.Packet.Queue.{queued, cut, chunks}
use star_server.Packet.Send.{IsQueue, send_data-queues, send_data-IsQueue}
use star_server.Packet.Layout.{tagged}
use star_server.Packet.Packed.{IsPacked, pack_data_with_packet-IsPacked}
use star_server.Packet.Blocks.{messages_from}
use star_server.Packet.Messages.{messages_of}
use star_server.Packet.Received.{Receives, process_message_packet-messages}
use star_server.Packet.Rejoin.{queue_of}
use star_server.Packet.RoundTrip.{IsFresh, send_all, send_all-pack-process}

abbrev pub fresh : Client
fresh = record {
  online = true;
  thread = true;
  idx = 3;
  room_idx = negsuc 0;
  send_data_size = 0;
  send_done = false;
  recv_buffer = λ i. 0;
  send_buffer = λ i. 0;
  pack_ref = 0;
  send_count = 0;
  recv_count = 0;
  cur_packet_no = 0;
  send_packet_no = λ i. 0;
  send_msg_size = λ i. 0;
  recv_msg = λ i. 0;
  recv_msg_size = λ i. 0;
  big_data_ready = false;
  big_data_read_size = 0;
  big_data_read_size_done = 0;
  file_data_ready = false;
  file_data_name = [];
  file_send_name = [];
  file_data_sending = false;
  big_data_send_size = 0;
  big_data_send_size_done = 0;
}

fresh-IsQueue : IsQueue fresh
fresh-IsQueue = record { sized = λ i h. elim h [ ]; bounded = omega arith }

pub fresh-IsFresh : IsFresh fresh
fresh-IsFresh = record { nothing = refl; from_zero = refl }

abbrev pub messages : List (List ℕ)
messages = (10 ∷ 20 ∷ []) ∷ (30 ∷ []) ∷ []

abbrev sent : Client
sent = send_all fresh messages

sent-count : sent.send_count ≡ 2
unfolding send_all send_data fill_blocks put_block rest_part
sent-count = refl

abbrev pub receiver : Client
receiver = record fresh { recv_buffer = (pack_data_with_packet sent).send_buffer }

send_data-queues_example :
    (queued (send_data fresh (10 ∷ 20 ∷ []))
      ≡ queued fresh ++ map (λ b. (u8 0, b)) (take (max_block - 0) (cut (10 ∷ 20 ∷ []))))
    × ((send_data fresh (10 ∷ 20 ∷ [])).cur_packet_no
        ≡ (if ltb 0 max_block then u16 (0 + 1) else 0))
    × (send_data fresh (10 ∷ 20 ∷ [])
        ≡ (if ltb 0 max_block then send_data fresh (10 ∷ 20 ∷ []) else fresh))
send_data-queues_example = send_data-queues fresh (10 ∷ 20 ∷ []) fresh-IsQueue

abbrev queue : Client
queue = send_data fresh (10 ∷ 20 ∷ [])

pack_data_with_packet-IsPacked_example :
    IsPacked (pack_data_with_packet queue).send_buffer (queued queue)
pack_data_with_packet-IsPacked_example =
    pack_data_with_packet-IsPacked queue
      (send_data-IsQueue fresh (10 ∷ 20 ∷ []) fresh-IsQueue).0.sized
      (send_data-IsQueue fresh (10 ∷ 20 ∷ []) fresh-IsQueue).0.bounded

send_all-pack-process_example : Receives (process_message_packet 1000 receiver) messages
unfolding chunks
send_all-pack-process_example =
    send_all-pack-process fresh receiver messages 1000 fresh-IsFresh (omega arith, (omega arith, _))
      (omega arith) (unfold queue_of cut in omega arith) (unfold queue_of cut in omega arith)
      (λ k h. refl)

abbrev reader : Client
reader = record fresh { recv_buffer = (pack_data_with_packet queue).send_buffer }

process_message_packet-messages_example :
    Receives (process_message_packet 1000 reader) (messages_of (tagged 0 0 (queued queue)))
unfolding send_data fill_blocks put_block rest_part block_part tagged messages_of messages_from
process_message_packet-messages_example =
    process_message_packet-messages 1000 reader (queued queue)
      (pack_data_with_packet-IsPacked queue
        (send_data-IsQueue fresh (10 ∷ 20 ∷ []) fresh-IsQueue).0.sized
        (send_data-IsQueue fresh (10 ∷ 20 ∷ []) fresh-IsQueue).0.bounded)
      (omega arith) (omega arith) (omega arith) (omega arith, _) refl (omega arith)
