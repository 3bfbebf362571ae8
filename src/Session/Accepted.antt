-- ===== src/Session/Accepted.antt =====
-- From the socket to the messages: `processMessageBuffer` takes a well-formed packet of a client.
use star_server.Prelude.{
  ℕ, ◌^◌, ◌+◌, ◌*◌, ◌≤◌, ◌<◌, ◌≡◌, refl, ◌∙◌, List, ◌++◌, length, Mem, read, get16, get32, true,
  false, ltb, arith,
}
use star_server.Prelude.Writes.{get16_agree, get32_agree}
use star_server.Client.{client_default_max_block}
use star_server.Io.{Got}
use star_server.Io.Progress.{passes}
use star_server.Io.Complete.{IsOpen}
use star_server.Packet.{pack_header_size, sockmsg_packdatasize, process_message_packet}
use star_server.Packet.Blocks.{contents}
use star_server.Packet.Queue.{Block}
use star_server.Packet.Packed.{IsPacked}
use star_server.Packet.Messages.{messages_of}
use star_server.Packet.Layout.{tagged}
use star_server.Packet.Received.{Blocked, FirstZero, Receives, process_message_packet-messages}
use star_server.Packet.RoundTrip.{packet_length, IsPacked-agree}
use star_server.Session.State.{Server, World, Outcome, ServerType, datasize_size, with_client}
use star_server.Session.Register.{received}
use star_server.Session.Receive.{
  encode_packet, check_packet, receive_packet, screen_packet, route_type, after_header,
  process_message_buffer,
}
use star_server.Session.Accepting.{
  IsSound, crc_matches-agree, first, first_agrees, second, agrees, left_over, screen_packet-receive,
  check_packet-crc, check_crc-encode, encode_packet-messages,
}

-- The packet m of `size` bytes behind the first 12 has the blocks bs, which the server can take.
pub record HasBlocks (s : Server) (m : Mem) (size : ℕ) (bs : List Block) : Type 0 where
  pub packed : IsPacked m bs
  pub whole : packet_length bs ≤ datasize_size + size
  pub some_block : 0 < length bs
  pub few : length bs < 2 ^ 15
  pub table : pack_header_size + 2 * length bs ≤ s.data_buffer
  pub blocked : Blocked bs
  pub first_zero : FirstZero bs
  pub few_messages : length (messages_of (tagged 0 0 bs)) ≤ client_default_max_block

module _ (s : Server) (w : World) (m : Mem) (size : ℕ) (bs : List Block) (more : List ℕ)
    (always : s.server_type ≡ ServerType.always_on) (sound : IsSound s w.client.pack_ref m size)
    (has : HasBlocks s m size bs)
    (incoming : w.wire.incoming ≡ read m 0 (datasize_size + size) ++ more)
    (op : IsOpen w.wire.recvs) (calls : datasize_size + size ≤ passes w.wire.recvs) where
  abbrev got : Got
  got = (first s w m size more sound incoming op calls).got

  abbrev rest : Got
  rest = (second s w m size more sound incoming op calls).got

  -- The states behind the two reads.
  abbrev began : World
  began = received (with_client w (record w.client { recv_count = 0 })) got

  abbrev ready : World
  ready = received began rest

  same : (k : ℕ) → k < 12 + size → rest.memory k ≡ m k
  same = agrees s w m size more sound incoming op calls

  same_header : (k : ℕ) → k < 12 → got.memory k ≡ m k
  same_header = first_agrees s w m size more sound incoming op calls

  process-route : process_message_buffer s w ≡ route_type s began (get16 got.memory 0)
  unfolding process_message_buffer after_header
  process-route =
      rw
        (
          (first s w m size more sound incoming op calls).returns,
          (first s w m size more sound incoming op calls).size,
        )
        refl

  route-screen :
      route_type s began (get16 got.memory 0)
      ≡ screen_packet s began sockmsg_packdatasize (get16 m 2) (get32 m 4) size
  unfolding route_type
  route-screen =
      rw
        (
          get16_agree got.memory m 0 (λ k l r. same_header k (omega arith)) ∙ sound.type,
          get16_agree got.memory m 2 (λ k l r. same_header k (omega arith)),
          get32_agree got.memory m 4 (λ k l r. same_header k (omega arith)),
          get32_agree got.memory m 8 (λ k l r. same_header k (omega arith)) ∙ sound.sized,
        )
        refl

  receive-check :
      receive_packet s sockmsg_packdatasize (get32 m 4) size began
      ≡ check_packet s sockmsg_packdatasize (get32 m 4) size began rest
  unfolding receive_packet
  receive-check = rw (inside, (second s w m size more sound incoming op calls).returns) refl
    where
      inside : ltb s.data_buffer (datasize_size + size) ≡ false
      inside = ground (arith, sound.fits)

  screen-encode :
      screen_packet s began sockmsg_packdatasize (get16 m 2) (get32 m 4) size
      ≡ encode_packet s sockmsg_packdatasize (get32 m 4) ready
  screen-encode =
      screen_packet-receive s always began (get16 m 2) (get32 m 4) size sound.from_id
        sound.from_client sound.most
      ∙ receive-check
      ∙ check_packet-crc s always began (get32 m 4) size rest sound.later
          (second s w m size more sound incoming op calls).size
      ∙ check_crc-encode s always ready (get32 m 4) size sound.least sound.most sound.fits
          (crc_matches-agree s rest.memory m size sound.least sound.most same ∙ sound.sum)

  messages :
      Receives (process_message_packet s.data_buffer ready.client) (messages_of (tagged 0 0 bs))
  messages =
      process_message_packet-messages s.data_buffer ready.client bs
        (IsPacked-agree m rest.memory bs (λ k l. same k (omega (arith, l, has.whole))) has.packed)
        has.some_block has.table has.few has.blocked has.first_zero has.few_messages

-- Let the type of a packet m be that of messages alone, its sender a client's number, its number
-- later than the last one, its size in bounds of the buffer, and let its CRC match. Let it have the
-- blocks bs, fewer than 2^15 and one at least, none longer than 1024 bytes, the first with packet
-- number 0, which make 64 messages at most. It stands in the socket of a server of lasting
-- connections, with whatever follows it, and the calls of `recv` that do not fail pass something
-- each and are as many as it has bytes. Then `processMessageBuffer` returns 0: the messages that
-- are found are those of the blocks, the number of the last packet is this one's, and what follows
-- is left in the socket.
pub process_message_buffer-takes :
    (s : Server) (w : World) (m : Mem) (size : ℕ) (bs : List Block) (more : List ℕ)
    → s.server_type ≡ ServerType.always_on
    → IsSound s w.client.pack_ref m size
    → HasBlocks s m size bs
    → w.wire.incoming ≡ read m 0 (datasize_size + size) ++ more
    → IsOpen w.wire.recvs
    → datasize_size + size ≤ passes w.wire.recvs
    → (w' : World) × (process_message_buffer s w ≡ Outcome.returned true w')
      × (contents w'.client.recv_buffer w'.client.recv_msg w'.client.recv_msg_size
            w'.client.recv_count
          ≡ messages_of (tagged 0 0 bs))
      × (w'.client.pack_ref ≡ get32 m 4)
      × (w'.wire.incoming ≡ more)
process_message_buffer-takes s w m size bs more always sound has incoming op calls =
    let (c, e, found) = messages s w m size bs more always sound has incoming op calls in
    (
      with_client (ready s w m size bs more always sound has incoming op calls)
          (record c { pack_ref = get32 m 4 }),
      process-route s w m size bs more always sound has incoming op calls
          ∙ route-screen s w m size bs more always sound has incoming op calls
          ∙ screen-encode s w m size bs more always sound has incoming op calls
          ∙ encode_packet-messages s always
              (ready s w m size bs more always sound has incoming op calls) (get32 m 4) c e,
      found,
      refl,
      left_over s w m size more sound incoming op calls,
    )
