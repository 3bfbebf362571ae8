-- ===== src/Handler/Visiting.antt =====
-- The handler sees the messages that were sent.
use star_server.Prelude.{
  ℕ, zero, suc, ◌+◌, ◌*◌, ◌^◌, ◌≤◌, ◌<◌, ◌≡◌, refl, ◌∙◌, sym, ap, List, [], ◌∷◌, ◌++◌, some, length,
  length-append, Mem, read, set_at, arith,
}
use mathlib.Core.Path.{subst}
use mathlib.Core.List.{append-nil, append_assoc}
use star_server.Prelude.Writes.{set_at_self}
use star_server.Client.{Client}
use star_server.Packet.{
  pack_data_with_packet, process_message_packet, pack_header_size, max_block, rounds16,
}
use star_server.Packet.Blocks.{contents}
use star_server.Packet.Rejoin.{queue_of, AllNonempty}
use star_server.Packet.RoundTrip.{
  send_all, IsFresh, packet_length, length-messages, send_all-pack-process,
}
use star_server.Handler.{get_data, get_data_count, visit, visit_all}

length-contents : (m : Mem) (msg size : ℕ → ℕ) (n : ℕ) → length (contents m msg size n) ≡ n
length-contents m msg size zero = refl
length-contents m msg size (suc n) = omega (
  arith,
  length-append (contents m msg size n) (read m (msg n) (size n) ∷ []),
  length-contents m msg size n,
)

-- The rounds behind the first i see the rest of the messages.
visit-contents :
    (clients : ℕ → Client) (idx i n : ℕ)
    → contents (clients idx).recv_buffer (clients idx).recv_msg (clients idx).recv_msg_size i
        ++ visit clients idx i n
      ≡ contents
          (clients idx).recv_buffer
          (clients idx).recv_msg
          (clients idx).recv_msg_size
          (i + n)
unfolding visit get_data
visit-contents clients idx i zero =
    append-nil _
    ∙ ap (contents (clients idx).recv_buffer (clients idx).recv_msg (clients idx).recv_msg_size)
        {x = i} {y = i + 0} (omega arith)
visit-contents clients idx i (suc n) =
    sym (
      append_assoc _
        (read (clients idx).recv_buffer ((clients idx).recv_msg i) ((clients idx).recv_msg_size i)
          ∷ [])
        (visit clients idx (i + 1) n))
    ∙ ap
        (λ k.
          contents (clients idx).recv_buffer (clients idx).recv_msg (clients idx).recv_msg_size k
          ++ visit clients idx (i + 1) n)
        {x = suc i} {y = i + 1} (omega arith)
    ∙ visit-contents clients idx (i + 1) n
    ∙ ap (contents (clients idx).recv_buffer (clients idx).recv_msg (clients idx).recv_msg_size)
        {x = i + 1 + n} {y = i + suc n} (omega arith)

rounds16_lem : (n : ℕ) → n < 2 ^ 15 → rounds16 n ≡ n
rounds16_lem n h = ground arith

visit_all-contents :
    (clients : ℕ → Client) (idx : ℕ) (c : Client) (ms : List (List ℕ))
    → clients idx ≡ c
    → contents c.recv_buffer c.recv_msg c.recv_msg_size c.recv_count ≡ ms
    → length ms < 2 ^ 15
    → visit_all clients idx ≡ ms
unfolding visit_all get_data_count
visit_all-contents clients idx c ms e found few =
    ap (visit clients idx 0) (rounds16_lem (clients idx).recv_count count)
    ∙ visit-contents clients idx 0 (clients idx).recv_count
    ∙ ap (contents (clients idx).recv_buffer (clients idx).recv_msg (clients idx).recv_msg_size)
        {x = 0 + (clients idx).recv_count} {y = (clients idx).recv_count} (omega arith)
    ∙ found'
  where
    found' :
        contents
          (clients idx).recv_buffer
          (clients idx).recv_msg
          (clients idx).recv_msg_size
          (clients idx).recv_count
        ≡ ms
    found' =
        subst (λ k. contents k.recv_buffer k.recv_msg k.recv_msg_size k.recv_count ≡ ms) (sym e)
          found

    count : (clients idx).recv_count < 2 ^ 15
    count = omega (
      arith,
      few,
      ap length found',
      length-contents (clients idx).recv_buffer (clients idx).recv_msg (clients idx).recv_msg_size
          (clients idx).recv_count,
    )

-- Messages, none of them empty, are sent with `STSV_SendData` by a client that has nothing queued and
-- packed by `_PackDataWithPacket`; together they take at most 62 blocks. A server whose buffer for client
-- idx holds that packet returns from `_processMessagePacket`, and the loop of the handler over
-- `STSV_GetDataCount` and `STSV_GetData` is given the messages, in order and byte for byte.
pub visit_all-sent :
    (c r : Client) (ms : List (List ℕ)) (data_buffer : ℕ) (clients : ℕ → Client) (idx : ℕ)
    → IsFresh c
    → AllNonempty ms
    → 0 < length ms
    → length (queue_of 0 ms) ≤ max_block
    → pack_header_size + 2 * length (queue_of 0 ms) ≤ data_buffer
    → ((k : ℕ)
        → k < packet_length (queue_of 0 ms)
        → r.recv_buffer k ≡ (pack_data_with_packet (send_all c ms)).send_buffer k)
    → (r' : Client) × (process_message_packet data_buffer r ≡ some r')
      × (visit_all (set_at clients idx r') idx ≡ ms)
unfolding visit_all get_data_count
visit_all-sent c r ms data_buffer clients idx fresh ne pos few fits same =
    let (r', e, found) = send_all-pack-process c r ms data_buffer fresh ne pos few fits same in
    (
      r',
      e,
      visit_all-contents (set_at clients idx r') idx r' ms (set_at_self clients idx r') found
          (omega (arith, few, length-messages 0 ms ne)),
    )
