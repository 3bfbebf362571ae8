-- ===== src/Packet/RoundTrip.antt =====
-- From `STSV_SendData` on one side to `_processMessagePacket` on the other.
use mathlib.Core.List.{append-nil, append_assoc}
use mathlib.Core.Path.{subst}
use native.Mathlib.Nat.{mod-eq_of_lt}
use star_server.Prelude.{
  take_all, ℕ, zero, suc, ◌+◌, ◌-◌, ◌*◌, ◌≤◌, ◌<◌, ◌≡◌, refl, sym, ap, ap₂, ◌∙◌, List, [], ◌∷◌,
  ◌++◌, map, lt→ltb, length, length-append, drop, length-take, u8, u16, Mem, arith,
}
use star_server.Prelude.Writes.{read_agree}
use star_server.Client.{Client, client_default_buffer}
use star_server.Packet.{
  send_data, pack_data_with_packet, process_message_packet, pack_header_size, max_block,
}
use star_server.Packet.Queue.{Block, blocks, queued, chunks, cut}
use star_server.Packet.Send.{IsQueue, send_data-queues, send_data-IsQueue}
use star_server.Packet.Layout.{tagged, bytes_of, get16-agree}
use star_server.Packet.Packed.{
  IsPacked, pack_data_with_packet-IsPacked, length-blocks, read_table-agree,
}
use star_server.Packet.Messages.{messages_of}
use star_server.Packet.Rejoin.{queue_of, AllNonempty, messages_of-queue_of}
use star_server.Packet.Received.{Blocked, FirstZero, Receives, process_message_packet-messages}

-- The calls of `STSV_SendData` for one message after another.
unfoldable pub send_all : Client → List (List ℕ) → Client
send_all c [] = c
send_all c (bs ∷ rest) = send_all (send_data c bs) rest

length-map {ℓ ℓ'} :
    {A : Type ℓ} {B : Type ℓ'} (f : A → B) (xs : List A) → length (map f xs) ≡ length xs
length-map f [] = refl
length-map f (x ∷ xs) = ap suc (length-map f xs)

length-queued : (c : Client) → length (queued c) ≡ c.send_count
length-queued c = length-blocks c.send_buffer c.send_msg_size c.send_packet_no 0 c.send_count

length-cut : (bs : List ℕ) → 0 < length bs → 0 < length (cut bs)
unfolding cut chunks
length-cut [] h = absurd (omega arith)
length-cut (b ∷ bs) h = omega arith

length-queue_of :
    (p : ℕ) (bs : List ℕ) (ms : List (List ℕ))
    → length (queue_of p (bs ∷ ms)) ≡ length (cut bs) + length (queue_of (p + 1) ms)
unfolding queue_of
length-queue_of p bs ms =
    length-append (map (λ b. (p, b)) (cut bs)) (queue_of (p + 1) ms)
    ∙ ap (λ n. n + length (queue_of (p + 1) ms)) (length-map (λ b. (p, b)) (cut bs))

pub length-messages :
    (p : ℕ) (ms : List (List ℕ)) → AllNonempty ms → length ms ≤ length (queue_of p ms)
length-messages p [] e = omega arith
length-messages p (bs ∷ ms) e =
    omega (arith, length-queue_of p bs ms, length-cut bs e.0, length-messages (p + 1) ms e.1)

-- A message for which there is room is queued whole.
queued-one :
    (c : Client) (p : ℕ) (bs : List ℕ)
    → IsQueue c
    → c.cur_packet_no ≡ p
    → p < 256
    → c.send_count + length (cut bs) ≤ max_block
    → queued (send_data c bs) ≡ queued c ++ map (λ b. (p, b)) (cut bs)
queued-one c p bs q e l room =
    (send_data-queues c bs q).0
    ∙ ap₂ (λ n t. queued c ++ map (λ b. (n, b)) t) (ap u8 e ∙ mod-eq_of_lt (omega arith))
        (take_all (max_block - c.send_count) (cut bs) (omega arith))

queued-send_all :
    (c : Client) (p : ℕ) (ms : List (List ℕ))
    → IsQueue c
    → c.cur_packet_no ≡ p
    → p + length ms ≤ 256
    → AllNonempty ms
    → c.send_count + length (queue_of p ms) ≤ max_block
    → (queued (send_all c ms) ≡ queued c ++ queue_of p ms) × IsQueue (send_all c ms)
unfolding send_all queue_of
queued-send_all c p [] q e l ne room = (sym (append-nil (queued c)), q)
queued-send_all c p (bs ∷ ms) q e l ne room =
    let rest =
      queued-send_all (send_data c bs) (p + 1) ms kept numbered (omega arith) ne.1
        (omega (arith, split, count)) in
    (
      rest.0
          ∙ ap (λ t. t ++ queue_of (p + 1) ms) one
          ∙ append_assoc (queued c) (map (λ b. (p, b)) (cut bs)) (queue_of (p + 1) ms),
      rest.1,
    )
  where
    split : length (queue_of p (bs ∷ ms)) ≡ length (cut bs) + length (queue_of (p + 1) ms)
    split = length-queue_of p bs ms

    one : queued (send_data c bs) ≡ queued c ++ map (λ b. (p, b)) (cut bs)
    one = queued-one c p bs q e (omega arith) (omega (arith, split))

    kept : IsQueue (send_data c bs)
    kept = (send_data-IsQueue c bs q).0

    numbered : (send_data c bs).cur_packet_no ≡ p + 1
    numbered =
        (send_data-IsQueue c bs q).1
        ∙ rw (lt→ltb c.send_count max_block (omega (arith, split, length-cut bs ne.0)))
            (ap (λ n. u16 (n + 1)) e ∙ mod-eq_of_lt (omega arith))

    count : (send_data c bs).send_count ≡ c.send_count + length (cut bs)
    count =
        sym (length-queued (send_data c bs))
        ∙ ap length one
        ∙ length-append (queued c) (map (λ b. (p, b)) (cut bs))
        ∙ ap₂ ◌+◌ (length-queued c) (length-map (λ b. (p, b)) (cut bs))

Blocked-chunks :
    (f p : ℕ) (bs : List ℕ) (rest : List Block)
    → Blocked rest
    → Blocked (map (λ b. (p, b)) (chunks f bs) ++ rest)
unfolding chunks
Blocked-chunks zero p bs rest h = h
Blocked-chunks (suc f) p [] rest h = h
Blocked-chunks (suc f) p (b ∷ bs) rest h = (
  omega (arith, length-take client_default_buffer (b ∷ bs)),
  Blocked-chunks f p (drop client_default_buffer (b ∷ bs)) rest h,
)

Blocked-queue_of : (p : ℕ) (ms : List (List ℕ)) → Blocked (queue_of p ms)
unfolding queue_of cut
Blocked-queue_of p [] = _
Blocked-queue_of p (bs ∷ ms) =
    Blocked-chunks (length bs) p bs (queue_of (p + 1) ms) (Blocked-queue_of (p + 1) ms)

FirstZero-queue_of : (ms : List (List ℕ)) → AllNonempty ms → FirstZero (queue_of 0 ms)
unfolding queue_of cut chunks
FirstZero-queue_of [] e = _
FirstZero-queue_of ([] ∷ ms) e = absurd (omega arith)
FirstZero-queue_of ((b ∷ bs) ∷ ms) e = refl

-- The bytes of a packet of these blocks.
abbrev pub packet_length : List Block → ℕ
packet_length bs = pack_header_size + 2 * length bs + length (bytes_of bs)

pub IsPacked-agree :
    (m m' : Mem) (bs : List Block)
    → ((k : ℕ) → k < packet_length bs → m' k ≡ m k)
    → IsPacked m bs
    → IsPacked m' bs
IsPacked-agree m m' bs h p = record {
  count = get16-agree m' m 14 (h 14 (omega arith)) (h 15 (omega arith)) ∙ p.count;
  table =
      read_table-agree m' m pack_header_size (length bs) (λ k lo hi. h k (omega arith)) ∙ p.table;
  payload = read_agree m' m _ _ (λ k lo hi. h k (omega arith)) ∙ p.payload;
}

-- A client that has nothing queued and counts its messages from 0.
pub record IsFresh (c : Client) : Type 0 where
  pub nothing : c.send_count ≡ 0
  pub from_zero : c.cur_packet_no ≡ 0

-- Messages, none of them empty, are sent with `STSV_SendData` by a client that has nothing queued,
-- and `_PackDataWithPacket` packs them; together they take at most 62 blocks. A receiver whose
-- buffer holds that packet returns from `_processMessagePacket`, and has received the messages, in
-- order and byte for byte, long ones joined again.
pub send_all-pack-process :
    (c r : Client) (ms : List (List ℕ)) (data_buffer : ℕ)
    → IsFresh c
    → AllNonempty ms
    → 0 < length ms
    → length (queue_of 0 ms) ≤ max_block
    → pack_header_size + 2 * length (queue_of 0 ms) ≤ data_buffer
    → ((k : ℕ)
        → k < packet_length (queue_of 0 ms)
        → r.recv_buffer k ≡ (pack_data_with_packet (send_all c ms)).send_buffer k)
    → Receives (process_message_packet data_buffer r) ms
send_all-pack-process c r ms data_buffer fresh ne pos few fits same =
    subst (Receives (process_message_packet data_buffer r)) joined (
      process_message_packet-messages data_buffer r (queue_of 0 ms)
        (IsPacked-agree _ r.recv_buffer (queue_of 0 ms) same packed) (omega (arith, messages)) fits
        (omega arith) (Blocked-queue_of 0 ms) (FirstZero-queue_of ms ne)
        (omega (arith, ap length joined, messages)))
  where
    joined : messages_of (tagged 0 0 (queue_of 0 ms)) ≡ ms
    joined = messages_of-queue_of ms ne

    messages : length ms ≤ length (queue_of 0 ms)
    messages = length-messages 0 ms ne

    empty_queue : IsQueue c
    empty_queue = record {
      sized = λ i l. absurd (omega (arith, fresh.nothing));
      bounded = omega (arith, fresh.nothing);
    }

    sent : (queued (send_all c ms) ≡ queued c ++ queue_of 0 ms) × IsQueue (send_all c ms)
    sent =
        queued-send_all c 0 ms empty_queue fresh.from_zero (omega (arith, messages)) ne
          (omega (arith, fresh.nothing))

    nothing_queued : queued c ≡ []
    nothing_queued = ap (blocks c.send_buffer c.send_msg_size c.send_packet_no 0) fresh.nothing

    packed : IsPacked (pack_data_with_packet (send_all c ms)).send_buffer (queue_of 0 ms)
    packed =
        subst (IsPacked (pack_data_with_packet (send_all c ms)).send_buffer)
          (sent.0 ∙ ap (λ q. q ++ queue_of 0 ms) nothing_queued)
          (pack_data_with_packet-IsPacked (send_all c ms) sent.1.sized sent.1.bounded)
