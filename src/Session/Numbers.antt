-- ===== src/Session/Numbers.antt =====
-- `processMessageBuffer` and the number of the last packet that was taken.
use mathlib.Core.Path.{subst}
use star_server.Prelude.{
  ℕ, ◌+◌, ◌^◌, ◌<◌, ◌≡◌, refl, ◌∙◌, ◌⊎◌, inl, inr, Bool, true, false, Bool-cases, List, Option,
  none, some, if◌then◌else◌, if_both, OnSome, ltb, not, nonzero, bit_and, ◌||◌, leb, ◌==◌, get16,
  get32, arith,
}
use star_server.Client.{Client}
use star_server.Packet.{process_message_packet}
use star_server.Packet.Kept.{HasRef, process_message_packet-HasRef}
use star_server.Io.{Got, read_from, write_to}
use star_server.Transfer.Receive.{Received, process_message_big_data, process_message_file_data}
use star_server.Transfer.Receiving.{KeepsRef, process_big_data-KeepsRef, process_file_data-KeepsRef}
use star_server.Session.State.{
  refuse, set_offline, sockmsg_alldata, max_buffer, datasize_size, Server, World, Outcome,
  send_or_leave, send_retrasmit, finish, on_read, with_client,
}
use star_server.Session.Register.{count_of, answer_register, register, retrasmit, received}
use star_server.Session.Receive.{
  encode_packet, when, message_part, big_data_part, file_data_part, after_message, after_big_data,
  take_packet, of_process, of_received, check_crc, check_packet, receive_packet, after_header,
  screen_packet, route_type, process_message_buffer, number_in, next_pack_no,
}
use star_server.Session.Outcomes.{
  Ensures, Ensures-fault, Ensures-returned, on_read-Ensures, finish-Ensures, and_then-Ensures,
  Ensures-result,
}

-- The number stays `n`, and the call returns -1.
abbrev Refused : ℕ → Bool → World → Type 0
Refused n ok w = (ok ≡ false) × (w.client.pack_ref ≡ n)

-- The packet is taken: it is later than `n`, and its number is kept. Or it is refused.
abbrev Later : ℕ → ℕ → Bool → World → Type 0
Later n pack_no ok w =
    ((ok ≡ true) × (w.client.pack_ref ≡ pack_no) × (n < pack_no)) ⊎ Refused n ok w

module _ (s : Server) where
  send-Refused :
      (w : World) (bs : List ℕ) (p : Bool → World → Type 0)
      → ((w' : World) → w'.client.pack_ref ≡ w.client.pack_ref → p false w')
      → Ensures p (finish false (send_or_leave s w bs))
  unfolding send_or_leave
  send-Refused w bs p h =
      finish-Ensures p false (write_to s.protocol w.wire bs) _
        (λ put. if_both (λ w'. p false w') (put.size == 0) _ _ (h _ refl) (h _ refl))

  register-Later : (w : World) (k : ℕ) → Ensures (Later w.client.pack_ref k) (register s w)
  unfolding register answer_register
  register-Later w k =
      on_read-Ensures Goal
        (read_from w.wire w.client.recv_buffer 12 (get32 w.client.recv_buffer 8) true) _
        (λ got. if_both (Ensures Goal) _ _ _ (Ensures-fault Goal) (
          if_both (Ensures Goal) _ _ _ (Ensures-returned Goal _ _ (inr (refl, refl)))
            (send-Refused _ _ Goal (λ w' e. inr (refl, e)))))
    where
      Goal : Bool → World → Type 0
      Goal = Later w.client.pack_ref k

  retrasmit-Later : (w : World) (k : ℕ) → Ensures (Later w.client.pack_ref k) (retrasmit s w)
  unfolding retrasmit
  retrasmit-Later w k = send-Refused w _ (Later w.client.pack_ref k) (λ w' e. inr (refl, e))

  -- The steps of a packet that passed the checks.
  module _ (n k : ℕ) (later : n < k) where
    abbrev Goal : Bool → World → Type 0
    Goal = Later n k

    abbrev Step : Outcome → Type 0
    Step = Ensures (λ ok w. if ok then w.client.pack_ref ≡ n else Goal false w)

    of_process-Step : (o : Option Client) (w : World) → OnSome (HasRef n) o → Step (of_process o w)
    unfolding Ensures OnSome
    of_process-Step none w h = _
    of_process-Step (some c) w h = h

    of_received-Step :
        (o : Option Received) (w : World) → OnSome (KeepsRef n) o → Step (of_received o w)
    unfolding Ensures OnSome
    of_received-Step none w h = _
    of_received-Step (some r) w h = elim (Bool-cases r.ok) [
      | inl good ↦ rw good h
      | inr bad ↦ rw bad (inr (refl, h))
    ]

    when-Step :
        (b : Bool) (step : World → Outcome) (w : World)
        → w.client.pack_ref ≡ n
        → Step (step w)
        → Step (when b step w)
    unfolding Ensures
    when-Step true step w e h = h
    when-Step false step w e h = e

    abbrev Kept : World → Type 0
    Kept w = w.client.pack_ref ≡ n

    file_data_part-Step : (type : ℕ) (w : World) → Kept w → Step (file_data_part s type w)
    file_data_part-Step type w e =
        when-Step _ (λ w. of_received (process_message_file_data s.data_buffer w.client w.disk) w) w
          e
          (of_received-Step _ w (
            subst
              (λ r. OnSome (KeepsRef r) (process_message_file_data s.data_buffer w.client w.disk)) e
              (process_file_data-KeepsRef s.data_buffer w.client w.disk)))

    big_data_part-Step : (type : ℕ) (w : World) → Kept w → Step (big_data_part s type w)
    big_data_part-Step type w e =
        when-Step _ (λ w. of_received (process_message_big_data s.data_buffer w.client w.disk) w) w
          e
          (of_received-Step _ w (
            subst
              (λ r. OnSome (KeepsRef r) (process_message_big_data s.data_buffer w.client w.disk)) e
              (process_big_data-KeepsRef s.data_buffer w.client w.disk)))

    message_part-Step : (type : ℕ) (w : World) → Kept w → Step (message_part s type w)
    message_part-Step type w e =
        when-Step _ (λ w. of_process (process_message_packet s.data_buffer w.client) w) w e
          (of_process-Step _ w (
            subst (λ r. OnSome (HasRef r) (process_message_packet s.data_buffer w.client)) e
              (process_message_packet-HasRef s.data_buffer w.client)))

    encode_packet-Later :
        (type : ℕ) (w : World) → w.client.pack_ref ≡ n → Ensures Goal (encode_packet s type k w)
    unfolding encode_packet
    encode_packet-Later type w e =
        and_then-Ensures Goal Kept (message_part s type w) (after_message s type k)
          (λ w e.
            and_then-Ensures Goal Kept (big_data_part s type w) (after_big_data s type k)
              (λ w e.
                and_then-Ensures Goal Kept (file_data_part s type w) (take_packet k)
                  (λ w e. Ensures-returned Goal true _ (inl (refl, refl, later)))
                  (file_data_part-Step type w e))
              (big_data_part-Step type w e))
          (message_part-Step type w e)

    check_crc-Later :
        (type size : ℕ) (w : World)
        → w.client.pack_ref ≡ n
        → Ensures Goal (check_crc s type k size w)
    unfolding check_crc send_retrasmit
    check_crc-Later type size w e = if_both (Ensures Goal) _ _ _ (Ensures-fault Goal) (
        if_both (Ensures Goal) _ _ _ (encode_packet-Later type w e)
          (send-Refused w _ Goal (λ w' e'. inr (refl, e' ∙ e))))

  check_packet-Later :
      (type k size : ℕ) (w : World) (got : Got)
      → Ensures (Later w.client.pack_ref k) (check_packet s type k size w got)
  unfolding check_packet send_retrasmit
  check_packet-Later type k size w got = elim (Bool-cases (leb k w.client.pack_ref)) [
    | inl old ↦ rw old (Ensures-returned Goal' _ _ (inr (refl, refl)))
    | inr new ↦ rw new (
        if_both (Ensures Goal') _ _ _ (Ensures-returned Goal' _ _ (inr (refl, refl))) (
          if_both (Ensures Goal') _ _ _
            (send-Refused (received w got) _ Goal' (λ w' e. inr (refl, e)))
            (check_crc-Later w.client.pack_ref k (ground arith) type size (received w got) refl)))
  ]
    where
      Goal' : Bool → World → Type 0
      Goal' = Later w.client.pack_ref k

  screen_packet-Later :
      (w : World) (type from_id k size : ℕ)
      → Ensures (Later w.client.pack_ref k) (screen_packet s w type from_id k size)
  unfolding screen_packet receive_packet
  screen_packet-Later w type from_id k size =
      if_both (Ensures Goal') (leb (2 ^ 15) from_id || leb s.max_connection from_id)
        (refuse (set_offline w)) _ (Ensures-returned Goal' _ _ (inr (refl, refl)))
        (if_both (Ensures Goal') (not (nonzero (bit_and type sockmsg_alldata))) (refuse w) _
          (Ensures-returned Goal' _ _ (inr (refl, refl)))
          (if_both (Ensures Goal') (leb (2 ^ 31) size || ltb max_buffer size)
            (refuse (set_offline w)) _ (Ensures-returned Goal' _ _ (inr (refl, refl)))
            (if_both (Ensures Goal') (ltb s.data_buffer (datasize_size + size)) Outcome.fault _
              (Ensures-fault Goal')
              (on_read-Ensures Goal' (read_from w.wire w.client.recv_buffer 12 size false)
                (check_packet s type k size w) (λ got. check_packet-Later type k size w got)))))
    where
      Goal' : Bool → World → Type 0
      Goal' = Later w.client.pack_ref k

  route_type-Later :
      (w : World) (type : ℕ)
      → Ensures (Later w.client.pack_ref (get32 w.client.recv_buffer 4)) (route_type s w type)
  unfolding route_type
  route_type-Later w type = if_both (Ensures Goal') _ _ _ (register-Later w _) (
      if_both (Ensures Goal') _ _ _ (retrasmit-Later w _) (
        if_both (Ensures Goal') _ _ _ (Ensures-returned Goal' _ _ (inr (refl, refl)))
          (screen_packet-Later w type _ _ _)))
    where
      Goal' : Bool → World → Type 0
      Goal' = Later w.client.pack_ref (get32 w.client.recv_buffer 4)

  after_header-Later :
      (w : World) (o : Option Got)
      → Ensures (Later w.client.pack_ref (number_in o)) (on_read o (after_header s w))
  unfolding after_header Ensures
  after_header-Later w none = _
  after_header-Later w (some got) =
      if_both (Ensures (Later w.client.pack_ref (get32 got.memory 4))) (count_of got.size == 0)
        (refuse (set_offline (received w got))) _
        (Ensures-returned (Later w.client.pack_ref (get32 got.memory 4)) false
          (set_offline (received w got)) (inr (refl, refl)))
        (route_type-Later (received w got) (get16 got.memory 0))

-- When `processMessageBuffer` returns, the number of the packet being the one in the first 12 bytes that
-- it read, then either it returns 0, the packet's number is later than that of the last packet that was
-- taken, and is kept as the new last one; or it returns -1 and the last number is the one from before. So
-- a packet with the number of one that was taken, or with an earlier one, is never taken.
pub process_message_buffer-pack_ref :
    (s : Server) (w w' : World) (ok : Bool)
    → process_message_buffer s w ≡ Outcome.returned ok w'
    → ((ok ≡ true) × (w'.client.pack_ref ≡ next_pack_no w) × (w.client.pack_ref < next_pack_no w))
      ⊎ ((ok ≡ false) × (w'.client.pack_ref ≡ w.client.pack_ref))
unfolding process_message_buffer next_pack_no
process_message_buffer-pack_ref s w w' ok e =
    Ensures-result (Later w.client.pack_ref (next_pack_no w)) _ ok w'
      (after_header-Later s (with_client w (record w.client { recv_count = 0 }))
        (read_from w.wire w.client.recv_buffer 0 12 false))
      e
