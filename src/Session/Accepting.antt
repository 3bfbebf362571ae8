-- ===== src/Session/Accepting.antt =====
-- A well-formed packet of a client is taken.
use mathlib.Core.List.{append_assoc}
use star_server.Prelude.{
  ℕ, zero, suc, ◌+◌, ◌-◌, ◌^◌, ◌≤◌, ◌<◌, ◌≡◌, refl, sym, ap, ap₂, ◌∙◌, inl, inr, true, false,
  Bool-cases, List, [], ◌∷◌, ◌++◌, some, ltb, leb-false, ==_refl, ◌==◌, ==_iff, length,
  length-append, take, drop, Mem, read, get16, get32, u16, pos, arith,
}
use star_server.Prelude.Writes.{read_agree, length-read, read-add, get16_agree}
use star_server.Client.{Client}
use star_server.Crc.{stos_crc16, crc_loop, crc16_next}
use star_server.Io.{Got, read_from}
use star_server.Io.Progress.{passes}
use star_server.Io.Complete.{IsOpen, Filled, read_from-Filled}
use star_server.Packet.{sockmsg_packdatasize, process_message_packet}
use star_server.Session.State.{
  Server, World, Outcome, ServerType, datasize_size, max_buffer, with_client,
}
use star_server.Session.Register.{received}
use star_server.Session.Receive.{
  crc_length, crc_matches, encode_packet, check_crc, check_packet, receive_packet, screen_packet,
}

-- A packet of messages that the server is meant to take, behind the number n.
pub record IsSound (s : Server) (n : ℕ) (m : Mem) (size : ℕ) : Type 0 where
  pub type : get16 m 0 ≡ sockmsg_packdatasize
  pub from_id : get16 m 2 < 2 ^ 15
  pub from_client : get16 m 2 < s.max_connection
  pub later : n < get32 m 4
  pub sized : get32 m 8 ≡ size
  pub least : 4 ≤ size
  pub most : size ≤ max_buffer
  pub fits : datasize_size + size ≤ s.data_buffer
  pub sum : crc_matches s m size ≡ true

head_same : {x y : ℕ} {xs ys : List ℕ} → ◌≡◌ {A = List ℕ} (x ∷ xs) (y ∷ ys) → x ≡ y
head_same e = cc e

tail_same : {x y : ℕ} {xs ys : List ℕ} → ◌≡◌ {A = List ℕ} (x ∷ xs) (y ∷ ys) → xs ≡ ys
tail_same e = cc e

-- Memories that are read the same are the same there.
read-agree :
    (m m' : Mem) (a n : ℕ) → read m a n ≡ read m' a n → (k : ℕ) → a ≤ k → k < a + n → m k ≡ m' k
read-agree m m' a zero e k lo hi = absurd (omega (arith, lo, hi))
read-agree m m' a (suc n) e k lo hi = elim (Bool-cases (k == a)) [
  | inl here ↦ let same : k ≡ a = (==_iff k a).0 here in ap m same ∙ head_same e ∙ ap m' (sym same)
  | inr later ↦ read-agree m m' (a + 1) n (tail_same e) k (ground arith) (omega (arith, hi))
]

take_front : (xs ys : List ℕ) (n : ℕ) → n ≡ length xs → take n (xs ++ ys) ≡ xs
take_front [] ys zero e = refl
take_front [] ys (suc n) e = absurd (omega (arith, e))
take_front (x ∷ xs) ys zero e = absurd (omega (arith, e))
take_front (x ∷ xs) ys (suc n) e = ap (λ t. x ∷ t) (take_front xs ys n (omega (arith, e)))

drop_front : (xs ys : List ℕ) (n : ℕ) → n ≡ length xs → drop n (xs ++ ys) ≡ ys
drop_front [] ys zero e = refl
drop_front [] ys (suc n) e = absurd (omega (arith, e))
drop_front (x ∷ xs) ys zero e = absurd (omega (arith, e))
drop_front (x ∷ xs) ys (suc n) e = drop_front xs ys n (omega (arith, e))

pub crc_matches-agree :
    (s : Server) (m m' : Mem) (size : ℕ)
    → 4 ≤ size
    → size ≤ max_buffer
    → ((k : ℕ) → k < 12 + size → m k ≡ m' k)
    → crc_matches s m size ≡ crc_matches s m' size
unfolding crc_matches stos_crc16
crc_matches-agree s m m' size lo hi h =
    ap₂ ◌==◌
      (ap (λ bs. u16 (crc_loop (crc16_next s.crc_tables.crc16) 0 bs))
        (read_agree m m' 16 (u16 (size + 2 ^ 16 - 4)) (λ k l r. h k (omega (arith, l, r)))))
      (get16_agree m m' 12 (λ k l r. h k (omega arith)))

-- The two reads of a packet.
module _ (s : Server) (w : World) (m : Mem) (size : ℕ) (more : List ℕ)
    (sound : IsSound s w.client.pack_ref m size)
    (incoming : w.wire.incoming ≡ read m 0 (datasize_size + size) ++ more)
    (op : IsOpen w.wire.recvs) (calls : datasize_size + size ≤ passes w.wire.recvs) where
  split : w.wire.incoming ≡ read m 0 12 ++ (read m 12 size ++ more)
  split =
      incoming
      ∙ ap (λ t. t ++ more) (read-add m 0 12 size)
      ∙ append_assoc (read m 0 12) (read m 12 size) more

  pub first :
      Filled w.wire w.client.recv_buffer 0 12 (read_from w.wire w.client.recv_buffer 0 12 false)
  first = read_from-Filled w.wire w.client.recv_buffer 0 12 op (omega (arith, calls)) (
      omega (
        arith,
        ap length split,
        length-append (read m 0 12) (read m 12 size ++ more),
        length-read m 0 12,
      ))

  pub first_agrees : (k : ℕ) → k < 12 → first.got.memory k ≡ m k
  first_agrees k l =
      read-agree first.got.memory m 0 12
        (first.stored
          ∙ ap (take 12) split
          ∙ take_front (read m 0 12) (read m 12 size ++ more) 12 (sym (length-read m 0 12)))
        k (omega arith) l

  rest_incoming : first.got.wire.incoming ≡ read m 12 size ++ more
  rest_incoming =
      first.remaining
      ∙ ap (drop 12) split
      ∙ drop_front (read m 0 12) (read m 12 size ++ more) 12 (sym (length-read m 0 12))

  pub second :
      Filled first.got.wire first.got.memory 12 size
        (read_from first.got.wire first.got.memory 12 size false)
  second =
      read_from-Filled first.got.wire first.got.memory 12 size first.still_open
        (omega (arith, calls, first.calls))
        (omega (
          arith,
          ap length rest_incoming,
          length-append (read m 12 size) more,
          length-read m 12 size,
        ))

  pub agrees : (k : ℕ) → k < 12 + size → second.got.memory k ≡ m k
  agrees k l = elim (Bool-cases (ltb k 12)) [
    | inl low ↦ second.kept.outside k (inl (ground arith)) ∙ first_agrees k (ground arith)
    | inr high ↦
        read-agree second.got.memory m 12 size
          (second.stored
            ∙ ap (take size) rest_incoming
            ∙ take_front (read m 12 size) more size (sym (length-read m 12 size)))
          k (ground arith) l
  ]

  pub left_over : second.got.wire.incoming ≡ more
  left_over =
      second.remaining
      ∙ ap (drop size) rest_incoming
      ∙ drop_front (read m 12 size) more size (sym (length-read m 12 size))

-- The checks, one after the other.
module _ (s : Server) (type_lem : s.server_type ≡ ServerType.always_on) where
  pub screen_packet-receive :
      (w : World) (from_id number size : ℕ)
      → from_id < 2 ^ 15
      → from_id < s.max_connection
      → size ≤ max_buffer
      → screen_packet s w sockmsg_packdatasize from_id number size
        ≡ receive_packet s sockmsg_packdatasize number size w
  unfolding screen_packet
  screen_packet-receive w from_id number size small client most =
      rw
        (
          leb-false (2 ^ 15) from_id small,
          leb-false s.max_connection from_id client,
          leb-false (2 ^ 31) size (omega (arith, most)),
          not_over,
        )
        refl
    where
      not_over : ltb max_buffer size ≡ false
      not_over = ground (arith, most)

  pub check_packet-crc :
      (w : World) (number size : ℕ) (g : Got)
      → w.client.pack_ref < number
      → g.size ≡ pos size
      → check_packet s sockmsg_packdatasize number size w g
        ≡ check_crc s sockmsg_packdatasize number size (received w g)
  unfolding check_packet
  check_packet-crc w number size g later e =
      rw (leb-false number w.client.pack_ref later, type_lem, e, ==_refl size) refl

  pub check_crc-encode :
      (w : World) (number size : ℕ)
      → 4 ≤ size
      → size ≤ max_buffer
      → datasize_size + size ≤ s.data_buffer
      → crc_matches s w.client.recv_buffer size ≡ true
      → check_crc s sockmsg_packdatasize number size w
        ≡ encode_packet s sockmsg_packdatasize number w
  unfolding check_crc
  check_crc-encode w number size least most fits sum = rw (inside, sum) refl
    where
      inside : ltb s.data_buffer (16 + crc_length size) ≡ false
      inside = ground (arith, least, most, fits)

  pub encode_packet-messages :
      (w : World) (number : ℕ) (c : Client)
      → process_message_packet s.data_buffer w.client ≡ some c
      → encode_packet s sockmsg_packdatasize number w
        ≡ Outcome.returned true (with_client w (record c { pack_ref = number }))
  unfolding encode_packet
  encode_packet-messages w number c e = rw e refl
