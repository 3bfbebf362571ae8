-- ===== src/Packet/Send.antt =====
-- `STSV_SendData` as a change of the queue, and what it keeps.
use mathlib.Core.List.{append-nil}
use star_server.Prelude.{
  take-nil, ℕ, zero, suc, ◌+◌, ◌-◌, ◌≤◌, ◌<◌, ◌≡◌, refl, sym, ap, ◌∙◌, inl, inr, List, [], ◌∷◌,
  ◌++◌, map, if◌then◌else◌, ltb, leb, leb→le, ltb→lt, Bool-cases, length, take, drop, length-drop,
  u8, u16, arith,
}
use star_server.Client.{Client, client_default_buffer}
use star_server.Packet.{block_part, rest_part, put_block, fill_blocks, send_data, max_block}
use star_server.Packet.Queue.{queued, Sized, chunks, cut}
use star_server.Packet.Filling.{
  rest_part_lem, block_part-length, put_block-Sized, put_block-send_count, settled, last_round,
  next_round,
}

-- The loop queues the first blocks of the message, as many as places are free.
fill_blocks-queues :
    (f g : ℕ) (c : Client) (bs : List ℕ)
    → Sized c
    → c.send_count < max_block
    → max_block ≤ f + c.send_count
    → length bs ≤ g
    → queued (fill_blocks f c bs)
      ≡ queued c
        ++ map (λ b. (u8 c.cur_packet_no, b)) (take (max_block - c.send_count) (chunks g bs))
unfolding fill_blocks chunks
fill_blocks-queues zero g c bs s h e l = absurd (omega arith)
fill_blocks-queues (suc f) zero c [] s h e l = sym (
    ap (λ t. queued c ++ map (λ b. (u8 c.cur_packet_no, b)) t) (take-nil (max_block - c.send_count))
    ∙ append-nil (queued c))
fill_blocks-queues (suc f) (suc g) c [] s h e l = sym (
    ap (λ t. queued c ++ map (λ b. (u8 c.cur_packet_no, b)) t) (take-nil (max_block - c.send_count))
    ∙ append-nil (queued c))
fill_blocks-queues (suc f) zero c (b ∷ bs) s h e l = absurd (omega arith)
fill_blocks-queues (suc f) (suc g) c (b ∷ bs) s h e l =
    elim (Bool-cases (leb max_block (put_block c (block_part (b ∷ bs))).send_count)) [
      | inl full ↦ rw full (
          last_round c s h (b ∷ bs) (chunks g (drop client_default_buffer (b ∷ bs)))
            (omega (arith, leb→le _ _ full, put_block-send_count c (block_part (b ∷ bs)))))
      | inr free ↦ rw free (
          next_round c s h (b ∷ bs) (chunks g (drop client_default_buffer (b ∷ bs))) _ (
            fill_blocks-queues f g (put_block c (block_part (b ∷ bs))) (rest_part (b ∷ bs))
              (put_block-Sized c _ (block_part-length (b ∷ bs)) s)
              (ground (arith, put_block-send_count c (block_part (b ∷ bs))))
              (omega (arith, put_block-send_count c (block_part (b ∷ bs))))
              (omega (
                arith,
                ap length (rest_part_lem (b ∷ bs)),
                length-drop client_default_buffer (b ∷ bs),
              ))
            ∙ ap (λ r. queued (put_block c (block_part (b ∷ bs))) ++ r) (settled c (b ∷ bs) g)))
    ]

queues :
    (c : Client) (bs : List ℕ)
    → Sized c
    → queued (send_data c bs)
      ≡ queued c ++ map (λ b. (u8 c.cur_packet_no, b)) (take (max_block - c.send_count) (cut bs))
unfolding send_data cut
queues c bs s = elim (Bool-cases (ltb c.send_count max_block)) [
  | inl room ↦
      rw room
        (fill_blocks-queues max_block (length bs) c bs s (ground arith) (omega arith) (omega arith))
  | inr full ↦ rw full (
      sym (
        ap (λ k. queued c ++ map (λ b. (u8 c.cur_packet_no, b)) (take k (chunks (length bs) bs)))
          {y = 0} (ground arith)
        ∙ append-nil (queued c)))
]

put_block-cur_packet_no :
    (c : Client) (bs : List ℕ) → (put_block c bs).cur_packet_no ≡ c.cur_packet_no
unfolding put_block
put_block-cur_packet_no c bs = refl

-- What the loop keeps: the places are filled up to their size, none beyond the last is used, and
-- the packet number stays.
pub record Kept (c d : Client) : Type 0 where
  pub sized : Sized d
  pub bounded : d.send_count ≤ max_block
  pub number : d.cur_packet_no ≡ c.cur_packet_no

fill_blocks-Kept :
    (f : ℕ) (c : Client) (bs : List ℕ)
    → Sized c
    → c.send_count < max_block
    → Kept c (fill_blocks f c bs)
unfolding fill_blocks
fill_blocks-Kept zero c bs s h = record { sized = s; bounded = omega arith; number = refl }
fill_blocks-Kept (suc f) c [] s h = record { sized = s; bounded = omega arith; number = refl }
fill_blocks-Kept (suc f) c (b ∷ bs) s h =
    elim (Bool-cases (leb max_block (put_block c (block_part (b ∷ bs))).send_count)) [
      | inl full ↦
          rw full (record { sized = fits; bounded = omega (arith, counted); number = same })
      | inr room ↦ rw room (
          let k = fill_blocks-Kept f c' (rest_part (b ∷ bs)) fits (ground (arith, counted)) in
          record { sized = k.sized; bounded = k.bounded; number = k.number ∙ same })
    ]
  where
    c' : Client
    c' = put_block c (block_part (b ∷ bs))

    fits : Sized c'
    fits = put_block-Sized c _ (block_part-length (b ∷ bs)) s

    counted : c'.send_count ≡ c.send_count + 1
    counted = put_block-send_count c (block_part (b ∷ bs))

    same : c'.cur_packet_no ≡ c.cur_packet_no
    same = put_block-cur_packet_no c (block_part (b ∷ bs))

-- The queue fits the buffer.
pub record IsQueue (c : Client) : Type 0 where
  pub sized : Sized c
  pub bounded : c.send_count ≤ max_block

-- Whatever the message, `STSV_SendData` keeps the queue within its 62 places of 1024 bytes, and
-- where a place is free the next message gets the next packet number, modulo 2^16.
pub send_data-IsQueue :
    (c : Client) (bs : List ℕ)
    → IsQueue c
    → IsQueue (send_data c bs)
      × ((send_data c bs).cur_packet_no
          ≡ (if ltb c.send_count max_block then u16 (c.cur_packet_no + 1) else c.cur_packet_no))
unfolding send_data
send_data-IsQueue c bs q = elim (Bool-cases (ltb c.send_count max_block)) [
  | inl room ↦
      let k = fill_blocks-Kept max_block c bs q.sized (ltb→lt _ _ room) in
      rw room (record { sized = k.sized; bounded = k.bounded }, refl)
  | inr full ↦ rw full (q, refl)
]

-- Where the queue fits the buffer, `STSV_SendData` queues the message behind what is queued, cut into
-- blocks of 1024 bytes under one packet number. Where fewer than that many places are free the last blocks
-- are dropped. The next message gets the next packet number, modulo 2^16; but with no free place the call
-- changes nothing of the client.
pub send_data-queues :
    (c : Client) (bs : List ℕ)
    → IsQueue c
    → (queued (send_data c bs)
        ≡ queued c ++ map (λ b. (u8 c.cur_packet_no, b)) (take (max_block - c.send_count) (cut bs)))
      × ((send_data c bs).cur_packet_no
          ≡ (if ltb c.send_count max_block then u16 (c.cur_packet_no + 1) else c.cur_packet_no))
      × (send_data c bs ≡ (if ltb c.send_count max_block then send_data c bs else c))
unfolding send_data
send_data-queues c bs q = (
  queues c bs q.sized,
  (send_data-IsQueue c bs q).1,
  elim (Bool-cases (ltb c.send_count max_block)) [
    | inl room ↦ rw room refl
    | inr full ↦ rw full refl
  ],
)
