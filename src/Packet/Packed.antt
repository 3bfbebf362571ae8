-- ===== src/Packet/Packed.antt =====
-- The whole packet that `_PackDataWithPacket` makes of the queue.
use star_server.Prelude.{
  ℕ, zero, suc, ◌+◌, ◌*◌, ◌^◌, ◌≤◌, ◌<◌, ◌≡◌, refl, sym, ap, ap₂, ◌∙◌, inl, inr, List, ◌∷◌, map,
  length, length-append, Mem, read, get16, arith,
}
use star_server.Prelude.Writes.{write_outside, read_agree, length-read, get16-write}
use star_server.Client.{Client, block_address}
use star_server.Packet.{
  sum_sizes, pack_table, pack_blocks, pack_header, pack_data_with_packet, read_table,
  pack_header_size, max_block,
}
use star_server.Packet.Queue.{Block, blocks, blocks-agree, block_path, queued, Sized}
use star_server.Packet.Layout.{
  tagged, word, bytes_of, pack_table_outside, pack_table-words, pack_blocks_outside,
  pack_blocks-bytes, get16-agree,
}

pub length-blocks : (m : Mem) (size num : ℕ → ℕ) (i n : ℕ) → length (blocks m size num i n) ≡ n
length-blocks m size num i zero = refl
length-blocks m size num i (suc n) = ap suc (length-blocks m size num (i + 1) n)

length-bytes_of :
    (m : Mem) (size num : ℕ → ℕ) (i n : ℕ)
    → length (bytes_of (blocks m size num i n)) ≡ sum_sizes size i n
unfolding bytes_of sum_sizes
length-bytes_of m size num i zero = refl
length-bytes_of m size num i (suc n) =
    length-append (read m (block_address i) (size i)) (bytes_of (blocks m size num (i + 1) n))
    ∙ ap₂ ◌+◌ (length-read m (block_address i) (size i)) (length-bytes_of m size num (i + 1) n)

-- The header is written below the table.
pack_header_outside : (c : Client) (k : ℕ) → 16 ≤ k → pack_header c k ≡ c.send_buffer k
unfolding pack_header
pack_header_outside c k h =
    write_outside _ 14 _ k (inr h)
    ∙ write_outside _ 8 _ k (inr (omega arith))
    ∙ write_outside _ 2 _ k (inr (omega arith))
    ∙ write_outside _ 4 _ k (inr (omega arith))
    ∙ write_outside _ 0 _ k (inr (omega arith))

pack_header-count : (c : Client) → c.send_count < 2 ^ 16 → get16 (pack_header c) 14 ≡ c.send_count
unfolding pack_header
pack_header-count c h = get16-write _ 14 c.send_count h

pub read_table-agree :
    (m m' : Mem) (a n : ℕ)
    → ((k : ℕ) → a ≤ k → k < a + 2 * n → m k ≡ m' k)
    → read_table m a n ≡ read_table m' a n
read_table-agree m m' a zero h = refl
read_table-agree m m' a (suc n) h =
    ap₂ ◌∷◌
      (get16-agree m m' a (h a (omega arith) (omega arith)) (h (a + 1) (omega arith) (omega arith)))
      (read_table-agree m m' (a + 2) n (λ k lo hi. h k (omega arith) (omega arith)))

-- The layout: `n` blocks, which the header counts, their table, and their bytes.
pub record IsPacked (m : Mem) (bs : List Block) : Type 0 where
  pub count : get16 m 14 ≡ length bs
  pub table : read_table m pack_header_size (length bs) ≡ map word (tagged 0 0 bs)
  pub payload : read m (pack_header_size + 2 * length bs) (length (bytes_of bs)) ≡ bytes_of bs

module _ (c : Client) (s : Sized c) (h : c.send_count ≤ max_block) where
  n : ℕ
  n = c.send_count

  with_table : Mem
  with_table = pack_table c 0 n 0 0 (pack_header c)

  out : Mem
  out = pack_blocks c.send_msg_size 0 n (pack_header_size + 2 * n) with_table

  out-low : (k : ℕ) → k < pack_header_size + 2 * n → out k ≡ with_table k
  unfolding out
  out-low k l = pack_blocks_outside c.send_msg_size 0 n (pack_header_size + 2 * n) with_table k l

  table-low : (k : ℕ) → k < pack_header_size → with_table k ≡ pack_header c k
  unfolding with_table
  table-low k l = pack_table_outside c 0 n 0 0 (pack_header c) k (inl (omega arith))

  table-high : (k : ℕ) → block_address 0 ≤ k → with_table k ≡ c.send_buffer k
  unfolding with_table n
  table-high k l =
      pack_table_outside c 0 n 0 0 (pack_header c) k (inr (omega arith))
      ∙ pack_header_outside c k (omega arith)

  same-length : length (queued c) ≡ n
  unfolding n
  same-length = length-blocks c.send_buffer c.send_msg_size c.send_packet_no 0 c.send_count

  count_lem : get16 out 14 ≡ length (queued c)
  unfolding n
  count_lem =
      get16-agree out (pack_header c) 14 (out-low 14 (omega arith) ∙ table-low 14 (omega arith))
        (out-low 15 (omega arith) ∙ table-low 15 (omega arith))
      ∙ pack_header-count c (omega arith)
      ∙ sym same-length

  table_lem : read_table out pack_header_size (length (queued c)) ≡ map word (tagged 0 0 (queued c))
  unfolding with_table n
  table_lem =
      ap (read_table out pack_header_size) same-length
      ∙ read_table-agree out with_table pack_header_size n (λ k lo hi. out-low k hi)
      ∙ pack_table-words c c.send_buffer 0 n 0 0 (pack_header c) (omega arith)
          (λ k lo hi. s k (omega arith))

  payload_lem :
      read out (pack_header_size + 2 * length (queued c)) (length (bytes_of (queued c)))
      ≡ bytes_of (queued c)
  unfolding out n
  payload_lem =
      ap₂ (λ l t. read out (pack_header_size + 2 * l) t) same-length
        (length-bytes_of c.send_buffer c.send_msg_size c.send_packet_no 0 c.send_count)
      ∙ pack_blocks-bytes c.send_msg_size c.send_packet_no 0 n (pack_header_size + 2 * n) with_table
          (omega arith) (λ k lo hi. s k (omega arith))
      ∙ ap bytes_of (
          blocks-agree with_table c.send_buffer c.send_msg_size c.send_msg_size c.send_packet_no
            c.send_packet_no 0 n
            (λ k lo hi. block_path refl (
              read_agree with_table c.send_buffer (block_address k) (c.send_msg_size k)
                (λ a l r. table-high a (omega arith)))))

-- With a queue of at most 62 blocks of at most 1024 bytes, `_PackDataWithPacket` leaves a packet in
-- the send buffer whose header counts the queued blocks, whose table holds their sizes with the
-- alternating bit, and whose payload is their bytes in order.
pub pack_data_with_packet-IsPacked :
    (c : Client)
    → Sized c
    → c.send_count ≤ max_block
    → IsPacked (pack_data_with_packet c).send_buffer (queued c)
unfolding pack_data_with_packet out with_table n
pack_data_with_packet-IsPacked c s h = record {
  count = count_lem c s h;
  table = table_lem c s h;
  payload = payload_lem c s h;
}
