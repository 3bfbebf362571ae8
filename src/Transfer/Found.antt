-- ===== src/Transfer/Found.antt =====
-- The receiver finds the piece that the sender put behind the messages.
use star_server.Prelude.{
  ℕ, ◌+◌, ◌-◌, ◌*◌, ◌^◌, ◌≤◌, ◌<◌, ◌≡◌, refl, ◌∙◌, ap, false, List, [], ◌∷◌, map, Option, none,
  some, if◌then◌else◌, ltb, length, length-append, u16, Mem, get16, get32, arith,
}
use star_server.Prelude.Writes.{get16_agree}
use star_server.Client.{Client}
use star_server.Packet.{read_table, rounds16, pack_header_size}
use star_server.Packet.Queue.{Block}
use star_server.Packet.Layout.{tagged, word, bytes_of}
use star_server.Packet.Packed.{IsPacked, read_table-agree}
use star_server.Packet.Blocks.{Short, word_size}
use star_server.Packet.Received.{Blocked, Short-tagged, bytes_of-tagged}
use star_server.Transfer.Receive.{Part, sum_table, find_part, size_t}
use star_server.Transfer.Send.{Piece}
use star_server.Transfer.Sending.{HasPiece}

sum_table-words :
    (acc : ℕ) (tb : List Block)
    → Short tb
    → acc < 2 ^ 16
    → sum_table acc (map word tb) ≡ u16 (acc + length (bytes_of tb))
unfolding sum_table bytes_of
sum_table-words acc [] sh h = omega arith
sum_table-words acc ((t, bs) ∷ rest) sh h =
    ap (λ n. sum_table (u16 (acc + n)) (map word rest)) (word_size t bs sh.0)
    ∙ sum_table-words (u16 (acc + length bs)) rest sh.1 (omega arith)
    ∙ omega (arith, length-append bs (bytes_of rest))

abbrev found : Piece → Client → ℕ → Part
found p c k = record {
  address = p.address + 8;
  flags = p.flags;
  whole = c.big_data_send_size;
  pack_size = k;
}

-- Behind a packet of blocks, `find_part` finds the piece with its flags and its size.
pub find_part-HasPiece :
    (data_buffer : ℕ) (m0 m : Mem) (c : Client) (p : Piece) (bs : List Block) (k : ℕ)
    → IsPacked m0 bs
    → HasPiece m0 m c p
    → Blocked bs
    → length bs < 2 ^ 15
    → p.address ≡ pack_header_size + 2 * length bs + length (bytes_of bs)
    → p.address < 2 ^ 16
    → p.address + 8 ≤ data_buffer
    → p.size_all + 4 ≡ p.address + k
    → k < 2 ^ 63
    → find_part data_buffer m
      ≡ some (record {
        address = p.address + 8;
        flags = p.flags;
        whole = c.big_data_send_size;
        pack_size = k;
      })
unfolding find_part
find_part-HasPiece data_buffer m0 m c p bs k packed piece blocked few at_end low fits size small =
    ap part count
    ∙ rw (rounds, table, sum, whole_table, whole_header, piece.flags, piece.whole, rest) refl
  where
    n : ℕ
    n = length bs

    part : ℕ → Option Part
    part v =
        let a =
          u16
            (sum_table 0 (read_table m pack_header_size (rounds16 v)) + pack_header_size + 2 * v) in
        if ltb data_buffer (pack_header_size + 2 * rounds16 v)
        then none
        else if ltb data_buffer (a + 8)
        then none
        else some (record {
          address = a + 8;
          flags = get32 m a;
          whole = get32 m (a + 4);
          pack_size = size_t (get32 m 8 + 2 ^ 64 - a + 12 - 8);
        })

    count : get16 m 14 ≡ n
    count = get16_agree m m0 14 (λ j l r. piece.below j (omega arith) (omega arith)) ∙ packed.count

    rounds : rounds16 n ≡ n
    rounds = ground arith

    table : read_table m pack_header_size n ≡ map word (tagged 0 0 bs)
    table =
        read_table-agree m m0 pack_header_size n
          (λ j l r. piece.below j (omega arith) (omega arith))
        ∙ packed.table

    sum : u16 (sum_table 0 (map word (tagged 0 0 bs)) + pack_header_size + 2 * n) ≡ p.address
    sum = omega (
      arith,
      sum_table-words 0 (tagged 0 0 bs) (Short-tagged 0 0 bs blocked) (omega arith),
      ap length (bytes_of-tagged 0 0 bs),
    )

    whole_table : ltb data_buffer (pack_header_size + 2 * n) ≡ false
    whole_table = ground arith

    whole_header : ltb data_buffer (p.address + 8) ≡ false
    whole_header = ground arith

    rest : size_t (get32 m 8 + 2 ^ 64 - p.address + 12 - 8) ≡ k
    rest = omega (arith, piece.size_all)
