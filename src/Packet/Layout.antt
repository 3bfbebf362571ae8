-- ===== src/Packet/Layout.antt =====
-- What `_PackDataWithPacket` leaves in the send buffer: the number of blocks, the table of their
-- sizes, and their bytes one behind the other, although the blocks are moved inside one buffer.
use native.Mathlib.Nat.{mod-eq_of_lt}
use star_server.Prelude.{
  ℕ, zero, suc, ◌+◌, ◌-◌, ◌*◌, ◌^◌, ◌≤◌, ◌<◌, ◌≡◌, refl, sym, ap, ap₂, ◌∙◌, ◌⊎◌, inl, inr, List, [],
  ◌∷◌, ◌++◌, map, if◌then◌else◌, ◌==◌, length, u16, Mem, read, write, bytes16, get16, arith,
}
use star_server.Prelude.Bits.{or_fields}
use star_server.Prelude.Writes.{
  write_outside, read_agree, read-write, read-write_outside, read-add, length-read, get16-write,
}
use star_server.Client.{Client, client_default_buffer, block_address}
use star_server.Packet.{
  sum_sizes, toggle, table_word, pack_table, pack_blocks, read_table, pack_header_size,
}
use star_server.Packet.Queue.{Block, blocks, blocks-agree, block_path}

-- The bit changes where the packet number does.
unfoldable pub next_tag : ℕ → ℕ → ℕ → ℕ
next_tag cur p cont = if cur == p then cont else 1 - cont

-- Each block with the bit that the table gives it.
unfoldable pub tagged : ℕ → ℕ → List Block → List Block
tagged cur cont [] = []
tagged cur cont ((p, bs) ∷ rest) = (next_tag cur p cont, bs) ∷ tagged p (next_tag cur p cont) rest

abbrev pub word : Block → ℕ
word (t, bs) = length bs + t * 2 ^ 11

unfoldable pub bytes_of : List Block → List ℕ
bytes_of [] = []
bytes_of ((p, bs) ∷ rest) = bs ++ bytes_of rest

-- The table is written in its own place.
pub pack_table_outside :
    (c : Client) (i n cur cont : ℕ) (m : Mem) (k : ℕ)
    → (k < pack_header_size + 2 * i) ⊎ (pack_header_size + 2 * (i + n) ≤ k)
    → pack_table c i n cur cont m k ≡ m k
unfolding pack_table
pack_table_outside c i zero cur cont m k h = refl
pack_table_outside c i (suc n) cur cont m k h =
    pack_table_outside c (i + 1) n _ _ _ k (ground arith) ∙ write_outside m _ _ k (ground arith)

pub get16-agree :
    (m m' : Mem) (a : ℕ) → m a ≡ m' a → m (a + 1) ≡ m' (a + 1) → get16 m a ≡ get16 m' a
unfolding get16
get16-agree m m' a p q = omega arith

toggle-next_tag : (cur p cont : ℕ) → cont < 2 → toggle cur p cont ≡ next_tag cur p cont
unfolding toggle next_tag
toggle-next_tag cur p cont h = ground arith

toggle-lt : (cur p cont : ℕ) → cont < 2 → toggle cur p cont < 2
unfolding toggle
toggle-lt cur p cont h = ground arith

table_word_lem :
    (size t : ℕ) → size ≤ client_default_buffer → t < 2 → table_word size t ≡ size + t * 2 ^ 11
table_word_lem size t h k = ap u16 (or_fields 11 size t (omega arith)) ∙ mod-eq_of_lt (omega arith)

pub pack_table-words :
    (c : Client) (b : Mem) (i n cur cont : ℕ) (m : Mem)
    → cont < 2
    → ((k : ℕ) → i ≤ k → k < i + n → c.send_msg_size k ≤ client_default_buffer)
    → read_table (pack_table c i n cur cont m) (pack_header_size + 2 * i) n
      ≡ map word (tagged cur cont (blocks b c.send_msg_size c.send_packet_no i n))
unfolding pack_table tagged
pack_table-words c b i zero cur cont m h s = refl
pack_table-words c b i (suc n) cur cont m h s = ap₂ ◌∷◌ first (
    ap (λ a. read_table out a n) {y = pack_header_size + 2 * (i + 1)} (omega arith)
    ∙ pack_table-words c b (i + 1) n p t m' (toggle-lt cur p cont h)
        (λ k lo hi. s k (omega arith) (omega arith))
    ∙ ap (λ x. map word (tagged p x (blocks b c.send_msg_size c.send_packet_no (i + 1) n)))
        (toggle-next_tag cur p cont h))
  where
    p : ℕ
    p = c.send_packet_no i

    size : ℕ
    size = c.send_msg_size i

    t : ℕ
    t = toggle cur p cont

    m' : Mem
    m' = write m (pack_header_size + 2 * i) (bytes16 (table_word size t))

    out : Mem
    out = pack_table c (i + 1) n p t m'

    kept : (k : ℕ) → k < pack_header_size + 2 * (i + 1) → out k ≡ m' k
    kept k l = pack_table_outside c (i + 1) n p t m' k (inl l)

    first :
        get16 out (pack_header_size + 2 * i)
        ≡ word (next_tag cur p cont, read b (block_address i) size)
    first =
        get16-agree out m' (pack_header_size + 2 * i) (kept _ (omega arith)) (kept _ (omega arith))
        ∙ get16-write m (pack_header_size + 2 * i) (table_word size t) (omega arith)
        ∙ table_word_lem size t (s i (omega arith) (omega arith)) (toggle-lt cur p cont h)
        ∙ ap₂ (λ l r. l + r * 2 ^ 11) (sym (length-read b (block_address i) size))
            (toggle-next_tag cur p cont h)

-- The move of the blocks writes below the places of the blocks that are still to be moved.
pub pack_blocks_outside :
    (size : ℕ → ℕ) (i n a : ℕ) (m : Mem) (k : ℕ) → k < a → pack_blocks size i n a m k ≡ m k
unfolding pack_blocks
pack_blocks_outside size i zero a m k h = refl
pack_blocks_outside size i (suc n) a m k h =
    pack_blocks_outside size (i + 1) n (a + size i) _ k (omega arith)
    ∙ write_outside m a _ k (inl h)

pub pack_blocks-bytes :
    (size num : ℕ → ℕ) (i n a : ℕ) (m : Mem)
    → a ≤ block_address i
    → ((k : ℕ) → i ≤ k → k < i + n → size k ≤ client_default_buffer)
    → read (pack_blocks size i n a m) a (sum_sizes size i n) ≡ bytes_of (blocks m size num i n)
unfolding pack_blocks sum_sizes bytes_of
pack_blocks-bytes size num i zero a m h s = refl
pack_blocks-bytes size num i (suc n) a m h s =
    read-add out a (size i) (sum_sizes size (i + 1) n)
    ∙ ap₂ ◌++◌ moved (
        pack_blocks-bytes size num (i + 1) n (a + size i) m' (omega arith)
          (λ k lo hi. s k (omega arith) (omega arith))
        ∙ ap bytes_of (
            blocks-agree m' m size size num num (i + 1) n (λ k lo hi. block_path refl (
              read-write_outside m a bs (block_address k) (size k)
                (inr (omega (arith, length-read m (block_address i) (size i))))))))
  where
    bs : List ℕ
    bs = read m (block_address i) (size i)

    m' : Mem
    m' = write m a bs

    out : Mem
    out = pack_blocks size (i + 1) n (a + size i) m'

    fits : size i ≤ client_default_buffer
    fits = s i (omega arith) (omega arith)

    moved : read out a (size i) ≡ bs
    moved =
        read_agree out m' a (size i)
          (λ k lo hi. pack_blocks_outside size (i + 1) n (a + size i) m' k hi)
        ∙ ap (read m' a) (sym (length-read m (block_address i) (size i)))
        ∙ read-write m a bs
