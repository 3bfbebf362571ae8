-- ===== src/Packet/Queue.antt =====
-- The queue of blocks as a list, and `STSV_SendData` as a change of that list.
use star_server.Prelude.{
  ℕ, zero, suc, ◌+◌, ◌≤◌, ◌<◌, ◌≡◌, refl, ap, ap₂, ◌∙◌, inl, List, [], ◌∷◌, ◌++◌, length, take,
  drop, u8, Mem, read, write, set_at, arith,
}
use star_server.Prelude.Writes.{set_at_self, set_at_ne, read-write, read-write_outside}
use star_server.Client.{Client, client_default_buffer, block_address}
use star_server.Packet.{put_block}

-- A block: its packet number and its bytes.
abbrev pub Block : Type 0
Block = ℕ × List ℕ

abbrev block_at : Mem → (ℕ → ℕ) → (ℕ → ℕ) → ℕ → Block
block_at m size num i = (num i, read m (block_address i) (size i))

pub block_path : {a b : ℕ} {xs ys : List ℕ} → a ≡ b → xs ≡ ys → ◌≡◌ {A = Block} (a, xs) (b, ys)
block_path p q = λ i. (p i, q i)

-- The blocks from the i-th on, n of them.
abbrev pub blocks : Mem → (ℕ → ℕ) → (ℕ → ℕ) → ℕ → ℕ → List Block
blocks m size num i zero = []
blocks m size num i (suc n) = block_at m size num i ∷ blocks m size num (i + 1) n

abbrev pub queued : Client → List Block
queued c = blocks c.send_buffer c.send_msg_size c.send_packet_no 0 c.send_count

-- The blocks that a message is cut into. A block takes a byte at least, so the fuel of the
-- message's length is enough.
unfoldable pub chunks : ℕ → List ℕ → List (List ℕ)
chunks zero bs = []
chunks (suc f) [] = []
chunks (suc f) (b ∷ bs) =
    take client_default_buffer (b ∷ bs) ∷ chunks f (drop client_default_buffer (b ∷ bs))

unfoldable pub cut : List ℕ → List (List ℕ)
cut bs = chunks (length bs) bs

-- No block is longer than its place in the buffer.
abbrev pub Sized : Client → Type 0
Sized c = (i : ℕ) → i < c.send_count → c.send_msg_size i ≤ client_default_buffer

blocks-snoc :
    (m : Mem) (size num : ℕ → ℕ) (i n : ℕ)
    → blocks m size num i (suc n) ≡ blocks m size num i n ++ block_at m size num (i + n) ∷ []
blocks-snoc m size num i zero = ap (λ k. block_at m size num k ∷ []) (omega arith)
blocks-snoc m size num i (suc n) = ap (◌∷◌ (block_at m size num i)) (
    blocks-snoc m size num (i + 1) n
    ∙ ap (λ k. blocks m size num (i + 1) n ++ block_at m size num k ∷ []) (omega arith))

pub blocks-agree :
    (m m' : Mem) (size size' num num' : ℕ → ℕ) (i n : ℕ)
    → ((k : ℕ) → i ≤ k → k < i + n → block_at m size num k ≡ block_at m' size' num' k)
    → blocks m size num i n ≡ blocks m' size' num' i n
blocks-agree m m' size size' num num' i zero h = refl
blocks-agree m m' size size' num num' i (suc n) h =
    ap₂ ◌∷◌ (h i (omega arith) (omega arith))
      (blocks-agree m m' size size' num num' (i + 1) n (λ k lo hi. h k (omega arith) (omega arith)))

-- A block is queued behind the others.
pub queued-put_block :
    (c : Client) (bs : List ℕ)
    → Sized c
    → queued (put_block c bs) ≡ queued c ++ (u8 c.cur_packet_no, bs) ∷ []
unfolding put_block
queued-put_block c bs s =
    ap (λ k. blocks m' size' num' 0 k) {y = suc n} (omega arith)
    ∙ blocks-snoc m' size' num' 0 n
    ∙ ap₂ (λ l b. l ++ b ∷ [])
        (blocks-agree m' c.send_buffer size' c.send_msg_size num' c.send_packet_no 0 n
          (λ k lo hi. earlier k (omega arith)))
        (ap (block_at m' size' num') zero_add ∙ last)
  where
    n : ℕ
    n = c.send_count

    m' : Mem
    m' = write c.send_buffer (block_address n) bs

    size' : ℕ → ℕ
    size' = set_at c.send_msg_size n (length bs)

    num' : ℕ → ℕ
    num' = set_at c.send_packet_no n (u8 c.cur_packet_no)

    zero_add : 0 + n ≡ n
    zero_add = omega arith

    last : block_at m' size' num' n ≡ (u8 c.cur_packet_no, bs)
    last = block_path (set_at_self c.send_packet_no n (u8 c.cur_packet_no)) (
        ap (read m' (block_address n)) (set_at_self c.send_msg_size n (length bs))
        ∙ read-write c.send_buffer (block_address n) bs)

    earlier :
        (k : ℕ)
        → k < n
        → block_at m' size' num' k ≡ block_at c.send_buffer c.send_msg_size c.send_packet_no k
    earlier k h = block_path (set_at_ne c.send_packet_no n k _ (omega arith)) (
        ap (read m' (block_address k)) (set_at_ne c.send_msg_size n k _ (omega arith))
        ∙ read-write_outside c.send_buffer (block_address n) bs (block_address k)
            (c.send_msg_size k) (inl (omega (arith, s k h))))
