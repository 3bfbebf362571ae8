-- ===== src/Packet/Blocks.antt =====
-- What `_processMessagePacket` does with one block, and the messages that tagged blocks make up.
use star_server.Prelude.{
  ℕ, zero, suc, ◌+◌, ◌/◌, ◌^◌, ◌<◌, bit_and, ◌≡◌, refl, ap, ap₂, ◌∙◌, inl, inr, List, [], ◌∷◌, ◌++◌,
  some, if◌then◌else◌, ◌==◌, ltb, Bool-cases, length, Mem, read, arith,
}
use star_server.Prelude.Bits.{and_mask}
use star_server.Client.{client_default_max_block}
use star_server.Packet.{Cursor, extend, add_block}
use star_server.Packet.Queue.{Block}
use star_server.Packet.Layout.{word}

-- The first n messages that the arrays describe.
abbrev pub contents : Mem → (ℕ → ℕ) → (ℕ → ℕ) → ℕ → List (List ℕ)
contents m msg size zero = []
contents m msg size (suc n) = contents m msg size n ++ read m (msg n) (size n) ∷ []

-- The messages of tagged blocks: a block with the tag of the block before it goes on with the
-- message, another begins one. `open_message` is the message that is being read.
unfoldable pub messages_from : ℕ → List ℕ → List Block → List (List ℕ)
messages_from t open_message [] = open_message ∷ []
messages_from t open_message ((t', bs) ∷ rest) =
    if t == t'
    then messages_from t' (open_message ++ bs) rest
    else open_message ∷ messages_from t' bs rest

-- The blocks stand in memory from address `a` on.
abbrev pub Follows : Mem → ℕ → List Block → Type 0
Follows m a [] = Unit {0}
Follows m a ((t, bs) ∷ rest) = (read m a (length bs) ≡ bs) × Follows m (a + length bs) rest

-- A size fits the eleven bits of the table.
abbrev pub Short : List Block → Type 0
Short [] = Unit {0}
Short ((t, bs) ∷ rest) = (length bs < 2048) × Short rest

pub contents-agree :
    (m : Mem) (msg msg' size size' : ℕ → ℕ) (n : ℕ)
    → ((k : ℕ) → k < n → (msg k ≡ msg' k) × (size k ≡ size' k))
    → contents m msg size n ≡ contents m msg' size' n
contents-agree m msg msg' size size' zero h = refl
contents-agree m msg msg' size size' (suc n) h =
    ap₂ (λ l b. l ++ b ∷ []) (contents-agree m msg msg' size size' n (λ k l. h k (omega arith)))
      (ap₂ (read m) (h n (omega arith)).0 (h n (omega arith)).1)

pub word_tag : (t : ℕ) (bs : List ℕ) → length bs < 2048 → word (t, bs) / 2 ^ 11 ≡ t
word_tag t bs h = omega arith

pub word_size : (t : ℕ) (bs : List ℕ) → length bs < 2048 → bit_and (word (t, bs)) 0x7ff ≡ length bs
word_size t bs h = and_mask 11 (word (t, bs)) ∙ omega arith

pub add_block_lem :
    (s : Cursor) (k tag size : ℕ)
    → s.count ≡ suc k
    → k < client_default_max_block
    → add_block s tag size ≡ some (extend s k tag size)
unfolding add_block
add_block_lem s k tag size e l = elim (Bool-cases (s.count == 0)) [
  | inl bad ↦ absurd (ground arith)
  | inr good ↦ rw good (elim (Bool-cases (ltb client_default_max_block s.count)) [
    | inl bad ↦ absurd (ground arith)
    | inr fine ↦ rw fine (ap (λ j. some (extend s j tag size)) (omega arith))
  ])
]
