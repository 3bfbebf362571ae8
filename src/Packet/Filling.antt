-- ===== src/Packet/Filling.antt =====
-- A round of the loop of `STSV_SendData`.
use mathlib.Core.List.{append_assoc}
use star_server.Prelude.{
  take_all, drop_all, ℕ, suc, ◌+◌, ◌-◌, ◌≤◌, ◌<◌, ◌≡◌, refl, sym, ap, ◌∙◌, inl, inr, List, [], ◌∷◌,
  ◌++◌, map, leb, leb→le, ◌==◌, Bool-cases, length, take, drop, length-take, u8, arith,
}
use star_server.Client.{Client, client_default_buffer}
use star_server.Packet.{block_part, rest_part, put_block, max_block}
use star_server.Packet.Queue.{Block, queued, Sized, chunks, queued-put_block}

-- What a round of the loop copies, and what it leaves, is a cut at the size of a block.
block_part_lem : (bs : List ℕ) → block_part bs ≡ take client_default_buffer bs
unfolding block_part
block_part_lem bs = elim (Bool-cases (leb (length bs) client_default_buffer)) [
  | inl short ↦ rw short (sym (take_all client_default_buffer bs (leb→le _ _ short)))
  | inr long ↦ rw long
]

pub rest_part_lem : (bs : List ℕ) → rest_part bs ≡ drop client_default_buffer bs
unfolding rest_part
rest_part_lem bs = elim (Bool-cases (leb (length bs) client_default_buffer)) [
  | inl short ↦ rw short (sym (drop_all client_default_buffer bs (leb→le _ _ short)))
  | inr long ↦ rw long
]

pub block_part-length : (bs : List ℕ) → length (block_part bs) ≤ client_default_buffer
block_part-length bs =
    omega (arith, ap length (block_part_lem bs), length-take client_default_buffer bs)

pub put_block-Sized :
    (c : Client) (bs : List ℕ)
    → length bs ≤ client_default_buffer
    → Sized c
    → Sized (put_block c bs)
unfolding put_block
put_block-Sized c bs h s i l = elim (Bool-cases (i == c.send_count)) [
  | inl last ↦ rw last h
  | inr earlier ↦ rw earlier (s i (ground arith))
]

pub put_block-send_count :
    (c : Client) (bs : List ℕ) → (put_block c bs).send_count ≡ c.send_count + 1
unfolding put_block
put_block-send_count c bs = refl

pub settled :
    (c : Client) (bs : List ℕ) (g : ℕ)
    → let c' = put_block c (block_part bs) in
      ◌≡◌ {A = List Block}
        (map
          (λ b. (u8 c'.cur_packet_no, b))
          (take (max_block - c'.send_count) (chunks g (rest_part bs))))
        (map
          (λ b. (u8 c.cur_packet_no, b))
          (take (max_block - (c.send_count + 1)) (chunks g (drop client_default_buffer bs))))
unfolding put_block
settled c bs g =
    ap
      (λ r. map (λ b. (u8 c.cur_packet_no, b)) (take (max_block - (c.send_count + 1)) (chunks g r)))
      (rest_part_lem bs)

module _ (c : Client) (s : Sized c) (h : c.send_count < max_block) where
  abbrev free : ℕ
  free = max_block - c.send_count

  abbrev label : List ℕ → Block
  label b = (u8 c.cur_packet_no, b)

  pub one_round :
      (bs : List ℕ)
      → queued (put_block c (block_part bs))
        ≡ queued c ++ label (take client_default_buffer bs) ∷ []
  one_round bs =
      queued-put_block c (block_part bs) s ∙ ap (λ t. queued c ++ label t ∷ []) (block_part_lem bs)

  pub last_round :
      (bs : List ℕ) (more : List (List ℕ))
      → max_block ≤ c.send_count + 1
      → queued (put_block c (block_part bs))
        ≡ queued c ++ map label (take free (take client_default_buffer bs ∷ more))
  last_round bs more full =
      one_round bs
      ∙ ap (λ k. queued c ++ map label (take k (take client_default_buffer bs ∷ more))) {x = 1}
          (omega arith)

  pub next_round :
      (bs : List ℕ) (more : List (List ℕ)) (q : List Block)
      → q
        ≡ queued (put_block c (block_part bs))
          ++ map label (take (max_block - (c.send_count + 1)) more)
      → q ≡ queued c ++ map label (take free (take client_default_buffer bs ∷ more))
  next_round bs more q e =
      e
      ∙ ap (λ t. t ++ map label (take (max_block - (c.send_count + 1)) more)) (one_round bs)
      ∙ append_assoc (queued c) (label (take client_default_buffer bs) ∷ []) _
      ∙ ap (λ k. queued c ++ map label (take k (take client_default_buffer bs ∷ more)))
          {x = suc (max_block - (c.send_count + 1))} (omega arith)
