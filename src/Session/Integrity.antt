-- ===== src/Session/Integrity.antt =====
-- The CRC of the packets that are sent, and of those that are received.
use star_server.Prelude.{
  ℕ, ◌+◌, ◌-◌, ◌^◌, ◌≤◌, ◌<◌, ◌≡◌, refl, ◌∙◌, sym, ap, inl, inr, true, false, Bool-cases, List, ◌⊎◌,
  ==_iff, ltb, Mem, write, bytes16, bytes32, get32, arith,
}
use star_server.Prelude.Writes.{write_outside, get16-write, get16_agree, get32_agree}
use star_server.Client.{Client}
use star_server.Crc.{stos_crc16, stos_init_crc_table}
use star_server.Crc.Checksums.{IsBytes, stos_crc16-agree, stos_crc16-lt}
use star_server.Crc.Corruption.{Damaged, stos_crc16_detects}
use star_server.Session.State.{Server, World, send_retrasmit, finish}
use star_server.Session.Receive.{check_crc, crc_matches, crc_length}
use star_server.Session.Answer.{pack_data_with_crc16, seal_packet}

-- A packet whose CRC matched does not match once one byte behind its header, or that and the next,
-- is another.
Damaged-crc_matches :
    (s : Server) (m m' : Mem) (size p : ℕ)
    → s.crc_tables ≡ stos_init_crc_table
    → IsBytes m
    → IsBytes m'
    → crc_matches s m size ≡ true
    → Damaged m m' p
    → 16 ≤ p
    → p < 16 + crc_length size
    → crc_matches s m' size ≡ false
unfolding crc_matches
Damaged-crc_matches s m m' size p t b b' ok dmg lo hi = elim (Bool-cases (crc_matches s m' size)) [
  | inr differs ↦ differs
  | inl same ↦ absurd (
      stos_crc16_detects m m' 16 (size + 2 ^ 16 - 4) p b b' dmg lo hi (
        sym (table m)
        ∙ (==_iff _ _).0 ok
        ∙ get16_agree m m' 12 (λ k l r. dmg.elsewhere k (omega arith) (omega arith))
        ∙ sym ((==_iff _ _).0 same)
        ∙ table m'))
]
  where
    table :
        (m : Mem)
        → stos_crc16 s.crc_tables.crc16 m 16 (size + 2 ^ 16 - 4)
          ≡ stos_crc16 stos_init_crc_table.crc16 m 16 (size + 2 ^ 16 - 4)
    table m = ap (λ c. stos_crc16 c.crc16 m 16 (size + 2 ^ 16 - 4)) t

-- Let the CRC of a packet match, let a byte behind its 16 bytes of header be another in the receive
-- buffer, whatever the byte after it, and let the rest be the same. Then the server does nothing
-- with the packet but to ask for it again.
pub check_crc-Damaged :
    (s : Server) (type pack_no size p : ℕ) (m : Mem) (w : World)
    → s.crc_tables ≡ stos_init_crc_table
    → IsBytes m
    → IsBytes w.client.recv_buffer
    → crc_matches s m size ≡ true
    → Damaged m w.client.recv_buffer p
    → 16 ≤ p
    → p < 16 + crc_length size
    → 16 + crc_length size ≤ s.data_buffer
    → check_crc s type pack_no size w ≡ finish false (send_retrasmit s pack_no w)
unfolding check_crc
check_crc-Damaged s type pack_no size p m w t b b' ok dmg lo hi fits =
    rw (inside, Damaged-crc_matches s m w.client.recv_buffer size p t b b' ok dmg lo hi) refl
  where
    inside : ltb s.data_buffer (16 + crc_length size) ≡ false
    inside = ground arith

-- `EndPackSendData` seals a packet so that its CRC matches: what `processMessageBuffer` compares at
-- the other end is equal.
pub seal_packet-crc_matches :
    (s : Server) (c : Client)
    → crc_matches s (seal_packet s c).send_buffer (get32 (seal_packet s c).send_buffer 8) ≡ true
unfolding seal_packet pack_data_with_crc16 crc_matches
seal_packet-crc_matches s c = (==_iff _ _).1 (
    ap (λ n. stos_crc16 t m' 16 (n + 2 ^ 16 - 4)) size
    ∙ stos_crc16-agree t m' m 16 (get32 m 8 + 2 ^ 16 - 4)
        (λ k l. outside k (omega arith) (inr (omega arith)))
    ∙ sym (
        get16_agree m' (write m 12 (bytes16 crc)) 12
          (λ k l r. write_outside _ 4 _ k (inr (omega arith)))
        ∙ get16-write m 12 crc (stos_crc16-lt t m 16 (get32 m 8 + 2 ^ 16 - 4))))
  where
    t : List ℕ
    t = s.crc_tables.crc16

    m : Mem
    m = c.send_buffer

    crc : ℕ
    crc = stos_crc16 t m 16 (get32 m 8 + 2 ^ 16 - 4)

    m' : Mem
    m' = write (write m 12 (bytes16 crc)) 4 (bytes32 c.pack_ref)

    outside : (k : ℕ) → 8 ≤ k → (k < 12) ⊎ (14 ≤ k) → m' k ≡ m k
    outside k l h = write_outside _ 4 _ k (inr (omega arith)) ∙ write_outside m 12 _ k h

    size : get32 m' 8 ≡ get32 m 8
    size = get32_agree m' m 8 (λ k l r. outside k l (inl (omega arith)))
