-- ===== src/Transfer/Sending.antt =====
-- The piece of a file that `_PackDataWithBigData` puts behind the messages of a packet.
use star_server.Prelude.{
  ℕ, ◌+◌, ◌^◌, ◌≤◌, ◌<◌, ◌≡◌, refl, ◌∙◌, sym, ap, ◌⊎◌, inl, inr, Bool, true, false, List, length,
  Mem, read, write, bytes32, get32, arith,
}
use star_server.Prelude.Writes.{write_outside, read_agree, read-write, get32_agree, get32-write}
use star_server.Client.{Client}
use star_server.Transfer.Send.{
  Piece, has_name, name_size, mark_type, put_name, put_header, put_piece,
}

mark_type_outside : (b : Bool) (m : Mem) (k : ℕ) → 2 ≤ k → mark_type b m k ≡ m k
mark_type_outside true m k h = write_outside m 0 _ k (inr h)
mark_type_outside false m k h = refl

put_name_outside :
    (b : Bool) (a : ℕ) (name : List ℕ) (m : Mem) (k : ℕ)
    → length name ≡ 32
    → (k < a) ⊎ (a + name_size b ≤ k)
    → put_name b a name m k ≡ m k
put_name_outside true a name m k e h = write_outside m a name k (ground arith)
put_name_outside false a name m k e h = refl

-- The piece is in memory behind `address` bytes, of which those from 12 on are as they were.
pub record HasPiece (m0 m : Mem) (c : Client) (p : Piece) : Type 0 where
  pub size_all : get32 m 8 ≡ p.size_all
  pub flags : get32 m p.address ≡ p.flags
  pub whole : get32 m (p.address + 4) ≡ c.big_data_send_size
  pub name : has_name c ≡ true → read m (p.address + 8) 32 ≡ c.file_send_name
  pub bytes : read m p.start (length p.bytes) ≡ p.bytes
  pub below : (k : ℕ) → 12 ≤ k → k < p.address → m k ≡ m0 k

module _ (c : Client) (p : Piece) (m : Mem) (name : length c.file_send_name ≡ 32)
    (high : 12 ≤ p.address) (start : p.start ≡ p.address + 8 + name_size (has_name c)) where
  out : Mem
  out = put_piece c p m

  above : (k : ℕ) → k < p.address + 8 → out k ≡ put_header c p m k
  unfolding out put_piece
  above k l =
      write_outside _ p.start p.bytes k (inl (omega arith))
      ∙ put_name_outside (has_name c) (p.address + 8) c.file_send_name (put_header c p m) k name
          (inl l)

  header-low : (k : ℕ) → 2 ≤ k → k < p.address → (k < 8) ⊎ (12 ≤ k) → put_header c p m k ≡ m k
  unfolding put_header
  header-low k two l h =
      write_outside _ (p.address + 4) _ k (inl (omega arith))
      ∙ write_outside _ p.address _ k (inl l)
      ∙ write_outside _ 8 _ k h
      ∙ mark_type_outside c.file_data_sending m k two

  size_lem : p.size_all < 2 ^ 32 → get32 out 8 ≡ p.size_all
  unfolding put_header
  size_lem h =
      get32_agree out (write (mark_type c.file_data_sending m) 8 (bytes32 p.size_all)) 8 (λ k lo hi.
        above k (omega arith)
        ∙ write_outside _ (p.address + 4) _ k (inl (omega arith))
        ∙ write_outside _ p.address _ k (inl (omega arith)))
      ∙ get32-write _ 8 p.size_all h

  flags_lem : p.flags < 2 ^ 32 → get32 out p.address ≡ p.flags
  unfolding put_header
  flags_lem h =
      get32_agree out
        (write (write (mark_type c.file_data_sending m) 8 (bytes32 p.size_all)) p.address
          (bytes32 p.flags))
        p.address
        (λ k lo hi. above k (omega arith) ∙ write_outside _ (p.address + 4) _ k (inl (omega arith)))
      ∙ get32-write _ p.address p.flags h

  whole_lem : c.big_data_send_size < 2 ^ 32 → get32 out (p.address + 4) ≡ c.big_data_send_size
  unfolding put_header
  whole_lem h =
      get32_agree out (put_header c p m) (p.address + 4) (λ k lo hi. above k (omega arith))
      ∙ get32-write _ (p.address + 4) c.big_data_send_size h

  name_lem : has_name c ≡ true → read out (p.address + 8) 32 ≡ c.file_send_name
  unfolding out put_piece
  name_lem h =
      read_agree out (put_name (has_name c) (p.address + 8) c.file_send_name (put_header c p m))
        (p.address + 8) 32
        (λ k lo hi. write_outside _ p.start p.bytes k (inl (omega (arith, start, ap name_size h))))
      ∙ ap
          (λ b.
            read (put_name b (p.address + 8) c.file_send_name (put_header c p m)) (p.address + 8)
              32)
          h
      ∙ ap (read (write (put_header c p m) (p.address + 8) c.file_send_name) (p.address + 8))
          (sym name)
      ∙ read-write (put_header c p m) (p.address + 8) c.file_send_name

  bytes_lem : read out p.start (length p.bytes) ≡ p.bytes
  unfolding out put_piece
  bytes_lem = read-write _ p.start p.bytes

pub put_piece-HasPiece :
    (c : Client) (p : Piece) (m : Mem)
    → length c.file_send_name ≡ 32
    → 12 ≤ p.address
    → p.start ≡ p.address + 8 + name_size (has_name c)
    → p.size_all < 2 ^ 32
    → p.flags < 2 ^ 32
    → c.big_data_send_size < 2 ^ 32
    → HasPiece m (put_piece c p m) c p
unfolding out
put_piece-HasPiece c p m name high start small flags size = record {
  size_all = size_lem c p m name high start small;
  flags = flags_lem c p m name high start flags;
  whole = whole_lem c p m name high start size;
  name = name_lem c p m name high start;
  bytes = bytes_lem c p m name high start;
  below = λ k lo hi.
      above c p m name high start k (omega arith)
      ∙ header-low c p m name high start k (omega arith) hi (inr lo);
}
