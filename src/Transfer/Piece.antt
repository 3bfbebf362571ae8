-- ===== src/Transfer/Piece.antt =====
-- What `_PackDataWithBigData` puts behind the messages of a client that sends a file.
use native.Mathlib.Nat.{mod-eq_of_lt}
use star_server.Prelude.{
  ℕ, ◌+◌, ◌-◌, ◌*◌, ◌^◌, ◌≤◌, ◌<◌, min, ◌≡◌, refl, ◌∙◌, ap, Bool, true, false, not, ◌&&◌, List,
  some, if◌then◌else◌, ltb, ◌==◌, nonzero, bit_and, bit_or, length, take, drop, length-take,
  length-drop, Mem, get32, arith,
}
use star_server.Client.{Client}
use star_server.Packet.Queue.{Block}
use star_server.Transfer.Files.{Disk, FilePath, bigdata_header, bigdata_continue, bigdata_end}
use star_server.Transfer.Send.{
  Piece, is_first, has_name, name_size, remaining, can_send, piece_size, done_after, begin_flags,
  make_piece, put_header, put_piece, send_from, on_string, pack_data_with_big_data,
}
use star_server.Transfer.Sending.{HasPiece, put_piece-HasPiece}
use star_server.Transfer.Underway.{IsSending, CanCarry}

pub name_size-le : (b : Bool) → name_size b ≤ 32
name_size-le true = omega arith
name_size-le false = omega arith

-- The flags of a piece, by whether it is the first and the last.
abbrev flags_of : Bool → Bool → ℕ
flags_of first last = if last then bit_or (begin_flags first) bigdata_end else begin_flags first

flags_of-lem :
    (first last : Bool)
    → (flags_of first last < 2 ^ 32)
      × ((flags_of first last == bigdata_end) ≡ false)
      × (nonzero (bit_and (flags_of first last) bigdata_header) ≡ first)
      × (nonzero (bit_and (flags_of first last) bigdata_continue) ≡ not first)
flags_of-lem true true = (omega arith, refl, refl, refl)
flags_of-lem true false = (omega arith, refl, refl, refl)
flags_of-lem false true = (omega arith, refl, refl, refl)
flags_of-lem false false = (omega arith, refl, refl, refl)

module _ (c : Client) (file : List ℕ) (m : Mem) where
  abbrev pub next_piece : Piece
  next_piece = make_piece c (get32 m 8) file

  abbrev pub after : Client
  after = record c {
    send_buffer = put_piece c next_piece m;
    big_data_send_size_done = done_after c (get32 m 8);
    file_data_sending =
        c.file_data_sending && not (done_after c (get32 m 8) == c.big_data_send_size);
  }

-- What is so of the next piece of the file, where the client sends it behind a packet of messages.
pub record Facts (data_buffer : ℕ) (c : Client) (d : Disk) (file : List ℕ) (m : Mem) : Type 0 where
  pub k_lem :
      piece_size c (get32 m 8)
      ≡ min (c.big_data_send_size - c.big_data_send_size_done) (60 * 2 ^ 10 - get32 m 8)
  pub done_lem : done_after c (get32 m 8) ≡ c.big_data_send_size_done + piece_size c (get32 m 8)
  pub size_lem :
      (next_piece c file m).size_all
      ≡ get32 m 8 + 8 + name_size (has_name c) + piece_size c (get32 m 8)
  pub bytes_lem :
      (next_piece c file m).bytes
      ≡ take (piece_size c (get32 m 8)) (drop c.big_data_send_size_done file)
  pub length_lem : length (next_piece c file m).bytes ≡ piece_size c (get32 m 8)
  pub flags_lem :
      ((next_piece c file m).flags < 2 ^ 32)
      × (((next_piece c file m).flags == bigdata_end) ≡ false)
      × (nonzero (bit_and (next_piece c file m).flags bigdata_header) ≡ is_first c)
      × (nonzero (bit_and (next_piece c file m).flags bigdata_continue) ≡ not (is_first c))
  pub address_lem : (next_piece c file m).address ≡ get32 m 8 + 12
  pub start_lem :
      (next_piece c file m).start ≡ (next_piece c file m).address + 8 + name_size (has_name c)
  pub piece : HasPiece m (put_piece c (next_piece c file m) m) c (next_piece c file m)
  pub sent :
      pack_data_with_big_data data_buffer (record c { send_buffer = m }) d ≡ some (after c file m)

module _ (data_buffer : ℕ) (c : Client) (d : Disk) (s file : List ℕ) (m : Mem) (bs : List Block)
    (sending : IsSending c d s file) (carries : CanCarry m bs) (fits : 2 ^ 16 ≤ data_buffer) where
  abbrev a : ℕ
  a = get32 m 8

  abbrev k : ℕ
  k = piece_size c a

  abbrev next : Piece
  next = next_piece c file m

  abbrev done : ℕ
  done = c.big_data_send_size_done

  abbrev before : Client
  before = record c { send_buffer = m }

  k_lem : k ≡ min (c.big_data_send_size - done) (60 * 2 ^ 10 - a)
  unfolding piece_size
  k_lem = rw (rest, can) (ground arith)
    where
      rest : remaining c ≡ c.big_data_send_size - done
      rest = omega (arith, sending.small, sending.so_far)

      can : can_send a ≡ 60 * 2 ^ 10 - a
      can = omega (arith, carries.room)

  done_lem : done_after c a ≡ done + k
  done_lem = mod-eq_of_lt (omega (arith, k_lem, sending.small, sending.so_far))

  size_lem : next.size_all ≡ a + 8 + name_size (has_name c) + k
  unfolding make_piece
  size_lem = mod-eq_of_lt (omega (arith, k_lem, carries.room, name_size-le (has_name c)))

  bytes_lem : next.bytes ≡ take k (drop done file)
  unfolding make_piece
  bytes_lem = refl

  length_lem : length next.bytes ≡ k
  unfolding make_piece
  length_lem = omega (
    arith,
    k_lem,
    length-take k (drop done file),
    length-drop done file,
    sending.size,
    sending.so_far,
  )

  flags_lem :
      (next.flags < 2 ^ 32)
      × ((next.flags == bigdata_end) ≡ false)
      × (nonzero (bit_and next.flags bigdata_header) ≡ is_first c)
      × (nonzero (bit_and next.flags bigdata_continue) ≡ not (is_first c))
  unfolding make_piece
  flags_lem = flags_of-lem (is_first c) (done_after c a == c.big_data_send_size)

  address_lem : next.address ≡ a + 12
  unfolding make_piece
  address_lem = refl

  start_lem : next.start ≡ next.address + 8 + name_size (has_name c)
  unfolding make_piece
  start_lem = refl

  piece : HasPiece m (put_piece c next m) c next
  piece =
      put_piece-HasPiece c next m sending.name_length (omega (arith, address_lem)) start_lem
        (omega (arith, size_lem, k_lem, carries.room, name_size-le (has_name c))) flags_lem.0
        (omega (arith, sending.small))

  sent : pack_data_with_big_data data_buffer before d ≡ some (after c file m)
  unfolding pack_data_with_big_data make_piece piece_size put_piece put_header
  sent =
      ap (λ o. on_string o (λ s. send_from data_buffer before (d.content (FilePath.db_file s))))
        sending.name_string
      ∙ ap (send_from data_buffer before) sending.there
      ∙ rw inside refl
    where
      inside : ltb data_buffer (next.start + length next.bytes) ≡ false
      inside = ground (
        arith,
        start_lem,
        address_lem,
        length_lem,
        k_lem,
        carries.room,
        name_size-le (has_name c),
      )

  pub facts : Facts data_buffer c d file m
  facts = record {
    k_lem = k_lem;
    done_lem = done_lem;
    size_lem = size_lem;
    bytes_lem = bytes_lem;
    length_lem = length_lem;
    flags_lem = flags_lem;
    address_lem = address_lem;
    start_lem = start_lem;
    piece = piece;
    sent = sent;
  }
