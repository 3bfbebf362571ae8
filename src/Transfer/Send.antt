-- ===== src/Transfer/Send.antt =====
-- The sending side: `_PackDataWithBigData` and `STSV_SendDBFile`.
use star_server.Prelude.{
  ℕ, ◌+◌, ◌-◌, ◌*◌, ◌^◌, bit_or, Bool, true, false, not, ◌&&◌, List, [], ◌∷◌, ◌++◌, Option, none,
  some, if◌then◌else◌, ltb, ◌==◌, length, take, drop, u32, Mem, write, bytes16, bytes32, get16,
  get32,
}
use star_server.Client.{Client}
use star_server.Transfer.Files.{
  bigdata_header, bigdata_continue, bigdata_end, sockmsg_filedata, FilePath, Disk, c_string,
}

-- What `_PackDataWithBigData` does to the send buffer: the type, the header, its END flag, the bytes,
-- and `sizeAll`.
pub record Piece : Type 0 where
  pub address : ℕ
  pub start : ℕ
  pub size_all : ℕ
  pub flags : ℕ
  pub bytes : List ℕ

abbrev pub remaining : Client → ℕ
remaining c = u32 (c.big_data_send_size + 2 ^ 32 - c.big_data_send_size_done)

-- `sizeDataCanSend`, as the `u32` that it is compared as.
abbrev pub can_send : ℕ → ℕ
can_send size_all = u32 (60 * 2 ^ 10 + 2 ^ 32 - size_all)

-- The bytes of this packet: all that remain, or what it can take.
unfoldable pub piece_size : Client → ℕ → ℕ
piece_size c size_all =
    if ltb (remaining c) (can_send size_all) then remaining c else can_send size_all

-- The first piece is marked, and the name of the file stands before it.
abbrev pub is_first : Client → Bool
is_first c = c.big_data_send_size_done == 0

abbrev pub has_name : Client → Bool
has_name c = is_first c && c.file_data_sending

abbrev pub name_size : Bool → ℕ
name_size true = 32
name_size false = 0

abbrev pub done_after : Client → ℕ → ℕ
done_after c size_all = u32 (c.big_data_send_size_done + piece_size c size_all)

abbrev pub begin_flags : Bool → ℕ
begin_flags true = bigdata_header
begin_flags false = bigdata_continue

unfoldable pub make_piece : Client → ℕ → List ℕ → Piece
make_piece c size_all file =
    let flags = begin_flags (is_first c) in
    record {
      address = size_all + 12;
      start = size_all + 12 + 8 + name_size (has_name c);
      size_all = u32 (size_all + 8 + name_size (has_name c) + piece_size c size_all);
      flags =
          if done_after c size_all == c.big_data_send_size then bit_or flags bigdata_end else flags;
      bytes = take (piece_size c size_all) (drop c.big_data_send_size_done file);
    }

abbrev pub mark_type : Bool → Mem → Mem
mark_type true m = write m 0 (bytes16 (bit_or (get16 m 0) sockmsg_filedata))
mark_type false m = m

abbrev pub put_name : Bool → ℕ → List ℕ → Mem → Mem
put_name true a name m = write m a name
put_name false a name m = m

-- The type, `sizeAll`, and the header of a piece.
unfoldable pub put_header : Client → Piece → Mem → Mem
put_header c p m =
    let m0 = write (mark_type c.file_data_sending m) 8 (bytes32 p.size_all) in
    write (write m0 p.address (bytes32 p.flags)) (p.address + 4) (bytes32 c.big_data_send_size)

-- The header, the name of the file in the first piece, and the bytes.
unfoldable pub put_piece : Client → Piece → Mem → Mem
put_piece c p m =
    write (put_name (has_name c) (p.address + 8) c.file_send_name (put_header c p m)) p.start
      p.bytes

abbrev sent_piece : ℕ → Client → Piece → ℕ → Option Client
sent_piece data_buffer c p done =
    if ltb data_buffer (p.start + length p.bytes)
    then none
    else some (record c {
      send_buffer = put_piece c p c.send_buffer;
      big_data_send_size_done = done;
      file_data_sending = c.file_data_sending && not (done == c.big_data_send_size);
    })

-- Where the file does not open nothing is added to the packet.
abbrev pub send_from : ℕ → Client → Option (List ℕ) → Option Client
send_from data_buffer c none = some c
send_from data_buffer c (some file) =
    sent_piece data_buffer c (make_piece c (get32 c.send_buffer 8) file)
      (done_after c (get32 c.send_buffer 8))

abbrev pub on_string : Option (List ℕ) → (List ℕ → Option Client) → Option Client
on_string none next = none
on_string (some s) next = next s

-- `_PackDataWithBigData`. `fileSendName` has 32 bytes.
unfoldable pub pack_data_with_big_data : ℕ → Client → Disk → Option Client
pack_data_with_big_data data_buffer c d =
    on_string (c_string c.file_send_name)
      (λ s. send_from data_buffer c (d.content (FilePath.db_file s)))

-- `sprintf` of a string into an array, with its end.
put_string : List ℕ → List ℕ → Option (List ℕ)
put_string array s =
    if ltb (length s) (length array) then some (s ++ 0 ∷ drop (length s + 1) array) else none

abbrev db_directory : List ℕ
db_directory = 0x44 ∷ 0x42 ∷ 0x46 ∷ 0x49 ∷ 0x4c ∷ 0x45 ∷ 0x2f ∷ []

-- `STSV_SendDBFile`, with the file name before its end. Where the file does not open the name in
-- `fileSendName` keeps its directory.
send_db_file : Client → List ℕ → Disk → Option Client
send_db_file c file_name d =
    if c.file_data_sending
    then some c
    else elim (put_string c.file_send_name (db_directory ++ file_name)) [
      | none ↦ none
      | some with_directory ↦ elim (d.content (FilePath.db_file file_name)) [
        | none ↦ some (record c { file_send_name = with_directory; file_data_sending = false })
        | some file ↦ elim (put_string with_directory file_name) [
          | none ↦ none
          | some plain ↦ some (record c {
            file_send_name = plain;
            big_data_send_size = u32 (length file);
            big_data_send_size_done = 0;
            file_data_sending = true;
          })
        ]
      ]
    ]
