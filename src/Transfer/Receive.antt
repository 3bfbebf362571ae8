-- ===== src/Transfer/Receive.antt =====
-- The receiving side: `_ProessMessageBigData` and `_ProessMessageFileData`.
use star_server.Prelude.{
  ℕ, ◌+◌, ◌-◌, ◌*◌, ◌^◌, ◌%◌, bit_and, Bool, true, false, ◌&&◌, ◌||◌, List, [], ◌∷◌, ◌++◌, Option,
  none, some, if◌then◌else◌, ltb, ◌==◌, nonzero, u16, u32, Mem, read, get16, get32,
}
use star_server.Client.{Client}
use star_server.Packet.{read_table, rounds16, pack_header_size}
use star_server.Transfer.Files.{
  bigdata_header, bigdata_continue, bigdata_end, FilePath, Disk, stored, put_file, c_string,
}

-- `packetDataSize += dataSizeTable[i] & 0x7ff`
unfoldable pub sum_table : ℕ → List ℕ → ℕ
sum_table acc [] = acc
sum_table acc (w ∷ ws) = sum_table (u16 (acc + bit_and w 0x7ff)) ws

-- What stands behind the messages: where it begins, its flags, the size of the whole file, and
-- how many bytes of it there are. `sizeAll` is not negative here, `pack_size` is a `size_t`.
pub record Part : Type 0 where
  pub address : ℕ
  pub flags : ℕ
  pub whole : ℕ
  pub pack_size : ℕ

abbrev pub size_t : ℕ → ℕ
size_t n = n % 2 ^ 64

unfoldable pub find_part : ℕ → Mem → Option Part
find_part data_buffer m =
    let n = rounds16 (get16 m 14) in
    let a =
      u16 (sum_table 0 (read_table m pack_header_size n) + pack_header_size + 2 * get16 m 14) in
    if ltb data_buffer (pack_header_size + 2 * n)
    then none
    else if ltb data_buffer (a + 8)
    then none
    else some (record {
      address = a + 8;
      flags = get32 m a;
      whole = get32 m (a + 4);
      pack_size = size_t (get32 m 8 + 2 ^ 64 - a + 12 - 8);
    })

-- The result 0 or -1, the client, and the disk.
pub record Received : Type 0 where
  pub ok : Bool
  pub client : Client
  pub disk : Disk

-- `fwrite` at the end of the open file, and the count behind it.
unfoldable pub append_part : ℕ → FilePath → List ℕ → ℕ → ℕ → Client → Disk → Option Received
append_part data_buffer path before a n c d =
    if ltb data_buffer (a + n)
    then none
    else some (record {
      ok = true;
      client = record c { big_data_read_size_done = u32 (c.big_data_read_size_done + n) };
      disk = put_file d path (before ++ read c.recv_buffer a n);
    })

abbrev unwritten : Client → Disk → Option Received
unwritten c d = some (record { ok = true; client = c; disk = d })

-- `fopen(.., "ab")`, which may fail without an error.
unfoldable pub continue_part : ℕ → FilePath → Part → Client → Disk → Option Received
continue_part data_buffer path p c d =
    if nonzero (bit_and p.flags bigdata_continue) || nonzero (bit_and p.flags bigdata_end)
    then if d.writable path
      then append_part data_buffer path (stored (d.content path)) p.address p.pack_size c d
      else unwritten c d
    else unwritten c d

abbrev begin_file : Part → Client → Client
begin_file p c = record c { big_data_read_size = p.whole; big_data_read_size_done = 0 }

-- `if (headerBigData[0] & STSOCKMSG_BIGDATA_END)`, unless -1 was returned before.
unfoldable pub end_big_data : ℕ → Option Received → Option Received
end_big_data flags none = none
end_big_data flags (some r) =
    if r.ok && nonzero (bit_and flags bigdata_end)
    then some (record r { client = record r.client { big_data_ready = true } })
    else some r

-- What follows, where the part is found inside the buffer.
abbrev pub on_part : Option Part → (Part → Option Received) → Option Received
on_part none next = none
on_part (some p) next = next p

-- `_ProessMessageBigData`
unfoldable pub process_message_big_data : ℕ → Client → Disk → Option Received
process_message_big_data data_buffer c d = on_part (find_part data_buffer c.recv_buffer) (λ p.
    let path = FilePath.big_data_temp c.idx in
    let c' = record (begin_file p c) { big_data_ready = false } in
    end_big_data p.flags (
      if nonzero (bit_and p.flags bigdata_header)
      then if d.writable path
        then append_part data_buffer path [] p.address p.pack_size c' (put_file d path [])
        else some (record { ok = false; client = c'; disk = d })
      else continue_part data_buffer path p c d))

-- `if (headerBigData[0] == STSOCKMSG_BIGDATA_END)`, unless -1 was returned before.
unfoldable pub end_file_data : ℕ → Option Received → Option Received
end_file_data flags none = none
end_file_data flags (some r) =
    if r.ok && (flags == bigdata_end)
    then some (record r { client = record r.client { file_data_ready = true } })
    else some r

abbrev pub on_name : Option (List ℕ) → (List ℕ → Option Received) → Option Received
on_name none next = none
on_name (some s) next = next s

-- The first part of a file: its name of 32 bytes stands before its bytes.
unfoldable pub begin_file_data : ℕ → Part → Client → Disk → Option Received
begin_file_data data_buffer p c d =
    if ltb data_buffer (p.address + 32)
    then none
    else let name = read c.recv_buffer p.address 32 in
      let c' = record (begin_file p c) { file_data_ready = false; file_data_name = name } in
      on_name (c_string name) (λ s.
        let path = FilePath.received_file c.idx s in
        if d.writable path
        then append_part data_buffer path [] (p.address + 32) (size_t (p.pack_size + 2 ^ 64 - 32))
            c' (put_file d path [])
        else some (record { ok = false; client = c'; disk = d }))

unfoldable pub continue_file_data : ℕ → Part → Client → Disk → Option Received
continue_file_data data_buffer p c d =
    if nonzero (bit_and p.flags bigdata_continue) || nonzero (bit_and p.flags bigdata_end)
    then on_name (c_string c.file_data_name)
        (λ s. continue_part data_buffer (FilePath.received_file c.idx s) p c d)
    else unwritten c d

-- `_ProessMessageFileData`
unfoldable pub process_message_file_data : ℕ → Client → Disk → Option Received
process_message_file_data data_buffer c d = on_part (find_part data_buffer c.recv_buffer) (λ p.
    end_file_data p.flags (
      if nonzero (bit_and p.flags bigdata_header)
      then begin_file_data data_buffer p c d
      else continue_file_data data_buffer p c d))
