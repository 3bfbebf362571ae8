-- ===== src/Transfer/Stored.antt =====
-- What the receiver does with a piece that it found.
use star_server.Prelude.{
  ℕ, ◌+◌, ◌-◌, ◌^◌, ◌≤◌, ◌<◌, ◌≡◌, refl, ◌∙◌, ap, true, false, List, [], ◌∷◌, ◌++◌, Option, some,
  if◌then◌else◌, ltb, ◌==◌, ==_iff, nonzero, bit_and, u32, read, arith,
}
use star_server.Client.{Client}
use star_server.Transfer.Files.{
  Disk, FilePath, path_same, list_same, put_file, c_string, bigdata_header, bigdata_continue,
  bigdata_end,
}
use star_server.Transfer.Receive.{
  Part, Received, find_part, on_part, append_part, continue_part, begin_file_data,
  continue_file_data, end_file_data, process_message_file_data, size_t,
}

list_same_self : (bs : List ℕ) → list_same bs bs ≡ true
unfolding list_same
list_same_self [] = refl
list_same_self (b ∷ bs) = rw ((==_iff b b).1 refl, list_same_self bs) refl

path_same_self : (p : FilePath) → path_same p p ≡ true
unfolding path_same
path_same_self (FilePath.big_data_temp i) = (==_iff i i).1 refl
path_same_self (FilePath.received_file i n) = rw ((==_iff i i).1 refl, list_same_self n) refl
path_same_self (FilePath.db_file n) = list_same_self n

put_file-content : (d : Disk) (p : FilePath) (bs : List ℕ) → (put_file d p bs).content p ≡ some bs
put_file-content d p bs = rw (path_same_self p) refl

-- The call returns 0. The file has these bytes now, the client keeps the file's name and its index,
-- it does not count the file as ready, and the same paths can be written.
pub record IsStored (i : ℕ) (d : Disk) (path : FilePath) (bs name : List ℕ) (out : Received)
    : Type 0 where
  pub ok : out.ok ≡ true
  pub content : out.disk.content path ≡ some bs
  pub named : out.client.file_data_name ≡ name
  pub idx : out.client.idx ≡ i
  pub writable : out.disk.writable ≡ d.writable

abbrev pub Stores : Option Received → ℕ → Disk → FilePath → List ℕ → List ℕ → Type 0
Stores o i d path bs name = (out : Received) × (o ≡ some out) × IsStored i d path bs name out

module _ (data_buffer : ℕ) (r : Client) (d : Disk) (q : Part) (s : List ℕ) (k : ℕ)
    (found : find_part data_buffer r.recv_buffer ≡ some q)
    (not_end : (q.flags == bigdata_end) ≡ false)
    (writable : d.writable (FilePath.received_file r.idx s) ≡ true) where
  abbrev path : FilePath
  path = FilePath.received_file r.idx s

  -- The first piece, with the name before its bytes.
  pub begins :
      nonzero (bit_and q.flags bigdata_header) ≡ true
      → c_string (read r.recv_buffer q.address 32) ≡ some s
      → q.pack_size ≡ 32 + k
      → k < 2 ^ 32
      → q.address + 32 + k ≤ data_buffer
      → Stores
          (process_message_file_data data_buffer r d)
          r.idx
          d
          path
          (read r.recv_buffer (q.address + 32) k)
          (read r.recv_buffer q.address 32)
  unfolding process_message_file_data begin_file_data append_part end_file_data
  begins header name size small fits = (
    out,
    ap (λ o. on_part o step) found
        ∙ rw (header, name_fits, name, writable, size_lem, bytes_fit, not_end) refl,
    record {
      ok = refl;
      content = put_file-content (put_file d path []) path (read r.recv_buffer (q.address + 32) k);
      named = refl;
      idx = refl;
      writable = refl;
    },
  )
    where
      out : Received
      out = record {
        ok = true;
        client = record r {
          big_data_read_size = q.whole;
          big_data_read_size_done = u32 (0 + k);
          file_data_ready = false;
          file_data_name = read r.recv_buffer q.address 32;
        };
        disk = put_file (put_file d path []) path (read r.recv_buffer (q.address + 32) k);
      }

      step : Part → Option Received
      step p = end_file_data p.flags (
          if nonzero (bit_and p.flags bigdata_header)
          then begin_file_data data_buffer p r d
          else continue_file_data data_buffer p r d)

      name_fits : ltb data_buffer (q.address + 32) ≡ false
      name_fits = ground arith

      size_lem : size_t (q.pack_size + 2 ^ 64 - 32) ≡ k
      size_lem = omega (arith, size)

      bytes_fit : ltb data_buffer (q.address + 32 + k) ≡ false
      bytes_fit = ground arith

  -- A later piece.
  pub continues :
      (before : List ℕ)
      → nonzero (bit_and q.flags bigdata_header) ≡ false
      → nonzero (bit_and q.flags bigdata_continue) ≡ true
      → c_string r.file_data_name ≡ some s
      → d.content path ≡ some before
      → q.pack_size ≡ k
      → q.address + k ≤ data_buffer
      → Stores
          (process_message_file_data data_buffer r d)
          r.idx
          d
          path
          (before ++ read r.recv_buffer q.address k)
          r.file_data_name
  unfolding process_message_file_data continue_file_data continue_part append_part end_file_data
  continues before header continue name there size fits = (
    out,
    ap (λ o. on_part o step) found
        ∙ rw (header, continue, name, writable, size, bytes_fit, there, not_end) refl,
    record {
      ok = refl;
      content = put_file-content d path (before ++ read r.recv_buffer q.address k);
      named = refl;
      idx = refl;
      writable = refl;
    },
  )
    where
      out : Received
      out = record {
        ok = true;
        client = record r { big_data_read_size_done = u32 (r.big_data_read_size_done + k) };
        disk = put_file d path (before ++ read r.recv_buffer q.address k);
      }

      step : Part → Option Received
      step p = end_file_data p.flags (
          if nonzero (bit_and p.flags bigdata_header)
          then begin_file_data data_buffer p r d
          else continue_file_data data_buffer p r d)

      bytes_fit : ltb data_buffer (q.address + k) ≡ false
      bytes_fit = ground arith
