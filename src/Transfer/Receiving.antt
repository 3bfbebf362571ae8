-- ===== src/Transfer/Receiving.antt =====
-- What the parts of a file change in the client and on the disk.
use star_server.Prelude.{
  ℕ, ◌≡◌, refl, Option, none, some, if_both, OnSome, OnSome-none, OnSome-some, List,
}
use star_server.Client.{Client}
use star_server.Transfer.Files.{Disk, FilePath, c_string}
use star_server.Transfer.Receive.{
  Part, Received, find_part, on_part, on_name, append_part, continue_part, end_big_data,
  begin_file_data, continue_file_data, end_file_data, process_message_big_data,
  process_message_file_data,
}

-- The number of the last packet is `n`.
abbrev pub KeepsRef : ℕ → Received → Type 0
KeepsRef n r = r.client.pack_ref ≡ n

module _ (n : ℕ) where
  abbrev Good : Option Received → Type 0
  Good = OnSome (KeepsRef n)

  abbrev given : (r : Received) → KeepsRef n r → Good (some r)
  given r e = OnSome-some (KeepsRef n) r e

  append_part-Good :
      (data_buffer : ℕ) (path : FilePath) (before : List ℕ) (a k : ℕ) (c : Client) (d : Disk)
      → c.pack_ref ≡ n
      → Good (append_part data_buffer path before a k c d)
  unfolding append_part
  append_part-Good data_buffer path before a k c d e =
      if_both Good _ _ _ (OnSome-none _) (given _ e)

  continue_part-Good :
      (data_buffer : ℕ) (path : FilePath) (p : Part) (c : Client) (d : Disk)
      → c.pack_ref ≡ n
      → Good (continue_part data_buffer path p c d)
  unfolding continue_part
  continue_part-Good data_buffer path p c d e =
      if_both Good _ _ _
        (if_both Good _ _ _ (append_part-Good data_buffer path _ _ _ c d e) (given _ e)) (given _ e)

  end_big_data-Good : (flags : ℕ) (o : Option Received) → Good o → Good (end_big_data flags o)
  unfolding end_big_data OnSome
  end_big_data-Good flags none h = _
  end_big_data-Good flags (some r) h = if_both (λ o. OnSome (KeepsRef n) o) _ (some _) (some r) h h

  end_file_data-Good : (flags : ℕ) (o : Option Received) → Good o → Good (end_file_data flags o)
  unfolding end_file_data OnSome
  end_file_data-Good flags none h = _
  end_file_data-Good flags (some r) h = if_both (λ o. OnSome (KeepsRef n) o) _ (some _) (some r) h h

  on_part-Good :
      (o : Option Part) (next : Part → Option Received)
      → ((p : Part) → Good (next p))
      → Good (on_part o next)
  on_part-Good none next h = OnSome-none _
  on_part-Good (some p) next h = h p

  on_name-Good :
      (o : Option (List ℕ)) (next : List ℕ → Option Received)
      → ((s : List ℕ) → Good (next s))
      → Good (on_name o next)
  on_name-Good none next h = OnSome-none _
  on_name-Good (some s) next h = h s

  begin_file_data-Good :
      (data_buffer : ℕ) (p : Part) (c : Client) (d : Disk)
      → c.pack_ref ≡ n
      → Good (begin_file_data data_buffer p c d)
  unfolding begin_file_data
  begin_file_data-Good data_buffer p c d e = if_both Good _ _ _ (OnSome-none _) (
      on_name-Good (c_string _) _
        (λ s. if_both Good _ _ _ (append_part-Good data_buffer _ _ _ _ _ _ e) (given _ e)))

  continue_file_data-Good :
      (data_buffer : ℕ) (p : Part) (c : Client) (d : Disk)
      → c.pack_ref ≡ n
      → Good (continue_file_data data_buffer p c d)
  unfolding continue_file_data
  continue_file_data-Good data_buffer p c d e =
      if_both Good _ _ _
        (on_name-Good (c_string _) _ (λ s. continue_part-Good data_buffer _ p c d e)) (given _ e)

  process_big_data-Good :
      (data_buffer : ℕ) (c : Client) (d : Disk)
      → c.pack_ref ≡ n
      → Good (process_message_big_data data_buffer c d)
  unfolding process_message_big_data
  process_big_data-Good data_buffer c d e =
      on_part-Good (find_part data_buffer c.recv_buffer) _ (λ p. end_big_data-Good p.flags _ (
        if_both Good _ _ _
          (if_both Good _ _ _ (append_part-Good data_buffer _ _ _ _ _ _ e) (given _ e))
          (continue_part-Good data_buffer _ p c d e)))

  process_file_data-Good :
      (data_buffer : ℕ) (c : Client) (d : Disk)
      → c.pack_ref ≡ n
      → Good (process_message_file_data data_buffer c d)
  unfolding process_message_file_data
  process_file_data-Good data_buffer c d e =
      on_part-Good (find_part data_buffer c.recv_buffer) _ (λ p. end_file_data-Good p.flags _ (
        if_both Good _ _ _ (begin_file_data-Good data_buffer p c d e)
          (continue_file_data-Good data_buffer p c d e)))

-- Neither part of a file changes the number of the last packet.
pub process_big_data-KeepsRef :
    (data_buffer : ℕ) (c : Client) (d : Disk)
    → OnSome (KeepsRef c.pack_ref) (process_message_big_data data_buffer c d)
process_big_data-KeepsRef data_buffer c d = process_big_data-Good c.pack_ref data_buffer c d refl

pub process_file_data-KeepsRef :
    (data_buffer : ℕ) (c : Client) (d : Disk)
    → OnSome (KeepsRef c.pack_ref) (process_message_file_data data_buffer c d)
process_file_data-KeepsRef data_buffer c d = process_file_data-Good c.pack_ref data_buffer c d refl
