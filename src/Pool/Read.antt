-- ===== src/Pool/Read.antt =====
-- What `STSV_GetBigData` gives the handler.
use star_server.Prelude.{
  ℕ, ◌≤◌, ◌<◌, ◌≡◌, refl, ap, inl, inr, ◌⊎◌, true, false, Bool-cases, List, [], ◌∷◌, some, ltb,
  length, take, set_at, read, write, arith,
}
use star_server.Prelude.Writes.{read-write, set_at_self}
use star_server.Transfer.Files.{FilePath, Disk}
use star_server.Pool.{
  Pool, Answer, bigdata_size, find_unused, get_big_data_buffer_idx, get_big_data,
  free_big_data_buffer, free_loop, free_big_data,
}

take_all : (bs : List ℕ) → take (length bs) bs ≡ bs
take_all [] = refl
take_all (b ∷ bs) = ap (λ t. b ∷ t) (take_all bs)

-- A message of big data is ready for the client, its file has as many bytes as were announced, and the
-- block is free. When the file is not longer than the block, `STSV_GetBigData` returns the block with the
-- file's bytes, and `STSV_FreeBigData` gives it back; for a longer file it writes behind the block.
pub get_big_data-file :
    (idx : ℕ) (disk : Disk) (p : Pool) (bs : List ℕ)
    → (p.clients idx).big_data_ready ≡ true
    → (p.clients idx).big_data_read_size ≡ length bs
    → disk.content (FilePath.big_data_temp idx) ≡ some bs
    → p.lock ≡ false
    → p.in_use 0 ≡ false
    → ((length bs ≤ bigdata_size)
        × ((q : Pool) × (get_big_data idx disk p ≡ Answer.returned (some 0) q)
            × (read (q.blocks 0) 0 (length bs) ≡ bs)
            × (q.in_use 0 ≡ true)
            × ((free_big_data idx q).in_use 0 ≡ false)))
      ⊎ ((bigdata_size < length bs) × (get_big_data idx disk p ≡ Answer.fault))
unfolding get_big_data get_big_data_buffer_idx find_unused free_big_data free_loop
    free_big_data_buffer
get_big_data-file idx disk p bs ready size content free unused =
    elim (Bool-cases (ltb bigdata_size (length bs))) [
      | inl long ↦
          inr (ground arith, rw (ready, free, unused, content, size, take_all bs, long) refl)
      | inr fits ↦ inl (
        ground arith,
        (
          record p {
            in_use = set_at p.in_use 0 true;
            lock = false;
            buffers = set_at p.buffers idx (some 0);
            blocks = set_at p.blocks 0 (write (p.blocks 0) 0 bs);
          },
          rw (ready, free, unused, content, size, take_all bs, fits) refl,
          read-write (p.blocks 0) 0 bs,
          refl,
          rw (set_at_self p.buffers idx (some 0)) refl,
        ),
      )
    ]
