-- ===== src/Pool.antt =====
-- The blocks for big data, StarServer/StarSocketServer.cpp: `GetBigDataBufferIdx`, `FreeBigDataBuffer`,
-- `STSV_GetBigData` and `STSV_FreeBigData`. A client is its index, and a pointer to the buffer of a block
-- is the block's index. `initBigDataMemory` is in Startup.
pub mod Owned
pub mod Reached
pub mod Read
mod Examples
use star_server.Prelude.{
  ℕ, zero, suc, ◌+◌, ◌*◌, Bool, true, false, List, Option, none, some, if◌then◌else◌, ltb, ◌==◌,
  length, take, set_at, Mem, write,
}
use star_server.Client.{Client}
use star_server.Transfer.Files.{FilePath, Disk}

abbrev bigdata_pool_block : ℕ
bigdata_pool_block = 1

-- The bytes of a block.
abbrev pub bigdata_size : ℕ
bigdata_size = 1 * 1024 * 1024

-- `bigDataBuffer` of each client is in `buffers`.
pub record Pool : Type 0 where
  pub in_use : ℕ → Bool
  pub lock : Bool
  pub blocks : ℕ → Mem
  pub buffers : ℕ → Option ℕ
  pub clients : ℕ → Client

unfoldable pub find_unused : ℕ → ℕ → (ℕ → Bool) → Option ℕ
find_unused zero i in_use = none
find_unused (suc n) i in_use =
    let rest = find_unused n (i + 1) in_use in if in_use i then rest else some i

abbrev take_block : Option ℕ → Pool → Option ℕ × Pool
take_block none p = (none, record p { lock = false })
take_block (some i) p = (some i, record p { in_use = set_at p.in_use i true; lock = false })

-- `none` on the outside: it goes round as long as the lock is set. On the inside it is -1.
unfoldable pub get_big_data_buffer_idx : Pool → Option (Option ℕ × Pool)
get_big_data_buffer_idx p =
    if p.lock then none else some (take_block (find_unused bigdata_pool_block 0 p.in_use) p)

unfoldable pub free_big_data_buffer : ℕ → Pool → Pool
free_big_data_buffer i p = if p.in_use i then record p { in_use = set_at p.in_use i false } else p

-- How `STSV_GetBigData` ends: it waits for the lock, it writes behind the block, or it returns NULL or
-- the block.
pub data Answer : Type 0 where
  waiting : Answer
  fault : Answer
  returned : Option ℕ → Pool → Answer

-- `fread(buffer, bigDataReadSize, 1, file)`
abbrev read_block : ℕ → List ℕ → Pool → Answer
read_block i got p =
    if ltb bigdata_size (length got)
    then Answer.fault
    else Answer.returned (some i)
        (record p { blocks = set_at p.blocks i (write (p.blocks i) 0 got) })

abbrev pub read_file : ℕ → ℕ → Option (List ℕ) → Pool → Answer
read_file idx i none p = Answer.returned none p
read_file idx i (some bs) p = read_block i (take (p.clients idx).big_data_read_size bs) p

abbrev on_block : ℕ → Disk → Option (Option ℕ × Pool) → Answer
on_block idx disk none = Answer.waiting
on_block idx disk (some (none, p)) = Answer.returned none p
on_block idx disk (some (some i, p)) =
    read_file idx i (disk.content (FilePath.big_data_temp idx))
      (record p { buffers = set_at p.buffers idx (some i) })

-- `STSV_GetBigData`
unfoldable pub get_big_data : ℕ → Disk → Pool → Answer
get_big_data idx disk p =
    if (p.clients idx).big_data_ready
    then on_block idx disk (get_big_data_buffer_idx p)
    else Answer.returned none p

-- The loop of `STSV_FreeBigData`, with n blocks left from i on, for a client that has the block b.
unfoldable pub free_loop : ℕ → ℕ → ℕ → ℕ → Pool → Pool
free_loop idx b zero i p = p
free_loop idx b (suc n) i p =
    let rest = free_loop idx b n (i + 1) p in
    if b == i
    then record (free_big_data_buffer i p) { buffers = set_at p.buffers idx none }
    else rest

abbrev pub free_block : ℕ → Option ℕ → Pool → Pool
free_block idx none p = p
free_block idx (some b) p = free_loop idx b bigdata_pool_block 0 p

-- `STSV_FreeBigData`
unfoldable pub free_big_data : ℕ → Pool → Pool
free_big_data idx p =
    let q = free_block idx (p.buffers idx) p in
    record q {
      buffers = set_at q.buffers idx none;
      clients = set_at q.clients idx (record (q.clients idx) { big_data_ready = false });
    }
