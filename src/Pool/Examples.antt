-- ===== src/Pool/Examples.antt =====
-- A client gets its big data, and another waits for the block.
use star_server.Prelude.{
  ℕ, ◌≤◌, ◌<◌, ◌≡◌, refl, ◌⊎◌, true, false, List, [], ◌∷◌, none, some, length, read, set_at, write,
}
use star_server.Packet.Examples.{fresh}
use star_server.Transfer.Files.{Disk}
use star_server.Pool.{
  Pool, Answer, bigdata_size, find_unused, get_big_data_buffer_idx, get_big_data, free_big_data,
}
use star_server.Pool.Reached.{Step, Reaches, Reaches-one_owner}
use star_server.Pool.Read.{get_big_data-file}

abbrev start : Pool
start = record {
  in_use = λ i. false;
  lock = false;
  blocks = λ i k. 0;
  buffers = λ c. none;
  clients = λ c. fresh;
}

abbrev file : List ℕ
file = 7 ∷ 8 ∷ 9 ∷ []

abbrev disk : Disk
disk = record { content = λ q. some file; writable = λ q. true }

abbrev received : Pool
received = record start {
  clients = set_at start.clients 2 (record fresh { big_data_ready = true; big_data_read_size = 3 });
}

abbrev given : Pool
given = record received {
  in_use = set_at start.in_use 0 true;
  buffers = set_at start.buffers 2 (some 0);
  blocks = set_at start.blocks 0 (write (start.blocks 0) 0 file);
}

given-Reaches : Reaches start given
unfolding get_big_data get_big_data_buffer_idx find_unused
given-Reaches =
    Reaches.goes_on _ _ (Reaches.goes_on _ _ Reaches.begins (Step.receives 2 3))
      (Step.gets 2 disk (some 0) given refl)

Reaches-one_owner_example :
    (given.in_use 0 ≡ true)
    × ((e : ℕ) → given.buffers e ≡ some 0 → 2 ≡ e)
    × (get_big_data 1 disk given ≡ Answer.returned none given)
    × ((free_big_data 2 given).in_use 0 ≡ false)
Reaches-one_owner_example =
    Reaches-one_owner start given 2 1 0 disk
      (record { free = refl; unused = λ i. refl; nothing = λ c. refl }) given-Reaches refl

get_big_data-file_example :
    ((length file ≤ bigdata_size)
      × ((q : Pool) × (get_big_data 2 disk received ≡ Answer.returned (some 0) q)
          × (read (q.blocks 0) 0 (length file) ≡ file)
          × (q.in_use 0 ≡ true)
          × ((free_big_data 2 q).in_use 0 ≡ false)))
    ⊎ ((bigdata_size < length file) × (get_big_data 2 disk received ≡ Answer.fault))
get_big_data-file_example = get_big_data-file 2 disk received file refl refl refl refl refl
