-- ===== src/Database/Examples.antt =====
-- The theorems on the pool, on three connections.
use star_server.Prelude.{
  ℕ, ◌≡◌, ◌≢◌, ◌<◌, refl, true, false, [], ◌∷◌, Option, none, some, if◌then◌else◌, ◌==◌, negsuc,
  pos, set_at, arith,
}
use star_server.Prelude.Counts.{count_true}
use star_server.Database.{
  MySql, Db, Rows, db_find_and_lock_resource, lock_resource, db_query, db_fetch_row, after_query,
  query_again, stdb_reconnect, store_rows, db_release_result, server_gone_error,
}
use star_server.Database.Locking.{IsCounted, IsFirstFree, db_find_and_lock_resource-IsCounted}
use star_server.Database.Values.{Value, db_get_row_string_value}
use star_server.Database.Fetched.{fetch_times, fetch_times-value}
use star_server.Database.Querying.{db_query-stored}

-- The first is locked, the second is not connected. The state of the library counts its queries.
abbrev pool : Db ℕ
pool = record {
  max_connect = 3;
  sql_buffer = 100;
  cur_connect = 1;
  have_connect = true;
  lock = λ i. i == 0;
  connected = λ i. if i == 1 then false else true;
  result = λ i. none;
  num_row = λ i. negsuc 0;
  num_fields = λ i. negsuc 0;
  row = λ i. none;
  mysql = 0;
}

pool-IsCounted : IsCounted pool
unfolding count_true
pool-IsCounted = record { counted = refl }

db_find_and_lock_resource-IsCounted_example :
    (i : ℕ) × (db_find_and_lock_resource 3 pool ≡ some (i, lock_resource pool i))
    × IsFirstFree pool 0 i
    × (i < 3)
    × IsCounted (lock_resource pool i)
db_find_and_lock_resource-IsCounted_example =
    db_find_and_lock_resource-IsCounted pool 2 3 pool-IsCounted (omega arith) refl (omega arith)

abbrev full : Db ℕ
full = record pool { lock = λ i. true; cur_connect = 3 }

-- A library whose first query fails, and whose next succeeds with a row of one column.
abbrev library : MySql ℕ
library = record {
  connect = λ i s. (true, s);
  query = λ i command s. (if s == 0 then 1 else 0, 1);
  errno = λ i s. 2013;
  store_result = λ i s. (some (record { fields = 1; rows = (some (65 ∷ []) ∷ []) ∷ [] }), s);
  insert_id = λ i s. 7;
}

library_gone : (s : ℕ) → (library.query 0 (65 ∷ []) s).0 ≢ server_gone_error
library_gone s e = ground arith

abbrev rows : Option Rows
rows = some (record { fields = 1; rows = (some (65 ∷ []) ∷ []) ∷ [] })

-- The pool after the second query, on a connection that was made again.
abbrev answered : Db ℕ
answered = record pool {
  connected = set_at pool.connected 0 true;
  result = set_at pool.result 0 rows;
  num_row = set_at pool.num_row 0 (pos 1);
  num_fields = set_at pool.num_fields 0 (pos 1);
  mysql = 1;
}

answered-pool : db_query library 0 (65 ∷ []) pool ≡ some (true, answered)
unfolding db_query after_query query_again stdb_reconnect store_rows db_release_result
answered-pool = refl

db_query-stored_example :
    (s : ℕ) × ((library.query 0 (65 ∷ []) s).0 ≡ 0)
    × (answered.result 0 ≡ (library.store_result 0 (library.query 0 (65 ∷ []) s).1).0)
db_query-stored_example =
    db_query-stored library 0 (65 ∷ []) pool answered library_gone answered-pool

fetch_times-value_example :
    (u : Db ℕ) × (db_fetch_row 0 (fetch_times 0 0 answered) ≡ (true, u))
    × (db_get_row_string_value 0 (pos 0) u ≡ Value.returned (some (65 ∷ [])))
    × (db_get_row_string_value 0 (pos 1) u ≡ Value.fault)
fetch_times-value_example =
    fetch_times-value answered 0 0 [] [] (some (65 ∷ []) ∷ []) (some (65 ∷ [])) refl refl refl refl
