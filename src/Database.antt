-- ===== src/Database.antt =====
-- The pool of database connections, StarServer/StarSocketServer.cpp from `STDB_Connect` to
-- `STSV_DBReleaseResult`. The MySQL client library is a parameter: a state `S` and what its calls
-- return. A connection's arrays are functions of its index.
pub mod Locking
pub mod Querying
pub mod Connecting
pub mod Values
pub mod Fetched
pub mod RealQuery
mod Examples
use star_server.Prelude.{
  ℕ, zero, suc, ◌+◌, ◌-◌, Bool, true, false, not, ◌&&◌, ◌||◌, List, [], ◌∷◌, Option, none, some,
  if◌then◌else◌, ltb, leb, ◌==◌, length, set_at, ℤ, pos, negsuc,
}

-- A row is a list of values, of which SQL's NULL is `none`.
abbrev pub Row : Type 0
Row = List (Option (List ℕ))

-- A stored result: the number of columns and the rows that are still to be fetched.
pub record Rows : Type 0 where
  pub fields : ℕ
  pub rows : List Row

-- The library's calls on a connection: whether `mysql_real_connect` gives one, what `mysql_query`
-- returns, `mysql_errno`, `mysql_store_result`, and `mysql_insert_id`.
pub record MySql (S : Type 0) : Type 0 where
  pub connect : ℕ → S → Bool × S
  pub query : ℕ → List ℕ → S → ℕ × S
  pub errno : ℕ → S → ℕ
  pub store_result : ℕ → S → Option Rows × S
  pub insert_id : ℕ → S → ℕ

pub record Db (S : Type 0) : Type 0 where
  pub max_connect : ℕ
  pub sql_buffer : ℕ
  pub cur_connect : ℕ
  pub have_connect : Bool
  pub lock : ℕ → Bool
  pub connected : ℕ → Bool
  pub result : ℕ → Option Rows
  pub num_row : ℕ → ℤ
  pub num_fields : ℕ → ℤ
  pub row : ℕ → Option Row
  pub mysql : S

-- `CR_SERVER_GONE_ERROR` and `CR_OUT_OF_MEMORY`.
abbrev pub server_gone_error : ℕ
server_gone_error = 2006

abbrev pub out_of_memory : ℕ
out_of_memory = 2008

-- `while (foundIdx == -1)`. A round looks at one connection; `none`: it still waits.
pub find_free : {S : Type 0} → ℕ → ℕ → Db S → Option ℕ
find_free zero i db = none
find_free (suc f) i db =
    let rest = find_free f (if leb db.max_connect (i + 1) then 0 else i + 1) db in
    if not (db.lock i) && db.connected i then some i else rest

abbrev pub lock_resource : {S : Type 0} → Db S → ℕ → Db S
lock_resource db i = record db { cur_connect = db.cur_connect + 1; lock = set_at db.lock i true }

abbrev pub lock_found : {S : Type 0} → Db S → Option ℕ → Option (ℕ × Db S)
lock_found db none = none
lock_found db (some i) = some (i, lock_resource db i)

-- `STSV_DBFindAndLockResource`, under its mutex: the index, and the pool.
pub db_find_and_lock_resource : {S : Type 0} → ℕ → Db S → Option (ℕ × Db S)
db_find_and_lock_resource fuel db = lock_found db (find_free fuel 0 db)

-- `STSV_DBUnlockResource`. A count below 0 is set to 0, which the difference is.
pub db_unlock_resource : {S : Type 0} → ℕ → Db S → Db S
db_unlock_resource i db =
    if db.lock i
    then record db { cur_connect = db.cur_connect - 1; lock = set_at db.lock i false }
    else db

abbrev release : {S : Type 0} → ℕ → Db S → Option Rows → Db S
release i db none = db
release i db (some r) = record db {
  result = set_at db.result i none;
  num_fields = set_at db.num_fields i (negsuc 0);
  num_row = set_at db.num_row i (negsuc 0);
}

-- `STSV_DBReleaseResult`
pub db_release_result : {S : Type 0} → ℕ → Db S → Db S
db_release_result i db = release i db (db.result i)

module _ {S : Type 0} (mysql : MySql S) where
  abbrev pub connect_one : ℕ → Bool → S → Db S → Db S
  connect_one i true s db = record db {
    lock = set_at db.lock i false;
    connected = set_at db.connected i true;
    have_connect = true;
    mysql = s;
  }
  connect_one i false s db = record db { connected = set_at db.connected i false; mysql = s }

  -- The loop of `STDB_Connect` from connection i on, with the count of those that connect.
  pub connect_loop : ℕ → ℕ → ℕ → Db S → ℕ × Db S
  connect_loop zero i count db = (count, db)
  connect_loop (suc n) i count db =
      let (ok, s) = mysql.connect i db.mysql in
      connect_loop n (i + 1) (if ok then count + 1 else count) (connect_one i ok s db)

  -- `STDB_Connect`
  pub stdb_connect : Db S → ℕ × Db S
  stdb_connect db = connect_loop db.max_connect 0 0 db

  -- `STDB_ReConnect`
  pub stdb_reconnect : ℕ → Db S → Bool × Db S
  stdb_reconnect i db =
      let (ok, s) = mysql.connect i db.mysql in
      (ok, record db { connected = set_at db.connected i ok; mysql = s })

  abbrev pub run_query : ℕ → List ℕ → Db S → ℕ × Db S
  run_query i command db =
      let (ret, s) = mysql.query i command db.mysql in (ret, record db { mysql = s })

  abbrev pub keep_rows : ℕ → S → Db S → Option Rows → Bool × Db S
  keep_rows i s db none = (true, record db { result = set_at db.result i none; mysql = s })
  keep_rows i s db (some r) = (
    true,
    record db {
      result = set_at db.result i (some r);
      mysql = s;
      num_row = set_at db.num_row i (pos (length r.rows));
      num_fields = set_at db.num_fields i (pos r.fields);
    },
  )

  -- From `mysql_store_result` on.
  pub store_rows : ℕ → Db S → Bool × Db S
  store_rows i db = let (r, s) = mysql.store_result i db.mysql in keep_rows i s db r

  -- The last branch: another error than a missing table, a syntax error or a duplicate key.
  pub query_again : ℕ → List ℕ → Db S → Bool × Db S
  query_again i command db =
      let (ok, db1) = stdb_reconnect i db in
      let (ret, db2) = run_query i command db1 in
      if not ok then (false, db1) else if ret == 0 then store_rows i db2 else (false, db2)

  abbrev pub is_final : ℕ → Bool
  is_final errno = errno == 1146 || errno == 1064 || errno == 1062

  -- What follows the first `mysql_query`.
  pub after_query : ℕ → List ℕ → ℕ → Db S → Bool × Db S
  after_query i command ret db =
      if ret == 0
      then store_rows i db
      else if ret == server_gone_error
      then store_rows i (run_query i command (stdb_reconnect i db).1).1
      else if ret == out_of_memory
      then (false, db)
      else if is_final (mysql.errno i db.mysql)
      then (false, db)
      else query_again i command db

  -- `STSV_DBQuery`, with the command that `vsprintf` makes. `none`: it leaves its buffer.
  pub db_query : ℕ → List ℕ → Db S → Option (Bool × Db S)
  db_query i command db =
      let db' = db_release_result i db in
      if not (db.lock i)
      then some (false, db')
      else if leb db.sql_buffer (length command)
      then none
      else let (ret, db'') = run_query i command db' in some (after_query i command ret db'')

  -- `STSV_DBLastInsert`
  pub db_last_insert : ℕ → Db S → ℕ × Db S
  db_last_insert i db =
      let db' = db_release_result i db in
      (if db.lock i then mysql.insert_id i db'.mysql else 0, db')

-- `STSV_DBNumRow`, `STSV_DBNumColum`: 0 stands for `false`.
db_num_row : {S : Type 0} → ℕ → Db S → ℤ
db_num_row i db = if db.lock i then db.num_row i else pos 0

db_num_colum : {S : Type 0} → ℕ → Db S → ℤ
db_num_colum i db = if db.lock i then db.num_fields i else pos 0

abbrev fetch_from : {S : Type 0} → ℕ → Db S → ℕ → List Row → Bool × Db S
fetch_from i db n [] = (false, record db { row = set_at db.row i none })
fetch_from i db n (r ∷ rs) = (
  true,
  record db {
    row = set_at db.row i (some r);
    result = set_at db.result i (some (record { fields = n; rows = rs }));
  },
)

abbrev fetch : {S : Type 0} → ℕ → Db S → Option Rows → Bool × Db S
fetch i db none = (false, db)
fetch i db (some r) = fetch_from i db r.fields r.rows

-- `STSV_DBFetchRow`
pub db_fetch_row : {S : Type 0} → ℕ → Db S → Bool × Db S
db_fetch_row i db = if db.lock i then fetch i db (db.result i) else (false, db)
