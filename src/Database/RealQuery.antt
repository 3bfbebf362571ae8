-- ===== src/Database/RealQuery.antt =====
-- `STSV_RealQuery`, `STDB_DisConnect`, `STSV_DBHaveConnect`, the two counts, and `STSV_DBSaveFile`. The `query` of the library is
-- `mysql_real_query` here, which is given the command and its length.
use star_server.Prelude.{
  ℕ, zero, suc, ◌+◌, ◌≡◌, ◌≢◌, refl, ap, Bool, true, false, take, not, List, Option, none, some,
  if◌then◌else◌, leb, ◌==◌, length, ==-false,
}
use star_server.Transfer.Files.{FilePath, Disk, put_file}
use star_server.Database.{
  MySql, Db, db_release_result, store_rows, run_query, stdb_reconnect, query_again, after_query,
  db_query, server_gone_error, out_of_memory, is_final,
}

module _ {S : Type 0} (mysql : MySql S) where
  -- What follows the first `mysql_real_query`.
  abbrev pub after_real_query : ℕ → List ℕ → ℕ → Db S → Bool × Db S
  after_real_query i command ret db =
      if ret == 0
      then store_rows mysql i db
      else if ret == server_gone_error
      then store_rows mysql i (run_query mysql i command (stdb_reconnect mysql i db).1).1
      else query_again mysql i command db

  -- `STSV_RealQuery`
  unfoldable pub real_query : ℕ → List ℕ → Db S → Option (Bool × Db S)
  real_query i command db =
      let db' = db_release_result i db in
      if not (db.lock i)
      then some (false, db')
      else if leb db.sql_buffer (length command)
      then none
      else let (ret, db'') = run_query mysql i command db' in
        some (after_real_query i command ret db'')

-- `mysql_close` of one connection, where it has one.
abbrev close_one : {S : Type 0} → (ℕ → S → S) → ℕ → Db S → Db S
close_one close i db = if db.connected i then record db { mysql = close i db.mysql } else db

unfoldable pub disconnect_loop : {S : Type 0} → (ℕ → S → S) → ℕ → ℕ → Db S → Db S
disconnect_loop close zero i db = db
disconnect_loop close (suc n) i db =
    disconnect_loop close n (i + 1) (close_one close i (db_release_result i db))

-- `STDB_DisConnect`
unfoldable pub stdb_disconnect : {S : Type 0} → (ℕ → S → S) → Db S → Db S
stdb_disconnect close db = disconnect_loop close db.max_connect 0 db

-- `STSV_DBHaveConnect`
unfoldable db_have_connect : {S : Type 0} → Db S → Bool
db_have_connect db = db.have_connect

-- `STSV_DBGetMaxConnection`, `STSV_DBGetCurConnection`
unfoldable db_get_max_connection : {S : Type 0} → Db S → ℕ
db_get_max_connection db = db.max_connect

unfoldable db_get_cur_connection : {S : Type 0} → Db S → ℕ
db_get_cur_connection db = db.cur_connect

-- `STSV_DBSaveFile`. It prints an array that is not set into itself, and not `fileName`: the name that
-- comes out, behind `DBFILE/`, is the argument `printed`.
db_save_file : List ℕ → List ℕ → ℕ → Disk → Bool × Disk
db_save_file printed buffer size d =
    let path = FilePath.db_file printed in
    if d.writable path then (true, put_file d path (take size buffer)) else (false, d)

after_real_query-after_query :
    {S : Type 0} (mysql : MySql S) (i : ℕ) (command : List ℕ) (ret : ℕ) (db : Db S)
    → ret ≢ out_of_memory
    → is_final mysql (mysql.errno i db.mysql) ≡ false
    → after_real_query mysql i command ret db ≡ after_query mysql i command ret db
unfolding after_query
after_real_query-after_query mysql i command ret db room other =
    rw (==-false ret out_of_memory room, other) refl

-- Let `mysql_real_query` do what `mysql_query` does. When the first query does not return
-- `CR_OUT_OF_MEMORY`, and the error number behind it is none of the three for which `STSV_DBQuery` gives
-- up, `STSV_RealQuery` does what `STSV_DBQuery` does.
real_query-db_query :
    {S : Type 0} (mysql : MySql S) (i : ℕ) (command : List ℕ) (db : Db S)
    → (mysql.query i command (db_release_result i db).mysql).0 ≢ out_of_memory
    → is_final mysql (mysql.errno i (mysql.query i command (db_release_result i db).mysql).1)
      ≡ false
    → real_query mysql i command db ≡ db_query mysql i command db
unfolding real_query db_query
real_query-db_query {S = S} mysql i command db room other =
    ap
      (λ a.
        if not (db.lock i)
        then some (false, db_release_result i db)
        else if leb db.sql_buffer (length command)
        then none
        else some a)
      (after_real_query-after_query mysql i command ret after room other)
  where
    ret : ℕ
    ret = (run_query mysql i command (db_release_result i db)).0

    after : Db S
    after = (run_query mysql i command (db_release_result i db)).1
