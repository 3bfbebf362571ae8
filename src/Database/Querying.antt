-- ===== src/Database/Querying.antt =====
-- What `STSV_DBQuery` answers, and what it leaves alone.
use mathlib.Core.Path.{subst}
use mathlib.Core.Bool.{true≢false}
use star_server.Prelude.{
  ℕ, ◌≡◌, ◌≢◌, refl, ◌∙◌, sym, ap, inl, inr, Bool, true, false, Bool-cases, not, List, Option, none,
  some, if◌then◌else◌, if_both, OnSome, OnSome-none, OnSome-some, ◌==◌, ==_iff,
}
use star_server.Prelude.Writes.{set_at_self}
use star_server.Database.{
  Rows, MySql, Db, stdb_reconnect, run_query, keep_rows, store_rows, query_again, after_query,
  db_query, server_gone_error,
}

module _ {S : Type 0} (mysql : MySql S) (i : ℕ) (command : List ℕ) where
  -- `true` means that a query returned 0, and the result is what was stored after it.
  pub Answered : Bool × Db S → Type 0
  Answered (ok, db) =
      ok ≡ true
      → (s : S) × ((mysql.query i command s).0 ≡ 0)
        × (db.result i ≡ (mysql.store_result i (mysql.query i command s).1).0)

  refused : (db : Db S) → Answered (false, db)
  unfolding Answered
  refused db e = absurd (true≢false (sym e))

  keep_rows-result :
      (db : Db S) (s : S) (r : Option Rows) → (keep_rows mysql i s db r).1.result i ≡ r
  keep_rows-result db s none = set_at_self db.result i none
  keep_rows-result db s (some r) = set_at_self db.result i (some r)

  store_rows-Answered :
      (db : Db S) (s : S)
      → (mysql.query i command s).0 ≡ 0
      → db.mysql ≡ (mysql.query i command s).1
      → Answered (store_rows mysql i db)
  unfolding Answered store_rows
  store_rows-Answered db s zero same e = (
    s,
    zero,
    keep_rows-result db _ (mysql.store_result i db.mysql).0
        ∙ ap (λ t. (mysql.store_result i t).0) same,
  )

  query_again-Answered : (db : Db S) → Answered (query_again mysql i command db)
  unfolding query_again
  query_again-Answered db =
      if_both Answered (not (stdb_reconnect mysql i db).0) (false, (stdb_reconnect mysql i db).1)
        (if ret == 0 then store_rows mysql i after else (false, after))
        (refused (stdb_reconnect mysql i db).1)
        (elim (Bool-cases (ret == 0)) [
          | inl fine ↦ rw fine (store_rows-Answered after before ((==_iff ret 0).0 fine) refl)
          | inr failed ↦ rw failed (refused after)
        ])
    where
      after : Db S
      after = (run_query mysql i command (stdb_reconnect mysql i db).1).1

      before : S
      before = (stdb_reconnect mysql i db).1.mysql

      ret : ℕ
      ret = (mysql.query i command before).0

  after_query-Answered :
      (db : Db S) (s : S)
      → (mysql.query i command s).0 ≢ server_gone_error
      → db.mysql ≡ (mysql.query i command s).1
      → Answered (after_query mysql i command (mysql.query i command s).0 db)
  unfolding after_query
  after_query-Answered db s there same = elim (Bool-cases (ret == 0)) [
    | inl fine ↦ rw fine (store_rows-Answered db s ((==_iff ret 0).0 fine) same)
    | inr failed ↦ rw failed (elim (Bool-cases (ret == server_gone_error)) [
      | inl gone ↦ absurd (there ((==_iff ret server_gone_error).0 gone))
      | inr other ↦ rw other (
          if_both Answered _ _ _ (refused db)
            (if_both Answered _ _ _ (refused db) (query_again-Answered db)))
    ])
  ]
    where
      ret : ℕ
      ret = (mysql.query i command s).0

db_query-Answered :
    {S : Type 0} (mysql : MySql S) (i : ℕ) (command : List ℕ) (db : Db S)
    → ((s : S) → (mysql.query i command s).0 ≢ server_gone_error)
    → OnSome (Answered mysql i command) (db_query mysql i command db)
unfolding db_query
db_query-Answered mysql i command db there =
    if_both (OnSome (Answered mysql i command)) _ _ _ (OnSome-some _ _ (refused mysql i command _))
      (if_both (OnSome (Answered mysql i command)) _ _ _ (OnSome-none _)
        (OnSome-some _ _ (after_query-Answered mysql i command _ _ (there _) refl)))

-- Let no query return `CR_SERVER_GONE_ERROR`, as the library says of `mysql_query`, which returns 0
-- or 1. When `STSV_DBQuery` returns true, there is a state of the library in which the query of this
-- command returned 0, and the result that is kept is what the library stored after that.
pub db_query-stored :
    {S : Type 0} (mysql : MySql S) (i : ℕ) (command : List ℕ) (db db' : Db S)
    → ((s : S) → (mysql.query i command s).0 ≢ server_gone_error)
    → db_query mysql i command db ≡ some (true, db')
    → (s : S) × ((mysql.query i command s).0 ≡ 0)
      × (db'.result i ≡ (mysql.store_result i (mysql.query i command s).1).0)
unfolding Answered OnSome
db_query-stored mysql i command db db' there e =
    subst (OnSome (Answered mysql i command)) e (db_query-Answered mysql i command db there) refl
