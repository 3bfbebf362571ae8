-- ===== src/Database/Connecting.antt =====
-- `STDB_Connect` locks no connection.
use star_server.Prelude.{
  ℕ, zero, suc, ◌+◌, ◌≡◌, refl, Bool, true, false, Bool-cases, inl, inr, ◌==◌,
}
use star_server.Database.{Db, MySql, connect_one, connect_loop, stdb_connect}

-- No connection is locked.
abbrev pub Unlocked : {S : Type 0} → Db S → Type 0
Unlocked db = (i : ℕ) → db.lock i ≡ false

module _ {S : Type 0} (mysql : MySql S) where
  connect_one-Unlocked :
      (i : ℕ) (ok : Bool) (s : S) (db : Db S) → Unlocked db → Unlocked (connect_one mysql i ok s db)
  connect_one-Unlocked i true s db h =
      λ k. elim (Bool-cases (k == i)) [ inl same ↦ rw same refl | inr other ↦ rw other (h k) ]
  connect_one-Unlocked i false s db h = h

  connect_loop-Unlocked :
      (n i count : ℕ) (db : Db S) → Unlocked db → Unlocked (connect_loop mysql n i count db).1
  unfolding connect_loop
  connect_loop-Unlocked zero i count db h = h
  connect_loop-Unlocked (suc n) i count db h =
      connect_loop-Unlocked n (i + 1) _ _ (connect_one-Unlocked i _ _ db h)

  pub stdb_connect-Unlocked : (db : Db S) → Unlocked db → Unlocked (stdb_connect mysql db).1
  unfolding stdb_connect
  stdb_connect-Unlocked db h = connect_loop-Unlocked db.max_connect 0 0 db h
