-- ===== src/Database/Locking.antt =====
-- Which connections are locked, and how many.
use mathlib.Core.Bool.{true≢false}
use star_server.Prelude.{
  ℕ, zero, suc, ◌+◌, ◌≤◌, ◌<◌, ◌≡◌, ◌≢◌, refl, ◌∙◌, sym, ap, inl, inr, Bool, true, false,
  Bool-cases, not, ◌&&◌, none, some, if◌then◌else◌, ◌==◌, ==_iff, leb, arith,
}
use star_server.Prelude.Writes.{set_at_self, set_at_ne}
use star_server.Prelude.Counts.{count_true, count_true-set, count_true-clear}
use star_server.Database.{
  lock_found, Db, find_free, lock_resource, db_find_and_lock_resource, db_unlock_resource,
}

-- Whether `STSV_DBFindAndLockResource` may take connection i.
abbrev is_free : {S : Type 0} → Db S → ℕ → Bool
is_free db i = not (db.lock i) && db.connected i

-- The first free connection from i on, before any other.
pub record IsFirstFree {S : Type 0} (db : Db S) (i j : ℕ) : Type 0 where
  pub free : is_free db j ≡ true
  pub from : i ≤ j
  pub first : (k : ℕ) → i ≤ k → k < j → is_free db k ≡ false

find_free-first :
    {S : Type 0} (db : Db S) (f i j : ℕ)
    → j < db.max_connect
    → is_free db j ≡ true
    → i ≤ j
    → j < f + i
    → (k : ℕ) × (find_free f i db ≡ some k) × IsFirstFree db i k × (k ≤ j)
unfolding find_free
find_free-first db zero i j inside free from enough = absurd (omega arith)
find_free-first db (suc f) i j inside free from enough = elim (Bool-cases (is_free db i)) [
  | inl here ↦ (
    i,
    rw here refl,
    record { free = here; from = omega arith; first = λ k l h. absurd (omega arith) },
    from,
  )
  | inr taken ↦
      let different : i ≢ j = λ e. true≢false (sym free ∙ ap (is_free db) (sym e) ∙ taken) in
      let inside_next : leb db.max_connect (i + 1) ≡ false = ground arith in
      let (k, e, found, before) =
        find_free-first db f (i + 1) j inside free (omega (arith, different)) (omega arith) in
      (
        k,
        rw (taken, inside_next) e,
        record {
          free = found.free;
          from = omega (arith, found.from);
          first = λ n l h. elim (Bool-cases (n == i)) [
            | inl same ↦ ap (is_free db) ((==_iff n i).0 same) ∙ taken
            | inr other ↦ found.first n (ground arith) h
          ];
        },
        before,
      )
]

none_free :
    {S : Type 0} (db : Db S) (f i : ℕ)
    → ((k : ℕ) → k < db.max_connect → is_free db k ≡ false)
    → i < db.max_connect
    → find_free f i db ≡ none
unfolding find_free
none_free db zero i taken inside = refl
none_free db (suc f) i taken inside =
    rw (taken i inside)
      (none_free db f (if leb db.max_connect (i + 1) then 0 else i + 1) taken (ground arith))

-- The count of the pool is the number of its locked connections.
pub record IsCounted {S : Type 0} (db : Db S) : Type 0 where
  pub counted : db.cur_connect ≡ count_true db.lock db.max_connect

is_free-lock : {S : Type 0} (db : Db S) (i : ℕ) → is_free db i ≡ true → db.lock i ≡ false
is_free-lock db i e = elim (Bool-cases (db.lock i)) [
  | inl locked ↦ absurd (true≢false (sym e ∙ ap (λ b. not b && db.connected i) locked))
  | inr fine ↦ fine
]

-- With a free connection below the maximum, `STSV_DBFindAndLockResource` returns after at most that
-- many rounds. It returns the first connection that is free, which is locked from then on; the
-- other locks stay, and the count stays the number of locked connections.
pub db_find_and_lock_resource-IsCounted :
    {S : Type 0} (db : Db S) (j fuel : ℕ)
    → IsCounted db
    → j < db.max_connect
    → is_free db j ≡ true
    → db.max_connect ≤ fuel
    → (i : ℕ) × (db_find_and_lock_resource fuel db ≡ some (i, lock_resource db i))
      × IsFirstFree db 0 i
      × (i < db.max_connect)
      × IsCounted (lock_resource db i)
unfolding db_find_and_lock_resource
db_find_and_lock_resource-IsCounted db j fuel counted inside free enough =
    let (i, e, found, before) =
      find_free-first db fuel 0 j inside free (omega arith) (omega arith) in
    (
      i,
      ap (lock_found db) e,
      found,
      omega arith,
      record {
        counted = omega (
          arith,
          counted.counted,
          count_true-set db.lock i db.max_connect (omega arith) (is_free-lock db i found.free),
        );
      },
    )

-- With no free connection it never returns: it goes round, with the mutex locked, whatever the fuel.
db_find_and_lock_resource_waits :
    {S : Type 0} (db : Db S) (fuel : ℕ)
    → ((k : ℕ) → k < db.max_connect → is_free db k ≡ false)
    → 0 < db.max_connect
    → db_find_and_lock_resource fuel db ≡ none
unfolding db_find_and_lock_resource
db_find_and_lock_resource_waits db fuel taken some_connection =
    ap (lock_found db) (none_free db fuel 0 taken some_connection)

-- `STSV_DBUnlockResource` of a connection below the maximum keeps the count right, whether the
-- connection was locked or not, and leaves it unlocked and every other lock as it was.
db_unlock_resource-IsCounted :
    {S : Type 0} (db : Db S) (i : ℕ)
    → IsCounted db
    → i < db.max_connect
    → IsCounted (db_unlock_resource i db)
      × ((db_unlock_resource i db).lock i ≡ false)
      × ((k : ℕ) → k ≢ i → (db_unlock_resource i db).lock k ≡ db.lock k)
unfolding db_unlock_resource
db_unlock_resource-IsCounted db i counted inside = elim (Bool-cases (db.lock i)) [
  | inl locked ↦ rw locked (
    record {
      counted =
          omega (arith, counted.counted, count_true-clear db.lock i db.max_connect inside locked);
    },
    set_at_self db.lock i false,
    λ k h. set_at_ne db.lock i k false h,
  )
  | inr unlocked ↦ rw unlocked (counted, unlocked, λ k h. refl)
]
