-- ===== src/Database/Fetched.antt =====
-- The rows of a result, one `STSV_DBFetchRow` after the other, and their values.
use star_server.Prelude.{
  ℕ, zero, suc, ◌<◌, ◌≤◌, ◌≡◌, refl, ap, true, false, List, [], ◌∷◌, ◌++◌, Option, none, some, ltb,
  length, get_elem?, pos, arith,
}
use mathlib.Core.Option.{none-ne-some}
use star_server.Prelude.Writes.{set_at_self}
use star_server.Database.{Row, Db, db_fetch_row}
use star_server.Database.Values.{Value, string_value, db_get_row_string_value}

-- n calls of `STSV_DBFetchRow`.
unfoldable pub fetch_times : {S : Type 0} → ℕ → ℕ → Db S → Db S
fetch_times i zero db = db
fetch_times i (suc n) db = fetch_times i n (db_fetch_row i db).1

-- The string that stands for a value.
abbrev shown : Option (List ℕ) → List ℕ
shown none = b'0' ∷ []
shown (some text) = text

-- A locked connection whose rows are still to be fetched.
record HasRows {S : Type 0} (i fields : ℕ) (rows : List Row) (db : Db S) : Type 0 where
  locked : db.lock i ≡ true
  result : db.result i ≡ some (record { fields = fields; rows = rows })
  num : db.num_fields i ≡ pos fields

module _ {S : Type 0} (i fields : ℕ) where
  fetch-HasRows :
      (r : Row) (rs : List Row) (db : Db S)
      → HasRows i fields (r ∷ rs) db
      → HasRows i fields rs (db_fetch_row i db).1
  unfolding db_fetch_row
  fetch-HasRows r rs db h = record {
    locked = rw (h.locked, h.result) h.locked;
    result = rw (h.locked, h.result) (set_at_self db.result i _);
    num = rw (h.locked, h.result) h.num;
  }

  fetch-row :
      (r : Row) (rs : List Row) (db : Db S)
      → HasRows i fields (r ∷ rs) db
      → ((db_fetch_row i db).0 ≡ true) × ((db_fetch_row i db).1.row i ≡ some r)
  unfolding db_fetch_row
  fetch-row r rs db h =
      (rw (h.locked, h.result) refl, rw (h.locked, h.result) (set_at_self db.row i (some r)))

  fetch_times-HasRows :
      (before rs : List Row) (db : Db S)
      → HasRows i fields (before ++ rs) db
      → HasRows i fields rs (fetch_times i (length before) db)
  unfolding fetch_times
  fetch_times-HasRows [] rs db h = h
  fetch_times-HasRows (r ∷ before) rs db h =
      fetch_times-HasRows before rs (db_fetch_row i db).1 (fetch-HasRows r (before ++ rs) db h)

get_elem?-lt : {A : Type 0} (xs : List A) (k : ℕ) (v : A) → get_elem? xs k ≡ some v → k < length xs
get_elem?-lt [] k v e = absurd (none-ne-some v e)
get_elem?-lt (x ∷ xs) zero v e = omega arith
get_elem?-lt (x ∷ xs) (suc k) v e = omega (arith, get_elem?-lt xs k v e)

get_elem?-length : {A : Type 0} (xs : List A) → get_elem? xs (length xs) ≡ none
get_elem?-length [] = refl
get_elem?-length (x ∷ xs) = get_elem?-length xs

not_greater : (a b : ℕ) → a ≤ b → ltb b a ≡ false
not_greater a b l = ground arith

string_value-some : (v : Option (List ℕ)) → string_value (some v) ≡ Value.returned (some (shown v))
string_value-some none = refl
string_value-some (some text) = refl

-- A locked connection has a result whose rows have as many values as the library says it has columns.
-- After one call of `STSV_DBFetchRow` for each row before a row, the next returns true, and
-- `STSV_DBGetRowStringValue` of a column gives the row's value there, or "0" for NULL. The index that is
-- the number of columns is not refused: it is an access behind the row.
pub fetch_times-value :
    {S : Type 0} (db : Db S) (i k : ℕ) (before after : List Row) (row : Row) (v : Option (List ℕ))
    → db.lock i ≡ true
    → db.result i ≡ some (record { fields = length row; rows = before ++ row ∷ after })
    → db.num_fields i ≡ pos (length row)
    → get_elem? row k ≡ some v
    → (u : Db S) × (db_fetch_row i (fetch_times i (length before) db) ≡ (true, u))
      × (db_get_row_string_value i (pos k) u ≡ Value.returned (some (shown v)))
      × (db_get_row_string_value i (pos (length row)) u ≡ Value.fault)
unfolding db_get_row_string_value
fetch_times-value {S = S} db i k before after row v locked result num e = (
  u,
  ap (λ b. (b, u)) now.0,
  rw (h.locked, h.num, not_greater k (length row) (omega (arith, get_elem?-lt row k v e)), now.1, e)
      (string_value-some v),
  rw
      (
        h.locked,
        h.num,
        not_greater (length row) (length row) (omega arith),
        now.1,
        get_elem?-length row,
      )
      refl,
)
  where
    t : Db S
    t = fetch_times i (length before) db

    ready : HasRows i (length row) (row ∷ after) t
    ready =
        fetch_times-HasRows i (length row) before (row ∷ after) db
          (record { locked = locked; result = result; num = num })

    u : Db S
    u = (db_fetch_row i t).1

    h : HasRows i (length row) after u
    h = fetch-HasRows i (length row) row after t ready

    now : ((db_fetch_row i t).0 ≡ true) × (u.row i ≡ some row)
    now = fetch-row i (length row) row after t ready
