-- ===== src/Database/Values.antt =====
-- `STSV_DBGetRowIntValue` and `STSV_DBGetRowStringValue`. A value is a string without its 0.
use star_server.Prelude.{
  ℕ, Bool, true, false, List, [], ◌∷◌, ◌++◌, Option, none, some, if◌then◌else◌, ltb, get_elem?, ℤ,
  pos, negsuc,
}
use star_server.Config.{atoi}
use star_server.Database.{Row, Db}

-- `fault`: an access out of the row, or through NULL, or a number that `atoi` has no result for.
pub data Value (A : Type 0) : Type 0 where
  fault : Value A
  returned : A → Value A

abbrev is_greater : ℤ → ℤ → Bool
is_greater (pos a) (pos b) = ltb b a
is_greater (pos a) (negsuc n) = true
is_greater (negsuc m) (pos b) = false
is_greater (negsuc m) (negsuc n) = ltb m n

-- `mMySqlRow[idx][rowIdx]`
abbrev pub column : Option Row → ℤ → Option (Option (List ℕ))
column none k = none
column (some r) (pos k) = get_elem? r k
column (some r) (negsuc n) = none

abbrev int_of : Option ℕ → Value ℕ
int_of none = Value.fault
int_of (some n) = Value.returned n

abbrev int_value : Option (Option (List ℕ)) → Value ℕ
int_value none = Value.fault
int_value (some none) = Value.fault
int_value (some (some text)) = int_of (atoi (text ++ 0 ∷ []))

-- A result of -1 is 2^32 - 1.
unfoldable db_get_row_int_value : {S : Type 0} → ℕ → ℤ → Db S → Value ℕ
db_get_row_int_value i k db =
    if db.lock i
    then if is_greater k (db.num_fields i)
      then Value.returned 0xffffffff
      else int_value (column (db.row i) k)
    else Value.returned 0xffffffff

-- SQL's NULL is the string "0".
abbrev pub string_value : Option (Option (List ℕ)) → Value (Option (List ℕ))
string_value none = Value.fault
string_value (some none) = Value.returned (some (b'0' ∷ []))
string_value (some (some text)) = Value.returned (some text)

-- A result of `none` is NULL.
unfoldable pub db_get_row_string_value : {S : Type 0} → ℕ → ℤ → Db S → Value (Option (List ℕ))
db_get_row_string_value i k db =
    if db.lock i
    then if is_greater k (db.num_fields i)
      then Value.returned none
      else string_value (column (db.row i) k)
    else Value.returned none
