-- ===== src/Config.antt =====
-- The configuration file, StarServer/StarSocketServer.cpp: `GetStringValueConfig` and
-- `ReadConfigFile`. A pointer into `configBuffer` is what is left of the array from there on, so a
-- read behind its end shows. `valueBuffer` is a memory of 32 bytes.
pub mod Values
pub mod Settings
pub mod Written
mod Examples
use star_server.Prelude.{
  ℕ, zero, suc, ◌+◌, ◌-◌, ◌*◌, ◌^◌, Bool, true, false, ◌&&◌, ◌||◌, List, [], ◌∷◌, ◌++◌, Option,
  none, some, if◌then◌else◌, ltb, leb, ◌==◌, length, drop, nonzero, Mem, read, set_at, write,
}
use star_server.Transfer.Files.{c_string}

-- Where a search in a string ends: at a place, at the string's end, or behind the array.
pub data Search : Type 0 where
  at : List ℕ → Search
  missing : Search
  behind : Search

pub starts_with : List ℕ → List ℕ → Bool
starts_with [] text = true
starts_with (c ∷ tag) [] = false
starts_with (c ∷ tag) (d ∷ text) = (c == d) && starts_with tag text

-- `strstr`, which stops at the 0 that ends the string.
pub strstr : List ℕ → List ℕ → Search
strstr [] tag = Search.behind
strstr (c ∷ text) tag =
    let rest = strstr text tag in
    if starts_with tag (c ∷ text)
    then Search.at (c ∷ text)
    else if c == 0
    then Search.missing
    else rest

-- `while (*firstIdx != '=')` and the `firstIdx++` behind it.
pub behind_equals : List ℕ → Search
behind_equals [] = Search.behind
behind_equals (c ∷ []) = if c == b'=' then Search.at [] else Search.behind
behind_equals (c ∷ d ∷ text) =
    let rest = behind_equals (d ∷ text) in
    if c == b'=' then Search.at (d ∷ text) else if d == 0 then Search.missing else rest

-- `char valueBuffer[32]`. `none`: a write behind it.
abbrev pub value_size : ℕ
value_size = 32

unfoldable pub put_char : Mem → ℕ → ℕ → Option Mem
put_char value i c = if ltb i value_size then some (set_at value i c) else none

-- `if(value[idxCount] == '\'') value[idxCount] = '\0'`
abbrev pub unquote : ℕ → ℕ
unquote c = if c == b'\'' then 0 else c

abbrev pub ends_value : ℕ → Bool
ends_value c = c == b'\n' || c == b' '

-- The branch of the loop where `foundStartIdx` is true. It does not test for the end of the string.
pub copy_value : List ℕ → ℕ → Mem → Option Mem
copy_value [] i value = none
copy_value (c ∷ []) i value = none
copy_value (c ∷ d ∷ text) i value = elim (put_char value i (unquote c)) [
  | none ↦ none
  | some value' ↦
      if ends_value d then put_char value' (i + 1) 0 else copy_value (d ∷ text) (i + 1) value'
]

-- The other branch: spaces before the value. A quote is no space, so the second test adds nothing.
pub skip_spaces : List ℕ → List ℕ
skip_spaces [] = []
skip_spaces (c ∷ text) = if c == b' ' then skip_spaces text else c ∷ text

-- From the character behind `=` on.
pub read_value : List ℕ → Mem → Option Mem
read_value [] value = none
read_value (c ∷ text) value =
    if c == b'\n' then put_char value 0 0 else copy_value (skip_spaces (c ∷ text)) 0 value

abbrev pub on_equals : Search → Mem → Option Mem
on_equals (Search.at text) value = read_value text value
on_equals Search.missing value = some value
on_equals Search.behind value = none

abbrev pub on_tag : Search → Mem → Option Mem
on_tag (Search.at text) value = on_equals (behind_equals text) value
on_tag Search.missing value = put_char value 0 0
on_tag Search.behind value = none

-- `GetStringValueConfig`. `none`: an access out of one of the arrays.
pub get_string_value_config : List ℕ → List ℕ → Mem → Option Mem
get_string_value_config config tag value = on_tag (strstr config tag) value

abbrev is_space : ℕ → Bool
is_space c = c == b' ' || (leb 9 c && leb c 13)

abbrev is_digit : ℕ → Bool
is_digit c = leb b'0' c && leb c b'9'

-- The digits of `atoi`; the string ends at a byte that is none.
pub digits : List ℕ → ℕ → Option ℕ
digits [] n = none
digits (c ∷ text) n =
    let rest = digits text (n * 10 + (c - b'0')) in if is_digit c then rest else some n

-- An `int` as its bit pattern. `none`: it does not fit, and `atoi` is undefined.
abbrev as_int : Option ℕ → Option ℕ
as_int none = none
as_int (some n) = if ltb n (2 ^ 31) then some n else none

abbrev negated : Option ℕ → Option ℕ
negated none = none
negated (some n) = if n == 0 then some 0 else if leb n (2 ^ 31) then some (2 ^ 32 - n) else none

pub signed_digits : List ℕ → Option ℕ
signed_digits [] = none
signed_digits (c ∷ text) =
    if c == b'-'
    then negated (digits text 0)
    else if c == b'+'
    then as_int (digits text 0)
    else as_int (digits (c ∷ text) 0)

-- `atoi`
pub atoi : List ℕ → Option ℕ
atoi [] = none
atoi (c ∷ text) = if is_space c then atoi text else signed_digits (c ∷ text)
