-- ===== src/Transfer/Files.antt =====
-- Files on a disk, and the strings that name them.
use star_server.Prelude.{
  ℕ, Bool, true, false, ◌&&◌, List, [], ◌∷◌, Option, none, some, if◌then◌else◌, ◌==◌,
}

abbrev pub bigdata_header : ℕ
bigdata_header = 0x0001

abbrev pub bigdata_continue : ℕ
bigdata_continue = 0x0002

abbrev pub bigdata_end : ℕ
bigdata_end = 0x0004

abbrev pub sockmsg_filedata : ℕ
sockmsg_filedata = 0x0004

-- `TEMP/bigData%08d.tmp`, `FILE/file%08d%s` and `DBFILE/%s`.
pub data FilePath : Type 0 where
  big_data_temp : ℕ → FilePath
  received_file : ℕ → List ℕ → FilePath
  db_file : List ℕ → FilePath

unfoldable pub list_same : List ℕ → List ℕ → Bool
list_same [] [] = true
list_same [] (b ∷ bs) = false
list_same (a ∷ xs) [] = false
list_same (a ∷ xs) (b ∷ bs) = (a == b) && list_same xs bs

unfoldable pub path_same : FilePath → FilePath → Bool
path_same (FilePath.big_data_temp i) (FilePath.big_data_temp j) = i == j
path_same (FilePath.received_file i n) (FilePath.received_file j m) = (i == j) && list_same n m
path_same (FilePath.db_file n) (FilePath.db_file m) = list_same n m
path_same p q = false

-- The content of each file that is there, and whether a path can be opened for writing.
pub record Disk : Type 0 where
  pub content : FilePath → Option (List ℕ)
  pub writable : FilePath → Bool

abbrev pub stored : Option (List ℕ) → List ℕ
stored none = []
stored (some bs) = bs

abbrev pub put_file : Disk → FilePath → List ℕ → Disk
put_file d p bs = record d { content = λ q. if path_same q p then some bs else d.content q }

-- The characters of an array before its first 0.
unfoldable pub c_string : List ℕ → Option (List ℕ)
c_string [] = none
c_string (c ∷ cs) =
    let rest = c_string cs in
    if c == 0 then some [] else elim rest [ none ↦ none | some s ↦ some (c ∷ s) ]
