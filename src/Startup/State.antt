-- ===== src/Startup/State.antt =====
-- The state of the start, and its steps. A step that makes the function return -1 ends the chain.
use star_server.Prelude.{ℕ, ◌+◌, ◌%◌, ◌^◌, Bool, true, false, List, Option, Mem}
use star_server.Client.{Client}
use star_server.Config.Settings.{Settings}
use star_server.Database.{Db}
use star_server.Startup.Memory.{Heap, malloc}
use star_server.Startup.Limits.{Rlimits}
use star_server.Startup.Listening.{Socket, Listener}

-- The server's variables, with those of the database in `db`. `sum` is `sumMemoryUse`.
pub record State : Type 0 where
  pub settings : Settings
  pub mem_use : ℕ
  pub sum : ℕ
  pub max_stack_size : ℕ
  pub max_file : ℕ
  pub heap : Heap
  pub clients : ℕ → Client
  pub db : Db (Unit {0})
  pub listener : Listener
  pub estimate_ram : ℕ

-- What the start finds outside: the limits, the configuration file, what the stack held, and the
-- results of the calls on the socket and of `mysql_real_connect` for each connection.
pub record Host : Type 0 where
  pub rlimits : Rlimits
  pub file : Option (List ℕ)
  pub stack : List ℕ
  pub value : Mem
  pub socket : Socket
  pub connects : ℕ → Bool

-- `failed` is the return of -1. `undefined`: an access out of an array, or of a variable not set.
pub data Result (A : Type 0) : Type 0 where
  done : A → State → Result A
  failed : State → Result A
  undefined : Result A

abbrev pub M : Type 0 → Type 0
M A = State → Result A

unfoldable pub continue_with : {A B : Type 0} → (A → M B) → Result A → Result B
continue_with f (Result.done a s) = f a s
continue_with f (Result.failed s) = Result.failed s
continue_with f Result.undefined = Result.undefined

infixl 5 ◌>>=◌ ◌>>◌
abbrev pub ◌>>=◌ : {A B : Type 0} → M A → (A → M B) → M B
◌>>=◌ m f s = continue_with f (m s)

abbrev pub ◌>>◌ : {B : Type 0} → M (Unit {0}) → M B → M B
m >> k = m >>= λ _. k

abbrev pub return : {A : Type 0} → A → M A
return a s = Result.done a s

abbrev pub modify : (State → State) → M (Unit {0})
modify f s = Result.done tt (f s)

-- `if (...) return -1`
abbrev pub require : Bool → M (Unit {0})
require true s = Result.done tt s
require false s = Result.failed s

abbrev on_malloc : State → Bool × Heap → Result Bool
on_malloc s (granted, h) = Result.done granted (record s { heap = h })

unfoldable pub allocate : ℕ → M Bool
allocate size s = on_malloc s (malloc size s.heap)

-- `sumMemoryUse += n`, in a word of `width` bits.
unfoldable pub count : ℕ → ℕ → M (Unit {0})
count width n = modify (λ s. record s { sum = (s.sum + n) % 2 ^ width })
