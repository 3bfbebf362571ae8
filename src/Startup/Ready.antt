-- ===== src/Startup/Ready.antt =====
-- The state that a start leaves is the one that the slots and the database pool begin with.
use star_server.Prelude.{
  ℕ, zero, suc, ◌+◌, ◌%◌, ◌^◌, ◌≡◌, refl, ap, sym, ◌∙◌, arith, Bool, true, false, pos, negsuc,
  if◌then◌else◌,
}
use star_server.Prelude.Counts.{count_true-idle}
use star_server.Database.{stdb_connect}
use star_server.Database.Connecting.{Unlocked, stdb_connect-Unlocked}
use star_server.Database.Locking.{IsCounted}
use star_server.Slots.{Slots}
use star_server.Slots.Threads.{IsStart}
use star_server.Startup.Memory.{Sizes, rounds32, to_size}
use star_server.Startup.Listening.{
  Listener, counting, Created, create_server, create_server-counting,
}
use star_server.Startup.State.{State, Host, Result, M, continue_with}
use star_server.Startup.Init.{
  library, no_connection, allocate_database, finish, init_server_limit, init_server_unlimit,
  stsv_init, on_created, without_clients, with_estimate,
}
use star_server.Startup.Steps.{Ensures, continue-Ensures, last-Ensures, done-Ensures, Ensures-done}

-- What is so once the database has its connections.
abbrev DbUnlocked : Unit {0} → State → Type 0
DbUnlocked _ s = Unlocked s.db

allocate_database-Unlocked :
    (width : ℕ) (z : Sizes) (host : Host) (s : State)
    → Ensures DbUnlocked (allocate_database width z host s)
unfolding allocate_database
allocate_database-Unlocked width z host s = last _ _ (λ _ _. last _ _ (λ _ _. last _ _ (λ _ _.
    last _ _ (λ _ _. last _ _ (λ _ _. last _ _ (λ _ _. last _ _ (λ _ s'.
      done-Ensures DbUnlocked tt
        (record s' { db = (stdb_connect (library host) (no_connection s'.db)).1 })
        (stdb_connect-Unlocked (library host) (no_connection s'.db) (λ i. refl)))))))))
  where
    last :
        {A : Type 0} (f : A → M (Unit {0})) (r : Result A)
        → ((a : A) (s' : State) → Ensures DbUnlocked (f a s'))
        → Ensures DbUnlocked (continue_with f r)
    last f r k = last-Ensures DbUnlocked f r k

-- What a start leaves, once it is done.
abbrev IsReady : Unit {0} → State → Type 0
IsReady _ s =
    ((i : ℕ) → (s.clients i).online ≡ false)
    × ((i : ℕ) → (s.clients i).thread ≡ false)
    × (s.listener.online ≡ true)
    × (s.listener.login_count ≡ 0)
    × (s.db.cur_connect ≡ 0)
    × Unlocked s.db

on_created-IsReady :
    (s : State) (l : Listener) (c : Created)
    → ((i : ℕ) → (s.clients i).online ≡ false)
    → ((i : ℕ) → (s.clients i).thread ≡ false)
    → Unlocked s.db
    → ((l' : Listener) → c ≡ Created.returned (pos 0) l' → l' ≡ counting l)
    → Ensures IsReady (on_created s c)
unfolding Ensures
on_created-IsReady s l Created.undefined off idle unlocked known = _
on_created-IsReady s l (Created.returned (pos zero) l') off idle unlocked known =
    let same : l' ≡ counting l = known l' refl in
    (
      off,
      idle,
      ap (λ k. k.online) same,
      ap (λ k. k.login_count) same,
      ap (λ k. k.db_connect) same,
      unlocked,
    )
on_created-IsReady s l (Created.returned (pos (suc n)) l') off idle unlocked known = _
on_created-IsReady s l (Created.returned (negsuc n) l') off idle unlocked known = _

finish-IsReady :
    (widened : ℕ → ℕ) (host : Host) (s : State)
    → Unlocked s.db
    → Ensures IsReady (finish widened host s)
unfolding finish continue_with
finish-IsReady widened host s unlocked =
    on_created-IsReady
      (without_clients (record s { mem_use = (s.mem_use + widened s.sum) % 2 ^ 64 })) s.listener
      (create_server s.settings.protocol host.socket s.listener) (λ i. refl) (λ i. refl) unlocked
      (create_server-counting s.settings.protocol host.socket s.listener)

init_server_limit-IsReady :
    (z : Sizes) (host : Host) (s : State) → Ensures IsReady (init_server_limit z host s)
unfolding init_server_limit
init_server_limit-IsReady z host s = last _ _ (λ _ _. last _ _ (λ _ _. last _ _ (λ _ _.
    last _ _ (λ _ _. last _ _ (λ _ s'.
      continue-Ensures DbUnlocked IsReady (λ _. finish to_size host)
        (allocate_database 32 z host s') (allocate_database-Unlocked 32 z host s')
        (λ _ s''. finish-IsReady to_size host s''))))))
  where
    last :
        {A : Type 0} (f : A → M (Unit {0})) (r : Result A)
        → ((a : A) (s' : State) → Ensures IsReady (f a s'))
        → Ensures IsReady (continue_with f r)
    last f r k = last-Ensures IsReady f r k

init_server_unlimit-IsReady :
    (z : Sizes) (host : Host) (s : State) → Ensures IsReady (init_server_unlimit z host s)
unfolding init_server_unlimit
init_server_unlimit-IsReady z host s = last _ _ (λ _ _. last _ _ (λ _ _. last _ _ (λ _ _.
    last _ _ (λ _ s'.
      continue-Ensures DbUnlocked IsReady (λ _. finish (λ n. n) host)
        (allocate_database 64 z host s') (allocate_database-Unlocked 64 z host s')
        (λ _ s''. finish-IsReady (λ n. n) host s'')))))
  where
    last :
        {A : Type 0} (f : A → M (Unit {0})) (r : Result A)
        → ((a : A) (s' : State) → Ensures IsReady (f a s'))
        → Ensures IsReady (continue_with f r)
    last f r k = last-Ensures IsReady f r k

with_estimate-IsReady :
    (r : Result (Unit {0})) → Ensures IsReady r → Ensures IsReady (with_estimate r)
unfolding Ensures
with_estimate-IsReady (Result.done _ s) h = h
with_estimate-IsReady (Result.failed s) h = _
with_estimate-IsReady Result.undefined h = _

stsv_init-IsReady :
    (unlimited : Bool) (z : Sizes) (host : Host) (s : State)
    → Ensures IsReady (stsv_init unlimited z host s)
unfolding stsv_init
stsv_init-IsReady unlimited z host s =
    last-Ensures IsReady _ _ (λ _ s'. with_estimate-IsReady _ (both unlimited s'))
  where
    both :
        (b : Bool) (s' : State)
        → Ensures IsReady (if b then init_server_unlimit z host s' else init_server_limit z host s')
    both true s' = init_server_unlimit-IsReady z host s'
    both false s' = init_server_limit-IsReady z host s'

-- The slots of a server that was started: no client has a thread.
abbrev pub slots_of : State → Slots
slots_of s = record {
  max_connection = rounds32 s.settings.max_connection;
  clients = s.clients;
  running = λ i. false;
  login_count = s.listener.login_count;
}

-- When `STSV_Init` returns 0, in either mode, the accepting thread goes on, the slots are in the state
-- from which clients are accepted, no connection of the database is locked, and the count of locked ones
-- is right.
pub stsv_init-IsStart :
    (unlimited : Bool) (z : Sizes) (host : Host) (s s' : State)
    → stsv_init unlimited z host s ≡ Result.done tt s'
    → IsStart (slots_of s')
      × IsCounted s'.db
      × (s'.listener.online ≡ true)
      × ((i : ℕ) → s'.db.lock i ≡ false)
stsv_init-IsStart unlimited z host s s' e =
    let (off, idle, on, login, connect, unlocked) =
      Ensures-done IsReady (stsv_init unlimited z host s) tt s'
        (stsv_init-IsReady unlimited z host s) e in
    (
      record { offline = λ i l. off i; idle = λ i. refl; no_login = login; bounded = ground arith },
      record { counted = connect ∙ sym (count_true-idle s'.db.lock s'.db.max_connect unlocked) },
      on,
      unlocked,
    )
