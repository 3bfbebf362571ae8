-- ===== src/Startup/Balance.antt =====
-- The memory that the server counts against the memory that it took.
use mathlib.Core.Path.{subst}
use star_server.Prelude.{
  ℕ, ◌+◌, ◌*◌, ◌≡◌, refl, ap, Bool, true, false, if◌then◌else◌, List, Option, none, some, arith,
}
use star_server.Config.Settings.{Settings, read_config_file}
use star_server.Startup.Memory.{malloc, Sizes}
use star_server.Startup.Limits.{check_limite}
use star_server.Startup.State.{State, Host, Result, M, continue_with, allocate, require}
use star_server.Startup.Init.{
  bigdata_buffer, prepare, keep_settings, configure, planned, init_server_limit,
  init_server_unlimit, with_estimate, stsv_init,
}
use star_server.Startup.Steps.{
  Ensures, continue-Ensures, done-Ensures, require-Ensures, Ensures-done, done_then-Ensures,
}
use star_server.Startup.Grown.{AllGranted}
use star_server.Startup.Sums.{Fits, not_counted}
use star_server.Startup.Allocated.{Balanced, allocations, allocations-Balanced}

-- Before the allocations: nothing is counted but the buffer of the pool, of which `a` is the end.
abbrev pub Begun : ℕ → Unit {0} → State → Type 0
Begun a _ s = (s.sum ≡ bigdata_buffer) × (s.mem_use ≡ 0) × (s.heap.allocated ≡ a) × AllGranted s

pub configure-Begun :
    (a : ℕ) (host : Host) (s : State) → Begun a tt s → Ensures (Begun a) (configure host s)
unfolding configure Ensures
configure-Begun a host s h = kept (read_config_file host.file host.stack host.value) h
  where
    kept :
        (o : Option (Settings × Option (List ℕ)))
        → Begun a tt s
        → Ensures (Begun a) (keep_settings s o)
    kept none h = _
    kept (some (t, file)) h = h

module _ (z : Sizes) (host : Host) (a : ℕ) (unlimited : Bool) where
  continue-Begun :
      (f : Unit {0} → M (Unit {0})) (r : Result (Unit {0}))
      → Ensures (Begun a) r
      → ((s : State) → Begun a tt s → Ensures (Balanced unlimited z a) (f tt s))
      → Ensures (Balanced unlimited z a) (continue_with f r)
  continue-Begun f r h k = continue-Ensures (Begun a) (Balanced unlimited z a) f r h (λ _ s. k s)

  allocations-Begun :
      (s : State) → Begun a tt s → Ensures (Balanced unlimited z a) (allocations unlimited z host s)
  allocations-Begun s (big, unused, taken, all) =
      subst (λ b. Ensures (Balanced unlimited z b) (allocations unlimited z host s)) taken
        (allocations-Balanced unlimited z host s big unused all)

pub sum-Begun :
    (s : State)
    → s.mem_use ≡ 0
    → AllGranted s
    → Ensures (Begun s.heap.allocated) (Result.done tt (record s { sum = bigdata_buffer }))
unfolding Ensures
sum-Begun s unused all = (refl, unused, refl, all)

init_server_limit-Balanced :
    (z : Sizes) (host : Host) (s : State)
    → s.mem_use ≡ 0
    → AllGranted s
    → Ensures (Balanced false z s.heap.allocated) (init_server_limit z host s)
unfolding init_server_limit allocations
init_server_limit-Balanced z host s unused all =
    continue-Begun z host a false _ _ (sum-Begun s unused all) (λ s1 h1.
      continue-Begun z host a false _ (configure host s1) (configure-Begun a host s1 h1) (λ s2 h2.
        done_then-Ensures (Balanced false z a) _ s2.settings s2 (
          continue-Begun z host a false _
            (require (check_limite host.rlimits s2.settings.server_mem_g s2.settings.max_connection)
              s2)
            (require-Ensures (Begun a) _ s2 (λ _. h2))
            (λ s3 h3. allocations-Begun z host a false s3 h3))))
  where
    a : ℕ
    a = s.heap.allocated

init_server_unlimit-Balanced :
    (z : Sizes) (host : Host) (s : State)
    → s.mem_use ≡ 0
    → AllGranted s
    → Ensures (Balanced true z s.heap.allocated) (init_server_unlimit z host s)
unfolding init_server_unlimit allocations
init_server_unlimit-Balanced z host s unused all =
    continue-Begun z host a true _ _ (sum-Begun s unused all) (λ s1 h1.
      continue-Begun z host a true _ (configure host s1) (configure-Begun a host s1 h1) (λ s2 h2.
        continue-Begun z host a true _ _ (done-Ensures (Begun a) tt (planned z s2) h2)
          (λ s3 h3. allocations-Begun z host a true s3 h3)))
  where
    a : ℕ
    a = s.heap.allocated

with_estimate-Balanced :
    (unlimited : Bool) (z : Sizes) (a : ℕ) (r : Result (Unit {0}))
    → Ensures (Balanced unlimited z a) r
    → Ensures (Balanced unlimited z a) (with_estimate r)
unfolding Ensures
with_estimate-Balanced unlimited z a (Result.done _ s) h = h
with_estimate-Balanced unlimited z a (Result.failed s) h = _
with_estimate-Balanced unlimited z a Result.undefined h = _

-- What `prepare` leaves: nothing is counted, and the buffer of the pool is taken.
abbrev pub Prepared : ℕ → Unit {0} → State → Type 0
Prepared a _ s = (s.mem_use ≡ 0) × (s.heap.allocated ≡ a + bigdata_buffer) × AllGranted s

pub prepare-Prepared :
    (host : Host) (s : State) → AllGranted s → Ensures (Prepared s.heap.allocated) (prepare host s)
unfolding prepare continue_with allocate malloc
prepare-Prepared host s all =
    require-Ensures (Prepared s.heap.allocated) (s.heap.grants s.heap.calls) _
      (λ e. (refl, ap (λ b. s.heap.allocated + (if b then bigdata_buffer else 0)) e, all))

stsv_init-Balanced :
    (unlimited : Bool) (z : Sizes) (host : Host) (s : State)
    → AllGranted s
    → Ensures
        (Balanced unlimited z (s.heap.allocated + bigdata_buffer))
        (stsv_init unlimited z host s)
unfolding stsv_init
stsv_init-Balanced unlimited z host s all =
    continue-Ensures (Prepared s.heap.allocated)
      (Balanced unlimited z (s.heap.allocated + bigdata_buffer)) _ (prepare host s)
      (prepare-Prepared host s all)
      (λ _ s1 h1.
        with_estimate-Balanced unlimited z (s.heap.allocated + bigdata_buffer) _
          (both unlimited s1 h1))
  where
    both :
        (b : Bool) (s1 : State)
        → Prepared s.heap.allocated tt s1
        → Ensures
            (Balanced b z (s.heap.allocated + bigdata_buffer))
            (if b then init_server_unlimit z host s1 else init_server_limit z host s1)
    both true s1 (unused, taken, granted) =
        subst (λ a. Ensures (Balanced true z a) (init_server_unlimit z host s1)) taken
          (init_server_unlimit-Balanced z host s1 unused granted)
    both false s1 (unused, taken, granted) =
        subst (λ a. Ensures (Balanced false z a) (init_server_limit z host s1)) taken
          (init_server_limit-Balanced z host s1 unused granted)

-- Let every `malloc` give memory and let no sum leave its type. When `STSV_Init` returns 0, in either
-- mode, the memory that it counts, with the rooms and four arrays of the database that it leaves out, is
-- the memory that it took and the table of the clients once more: that table is counted twice.
pub stsv_init-counted :
    (unlimited : Bool) (z : Sizes) (host : Host) (s s' : State)
    → AllGranted s
    → stsv_init unlimited z host s ≡ Result.done tt s'
    → Fits unlimited z s'.settings
    → s'.mem_use + not_counted z s'.settings + s.heap.allocated
      ≡ s'.heap.allocated + s'.settings.max_connection * z.client
stsv_init-counted unlimited z host s s' all e fits = omega (
  arith,
  Ensures-done (Balanced unlimited z (s.heap.allocated + bigdata_buffer))
      (stsv_init unlimited z host s) tt s' (stsv_init-Balanced unlimited z host s all) e fits,
)
