-- ===== src/Startup/Planned.antt =====
-- The number of connections of a server that is not limited by the configuration.
use native.Mathlib.Nat.{mod-eq_of_lt, div-mul-le_self, le_trans, mod-le, mul-le-mul_right}
use mathlib.Core.Path.{subst}
use star_server.Prelude.{ℕ, ◌+◌, ◌*◌, ◌/◌, ◌^◌, ◌<◌, ◌≤◌, ◌≡◌, ◌∙◌, sym, ap, true, u32, arith}
use star_server.Config.Settings.{Settings}
use star_server.Startup.Memory.{to_size, Sizes}
use star_server.Startup.State.{State, Host, Result}
use star_server.Startup.Init.{
  prepare, configure, planned, mem_per_user, memory_have, init_server_unlimit, with_estimate,
  stsv_init,
}
use star_server.Startup.Steps.{
  Ensures, continue-Ensures, Ensures-done, Ensures-map, done_then-Ensures,
}
use star_server.Startup.Grown.{AllGranted}
use star_server.Startup.Sums.{to_size_lem}
use star_server.Startup.Allocated.{allocations, allocations-kept}
use star_server.Startup.Balance.{Begun, configure-Begun, sum-Begun, Prepared, prepare-Prepared}

-- What a connection may take: its record, two buffers, its thread's stack and half a room.
abbrev pub per_connection : Sizes → Settings → ℕ → ℕ
per_connection z t stack = z.client + 2 * t.data_buffer + stack + z.room / 2

-- The values with which no sum of the plan leaves its type.
pub record IsPlannable (z : Sizes) (t : Settings) (stack : ℕ) : Type 0 where
  pub memory : t.server_mem_g < 2 ^ 31
  pub buffer : t.data_buffer < 2 ^ 30
  pub stack_size : stack < 2 ^ 31
  pub sizes : z.client + z.room < 2 ^ 32

abbrev HasRoom : Sizes → Settings → ℕ → Type 0
HasRoom z t stack =
    IsPlannable z t stack → t.max_connection * per_connection z t stack ≤ t.server_mem_g * 2 ^ 30

mem_per_user_lem :
    (z : Sizes) (t : Settings) (stack : ℕ)
    → IsPlannable z t stack
    → mem_per_user z t stack ≡ per_connection z t stack
mem_per_user_lem z t stack h =
    rw (to_size_lem stack h.stack_size, buffers)
      (mod-eq_of_lt (omega (arith, h.stack_size, h.sizes, h.buffer)))
  where
    buffers : to_size (u32 (2 * t.data_buffer)) ≡ 2 * t.data_buffer
    buffers =
        ap to_size {x = u32 (2 * t.data_buffer)} {y = 2 * t.data_buffer} (omega (arith, h.buffer))
        ∙ to_size_lem (2 * t.data_buffer) (omega (arith, h.buffer))

memory_have_lem : (g : ℕ) → g < 2 ^ 31 → memory_have g ≡ g * 2 ^ 30
memory_have_lem g h = rw (to_size_lem g h) (omega arith)

planned-HasRoom : (z : Sizes) (s : State) → HasRoom z (planned z s).settings s.max_stack_size
planned-HasRoom z s h =
    subst (λ p. u32 q * per ≤ p) (memory_have_lem s.settings.server_mem_g h.memory)
      (le_trans (mul-le-mul_right per (mod-le q (2 ^ 32))) (
        subst
          (λ p. memory_have s.settings.server_mem_g / p * per ≤ memory_have s.settings.server_mem_g)
          (sym same) (div-mul-le_self (memory_have s.settings.server_mem_g) per)))
  where
    per : ℕ
    per = per_connection z s.settings s.max_stack_size

    q : ℕ
    q = memory_have s.settings.server_mem_g / mem_per_user z s.settings s.max_stack_size

    same : mem_per_user z s.settings s.max_stack_size ≡ per
    same = mem_per_user_lem z s.settings s.max_stack_size (record {
      memory = h.memory;
      buffer = h.buffer;
      stack_size = h.stack_size;
      sizes = h.sizes;
    })

-- What is planned stays, through the allocations.
abbrev EndsWithRoom : Sizes → Unit {0} → State → Type 0
EndsWithRoom z _ s = HasRoom z s.settings s.max_stack_size

allocations-HasRoom :
    (z : Sizes) (host : Host) (s : State)
    → AllGranted s
    → HasRoom z s.settings s.max_stack_size
    → Ensures (EndsWithRoom z) (allocations true z host s)
allocations-HasRoom z host s all room =
    Ensures-map (λ _ s'. (s'.settings ≡ s.settings) × (s'.max_stack_size ≡ s.max_stack_size))
      (EndsWithRoom z) (allocations true z host s)
      (λ _ s' h.
        subst (λ t. HasRoom z t s'.max_stack_size) (sym h.0)
          (subst (HasRoom z s.settings) (sym h.1) room))
      (allocations-kept true z host s all)

init_server_unlimit-HasRoom :
    (z : Sizes) (host : Host) (s : State)
    → s.mem_use ≡ 0
    → AllGranted s
    → Ensures (EndsWithRoom z) (init_server_unlimit z host s)
unfolding init_server_unlimit allocations
init_server_unlimit-HasRoom z host s unused all =
    continue-Ensures (Begun a) (EndsWithRoom z) _ _ (sum-Begun s unused all) (λ _ s1 h1.
      continue-Ensures (Begun a) (EndsWithRoom z) _ (configure host s1)
        (configure-Begun a host s1 h1)
        (λ _ s2 h2.
          done_then-Ensures (EndsWithRoom z) _ tt (planned z s2)
            (allocations-HasRoom z host (planned z s2) h2.3 (planned-HasRoom z s2))))
  where
    a : ℕ
    a = s.heap.allocated

with_estimate-HasRoom :
    (z : Sizes) (r : Result (Unit {0}))
    → Ensures (EndsWithRoom z) r
    → Ensures (EndsWithRoom z) (with_estimate r)
unfolding Ensures
with_estimate-HasRoom z (Result.done _ s) h = h
with_estimate-HasRoom z (Result.failed s) h = _
with_estimate-HasRoom z Result.undefined h = _

stsv_init-HasRoom :
    (z : Sizes) (host : Host) (s : State)
    → AllGranted s
    → Ensures (EndsWithRoom z) (stsv_init true z host s)
unfolding stsv_init
stsv_init-HasRoom z host s all =
    continue-Ensures (Prepared s.heap.allocated) (EndsWithRoom z) _ (prepare host s)
      (prepare-Prepared host s all)
      (λ _ s1 h1. with_estimate-HasRoom z _ (init_server_unlimit-HasRoom z host s1 h1.0 h1.2))

-- Let every `malloc` give memory, and let the values of the plan stay within their types. When
-- `STSV_Init` of an unlimited server returns 0, the memory of the configuration has room for each of the
-- connections that it allows: for its record, its two buffers, its thread's stack, and half of a room.
pub stsv_init-planned :
    (z : Sizes) (host : Host) (s s' : State)
    → AllGranted s
    → stsv_init true z host s ≡ Result.done tt s'
    → IsPlannable z s'.settings s'.max_stack_size
    → s'.settings.max_connection * per_connection z s'.settings s'.max_stack_size
      ≤ s'.settings.server_mem_g * 2 ^ 30
stsv_init-planned z host s s' all e plannable =
    Ensures-done (EndsWithRoom z) (stsv_init true z host s) tt s' (stsv_init-HasRoom z host s all) e
      plannable
