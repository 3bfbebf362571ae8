-- ===== src/Startup/Allocated.antt =====
-- The allocations of a start, with the end that adds the sum to the server's count.
use mathlib.Core.Path.{subst}
use native.Mathlib.Nat.{mod-eq_of_lt}
use star_server.Prelude.{
  ℕ, zero, suc, ◌+◌, ◌*◌, ◌%◌, ◌^◌, ◌<◌, ◌≡◌, refl, ◌∙◌, sym, ap, Bool, pos, negsuc, arith,
}
use star_server.Startup.Memory.{Sizes}
use star_server.Startup.Listening.{Created, create_server}
use star_server.Startup.State.{State, Host, M, continue_with}
use star_server.Startup.Init.{
  bigdata_buffer, allocate_clients, allocate_database, finish, on_created, without_clients,
}
use star_server.Startup.Steps.{Ensures, continue-Ensures, Ensures-map}
use star_server.Startup.Grown.{AllGranted, Grown, Grows, Grown-trans, AllGranted-Grown}
use star_server.Startup.Counted.{
  clients_taken, clients_counted, database_taken, database_counted, allocate_clients-Grows,
  allocate_database-Grows,
}
use star_server.Startup.Sums.{
  counted, Fits, not_counted, counted-lt, counted_lem, taken_lem, width, widen, kept_sum,
  bigdata-lt,
}

-- What `finish` leaves as it was, and the sum that it adds.
abbrev Finished : (ℕ → ℕ) → State → Unit {0} → State → Type 0
Finished widened s _ s' =
    (s'.mem_use ≡ (s.mem_use + widened s.sum) % 2 ^ 64)
    × (s'.heap.allocated ≡ s.heap.allocated)
    × (s'.settings ≡ s.settings)
    × (s'.max_stack_size ≡ s.max_stack_size)

on_created-Finished :
    (widened : ℕ → ℕ) (s s1 : State) (c : Created)
    → Finished widened s tt s1
    → Ensures (Finished widened s) (on_created s1 c)
unfolding Ensures
on_created-Finished widened s s1 Created.undefined h = _
on_created-Finished widened s s1 (Created.returned (pos zero) l) h = h
on_created-Finished widened s s1 (Created.returned (pos (suc n)) l) h = _
on_created-Finished widened s s1 (Created.returned (negsuc n) l) h = _

finish-Finished :
    (widened : ℕ → ℕ) (host : Host) (s : State)
    → Ensures (Finished widened s) (finish widened host s)
unfolding finish continue_with
finish-Finished widened host s =
    on_created-Finished widened s
      (without_clients (record s { mem_use = (s.mem_use + widened s.sum) % 2 ^ 64 }))
      (create_server s.settings.protocol host.socket s.listener) (refl, refl, refl, refl)

-- The count and the memory, from a state in which `a` bytes were taken, and those of the pool counted.
abbrev pub Balanced : Bool → Sizes → ℕ → Unit {0} → State → Type 0
Balanced unlimited z a _ s =
    Fits unlimited z s.settings
    → s.mem_use + not_counted z s.settings + a
      ≡ s.heap.allocated + bigdata_buffer + s.settings.max_connection * z.client

module _ (unlimited : Bool) (z : Sizes) (host : Host) where
  -- The two allocations and the end.
  unfoldable pub allocations : M (Unit {0})
  allocations s =
      continue_with
        (λ _. λ s1.
          continue_with (λ _. finish (widen unlimited) host)
            (allocate_database (width unlimited) z host s1))
        (allocate_clients (width unlimited) z s)

  pub Balanced-sum :
      (s s2 s' : State)
      → s.sum ≡ bigdata_buffer
      → s.mem_use ≡ 0
      → Grown
          (width unlimited)
          (clients_taken z s.settings + database_taken z s.settings)
          (clients_counted z s.settings + database_counted z s.settings)
          s
          s2
      → Finished (widen unlimited) s2 tt s'
      → Balanced unlimited z s.heap.allocated tt s'
  Balanced-sum s s2 s' big unused g (mem, heap, same, _) fits =
      subst
        (λ t.
          s'.mem_use + not_counted z t + s.heap.allocated
          ≡ s'.heap.allocated + bigdata_buffer + t.max_connection * z.client)
        (sym settings)
        (omega (arith, mem', heap, g.allocated, taken_lem unlimited z s.settings fits'))
    where
      settings : s'.settings ≡ s.settings
      settings = same ∙ g.settings

      fits' : Fits unlimited z s.settings
      fits' = subst (Fits unlimited z) settings fits

      total : ℕ
      total = bigdata_buffer + counted z s.settings

      sum : s2.sum % 2 ^ width unlimited ≡ total % 2 ^ width unlimited
      sum =
          g.sum
          ∙ ap
              (λ v.
                (v + (clients_counted z s.settings + database_counted z s.settings))
                % 2 ^ width unlimited)
              big
          ∙ ap (λ v. (bigdata_buffer + v) % 2 ^ width unlimited)
              (counted_lem unlimited z s.settings fits')

      widened : widen unlimited s2.sum ≡ total
      widened =
          kept_sum unlimited s2.sum total fits'.all
            (g.bounded (subst (λ v. v < 2 ^ width unlimited) (sym big) (bigdata-lt unlimited))) sum

      mem' : s'.mem_use ≡ total
      mem' =
          mem
          ∙ ap (λ v. (v + widen unlimited s2.sum) % 2 ^ 64) (g.mem_use ∙ unused)
          ∙ ap (λ v. (0 + v) % 2 ^ 64) widened
          ∙ ap (λ v. v % 2 ^ 64) {x = 0 + total} (omega arith)
          ∙ mod-eq_of_lt (counted-lt unlimited z s.settings fits')

  -- A state in the middle, up to which memory is taken and counted.
  pub Allocated : State → Unit {0} → State → Type 0
  Allocated s _ s' =
      (s2 : State) × Grown (width unlimited)
        (clients_taken z s.settings + database_taken z s.settings)
        (clients_counted z s.settings + database_counted z s.settings) s s2
      × Finished (widen unlimited) s2 tt s'

  pub allocations-Allocated : (s : State) → AllGranted s → Ensures (Allocated s) (allocations s)
  unfolding allocations Allocated
  allocations-Allocated s all =
      continue-Ensures
        (λ _ s1. Grown w (clients_taken z s.settings) (clients_counted z s.settings) s s1)
        (Allocated s) _ (allocate_clients w z s) (allocate_clients-Grows w z s all)
        (λ _ s1 g1.
          continue-Ensures
            (λ _ s2. Grown w (database_taken z s.settings) (database_counted z s.settings) s1 s2)
            (Allocated s) _ (allocate_database w z host s1)
            (subst
              (λ t.
                Grows w (database_taken z t) (database_counted z t) s1
                  (allocate_database w z host s1))
              g1.settings
              (allocate_database-Grows w z host s1 (AllGranted-Grown w _ _ s s1 g1 all)))
            (λ _ s2 g2.
              Ensures-map (Finished (widen unlimited) s2) (Allocated s)
                (finish (widen unlimited) host s2)
                (λ _ s' h. (s2, Grown-trans w _ _ _ _ s s1 s2 g1 g2, h))
                (finish-Finished (widen unlimited) host s2)))
    where
      w : ℕ
      w = width unlimited

  pub allocations-Balanced :
      (s : State)
      → s.sum ≡ bigdata_buffer
      → s.mem_use ≡ 0
      → AllGranted s
      → Ensures (Balanced unlimited z s.heap.allocated) (allocations s)
  unfolding Allocated
  allocations-Balanced s big unused all =
      Ensures-map (Allocated s) (Balanced unlimited z s.heap.allocated) (allocations s)
        (λ _ s' (s2, g, h). Balanced-sum s s2 s' big unused g h) (allocations-Allocated s all)

  -- The settings and the size of a stack stay.
  pub allocations-kept :
      (s : State)
      → AllGranted s
      → Ensures
          (λ _ s'. (s'.settings ≡ s.settings) × (s'.max_stack_size ≡ s.max_stack_size))
          (allocations s)
  unfolding Allocated
  allocations-kept s all =
      Ensures-map (Allocated s)
        (λ _ s'. (s'.settings ≡ s.settings) × (s'.max_stack_size ≡ s.max_stack_size))
        (allocations s) (λ _ s' (s2, g, h). (h.2 ∙ g.settings, h.3 ∙ g.stack))
        (allocations-Allocated s all)
