-- ===== src/Slots/Served.antt =====
-- What holds of the slots, and that each operation keeps it.
use mathlib.Core.Bool.{true≢false}
use mathlib.Core.Option.{none-ne-some, some-injective}
use native.Mathlib.Nat.{mod-eq_of_lt}
use star_server.Prelude.{
  clash, ℕ, zero, suc, ◌+◌, ◌^◌, ◌≤◌, ◌<◌, ◌≡◌, refl, ◌∙◌, sym, ap, inl, inr, Bool, true, false,
  Bool-cases, some, if◌then◌else◌, ◌==◌, ==_iff, set_at, u32, arith,
}
use star_server.Prelude.Counts.{count_true, count_true-set, count_true-clear, count_true-le}
use star_server.Client.{Client}
use star_server.Slots.{
  Slots, find_free_idx, find_free_idx_host, set_up_client, accept_connection, start_thread, leave,
  end_thread,
}

-- Every client that is online has its thread, and a thread that has not begun has its client online.
pub record IsServed (s : Slots) : Type 0 where
  pub served : (i : ℕ) → i < s.max_connection → (s.clients i).online ≡ true → s.running i ≡ true
  pub begun :
      (i : ℕ)
      → i < s.max_connection
      → s.running i ≡ true
      → (s.clients i).online ≡ false
      → (s.clients i).thread ≡ true
  pub counted : s.login_count ≡ count_true s.running s.max_connection
  pub bounded : s.max_connection < 2 ^ 31

pub found_offline :
    (n i : ℕ) (clients : ℕ → Client) (j : ℕ)
    → find_free_idx n i clients ≡ some j
    → ((clients j).online ≡ false) × (j < i + n)
unfolding find_free_idx
found_offline zero i clients j e = absurd (none-ne-some j e)
found_offline (suc n) i clients j e = elim (Bool-cases (clients i).online) [
  | inl on ↦
      let (off, l) =
        found_offline n (i + 1) clients j
          (sym (ap (λ b. if b then find_free_idx n (i + 1) clients else some i) on) ∙ e) in
      (off, omega (arith, l))
  | inr off ↦
      let same : i ≡ j =
        some-injective i j
          (sym (ap (λ b. if b then find_free_idx n (i + 1) clients else some i) off) ∙ e) in
      (ap (λ k. (clients k).online) (sym same) ∙ off, omega (arith, same))
]

-- The slot that is found has no thread, once the join is over.
pub free-running :
    (s : Slots) (i : ℕ)
    → IsServed s
    → find_free_idx_host s ≡ some i
    → ((s.clients i).thread ≡ true → s.running i ≡ false)
    → (s.running i ≡ false) × (i < s.max_connection) × ((s.clients i).online ≡ false)
unfolding find_free_idx_host
free-running s i h e join =
    let (off, l) = found_offline s.max_connection 0 s.clients i e in
    let inside : i < s.max_connection = omega arith in
    (
      elim (Bool-cases (s.running i)) [
        | inl runs ↦ join (h.begun i inside runs off)
        | inr stopped ↦ stopped
      ],
      inside,
      off,
    )

module _ (s : Slots) (h : IsServed s) (i : ℕ) where
  small : s.login_count ≤ s.max_connection
  small = omega (arith, h.counted, count_true-le s.running s.max_connection)

  -- A client that is online gets a thread.
  pub begins-IsServed :
      (c : Client)
      → c.online ≡ true
      → s.running i ≡ false
      → i < s.max_connection
      → IsServed (record s {
        clients = set_at s.clients i c;
        running = set_at s.running i true;
        login_count = u32 (s.login_count + 1);
      })
  begins-IsServed c online stopped inside = record {
    served = λ j l on. elim (Bool-cases (j == i)) [
      | inl same ↦ rw same refl
      | inr other ↦ rw other (h.served j l (rw other at on))
    ];
    begun = λ j l runs off. elim (Bool-cases (j == i)) [
      | inl same ↦ absurd (clash c.online online (rw same at off))
      | inr other ↦ rw other (h.begun j l (rw other at runs) (rw other at off))
    ];
    counted =
        mod-eq_of_lt (omega (arith, small, h.bounded))
        ∙ ap (λ n. n + 1) h.counted
        ∙ sym (count_true-set s.running i s.max_connection inside stopped);
    bounded = h.bounded;
  }

  -- A client that is offline gets none.
  pub fails-IsServed :
      (c : Client)
      → c.online ≡ false
      → s.running i ≡ false
      → IsServed (record s { clients = set_at s.clients i c })
  fails-IsServed c offline stopped = record {
    served = λ j l on. elim (Bool-cases (j == i)) [
      | inl same ↦ absurd (clash c.online (rw same at on) offline)
      | inr other ↦ h.served j l (rw other at on)
    ];
    begun = λ j l runs off. elim (Bool-cases (j == i)) [
      | inl same ↦
          absurd (clash (s.running i) (ap s.running (sym ((==_iff j i).0 same)) ∙ runs) stopped)
      | inr other ↦ rw other (h.begun j l runs (rw other at off))
    ];
    counted = h.counted;
    bounded = h.bounded;
  }

  pub accept-IsServed :
      (created : Bool)
      → s.running i ≡ false
      → i < s.max_connection
      → IsServed (accept_connection i created s)
  unfolding accept_connection set_up_client
  accept-IsServed true stopped inside = begins-IsServed _ refl stopped inside
  accept-IsServed false stopped inside = fails-IsServed _ refl stopped

  pub start-IsServed : IsServed (start_thread i s)
  unfolding start_thread
  start-IsServed = record {
    served = λ j l on. elim (Bool-cases (j == i)) [
      | inl same ↦
          h.served j l (ap (λ k. (s.clients k).online) ((==_iff j i).0 same) ∙ (rw same at on))
      | inr other ↦ h.served j l (rw other at on)
    ];
    begun = λ j l runs off. elim (Bool-cases (j == i)) [
      | inl same ↦ rw same refl
      | inr other ↦ rw other (h.begun j l runs (rw other at off))
    ];
    counted = h.counted;
    bounded = h.bounded;
  }

  pub leave-IsServed : (s.clients i).thread ≡ true → IsServed (leave i s)
  unfolding leave
  leave-IsServed started = record {
    served = λ j l on. elim (Bool-cases (j == i)) [
      | inl same ↦ absurd (true≢false (sym (rw same at on)))
      | inr other ↦ h.served j l (rw other at on)
    ];
    begun = λ j l runs off. elim (Bool-cases (j == i)) [
      | inl same ↦ rw same started
      | inr other ↦ rw other (h.begun j l runs (rw other at off))
    ];
    counted = h.counted;
    bounded = h.bounded;
  }

  pub end-IsServed :
      i < s.max_connection
      → s.running i ≡ true
      → (s.clients i).online ≡ false
      → IsServed (end_thread i s)
  unfolding end_thread
  end-IsServed inside runs off = record {
    served = λ j l on. elim (Bool-cases (j == i)) [
      | inl same ↦ absurd (
          clash (s.clients i).online
            (ap (λ k. (s.clients k).online) (sym ((==_iff j i).0 same)) ∙ on) off)
      | inr other ↦ rw other (h.served j l on)
    ];
    begun = λ j l still gone. elim (Bool-cases (j == i)) [
      | inl same ↦ absurd (true≢false (sym (rw same at still)))
      | inr other ↦ h.begun j l (rw other at still) gone
    ];
    counted = omega (
      arith,
      small,
      h.bounded,
      h.counted,
      count_true-clear s.running i s.max_connection inside runs,
    );
    bounded = h.bounded;
  }
