-- ===== src/Slots/Udp/Second.antt =====
-- A `AcceptConnectionUDP` that finds a slot whose thread has not ended.
use mathlib.Core.Bool.{true≢false}
use native.Mathlib.Nat.{mod-eq_of_lt}
use star_server.Prelude.{
  ◌≤◌, ℕ, ◌+◌, ◌<◌, ◌≡◌, ◌≢◌, refl, sym, ap, ◌∙◌, inl, inr, Bool, true, false, Bool-cases, List,
  Option, some, ◌==◌, ==_iff, ==_refl, ==-false, set_at, Mem, arith,
}
use star_server.Prelude.Counts.{count_true, count_true-agree, count_true-le}
use star_server.Slots.{find_free_idx_host, end_thread}
use star_server.Slots.Served.{found_offline}
use star_server.Slots.Sockets.{Net, create_thread, destroy_socket, finish_thread}
use star_server.Slots.Sockets.Reached.{IsOwned}
use star_server.Slots.Udp.{
  Heard, Calls, Outcome, hear, serve_child, listen_again, accept_connection_udp,
}

-- The slot i was given away although its thread runs: n before, and n' after.
pub record HasTwo (i : ℕ) (k : Calls) (n n' : Net) : Type 0 where
  -- One thread more than there are slots with one.
  pub counted : n'.slots.login_count ≡ count_true n'.slots.running n'.slots.max_connection + 1
  -- The old thread's socket is open, and no slot with a thread has it.
  pub kept : n'.is_open (n.socket i) ≡ true
  pub lost :
      (j : ℕ) → j < n'.slots.max_connection → n'.slots.running j ≡ true → n'.socket j ≢ n.socket i
  -- When the old thread ends, it closes the new client's socket, and leaves that client online.
  pub shut : (finish_thread i n').is_open k.child.descriptor ≡ false
  pub online : ((finish_thread i n').slots.clients i).online ≡ true

module _ (n : Net) (h : IsOwned n) (i : ℕ) (k : Calls) (inside : i < n.slots.max_connection)
    (runs : n.slots.running i ≡ true)
    (fresh : (destroy_socket n.listen_socket n).is_open k.child.descriptor ≡ false)
    (creates : k.creates_thread ≡ true) (binds : k.binds ≡ true) where
  abbrev given : Net
  given = listen_again k (serve_child i k n)

  still_open : set_at n.is_open n.listen_socket false (n.socket i) ≡ true
  still_open =
      rw (==-false (n.socket i) n.listen_socket (h.owned.apart i inside runs))
        (h.owned.owns i inside runs)

  same_running :
      (j : ℕ) → j < n.slots.max_connection → set_at n.slots.running i true j ≡ n.slots.running j
  same_running j l = elim (Bool-cases (j == i)) [
    | inl same ↦ rw same (sym (ap n.slots.running ((==_iff j i).0 same) ∙ runs))
    | inr other ↦ rw other refl
  ]

  kept_open : (f : ℕ → Bool) (a b s : ℕ) → f s ≡ true → set_at (set_at f a true) b true s ≡ true
  kept_open f a b s o = ground (arith, o)

  new_socket : k.child.descriptor ≢ n.socket i
  new_socket e =
      true≢false (sym still_open ∙ ap (set_at n.is_open n.listen_socket false) (sym e) ∙ fresh)

  few : count_true n.slots.running n.slots.max_connection ≤ n.slots.max_connection
  few = count_true-le n.slots.running n.slots.max_connection

  given-HasTwo : HasTwo i k n given
  unfolding create_thread end_thread
  given-HasTwo =
      rw (creates, binds)
        (record {
          counted =
              mod-eq_of_lt (omega (arith, h.served.counted, h.served.bounded, few))
              ∙ ap (λ c. c + 1)
                  (h.served.counted
                    ∙ sym (
                        count_true-agree (set_at n.slots.running i true) n.slots.running
                          n.slots.max_connection same_running));
          kept =
              kept_open (set_at n.is_open n.listen_socket false) k.child.descriptor
                k.listener.descriptor (n.socket i) still_open;
          lost = λ j l r e. elim (Bool-cases (j == i)) [
            | inl same ↦ new_socket (rw same at e)
            | inr other ↦ true≢false (
                sym
                  ((==_iff j i).1 (h.owned.alone j i l inside (rw other at r) runs (rw other at e)))
                ∙ other)
          ];
          shut = rw (==_refl i, ==_refl k.child.descriptor) refl;
          online = rw (==_refl i) refl;
        })

-- `AcceptConnectionUDP` hears a client that asks for a connection, and the first free slot is one whose
-- client has gone offline, but whose thread has not ended: unlike `AcceptConnection` it does not wait for
-- it. Let the new thread be made, the new listening socket be bound, and the descriptor of the new client
-- be one that is not open. Then the call returns. One thread more is counted than slots have one, and the
-- old thread's socket stays open, although no slot with a thread has it. When the old thread ends, it
-- closes the socket of the new client, which stays online.
pub accept_connection_udp-HasTwo :
    (results : List (Option (List ℕ))) (m : Mem) (k : Calls) (n : Net) (i : ℕ)
    → hear results m ≡ Heard.knock
    → IsOwned n
    → find_free_idx_host n.slots ≡ some i
    → n.slots.running i ≡ true
    → (destroy_socket n.listen_socket n).is_open k.child.descriptor ≡ false
    → k.creates_thread ≡ true
    → k.binds ≡ true
    → (n' : Net) × (accept_connection_udp results m k n ≡ Outcome.returned n') × HasTwo i k n n'
unfolding accept_connection_udp find_free_idx_host
accept_connection_udp-HasTwo results m k n i asks h free runs fresh creates binds =
    let (off, inside) = found_offline n.slots.max_connection 0 n.slots.clients i free in
    (
      listen_again k (serve_child i k n),
      rw (asks, free) refl,
      given-HasTwo n h i k (omega arith) runs fresh creates binds,
    )
