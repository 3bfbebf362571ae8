-- ===== src/Slots/Udp/Owned.antt =====
-- A `AcceptConnectionUDP` that finds a slot without a thread keeps the invariant of the sockets.
use mathlib.Core.Path.{subst}
use mathlib.Core.Bool.{true≢false}
use star_server.Prelude.{
  fun_ext, arith, ℕ, ◌<◌, ◌≡◌, refl, sym, ap, ◌∙◌, inl, inr, Bool, true, false, Bool-cases, List,
  Option, some, ◌==◌, ==_iff, ==_refl, ==-false, set_at, Mem,
}
use star_server.Slots.{find_free_idx_host}
use star_server.Slots.Served.{IsServed, found_offline, begins-IsServed, fails-IsServed}
use star_server.Slots.Sockets.{Net, destroy_socket, create_thread}
use star_server.Slots.Sockets.Owned.{Owned, apart-open, Owned-socket, Owned-begin}
use star_server.Prelude.Writes.{set_at-twice}
use star_server.Slots.Sockets.Reached.{IsOwned}
use star_server.Slots.Udp.{
  Heard, Calls, Outcome, hear, serve_child, listen_again, accept_connection_udp,
}

-- The listening socket is closed, and another one takes its place.
module _ (max : ℕ) (running : ℕ → Bool) (socket : ℕ → ℕ) (is_open : ℕ → Bool) (listen : ℕ)
    (h : Owned max running socket is_open listen) where
  Owned-listen :
      (l : ℕ)
      → set_at is_open listen false l ≡ false
      → Owned max running socket (set_at (set_at is_open listen false) l true) l
  Owned-listen l closed = record {
    owns = λ i b r. rw (differs i b r) (after i b r);
    alone = h.alone;
    apart = λ i b r e. true≢false (sym ((==_iff (socket i) l).1 e) ∙ differs i b r);
    listening = rw (==_refl l) refl;
    owner = λ d o. elim (Bool-cases (d == l)) [
      | inl same ↦ inl ((==_iff d l).0 same)
      | inr other ↦ elim (Bool-cases (d == listen)) [
        | inl same ↦ absurd (true≢false (sym (rw (other, same) at o)))
        | inr other' ↦ elim (h.owner d (rw (other, other') at o)) [
          | inl same ↦ absurd (true≢false (sym ((==_iff d listen).1 same) ∙ other'))
          | inr w ↦ inr w
        ]
      ]
    ];
  }
    where
      after : (i : ℕ) → i < max → running i ≡ true → set_at is_open listen false (socket i) ≡ true
      after i b r = rw (==-false (socket i) listen (h.apart i b r)) (h.owns i b r)

      differs : (i : ℕ) → i < max → running i ≡ true → (socket i == l) ≡ false
      differs i b r = apart-open (set_at is_open listen false) (socket i) l (after i b r) closed

set_at-back : (f : ℕ → Bool) (d : ℕ) → f d ≡ false → set_at (set_at f d true) d false ≡ f
set_at-back f d closed = fun_ext λ j. elim (Bool-cases (j == d)) [
  | inl same ↦ rw same (sym (ap f ((==_iff j d).0 same) ∙ closed))
  | inr other ↦ rw other refl
]

set_at-swap :
    (f : ℕ → Bool) (d l : ℕ) → set_at (set_at f d true) l true ≡ set_at (set_at f l true) d true
set_at-swap f d l = fun_ext λ j. ground arith

module _ (n : Net) (h : IsOwned n) (i : ℕ) (k : Calls) (inside : i < n.slots.max_connection)
    (idle : n.slots.running i ≡ false)
    (fresh : (destroy_socket n.listen_socket n).is_open k.child.descriptor ≡ false)
    (binds : k.binds ≡ true) where
  abbrev child : ℕ
  child = k.child.descriptor

  abbrev listener : ℕ
  listener = k.listener.descriptor

  abbrev closed : ℕ → Bool
  closed = set_at n.is_open n.listen_socket false

  pub served-IsOwned :
      (created : Bool)
      → k.creates_thread ≡ created
      → (serve_child i k n).is_open listener ≡ false
      → IsOwned (listen_again k (serve_child i k n))
  unfolding create_thread
  served-IsOwned true e free =
      rw (e, binds)
        (record {
          served = begins-IsServed n.slots h.served i _ refl idle inside;
          owned =
              let (apart, shut) = parts (rw e at free) in
              subst
                (λ o.
                  Owned n.slots.max_connection (set_at n.slots.running i true)
                    (set_at n.socket i child) o listener)
                (sym (set_at-swap closed child listener))
                (Owned-begin _ _ _ _ _ i child (Owned-listen _ _ _ _ _ h.owned listener shut) inside
                  idle (rw apart fresh));
        })
    where
      parts :
          set_at closed child true listener ≡ false
          → ((child == listener) ≡ false) × (closed listener ≡ false)
      parts o = elim (Bool-cases (listener == child)) [
        | inl same ↦ absurd (true≢false (rw same at o))
        | inr other ↦ (
          ==-false child listener
              (λ e. true≢false (sym ((==_iff listener child).1 (sym e)) ∙ other)),
          rw other at o,
        )
      ]
  served-IsOwned false e free =
      rw (e, binds)
        (record {
          served =
              subst (λ c. IsServed (record n.slots { clients = c }))
                (sym (set_at-twice n.slots.clients i _ _))
                (fails-IsServed n.slots h.served i _ refl idle);
          owned =
              let back = set_at-back closed child fresh in
              let shut : closed listener ≡ false =
                subst (λ o. o listener ≡ false) back (rw (e, ==_refl i) at free) in
              rw (==_refl i) (
                subst
                  (λ o.
                    Owned n.slots.max_connection n.slots.running (set_at n.socket i child)
                      (set_at o listener true) listener)
                  (sym back)
                  (Owned-socket _ _ _ _ _ (Owned-listen _ _ _ _ _ h.owned listener shut) i child
                    idle));
        })

-- `AcceptConnectionUDP` hears a client that asks for a connection, and the first free slot has no thread.
-- The descriptors that it gets for the client and for the listening socket are not open when it gets
-- them, and the second one is bound. Then it returns, and the invariant of the slots and of the sockets
-- still holds, with the new listening socket, whether the thread was made or not.
pub accept_connection_udp-IsOwned :
    (results : List (Option (List ℕ))) (m : Mem) (k : Calls) (n : Net) (i : ℕ)
    → hear results m ≡ Heard.knock
    → IsOwned n
    → find_free_idx_host n.slots ≡ some i
    → n.slots.running i ≡ false
    → k.binds ≡ true
    → (destroy_socket n.listen_socket n).is_open k.child.descriptor ≡ false
    → (serve_child i k n).is_open k.listener.descriptor ≡ false
    → (n' : Net) × (accept_connection_udp results m k n ≡ Outcome.returned n')
      × IsOwned n'
      × (n'.listen_socket ≡ k.listener.descriptor)
unfolding accept_connection_udp find_free_idx_host
accept_connection_udp-IsOwned results m k n i asks h free idle binds fresh fresh' =
    let (off, inside) = found_offline n.slots.max_connection 0 n.slots.clients i free in
    (
      listen_again k (serve_child i k n),
      rw (asks, free) refl,
      served-IsOwned n h i k (omega arith) idle fresh binds k.creates_thread refl fresh',
      rw binds refl,
    )
