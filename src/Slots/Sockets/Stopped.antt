-- ===== src/Slots/Sockets/Stopped.antt =====
-- What `STSV_Stop` closes.
use mathlib.Core.Bool.{true≢false}
use star_server.Prelude.{
  ℕ, zero, suc, ◌+◌, ◌≤◌, ◌<◌, ◌≡◌, ◌≢◌, ◌↔◌, refl, sym, ap, ◌∙◌, inl, inr, true, false, Bool-cases,
  ◌==◌, ==_iff, if◌then◌else◌, arith,
}
use star_server.Database.{Db}
use star_server.Slots.Sockets.{Net, destroy_socket, stop_clients, stsv_stop}
use star_server.Slots.Sockets.Reached.{IsStart, Reaches, IsOwned, Reaches-IsOwned}

-- The slots from i on, n of them, have no client online with the socket d.
abbrev Unused : Net → ℕ → ℕ → ℕ → Type 0
Unused s d n i = (j : ℕ) → i ≤ j → j < i + n → (s.slots.clients j).online ≡ true → s.socket j ≢ d

-- One client.
abbrev stop_one : ℕ → Net → Net
stop_one i s = if (s.slots.clients i).online then destroy_socket (s.socket i) s else s

-- The open descriptors are the ones that `stop_one` was not called for.
abbrev Spares : Net → ℕ → ℕ → Net → Type 0
Spares s d i s' =
    (s'.is_open d ≡ true)
    ↔ ((s.is_open d ≡ true) × ((s.slots.clients i).online ≡ true → s.socket i ≢ d))

stop_one-Spares : (s : Net) (d i : ℕ) → Spares s d i (stop_one i s)
stop_one-Spares s d i = elim (Bool-cases (s.slots.clients i).online) [
  | inl on ↦ elim (Bool-cases (d == s.socket i)) [
    | inl same ↦
        rw (on, same)
          (
            (λ e. absurd (true≢false (sym e))),
            (λ h. absurd (h.1 refl (sym ((==_iff d (s.socket i)).0 same)))),
          )
    | inr differs ↦
        rw (on, differs)
          (
            (λ e. (e, λ _ same. true≢false (sym ((==_iff d (s.socket i)).1 (sym same)) ∙ differs))),
            (λ h. h.0),
          )
  ]
  | inr off ↦ rw off ((λ e. (e, λ f. absurd (true≢false (sym f)))), (λ h. h.0))
]

stop_one-Unused : (s : Net) (i d n k : ℕ) → Unused (stop_one i s) d n k ↔ Unused s d n k
stop_one-Unused s i d n k = elim (Bool-cases (s.slots.clients i).online) [
  | inl on ↦ rw on ((λ h. h), (λ h. h))
  | inr off ↦ rw off ((λ h. h), (λ h. h))
]

Unused-cons :
    (s : Net) (d n i : ℕ)
    → Unused s d (suc n) i
      ↔ (((s.slots.clients i).online ≡ true → s.socket i ≢ d) × Unused s d n (i + 1))
Unused-cons s d n i = (
  (λ h. (h i (omega arith) (omega arith), λ j lo hi. h j (omega arith) (omega arith))),
  (λ h j lo hi on. elim (Bool-cases (j == i)) [
    | inl same ↦
        let e = (==_iff j i).0 same in
        λ used. h.0 (ap (λ k. (s.slots.clients k).online) (sym e) ∙ on) (ap s.socket (sym e) ∙ used)
    | inr differs ↦ h.1 j (ground (arith, lo)) (omega (arith, hi)) on
  ]),
)

stop_clients-open :
    (n i : ℕ) (s : Net) (d : ℕ)
    → ((stop_clients n i s).is_open d ≡ true) ↔ ((s.is_open d ≡ true) × Unused s d n i)
unfolding stop_clients
stop_clients-open zero i s d = ((λ e. (e, λ j lo hi. absurd (omega arith))), (λ h. h.0))
stop_clients-open (suc n) i s d =
    let rest = stop_clients-open n (i + 1) (stop_one i s) d in
    let one = stop_one-Spares s d i in
    let kept = stop_one-Unused s i d n (i + 1) in
    let cons = Unused-cons s d n i in
    (
      (λ e.
          let later = rest.0 e in
          let here = one.0 later.0 in (here.0, cons.1 (here.1, kept.0 later.1))),
      (λ h. let parts = cons.0 h.1 in rest.1 (one.1 (h.0, parts.0), kept.1 parts.1)),
    )

-- A socket that is left: a running thread has it, whose client is offline.
pub record Leaving (n : Net) (d : ℕ) : Type 0 where
  pub slot : ℕ
  pub inside : slot < n.slots.max_connection
  pub runs : n.slots.running slot ≡ true
  pub offline : (n.slots.clients slot).online ≡ false
  pub same : n.socket slot ≡ d

module _ (n : Net) (h : IsOwned n) (d : ℕ) where
  left_open :
      n.is_open d ≡ true → Unused n d n.slots.max_connection 0 → d ≢ n.listen_socket → Leaving n d
  left_open o unused other = elim (h.owned.owner d o) [
    | inl same ↦ absurd (other same)
    | inr w ↦ elim (Bool-cases (n.slots.clients w.slot).online) [
      | inl on ↦ absurd (unused w.slot (omega arith) (omega (arith, w.inside)) on w.same)
      | inr off ↦ record {
        slot = w.slot;
        inside = w.inside;
        runs = w.runs;
        offline = off;
        same = w.same;
      }
    ]
  ]

  still_open :
      Leaving n d
      → (n.is_open d ≡ true) × Unused n d n.slots.max_connection 0 × (d ≢ n.listen_socket)
  still_open l = (
    ap n.is_open (sym l.same) ∙ h.owned.owns l.slot l.inside l.runs,
    (λ j lo hi on used.
        let inside : j < n.slots.max_connection = omega (arith, hi) in
        let e =
          h.owned.alone j l.slot inside l.inside (h.served.served j inside on) l.runs
            (used ∙ sym l.same) in
        true≢false (sym on ∙ ap (λ k. (n.slots.clients k).online) e ∙ l.offline)),
    (λ e. h.owned.apart l.slot l.inside l.runs (l.same ∙ e)),
  )

-- Whatever the accepting thread and the clients' threads have done since a TCP server started, when
-- `STSV_Stop` is called: the sockets that it leaves open are exactly those of the running threads whose
-- clients have gone offline. It closes the listening one and each one of a client that is online.
pub stsv_stop-open :
    {S : Type 0} (close : ℕ → S → S) (s n : Net) (db : Db S) (d : ℕ)
    → IsStart s
    → Reaches s n
    → ((stsv_stop close n db).0.is_open d ≡ true) ↔ Leaving n d
unfolding stsv_stop
stsv_stop-open close s n db d start reached =
    let h = Reaches-IsOwned s n start reached in
    let clients = stop_clients-open n.slots.max_connection 0 n d in
    elim (Bool-cases (d == n.listen_socket)) [
      | inl same ↦ rw same (
        (λ e. absurd (true≢false (sym e))),
        (λ l. absurd ((still_open n h d l).2 ((==_iff d n.listen_socket).0 same))),
      )
      | inr differs ↦ rw differs (
        (λ e.
            let o = clients.0 e in
            left_open n h d o.0 o.1
              (λ e. true≢false (sym ((==_iff d n.listen_socket).1 e) ∙ differs))),
        (λ l. let o = still_open n h d l in clients.1 (o.0, o.1)),
      )
    ]
