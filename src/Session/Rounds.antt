-- ===== src/Session/Rounds.antt =====
-- The packets of a connection, from its beginning to its end.
use star_server.Prelude.{
  ℕ, ◌<◌, ◌≡◌, refl, sym, ◌∙◌, ◌⊎◌, inl, inr, Bool, true, false, List, [], ◌∷◌, if◌then◌else◌,
}
use mathlib.Core.Bool.{true≢false}
use mathlib.Core.Path.{subst}
use star_server.Session.State.{Server, World, Outcome, set_offline}
use star_server.Session.Receive.{process_message_buffer, next_pack_no}
use star_server.Session.Answer.{end_pack_send_data, client_round}
use star_server.Session.Outcomes.{Ensures, Ensures-fault, Ensures-waiting, Ensures-returned}
use star_server.Session.Numbers.{process_message_buffer-pack_ref}
use star_server.Session.Thread.{
  Ending, Trace, ended, after_round, client_loop, start, greet, client_thread,
}
use star_server.Session.Sending.{AnswersWith, end_pack_send_data-WithRef}

-- A round takes a packet whose number k is later than n, or leaves the number n.
abbrev Advances : ℕ → ℕ → Bool → World → Type 0
Advances n k ok w =
    ((ok ≡ true) × (w.client.pack_ref ≡ k) × (n < k)) ⊎ ((ok ≡ false) × (w.client.pack_ref ≡ n))

Ensures-map :
    (p q : Bool → World → Type 0) (o : Outcome)
    → ((ok : Bool) (w : World) → p ok w → q ok w)
    → Ensures p o
    → Ensures q o
unfolding Ensures
Ensures-map p q Outcome.fault k h = _
Ensures-map p q Outcome.waiting k h = _
Ensures-map p q (Outcome.returned ok w) k h = k ok w h

module _ (s : Server) (request : World → World)
    (leaves_ref : (w : World) → (request w).client.pack_ref ≡ w.client.pack_ref) where
  answered-Advances :
      (n k : ℕ) (w : World)
      → w.client.pack_ref ≡ k
      → n < k
      → Ensures (Advances n k) (end_pack_send_data s (request w))
  answered-Advances n k w e l =
      Ensures-map (AnswersWith (request w).client.pack_ref) (Advances n k)
        (end_pack_send_data s (request w)) (λ ok w' h. inl (h.0, h.1 ∙ leaves_ref w ∙ e, l))
        (end_pack_send_data-WithRef s (request w))

  client_round-Advances :
      (w : World) → Ensures (Advances w.client.pack_ref (next_pack_no w)) (client_round s request w)
  unfolding client_round
  client_round-Advances w = cases (process_message_buffer s w) refl
    where
      Goal : Bool → World → Type 0
      Goal = Advances w.client.pack_ref (next_pack_no w)

      cases :
          (o : Outcome)
          → process_message_buffer s w ≡ o
          → Ensures Goal (elim o [
            | Outcome.fault ↦ Outcome.fault
            | Outcome.waiting ↦ Outcome.waiting
            | Outcome.returned ok w' ↦
                if ok then end_pack_send_data s (request w') else Outcome.returned false w'
          ])
      cases Outcome.fault e = Ensures-fault Goal
      cases Outcome.waiting e = Ensures-waiting Goal
      cases (Outcome.returned true w') e = elim (process_message_buffer-pack_ref s w w' true e) [
        | inl taken ↦ answered-Advances w.client.pack_ref (next_pack_no w) w' taken.1 taken.2
        | inr refused ↦ absurd (true≢false refused.0)
      ]
      cases (Outcome.returned false w') e = elim (process_message_buffer-pack_ref s w w' false e) [
        | inl taken ↦ absurd (true≢false (sym taken.0))
        | inr refused ↦ Ensures-returned Goal false w' (inr refused)
      ]

-- Each number is later than n and than those before it.
unfoldable pub IsIncreasing : ℕ → List ℕ → Type 0
IsIncreasing n [] = Unit {0}
IsIncreasing n (k ∷ ks) = (n < k) × IsIncreasing k ks

-- Where the loop is over, the client is offline.
unfoldable pub IsLeft : Ending → Type 0
IsLeft (Ending.left w) = w.client.online ≡ false
IsLeft e = Unit {0}

pub record IsOrdered (n : ℕ) (t : Trace) : Type 0 where
  pub increasing : IsIncreasing n t.numbers
  pub offline : IsLeft t.ending

after_round-IsOrdered :
    (n k : ℕ) (o : Outcome) (next : World → Trace)
    → Ensures (Advances n k) o
    → ((w : World) → IsOrdered w.client.pack_ref (next w))
    → IsOrdered n (after_round k o next)
unfolding Ensures IsIncreasing IsLeft
after_round-IsOrdered n k Outcome.fault next h f = record { increasing = _; offline = _ }
after_round-IsOrdered n k Outcome.waiting next h f = record { increasing = _; offline = _ }
after_round-IsOrdered n k (Outcome.returned true w) next h f = elim h [
  | inl taken ↦
      let rest = subst (λ m. IsOrdered m (next w)) taken.1 (f w) in
      record { increasing = (taken.2, rest.increasing); offline = rest.offline }
  | inr refused ↦ absurd (true≢false refused.0)
]
after_round-IsOrdered n k (Outcome.returned false w) next h f = elim h [
  | inl taken ↦ absurd (true≢false (sym taken.0))
  | inr refused ↦ subst (λ m. IsOrdered m (next w)) refused.1 (f w)
]

module _ (s : Server) (request : World → World)
    (leaves_ref : (w : World) → (request w).client.pack_ref ≡ w.client.pack_ref) where
  client_loop-IsOrdered :
      (polls : List Bool) (w : World) → IsOrdered w.client.pack_ref (client_loop s request polls w)
  unfolding client_loop IsIncreasing IsLeft
  client_loop-IsOrdered [] w = over w.client.online refl
    where
      over :
          (b : Bool)
          → w.client.online ≡ b
          → IsOrdered w.client.pack_ref
              (elim b [ true ↦ ended (Ending.running w) | false ↦ ended (Ending.left w) ])
      over true on = record { increasing = _; offline = _ }
      over false off = record { increasing = _; offline = off }
  client_loop-IsOrdered (ready ∷ polls) w =
      polled (client_loop-IsOrdered polls) w.client.online ready refl
    where
      polled :
          ((v : World) → IsOrdered v.client.pack_ref (client_loop s request polls v))
          → (b r : Bool) → w.client.online ≡ b
          → IsOrdered w.client.pack_ref (elim b [
            | false ↦ ended (Ending.left w)
            | true ↦ elim r [
              | true ↦
                  after_round
                    (next_pack_no w)
                    (client_round s request w)
                    (client_loop s request polls)
              | false ↦ client_loop s request polls (set_offline w)
            ]
          ])
      polled rest false r off = record { increasing = _; offline = off }
      polled rest true true on =
          after_round-IsOrdered w.client.pack_ref (next_pack_no w) (client_round s request w)
            (client_loop s request polls) (client_round-Advances s request leaves_ref w) rest
      polled rest true false on = rest (set_offline w)

-- Let the handlers leave the number of the last packet alone. Over the whole life of a client's thread,
-- whatever the socket brings and whenever it is ready, the packets for which the request handler is called
-- have, in the bytes that came, strictly increasing numbers, all of them above the last number at the
-- start; and where the loop is over, the client is offline.
pub client_thread-IsOrdered :
    (s : Server) (connect request : World → World) (polls : List Bool) (w : World)
    → ((w : World) → (connect w).client.pack_ref ≡ w.client.pack_ref)
    → ((w : World) → (request w).client.pack_ref ≡ w.client.pack_ref)
    → IsOrdered w.client.pack_ref (client_thread s connect request polls w)
unfolding client_thread
client_thread-IsOrdered s connect request polls w greets leaves_ref =
    subst (λ n. IsOrdered n (client_thread s connect request polls w)) (greeted w.client.online)
      (client_loop-IsOrdered s request leaves_ref polls (greet w.client.online connect (start w)))
  where
    greeted : (b : Bool) → (greet b connect (start w)).client.pack_ref ≡ w.client.pack_ref
    greeted true = greets (start w)
    greeted false = refl
