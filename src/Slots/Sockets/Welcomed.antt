-- ===== src/Slots/Sockets/Welcomed.antt =====
-- A client whose connection takes its number's message is let in.
use mathlib.Core.Path.{subst}
use star_server.Prelude.{
  ℕ, ◌≡◌, ◌≤◌, refl, ◌∙◌, inl, inr, Bool, true, false, Bool-cases, List, Option, some, OnSome,
  ==_refl, ◌++◌, arith,
}
use star_server.Io.{Protocol, write_to}
use star_server.Io.Complete.{IsOpen}
use star_server.Io.Progress.{passes}
use star_server.Io.Sent.{Sent, write_to-Sent}
use star_server.Session.State.{data_size_message, datasize_size, length-data_size_message}
use star_server.Slots.{find_free_idx_host}
use star_server.Slots.Sockets.{
  Net, Connection, opened, accept_loop, accept_at, accept_connection, join_thread, give_id,
  create_thread, set_up, on_net, sockmsg_giveid,
}
use star_server.Slots.Sockets.Accepting.{Accepted, accept_at-Accepted}

-- The call returns with the slot i taken for the socket d, which got the message with the number i.
pub record Welcomed (i d : ℕ) (created : Bool) (n : Net) (o : Option Net) : Type 0 where
  pub net : Net
  pub returns : o ≡ some net
  pub accepted : Accepted i d created n net
  pub told : (net.wires d).outgoing ≡ (n.wires d).outgoing ++ data_size_message sockmsg_giveid i

module _ (i d : ℕ) (n : Net) (tcp : n.protocol ≡ Protocol.tcp) (sends : IsOpen (n.wires d).sends)
    (calls : datasize_size ≤ passes (n.wires d).sends) where
  given :
      Sent
        (n.wires d)
        (data_size_message sockmsg_giveid i)
        (write_to n.protocol (n.wires d) (data_size_message sockmsg_giveid i))
  given = rw tcp (
      write_to-Sent (n.wires d) (data_size_message sockmsg_giveid i) sends
        (omega (arith, calls, length-data_size_message sockmsg_giveid i)))

  created-told :
      (created : Bool) (m : Net)
      → ((create_thread i created m).wires d).outgoing ≡ (m.wires d).outgoing
  unfolding create_thread
  created-told true m = refl
  created-told false m = refl

  record Told (created : Bool) (o : Option Net) : Type 0 where
    net : Net
    returns : o ≡ some net
    told : (net.wires d).outgoing ≡ (n.wires d).outgoing ++ data_size_message sockmsg_giveid i

  give-Told :
      (created : Bool)
      → Told created (on_net (give_id i (set_up i d n)) (λ n. some (create_thread i created n)))
  unfolding give_id
  give-Told created =
      rw (==_refl i, given.returns)
        (record {
          net = _;
          returns = refl;
          told = created-told created _ ∙ (rw (==_refl d) given.outgoing);
        })

  accept_at-Told :
      (created : Bool)
      → ((n.slots.clients i).thread ≡ true → n.slots.running i ≡ false)
      → Told created (accept_at i d created n)
  unfolding accept_at join_thread
  accept_at-Told created joined = elim (Bool-cases (n.slots.clients i).thread) [
    | inl begun ↦ rw (begun, joined begun) (give-Told created)
    | inr fresh ↦ rw fresh (give-Told created)
  ]

  accept_at-Welcomed :
      (created : Bool)
      → ((n.slots.clients i).thread ≡ true → n.slots.running i ≡ false)
      → Welcomed i d created n (accept_at i d created n)
  unfolding OnSome
  accept_at-Welcomed created joined =
      let t = accept_at-Told created joined in
      record {
        net = t.net;
        returns = t.returns;
        accepted =
            subst (OnSome (Accepted i d created n)) t.returns (accept_at-Accepted i d created n);
        told = t.told;
      }

-- Where `accept` gives a connection c, the protocol is TCP, no `send` on c returns 0, twelve of them do
-- not fail, and the thread that the first free slot had has ended if it had begun, `AcceptConnection`
-- returns. The slot is then as the step of the slots leaves it: where the thread was made, the client is
-- online, its thread runs and it is counted; else it is offline and its socket is closed. In both cases
-- the socket got the twelve bytes of the message with the slot's number.
pub accept_connection-Welcomed :
    (results : List (Option Connection)) (c : Connection) (i : ℕ) (created : Bool) (n : Net)
    → accept_loop results ≡ some c
    → find_free_idx_host n.slots ≡ some i
    → ((n.slots.clients i).thread ≡ true → n.slots.running i ≡ false)
    → n.protocol ≡ Protocol.tcp
    → IsOpen c.wire.sends
    → datasize_size ≤ passes c.wire.sends
    → Welcomed i c.descriptor created (opened c n) (accept_connection results created n)
unfolding accept_connection
accept_connection-Welcomed results c i created n given free joined tcp sends calls =
    rw (given, free)
      (accept_at-Welcomed i c.descriptor (opened c n) tcp (rw (==_refl c.descriptor) sends)
        (rw (==_refl c.descriptor) calls) created joined)
