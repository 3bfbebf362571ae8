-- ===== src/Io/Sent.antt =====
-- A `WriteTo` whose calls of `send` all pass something sends all that it is given.
use mathlib.Core.Path.{subst}
use star_server.Prelude.{
  ℕ, ◌+◌, ◌≤◌, ◌≡◌, refl, inl, inr, List, [], ◌∷◌, ◌++◌, Option, none, some, ◌==◌, length,
  length-drop, length-take, take, drop, arith, false,
}
use star_server.Io.{Wire, Put, Protocol, passed, write_loop, write_to}
use star_server.Io.Reading.{Returns}
use star_server.Io.Writing.{Writes, write_loop-Writes}
use star_server.Io.Progress.{passes}
use star_server.Io.Complete.{IsOpen}

record Full (size : ℕ) (o : Option Put) : Type 0 where
  put : Put
  returns : o ≡ some put
  whole : put.size ≡ size

write_loop-Full :
    (sends : List (Option ℕ)) (w : Wire) (done : ℕ) (bs : List ℕ)
    → IsOpen sends
    → length bs ≤ passes sends
    → Full (done + length bs) (write_loop sends w done bs)
unfolding write_loop passes IsOpen
write_loop-Full sends w done [] op h = record { put = _; returns = refl; whole = omega arith }
write_loop-Full [] w done (b ∷ bs) op h = absurd (omega arith)
write_loop-Full (none ∷ sends) w done (b ∷ bs) op h = write_loop-Full sends w done (b ∷ bs) op h
write_loop-Full (some k ∷ sends) w done (b ∷ bs) op h =
    let part = take k (b ∷ bs) in
    let rest =
      write_loop-Full sends (passed w sends part) (done + length part) (drop k (b ∷ bs)) op.1
        (omega (arith, op.0, length-drop k (b ∷ bs), h)) in
    let not_zero : (k == 0) ≡ false = ground (arith, op.0) in
    record {
      put = rest.put;
      returns = rw not_zero rest.returns;
      whole = omega (arith, rest.whole, length-take k (b ∷ bs), length-drop k (b ∷ bs));
    }

-- What the call leaves.
pub record Sent (w : Wire) (bs : List ℕ) (o : Option Put) : Type 0 where
  pub put : Put
  pub returns : o ≡ some put
  pub size : put.size ≡ length bs
  pub outgoing : put.wire.outgoing ≡ w.outgoing ++ bs
  pub incoming : put.wire.incoming ≡ w.incoming

pub write_to-Sent :
    (w : Wire) (bs : List ℕ)
    → IsOpen w.sends
    → length bs ≤ passes w.sends
    → Sent w bs (write_to Protocol.tcp w bs)
unfolding write_to
write_to-Sent w bs op h =
    let full = write_loop-Full w.sends w 0 bs op h in
    let writes : Writes w 0 bs full.put =
      subst (λ o. Returns o (Writes w 0 bs)) full.returns (write_loop-Writes w.sends w 0 bs) in
    record {
      put = full.put;
      returns = full.returns;
      size = omega (arith, full.whole);
      outgoing = elim writes.sent [
        | inl all ↦ all.1
        | inr gave_up ↦ absurd (omega (arith, gave_up.size, gave_up.fewer, full.whole))
      ];
      incoming = writes.unread.0;
    }
