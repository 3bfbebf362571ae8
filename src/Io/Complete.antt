-- ===== src/Io/Complete.antt =====
-- A `ReadFrom` whose calls of `recv` all pass something reads all that it is asked for.
use mathlib.Core.Path.{subst}
use star_server.Prelude.{
  false, ℕ, zero, suc, ◌+◌, ◌-◌, ◌≤◌, ◌<◌, ◌≡◌, refl, sym, ap, ◌∙◌, inl, inr, List, [], ◌∷◌,
  replicate, Option, none, some, ◌==◌, min, length, length-take, length-drop, take, drop, Mem, read,
  write, pos, arith,
}
use star_server.Io.{Wire, Got, arrived, taken, read_loop, read_from}
use star_server.Io.Reading.{Keeps, Reads, Returns, read_loop-Reads}
use star_server.Io.Progress.{passes}

-- No call that succeeds returns 0.
unfoldable pub IsOpen : List (Option ℕ) → Type 0
IsOpen [] = Unit {0}
IsOpen (none ∷ plan) = IsOpen plan
IsOpen (some k ∷ plan) = (0 < k) × IsOpen plan

-- Calls that may each pass k bytes.
pub IsOpen-replicate : (n k : ℕ) → 0 < k → IsOpen (replicate n (some k))
unfolding IsOpen
IsOpen-replicate zero k h = _
IsOpen-replicate (suc n) k h = (h, IsOpen-replicate n k h)

pub record Complete (recvs : List (Option ℕ)) (done left : ℕ) (o : Option Got) : Type 0 where
  pub got : Got
  pub returns : o ≡ some got
  pub size : got.size ≡ pos (done + left)
  pub still_open : IsOpen got.wire.recvs
  pub calls : passes recvs ≤ passes got.wire.recvs + left

read_loop-Complete :
    (recvs : List (Option ℕ)) (w : Wire) (done : ℕ) (m : Mem) (a left : ℕ)
    → IsOpen recvs
    → left ≤ passes recvs
    → left ≤ length w.incoming
    → Complete recvs done left (read_loop recvs w done m a left)
unfolding read_loop passes IsOpen
read_loop-Complete recvs w done m a zero op h l = record {
  got = _;
  returns = refl;
  size = ap pos {x = done} {y = done + 0} (omega arith);
  still_open = op;
  calls = omega arith;
}
read_loop-Complete [] w done m a (suc left) op h l = absurd (omega arith)
read_loop-Complete (none ∷ recvs) w done m a (suc left) op h l =
    let c = read_loop-Complete recvs w done m a (suc left) op h l in
    record {
      got = c.got;
      returns = c.returns;
      size = c.size;
      still_open = c.still_open;
      calls = c.calls;
    }
read_loop-Complete (some k ∷ recvs) w done m a (suc left) op h l =
    let got = arrived (suc left) k w.incoming in
    let r = length got in
    let some_bytes : 0 < r = omega (arith, length-take (min k (suc left)) w.incoming, op.0) in
    let few : r ≤ suc left = omega (arith, length-take (min k (suc left)) w.incoming) in
    let c =
      read_loop-Complete recvs (taken w recvs r) (done + r) (write m a got) (a + r) (suc left - r)
        op.1 (omega (arith, some_bytes, few, h))
        (omega (arith, length-drop r w.incoming, l, few)) in
    let not_zero : (r == 0) ≡ false = ground (arith, some_bytes) in
    record {
      got = c.got;
      returns = rw not_zero c.returns;
      size =
          c.size
          ∙ ap pos {x = done + r + (suc left - r)} {y = done + suc left} (omega (arith, few));
      still_open = c.still_open;
      calls = omega (arith, c.calls, some_bytes, few);
    }

-- What the waiting `ReadFrom` leaves.
pub record Filled (w : Wire) (m : Mem) (a count : ℕ) (o : Option Got) : Type 0 where
  pub got : Got
  pub returns : o ≡ some got
  pub size : got.size ≡ pos count
  pub stored : read got.memory a count ≡ take count w.incoming
  pub remaining : got.wire.incoming ≡ drop count w.incoming
  pub kept : Keeps w m a count got
  pub still_open : IsOpen got.wire.recvs
  pub calls : passes w.recvs ≤ passes got.wire.recvs + count

pub read_from-Filled :
    (w : Wire) (m : Mem) (a count : ℕ)
    → IsOpen w.recvs
    → count ≤ passes w.recvs
    → count ≤ length w.incoming
    → Filled w m a count (read_from w m a count false)
unfolding read_from
read_from-Filled w m a count op h l =
    let c = read_loop-Complete w.recvs w 0 m a count op h l in
    let reads : Reads w m a 0 count c.got =
      subst (λ o. Returns o (Reads w m a 0 count)) c.returns
        (read_loop-Reads w.recvs w 0 m a count) in
    elim reads.0 [
      | inl all ↦ record {
        got = c.got;
        returns = c.returns;
        size = c.size ∙ ap pos {x = 0 + count} {y = count} (omega arith);
        stored = all.stored;
        remaining = all.remaining;
        kept = reads.1;
        still_open = c.still_open;
        calls = c.calls;
      }
      | inr gone ↦ absurd (omega (arith, gone.fewer, pos-injective (sym gone.size ∙ c.size)))
    ]
  where
    pos-injective : {x y : ℕ} → pos x ≡ pos y → x ≡ y
    pos-injective e = cc e
