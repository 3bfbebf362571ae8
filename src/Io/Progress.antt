-- ===== src/Io/Progress.antt =====
-- When `ReadFrom` and `WriteTo` return.
use mathlib.Core.Path.{subst}
use star_server.Prelude.{
  ℕ, zero, suc, ◌+◌, ◌-◌, ◌≤◌, ◌≡◌, refl, inl, inr, Bool-cases, false, List, [], ◌∷◌, Option, none,
  some, ◌==◌, length, length-drop, drop, take, Mem, write, arith,
}
use star_server.Io.{
  Wire, Got, Put, Protocol, arrived, taken, passed, read_loop, read_from, write_loop, write_to,
}
use star_server.Io.Reading.{Reads, Returns, read_loop-Reads}
use star_server.Io.Writing.{Writes, write_loop-Writes}

-- The calls of a plan that do not return -1.
unfoldable pub passes : List (Option ℕ) → ℕ
passes [] = 0
passes (none ∷ plan) = passes plan
passes (some k ∷ plan) = suc (passes plan)

abbrev IsDone {ℓ} : {A : Type ℓ} → Option A → Type ℓ
IsDone {A = A} o = (a : A) × (o ≡ some a)

read_loop-IsDone :
    (recvs : List (Option ℕ)) (w : Wire) (done : ℕ) (m : Mem) (a left : ℕ)
    → left ≤ passes recvs
    → IsDone (read_loop recvs w done m a left)
unfolding read_loop passes
read_loop-IsDone recvs w done m a zero h = (_, refl)
read_loop-IsDone [] w done m a (suc left) h = absurd (omega arith)
read_loop-IsDone (none ∷ recvs) w done m a (suc left) h =
    read_loop-IsDone recvs w done m a (suc left) h
read_loop-IsDone (some k ∷ recvs) w done m a (suc left) h =
    let got = arrived (suc left) k w.incoming in
    let r = length got in
    elim (Bool-cases (r == 0)) [
      | inl closed ↦ rw closed (_, refl)
      | inr more ↦ rw more (
          read_loop-IsDone recvs (taken w recvs r) (done + r) (write m a got) (a + r) (suc left - r)
            (ground arith))
    ]

write_loop-IsDone :
    (sends : List (Option ℕ)) (w : Wire) (done : ℕ) (bs : List ℕ)
    → length bs ≤ passes sends
    → IsDone (write_loop sends w done bs)
unfolding write_loop passes
write_loop-IsDone sends w done [] h = (_, refl)
write_loop-IsDone [] w done (b ∷ bs) h = absurd (omega arith)
write_loop-IsDone (none ∷ sends) w done (b ∷ bs) h = write_loop-IsDone sends w done (b ∷ bs) h
write_loop-IsDone (some k ∷ sends) w done (b ∷ bs) h = elim (Bool-cases (k == 0)) [
  | inl closed ↦ rw closed (_, refl)
  | inr more ↦ rw more (
      write_loop-IsDone sends (passed w sends (take k (b ∷ bs))) _ (drop k (b ∷ bs))
        (ground (arith, length-drop k (b ∷ bs))))
]

returned {ℓ} :
    {A : Type ℓ} (o : Option A) (p : A → Type 0)
    → IsDone o
    → Returns o p
    → (a : A) × (o ≡ some a) × p a
returned o p (a, e) h = (a, e, subst (λ o. Returns o p) e h)

-- The waiting `ReadFrom` returns when the count is at most the number of calls of `recv` that do not
-- fail. It returns either the count, with that many bytes of the socket, in order, in the buffer and
-- taken from the socket; or 0, with fewer bytes than that so read, and the last call made was one of
-- `recv` that did not fail and passed nothing, as it could pass no byte or the socket had none left. In
-- both cases no other memory is written and nothing is sent.
pub read_from-Reads :
    (w : Wire) (m : Mem) (a count : ℕ)
    → count ≤ passes w.recvs
    → (g : Got) × (read_from w m a count false ≡ some g) × Reads w m a 0 count g
unfolding read_from
read_from-Reads w m a count h =
    returned (read_from w m a count false) (Reads w m a 0 count)
      (read_loop-IsDone w.recvs w 0 m a count h) (read_loop-Reads w.recvs w 0 m a count)

-- `WriteTo` on a TCP socket returns when the count is at most the number of calls of `send` that do
-- not fail. It returns either the count, with all the bytes sent in order; or 0, with a proper part sent
-- from the front, and the last call made was one of `send` that returned 0. In both cases nothing is read.
pub write_to-Writes :
    (w : Wire) (bs : List ℕ)
    → length bs ≤ passes w.sends
    → (p : Put) × (write_to Protocol.tcp w bs ≡ some p) × Writes w 0 bs p
unfolding write_to
write_to-Writes w bs h =
    returned (write_to Protocol.tcp w bs) (Writes w 0 bs) (write_loop-IsDone w.sends w 0 bs h)
      (write_loop-Writes w.sends w 0 bs)
