-- ===== src/Io/Reading.antt =====
-- What `ReadFrom` reads.
use star_server.Prelude.{
  take-add, drop-add, take-length-take, ℕ, zero, suc, ◌+◌, ◌-◌, ◌≤◌, ◌<◌, ◌≡◌, refl, sym, ap, ap₂,
  ◌∙◌, ◌⊎◌, inl, inr, Bool-cases, List, [], ◌∷◌, ◌++◌, Option, none, some, ◌==◌, ==_iff, min,
  length, length-take, length-drop, take, drop, Mem, read, write, pos, arith,
}
use star_server.Prelude.Writes.{write_outside, read_agree, read-write, read-add}
use star_server.Io.{Wire, Got, arrived, taken, read_loop}

-- The call read `left` bytes into memory from `a` on, behind `done` others.
pub record ReadsAll (w : Wire) (m : Mem) (a done left : ℕ) (g : Got) : Type 0 where
  pub size : g.size ≡ pos (done + left)
  pub enough : left ≤ length w.incoming
  pub stored : read g.memory a left ≡ take left w.incoming
  pub remaining : g.wire.incoming ≡ drop left w.incoming

-- The call gave up with 0: the first bytes, fewer than were asked for, were read, and then a `recv` that
-- did not fail passed none, as it could pass none or as the socket had none. `calls` are those before it.
pub record GivesUp (w : Wire) (m : Mem) (a left : ℕ) (g : Got) : Type 0 where
  pub size : g.size ≡ pos 0
  pub count : ℕ
  pub fewer : count < left
  pub stored : read g.memory a count ≡ take count w.incoming
  pub remaining : g.wire.incoming ≡ drop count w.incoming
  pub calls : List (Option ℕ)
  pub last : ℕ
  pub plan : w.recvs ≡ calls ++ some last ∷ g.wire.recvs
  pub closed : (last ≡ 0) ⊎ (g.wire.incoming ≡ [])

-- What both do: other memory is left alone, and nothing is sent.
pub record Keeps (w : Wire) (m : Mem) (a left : ℕ) (g : Got) : Type 0 where
  pub outside : (k : ℕ) → (k < a) ⊎ (a + left ≤ k) → g.memory k ≡ m k
  pub silent : g.wire.outgoing ≡ w.outgoing
  pub unsent : g.wire.sends ≡ w.sends

abbrev pub Reads : Wire → Mem → ℕ → ℕ → ℕ → Got → Type 0
Reads w m a done left g = (ReadsAll w m a done left g ⊎ GivesUp w m a left g) × Keeps w m a left g

abbrev pub Returns {ℓ} : {A : Type ℓ} → Option A → (A → Type 0) → Type 0
Returns none p = Unit {0}
Returns (some a) p = p a

-- A round that reads `r` bytes, and what the rounds behind it do.
module _ (w : Wire) (recvs : List (Option ℕ)) (m : Mem) (a done left k : ℕ) where
  abbrev got : List ℕ
  got = arrived left k w.incoming

  abbrev r : ℕ
  r = length got

  r-le : (r ≤ left) × (r ≤ length w.incoming)
  r-le = (
    omega (arith, length-take (min k left) w.incoming),
    omega (arith, length-take (min k left) w.incoming),
  )

  round :
      (g : Got)
      → Reads (taken w recvs r) (write m a got) (a + r) (done + r) (left - r) g
      → Reads (record w { recvs = some k ∷ recvs }) m a done left g
  round g (e, kept) = (
    elim e [ inl all ↦ inl (whole all) | inr gone ↦ inr (given_up gone) ],
    record {
      outside = λ i h.
          kept.outside i (ground (arith, r-le)) ∙ write_outside m a got i (ground (arith, r-le));
      silent = kept.silent;
      unsent = kept.unsent;
    },
  )
    where
      parts : left ≡ r + (left - r)
      parts = omega (arith, r-le)

      front :
          (n : ℕ)
          → read g.memory (a + r) n ≡ take n (drop r w.incoming)
          → read g.memory a (r + n) ≡ take (r + n) w.incoming
      front n rest =
          read-add g.memory a r n
          ∙ ap₂ ◌++◌
              (read_agree g.memory (write m a got) a r (λ i lo hi. kept.outside i (inl hi))
                ∙ read-write m a got
                ∙ sym (take-length-take (min k left) w.incoming))
              rest
          ∙ sym (take-add r n w.incoming)

      given_up :
          GivesUp (taken w recvs r) (write m a got) (a + r) (left - r) g
          → GivesUp (record w { recvs = some k ∷ recvs }) m a left g
      given_up h = record {
        size = h.size;
        count = r + h.count;
        fewer = omega (arith, h.fewer);
        stored = front h.count h.stored;
        remaining = h.remaining ∙ sym (drop-add r h.count w.incoming);
        calls = some k ∷ h.calls;
        last = h.last;
        plan = ap (◌∷◌ (some k)) h.plan;
        closed = h.closed;
      }

      whole :
          ReadsAll (taken w recvs r) (write m a got) (a + r) (done + r) (left - r) g
          → ReadsAll (record w { recvs = some k ∷ recvs }) m a done left g
      whole all = record {
        size = all.size ∙ ap pos {y = done + left} (omega (arith, r-le));
        enough = omega (arith, r-le, all.enough, length-drop r w.incoming);
        stored =
            ap (read g.memory a) parts
            ∙ front (left - r) all.stored
            ∙ ap (λ t. take t w.incoming) (sym parts);
        remaining =
            all.remaining
            ∙ sym (drop-add r (left - r) w.incoming)
            ∙ ap (λ t. drop t w.incoming) (sym parts);
      }

pub through {ℓ} :
    {A : Type ℓ} (o : Option A) (p q : A → Type 0)
    → ((a : A) → p a → q a)
    → Returns o p
    → Returns o q
through none p q f h = _
through (some a) p q f h = f a h

-- A `recv` that failed.
failed :
    (w : Wire) (recvs : List (Option ℕ)) (m : Mem) (a done left : ℕ) (g : Got)
    → Reads (record w { recvs = recvs }) m a done left g
    → Reads (record w { recvs = none ∷ recvs }) m a done left g
failed w recvs m a done left g (inl all, kept) = (
  inl (record {
    size = all.size;
    enough = all.enough;
    stored = all.stored;
    remaining = all.remaining;
  }),
  record { outside = kept.outside; silent = kept.silent; unsent = kept.unsent },
)
failed w recvs m a done left g (inr gone, kept) = (
  inr (record {
    size = gone.size;
    count = gone.count;
    fewer = gone.fewer;
    stored = gone.stored;
    remaining = gone.remaining;
    calls = none ∷ gone.calls;
    last = gone.last;
    plan = ap (◌∷◌ none) gone.plan;
    closed = gone.closed;
  }),
  record { outside = kept.outside; silent = kept.silent; unsent = kept.unsent },
)

-- No bytes came.
nothing_came :
    (n k : ℕ) (incoming : List ℕ)
    → length (arrived (suc n) k incoming) ≡ 0
    → (k ≡ 0) ⊎ (incoming ≡ [])
nothing_came n zero incoming e = inl refl
nothing_came n (suc k) [] e = inr refl
nothing_came n (suc k) (b ∷ incoming) e =
    absurd (omega (arith, e, length-take (min (suc k) (suc n)) (b ∷ incoming)))

-- Whatever the plan: what the loop does when it returns.
pub read_loop-Reads :
    (recvs : List (Option ℕ)) (w : Wire) (done : ℕ) (m : Mem) (a left : ℕ)
    → Returns (read_loop recvs w done m a left) (Reads (record w { recvs = recvs }) m a done left)
unfolding read_loop
read_loop-Reads recvs w done m a zero = (
  inl (record {
    size = ap pos (omega arith);
    enough = omega arith;
    stored = refl;
    remaining = refl;
  }),
  record { outside = λ i h. refl; silent = refl; unsent = refl },
)
read_loop-Reads [] w done m a (suc left) = _
read_loop-Reads (none ∷ recvs) w done m a (suc left) =
    through _ _ _ (λ g h. failed w recvs m a done (suc left) g h)
      (read_loop-Reads recvs w done m a (suc left))
read_loop-Reads (some k ∷ recvs) w done m a (suc left) =
    let got = arrived (suc left) k w.incoming in
    let r = length got in
    elim (Bool-cases (r == 0)) [
      | inl closed ↦ rw closed (
        inr (record {
          size = refl;
          count = 0;
          fewer = omega arith;
          stored = refl;
          remaining = refl;
          calls = [];
          last = k;
          plan = refl;
          closed = nothing_came left k w.incoming ((==_iff r 0).0 closed);
        }),
        record { outside = λ i h. refl; silent = refl; unsent = refl },
      )
      | inr more ↦ rw more (
          through _ _ _ (round w recvs m a done (suc left) k) (
            read_loop-Reads recvs (taken w recvs r) (done + r) (write m a got) (a + r)
              (suc left - r)))
    ]
