-- ===== src/Io/Writing.antt =====
-- What `WriteTo` writes.
use mathlib.Core.List.{append-nil, append_assoc}
use star_server.Prelude.{
  ℕ, zero, suc, ◌+◌, ◌<◌, ◌≡◌, refl, sym, ap, ap₂, ◌∙◌, ◌⊎◌, inl, inr, List, [], ◌∷◌, ◌++◌, Option,
  none, some, ◌==◌, false, length, length-append, take, drop, take-append-drop, take-add,
  take-length-take, drop-length-take, arith,
}
use star_server.Io.{Wire, Put, Protocol, passed, write_loop, write_to}
use star_server.Io.Reading.{Returns, through}

-- The call gave up with 0: a proper part was sent from the front, and then a `send` returned 0. `calls`
-- are those before it.
pub record GivesUp (w : Wire) (bs : List ℕ) (p : Put) : Type 0 where
  pub size : p.size ≡ 0
  pub count : ℕ
  pub fewer : count < length bs
  pub outgoing : p.wire.outgoing ≡ w.outgoing ++ take count bs
  pub calls : List (Option ℕ)
  pub plan : w.sends ≡ calls ++ some 0 ∷ p.wire.sends

-- All the bytes went out, in order, or the call gave up.
pub record Writes (w : Wire) (done : ℕ) (bs : List ℕ) (p : Put) : Type 0 where
  pub sent : ((p.size ≡ done + length bs) × (p.wire.outgoing ≡ w.outgoing ++ bs)) ⊎ GivesUp w bs p
  pub unread : (p.wire.incoming ≡ w.incoming) × (p.wire.recvs ≡ w.recvs)

-- A round that sends some bytes, and what the rounds behind it do.
round :
    (w : Wire) (sends : List (Option ℕ)) (done k : ℕ) (bs : List ℕ) (p : Put)
    → Writes (passed w sends (take k bs)) (done + length (take k bs)) (drop k bs) p
    → Writes (record w { sends = some k ∷ sends }) done bs p
round w sends done k bs p h = record {
  sent = elim h.sent [
    | inl all ↦ inl (
      omega (arith, all.0, split),
      all.1
          ∙ append_assoc w.outgoing (take k bs) (drop k bs)
          ∙ ap (◌++◌ w.outgoing) (take-append-drop k bs),
    )
    | inr part ↦ inr (record {
      size = part.size;
      count = length (take k bs) + part.count;
      fewer = omega (arith, split, part.fewer);
      outgoing =
          part.outgoing
          ∙ append_assoc w.outgoing (take k bs) (take part.count (drop k bs))
          ∙ ap (◌++◌ w.outgoing) (
              sym (
                take-add (length (take k bs)) part.count bs
                ∙ ap₂ (λ t u. t ++ take part.count u) (take-length-take k bs)
                    (drop-length-take k bs)));
      calls = some k ∷ part.calls;
      plan = ap (◌∷◌ (some k)) part.plan;
    })
  ];
  unread = h.unread;
}
  where
    split : length bs ≡ length (take k bs) + length (drop k bs)
    split = ap length (sym (take-append-drop k bs)) ∙ length-append (take k bs) (drop k bs)

-- A `send` that failed.
failed :
    (w : Wire) (sends : List (Option ℕ)) (done : ℕ) (bs : List ℕ) (p : Put)
    → Writes (record w { sends = sends }) done bs p
    → Writes (record w { sends = none ∷ sends }) done bs p
failed w sends done bs p h = record {
  sent = elim h.sent [
    | inl all ↦ inl all
    | inr part ↦ inr (record {
      size = part.size;
      count = part.count;
      fewer = part.fewer;
      outgoing = part.outgoing;
      calls = none ∷ part.calls;
      plan = ap (◌∷◌ none) part.plan;
    })
  ];
  unread = h.unread;
}

-- Whatever the plan: what the loop does when it returns.
pub write_loop-Writes :
    (sends : List (Option ℕ)) (w : Wire) (done : ℕ) (bs : List ℕ)
    → Returns (write_loop sends w done bs) (Writes (record w { sends = sends }) done bs)
unfolding write_loop
write_loop-Writes sends w done [] = record {
  sent = inl (omega arith, sym (append-nil w.outgoing));
  unread = (refl, refl);
}
write_loop-Writes [] w done (b ∷ bs) = _
write_loop-Writes (none ∷ sends) w done (b ∷ bs) =
    through _ _ _ (λ p h. failed w sends done (b ∷ bs) p h)
      (write_loop-Writes sends w done (b ∷ bs))
write_loop-Writes (some zero ∷ sends) w done (b ∷ bs) = record {
  sent = inr (record {
    size = refl;
    count = 0;
    fewer = omega arith;
    outgoing = sym (append-nil w.outgoing);
    calls = [];
    plan = refl;
  });
  unread = (refl, refl);
}
write_loop-Writes (some (suc k) ∷ sends) w done (b ∷ bs) = rw nonzero (
    through _ _ _ (λ p h. round w sends done (suc k) (b ∷ bs) p h)
      (write_loop-Writes sends (passed w sends (take (suc k) (b ∷ bs)))
        (done + length (take (suc k) (b ∷ bs))) (drop (suc k) (b ∷ bs))))
  where
    nonzero : (suc k == 0) ≡ false
    nonzero = ground arith

-- The code for UDP sends nothing.
pub write_to_udp :
    (w : Wire) (bs : List ℕ) → write_to Protocol.udp w bs ≡ some (record { size = 0; wire = w })
unfolding write_to
write_to_udp w bs = refl
