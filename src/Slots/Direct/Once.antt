-- ===== src/Slots/Direct/Once.antt =====
-- `Read` and `WriteAll` make one call that passes something, and take it for all.
use mathlib.Core.Bool.{true≢false}
use star_server.Prelude.{
  ℕ, zero, suc, ◌+◌, ◌-◌, ◌≤◌, ◌<◌, ◌≡◌, ◌≢◌, refl, sym, ap, ◌∙◌, inl, inr, Bool, true, false,
  Bool-cases, List, [], ◌∷◌, ◌++◌, Option, some, ◌==◌, ==_iff, ==_refl, ==-false, ltb, length,
  length-take, min, Mem, write, pos, take, set_at, arith,
}
use star_server.Io.{Wire, passed, arrived, taken, read_once}
use star_server.Slots.Sockets.{Net}
use star_server.Slots.Direct.{
  add_again, first_read, after_first, after_one, after_loop, read_client, first_write, write_once,
  write_client, after_write, keep_wire, write_slots, write_all,
}

-- The loop ends, since what is added is not 0.
add_again_ends :
    (f k count bytes : ℕ)
    → 0 < k
    → count ≤ bytes + f
    → (b : ℕ) × (add_again f k count bytes ≡ some b)
unfolding add_again
add_again_ends zero k count bytes h l = (bytes, ground arith)
add_again_ends (suc f) k count bytes h l =
    let rest = add_again_ends f k count (bytes + k) h (omega arith) in
    elim (Bool-cases (ltb bytes count)) [
      | inl more ↦ rw more rest
      | inr over ↦ rw over (bytes, refl)
    ]

-- The next call of `sendto` lets k bytes pass.
record Sends (k : ℕ) (w : Wire) : Type 0 where
  pub rest : List (Option ℕ)
  pub plan : w.sends ≡ some k ∷ rest
  pub some_bytes : 0 < k

write_client-once :
    (k : ℕ) (flag : Bool) (w : Wire) (bs : List ℕ)
    → 0 < length bs
    → Sends k w
    → (w' : Wire) × (write_client flag w bs ≡ some w') × (w'.outgoing ≡ w.outgoing ++ take k bs)
unfolding write_client write_once first_write
write_client-once k true w bs some_bs h = (passed w h.rest (take k bs), rw h.plan refl, refl)
write_client-once k false w [] some_bs h = absurd (omega arith)
write_client-once k false w (b ∷ bs) some_bs h =
    let sent = take k (b ∷ bs) in
    let ends =
      add_again_ends (length (b ∷ bs)) (length sent) (length (b ∷ bs)) (length sent)
        (omega (arith, length-take k (b ∷ bs), h.some_bytes)) (omega arith) in
    (
      passed w h.rest sent,
      ap (λ sends. after_write (length (b ∷ bs)) (first_write sends w (b ∷ bs))) h.plan
          ∙ ap (keep_wire (passed w h.rest sent)) ends.1,
      refl,
    )

-- No two clients that are online, of the slots from i on, have the same socket.
abbrev Apart : Net → Type 0
Apart n =
    (i j : ℕ)
    → i < n.slots.max_connection
    → j < n.slots.max_connection
    → (n.slots.clients i).online ≡ true
    → (n.slots.clients j).online ≡ true
    → n.socket i ≡ n.socket j
    → i ≡ j

abbrev pub Reached : Net → ℕ → ℕ → ℕ → Type 0
Reached n k i j = (i ≤ j) × (j < i + k) × ((n.slots.clients j).online ≡ true)

-- Each of the slots from i on, k of them, whose client is online got the bytes that its call let pass, and
-- nothing else was sent.
record Wrote (bs : List ℕ) (ks : ℕ → ℕ) (k i : ℕ) (n : Net) (o : Option Net) : Type 0 where
  pub net : Net
  pub returns : o ≡ some net
  pub sent :
      (j : ℕ)
      → Reached n k i j
      → (net.wires (n.socket j)).outgoing ≡ (n.wires (n.socket j)).outgoing ++ take (ks j) bs
  pub others : (d : ℕ) → ((j : ℕ) → Reached n k i j → n.socket j ≢ d) → net.wires d ≡ n.wires d

module _ (bs : List ℕ) (some_bs : 0 < length bs) (ks : ℕ → ℕ) where
  write_slots-Wrote :
      (k i : ℕ) (n : Net)
      → Apart n
      → i + k ≤ n.slots.max_connection
      → ((j : ℕ) → Reached n k i j → Sends (ks j) (n.wires (n.socket j)))
      → Wrote bs ks k i n (write_slots bs k i n)
  unfolding write_slots
  write_slots-Wrote zero i n apart inside plans = record {
    net = n;
    returns = refl;
    sent = λ j r. absurd (omega (arith, r.0, r.1));
    others = λ d h. refl;
  }
  write_slots-Wrote (suc k) i n apart inside plans = elim (Bool-cases (n.slots.clients i).online) [
    | inr off ↦
        let rest =
          write_slots-Wrote k (i + 1) n apart (omega (arith, inside))
            (λ j r. plans j (later j r)) in
        rw off (record {
          net = rest.net;
          returns = rest.returns;
          sent = λ j r. elim (Bool-cases (j == i)) [
            | inl same ↦ absurd (is_off off j ((==_iff j i).0 same) r.2)
            | inr differs ↦ rest.sent j (above j r differs)
          ];
          others = λ d h. rest.others d (λ j r. h j (later j r));
        })
    | inl on ↦
        let (w, wrote, bytes) =
          write_client-once (ks i) (n.non_blocking i) (n.wires (n.socket i)) bs some_bs
            (plans i (omega arith, omega arith, on)) in
        let m = record n { wires = set_at n.wires (n.socket i) w } in
        let free : (j : ℕ) → Reached n k (i + 1) j → (n.socket j == n.socket i) ≡ false = λ j r.
          ==-false (n.socket j) (n.socket i) (λ e.
            lt-irrefl (apart j i (omega (arith, r.1, inside)) (omega (arith, inside)) r.2 on e)
              (r.0)) in
        let rest =
          write_slots-Wrote k (i + 1) m apart (omega (arith, inside))
            (λ j r. rw (free j r) (plans j (later j r))) in
        rw (on, wrote)
          (record {
            net = rest.net;
            returns = rest.returns;
            sent = λ j r. elim (Bool-cases (j == i)) [
              | inl same ↦ rw ((==_iff j i).0 same) (
                  ap (λ v. v.outgoing)
                    (rest.others (n.socket i) (λ j r e.
                      true≢false (sym ((==_iff (n.socket j) (n.socket i)).1 e) ∙ free j r)))
                  ∙ (rw (==_refl (n.socket i)) bytes))
              | inr differs ↦ let r' = above j r differs in rest.sent j r' ∙ (rw (free j r') refl)
            ];
            others = λ d h.
                rest.others d (λ j r. h j (later j r))
                ∙ (rw (==-false d (n.socket i) (λ e. h i (omega arith, omega arith, on) (sym e)))
                    refl);
          })
  ]
    where
      later : (j : ℕ) → Reached n k (i + 1) j → Reached n (suc k) i j
      later j r = (omega (arith, r.0), omega (arith, r.1), r.2)

      above : (j : ℕ) → Reached n (suc k) i j → (j == i) ≡ false → Reached n k (i + 1) j
      above j r differs = (ground (arith, r.0, differs), omega (arith, r.1), r.2)

      is_off :
          (n.slots.clients i).online ≡ false
          → (j : ℕ) → j ≡ i
          → (n.slots.clients j).online ≡ true
          → ⊥
      is_off off j e on = true≢false (sym on ∙ ap (λ k. (n.slots.clients k).online) e ∙ off)

      lt-irrefl : {j : ℕ} → j ≡ i → i + 1 ≤ j → ⊥
      lt-irrefl e l = omega (arith, e, l)

-- Let no two clients that are online have the same socket, and let the next call of `sendto` on the socket
-- of each one, but for the first slot, let some bytes pass: the number that it gives for the slot. Then
-- `WriteAll` of a message that is not empty returns. Each of these clients got only the bytes of the
-- message that the one call let pass, however many they are; and nothing was sent on any other socket,
-- that of the first slot included.
write_all-once :
    (bs : List ℕ) (ks : ℕ → ℕ) (n : Net)
    → 0 < length bs
    → 0 < n.slots.max_connection
    → Apart n
    → ((j : ℕ) → Reached n (n.slots.max_connection - 1) 1 j → Sends (ks j) (n.wires (n.socket j)))
    → Wrote bs ks (n.slots.max_connection - 1) 1 n (write_all bs n)
unfolding write_all
write_all-once bs ks n some_bs some_slots apart plans =
    write_slots-Wrote bs some_bs ks (n.slots.max_connection - 1) 1 n apart
      (omega (arith, some_slots)) plans

arrived-some :
    (count k : ℕ) (bs : List ℕ)
    → 0 < k
    → 0 < count
    → 0 < length bs
    → 0 < length (arrived count k bs)
arrived-some count k bs hk hc hb = omega (arith, length-take (min k count) bs, hk, hc, hb)

not_zero :
    (count k : ℕ) (bs : List ℕ)
    → 0 < k
    → 0 < count
    → 0 < length bs
    → (length (arrived count k bs) == 0) ≡ false
not_zero count k bs hk hc hb = ground (arith, arrived-some count k bs hk hc hb)

-- `Read` of at least one byte from a socket that has some, whose next call of `recv` lets k bytes pass and
-- not none: it returns the count that was asked for, with only the bytes of that call in the buffer.
read_client-once :
    (flag : Bool) (k : ℕ) (rest : List (Option ℕ)) (w : Wire) (m : Mem) (a count : ℕ)
    → w.recvs ≡ some k ∷ rest
    → 0 < k
    → 0 < count
    → 0 < length w.incoming
    → read_client flag w m a count
      ≡ some (record {
        size = pos count;
        memory = write m a (arrived count k w.incoming);
        wire = taken w rest (length (arrived count k w.incoming));
      })
unfolding read_client read_once first_read
read_client-once true k rest w m a count plan hk hc hi =
    ap (λ recvs. after_one count (read_once recvs w m a count)) plan
    ∙ (rw (not_zero count k w.incoming hk hc hi) refl)
read_client-once false k rest w m a zero plan hk hc hi = absurd (omega arith)
read_client-once false k rest w m a (suc n) plan hk hc hi =
    let got = arrived (suc n) k w.incoming in
    let ends =
      add_again_ends (suc n) (length got) (suc n) (length got)
        (arrived-some (suc n) k w.incoming hk hc hi) (omega arith) in
    ap (λ recvs. after_first (suc n) (first_read recvs w m a (suc n))) plan
    ∙ (rw (not_zero (suc n) k w.incoming hk hc hi) (
        ap
          (after_loop (suc n) (record {
            size = pos (length got);
            memory = write m a got;
            wire = taken w rest (length got);
          }))
          ends.1))
