-- ===== src/Slots/Sockets/Owned.antt =====
-- The sockets that are open are the listening one and one for each thread.
use mathlib.Core.Path.{subst}
use mathlib.Core.Bool.{true≢false}
use star_server.Prelude.{
  clash, ℕ, ◌<◌, ◌≡◌, ◌≢◌, ◌⊎◌, refl, sym, ap, ◌∙◌, inl, inr, Bool, true, false, Bool-cases, ◌==◌,
  ==_iff, ==_refl, ==-false, set_at,
}

-- A slot whose thread has the socket d.
pub record Owner (max : ℕ) (running : ℕ → Bool) (socket : ℕ → ℕ) (d : ℕ) : Type 0 where
  pub slot : ℕ
  pub inside : slot < max
  pub runs : running slot ≡ true
  pub same : socket slot ≡ d

pub record Owned (max : ℕ) (running : ℕ → Bool) (socket : ℕ → ℕ) (is_open : ℕ → Bool) (listen : ℕ)
    : Type 0 where
  pub owns : (i : ℕ) → i < max → running i ≡ true → is_open (socket i) ≡ true
  pub alone :
      (i j : ℕ)
      → i < max
      → j < max
      → running i ≡ true
      → running j ≡ true
      → socket i ≡ socket j
      → i ≡ j
  pub apart : (i : ℕ) → i < max → running i ≡ true → socket i ≢ listen
  pub listening : is_open listen ≡ true
  pub owner : (d : ℕ) → is_open d ≡ true → (d ≡ listen) ⊎ Owner max running socket d

-- A value at an open descriptor differs from one that is not open.
pub apart-open :
    (is_open : ℕ → Bool) (d e : ℕ) → is_open d ≡ true → is_open e ≡ false → (d == e) ≡ false
apart-open is_open d e p q = ==-false d e (λ same. clash (is_open d) p (ap is_open same ∙ q))

module _ (max : ℕ) (running : ℕ → Bool) (socket : ℕ → ℕ) (is_open : ℕ → Bool) (listen : ℕ)
    (h : Owned max running socket is_open listen) where
  -- A socket that was opened and closed.
  pub Owned-refused :
      (d : ℕ)
      → is_open d ≡ false
      → Owned max running socket (set_at (set_at is_open d true) d false) listen
  Owned-refused d closed = record {
    owns = λ i l r. rw (apart-open is_open (socket i) d (h.owns i l r) closed) (h.owns i l r);
    alone = h.alone;
    apart = h.apart;
    listening = rw (apart-open is_open listen d h.listening closed) h.listening;
    owner = λ e o. elim (Bool-cases (e == d)) [
      | inl same ↦ absurd (true≢false (sym (rw same at o)))
      | inr other ↦ h.owner e (rw other at o)
    ];
  }

  -- A slot without a thread gets a socket.
  pub Owned-socket :
      (i d : ℕ) → running i ≡ false → Owned max running (set_at socket i d) is_open listen
  Owned-socket i d stopped = record {
    owns = λ j l r. rw (other j r) (h.owns j l r);
    alone = λ j k l l' r r' e. h.alone j k l l' r r' (rw (other j r, other k r') at e);
    apart = λ j l r e. h.apart j l r (rw (other j r) at e);
    listening = h.listening;
    owner = λ e o. elim (h.owner e o) [
      | inl same ↦ inl same
      | inr w ↦ inr (record {
        slot = w.slot;
        inside = w.inside;
        runs = w.runs;
        same = rw (other w.slot w.runs) w.same;
      })
    ];
  }
    where
      other : (j : ℕ) → running j ≡ true → (j == i) ≡ false
      other j r = apart-open running j i r stopped

  -- A slot's thread ends and closes its socket.
  pub Owned-end :
      (i : ℕ)
      → i < max
      → running i ≡ true
      → Owned max (set_at running i false) socket (set_at is_open (socket i) false) listen
  Owned-end i l r = record {
    owns = λ j k q. rw (apart_sockets j k q) (h.owns j k (still j q).1);
    alone = λ j k l l' q q' e. h.alone j k l l' (still j q).1 (still k q').1 e;
    apart = λ j k q. h.apart j k (still j q).1;
    listening = rw (==-false listen (socket i) (λ e. h.apart i l r (sym e))) h.listening;
    owner = λ d o. elim (Bool-cases (d == socket i)) [
      | inl same ↦ absurd (true≢false (sym (rw same at o)))
      | inr differs ↦ elim (h.owner d (rw differs at o)) [
        | inl same ↦ inl same
        | inr w ↦ inr (record {
          slot = w.slot;
          inside = w.inside;
          runs =
              rw
                (==-false w.slot i (λ e.
                  clash (d == socket i) ((==_iff d (socket i)).1 (sym w.same ∙ ap socket e))
                    differs))
                w.runs;
          same = w.same;
        })
      ]
    ];
  }
    where
      still : (j : ℕ) → set_at running i false j ≡ true → ((j == i) ≡ false) × (running j ≡ true)
      still j q = elim (Bool-cases (j == i)) [
        | inl same ↦ absurd (true≢false (sym (rw same at q)))
        | inr differs ↦ (differs, rw differs at q)
      ]

      apart_sockets :
          (j : ℕ) → j < max → set_at running i false j ≡ true → (socket j == socket i) ≡ false
      apart_sockets j k q =
          ==-false (socket j) (socket i)
            (λ e. clash (j == i) ((==_iff j i).1 (h.alone j i k l (still j q).1 r e)) (still j q).0)

  -- A thread begins on a slot without one, whose socket is opened.
  pub Owned-start :
      (i : ℕ)
      → i < max
      → running i ≡ false
      → is_open (socket i) ≡ false
      → Owned max (set_at running i true) socket (set_at is_open (socket i) true) listen
  Owned-start i l stopped closed = record {
    owns = λ j k q. elim (Bool-cases (j == i)) [
      | inl same ↦ rw ((==_iff j i).0 same) (rw (==_refl (socket i)) refl)
      | inr differs ↦ old_open (socket j) (h.owns j k (rw differs at q))
    ];
    alone = λ j k b b' q q' e. elim (Bool-cases (j == i)) [
      | inl same ↦ elim (Bool-cases (k == i)) [
        | inl same' ↦ (==_iff j i).0 same ∙ sym ((==_iff k i).0 same')
        | inr differs ↦
            absurd (new_socket k b' (rw differs at q') (sym e ∙ ap socket ((==_iff j i).0 same)))
      ]
      | inr differs ↦ elim (Bool-cases (k == i)) [
        | inl same ↦ absurd (new_socket j b (rw differs at q) (e ∙ ap socket ((==_iff k i).0 same)))
        | inr differs' ↦ h.alone j k b b' (rw differs at q) (rw differs' at q') e
      ]
    ];
    apart = λ j k q e. elim (Bool-cases (j == i)) [
      | inl same ↦
          clash (is_open (socket j)) (ap is_open e ∙ h.listening)
            (ap (λ k. is_open (socket k)) ((==_iff j i).0 same) ∙ closed)
      | inr differs ↦ h.apart j k (rw differs at q) e
    ];
    listening = old_open listen h.listening;
    owner = λ d o. elim (Bool-cases (d == socket i)) [
      | inl same ↦ inr (record {
        slot = i;
        inside = l;
        runs = rw (==_refl i) refl;
        same = sym ((==_iff d (socket i)).0 same);
      })
      | inr differs ↦ elim (h.owner d (rw differs at o)) [
        | inl same ↦ inl same
        | inr w ↦ inr (record {
          slot = w.slot;
          inside = w.inside;
          runs = rw (apart-open running w.slot i w.runs stopped) w.runs;
          same = w.same;
        })
      ]
    ];
  }
    where
      old_open : (d : ℕ) → is_open d ≡ true → set_at is_open (socket i) true d ≡ true
      old_open d o = rw (apart-open is_open d (socket i) o closed) o

      new_socket : (j : ℕ) → j < max → running j ≡ true → socket j ≢ socket i
      new_socket j k q e = clash (is_open (socket j)) (h.owns j k q) (ap is_open e ∙ closed)

-- A slot without a thread gets a socket that is opened, and a thread.
pub Owned-begin :
    (max : ℕ) (running : ℕ → Bool) (socket : ℕ → ℕ) (is_open : ℕ → Bool) (listen i d : ℕ)
    → Owned max running socket is_open listen
    → i < max
    → running i ≡ false
    → is_open d ≡ false
    → Owned max (set_at running i true) (set_at socket i d) (set_at is_open d true) listen
Owned-begin max running socket is_open listen i d h inside idle closed =
    subst
      (λ e. Owned max (set_at running i true) (set_at socket i d) (set_at is_open e true) listen)
      own
      (Owned-start _ _ _ _ _ (Owned-socket _ _ _ _ _ h i d idle) i inside idle
        (ap is_open own ∙ closed))
  where
    own : set_at socket i d i ≡ d
    own = rw (==_refl i) refl
