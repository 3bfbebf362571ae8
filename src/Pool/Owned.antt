-- ===== src/Pool/Owned.antt =====
-- A block of the pool has one owner.
use mathlib.Core.Path.{subst}
use mathlib.Core.Bool.{true≢false}
use mathlib.Core.Option.{none-ne-some, some-injective}
use star_server.Prelude.{
  ℕ, ◌≡◌, refl, sym, ap, ◌∙◌, ◌≢◌, inl, inr, Bool, true, false, Bool-cases, Option, none, some, ltb,
  ◌==◌, ==_iff, length, take, set_at, List,
}
use star_server.Prelude.Writes.{set_at_self}
use star_server.Transfer.Files.{FilePath, Disk}
use star_server.Pool.{
  Pool, Answer, bigdata_size, find_unused, get_big_data_buffer_idx, free_big_data_buffer, read_file,
  get_big_data, free_loop, free_block, free_big_data,
}

-- The lock is free between two calls. A client's block is one of the pool that is in use, no other client
-- has it, and a block in use has a client.
pub record IsOwned (lock : Bool) (in_use : ℕ → Bool) (buffers : ℕ → Option ℕ) : Type 0 where
  pub free : lock ≡ false
  pub used : (c i : ℕ) → buffers c ≡ some i → (i ≡ 0) × (in_use 0 ≡ true)
  pub alone : (c d i : ℕ) → buffers c ≡ some i → buffers d ≡ some i → c ≡ d
  pub held : in_use 0 ≡ true → (c : ℕ) × (buffers c ≡ some 0)

abbrev pub Owned : Pool → Type 0
Owned p = IsOwned p.lock p.in_use p.buffers

-- A call returns, or it writes behind the block.
unfoldable pub Keeps : (Pool → Type 0) → Answer → Type 0
Keeps k Answer.waiting = ⊥
Keeps k Answer.fault = Unit {0}
Keeps k (Answer.returned o p) = k p

module _ (p : Pool) (h : Owned p) (idx : ℕ) where
  nobody : p.in_use 0 ≡ false → (c i : ℕ) → p.buffers c ≢ some i
  nobody idle c i e = true≢false (sym (h.used c i e).1 ∙ idle)

  take-IsOwned :
      p.in_use 0 ≡ false → IsOwned false (set_at p.in_use 0 true) (set_at p.buffers idx (some 0))
  take-IsOwned idle = record {
    free = refl;
    used = λ c i e. elim (Bool-cases (c == idx)) [
      | inl same ↦ (sym (some-injective 0 i (rw same at e)), refl)
      | inr other ↦ absurd (nobody idle c i (rw other at e))
    ];
    alone = λ c d i e e'. elim (Bool-cases (c == idx)) [
      | inl same ↦ elim (Bool-cases (d == idx)) [
        | inl same' ↦ (==_iff c idx).0 same ∙ sym ((==_iff d idx).0 same')
        | inr other' ↦ absurd (nobody idle d i (rw other' at e'))
      ]
      | inr other ↦ absurd (nobody idle c i (rw other at e))
    ];
    held = λ e. (idx, set_at_self p.buffers idx (some 0));
  }

  read_file-Keeps : (o : Option (List ℕ)) (q : Pool) → Owned q → Keeps Owned (read_file idx 0 o q)
  unfolding Keeps
  read_file-Keeps none q k = k
  read_file-Keeps (some bs) q k =
      elim (Bool-cases (ltb bigdata_size (length (take (q.clients idx).big_data_read_size bs)))) [
        | inl long ↦ rw long _
        | inr fits ↦ rw fits k
      ]

  pub get_big_data-Keeps : (disk : Disk) → Keeps Owned (get_big_data idx disk p)
  unfolding get_big_data get_big_data_buffer_idx find_unused Keeps
  get_big_data-Keeps disk = elim (Bool-cases (p.clients idx).big_data_ready) [
    | inr idle ↦ rw idle h
    | inl ready ↦ elim (Bool-cases (p.in_use 0)) [
      | inl taken ↦
          rw (ready, h.free, taken)
            (record { free = refl; used = h.used; alone = h.alone; held = h.held })
      | inr unused ↦
          rw (ready, h.free, unused)
            (read_file-Keeps (disk.content (FilePath.big_data_temp idx)) _ (take-IsOwned unused))
    ]
  ]

  -- Nobody has the block behind the client that gives it back.
  no_owner : (i c j : ℕ) → p.buffers idx ≡ some i → set_at p.buffers idx none c ≢ some j
  no_owner i c j mine e = elim (Bool-cases (c == idx)) [
    | inl same ↦ absurd (none-ne-some j (rw same at e))
    | inr other ↦
        let e' : p.buffers c ≡ some j = rw other at e in
        let equal : j ≡ i = (h.used c j e').0 ∙ sym (h.used idx i mine).0 in
        absurd
          (true≢false (sym ((==_iff c idx).1 (h.alone c idx i (e' ∙ ap some equal) mine)) ∙ other))
  ]

  release-IsOwned :
      (i : ℕ)
      → p.buffers idx ≡ some i
      → IsOwned p.lock (set_at p.in_use 0 false) (set_at (set_at p.buffers idx none) idx none)
  release-IsOwned i mine = record {
    free = h.free;
    used = λ c j e. absurd (nobody_left c j e);
    alone = λ c d j e e'. absurd (nobody_left c j e);
    held = λ e. absurd (true≢false (sym e));
  }
    where
      nobody_left : (c j : ℕ) → set_at (set_at p.buffers idx none) idx none c ≢ some j
      nobody_left c j e = elim (Bool-cases (c == idx)) [
        | inl same ↦ none-ne-some j (rw same at e)
        | inr other ↦ no_owner i c j mine (rw other (rw other at e))
      ]

  none-IsOwned : p.buffers idx ≡ none → IsOwned p.lock p.in_use (set_at p.buffers idx none)
  none-IsOwned e = record {
    free = h.free;
    used = λ c i e'. h.used c i (before c i e');
    alone = λ c d i e' e''. h.alone c d i (before c i e') (before d i e'');
    held = λ u.
        let (c, mine) = h.held u in
        elim (Bool-cases (c == idx)) [
          | inl same ↦
              absurd (none-ne-some 0 (sym e ∙ ap p.buffers (sym ((==_iff c idx).0 same)) ∙ mine))
          | inr other ↦ (c, rw other mine)
        ];
  }
    where
      before : (c i : ℕ) → set_at p.buffers idx none c ≡ some i → p.buffers c ≡ some i
      before c i e' = elim (Bool-cases (c == idx)) [
        | inl same ↦ absurd (none-ne-some i (rw same at e'))
        | inr other ↦ rw other at e'
      ]

  pub free_big_data-Owned : Owned (free_big_data idx p)
  unfolding free_big_data free_loop free_big_data_buffer
  free_big_data-Owned = cases (p.buffers idx) refl
    where
      cases :
          (o : Option ℕ)
          → p.buffers idx ≡ o
          → IsOwned
              (free_block idx o p).lock
              (free_block idx o p).in_use
              (set_at (free_block idx o p).buffers idx none)
      cases none e = none-IsOwned e
      cases (some b) e =
          let zero_block : 0 ≡ b = sym (h.used idx b e).0 in
          subst
            (λ k.
              IsOwned (free_block idx (some k) p).lock (free_block idx (some k) p).in_use
                (set_at (free_block idx (some k) p).buffers idx none))
            zero_block (rw (h.used idx b e).1 (release-IsOwned b e))
