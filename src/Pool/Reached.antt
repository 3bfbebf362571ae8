-- ===== src/Pool/Reached.antt =====
-- What the clients reach: a block has one owner.
use mathlib.Core.Path.{subst}
use mathlib.Core.Bool.{true≢false}
use mathlib.Core.Option.{none-ne-some}
use star_server.Prelude.{
  ℕ, ◌≡◌, refl, sym, ap, ◌∙◌, inl, inr, true, false, Bool-cases, Option, none, some, set_at,
}
use star_server.Slots.{set_up_client}
use star_server.Transfer.Files.{Disk}
use star_server.Pool.{
  Pool, Answer, find_unused, get_big_data_buffer_idx, free_big_data_buffer, get_big_data, free_loop,
  free_big_data,
}
use star_server.Pool.Owned.{Owned, Keeps, get_big_data-Keeps, free_big_data-Owned}

-- What changes the pool: `AcceptConnection`, the end of a message of big data, and the two calls.
pub data Step (p : Pool) : Pool → Type 0 where
  accepts :
      (i : ℕ) → Step p (record p { clients = set_at p.clients i (set_up_client i (p.clients i)) })
  receives :
      (i size : ℕ)
      → Step p (record p {
        clients =
            set_at p.clients i
              (record (p.clients i) { big_data_ready = true; big_data_read_size = size });
      })
  gets :
      (i : ℕ) (disk : Disk) (o : Option ℕ) (q : Pool)
      → get_big_data i disk p ≡ Answer.returned o q
      → Step p q
  frees : (i : ℕ) → Step p (free_big_data i p)

pub data Reaches (p : Pool) : Pool → Type 0 where
  begins : Reaches p p
  goes_on : (q r : Pool) → Reaches p q → Step q r → Reaches p r

-- The pool that `initBigDataMemory` leaves, and no client has a block.
pub record IsStart (p : Pool) : Type 0 where
  pub free : p.lock ≡ false
  pub unused : (i : ℕ) → p.in_use i ≡ false
  pub nothing : (c : ℕ) → p.buffers c ≡ none

start-Owned : (p : Pool) → IsStart p → Owned p
start-Owned p h = record {
  free = h.free;
  used = λ c i e. absurd (none-ne-some i (sym (h.nothing c) ∙ e));
  alone = λ c d i e e'. absurd (none-ne-some i (sym (h.nothing c) ∙ e));
  held = λ u. absurd (true≢false (sym u ∙ h.unused 0));
}

Keeps-returned :
    (k : Pool → Type 0) (a : Answer) (o : Option ℕ) (q : Pool)
    → Keeps k a
    → a ≡ Answer.returned o q
    → k q
unfolding Keeps
Keeps-returned k a o q h e = subst (Keeps k) e h

Reaches-Owned : (p q : Pool) → Owned p → Reaches p q → Owned q
Reaches-Owned p q h Reaches.begins = h
Reaches-Owned p q h (Reaches.goes_on r _ reached step) = go r q (Reaches-Owned p r h reached) step
  where
    go : (a b : Pool) → Owned a → Step a b → Owned b
    go a _ k (Step.accepts i) = k
    go a _ k (Step.receives i size) = k
    go a b k (Step.gets i disk o _ e) = Keeps-returned Owned _ o b (get_big_data-Keeps a k i disk) e
    go a _ k (Step.frees i) = free_big_data-Owned a k i

-- Whatever the clients have called since the start, one call after the other: no two clients have the same
-- block, and as long as a client has one, `STSV_GetBigData` returns NULL for every client, itself
-- included, and leaves the pool as it is. When the client calls `STSV_FreeBigData`, the block is free.
pub Reaches-one_owner :
    (p q : Pool) (c d i : ℕ) (disk : Disk)
    → IsStart p
    → Reaches p q
    → q.buffers c ≡ some i
    → (q.in_use 0 ≡ true)
      × ((e : ℕ) → q.buffers e ≡ some i → c ≡ e)
      × (get_big_data d disk q ≡ Answer.returned none q)
      × ((free_big_data c q).in_use 0 ≡ false)
unfolding get_big_data get_big_data_buffer_idx find_unused free_big_data free_loop
    free_big_data_buffer
Reaches-one_owner p q c d i disk start reached mine =
    let h = Reaches-Owned p q (start-Owned p start) reached in
    let taken = (h.used c i mine).1 in
    (
      taken,
      (λ e e'. h.alone c e i mine e'),
      elim (Bool-cases (q.clients d).big_data_ready) [
        | inl ready ↦ rw (ready, h.free, taken) refl
        | inr idle ↦ rw idle refl
      ],
      rw (mine ∙ ap some (h.used c i mine).0, taken) refl,
    )
