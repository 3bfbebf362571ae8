-- ===== src/Startup/Growth.antt =====
-- How much memory a step of a start takes, and how much is added to the sum.
use native.Mathlib.Nat.{mod-lt, mod-mod, one-le-pow}
use star_server.Prelude.{
  if◌then◌else◌, ℕ, zero, suc, ◌+◌, ◌*◌, ◌%◌, ◌^◌, ◌≡◌, refl, ap, Bool, ◌&&◌, arith,
}
use star_server.Client.{Client}
use star_server.Database.{Db}
use star_server.Startup.Memory.{malloc}
use star_server.Startup.State.{State, Result, M, continue_with, require, allocate, count}
use star_server.Startup.Init.{allocate_each, allocate_buffers}
use star_server.Startup.Steps.{Ensures, require-Ensures}
use star_server.Startup.Grown.{
  AllGranted, Grown, Grows, Grown-trans, Grown-refl, as-Grown, AllGranted-Grown,
}

module _ (w : ℕ) where
  onto-Grows :
      {B : Type 0} (x y x' y' : ℕ) (s s' : State) (r : Result B)
      → Grown w x y s s'
      → Grows w x' y' s' r
      → Grows w (x + x') (y + y') s r
  unfolding Ensures
  onto-Grows x y x' y' s s' (Result.done b s'') h g = Grown-trans w x y x' y' s s' s'' h g
  onto-Grows x y x' y' s s' (Result.failed s'') h g = _
  onto-Grows x y x' y' s s' Result.undefined h g = _

  -- A step and what goes on from it: both take memory.
  continue-Grows :
      {A B : Type 0} (x y x' y' : ℕ) (s : State) (f : A → M B) (r : Result A)
      → Grows w x y s r
      → ((a : A) (s' : State) → Grown w x y s s' → Grows w x' y' s' (f a s'))
      → Grows w (x + x') (y + y') s (continue_with f r)
  unfolding Ensures continue_with
  continue-Grows x y x' y' s f (Result.done a s') h k =
      onto-Grows x y x' y' s s' (f a s') h (k a s' h)
  continue-Grows x y x' y' s f (Result.failed s') h k = _
  continue-Grows x y x' y' s f Result.undefined h k = _

  pub as-Grows :
      {A : Type 0} (x y x' y' : ℕ) (s : State) (r : Result A)
      → x ≡ x'
      → y ≡ y'
      → Grows w x y s r
      → Grows w x' y' s r
  unfolding Ensures
  as-Grows x y x' y' s (Result.done a s') p q h = as-Grown w x y x' y' s s' p q h
  as-Grows x y x' y' s (Result.failed s') p q h = _
  as-Grows x y x' y' s Result.undefined p q h = _

  pub require-Grows : (b : Bool) (s : State) → Grows w 0 0 s (require b s)
  require-Grows b s = require-Ensures (λ _ s'. Grown w 0 0 s s') b s (λ _. Grown-refl w s)

  allocate-Grows : (size : ℕ) (s : State) → AllGranted s → Grows w size 0 s (allocate size s)
  unfolding allocate malloc Ensures
  allocate-Grows size s all = record {
    allocated = ap (λ b. s.heap.allocated + (if b then size else 0)) (all s.heap.calls);
    sum = ap (λ t. t % 2 ^ w) {x = s.sum} (omega arith);
    bounded = λ l. l;
    grants = refl;
    settings = refl;
    mem_use = refl;
    stack = refl;
  }

  pub count-Grows : (n : ℕ) (s : State) → Grows w 0 n s (count w n s)
  unfolding count Ensures
  count-Grows n s = record {
    allocated = omega arith;
    sum = mod-mod (s.sum + n) (2 ^ w);
    bounded = λ l. mod-lt (s.sum + n) (one-le-pow w 2 (omega arith));
    grants = refl;
    settings = refl;
    mem_use = refl;
    stack = refl;
  }

  pub then-Grows :
      {A B : Type 0} (x y x' y' : ℕ) (s : State) (f : A → M B) (r : Result A)
      → AllGranted s
      → Grows w x y s r
      → ((a : A) (s' : State) → AllGranted s' → Grows w x' y' s' (f a s'))
      → Grows w (x + x') (y + y') s (continue_with f r)
  then-Grows x y x' y' s f r all h k =
      continue-Grows x y x' y' s f r h (λ a s' g. k a s' (AllGranted-Grown w x y s s' g all))

  -- A step that counts nothing.
  pub taking_then :
      {A B : Type 0} (size x y : ℕ) (s : State) (f : A → M B) (r : Result A)
      → AllGranted s
      → Grows w size 0 s r
      → ((a : A) (s' : State) → AllGranted s' → Grows w x y s' (f a s'))
      → Grows w (size + x) y s (continue_with f r)
  taking_then size x y s f r all h k =
      as-Grows (size + x) (0 + y) (size + x) y s _ refl (omega arith)
        (then-Grows size 0 x y s f r all h k)

  -- A step that takes nothing and counts nothing.
  pub skip_then :
      {A B : Type 0} (x y : ℕ) (s : State) (f : A → M B) (r : Result A)
      → AllGranted s
      → Grows w 0 0 s r
      → ((a : A) (s' : State) → AllGranted s' → Grows w x y s' (f a s'))
      → Grows w x y s (continue_with f r)
  skip_then x y s f r all h k =
      as-Grows (0 + x) y x y s _ (omega arith) refl (taking_then 0 x y s f r all h k)

  pub allocate_then :
      {B : Type 0} (size x y : ℕ) (s : State) (f : Bool → M B)
      → AllGranted s
      → ((b : Bool) (s' : State) → AllGranted s' → Grows w x y s' (f b s'))
      → Grows w (size + x) y s (continue_with f (allocate size s))
  allocate_then size x y s f all k =
      taking_then size x y s f (allocate size s) all (allocate-Grows size s all) k

  pub require_then :
      {B : Type 0} (b : Bool) (x y : ℕ) (s : State) (f : Unit {0} → M B)
      → AllGranted s
      → ((s' : State) → AllGranted s' → Grows w x y s' (f tt s'))
      → Grows w x y s (continue_with f (require b s))
  require_then b x y s f all k =
      skip_then x y s f (require b s) all (require-Grows b s) (λ _ s'. k s')

  pub count_then :
      {B : Type 0} (n x y : ℕ) (s : State) (f : Unit {0} → M B)
      → AllGranted s
      → ((s' : State) → AllGranted s' → Grows w x y s' (f tt s'))
      → Grows w x (n + y) s (continue_with f (count w n s))
  count_then n x y s f all k =
      as-Grows (0 + x) (n + y) x (n + y) s _ (omega arith) refl
        (then-Grows 0 n x y s f (count w n s) all (count-Grows n s) (λ _ s'. k s'))

  pub return-Grows : {A : Type 0} (a : A) (s : State) → Grows w 0 0 s (Result.done a s)
  unfolding Ensures
  return-Grows a s = Grown-refl w s

  pub allocate_each-Grows :
      (n size : ℕ) (s : State) → AllGranted s → Grows w (n * size) 0 s (allocate_each n size s)
  unfolding allocate_each
  allocate_each-Grows zero size s all =
      as-Grows 0 0 (0 * size) 0 s _ (omega arith) refl (return-Grows tt s)
  allocate_each-Grows (suc n) size s all =
      as-Grows (size + n * size) 0 (suc n * size) 0 s _ (omega arith) refl (
        allocate_then size (n * size) 0 s _ all (λ given s1 all1.
          require_then given (n * size) 0 s1 _ all1
            (λ s2 all2. allocate_each-Grows n size s2 all2)))

  pub allocate_buffers-Grows :
      (n size : ℕ) (s : State)
      → AllGranted s
      → Grows w (n * (size * 2)) 0 s (allocate_buffers n size s)
  unfolding allocate_buffers
  allocate_buffers-Grows zero size s all =
      as-Grows 0 0 (0 * (size * 2)) 0 s _ (omega arith) refl (return-Grows tt s)
  allocate_buffers-Grows (suc n) size s all =
      as-Grows (size + (size + n * (size * 2))) 0 (suc n * (size * 2)) 0 s _ (omega arith) refl (
        allocate_then size _ 0 s _ all (λ send s1 all1.
          allocate_then size _ 0 s1 _ all1 (λ recv s2 all2.
            require_then (send && recv) _ 0 s2 _ all2
              (λ s3 all3. allocate_buffers-Grows n size s3 all3))))

  pub done_then :
      {A B : Type 0} (a : A) (x y : ℕ) (s : State) (f : A → M B)
      → Grows w x y s (f a s)
      → Grows w x y s (continue_with f (Result.done a s))
  unfolding continue_with
  done_then a x y s f h = h

  -- The clients are set, which takes no memory.
  pub clients-Grows :
      (c : ℕ → Client) (s : State) → Grows w 0 0 s (Result.done tt (record s { clients = c }))
  unfolding Ensures
  clients-Grows c s = record {
    allocated = omega arith;
    sum = ap (λ t. t % 2 ^ w) {x = s.sum} (omega arith);
    bounded = λ l. l;
    grants = refl;
    settings = refl;
    mem_use = refl;
    stack = refl;
  }

  pub db-Grows :
      (d : Db (Unit {0})) (s : State) → Grows w 0 0 s (Result.done tt (record s { db = d }))
  unfolding Ensures
  db-Grows d s = record {
    allocated = omega arith;
    sum = ap (λ t. t % 2 ^ w) {x = s.sum} (omega arith);
    bounded = λ l. l;
    grants = refl;
    settings = refl;
    mem_use = refl;
    stack = refl;
  }
