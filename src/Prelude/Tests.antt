-- ===== src/Prelude/Tests.antt =====
-- Boolean tests on the native numbers, and the conditional.
use Prim.Native.Nat.{ℕ, ◌≤◌, ◌<◌, compare, Ordering}
use mathlib.Core.Path.{◌≡◌, refl, sym, ◌∙◌}
use mathlib.Core.Logic.{◌↔◌, ◌⊎◌, ◌≢◌, inl, inr}
use mathlib.Core.Bool.{Bool, true, false, true≢false}
use mathlib.Core.Option.{Option, none, some}
use native.Mathlib.Omega.{arith}

-- These compute to `compare`, which `ground` and `grind` read with no lemma listed.
abbrev pub ltb : ℕ → ℕ → Bool
ltb a b = elim (compare a b) [ Ordering.lt ↦ true | _ ↦ false ]

abbrev pub leb : ℕ → ℕ → Bool
leb a b = elim (compare a b) [ Ordering.gt ↦ false | _ ↦ true ]

infix 50 ◌==◌
abbrev pub ◌==◌ : ℕ → ℕ → Bool
a == b = elim (compare a b) [ Ordering.eq ↦ true | _ ↦ false ]

infix 1 if◌then◌else◌
abbrev pub if◌then◌else◌ {ℓ} : {A : Type ℓ} → Bool → A → A → A
if true then x else y = x
if false then x else y = y

-- `omega` reads a test through such lemmas.
pub ltb→lt : (a b : ℕ) → ltb a b ≡ true → a < b
ltb→lt a b h = ground arith

pub lt→ltb : (a b : ℕ) → a < b → ltb a b ≡ true
lt→ltb a b h = ground arith

pub leb→le : (a b : ℕ) → leb a b ≡ true → a ≤ b
leb→le a b h = ground arith

pub ==_iff : (a b : ℕ) → ((a == b) ≡ true) ↔ (a ≡ b)
==_iff a b = ground arith

-- To split on a computed value and keep the equation.
pub Bool-cases : (b : Bool) → (b ≡ true) ⊎ (b ≡ false)
Bool-cases true = inl refl
Bool-cases false = inr refl

pub clash : (b : Bool) → b ≡ true → b ≡ false → ⊥
clash b p q = true≢false (sym p ∙ q)

pub Option-cases {ℓ} : {A : Type ℓ} (o : Option A) → (o ≡ none) ⊎ ((a : A) × (o ≡ some a))
Option-cases none = inl refl
Option-cases (some a) = inr (a, refl)

-- What holds of both branches of a test.
pub if_both {ℓ ℓ'} :
    {A : Type ℓ} (p : A → Type ℓ') (b : Bool) (x y : A) → p x → p y → p (if b then x else y)
if_both p true x y h k = h
if_both p false x y h k = k

-- What holds of the value of an option, where it has one.
unfoldable pub OnSome {ℓ} : {A : Type ℓ} → (A → Type 0) → Option A → Type 0
OnSome p none = Unit {0}
OnSome p (some a) = p a

pub OnSome-none {ℓ} : {A : Type ℓ} (p : A → Type 0) → OnSome p none
unfolding OnSome
OnSome-none p = _

pub OnSome-some {ℓ} : {A : Type ℓ} (p : A → Type 0) (a : A) → p a → OnSome p (some a)
unfolding OnSome
OnSome-some p a h = h

pub OnSome-intro {ℓ} :
    {A : Type ℓ} (p : A → Type 0) (o : Option A) → ((a : A) → o ≡ some a → p a) → OnSome p o
unfolding OnSome
OnSome-intro p none f = _
OnSome-intro p (some a) f = f a refl

pub OnSome-map {ℓ} :
    {A : Type ℓ} (p q : A → Type 0) (o : Option A) → ((a : A) → p a → q a) → OnSome p o → OnSome q o
unfolding OnSome
OnSome-map p q none f h = _
OnSome-map p q (some a) f h = f a h

-- Tests whose answer is known.
pub ltb-true : (a b : ℕ) → a < b → ltb a b ≡ true
ltb-true a b h = ground arith

pub leb-false : (a b : ℕ) → b < a → leb a b ≡ false
leb-false a b h = ground arith

pub ==_refl : (a : ℕ) → (a == a) ≡ true
==_refl a = ground arith

pub ==-false : (a b : ℕ) → a ≢ b → (a == b) ≡ false
==-false a b ne = ground (arith, ne)
