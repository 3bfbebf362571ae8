-- ===== src/Rooms/Searching.antt =====
-- Where `DestroyClientRoom` finds a client.
use star_server.Prelude.{
  ℕ, zero, suc, ◌+◌, ◌≤◌, ◌<◌, ◌≡◌, ◌∙◌, sym, ap, ◌≢◌, inl, inr, true, Bool-cases, Option, none,
  some, leb, ==_iff, arith, leb-false,
}
use mathlib.Core.Bool.{true≢false}
use star_server.Rooms.{max_player_per_room, is_client}
use star_server.Rooms.Leaving.{Search, find_member}

absent-outside : Search.absent ≢ Search.outside
absent-outside e = cc e

pub found-outside : (i : ℕ) → Search.found i ≢ Search.outside
found-outside i e = cc e

pub absent-found : (i : ℕ) → Search.absent ≢ Search.found i
absent-found i e = cc e

pub found-injective : {i j : ℕ} → Search.found i ≡ Search.found j → i ≡ j
found-injective e = cc e

is_client_lem : (c : ℕ) (o : Option ℕ) → is_client c o ≡ true → o ≡ some c
is_client_lem c none e = absurd (true≢false (sym e))
is_client_lem c (some d) e = ap some ((==_iff d c).0 e)

pub find_member-inside :
    (c n i : ℕ) (places : ℕ → Option ℕ)
    → i + n ≤ max_player_per_room
    → find_member c n i places ≢ Search.outside
unfolding find_member
find_member-inside c zero i places h e = absurd (absent-outside e)
find_member-inside c (suc n) i places h e = elim (Bool-cases (is_client c (places i))) [
  | inl here ↦
      absurd (found-outside i (rw (leb-false max_player_per_room i (omega arith), here) at e))
  | inr other ↦
      find_member-inside c n (i + 1) places (omega arith)
        (rw (leb-false max_player_per_room i (omega arith), other) at e)
]

-- Where the search finds the client.
pub find_member-found :
    (c n i : ℕ) (places : ℕ → Option ℕ) (j : ℕ)
    → find_member c n i places ≡ Search.found j
    → (places j ≡ some c) × (i ≤ j) × (j < i + n)
unfolding find_member
find_member-found c zero i places j e = absurd (absent-found j e)
find_member-found c (suc n) i places j e = elim (Bool-cases (leb max_player_per_room i)) [
  | inl past ↦ absurd (found-outside j (sym (rw past at e)))
  | inr inside ↦ elim (Bool-cases (is_client c (places i))) [
    | inl here ↦
        let same : i ≡ j = found-injective (rw (inside, here) at e) in
        (
          ap places (sym same) ∙ is_client_lem c (places i) here,
          omega (arith, same),
          omega (arith, same),
        )
    | inr other ↦
        let (at_place, lo, hi) = find_member-found c n (i + 1) places j (rw (inside, other) at e) in
        (at_place, omega (arith, lo), omega (arith, hi))
  ]
]
