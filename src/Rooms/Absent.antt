-- ===== src/Rooms/Absent.antt =====
-- A client that `DestroyClientRoom` does not find.
use star_server.Prelude.{
  ℕ, zero, suc, ◌+◌, ◌≤◌, ◌<◌, ◌≡◌, refl, sym, ap, ◌∙◌, inl, inr, false, Bool-cases, ◌==◌, ==_iff,
  pos, negsuc, Option, leb, arith, ltb-true, leb-false,
}
use star_server.Rooms.{
  Lobby, Result, continue_with, room_at, max_player_per_room, members, is_client,
}
use star_server.Rooms.Leaving.{find_member, destroy_client_room, exit_room, Search}
use star_server.Rooms.Searching.{absent-found, found-injective, found-outside}
use star_server.Rooms.Created.{get_num_player_lem}

-- A client at none of the places is not found.
pub find_member-absent :
    (c n i : ℕ) (places : ℕ → Option ℕ)
    → i + n ≤ max_player_per_room
    → ((k : ℕ) → i ≤ k → k < i + n → is_client c (places k) ≡ false)
    → find_member c n i places ≡ Search.absent
unfolding find_member
find_member-absent c zero i places few h = refl
find_member-absent c (suc n) i places few h =
    rw (leb-false max_player_per_room i (omega (arith, few)), h i (omega arith) (omega arith))
      (find_member-absent c n (i + 1) places (omega (arith, few))
        (λ k lo hi. h k (omega (arith, lo)) (omega (arith, hi))))

-- The place that is found is the first.
pub find_member-first :
    (c n i j k : ℕ) (places : ℕ → Option ℕ)
    → find_member c n i places ≡ Search.found j
    → i ≤ k
    → k < j
    → is_client c (places k) ≡ false
unfolding find_member
find_member-first c zero i j k places e lo hi = absurd (absent-found j e)
find_member-first c (suc n) i j k places e lo hi = elim (Bool-cases (leb max_player_per_room i)) [
  | inl past ↦ absurd (found-outside j (sym (rw past at e)))
  | inr inside ↦ elim (Bool-cases (is_client c (places i))) [
    | inl here ↦
        let same : i ≡ j = found-injective (rw (inside, here) at e) in
        absurd (omega (arith, same, lo, hi))
    | inr other ↦ elim (Bool-cases (k == i)) [
      | inl same ↦ ap (λ m. is_client c (places m)) ((==_iff k i).0 same) ∙ other
      | inr later ↦
          find_member-first c n (i + 1) j k places (rw (inside, other) at e) (ground arith) hi
    ]
  ]
]

-- A client that is not found gets the number of members, and stays where it is.
module _ (s : Lobby) (c r : ℕ) (inside : r < s.max_room) (e : (s.clients c).room_idx ≡ pos r) where
  pub destroy_client_room_absent :
      find_member c (members (s.rooms r)) 0 (s.rooms r).join_room ≡ Search.absent
      → destroy_client_room c s ≡ Result.done (negsuc 0) s
  unfolding destroy_client_room room_at
  destroy_client_room_absent gone = rw (e, ltb-true r s.max_room inside, gone) refl

  pub exit_room_absent :
      find_member c (members (s.rooms r)) 0 (s.rooms r).join_room ≡ Search.absent
      → exit_room c s ≡ Result.done (s.rooms r).num_client s
  unfolding exit_room continue_with
  exit_room_absent gone = rw (e, destroy_client_room_absent gone) (get_num_player_lem s r inside)
