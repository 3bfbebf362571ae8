-- ===== src/Rooms/Stranded.antt =====
-- Members that a room does not find: behind a place that a member left, and after `STSV_JoinFreeRoom`.
use mathlib.Core.Path.{subst}
use star_server.Prelude.{
  ℕ, suc, ◌+◌, ◌≤◌, ◌<◌, ◌≡◌, refl, ap, ap₂, ◌∙◌, inl, inr, false, Bool-cases, ◌==◌, set_at, pos,
  negsuc, Option, none, some, arith, ==_refl,
}
use star_server.Rooms.{
  Lobby, Result, max_player_per_room, find_open, on_open, join_free_room, change, members,
  is_client, add_member,
}
use star_server.Rooms.Leaving.{find_member, destroy_client_room, exit_room, Search}
use star_server.Rooms.Bounds.{find_open-lt}
use star_server.Rooms.Created.{left, exit_room_lem, num_client_left, no_room-done, done_room}
use star_server.Rooms.Joined.{members_lem}
use star_server.Rooms.Absent.{find_member-absent, find_member-first, exit_room_absent}

-- Two members of the room r of the table, whose mutex is free, leave with `STSV_ExitRoom`. The first is
-- found before the last place, the second at the last. The first call returns the number of members that
-- are left; the second does the same and changes nothing: that client is never taken out.
pub exit_room-stranded :
    (s : Lobby) (c d r i n : ℕ)
    → r < s.max_room
    → (s.clients c).room_idx ≡ pos r
    → (s.clients d).room_idx ≡ pos r
    → (s.rooms r).locked ≡ false
    → (s.rooms r).num_client ≡ suc n
    → suc n ≤ max_player_per_room
    → find_member c (suc n) 0 (s.rooms r).join_room ≡ Search.found i
    → i < n
    → find_member d (suc n) 0 (s.rooms r).join_room ≡ Search.found n
    → (t : Lobby) × (exit_room c s ≡ Result.done n t) × (exit_room d t ≡ Result.done n t)
exit_room-stranded s c d r i n inside ec ed free count few found_c before found_d = (
  t,
  exit_room_lem s c r inside i ec free
        (ap (λ m. find_member c m 0 (s.rooms r).join_room) all ∙ found_c)
      ∙ ap (λ m. Result.done m t) num,
  exit_room_absent t d r inside ed gone ∙ ap (λ m. Result.done m t) num,
)
  where
    t : Lobby
    t = left s c r inside i

    all : members (s.rooms r) ≡ suc n
    all = members_lem (s.rooms r) (omega (arith, count, few)) ∙ count

    num : (t.rooms r).num_client ≡ n
    num = omega (
      arith,
      num_client_left s c r inside i (omega (arith, count)) (omega (arith, count, few)),
      count,
    )

    places : (t.rooms r).join_room ≡ set_at (s.rooms r).join_room i none
    places = rw (==_refl r) refl

    empty : (k : ℕ) → k < n → is_client d (set_at (s.rooms r).join_room i none k) ≡ false
    empty k l = elim (Bool-cases (k == i)) [
      | inl here ↦ rw here refl
      | inr other ↦
          rw other (find_member-first d (suc n) 0 n k (s.rooms r).join_room found_d (omega arith) l)
    ]

    gone : find_member d (members (t.rooms r)) 0 (t.rooms r).join_room ≡ Search.absent
    gone =
        ap₂ (λ m p. find_member d m 0 p) (members_lem (t.rooms r) (omega (arith, num, few)) ∙ num)
          places
        ∙ find_member-absent d n 0 (set_at (s.rooms r).join_room i none) (omega (arith, few))
            (λ k lo hi. empty k (omega (arith, hi)))

join_free_room-add :
    (s t : Lobby) (c r : ℕ)
    → join_free_room c s ≡ Result.done (pos r) t
    → (find_open s.max_room 0 s.rooms ≡ some r) × (change r (add_member c) s ≡ t)
unfolding join_free_room
join_free_room-add s t c r e = cases (find_open s.max_room 0 s.rooms) e
  where
    cases :
        (o : Option ℕ)
        → on_open c o s ≡ Result.done (pos r) t
        → (o ≡ some r) × (change r (add_member c) s ≡ t)
    cases none e' = absurd (no_room-done e')
    cases (some k) e' = (ap some (done_room e'), cc e')

-- A client without a room for which `STSV_JoinFreeRoom` returns a room of the table: it has a member there
-- already, and the client stands behind the members; but `STSV_ExitRoom` returns 0 for it and
-- `DestroyClientRoom` -1, and both leave it in the room.
join_free_room-stranded :
    (s t : Lobby) (c r n : ℕ)
    → (s.clients c).room_idx ≡ negsuc n
    → join_free_room c s ≡ Result.done (pos r) t
    → (0 < (s.rooms r).num_client)
      × ((t.rooms r).num_client ≡ (s.rooms r).num_client + 1)
      × ((t.rooms r).join_room (s.rooms r).num_client ≡ some c)
      × (exit_room c t ≡ Result.done 0 t)
      × (destroy_client_room c t ≡ Result.done (negsuc 0) t)
unfolding exit_room destroy_client_room
join_free_room-stranded s t c r n e joined =
    let (here, same) = join_free_room-add s t c r joined in
    let (inside, positive, l) = find_open-lt s.max_room 0 s.rooms r here in
    let some_member : 0 < (s.rooms r).num_client = ground arith in
    let few : (s.rooms r).num_client < max_player_per_room = ground arith in
    let rest =
      subst
        (λ u.
          ((u.rooms r).num_client ≡ (s.rooms r).num_client + 1)
          × ((u.rooms r).join_room (s.rooms r).num_client ≡ some c)
          × (exit_room c u ≡ Result.done 0 u)
          × (destroy_client_room c u ≡ Result.done (negsuc 0) u))
        same
        (
          rw (==_refl r) (omega (arith, few)),
          rw (==_refl r, ==_refl (s.rooms r).num_client) refl,
          rw e refl,
          rw e refl,
        ) in
    (some_member, rest.0, rest.1, rest.2, rest.3)
