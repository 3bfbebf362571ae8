-- ===== src/Rooms/Kept.antt =====
-- Joining and leaving a room: no access is out of the arrays, and the lobby stays as it should be.
use star_server.Prelude.{
  ℕ, ◌<◌, ◌≡◌, refl, inl, inr, true, false, Bool-cases, ltb, ◌==◌, ℤ, pos, negsuc, arith, ltb-true,
}
use star_server.Rooms.{
  Lobby, continue_with, max_player_per_room, change, lock, cleared, members, clear_room, add_member,
  join_found, join_room, enter, owner_of, room_owner, get_num_player, return, ◌>>◌,
}
use star_server.Rooms.Leaving.{
  Search, find_member, on_search, search_room, destroy_of, destroy_client_room, exit_of, exit_room,
  remove_member,
}
use star_server.Rooms.Bounds.{
  kept_done, IsLobby, Keeps, continue-Keeps, change-IsLobby, change_count, add-IsLobby,
  place-IsLobby, lock-Keeps, few, room_at-pos, ltb_lem,
}
use star_server.Rooms.Searching.{find_member-inside, find_member-found}

-- A lobby with a room of the table that has a place left, or a member.
record HasPlace (size r : ℕ) (s : Lobby) : Type 0 where
  lobby : IsLobby size s
  inside : r < size
  place : (s.rooms r).num_client < max_player_per_room

record HasMember (size r : ℕ) (s : Lobby) : Type 0 where
  lobby : IsLobby size s
  member : 0 < (s.rooms r).num_client

module _ (size r : ℕ) (s : Lobby) where
  lock-HasPlace : HasPlace size r s → Keeps (HasPlace size r) (lock r s)
  unfolding lock Keeps
  lock-HasPlace h = elim (Bool-cases (s.rooms r).locked) [
    | inl locked ↦ rw locked h
    | inr free ↦ rw free (record {
      lobby = change_count size s h.lobby r (λ k. record k { locked = true }) refl;
      inside = h.inside;
      place = ground (arith, h.place);
    })
  ]

  lock-HasMember : HasMember size r s → Keeps (HasMember size r) (lock r s)
  unfolding lock Keeps
  lock-HasMember h = elim (Bool-cases (s.rooms r).locked) [
    | inl locked ↦ rw locked h
    | inr free ↦ rw free (record {
      lobby = change_count size s h.lobby r (λ k. record k { locked = true }) refl;
      member = ground (arith, h.member);
    })
  ]

  enter-Keeps : (c : ℕ) → HasPlace size r s → Keeps (IsLobby size) (enter c r s)
  unfolding Keeps
  enter-Keeps c h = rw (ltb-true (s.rooms r).num_client max_player_per_room h.place) (
      place-IsLobby size (change r (add_member c) s) (add-IsLobby size s h.lobby c r h.place) c r
        h.inside)

  remove-IsLobby : (i : ℕ) → HasMember size r s → IsLobby size (change r (remove_member i) s)
  remove-IsLobby i h =
      change-IsLobby size s h.lobby r (remove_member i) (omega (arith, h.member, h.lobby.bounded r))

module _ (size : ℕ) (s : Lobby) (h : IsLobby size s) where
  pub get_num_player-Keeps : (r : ℕ) → r < size → Keeps (IsLobby size) (get_num_player (pos r) s)
  unfolding get_num_player
  get_num_player-Keeps r l = rw (room_at-pos size s h r l) (kept_done (IsLobby size) _ s h)

module _ (size : ℕ) (s : Lobby) (h : IsLobby size s) where
  join_found-Keeps : (c r : ℕ) → r < size → Keeps (IsLobby size) (join_found c r s)
  unfolding join_found Keeps
  join_found-Keeps c r l = elim (Bool-cases ((s.rooms r).num_client == 0)) [
    | inl empty ↦ rw empty h
    | inr taken ↦ elim (Bool-cases (ltb (members (s.rooms r)) max_player_per_room)) [
      | inl open_room ↦
          rw (taken, open_room) (entered (omega (arith, ltb_lem _ _ open_room, few size s h r)))
      | inr full ↦ rw (taken, full) h
    ]
  ]
    where
      entered :
          (s.rooms r).num_client < max_player_per_room
          → Keeps (IsLobby size) ((lock r >> enter c r >> lock r >> return true) s)
      entered place =
          continue-Keeps (IsLobby size) (IsLobby size) _ _
            (continue-Keeps (IsLobby size) (IsLobby size) _ _
              (continue-Keeps (HasPlace size r) (IsLobby size) _ _
                (lock-HasPlace size r s (record { lobby = h; inside = l; place = place }))
                (λ t k. k.lobby) (λ _ t k. enter-Keeps size r t c k))
              (λ t k. k) (λ _ t k. lock-Keeps size t k r))
            (λ t k. k) (λ _ t k. k)

  pub join_room-Keeps : (c r : ℕ) → r < size → Keeps (IsLobby size) (join_room c (pos r) s)
  unfolding join_room
  join_room-Keeps c r l = rw (room_at-pos size s h r l) (join_found-Keeps c r l)

  search_room-Keeps : (c r : ℕ) → Keeps (IsLobby size) (search_room c r s)
  unfolding Keeps
  search_room-Keeps c r = cases (find_member c (members (s.rooms r)) 0 (s.rooms r).join_room) refl
    where
      cases :
          (o : Search)
          → find_member c (members (s.rooms r)) 0 (s.rooms r).join_room ≡ o
          → Keeps (IsLobby size) (on_search r o s)
      cases Search.absent e = h
      cases (Search.found i) e =
          let (there, lo, hi) =
            find_member-found c (members (s.rooms r)) 0 (s.rooms r).join_room i e in
          continue-Keeps (IsLobby size) (IsLobby size) _ _
            (continue-Keeps (IsLobby size) (IsLobby size) _ _
              (continue-Keeps (HasMember size r) (IsLobby size) _ _
                (lock-HasMember size r s
                  (record { lobby = h; member = omega (arith, hi, few size s h r) }))
                (λ t k. k.lobby) (λ _ t k. remove-IsLobby size r t i k))
              (λ t k. k) (λ _ t k. change_count size t k r (λ m. record m { locked = false }) refl))
            (λ t k. k) (λ _ t k. k)
      cases Search.outside e = absurd (
          find_member-inside c (members (s.rooms r)) 0 (s.rooms r).join_room
            (omega (arith, few size s h r, h.bounded r)) e)

  pub destroy_client_room-Keeps : (c : ℕ) → Keeps (IsLobby size) (destroy_client_room c s)
  unfolding destroy_client_room
  destroy_client_room-Keeps c = cases (s.clients c).room_idx refl
    where
      cases :
          (room : ℤ) → (s.clients c).room_idx ≡ room → Keeps (IsLobby size) (destroy_of c room s)
      cases (pos r) e = rw (room_at-pos size s h r (h.placed c r e)) (search_room-Keeps c r)
      cases (negsuc n) e = kept_done (IsLobby size) _ s h

  pub exit_room-Keeps : (c : ℕ) → Keeps (IsLobby size) (exit_room c s)
  unfolding exit_room
  exit_room-Keeps c = cases (s.clients c).room_idx refl
    where
      cases : (room : ℤ) → (s.clients c).room_idx ≡ room → Keeps (IsLobby size) (exit_of c room s)
      cases (pos r) e =
          continue-Keeps (IsLobby size) (IsLobby size) _ _ (destroy_client_room-Keeps c) (λ t k. k)
            (λ _ t k. get_num_player-Keeps size t k r (h.placed c r e))
      cases (negsuc n) e = kept_done (IsLobby size) _ s h

  pub room_owner-Keeps : (c : ℕ) → Keeps (IsLobby size) (room_owner c s)
  unfolding room_owner
  room_owner-Keeps c = cases (s.clients c).room_idx refl
    where
      cases : (room : ℤ) → (s.clients c).room_idx ≡ room → Keeps (IsLobby size) (owner_of c room s)
      cases (pos r) e =
          rw (room_at-pos size s h r (h.placed c r e)) (kept_done (IsLobby size) _ s h)
      cases (negsuc n) e = kept_done (IsLobby size) _ s h

  pub clear_room-Keeps : (r : ℕ) → r < size → Keeps (IsLobby size) (clear_room (pos r) s)
  unfolding clear_room continue_with
  clear_room-Keeps r l =
      rw (room_at-pos size s h r l)
        (kept_done (IsLobby size) _ _ (change-IsLobby size s h r (λ k. cleared) (omega arith)))
