-- ===== src/Rooms/Joined.antt =====
-- `STSV_JoinRoom` locks the room's mutex and never gives it back.
use mathlib.Core.Bool.{true≢false}
use star_server.Prelude.{
  ℕ, zero, suc, ◌+◌, ◌≤◌, ◌<◌, ◌^◌, ◌≡◌, refl, sym, ap, ◌∙◌, inl, inr, true, false, Bool-cases,
  ◌==◌, ==_iff, set_at, pos, Option, some, if◌then◌else◌, arith, ltb-true, leb-false, ==_refl,
}
use star_server.Rooms.{
  Room, Lobby, Result, continue_with, as_s16, room_at, max_player_per_room, lock, change, members,
  enter, join_found, join_room, is_client, add_member, return, ◌>>◌,
}
use star_server.Rooms.Leaving.{on_search, find_member, destroy_client_room, exit_room, Search}
use star_server.Rooms.Bounds.{as_s16-pos}
use star_server.Rooms.Created.{lock_free}

lock_taken : (r : ℕ) (s : Lobby) → (s.rooms r).locked ≡ true → lock r s ≡ Result.waits s
unfolding lock
lock_taken r s taken =
    ap
      (λ b.
        if b then Result.waits s else Result.done tt (change r (λ k. record k { locked = true }) s))
      taken

-- A client that is in the room is found.
find_member-some :
    (c n i j : ℕ) (places : ℕ → Option ℕ)
    → places j ≡ some c
    → i ≤ j
    → j < i + n
    → i + n ≤ max_player_per_room
    → (k : ℕ) × (find_member c n i places ≡ Search.found k)
unfolding find_member
find_member-some c zero i j places e lo hi few = absurd (omega (arith, lo, hi))
find_member-some c (suc n) i j places e lo hi few = elim (Bool-cases (is_client c (places i))) [
  | inl here ↦ (i, rw (leb-false max_player_per_room i (omega (arith, few)), here) refl)
  | inr other ↦ elim (Bool-cases (j == i)) [
    | inl same ↦
        let here : is_client c (places i) ≡ true =
          ap (λ k. is_client c (places k)) (sym ((==_iff j i).0 same))
          ∙ ap (is_client c) e
          ∙ ==_refl c in
        absurd (true≢false (sym here ∙ other))
    | inr later ↦
        let (k, found) =
          find_member-some c n (i + 1) j places e (ground arith) (omega (arith, hi))
            (omega (arith, few)) in
        (k, rw (leb-false max_player_per_room i (omega (arith, few)), other) found)
  ]
]

not_empty : (n : ℕ) → 0 < n → (n == 0) ≡ false
not_empty n h = ground arith

pub members_lem : (k : Room) → k.num_client < 2 ^ 31 → members k ≡ k.num_client
members_lem k h = ground arith

-- What `STSV_JoinRoom` has written when it waits.
abbrev pub joined : ℕ → ℕ → Lobby → Lobby
joined c r s = record (change r (add_member c) (change r (λ k. record k { locked = true }) s)) {
  clients = set_at s.clients c (record (s.clients c) { room_idx = as_s16 r });
}

module _ (s : Lobby) (c r : ℕ) (inside : r < s.max_room) (free : (s.rooms r).locked ≡ false)
    (some_member : 0 < (s.rooms r).num_client)
    (place : (s.rooms r).num_client < max_player_per_room) where
  enter_lem :
      enter c r (change r (λ k. record k { locked = true }) s) ≡ Result.done tt (joined c r s)
  enter_lem = rw (==_refl r, ltb-true (s.rooms r).num_client max_player_per_room place) refl

  joined-locked : ((joined c r s).rooms r).locked ≡ true
  joined-locked = rw (==_refl r) refl

  body_waits : (lock r >> enter c r >> lock r >> return true) s ≡ Result.waits (joined c r s)
  unfolding continue_with
  body_waits = rw (lock_free r s free, enter_lem, lock_taken r (joined c r s) joined-locked) refl

  join_room_lem : join_room c (pos r) s ≡ Result.waits (joined c r s)
  unfolding join_room join_found room_at
  join_room_lem =
      rw
        (
          ltb-true r s.max_room inside,
          not_empty (s.rooms r).num_client some_member,
          members_lem (s.rooms r) (omega (arith, place)),
          ltb-true (s.rooms r).num_client max_player_per_room place,
        )
        body_waits

  joined-num : ((joined c r s).rooms r).num_client ≡ (s.rooms r).num_client + 1
  joined-num = rw (==_refl r) (omega (arith, place))

  joined-member : ((joined c r s).rooms r).join_room (s.rooms r).num_client ≡ some c
  joined-member = rw (==_refl r, ==_refl (s.rooms r).num_client) refl

-- A member of a room whose mutex is locked cannot leave it.
module _ (s : Lobby) (c r i : ℕ) (inside : r < s.max_room) (e : (s.clients c).room_idx ≡ pos r)
    (taken : (s.rooms r).locked ≡ true)
    (here : find_member c (members (s.rooms r)) 0 (s.rooms r).join_room ≡ Search.found i) where
  search_waits : on_search r (Search.found i) s ≡ Result.waits s
  unfolding continue_with
  search_waits = rw (lock_taken r s taken) refl

  destroy_client_room_waits : destroy_client_room c s ≡ Result.waits s
  unfolding destroy_client_room room_at
  destroy_client_room_waits = rw (e, ltb-true r s.max_room inside, here) search_waits

  exit_room_waits : exit_room c s ≡ Result.waits s
  unfolding exit_room continue_with
  exit_room_waits = rw (e, destroy_client_room_waits) refl

-- A client joins with `STSV_JoinRoom` a room of a table of at most 2^15, whose mutex is free and which has
-- a member and a place left: the client becomes a member, and the call never returns, since it waits for
-- the mutex that it has locked itself. From then on the client's `STSV_ExitRoom` waits for it too.
pub join_room_waits :
    (s : Lobby) (c r : ℕ)
    → s.max_room ≤ 2 ^ 15
    → r < s.max_room
    → (s.rooms r).locked ≡ false
    → 0 < (s.rooms r).num_client
    → (s.rooms r).num_client < max_player_per_room
    → (t : Lobby) × (join_room c (pos r) s ≡ Result.waits t)
      × ((t.rooms r).num_client ≡ (s.rooms r).num_client + 1)
      × ((t.rooms r).join_room (s.rooms r).num_client ≡ some c)
      × (exit_room c t ≡ Result.waits t)
join_room_waits s c r small inside free some_member place =
    let num = joined-num s c r inside free some_member place in
    let member = joined-member s c r inside free some_member place in
    let few = members_lem ((joined c r s).rooms r) (omega (arith, num, place)) in
    let (i, here) =
      find_member-some c (members ((joined c r s).rooms r)) 0 (s.rooms r).num_client
        ((joined c r s).rooms r).join_room member (omega arith) (omega (arith, few, num))
        (omega (arith, few, num, place)) in
    (
      joined c r s,
      join_room_lem s c r inside free some_member place,
      num,
      member,
      exit_room_waits (joined c r s) c r i inside
          (rw (==_refl c) (as_s16-pos r (omega (arith, inside, small))))
          (joined-locked s c r inside free some_member place) here,
    )
