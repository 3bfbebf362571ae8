-- ===== src/Rooms/Created.antt =====
-- A room that is made, and left again.
use mathlib.Core.Bool.{true≢false}
use mathlib.Core.Option.{none-ne-some, some-injective}
use mathlib.Core.Path.{subst}
use star_server.Prelude.{
  ℕ, zero, suc, ◌+◌, ◌≤◌, ◌<◌, ◌^◌, ◌≡◌, refl, sym, ap, ◌∙◌, ◌≢◌, inl, inr, true, false, Bool-cases,
  ◌==◌, ==_iff, pos, negsuc, Option, none, some, if◌then◌else◌, arith, ltb-true, ==_refl,
}
use star_server.Rooms.{
  Room, Lobby, Result, continue_with, has_room, room_at, find_free_idx_room, fill_room, on_free,
  create_room, room_owner, get_num_player, lock, change, members,
}
use star_server.Rooms.Leaving.{
  find_member, destroy_client_room, exit_room, remove_member, Search, on_search,
}
use star_server.Rooms.Bounds.{as_s16-pos, find_free_idx_room-lt}

find_free_idx_room-least :
    (n i : ℕ) (rooms : ℕ → Room) (r k : ℕ)
    → find_free_idx_room n i rooms ≡ some r
    → i ≤ k
    → k < r
    → (rooms k).num_client ≢ 0
unfolding find_free_idx_room
find_free_idx_room-least zero i rooms r k e lo hi z = absurd (none-ne-some r e)
find_free_idx_room-least (suc n) i rooms r k e lo hi z =
    elim (Bool-cases ((rooms i).num_client == 0)) [
      | inl free ↦
          let same : i ≡ r = some-injective i r (rw free at e) in
          absurd (omega (arith, same, lo, hi))
      | inr taken ↦ elim (Bool-cases (k == i)) [
        | inl here ↦ absurd (
            true≢false (
              sym (
                (==_iff (rooms i).num_client 0).1
                  (ap (λ j. (rooms j).num_client) (sym ((==_iff k i).0 here)) ∙ z))
              ∙ taken))
        | inr later ↦
            find_free_idx_room-least n (i + 1) rooms r k (rw taken at e) (ground arith) hi z
      ]
    ]

-- Results that are equal return equal rooms.
pub no_room-done : {n r : ℕ} {s t : Lobby} → Result.done (negsuc n) s ≢ Result.done (pos r) t
no_room-done e = cc e

pub done_room : {k r : ℕ} {s t : Lobby} → Result.done (pos k) s ≡ Result.done (pos r) t → k ≡ r
done_room e = cc e

-- The only way to return a room.
create_room-fill :
    (s t : Lobby) (c r : ℕ)
    → create_room c s ≡ Result.done (pos r) t
    → (find_free_idx_room s.max_room 0 s.rooms ≡ some r) × (fill_room c r s ≡ t)
unfolding create_room
create_room-fill s t c r e = elim (Bool-cases (has_room (s.clients c).room_idx)) [
  | inl has ↦ absurd (no_room-done (rw has at e))
  | inr free ↦ cases (find_free_idx_room s.max_room 0 s.rooms) (rw free at e)
]
  where
    cases :
        (o : Option ℕ)
        → on_free c o s ≡ Result.done (pos r) t
        → (o ≡ some r) × (fill_room c r s ≡ t)
    cases none e' = absurd (no_room-done e')
    cases (some k) e' = (ap some (done_room e'), cc e')

pub lock_free :
    (r : ℕ) (s : Lobby)
    → (s.rooms r).locked ≡ false
    → lock r s ≡ Result.done tt (change r (λ k. record k { locked = true }) s)
unfolding lock
lock_free r s free =
    ap
      (λ b.
        if b then Result.waits s else Result.done tt (change r (λ k. record k { locked = true }) s))
      free

pub get_num_player_lem :
    (s : Lobby) (r : ℕ)
    → r < s.max_room
    → get_num_player (pos r) s ≡ Result.done (s.rooms r).num_client s
unfolding get_num_player room_at
get_num_player_lem s r inside = rw (ltb-true r s.max_room inside) refl

-- What the calls return for a client c that is in the room r of the table.
module _ (s : Lobby) (c r : ℕ) (inside : r < s.max_room) where
  pub room_owner_lem :
      (d : ℕ)
      → (s.clients c).room_idx ≡ pos r
      → (s.rooms r).join_room 0 ≡ some d
      → room_owner c s ≡ Result.done (d == c) s
  unfolding room_owner room_at
  room_owner_lem d e j = rw (e, ltb-true r s.max_room inside, j) refl

  -- The room that the member at the place i has left.
  abbrev pub left : ℕ → Lobby
  left i =
      change r (λ k. record k { locked = false })
        (change r (remove_member i) (change r (λ k. record k { locked = true }) s))

  on_search_lem :
      (i : ℕ)
      → (s.rooms r).locked ≡ false
      → on_search r (Search.found i) s ≡ Result.done (pos 0) (left i)
  unfolding continue_with
  on_search_lem i free = rw (lock_free r s free) refl

  pub destroy_client_room_lem :
      (i : ℕ)
      → (s.clients c).room_idx ≡ pos r
      → (s.rooms r).locked ≡ false
      → find_member c (members (s.rooms r)) 0 (s.rooms r).join_room ≡ Search.found i
      → destroy_client_room c s ≡ Result.done (pos 0) (left i)
  unfolding destroy_client_room room_at
  destroy_client_room_lem i e free here =
      rw (e, ltb-true r s.max_room inside, here) (on_search_lem i free)

  pub num_client_left :
      (i : ℕ)
      → 0 < (s.rooms r).num_client
      → (s.rooms r).num_client ≤ 20
      → ((left i).rooms r).num_client + 1 ≡ (s.rooms r).num_client
  num_client_left i some_member few = ground arith

  pub exit_room_lem :
      (i : ℕ)
      → (s.clients c).room_idx ≡ pos r
      → (s.rooms r).locked ≡ false
      → find_member c (members (s.rooms r)) 0 (s.rooms r).join_room ≡ Search.found i
      → exit_room c s ≡ Result.done ((left i).rooms r).num_client (left i)
  unfolding exit_room continue_with
  exit_room_lem i e free here =
      rw (e, destroy_client_room_lem i e free here) (get_num_player_lem (left i) r inside)

-- The client c is in the room r of the table, with its owner's place, and alone.
pub record IsAlone (c r : ℕ) (s : Lobby) : Type 0 where
  pub inside : r < s.max_room
  pub placed : (s.clients c).room_idx ≡ pos r
  pub one : (s.rooms r).num_client ≡ 1
  pub owner : (s.rooms r).join_room 0 ≡ some c
  pub free : (s.rooms r).locked ≡ false

pub fill_room-IsAlone :
    (s : Lobby) (c r : ℕ) → r < s.max_room → r < 2 ^ 15 → IsAlone c r (fill_room c r s)
unfolding fill_room
fill_room-IsAlone s c r inside small = record {
  inside = inside;
  placed = rw (==_refl c) (as_s16-pos r small);
  one = rw (==_refl r) refl;
  owner = rw (==_refl r) refl;
  free = rw (==_refl r) refl;
}

module _ (c r : ℕ) (s : Lobby) (h : IsAlone c r s) where
  IsAlone-found : find_member c (members (s.rooms r)) 0 (s.rooms r).join_room ≡ Search.found 0
  unfolding find_member
  IsAlone-found = rw (h.one, h.owner, ==_refl c) refl

  IsAlone-exit :
      (u : Lobby) × (exit_room c s ≡ Result.done 0 u)
      × ((u.rooms r).num_client ≡ 0)
      × (create_room c u ≡ Result.done (negsuc 1) u)
  unfolding create_room
  IsAlone-exit =
      let gone : ((left s c r h.inside 0).rooms r).num_client ≡ 0 = omega (
        arith,
        num_client_left s c r h.inside 0 (omega (arith, h.one)) (omega (arith, h.one)),
        h.one,
      ) in
      (
        left s c r h.inside 0,
        exit_room_lem s c r h.inside 0 h.placed h.free IsAlone-found
            ∙ ap (λ n. Result.done n (left s c r h.inside 0)) gone,
        gone,
        rw h.placed refl,
      )

-- Where the table has at most 2^15 rooms and `STSV_CreateRoom` returns one, that is the first room of the
-- table without members; the client is then its owner and its only member. When it leaves with
-- `STSV_ExitRoom`, that returns 0 and the room has no members again, but the client's next
-- `STSV_CreateRoom` returns -2.
pub create_room-owner :
    (s t : Lobby) (c r : ℕ)
    → s.max_room ≤ 2 ^ 15
    → create_room c s ≡ Result.done (pos r) t
    → ((s.rooms r).num_client ≡ 0)
      × ((k : ℕ) → k < r → (s.rooms k).num_client ≢ 0)
      × (room_owner c t ≡ Result.done true t)
      × (get_num_player (pos r) t ≡ Result.done 1 t)
      × ((u : Lobby) × (exit_room c t ≡ Result.done 0 u)
          × ((u.rooms r).num_client ≡ 0)
          × (create_room c u ≡ Result.done (negsuc 1) u))
create_room-owner s t c r small e =
    let (here, same) = create_room-fill s t c r e in
    let (empty, lo, hi) = find_free_idx_room-lt s.max_room 0 s.rooms r here in
    let h : IsAlone c r t =
      subst (IsAlone c r) same
        (fill_room-IsAlone s c r (omega (arith, hi)) (omega (arith, hi, small))) in
    (
      empty,
      (λ k l. find_free_idx_room-least s.max_room 0 s.rooms r k here (omega arith) l),
      room_owner_lem t c r h.inside c h.placed h.owner ∙ ap (λ o. Result.done o t) (==_refl c),
      get_num_player_lem t r h.inside ∙ ap (λ n. Result.done n t) h.one,
      IsAlone-exit c r t h,
    )
