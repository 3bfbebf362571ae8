-- ===== src/Rooms/Bounds.antt =====
-- What holds of the lobby whatever the handlers call.
use mathlib.Core.Path.{subst}
use star_server.Prelude.{
  ℕ, zero, suc, ◌+◌, ◌^◌, ◌≤◌, ◌<◌, ◌≡◌, refl, ◌∙◌, sym, ap, ◌≢◌, inl, inr, true, ◌&&◌, Bool-cases,
  Option, none, some, ltb, ◌==◌, ==_iff, set_at, ℤ, pos, negsuc, arith,
}
use mathlib.Core.Option.{none-ne-some, some-injective}
use star_server.Rooms.{
  Room, Lobby, Result, M, continue_with, max_player_per_room, change, lock, cleared, room_at,
  members, has_room, as_s16, find_free_idx_room, fill_room, on_free, create_room, add_member,
  find_open, on_open, join_free_room,
}

-- The table is within s16, no room has more members than places, and a client's room is in the table.
pub record IsLobby (size : ℕ) (s : Lobby) : Type 0 where
  pub same : s.max_room ≡ size
  pub small : size ≤ 2 ^ 15
  pub bounded : (r : ℕ) → (s.rooms r).num_client ≤ max_player_per_room
  pub placed : (c r : ℕ) → (s.clients c).room_idx ≡ pos r → r < size

-- A call does not access anything out of an array, and P holds of what it leaves.
unfoldable pub Keeps : (Lobby → Type 0) → {A : Type 0} → Result A → Type 0
Keeps p (Result.done a s) = p s
Keeps p (Result.waits s) = p s
Keeps p Result.undefined = ⊥

module _ (p q : Lobby → Type 0) where
  pub continue-Keeps :
      {A B : Type 0} (f : A → M B) (r : Result A)
      → Keeps p r
      → ((s : Lobby) → p s → q s)
      → ((a : A) (s : Lobby) → p s → Keeps q (f a s))
      → Keeps q (continue_with f r)
  unfolding Keeps continue_with
  continue-Keeps f (Result.done a s) h w k = k a s h
  continue-Keeps f (Result.waits s) h w k = w s h
  continue-Keeps f Result.undefined h w k = elim h [ ]

-- A call that returns.
pub kept_done :
    (p : Lobby → Type 0) {A : Type 0} (a : A) (s : Lobby) → p s → Keeps p (Result.done a s)
unfolding Keeps
kept_done p a s h = h

Keeps-done :
    (p : Lobby → Type 0) {A : Type 0} (r : Result A) (a : A) (s : Lobby)
    → Keeps p r
    → r ≡ Result.done a s
    → p s
unfolding Keeps
Keeps-done p r a s h e = subst (Keeps p) e h

Keeps-waits :
    (p : Lobby → Type 0) {A : Type 0} (r : Result A) (s : Lobby)
    → Keeps p r
    → r ≡ Result.waits s
    → p s
unfolding Keeps
Keeps-waits p r s h e = subst (Keeps p) e h

pub Keeps-undefined :
    (p : Lobby → Type 0) {A : Type 0} (r : Result A) → Keeps p r → r ≢ Result.undefined
unfolding Keeps
Keeps-undefined p r h e = subst (Keeps p) e h

pub ltb_lem : (a b : ℕ) → ltb a b ≡ true → a < b
ltb_lem a b e = ground arith

-- The index of a room in the table.
pub as_s16-pos : (r : ℕ) → r < 2 ^ 15 → as_s16 r ≡ pos r
unfolding as_s16
as_s16-pos r h = ground arith

pub pos-injective : {a b : ℕ} → pos a ≡ pos b → a ≡ b
pos-injective e = cc e

module _ (size : ℕ) (s : Lobby) (h : IsLobby size s) where
  -- A change of one room to one that has no more members than places.
  pub change-IsLobby :
      (r : ℕ) (f : Room → Room)
      → (f (s.rooms r)).num_client ≤ max_player_per_room
      → IsLobby size (change r f s)
  change-IsLobby r f l = record {
    same = h.same;
    small = h.small;
    bounded = λ k. elim (Bool-cases (k == r)) [
      | inl same ↦ rw same l
      | inr other ↦ rw other (h.bounded k)
    ];
    placed = h.placed;
  }

  -- A client that gets a room of the table.
  pub place-IsLobby :
      (c r : ℕ)
      → r < size
      → IsLobby size
          (record s { clients = set_at s.clients c (record (s.clients c) { room_idx = as_s16 r }) })
  place-IsLobby c r l = record {
    same = h.same;
    small = h.small;
    bounded = h.bounded;
    placed = λ d k e. elim (Bool-cases (d == c)) [
      | inl same ↦
          let e' : as_s16 r ≡ pos k = rw same at e in
          omega
            (arith, l, h.small, pos-injective (sym (as_s16-pos r (omega (arith, l, h.small))) ∙ e'))
      | inr other ↦ h.placed d k (rw other at e)
    ];
  }

-- What the searches find is in the table.
pub find_free_idx_room-lt :
    (n i : ℕ) (rooms : ℕ → Room) (r : ℕ)
    → find_free_idx_room n i rooms ≡ some r
    → ((rooms r).num_client ≡ 0) × (i ≤ r) × (r < i + n)
unfolding find_free_idx_room
find_free_idx_room-lt zero i rooms r e = absurd (none-ne-some r e)
find_free_idx_room-lt (suc n) i rooms r e = elim (Bool-cases ((rooms i).num_client == 0)) [
  | inl free ↦
      let same : i ≡ r = some-injective i r (rw free at e) in
      (
        ap (λ k. (rooms k).num_client) (sym same) ∙ (==_iff (rooms i).num_client 0).0 free,
        omega (arith, same),
        omega (arith, same),
      )
  | inr taken ↦
      let (z, lo, hi) = find_free_idx_room-lt n (i + 1) rooms r (rw taken at e) in
      (z, omega (arith, lo), omega (arith, hi))
]

pub find_open-lt :
    (n i : ℕ) (rooms : ℕ → Room) (r : ℕ)
    → find_open n i rooms ≡ some r
    → (r < i + n) × (0 < members (rooms r)) × (members (rooms r) < max_player_per_room)
unfolding find_open
find_open-lt zero i rooms r e = absurd (none-ne-some r e)
find_open-lt (suc n) i rooms r e =
    elim (Bool-cases (ltb 0 (members (rooms i)) && ltb (members (rooms i)) max_player_per_room)) [
      | inl open_here ↦
          let same : i ≡ r = some-injective i r (rw open_here at e) in
          let l : members (rooms i) < max_player_per_room = ground arith in
          let positive : 0 < members (rooms i) = ground arith in
          (
            omega (arith, same),
            subst (λ k. 0 < members (rooms k)) same positive,
            subst (λ k. members (rooms k) < max_player_per_room) same l,
          )
      | inr shut ↦
          let (hi, positive, l) = find_open-lt n (i + 1) rooms r (rw shut at e) in
          (omega (arith, hi), positive, l)
    ]

module _ (size : ℕ) (s : Lobby) (h : IsLobby size s) where
  pub few : (r : ℕ) → members (s.rooms r) ≡ (s.rooms r).num_client
  few r = ground (arith, h.bounded r)

  pub change_count :
      (r : ℕ) (f : Room → Room)
      → (f (s.rooms r)).num_client ≡ (s.rooms r).num_client
      → IsLobby size (change r f s)
  change_count r f e = change-IsLobby size s h r f (omega (arith, e, h.bounded r))

  pub add-IsLobby :
      (c r : ℕ)
      → (s.rooms r).num_client < max_player_per_room
      → IsLobby size (change r (add_member c) s)
  add-IsLobby c r l = change-IsLobby size s h r (add_member c) (omega (arith, l))

  fill_room-IsLobby : (c r : ℕ) → r < size → IsLobby size (fill_room c r s)
  unfolding fill_room
  fill_room-IsLobby c r l =
      let t =
        change-IsLobby size s h r
          (λ k. record cleared { num_client = 1; join_room = set_at (λ i. none) 0 (some c) })
          (omega arith) in
      let u =
        place-IsLobby size
          (change r
            (λ k. record cleared { num_client = 1; join_room = set_at (λ i. none) 0 (some c) }) s)
          t c r l in
      record { same = u.same; small = u.small; bounded = u.bounded; placed = u.placed }

  pub create_room-Keeps : (c : ℕ) → Keeps (IsLobby size) (create_room c s)
  unfolding create_room Keeps
  create_room-Keeps c = elim (Bool-cases (has_room (s.clients c).room_idx)) [
    | inl has ↦ rw has h
    | inr free ↦ rw free (on_free-Keeps (find_free_idx_room s.max_room 0 s.rooms) refl)
  ]
    where
      on_free-Keeps :
          (o : Option ℕ)
          → find_free_idx_room s.max_room 0 s.rooms ≡ o
          → Keeps (IsLobby size) (on_free c o s)
      on_free-Keeps none e = h
      on_free-Keeps (some r) e =
          let (z, lo, hi) = find_free_idx_room-lt s.max_room 0 s.rooms r e in
          fill_room-IsLobby c r (omega (arith, hi, h.same))

  pub join_free_room-Keeps : (c : ℕ) → Keeps (IsLobby size) (join_free_room c s)
  unfolding join_free_room Keeps
  join_free_room-Keeps c = on_open-Keeps (find_open s.max_room 0 s.rooms) refl
    where
      on_open-Keeps :
          (o : Option ℕ) → find_open s.max_room 0 s.rooms ≡ o → Keeps (IsLobby size) (on_open c o s)
      on_open-Keeps none e = h
      on_open-Keeps (some r) e =
          let (hi, positive, l) = find_open-lt s.max_room 0 s.rooms r e in
          add-IsLobby c r (omega (arith, l, few r))

  pub lock-Keeps : (r : ℕ) → Keeps (IsLobby size) (lock r s)
  unfolding lock Keeps
  lock-Keeps r = elim (Bool-cases (s.rooms r).locked) [
    | inl locked ↦ rw locked h
    | inr free ↦ rw free (change_count r (λ k. record k { locked = true }) refl)
  ]

  pub room_at-lt : (room : ℤ) (r : ℕ) → room_at s room ≡ some r → r < size
  unfolding room_at
  room_at-lt (pos k) r e = elim (Bool-cases (ltb k s.max_room)) [
    | inl inside ↦
        let same : k ≡ r = some-injective k r (rw inside at e) in
        omega (arith, same, ltb_lem k s.max_room inside, h.same)
    | inr out ↦ absurd (none-ne-some r (rw out at e))
  ]
  room_at-lt (negsuc n) r e = absurd (none-ne-some r e)

  pub room_at-pos : (r : ℕ) → r < size → room_at s (pos r) ≡ some r
  unfolding room_at
  room_at-pos r l = ground (arith, h.same)
