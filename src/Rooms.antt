-- ===== src/Rooms.antt =====
-- The rooms of the lobby, StarServer/StarSocketServer.cpp: `FindFreeIdxRoom` to `STSV_GetRoomCount`,
-- which USE_LOBBY compiles; Leaving has `STSV_ExitRoom` and `DestroyClientRoom`. A client is its index
-- in the table of the slots, and so is a pointer to one. A name that a room has is only set to 0.
-- `numClient` is an s32: its bit pattern.
pub mod Leaving
pub mod Bounds
pub mod Searching
pub mod Kept
pub mod Reached
pub mod Created
pub mod Joined
pub mod Absent
pub mod Stranded
pub mod Creating
pub mod Confirm
mod Examples
use star_server.Prelude.{
  ℕ, zero, suc, ◌+◌, ◌%◌, ◌-◌, ◌^◌, Bool, true, false, ◌&&◌, Option, none, some, if◌then◌else◌, ltb,
  leb, ◌==◌, set_at, u32, ℤ, pos, negsuc,
}
use star_server.Client.{Client}

abbrev pub max_player_per_room : ℕ
max_player_per_room = 20

-- `SERVER_ROOM_DESC`. A place of `joinRoom` is `none` for NULL.
pub record Room : Type 0 where
  pub num_client : ℕ
  pub locked : Bool
  pub join_room : ℕ → Option ℕ

-- `max_room` is not negative.
pub record Lobby : Type 0 where
  pub max_room : ℕ
  pub rooms : ℕ → Room
  pub room_count : ℕ
  pub clients : ℕ → Client

-- How a call ends. `waits`: it locks a mutex that is locked. `undefined`: an access out of an array.
pub data Result (A : Type 0) : Type 0 where
  done : A → Lobby → Result A
  waits : Lobby → Result A
  undefined : Result A

abbrev pub M : Type 0 → Type 0
M A = Lobby → Result A

unfoldable pub continue_with : {A B : Type 0} → (A → M B) → Result A → Result B
continue_with f (Result.done a s) = f a s
continue_with f (Result.waits s) = Result.waits s
continue_with f Result.undefined = Result.undefined

infixl 5 ◌>>=◌ ◌>>◌
abbrev pub ◌>>=◌ : {A B : Type 0} → M A → (A → M B) → M B
◌>>=◌ m f s = continue_with f (m s)

abbrev pub ◌>>◌ : {B : Type 0} → M (Unit {0}) → M B → M B
m >> k = m >>= λ _. k

abbrev pub return : {A : Type 0} → A → M A
return a s = Result.done a s

-- A change of one room.
abbrev pub change : ℕ → (Room → Room) → Lobby → Lobby
change r f s = record s { rooms = set_at s.rooms r (f (s.rooms r)) }

abbrev pub modify : ℕ → (Room → Room) → M (Unit {0})
modify r f s = Result.done tt (change r f s)

unfoldable pub lock : ℕ → M (Unit {0})
lock r s =
    if (s.rooms r).locked
    then Result.waits s
    else Result.done tt (change r (λ k. record k { locked = true }) s)

-- `memset(&s_Room_t[r], 0, sizeof(SERVER_ROOM_DESC))`, which clears the mutex too.
abbrev pub cleared : Room
cleared = record { num_client = 0; locked = false; join_room = λ i. none }

-- The room of an index, where the table has it.
unfoldable pub room_at : Lobby → ℤ → Option ℕ
room_at s (pos r) = if ltb r s.max_room then some r else none
room_at s (negsuc n) = none

abbrev pub on_room : {A : Type 0} → Option ℕ → (ℕ → M A) → M A
on_room none f s = Result.undefined
on_room (some r) f s = f r s

-- `numClient` as the bound of a loop and where it is compared with a number above 0.
abbrev pub members : Room → ℕ
members k = if ltb k.num_client (2 ^ 31) then k.num_client else 0

abbrev pub has_room : ℤ → Bool
has_room (pos r) = true
has_room (negsuc n) = false

-- The conversion of a room's index to the s16 of `roomIdx`.
unfoldable pub as_s16 : ℕ → ℤ
as_s16 r = if ltb (r % 2 ^ 16) (2 ^ 15) then pos (r % 2 ^ 16) else negsuc (2 ^ 16 - 1 - r % 2 ^ 16)

-- `FindFreeIdxRoom`, with n rooms left from i on. `none` is -1.
unfoldable pub find_free_idx_room : ℕ → ℕ → (ℕ → Room) → Option ℕ
find_free_idx_room zero i rooms = none
find_free_idx_room (suc n) i rooms =
    let rest = find_free_idx_room n (i + 1) rooms in
    if (rooms i).num_client == 0 then some i else rest

-- `STSV_ClearRoom`
unfoldable pub clear_room : ℤ → M ℤ
clear_room room s = on_room (room_at s room) (λ r. modify r (λ k. cleared) >> return (pos 0)) s

-- `STSV_CreateRoom`: what it does with the room it found.
unfoldable pub fill_room : ℕ → ℕ → Lobby → Lobby
fill_room c r s = record s {
  rooms =
      set_at s.rooms r
        (record cleared { num_client = 1; join_room = set_at (λ i. none) 0 (some c) });
  clients = set_at s.clients c (record (s.clients c) { room_idx = as_s16 r });
  room_count = u32 (s.room_count + 1);
}

abbrev pub on_free : ℕ → Option ℕ → M ℤ
on_free c none s = Result.done (negsuc 0) s
on_free c (some r) s = Result.done (pos r) (fill_room c r s)

unfoldable pub create_room : ℕ → M ℤ
create_room c s =
    if has_room (s.clients c).room_idx
    then Result.done (negsuc 1) s
    else on_free c (find_free_idx_room s.max_room 0 s.rooms) s

-- The next place of a room and one member more.
abbrev pub add_member : ℕ → Room → Room
add_member c k = record k {
  num_client = u32 (k.num_client + 1);
  join_room = set_at k.join_room k.num_client (some c);
}

unfoldable pub find_open : ℕ → ℕ → (ℕ → Room) → Option ℕ
find_open zero i rooms = none
find_open (suc n) i rooms =
    let rest = find_open n (i + 1) rooms in
    if ltb 0 (members (rooms i)) && ltb (members (rooms i)) max_player_per_room
    then some i
    else rest

abbrev pub on_open : ℕ → Option ℕ → M ℤ
on_open c none s = Result.done (negsuc 0) s
on_open c (some r) s = Result.done (pos r) (change r (add_member c) s)

-- `STSV_JoinFreeRoom`
unfoldable pub join_free_room : ℕ → M ℤ
join_free_room c s = on_open c (find_open s.max_room 0 s.rooms) s

-- `roomID <0 && roomID >= s_nMaxRoom`
abbrev is_negative : ℤ → Bool
is_negative (pos r) = false
is_negative (negsuc n) = true

abbrev at_least : ℤ → ℕ → Bool
at_least (pos r) n = leb n r
at_least (negsuc m) n = false

-- What `STSV_JoinRoom` writes between its two calls of `pthread_mutex_lock`.
abbrev pub enter : ℕ → ℕ → M (Unit {0})
enter c r s =
    if ltb (s.rooms r).num_client max_player_per_room
    then Result.done tt (record (change r (add_member c) s) {
      clients = set_at s.clients c (record (s.clients c) { room_idx = as_s16 r });
    })
    else Result.undefined

unfoldable pub join_found : ℕ → ℕ → M Bool
join_found c r s =
    if (s.rooms r).num_client == 0
    then Result.done false s
    else if ltb (members (s.rooms r)) max_player_per_room
    then (lock r >> enter c r >> lock r >> return true) s
    else Result.done false s

-- `STSV_JoinRoom`
unfoldable pub join_room : ℕ → ℤ → M Bool
join_room c room s =
    if is_negative room && at_least room s.max_room
    then Result.done false s
    else on_room (room_at s room) (join_found c) s

abbrev pub is_client : ℕ → Option ℕ → Bool
is_client c none = false
is_client c (some d) = d == c

abbrev pub owner_of : ℕ → ℤ → M Bool
owner_of c (negsuc n) s = Result.done false s
owner_of c (pos room) s =
    on_room (room_at s (pos room)) (λ r t. Result.done (is_client c ((t.rooms r).join_room 0)) t) s

-- `STSV_RoomOwner`
unfoldable pub room_owner : ℕ → M Bool
room_owner c s = owner_of c (s.clients c).room_idx s

-- `STSV_GetNumPlayer`
unfoldable pub get_num_player : ℤ → M ℕ
get_num_player room s = on_room (room_at s room) (λ r t. Result.done (t.rooms r).num_client t) s

-- `STSV_GetRoomCount`
unfoldable get_room_count : Lobby → ℕ
get_room_count s = s.room_count
