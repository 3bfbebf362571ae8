-- ===== src/Rooms/Creating.antt =====
-- `STSV_CreateRoom` of StarServer/StarSocketServer.cpp, called by the threads of several clients at once:
-- the steps between which another thread can come in, with the mutex `s_MutexFreeRoomIdx`.
pub mod Raced
use star_server.Prelude.{
  ℕ, Bool, true, false, List, [], ◌∷◌, Option, none, some, if◌then◌else◌, set_at, ℤ, pos, negsuc,
}
use star_server.Rooms.{Lobby, find_free_idx_room, fill_room, has_room}

-- Where a client's call stands: before it; with the mutex; with the mutex and what the search gave; behind
-- the mutex; and returned.
pub data Phase : Type 0 where
  outside : Phase
  searching : Phase
  found : Option ℕ → Phase
  filling : Option ℕ → Phase
  returned : ℤ → Phase

pub record Creating : Type 0 where
  pub lobby : Lobby
  -- The client whose thread has `s_MutexFreeRoomIdx`.
  pub holder : Option ℕ
  pub phase : ℕ → Phase

abbrev pub move : ℕ → Phase → Creating → Creating
move c p x = record x { phase = set_at x.phase c p }

-- `pthread_mutex_lock`, which waits while another thread has the mutex.
abbrev enter_search : ℕ → Option ℕ → Creating → Option Creating
enter_search c none x = some (record (move c Phase.searching x) { holder = some c })
enter_search c (some d) x = none

-- One step of the call for the client c; `none` where its thread waits, or where the call is over.
unfoldable pub step_from : Phase → ℕ → Creating → Option Creating
step_from Phase.outside c x =
    if has_room (x.lobby.clients c).room_idx
    then some (move c (Phase.returned (negsuc 1)) x)
    else enter_search c x.holder x
step_from Phase.searching c x =
    some (move c (Phase.found (find_free_idx_room x.lobby.max_room 0 x.lobby.rooms)) x)
step_from (Phase.found o) c x = some (record (move c (Phase.filling o) x) { holder = none })
step_from (Phase.filling none) c x = some (move c (Phase.returned (negsuc 0)) x)
step_from (Phase.filling (some r)) c x =
    some (record (move c (Phase.returned (pos r)) x) { lobby = fill_room c r x.lobby })
step_from (Phase.returned z) c x = none

unfoldable pub create_step : ℕ → Creating → Option Creating
create_step c x = step_from (x.phase c) c x

abbrev pub on_stepped : Option Creating → (Creating → Option Creating) → Option Creating
on_stepped none f = none
on_stepped (some x) f = f x

-- The steps of the clients in this order; `none` where one of them waits, or its call is over.
unfoldable pub run : List ℕ → Creating → Option Creating
run [] x = some x
run (c ∷ cs) x = on_stepped (create_step c x) (run cs)
