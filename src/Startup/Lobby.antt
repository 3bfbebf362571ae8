-- ===== src/Startup/Lobby.antt =====
-- The rooms and the clients that a start leaves are those that the lobby begins with.
use star_server.Prelude.{ℕ, ◌≡◌, pos}
use star_server.Rooms.{Lobby, Room}
use star_server.Startup.State.{State, M}
use star_server.Startup.Steps.{Ensures}

-- Each client has `roomIdx` 0.
abbrev InRoom0 : {A : Type 0} → A → State → Type 0
InRoom0 _ s = (i : ℕ) → (s.clients i).room_idx ≡ pos 0

-- A step that leaves the clients alone, whatever else it does.
abbrev Leaves : {A : Type 0} → M A → Type 0
Leaves m = (s : State) → InRoom0 tt s → Ensures InRoom0 (m s)

-- The lobby of a server that was started; `rooms` is what the memory that `malloc` gave for them held.
abbrev pub lobby_of : State → (ℕ → Room) → Lobby
lobby_of s rooms = record {
  max_room = s.settings.max_room;
  rooms = rooms;
  room_count = 0;
  clients = s.clients;
}
