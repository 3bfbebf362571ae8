-- ===== src/Rooms/Examples.antt =====
-- A lobby of two rooms, and the clients 0 and 1.
use star_server.Prelude.{
  ℕ, ◌<◌, ◌+◌, ◌≡◌, refl, ◌≢◌, none, some, true, false, pos, negsuc, set_at, arith, [], ◌∷◌,
}
use star_server.Packet.Examples.{fresh}
use star_server.Rooms.{
  Lobby, Result, cleared, create_room, join_room, room_owner, get_num_player, fill_room,
  find_free_idx_room,
}
use star_server.Rooms.Leaving.{exit_room, find_member}
use star_server.Rooms.Created.{create_room-owner}
use star_server.Rooms.Joined.{join_room_waits}
use star_server.Rooms.Stranded.{exit_room-stranded}
use star_server.Rooms.Creating.{Phase, Creating, run}
use star_server.Rooms.Creating.Raced.{run_race}

abbrev start : Lobby
start = record {
  max_room = 2;
  rooms = λ r. cleared;
  room_count = 0;
  clients = λ c. record fresh { room_idx = negsuc 0 };
}

abbrev one_room : Lobby
one_room = fill_room 0 0 start

one_room-create : create_room 0 start ≡ Result.done (pos 0) one_room
unfolding create_room find_free_idx_room
one_room-create = refl

create_room-owner_example :
    ((start.rooms 0).num_client ≡ 0)
    × ((k : ℕ) → k < 0 → (start.rooms k).num_client ≢ 0)
    × (room_owner 0 one_room ≡ Result.done true one_room)
    × (get_num_player (pos 0) one_room ≡ Result.done 1 one_room)
    × ((u : Lobby) × (exit_room 0 one_room ≡ Result.done 0 u)
        × ((u.rooms 0).num_client ≡ 0)
        × (create_room 0 u ≡ Result.done (negsuc 1) u))
create_room-owner_example = create_room-owner start one_room 0 0 (omega arith) one_room-create

join_room_waits_example :
    (t : Lobby) × (join_room 1 (pos 0) one_room ≡ Result.waits t)
    × ((t.rooms 0).num_client ≡ (one_room.rooms 0).num_client + 1)
    × ((t.rooms 0).join_room (one_room.rooms 0).num_client ≡ some 1)
    × (exit_room 1 t ≡ Result.waits t)
unfolding fill_room
join_room_waits_example =
    join_room_waits one_room 1 0 (omega arith) (omega arith) refl (omega arith) (omega arith)

abbrev two_members : Lobby
two_members = record start {
  rooms = set_at start.rooms 0 (record cleared {
    num_client = 2;
    join_room = set_at (set_at (λ i. none) 0 (some 0)) 1 (some 1);
  });
  clients = λ c. record fresh { room_idx = pos 0 };
}

exit_room-stranded_example :
    (t : Lobby) × (exit_room 0 two_members ≡ Result.done 1 t) × (exit_room 1 t ≡ Result.done 1 t)
unfolding find_member
exit_room-stranded_example =
    exit_room-stranded two_members 0 1 0 0 1 (omega arith) refl refl refl refl (omega arith) refl
      (omega arith) refl

abbrev callers : Creating
callers = record { lobby = start; holder = none; phase = λ c. Phase.outside }

run_race_example :
    (y : Creating) × (run (0 ∷ 0 ∷ 0 ∷ 1 ∷ 1 ∷ 1 ∷ 0 ∷ 1 ∷ []) callers ≡ some y)
    × (y.phase 0 ≡ Phase.returned (pos 0))
    × (y.phase 1 ≡ Phase.returned (pos 0))
    × ((y.lobby.clients 0).room_idx ≡ pos 0)
    × ((y.lobby.clients 1).room_idx ≡ pos 0)
    × ((y.lobby.rooms 0).num_client ≡ 1)
    × (room_owner 1 y.lobby ≡ Result.done true y.lobby)
    × (room_owner 0 y.lobby ≡ Result.done false y.lobby)
    × (exit_room 0 y.lobby ≡ Result.done 1 y.lobby)
unfolding find_free_idx_room
run_race_example =
    run_race callers 0 1 0 0 0 (omega arith) (omega arith) refl refl refl refl refl refl
