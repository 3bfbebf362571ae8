-- ===== src/Rooms/Reached.antt =====
-- What the handlers reach, one call at a time: no access is ever out of an array.
use star_server.Prelude.{
  ℕ, ◌<◌, ◌≤◌, ◌^◌, ◌≡◌, refl, sym, ◌∙◌, ◌≢◌, inl, inr, Bool-cases, ◌==◌, set_at, pos, negsuc,
  arith,
}
use mathlib.Core.Path.{subst}
use star_server.Slots.{set_up_client}
use star_server.Rooms.{
  Lobby, Result, max_player_per_room, clear_room, create_room, join_free_room, join_room,
  room_owner,
}
use star_server.Rooms.Leaving.{destroy_client_room, exit_room}
use star_server.Rooms.Bounds.{
  IsLobby, Keeps, Keeps-undefined, create_room-Keeps, join_free_room-Keeps,
}
use star_server.Rooms.Kept.{
  join_room-Keeps, destroy_client_room-Keeps, exit_room-Keeps, room_owner-Keeps, clear_room-Keeps,
}

-- The lobby that a call leaves, whether it returns or waits for ever.
unfoldable pub Ends : {A : Type 0} → Result A → Lobby → Type 0
Ends (Result.done a s) t = s ≡ t
Ends (Result.waits s) t = s ≡ t
Ends Result.undefined t = ⊥

-- `AcceptConnection` gives the slot i to a new client.
abbrev pub accept : ℕ → Lobby → Lobby
accept i s = record s { clients = set_at s.clients i (set_up_client i (s.clients i)) }

-- The calls for a client c, with rooms of the table, and the acceptance of a client.
pub data Step (s : Lobby) : Lobby → Type 0 where
  accepts : (i : ℕ) → Step s (accept i s)
  creates : (c : ℕ) (t : Lobby) → Ends (create_room c s) t → Step s t
  joins_free : (c : ℕ) (t : Lobby) → Ends (join_free_room c s) t → Step s t
  joins : (c r : ℕ) (t : Lobby) → r < s.max_room → Ends (join_room c (pos r) s) t → Step s t
  exits : (c : ℕ) (t : Lobby) → Ends (exit_room c s) t → Step s t
  leaves : (c : ℕ) (t : Lobby) → Ends (destroy_client_room c s) t → Step s t
  clears : (r : ℕ) (t : Lobby) → r < s.max_room → Ends (clear_room (pos r) s) t → Step s t

pub data Reaches (s : Lobby) : Lobby → Type 0 where
  begins : Reaches s s
  goes_on : (t u : Lobby) → Reaches s t → Step t u → Reaches s u

-- A server that starts: `STSV_Init` clears the clients, so that `roomIdx` is 0; it does
-- not clear the rooms, and the memory that `malloc` gave for them is taken to hold zeros.
pub record IsStart (s : Lobby) : Type 0 where
  pub small : s.max_room ≤ 2 ^ 15
  pub empty : (r : ℕ) → (s.rooms r).num_client ≡ 0
  pub cleared_clients : (c : ℕ) → (s.clients c).room_idx ≡ pos 0

negsuc-pos : {n r : ℕ} → negsuc n ≢ pos r
negsuc-pos e = cc e

pos-injective : {n r : ℕ} → pos n ≡ pos r → n ≡ r
pos-injective e = cc e

start-IsLobby : (s : Lobby) → 0 < s.max_room → IsStart s → IsLobby s.max_room s
start-IsLobby s some_room h = record {
  same = refl;
  small = h.small;
  bounded = λ r. omega (arith, h.empty r);
  placed = λ c r e.
      subst (λ k. k < s.max_room) (pos-injective (sym (h.cleared_clients c) ∙ e)) some_room;
}

Ends-IsLobby :
    {A : Type 0} (size : ℕ) (r : Result A) (t : Lobby)
    → Keeps (IsLobby size) r
    → Ends r t
    → IsLobby size t
unfolding Keeps Ends
Ends-IsLobby size (Result.done a s) t h e = subst (IsLobby size) e h
Ends-IsLobby size (Result.waits s) t h e = subst (IsLobby size) e h
Ends-IsLobby size Result.undefined t h e = elim e [ ]

accept-IsLobby : (size : ℕ) (s : Lobby) (i : ℕ) → IsLobby size s → IsLobby size (accept i s)
unfolding set_up_client
accept-IsLobby size s i h = record {
  same = h.same;
  small = h.small;
  bounded = h.bounded;
  placed = λ c r e. elim (Bool-cases (c == i)) [
    | inl same ↦ absurd (negsuc-pos (rw same at e))
    | inr other ↦ h.placed c r (rw other at e)
  ];
}

Step-IsLobby : (size : ℕ) (s t : Lobby) → IsLobby size s → Step s t → IsLobby size t
Step-IsLobby size s _ h (Step.accepts i) = accept-IsLobby size s i h
Step-IsLobby size s t h (Step.creates c _ e) =
    Ends-IsLobby size _ t (create_room-Keeps size s h c) e
Step-IsLobby size s t h (Step.joins_free c _ e) =
    Ends-IsLobby size _ t (join_free_room-Keeps size s h c) e
Step-IsLobby size s t h (Step.joins c r _ l e) =
    Ends-IsLobby size _ t (join_room-Keeps size s h c r (omega (arith, l, h.same))) e
Step-IsLobby size s t h (Step.exits c _ e) = Ends-IsLobby size _ t (exit_room-Keeps size s h c) e
Step-IsLobby size s t h (Step.leaves c _ e) =
    Ends-IsLobby size _ t (destroy_client_room-Keeps size s h c) e
Step-IsLobby size s t h (Step.clears r _ l e) =
    Ends-IsLobby size _ t (clear_room-Keeps size s h r (omega (arith, l, h.same))) e

Reaches-IsLobby : (size : ℕ) (s t : Lobby) → IsLobby size s → Reaches s t → IsLobby size t
Reaches-IsLobby size s t h Reaches.begins = h
Reaches-IsLobby size s t h (Reaches.goes_on u _ r step) =
    Step-IsLobby size u t (Reaches-IsLobby size s u h r) step

-- The calls for a client c and a room r of the table, of which none accesses anything out of the table or
-- of a room's array.
pub record IsSafe (s : Lobby) (c r : ℕ) : Type 0 where
  creating : create_room c s ≢ Result.undefined
  joining_free : join_free_room c s ≢ Result.undefined
  joining : join_room c (pos r) s ≢ Result.undefined
  owning : room_owner c s ≢ Result.undefined
  exiting : exit_room c s ≢ Result.undefined
  leaving : destroy_client_room c s ≢ Result.undefined
  clearing : clear_room (pos r) s ≢ Result.undefined

-- The start is a table of at most 2^15 rooms, in memory that held zeros, and clients that are cleared.
-- Whatever the handlers have called since then, one call after the other and with rooms of the table: no
-- room has more than 20 members, and the next call, again with a room of the
-- table, does not go out of the table of the rooms or of the places of a room.
pub Reaches-IsSafe :
    (s s' : Lobby) (c r : ℕ)
    → IsStart s
    → Reaches s s'
    → r < s.max_room
    → ((k : ℕ) → (s'.rooms k).num_client ≤ max_player_per_room) × IsSafe s' c r
Reaches-IsSafe s s' c r start reached l =
    let h = Reaches-IsLobby s.max_room s s' (start-IsLobby s (omega (arith, l)) start) reached in
    (
      h.bounded,
      record {
        creating = Keeps-undefined _ _ (create_room-Keeps s.max_room s' h c);
        joining_free = Keeps-undefined _ _ (join_free_room-Keeps s.max_room s' h c);
        joining = Keeps-undefined _ _ (join_room-Keeps s.max_room s' h c r l);
        owning = Keeps-undefined _ _ (room_owner-Keeps s.max_room s' h c);
        exiting = Keeps-undefined _ _ (exit_room-Keeps s.max_room s' h c);
        leaving = Keeps-undefined _ _ (destroy_client_room-Keeps s.max_room s' h c);
        clearing = Keeps-undefined _ _ (clear_room-Keeps s.max_room s' h r l);
      },
    )
