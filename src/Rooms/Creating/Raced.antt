-- ===== src/Rooms/Creating/Raced.antt =====
-- Two calls of `STSV_CreateRoom` at once: the mutex of the search is free before the room is marked.
use star_server.Prelude.{
  ℕ, ◌≤◌, ◌<◌, ◌^◌, ◌≡◌, refl, sym, ap, ◌∙◌, ◌≢◌, true, false, ◌==◌, List, [], ◌∷◌, pos, negsuc,
  Option, none, some, arith, ==_refl, ==-false,
}
use star_server.Rooms.{
  Lobby, Result, find_free_idx_room, fill_room, room_owner, create_room, members, is_client,
}
use star_server.Rooms.Leaving.{find_member, exit_room, Search}
use star_server.Rooms.Bounds.{find_free_idx_room-lt}
use star_server.Rooms.Created.{room_owner_lem, IsAlone, fill_room-IsAlone}
use star_server.Rooms.Joined.{members_lem}
use star_server.Rooms.Absent.{find_member-absent, exit_room_absent}
use star_server.Rooms.Creating.{Phase, Creating, move, step_from, create_step, on_stepped, run}

run_step :
    (c : ℕ) (cs : List ℕ) (p : Phase) (x y : Creating)
    → x.phase c ≡ p
    → step_from p c x ≡ some y
    → run (c ∷ cs) x ≡ run cs y
unfolding run create_step
run_step c cs p x y e step = ap (λ o. on_stepped o (run cs)) (ap (λ q. step_from q c x) e ∙ step)

-- With the mutex; with what the search gave; and behind the mutex.
abbrev locked : ℕ → Creating → Creating
locked c x = record (move c Phase.searching x) { holder = some c }

abbrev searched : ℕ → Option ℕ → Creating → Creating
searched c o x = record (move c (Phase.filling o) (move c (Phase.found o) (locked c x))) {
  holder = none;
}

abbrev filled : ℕ → ℕ → Creating → Creating
filled c r x = record (move c (Phase.returned (pos r)) x) { lobby = fill_room c r x.lobby }

run_search :
    (c m : ℕ) (cs : List ℕ) (x : Creating) (o : Option ℕ)
    → x.phase c ≡ Phase.outside
    → (x.lobby.clients c).room_idx ≡ negsuc m
    → x.holder ≡ none
    → find_free_idx_room x.lobby.max_room 0 x.lobby.rooms ≡ o
    → run (c ∷ c ∷ c ∷ cs) x ≡ run cs (searched c o x)
unfolding step_from
run_search c m cs x o out no_room free search =
    run_step c (c ∷ c ∷ cs) Phase.outside x (locked c x) out (rw (no_room, free) refl)
    ∙ run_step c (c ∷ cs) Phase.searching (locked c x) (move c (Phase.found o) (locked c x))
        (rw (==_refl c) refl) (rw search refl)
    ∙ run_step c cs (Phase.found o) (move c (Phase.found o) (locked c x)) (searched c o x)
        (rw (==_refl c) refl) refl

run_fill :
    (c r : ℕ) (cs : List ℕ) (x : Creating)
    → x.phase c ≡ Phase.filling (some r)
    → run (c ∷ cs) x ≡ run cs (filled c r x)
unfolding step_from
run_fill c r cs x e = run_step c cs (Phase.filling (some r)) x (filled c r x) e refl

run_done : (x : Creating) → run [] x ≡ some x
unfolding run
run_done x = refl

-- The client's own steps, with no other thread in between, are the call of `create_room`.
run-create_room :
    (c m r : ℕ) (x : Creating)
    → x.phase c ≡ Phase.outside
    → x.holder ≡ none
    → (x.lobby.clients c).room_idx ≡ negsuc m
    → find_free_idx_room x.lobby.max_room 0 x.lobby.rooms ≡ some r
    → (y : Creating) × (run (c ∷ c ∷ c ∷ c ∷ []) x ≡ some y)
      × (y.phase c ≡ Phase.returned (pos r))
      × (create_room c x.lobby ≡ Result.done (pos r) y.lobby)
unfolding create_room
run-create_room c m r x out free no_room search = (
  filled c r (searched c (some r) x),
  run_search c m (c ∷ []) x (some r) out no_room free search
      ∙ run_fill c r [] (searched c (some r) x) (rw (==_refl c) refl)
      ∙ run_done (filled c r (searched c (some r) x)),
  rw (==_refl c) refl,
  rw (no_room, search) refl,
)

fill_room-other :
    (s : Lobby) (c d r : ℕ)
    → (d == c) ≡ false
    → ((fill_room c r s).clients d).room_idx ≡ (s.clients d).room_idx
unfolding fill_room
fill_room-other s c d r ne = rw ne refl

-- The room r that both clients have filled, a first.
record IsShared (a b r : ℕ) (t : Lobby) : Type 0 where
  placed_a : (t.clients a).room_idx ≡ pos r
  placed_b : (t.clients b).room_idx ≡ pos r
  one : (t.rooms r).num_client ≡ 1
  owner : room_owner b t ≡ Result.done true t
  no_owner : room_owner a t ≡ Result.done false t
  stranded : exit_room a t ≡ Result.done 1 t

fill_room-IsShared :
    (s : Lobby) (a b r : ℕ)
    → s.max_room ≤ 2 ^ 15
    → a ≢ b
    → find_free_idx_room s.max_room 0 s.rooms ≡ some r
    → IsShared a b r (fill_room b r (fill_room a r s))
fill_room-IsShared s a b r small ne free = record {
  placed_a = earlier;
  placed_b = h.placed;
  one = h.one;
  owner = room_owner_lem t b r h.inside b h.placed h.owner ∙ ap (λ o. Result.done o t) (==_refl b);
  no_owner = room_owner_lem t a r h.inside b earlier h.owner ∙ ap (λ o. Result.done o t) b_not_a;
  stranded = exit_room_absent t a r h.inside earlier gone ∙ ap (λ k. Result.done k t) h.one;
}
  where
    t : Lobby
    t = fill_room b r (fill_room a r s)

    inside : r < s.max_room
    inside =
        let (empty, lo, hi) = find_free_idx_room-lt s.max_room 0 s.rooms r free in omega (arith, hi)

    first : IsAlone a r (fill_room a r s)
    first = fill_room-IsAlone s a r inside (omega (arith, inside, small))

    h : IsAlone b r t
    h = fill_room-IsAlone (fill_room a r s) b r first.inside (omega (arith, inside, small))

    b_not_a : (b == a) ≡ false
    b_not_a = ==-false b a (λ e. ne (sym e))

    earlier : (t.clients a).room_idx ≡ pos r
    earlier = fill_room-other (fill_room a r s) b a r (==-false a b ne) ∙ first.placed

    gone : find_member a (members (t.rooms r)) 0 (t.rooms r).join_room ≡ Search.absent
    gone =
        ap (λ k. find_member a k 0 (t.rooms r).join_room)
          (members_lem (t.rooms r) (omega (arith, h.one)) ∙ h.one)
        ∙ find_member-absent a 1 0 (t.rooms r).join_room (omega arith) (λ k lo hi.
          ap (λ j. is_client a ((t.rooms r).join_room j)) {x = k} {y = 0} (omega (arith, hi))
          ∙ ap (is_client a) h.owner
          ∙ b_not_a)

-- Two clients without a room call `STSV_CreateRoom`, in a table of at most 2^15 rooms of which r is the
-- first free one. The thread of a has the mutex, searches and frees it; then that of b does the same; then
-- a's marks its room, and then b's. Both calls return r, and both clients have r as their room; but it has
-- one member, which is b: a is not its owner, and when a leaves, it is not found and the room stays as it
-- is. So the mutex does not keep two calls from one room.
pub run_race :
    (x : Creating) (a b r m n : ℕ)
    → x.lobby.max_room ≤ 2 ^ 15
    → a ≢ b
    → x.holder ≡ none
    → x.phase a ≡ Phase.outside
    → x.phase b ≡ Phase.outside
    → (x.lobby.clients a).room_idx ≡ negsuc m
    → (x.lobby.clients b).room_idx ≡ negsuc n
    → find_free_idx_room x.lobby.max_room 0 x.lobby.rooms ≡ some r
    → (y : Creating) × (run (a ∷ a ∷ a ∷ b ∷ b ∷ b ∷ a ∷ b ∷ []) x ≡ some y)
      × (y.phase a ≡ Phase.returned (pos r))
      × (y.phase b ≡ Phase.returned (pos r))
      × ((y.lobby.clients a).room_idx ≡ pos r)
      × ((y.lobby.clients b).room_idx ≡ pos r)
      × ((y.lobby.rooms r).num_client ≡ 1)
      × (room_owner b y.lobby ≡ Result.done true y.lobby)
      × (room_owner a y.lobby ≡ Result.done false y.lobby)
      × (exit_room a y.lobby ≡ Result.done 1 y.lobby)
run_race x a b r m n small ne free out_a out_b no_room_a no_room_b search =
    let h = fill_room-IsShared x.lobby a b r small ne search in
    (
      filled b r (filled a r both),
      run_search a m (b ∷ b ∷ b ∷ a ∷ b ∷ []) x (some r) out_a no_room_a free search
          ∙ run_search b n (a ∷ b ∷ []) (searched a (some r) x) (some r) (rw b_not_a out_b)
              no_room_b refl search
          ∙ run_fill a r (b ∷ []) both (rw (a_not_b, ==_refl a) refl)
          ∙ run_fill b r [] (filled a r both) (rw (b_not_a, ==_refl b) refl)
          ∙ run_done (filled b r (filled a r both)),
      rw (a_not_b, ==_refl a) refl,
      rw (==_refl b) refl,
      h.placed_a,
      h.placed_b,
      h.one,
      h.owner,
      h.no_owner,
      h.stranded,
    )
  where
    a_not_b : (a == b) ≡ false
    a_not_b = ==-false a b ne

    b_not_a : (b == a) ≡ false
    b_not_a = ==-false b a (λ e. ne (sym e))

    both : Creating
    both = searched b (some r) (searched a (some r) x)
