-- ===== src/Rooms/Leaving.antt =====
-- `DestroyClientRoom` and `STSV_ExitRoom`.
use star_server.Prelude.{
  ℕ, zero, suc, ◌+◌, ◌-◌, ◌^◌, false, Option, none, if◌then◌else◌, leb, set_at, u32, ℤ, pos, negsuc,
}
use star_server.Rooms.{
  max_player_per_room, Room, Result, M, return, modify, lock, room_at, on_room, members, is_client,
  get_num_player, ◌>>=◌, ◌>>◌,
}

-- The loop of `DestroyClientRoom`, with n places left from i on.
pub data Search : Type 0 where
  absent : Search
  found : ℕ → Search
  outside : Search

unfoldable pub find_member : ℕ → ℕ → ℕ → (ℕ → Option ℕ) → Search
find_member c zero i places = Search.absent
find_member c (suc n) i places =
    let rest = find_member c n (i + 1) places in
    if leb max_player_per_room i
    then Search.outside
    else if is_client c (places i)
    then Search.found i
    else rest

abbrev pub remove_member : ℕ → Room → Room
remove_member i k = record k {
  num_client = u32 (k.num_client + 2 ^ 32 - 1);
  join_room = set_at k.join_room i none;
}

abbrev pub on_search : ℕ → Search → M ℤ
on_search r Search.absent s = Result.done (negsuc 0) s
on_search r (Search.found i) s =
    (lock r
        >> modify r (remove_member i)
        >> modify r (λ k. record k { locked = false })
        >> return (pos 0))
      s
on_search r Search.outside s = Result.undefined

abbrev pub search_room : ℕ → ℕ → M ℤ
search_room c r s = on_search r (find_member c (members (s.rooms r)) 0 (s.rooms r).join_room) s

abbrev pub destroy_of : ℕ → ℤ → M ℤ
destroy_of c (negsuc n) s = Result.done (negsuc 0) s
destroy_of c (pos room) s = on_room (room_at s (pos room)) (search_room c) s

-- `DestroyClientRoom`
unfoldable pub destroy_client_room : ℕ → M ℤ
destroy_client_room c s = destroy_of c (s.clients c).room_idx s

abbrev pub exit_of : ℕ → ℤ → M ℕ
exit_of c (negsuc n) s = Result.done 0 s
exit_of c (pos room) s = (destroy_client_room c >>= λ _. get_num_player (pos room)) s

-- `STSV_ExitRoom`
unfoldable pub exit_room : ℕ → M ℕ
exit_room c s = exit_of c (s.clients c).room_idx s
