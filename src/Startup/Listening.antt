-- ===== src/Startup/Listening.antt =====
-- `CreateServer`, `CreateTCPServer` and `CreateUDPServer`
use star_server.Prelude.{ℕ, ◌≡◌, arith, Bool, true, not, ◌&&◌, if◌then◌else◌, ◌==◌, ℤ, pos, negsuc}

-- Which calls on the new socket succeed, and whether `errno` is `EADDRINUSE` after the first `bind`.
pub record Socket : Type 0 where
  pub binds : Bool
  pub in_use : Bool
  pub binds_again : Bool
  pub listens : Bool
  pub creates_thread : Bool

-- The variables that are set before the accepting thread is made.
pub record Listener : Type 0 where
  pub online : Bool
  pub login_count : ℕ
  pub db_connect : ℕ

abbrev pub counting : Listener → Listener
counting l = record { online = true; login_count = 0; db_connect = 0 }

abbrev thread_result : Bool → ℤ
thread_result created = if created then pos 0 else negsuc 0

create_tcp_server : Socket → Listener → ℤ × Listener
create_tcp_server s l =
    if s.listens then (thread_result s.creates_thread, counting l) else (pos 1, l)

create_udp_server : Socket → Listener → ℤ × Listener
create_udp_server s l = (thread_result s.creates_thread, counting l)

-- What `CreateServer` returns. `undefined`: the protocol is neither TCP nor UDP, and the socket is a
-- variable that was not set.
pub data Created : Type 0 where
  undefined : Created
  returned : ℤ → Listener → Created

abbrev as_created : ℤ × Listener → Created
as_created (ret, l) = Created.returned ret l

-- Both calls of `bind` failed. A first one that failed for another reason than `EADDRINUSE` is not
-- looked at.
abbrev is_refused : Socket → Bool
is_refused s = not s.binds && s.in_use && not s.binds_again

abbrev unless_refused : Socket → Listener → ℤ × Listener → Created
unless_refused s l next = if is_refused s then Created.returned (negsuc 0) l else as_created next

unfoldable pub create_server : ℕ → Socket → Listener → Created
unfolding create_tcp_server create_udp_server
create_server protocol s l =
    if protocol == 0
    then unless_refused s l (create_tcp_server s l)
    else if protocol == 1
    then unless_refused s l (create_udp_server s l)
    else Created.undefined

-- Where 0 is returned, the counts are 0 and the accepting thread goes on.
pub create_server-counting :
    (protocol : ℕ) (s : Socket) (l l' : Listener)
    → create_server protocol s l ≡ Created.returned (pos 0) l'
    → l' ≡ counting l
unfolding create_server
create_server-counting protocol s l l' e = ground arith
