-- ===== src/Slots/Direct.antt =====
-- `Read` and `WriteAll` of StarServer/StarSocketServer.cpp, on the sockets of the slots. Nothing calls
-- them.
pub mod Once
use star_server.Prelude.{
  ℕ, zero, suc, ◌+◌, ◌-◌, Bool, true, false, List, [], ◌∷◌, Option, none, some, if◌then◌else◌, ltb,
  ◌==◌, length, take, set_at, Mem, write, ℤ, pos, negsuc,
}
use star_server.Io.{Wire, Got, arrived, taken, passed, read_once}
use star_server.Slots.Sockets.{Net, on_net}

-- `while (this_read < 0)`: the first call of `recv` that does not return -1.
unfoldable pub first_read : List (Option ℕ) → Wire → Mem → ℕ → ℕ → Option Got
first_read [] w m a count = none
first_read (none ∷ recvs) w m a count = first_read recvs w m a count
first_read (some k ∷ recvs) w m a count = read_once (some k ∷ recvs) w m a count

-- The rest of `while (bytes_read < count)`, and of `while (bytes_send < count)`: what the one call let
-- pass is not reset, so that no other call is made, and it is added in each round. `none`: it is still
-- less than the count when the rounds are over.
unfoldable pub add_again : ℕ → ℕ → ℕ → ℕ → Option ℕ
add_again zero this_time count bytes = if ltb bytes count then none else some bytes
add_again (suc f) this_time count bytes =
    let rest = add_again f this_time count (bytes + this_time) in
    if ltb bytes count then rest else some bytes

abbrev as_size : ℤ → ℕ
as_size (pos n) = n
as_size (negsuc n) = 0

abbrev with_size : ℤ → Got → Got
with_size n got = record got { size = n }

-- The blocking version behind its first `recv`: 0 is returned, or the loop goes on and `count` is.
abbrev pub after_loop : ℕ → Got → Option ℕ → Option Got
after_loop count got none = none
after_loop count got (some bytes) = some (with_size (pos count) got)

abbrev pub after_first : ℕ → Option Got → Option Got
after_first count none = none
after_first count (some got) =
    if as_size got.size == 0
    then some (with_size (pos 0) got)
    else after_loop count got (add_again count (as_size got.size) count (as_size got.size))

-- The other version, behind its one `recv`.
abbrev pub after_one : ℕ → Option Got → Option Got
after_one count none = none
after_one count (some got) =
    some
      (elim got.size [ negsuc n ↦ got | pos n ↦ if n == 0 then got else with_size (pos count) got ])

-- `Read` of `count` bytes into memory from `a` on, from a socket with the flag `NonBlocking`.
unfoldable pub read_client : Bool → Wire → Mem → ℕ → ℕ → Option Got
read_client true w m a count = after_one count (read_once w.recvs w m a count)
read_client false w m a zero = some (record { size = pos 0; memory = m; wire = w })
read_client false w m a (suc n) = after_first (suc n) (first_read w.recvs w m a (suc n))

-- `while (this_write < 0)`: what the first call of `sendto` that does not return -1 lets pass.
unfoldable pub first_write : List (Option ℕ) → Wire → List ℕ → Option (ℕ × Wire)
first_write [] w bs = none
first_write (none ∷ sends) w bs = first_write sends w bs
first_write (some k ∷ sends) w bs = some (length (take k bs), passed w sends (take k bs))

abbrev pub keep_wire : Wire → Option ℕ → Option Wire
keep_wire w none = none
keep_wire w (some bytes) = some w

abbrev pub after_write : ℕ → Option (ℕ × Wire) → Option Wire
after_write count none = none
after_write count (some (this_write, w)) = keep_wire w (add_again count this_write count this_write)

-- The one `sendto` of the other version.
unfoldable pub write_once : List (Option ℕ) → Wire → List ℕ → Option Wire
write_once [] w bs = none
write_once (none ∷ sends) w bs = some (record w { sends = sends })
write_once (some k ∷ sends) w bs = some (passed w sends (take k bs))

-- What `WriteAll` does for a client that is online, given its flag `NonBlocking`.
unfoldable pub write_client : Bool → Wire → List ℕ → Option Wire
write_client true w bs = write_once w.sends w bs
write_client false w [] = some w
write_client false w (b ∷ bs) = after_write (length (b ∷ bs)) (first_write w.sends w (b ∷ bs))

abbrev put_wire : ℕ → Net → Option Wire → Option Net
put_wire d n none = none
put_wire d n (some w) = some (record n { wires = set_at n.wires d w })

abbrev write_slot : List ℕ → ℕ → Net → Option Net
write_slot bs i n =
    if (n.slots.clients i).online
    then put_wire (n.socket i) n (write_client (n.non_blocking i) (n.wires (n.socket i)) bs)
    else some n

-- The loop of `WriteAll`, with k slots left from i on.
unfoldable pub write_slots : List ℕ → ℕ → ℕ → Net → Option Net
write_slots bs zero i n = some n
write_slots bs (suc k) i n = on_net (write_slot bs i n) (write_slots bs k (i + 1))

-- `WriteAll`, whose loop begins with the slot 1.
unfoldable pub write_all : List ℕ → Net → Option Net
write_all bs n = write_slots bs (n.slots.max_connection - 1) 1 n
