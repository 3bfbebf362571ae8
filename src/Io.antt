-- ===== src/Io.antt =====
-- `ReadFrom` and `WriteTo` of StarServer/StarSocketServer.cpp, on a socket. What `recv` and `send`
-- return is a plan, one entry for each call: `none` is -1, and `some k` lets at most k bytes pass,
-- of those that are asked for and there. The plan's end is a call that does not return.
pub mod Reading
pub mod Writing
pub mod Progress
pub mod Complete
pub mod Sent
mod Examples
use star_server.Prelude.{
  ℕ, zero, suc, ◌+◌, ◌-◌, Bool, true, false, List, [], ◌∷◌, ◌++◌, Option, none, some, if◌then◌else◌,
  ltb, ◌==◌, min, length, take, drop, Mem, read, write, ℤ, pos, negsuc,
}

pub record Wire : Type 0 where
  pub incoming : List ℕ
  pub recvs : List (Option ℕ)
  pub outgoing : List ℕ
  pub sends : List (Option ℕ)

-- What `ReadFrom` leaves: its result, the memory and the socket.
pub record Got : Type 0 where
  pub size : ℤ
  pub memory : Mem
  pub wire : Wire

-- `recv` of at most `n` bytes, where `k` may pass.
abbrev pub arrived : ℕ → ℕ → List ℕ → List ℕ
arrived n k incoming = take (min k n) incoming

abbrev pub taken : Wire → List (Option ℕ) → ℕ → Wire
taken w recvs r = record w { incoming = drop r w.incoming; recvs = recvs }

-- `while (bytes_read < count)`, with the inner loop that repeats `recv` while it returns -1. `left`
-- is `count - bytes_read`, and `a` the address in `buf`. `none`: the call does not return.
unfoldable pub read_loop : List (Option ℕ) → Wire → ℕ → Mem → ℕ → ℕ → Option Got
read_loop recvs w bytes_read m a zero =
    some (record { size = pos bytes_read; memory = m; wire = record w { recvs = recvs } })
read_loop [] w bytes_read m a (suc left) = none
read_loop (none ∷ recvs) w bytes_read m a (suc left) = read_loop recvs w bytes_read m a (suc left)
read_loop (some k ∷ recvs) w bytes_read m a (suc left) =
    let got = arrived (suc left) k w.incoming in
    let r = length got in
    let rest =
      read_loop recvs (taken w recvs r) (bytes_read + r) (write m a got) (a + r) (suc left - r) in
    if r == 0 then some (record { size = pos 0; memory = m; wire = taken w recvs 0 }) else rest

-- The one `recvfrom` of the other branch.
unfoldable pub read_once : List (Option ℕ) → Wire → Mem → ℕ → ℕ → Option Got
read_once [] w m a count = none
read_once (none ∷ recvs) w m a count =
    some (record { size = negsuc 0; memory = m; wire = record w { recvs = recvs } })
read_once (some k ∷ recvs) w m a count =
    let got = arrived count k w.incoming in
    some (record {
      size = pos (length got);
      memory = write m a got;
      wire = taken w recvs (length got);
    })

-- `ReadFrom`
unfoldable pub read_from : Wire → Mem → ℕ → ℕ → Bool → Option Got
read_from w m a count false = read_loop w.recvs w 0 m a count
read_from w m a count true = read_once w.recvs w m a count

pub data Protocol : Type 0 where
  tcp : Protocol
  udp : Protocol

-- What `WriteTo` leaves: its result and the socket.
pub record Put : Type 0 where
  pub size : ℕ
  pub wire : Wire

abbrev pub passed : Wire → List (Option ℕ) → List ℕ → Wire
passed w sends bs = record w { outgoing = w.outgoing ++ bs; sends = sends }

-- `while (byte_send < count)`, over the bytes that are left.
unfoldable pub write_loop : List (Option ℕ) → Wire → ℕ → List ℕ → Option Put
write_loop sends w byte_send [] =
    some (record { size = byte_send; wire = record w { sends = sends } })
write_loop [] w byte_send (b ∷ bs) = none
write_loop (none ∷ sends) w byte_send (b ∷ bs) = write_loop sends w byte_send (b ∷ bs)
write_loop (some k ∷ sends) w byte_send (b ∷ bs) =
    let sent = take k (b ∷ bs) in
    let rest = write_loop sends (passed w sends sent) (byte_send + length sent) (drop k (b ∷ bs)) in
    if k == 0 then some (record { size = 0; wire = record w { sends = sends } }) else rest

-- `WriteTo`. The code for UDP is commented out, and 0 is returned.
unfoldable pub write_to : Protocol → Wire → List ℕ → Option Put
write_to Protocol.tcp w bs = write_loop w.sends w 0 bs
write_to Protocol.udp w bs = some (record { size = 0; wire = w })
