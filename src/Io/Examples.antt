-- ===== src/Io/Examples.antt =====
-- The theorems on reading and writing, on a socket that fails and splits.
use star_server.Prelude.{[], ◌∷◌, none, some, Mem, false, arith, ◌≡◌}
use star_server.Io.{Wire, Got, Put, Protocol, read_from, write_to}
use star_server.Io.Reading.{Reads}
use star_server.Io.Writing.{Writes}
use star_server.Io.Progress.{passes, read_from-Reads, write_to-Writes}

abbrev socket : Wire
socket = record {
  incoming = 1 ∷ 2 ∷ 3 ∷ 4 ∷ [];
  recvs = none ∷ some 2 ∷ none ∷ some 9 ∷ some 1 ∷ [];
  outgoing = 7 ∷ [];
  sends = none ∷ some 1 ∷ some 5 ∷ [];
}

blank : Mem
blank i = 0

read_from-Reads_example :
    (g : Got) × (read_from socket blank 10 3 false ≡ some g) × Reads socket blank 10 0 3 g
read_from-Reads_example = read_from-Reads socket blank 10 3 (unfold passes in omega arith)

write_to-Writes_example :
    (p : Put) × (write_to Protocol.tcp socket (8 ∷ 9 ∷ []) ≡ some p)
    × Writes socket 0 (8 ∷ 9 ∷ []) p
write_to-Writes_example = write_to-Writes socket (8 ∷ 9 ∷ []) (unfold passes in omega arith)
