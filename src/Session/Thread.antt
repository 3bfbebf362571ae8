-- ===== src/Session/Thread.antt =====
-- `STSV_ClientThreadFuncAlway`: its first statements and its loop. The results of `poll` are a list: the
-- socket is ready, or the time is over. The game's handlers are parameters.
use star_server.Prelude.{ℕ, Bool, true, false, List, [], ◌∷◌}
use star_server.Session.State.{Server, World, Outcome, with_client, set_offline}
use star_server.Session.Receive.{next_pack_no}
use star_server.Session.Answer.{client_round}

-- `left`: the loop is over. `running`: the list of results is. The other two: a call in it ends so.
pub data Ending : Type 0 where
  fault : Ending
  waiting : Ending
  running : World → Ending
  left : World → Ending

-- The numbers that the packets had for which the request handler was called, and how the loop ends.
pub record Trace : Type 0 where
  pub numbers : List ℕ
  pub ending : Ending

abbrev pub ended : Ending → Trace
ended e = record { numbers = []; ending = e }

abbrev noted : ℕ → Trace → Trace
noted n t = record t { numbers = n ∷ t.numbers }

-- What follows a round, for a packet with the number n.
abbrev pub after_round : ℕ → Outcome → (World → Trace) → Trace
after_round n Outcome.fault next = ended Ending.fault
after_round n Outcome.waiting next = ended Ending.waiting
after_round n (Outcome.returned true w) next = noted n (next w)
after_round n (Outcome.returned false w) next = next w

-- `while (client->online)`
unfoldable pub client_loop : Server → (World → World) → List Bool → World → Trace
client_loop s request [] w = elim w.client.online [
  | true ↦ ended (Ending.running w)
  | false ↦ ended (Ending.left w)
]
client_loop s request (ready ∷ polls) w = elim w.client.online [
  | false ↦ ended (Ending.left w)
  | true ↦ elim ready [
    | true ↦ after_round (next_pack_no w) (client_round s request w) (client_loop s request polls)
    | false ↦ client_loop s request polls (set_offline w)
  ]
]

abbrev pub start : World → World
start w = with_client w (record w.client { thread = true; send_done = false; send_data_size = 0 })

abbrev pub greet : Bool → (World → World) → World → World
greet true connect w = connect w
greet false connect w = w

-- `STSV_ClientThreadFuncAlway` up to the end of its loop.
unfoldable pub client_thread :
    Server → (World → World) → (World → World) → List Bool → World → Trace
client_thread s connect request polls w =
    client_loop s request polls (greet w.client.online connect (start w))
