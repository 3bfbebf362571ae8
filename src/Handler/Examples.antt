-- ===== src/Handler/Examples.antt =====
-- The handler on the packet of two messages.
use star_server.Prelude.{◌≡◌, refl, some, set_at, arith}
use star_server.Client.{Client}
use star_server.Packet.{process_message_packet}
use star_server.Packet.Queue.{chunks, cut}
use star_server.Packet.Rejoin.{queue_of}
use star_server.Packet.Examples.{fresh, fresh-IsFresh, messages, receiver}
use star_server.Handler.{visit_all}
use star_server.Handler.Visiting.{visit_all-sent}

visit_all-sent_example :
    (r' : Client) × (process_message_packet 1000 receiver ≡ some r')
    × (visit_all (set_at (λ i. fresh) 3 r') 3 ≡ messages)
unfolding chunks
visit_all-sent_example =
    visit_all-sent fresh receiver messages 1000 (λ i. fresh) 3 fresh-IsFresh
      (omega arith, (omega arith, _)) (omega arith) (unfold queue_of cut in omega arith)
      (unfold queue_of cut in omega arith) (λ k h. refl)
