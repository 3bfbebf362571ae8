-- ===== src/Session/Replying.antt =====
-- `EndPackSendData`: what is sent, and what is left.
use mathlib.Core.Path.{subst}
use star_server.Prelude.{
  ℕ, ◌≤◌, ◌<◌, ◌≡◌, refl, ◌∙◌, sym, ap, ◌⊎◌, inl, inr, Bool, true, false, ◌||◌, List, ◌++◌, Option,
  none, some, OnSome, if_both, if◌then◌else◌, ◌==◌, ltb, length, read, arith,
}
use star_server.Prelude.Writes.{length-read}
use star_server.Client.{Client}
use star_server.Io.{Protocol, write_to}
use star_server.Io.Writing.{write_to_udp}
use star_server.Io.Progress.{passes, write_to-Writes}
use star_server.Packet.{pack_data_with_packet}
use star_server.Transfer.Send.{pack_data_with_big_data}
use star_server.Session.State.{
  Server, World, Outcome, with_client, set_offline, on_write, leave_on_zero, send_or_leave,
  send_confirm_message,
}
use star_server.Session.Answer.{
  seal_packet, sealed, make_packet, emptied, on_sent, sent_confirm, send_packet, end_pack_send_data,
}
use star_server.Session.Receive.{is_one_time}
use star_server.Session.Outcomes.{Ensures, Ensures-fault, Ensures-returned, Ensures-result}

sealed-HasSize : (s : Server) (o : Option Client) → OnSome (λ c. 0 < c.send_data_size) (sealed s o)
unfolding seal_packet OnSome
sealed-HasSize s none = _
sealed-HasSize s (some c) = omega arith

make_packet-HasSize :
    (s : Server) (w : World) (c : Client) → make_packet s w ≡ some c → 0 < c.send_data_size
unfolding make_packet OnSome
make_packet-HasSize s w c e = subst (OnSome (λ c. 0 < c.send_data_size)) e (
    sealed-HasSize s (
      if w.client.file_data_sending
      then pack_data_with_big_data s.data_buffer (pack_data_with_packet w.client) w.disk
      else some (pack_data_with_packet w.client)))

-- The packet went out behind what was sent, or the client is left.
abbrev pub Sent : World → List ℕ → World → Type 0
Sent w bs w' =
    ((w'.wire.outgoing ≡ w.wire.outgoing ++ bs) × (w'.client.online ≡ w.client.online))
    ⊎ (w'.client.online ≡ false)

send_or_leave-Sent :
    (s : Server) (w : World) (bs : List ℕ)
    → s.protocol ≡ Protocol.tcp
    → length bs ≤ passes w.wire.sends
    → 0 < length bs
    → (w' : World) × (send_or_leave s w bs ≡ some w') × Sent w bs w'
unfolding send_or_leave
send_or_leave-Sent s w bs tcp h pos =
    let (p, e, writes) = write_to-Writes w.wire bs h in
    (
      leave_on_zero w p,
      ap (λ protocol. on_write (write_to protocol w.wire bs) (leave_on_zero w)) tcp
          ∙ ap (λ o. on_write o (leave_on_zero w)) e,
      elim writes.sent [
        | inl all ↦
            let nonzero : (p.size == 0) ≡ false = ground (arith, all.0) in
            rw nonzero (inl (all.1, refl))
        | inr part ↦ rw part.size (inr refl)
      ],
    )

-- On TCP, let `EndPackSendData` find something queued or a file, make a packet, and let as many
-- calls of `send` as it has bytes not fail. Then it returns. The packet went out whole behind what
-- was sent before, or the client is offline; and the queue is empty, with the next message number 0.
pub end_pack_send_data-Sent :
    (s : Server) (w : World) (c : Client)
    → s.protocol ≡ Protocol.tcp
    → (ltb 0 w.client.send_count || w.client.file_data_sending) ≡ true
    → make_packet s w ≡ some c
    → c.send_data_size ≤ passes w.wire.sends
    → (w' : World) × (end_pack_send_data s w ≡ Outcome.returned true w')
      × Sent (with_client w c) (read c.send_buffer 0 c.send_data_size) w'
      × (w'.client.send_count ≡ 0)
      × (w'.client.cur_packet_no ≡ 0)
unfolding end_pack_send_data
end_pack_send_data-Sent s w c tcp some_data made h =
    let (w', e, sent) =
      send_or_leave-Sent s (with_client w c) (read c.send_buffer 0 c.send_data_size) tcp
        (omega (arith, size)) (omega (arith, size, make_packet-HasSize s w c made)) in
    (
      emptied w',
      rw some_data (ap (send_packet s w) made ∙ ap (λ o. on_sent o emptied) e),
      sent,
      refl,
      refl,
    )
  where
    size : length (read c.send_buffer 0 c.send_data_size) ≡ c.send_data_size
    size = length-read c.send_buffer 0 c.send_data_size

send_or_leave_udp :
    (s : Server) (w : World) (bs : List ℕ)
    → s.protocol ≡ Protocol.udp
    → send_or_leave s w bs ≡ some (set_offline w)
unfolding send_or_leave
send_or_leave_udp s w bs udp =
    ap (λ protocol. on_write (write_to protocol w.wire bs) (leave_on_zero w)) udp
    ∙ ap (λ o. on_write o (leave_on_zero w)) (write_to_udp w.wire bs)

abbrev Left : World → Bool → World → Type 0
Left w ok w' = (w'.client.online ≡ false) × (w'.wire.outgoing ≡ w.wire.outgoing)

send_packet-Left :
    (s : Server) (w : World) (o : Option Client)
    → s.protocol ≡ Protocol.udp
    → Ensures (Left w) (send_packet s w o)
send_packet-Left s w none udp = Ensures-fault (Left w)
send_packet-Left s w (some c) udp =
    subst (λ o. Ensures (Left w) (on_sent o emptied))
      (sym (send_or_leave_udp s (with_client w c) (read c.send_buffer 0 c.send_data_size) udp))
      (Ensures-returned (Left w) true _ (refl, refl))

-- On UDP, whose sending is commented out, `EndPackSendData` sends nothing, and when it returns the
-- client is offline, whatever was queued.
pub end_pack_send_data-udp :
    (s : Server) (w w' : World) (ok : Bool)
    → s.protocol ≡ Protocol.udp
    → end_pack_send_data s w ≡ Outcome.returned ok w'
    → (w'.client.online ≡ false) × (w'.wire.outgoing ≡ w.wire.outgoing)
unfolding end_pack_send_data send_confirm_message
end_pack_send_data-udp s w w' ok udp e =
    Ensures-result (Left w) _ ok w'
      (if_both (Ensures (Left w)) (ltb 0 w.client.send_count || w.client.file_data_sending)
        (send_packet s w (make_packet s w)) _ (send_packet-Left s w (make_packet s w) udp)
        (subst (λ o. Ensures (Left w) (on_sent o (sent_confirm s)))
          (sym (send_or_leave_udp s w _ udp))
          (Ensures-returned (Left w) true _ (
            if_both (λ w'. Left w true w') (is_one_time s.server_type) _ (set_offline w)
              (refl, refl) (refl, refl)))))
      e
