-- ===== src/Session/Sending.antt =====
-- What `EndPackSendData` leaves alone: the number of the last packet.
use star_server.Prelude.{
  ℕ, ◌≡◌, refl, Bool, true, List, Option, none, some, if_both, OnSome, OnSome-none, OnSome-some,
  ltb, ◌||◌, ◌==◌,
}
use star_server.Client.{Client}
use star_server.Packet.{pack_data_with_packet}
use star_server.Packet.Kept.{HasRef}
use star_server.Io.{Put, write_to}
use star_server.Transfer.Files.{c_string, FilePath}
use star_server.Transfer.Send.{pack_data_with_big_data, on_string, send_from}
use star_server.Session.State.{
  Server, World, Outcome, with_client, on_write, leave_on_zero, send_or_leave, send_confirm_message,
}
use star_server.Session.Receive.{is_one_time}
use star_server.Session.Answer.{
  pack_data_with_crc16, seal_packet, sealed, make_packet, emptied, on_sent, send_packet,
  sent_confirm, end_pack_send_data,
}
use star_server.Session.Outcomes.{Ensures, Ensures-fault}

abbrev WithRef : ℕ → World → Type 0
WithRef n w = w.client.pack_ref ≡ n

pack_data_with_big_data-HasRef :
    (data_buffer : ℕ) (c : Client) (w : World)
    → OnSome (HasRef c.pack_ref) (pack_data_with_big_data data_buffer c w.disk)
unfolding pack_data_with_big_data
pack_data_with_big_data-HasRef data_buffer c w = named (c_string c.file_send_name)
  where
    opened : (file : Option (List ℕ)) → OnSome (HasRef c.pack_ref) (send_from data_buffer c file)
    opened none = OnSome-some (HasRef c.pack_ref) c refl
    opened (some file) =
        if_both (OnSome (HasRef c.pack_ref)) _ _ _ (OnSome-none _)
          (OnSome-some (HasRef c.pack_ref) _ refl)

    named :
        (name : Option (List ℕ))
        → OnSome
            (HasRef c.pack_ref)
            (on_string name (λ s. send_from data_buffer c (w.disk.content (FilePath.db_file s))))
    named none = OnSome-none _
    named (some name) = opened (w.disk.content (FilePath.db_file name))

sealed-HasRef :
    (s : Server) (n : ℕ) (o : Option Client) → OnSome (HasRef n) o → OnSome (HasRef n) (sealed s o)
unfolding OnSome seal_packet pack_data_with_crc16
sealed-HasRef s n none h = h
sealed-HasRef s n (some c) h = h

make_packet-HasRef : (s : Server) (w : World) → OnSome (HasRef w.client.pack_ref) (make_packet s w)
unfolding make_packet pack_data_with_packet
make_packet-HasRef s w = sealed-HasRef s w.client.pack_ref _ (
    if_both (OnSome (HasRef w.client.pack_ref)) w.client.file_data_sending _ _
      (pack_data_with_big_data-HasRef s.data_buffer (pack_data_with_packet w.client) w)
      (OnSome-some (HasRef w.client.pack_ref) _ refl))

send_or_leave-WithRef :
    (s : Server) (n : ℕ) (w : World) (bs : List ℕ)
    → WithRef n w
    → OnSome (WithRef n) (send_or_leave s w bs)
unfolding send_or_leave
send_or_leave-WithRef s n w bs h = written (write_to s.protocol w.wire bs)
  where
    written : (o : Option Put) → OnSome (WithRef n) (on_write o (leave_on_zero w))
    written none = OnSome-none _
    written (some p) = OnSome-some (WithRef n) _ (if_both (WithRef n) (p.size == 0) _ _ h h)

-- A call that returns, returns true and leaves the number.
abbrev pub AnswersWith : ℕ → Bool → World → Type 0
AnswersWith n ok w = (ok ≡ true) × WithRef n w

on_sent-WithRef :
    (n : ℕ) (o : Option World) (next : World → World)
    → OnSome (WithRef n) o
    → ((w : World) → WithRef n w → WithRef n (next w))
    → Ensures (AnswersWith n) (on_sent o next)
unfolding Ensures OnSome
on_sent-WithRef n none next h k = _
on_sent-WithRef n (some w) next h k = (refl, k w h)

-- `EndPackSendData` leaves the number of the last packet.
pub end_pack_send_data-WithRef :
    (s : Server) (w : World) → Ensures (AnswersWith w.client.pack_ref) (end_pack_send_data s w)
unfolding end_pack_send_data send_confirm_message OnSome
end_pack_send_data-WithRef s w =
    if_both Kept (ltb 0 w.client.send_count || w.client.file_data_sending) _ _
      (sent_packet (make_packet s w) (make_packet-HasRef s w))
      (on_sent-WithRef w.client.pack_ref _ (sent_confirm s)
        (send_or_leave-WithRef s w.client.pack_ref w _ refl)
        (λ w' h. if_both (WithRef w.client.pack_ref) (is_one_time s.server_type) _ _ h h))
  where
    Kept : Outcome → Type 0
    Kept = Ensures (AnswersWith w.client.pack_ref)

    sent_packet :
        (o : Option Client) → OnSome (HasRef w.client.pack_ref) o → Kept (send_packet s w o)
    sent_packet none h = Ensures-fault (AnswersWith w.client.pack_ref)
    sent_packet (some c) h =
        on_sent-WithRef w.client.pack_ref _ emptied
          (send_or_leave-WithRef s w.client.pack_ref (with_client w c) _ h) (λ w' k. k)
