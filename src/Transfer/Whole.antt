-- ===== src/Transfer/Whole.antt =====
-- A whole file, packet after packet.
use mathlib.Core.Path.{subst}
use star_server.Prelude.{
  ℕ, ◌-◌, ◌^◌, ◌≤◌, ◌<◌, ◌≡◌, refl, ◌∙◌, sym, ap, inl, inr, true, false, Bool-cases, not, List, [],
  ◌∷◌, Option, none, some, if◌then◌else◌, ◌==◌, ==_iff, length, take_all, Mem, arith,
}
use star_server.Client.{Client}
use star_server.Packet.Queue.{Block}
use star_server.Transfer.Files.{Disk, FilePath, c_string}
use star_server.Transfer.Receive.{Received, process_message_file_data}
use star_server.Transfer.Send.{pack_data_with_big_data}
use star_server.Transfer.Underway.{IsSending, CanCarry, HasFront}
use star_server.Transfer.Step.{pack_data_with_big_data-Stores}

-- The sender, the receiver, and the receiver's disk.
pub record Ends : Type 0 where
  pub sender : Client
  pub receiver : Client
  pub disk : Disk

abbrev delivered : Client → Option Received → (Ends → Option Ends) → Option Ends
delivered c none next = none
delivered c (some out) next = next (record { sender = c; receiver = out.client; disk = out.disk })

abbrev packed : ℕ → Client → Disk → Option Client → (Ends → Option Ends) → Option Ends
packed data_buffer r d none next = none
packed data_buffer r d (some c) next =
    delivered c (process_message_file_data data_buffer (record r { recv_buffer = c.send_buffer }) d)
      next

-- Packets of messages, in each of which a piece is sent and received while a file is being sent.
unfoldable pub transfer : ℕ → Disk → List Mem → Ends → Option Ends
transfer data_buffer d [] e = some e
transfer data_buffer d (m ∷ ms) e =
    if e.sender.file_data_sending
    then packed data_buffer e.receiver e.disk
        (pack_data_with_big_data data_buffer (record e.sender { send_buffer = m }) d)
        (transfer data_buffer d ms)
    else some e

abbrev AllCarry : List Mem → List (List Block) → Type 0
AllCarry [] bss = Unit {0}
AllCarry (m ∷ ms) [] = ⊥
AllCarry (m ∷ ms) (bs ∷ bss) = CanCarry m bs × AllCarry ms bss

-- The receiver has the whole file, and the sender is done.
pub record IsWhole (path : FilePath) (file : List ℕ) (e : Ends) : Type 0 where
  pub done : e.sender.file_data_sending ≡ false
  pub content : e.disk.content path ≡ some file

transfer-stop :
    (data_buffer : ℕ) (d : Disk) (ms : List Mem) (e : Ends)
    → e.sender.file_data_sending ≡ false
    → transfer data_buffer d ms e ≡ some e
unfolding transfer
transfer-stop data_buffer d [] e h = refl
transfer-stop data_buffer d (m ∷ ms) e h = rw h refl

transfer-once :
    (data_buffer : ℕ) (d : Disk) (m : Mem) (ms : List Mem) (e : Ends) (c : Client) (out : Received)
    → e.sender.file_data_sending ≡ true
    → pack_data_with_big_data data_buffer (record e.sender { send_buffer = m }) d ≡ some c
    → process_message_file_data data_buffer
        (record e.receiver { recv_buffer = c.send_buffer })
        e.disk
      ≡ some out
    → transfer data_buffer d (m ∷ ms) e
      ≡ transfer data_buffer d ms (record { sender = c; receiver = out.client; disk = out.disk })
unfolding transfer
transfer-once data_buffer d m ms e c out sending sent received =
    ap
      (λ b.
        if b
        then packed data_buffer e.receiver e.disk
            (pack_data_with_big_data data_buffer (record e.sender { send_buffer = m }) d)
            (transfer data_buffer d ms)
        else some e)
      sending
    ∙ ap (λ o. packed data_buffer e.receiver e.disk o (transfer data_buffer d ms)) sent
    ∙ ap (λ o. delivered c o (transfer data_buffer d ms)) received

-- A client is sending a file of the disk, of fewer than 2^31 bytes, and the receiver has the front of
-- it that was sent. After more packets than bytes remain, each with messages of fewer than 61440
-- bytes, the sender has stopped and the receiver's file is the file that was sent.
pub transfer-IsWhole :
    (data_buffer : ℕ) (d : Disk) (s file : List ℕ) (ms : List Mem) (bss : List (List Block))
    (e : Ends)
    → IsSending e.sender d s file
    → HasFront e.receiver e.disk e.sender s file
    → AllCarry ms bss
    → 2 ^ 16 ≤ data_buffer
    → e.sender.big_data_send_size - e.sender.big_data_send_size_done < length ms
    → (e' : Ends) × (transfer data_buffer d ms e ≡ some e')
      × IsWhole (FilePath.received_file e.receiver.idx s) file e'
transfer-IsWhole data_buffer d s file [] bss e sending has carry fits enough = absurd (omega arith)
transfer-IsWhole data_buffer d s file (m ∷ ms) [] e sending has carry fits enough = elim carry [ ]
transfer-IsWhole data_buffer d s file (m ∷ ms) (bs ∷ bss) e sending has carry fits enough =
    let (c', sent, next, (out, received, stored)) =
      pack_data_with_big_data-Stores data_buffer e.sender d s file m bs e.receiver e.disk sending
        carry.0 fits has in
    let e1 : Ends = record { sender = c'; receiver = out.client; disk = out.disk } in
    let once : transfer data_buffer d (m ∷ ms) e ≡ transfer data_buffer d ms e1 =
      transfer-once data_buffer d m ms e c' out sending.sending sent received in
    elim (Bool-cases (c'.big_data_send_size_done == e.sender.big_data_send_size)) [
      | inl last ↦
          let stopped : c'.file_data_sending ≡ false = next.still ∙ ap not last in
          (
            e1,
            once ∙ transfer-stop data_buffer d ms e1 stopped,
            record {
              done = stopped;
              content =
                  stored.content
                  ∙ ap some (
                      take_all c'.big_data_send_size_done file
                        (omega (arith, sending.size, (==_iff _ _).0 last)));
            },
          )
      | inr more ↦
          let path : FilePath.received_file out.client.idx s
              ≡ FilePath.received_file e.receiver.idx s =
            ap (λ i. FilePath.received_file i s) stored.idx in
          let sending' : IsSending c' d s file = record {
            sending = next.still ∙ ap not more;
            name_length = ap length next.name ∙ sending.name_length;
            name_string = ap c_string next.name ∙ sending.name_string;
            there = sending.there;
            size = sending.size ∙ sym next.size;
            small = omega (arith, next.size, sending.small);
            so_far = omega (arith, next.size, next.done, sending.so_far);
          } in
          let has' : HasFront out.client out.disk c' s file = record {
            writable =
                ap out.disk.writable path
                ∙ ap (λ f. f (FilePath.received_file e.receiver.idx s)) stored.writable
                ∙ has.writable;
            front = inr (stored.named ∙ sym next.name, ap out.disk.content path ∙ stored.content);
          } in
          let (e2, there, whole) =
            transfer-IsWhole data_buffer d s file ms bss e1 sending' has' carry.1 fits
              (ground (arith, next.size, next.done, carry.0.room, sending.so_far)) in
          (e2, once ∙ there, subst (λ p. IsWhole p file e2) path whole)
    ]
