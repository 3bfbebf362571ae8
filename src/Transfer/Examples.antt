-- ===== src/Transfer/Examples.antt =====
-- The theorems on a transfer, on a file of three bytes.
use star_server.Prelude.{
  ℕ, ◌-◌, ◌*◌, ◌^◌, ◌≡◌, refl, inl, true, false, List, [], ◌∷◌, none, some, if◌then◌else◌, ◌==◌,
  take, Mem, get16, get32, arith,
}
use star_server.Client.{Client}
use star_server.Packet.Examples.{fresh}
use star_server.Packet.Layout.{tagged, bytes_of}
use star_server.Transfer.Files.{Disk, FilePath, c_string}
use star_server.Transfer.Send.{pack_data_with_big_data}
use star_server.Transfer.Receive.{process_message_file_data}
use star_server.Transfer.Stored.{Stores}
use star_server.Transfer.Underway.{IsSending, CanCarry, HasFront, Advances}
use star_server.Transfer.Step.{pack_data_with_big_data-Stores}
use star_server.Transfer.Whole.{Ends, IsWhole, transfer, transfer-IsWhole}

abbrev file : List ℕ
file = 11 ∷ 22 ∷ 33 ∷ []

-- The name "a", in 32 bytes.
abbrev name : List ℕ
name =
    97 ∷ 0 ∷ 0 ∷ 0 ∷ 0 ∷ 0 ∷ 0 ∷ 0 ∷ 0 ∷ 0 ∷ 0 ∷ 0 ∷ 0 ∷ 0 ∷ 0 ∷ 0 ∷ 0 ∷ 0 ∷ 0 ∷ 0 ∷ 0 ∷ 0 ∷ 0 ∷ 0
    ∷ 0 ∷ 0 ∷ 0 ∷ 0 ∷ 0 ∷ 0 ∷ 0 ∷ 0 ∷ []

abbrev sender : Client
sender = record fresh { file_send_name = name; file_data_sending = true; big_data_send_size = 3 }

abbrev sender_disk : Disk
sender_disk = record {
  content = λ p. elim p [ FilePath.db_file s ↦ some file | _ ↦ none ];
  writable = λ p. false;
}

abbrev receiver_disk : Disk
receiver_disk = record { content = λ p. none; writable = λ p. true }

-- A packet of no messages.
abbrev empty_packet : Mem
empty_packet i = if i == 8 then 4 else 0

sender-IsSending : IsSending sender sender_disk (97 ∷ []) file
unfolding c_string
sender-IsSending = record {
  sending = refl;
  name_length = refl;
  name_string = refl;
  there = refl;
  size = refl;
  small = omega arith;
  so_far = omega arith;
}

empty_packet-CanCarry : CanCarry empty_packet []
unfolding get16 get32 bytes_of tagged
empty_packet-CanCarry = record {
  packed = record { count = refl; table = refl; payload = refl };
  blocked = _;
  few = omega arith;
  size_all = refl;
  room = omega arith;
}

receiver-HasFront : HasFront fresh receiver_disk sender (97 ∷ []) file
receiver-HasFront = record { writable = refl; front = inl refl }

pack_data_with_big_data-Stores_example :
    (c' : Client) × (pack_data_with_big_data 65536
        (record sender { send_buffer = empty_packet })
        sender_disk
      ≡ some c')
    × Advances sender (60 * 2 ^ 10 - get32 empty_packet 8) c'
    × Stores
        (process_message_file_data 65536
          (record fresh { recv_buffer = c'.send_buffer })
          receiver_disk)
        3
        receiver_disk
        (FilePath.received_file 3 (97 ∷ []))
        (take c'.big_data_send_size_done file)
        name
pack_data_with_big_data-Stores_example =
    pack_data_with_big_data-Stores 65536 sender sender_disk (97 ∷ []) file empty_packet [] fresh
      receiver_disk sender-IsSending empty_packet-CanCarry (omega arith) receiver-HasFront

abbrev packets : List Mem
packets = empty_packet ∷ empty_packet ∷ empty_packet ∷ empty_packet ∷ []

abbrev start : Ends
start = record { sender = sender; receiver = fresh; disk = receiver_disk }

transfer-IsWhole_example :
    (e : Ends) × (transfer 65536 sender_disk packets start ≡ some e)
    × IsWhole (FilePath.received_file 3 (97 ∷ [])) file e
transfer-IsWhole_example =
    transfer-IsWhole 65536 sender_disk (97 ∷ []) file packets ([] ∷ [] ∷ [] ∷ [] ∷ []) start
      sender-IsSending receiver-HasFront
      (
        empty_packet-CanCarry,
        (empty_packet-CanCarry, (empty_packet-CanCarry, (empty_packet-CanCarry, _))),
      )
      (omega arith) (omega arith)
