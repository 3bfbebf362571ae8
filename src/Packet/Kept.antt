-- ===== src/Packet/Kept.antt =====
-- `_processMessagePacket` changes the arrays of messages only.
use star_server.Prelude.{
  ℕ, ◌≡◌, refl, Option, none, some, if_both, OnSome, OnSome-none, OnSome-some,
}
use star_server.Client.{Client}
use star_server.Packet.{Cursor, process_message_packet, store_messages}

-- The number of the last packet is `n`.
abbrev pub HasRef : ℕ → Client → Type 0
HasRef n c = c.pack_ref ≡ n

store_messages-HasRef :
    (c : Client) (o : Option Cursor) → OnSome (HasRef c.pack_ref) (store_messages c o)
store_messages-HasRef c none = OnSome-none _
store_messages-HasRef c (some s) = OnSome-some (HasRef c.pack_ref) _ refl

pub process_message_packet-HasRef :
    (data_buffer : ℕ) (c : Client)
    → OnSome (HasRef c.pack_ref) (process_message_packet data_buffer c)
unfolding process_message_packet
process_message_packet-HasRef data_buffer c =
    if_both (OnSome (HasRef c.pack_ref)) _ _ _ (OnSome-some (HasRef c.pack_ref) _ refl)
      (if_both (OnSome (HasRef c.pack_ref)) _ _ _ (OnSome-none _) (store_messages-HasRef c _))
