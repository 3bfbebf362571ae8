-- ===== src/Packet/Received.antt =====
-- `_processMessagePacket` on a whole packet.
use mathlib.Core.Path.{subst}
use star_server.Prelude.{
  split_append, ℕ, ◌+◌, ◌*◌, ◌^◌, ◌≤◌, ◌<◌, ◌≡◌, refl, sym, ap, ◌∙◌, List, [], ◌∷◌, ◌++◌, map,
  Option, none, some, if◌then◌else◌, ◌==◌, ltb, false, length, length-append, Mem, read, arith,
}
use star_server.Prelude.Writes.{read-add, length-read}
use star_server.Client.{Client, client_default_buffer, client_default_max_block}
use star_server.Packet.{
  store_messages, Cursor, process_message_packet, parse_words, read_table, rounds16,
  pack_header_size,
}
use star_server.Packet.Queue.{Block}
use star_server.Packet.Layout.{tagged, next_tag, word, bytes_of}
use star_server.Packet.Packed.{IsPacked}
use star_server.Packet.Blocks.{contents, Follows, Short}
use star_server.Packet.Messages.{messages_of, StartsAtZero, parse_words-start}

Follows-bytes :
    (m : Mem) (a : ℕ) (tb : List Block)
    → read m a (length (bytes_of tb)) ≡ bytes_of tb
    → Follows m a tb
unfolding bytes_of
Follows-bytes m a [] e = _
Follows-bytes m a ((t, bs) ∷ rest) e =
    let parts =
      split_append (read m a (length bs)) bs (read m (a + length bs) (length (bytes_of rest)))
        (bytes_of rest) (length-read m a (length bs))
        (sym (read-add m a (length bs) (length (bytes_of rest)))
          ∙ ap (read m a) (sym (length-append bs (bytes_of rest)))
          ∙ e) in
    (parts.0, Follows-bytes m (a + length bs) rest parts.1)

pub bytes_of-tagged : (cur cont : ℕ) (bs : List Block) → bytes_of (tagged cur cont bs) ≡ bytes_of bs
unfolding bytes_of tagged
bytes_of-tagged cur cont [] = refl
bytes_of-tagged cur cont ((p, b) ∷ rest) =
    ap (◌++◌ b) (bytes_of-tagged p (next_tag cur p cont) rest)

-- No block is longer than a block may be.
abbrev pub Blocked : List Block → Type 0
Blocked [] = Unit {0}
Blocked ((p, b) ∷ rest) = (length b ≤ client_default_buffer) × Blocked rest

pub Short-tagged : (cur cont : ℕ) (bs : List Block) → Blocked bs → Short (tagged cur cont bs)
unfolding tagged
Short-tagged cur cont [] h = _
Short-tagged cur cont ((p, b) ∷ rest) h =
    (omega (arith, h.0), Short-tagged p (next_tag cur p cont) rest h.1)

-- The first block belongs to packet number 0, from which the bit is counted.
abbrev pub FirstZero : List Block → Type 0
FirstZero [] = Unit {0}
FirstZero ((p, b) ∷ rest) = p ≡ 0

StartsAtZero-tagged : (bs : List Block) → FirstZero bs → StartsAtZero (tagged 0 0 bs)
unfolding tagged next_tag
StartsAtZero-tagged [] z = _
StartsAtZero-tagged ((p, b) ∷ rest) z = ground arith

-- The call returns, and the arrays describe these messages.
abbrev pub Receives : Option Client → List (List ℕ) → Type 0
Receives r ms =
    (c' : Client) × (r ≡ some c')
    × (contents c'.recv_buffer c'.recv_msg c'.recv_msg_size c'.recv_count ≡ ms)

module _ (data_buffer : ℕ) (c : Client) (bs : List Block) (packed : IsPacked c.recv_buffer bs)
    (some_block : 0 < length bs) (fits : pack_header_size + 2 * length bs ≤ data_buffer)
    (few : length bs < 2 ^ 15) where
  start : Cursor
  start = record {
    cont = 1;
    count = 0;
    start = pack_header_size + 2 * length bs;
    msg = c.recv_msg;
    msg_size = c.recv_msg_size;
  }

  processed :
      (s : Cursor)
      → parse_words start (map word (tagged 0 0 bs)) ≡ some s
      → process_message_packet data_buffer c
        ≡ some (record c { recv_msg = s.msg; recv_msg_size = s.msg_size; recv_count = s.count })
  unfolding process_message_packet start
  processed s e =
      ap
        (λ n.
          if n == 0
          then some c
          else if ltb data_buffer (pack_header_size + 2 * rounds16 n)
          then none
          else store_messages c (
              parse_words
                (record {
                  cont = 1;
                  count = 0;
                  start = pack_header_size + 2 * n;
                  msg = c.recv_msg;
                  msg_size = c.recv_msg_size;
                })
                (read_table c.recv_buffer pack_header_size (rounds16 n))))
        packed.count
      ∙ rw (counted, rounds, in_buffer, packed.table, e) refl
    where
      counted : (length bs == 0) ≡ false
      counted = ground arith

      rounds : rounds16 (length bs) ≡ length bs
      rounds = ground arith

      in_buffer : ltb data_buffer (pack_header_size + 2 * length bs) ≡ false
      in_buffer = ground arith

  found :
      Blocked bs
      → FirstZero bs
      → length (messages_of (tagged 0 0 bs)) ≤ client_default_max_block
      → Receives (process_message_packet data_buffer c) (messages_of (tagged 0 0 bs))
  unfolding start
  found blocked z l =
      let (s, e, same) =
        parse_words-start c.recv_buffer (pack_header_size + 2 * length bs) c.recv_msg
          c.recv_msg_size (tagged 0 0 bs) (StartsAtZero-tagged bs z)
          (Follows-bytes c.recv_buffer _ (tagged 0 0 bs) (
            subst (λ t. read c.recv_buffer (pack_header_size + 2 * length bs) (length t) ≡ t)
              (sym (bytes_of-tagged 0 0 bs)) packed.payload))
          (Short-tagged 0 0 bs blocked) l in
      (_, processed s e, same)

-- Let a receive buffer hold a packet of n blocks, 0 < n < 2^15, of at most 1024 bytes each, with the
-- bits that change where the packet number does, counted from packet number 0, and let its table
-- fit the buffer. When the blocks join to at most 64 messages, `_processMessagePacket` returns, and
-- the arrays it leaves describe these messages, in order and byte for byte.
pub process_message_packet-messages :
    (data_buffer : ℕ) (c : Client) (bs : List Block)
    → IsPacked c.recv_buffer bs
    → 0 < length bs
    → pack_header_size + 2 * length bs ≤ data_buffer
    → length bs < 2 ^ 15
    → Blocked bs
    → FirstZero bs
    → length (messages_of (tagged 0 0 bs)) ≤ client_default_max_block
    → Receives (process_message_packet data_buffer c) (messages_of (tagged 0 0 bs))
process_message_packet-messages = found
