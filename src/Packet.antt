-- ===== src/Packet.antt =====
-- The packet of many messages, StarServer/StarSocketServer.cpp: `STSV_SendData` queues a message as
-- blocks, `_PackDataWithPacket` lays the blocks out in the send buffer, `_processMessagePacket`
-- finds the messages in a receive buffer.
pub mod Queue
pub mod Filling
pub mod Send
pub mod Layout
pub mod Packed
pub mod Blocks
pub mod Messages
pub mod Kept
pub mod Rejoin
pub mod Received
pub mod RoundTrip
pub mod Examples
use star_server.Prelude.{
  ℕ, zero, suc, ◌+◌, ◌-◌, ◌*◌, ◌/◌, ◌%◌, ◌^◌, bit_or, bit_and, Bool, true, false, List, [], ◌∷◌,
  Option, none, some, if◌then◌else◌, ltb, leb, ◌==◌, not, length, take, drop, u8, u16, u32, Mem,
  read, write, set_at, bytes16, bytes32, get16,
}
use star_server.Client.{Client, client_default_buffer, client_default_max_block, block_address}

-- `STSOCKMSGDATA_PACKDATASIZE`: 2 bytes of type, 2 of fromID, 4 of packNo, 4 of sizeAll, 2 of crc,
-- 2 of numData; the table of sizes stands behind it.
abbrev pub pack_header_size : ℕ
pack_header_size = 16

abbrev pub sockmsg_packdatasize : ℕ
sockmsg_packdatasize = 0x0001

-- -1 as a 16-bit pattern.
abbrev pub sockid_server : ℕ
sockid_server = 0xffff

abbrev pub max_block : ℕ
max_block = client_default_max_block - 2

-- One block of `STSV_SendData`: the copy and the three fields behind it.
pub put_block : Client → List ℕ → Client
put_block c bs = record c {
  send_buffer = write c.send_buffer (block_address c.send_count) bs;
  send_msg_size = set_at c.send_msg_size c.send_count (length bs);
  send_packet_no = set_at c.send_packet_no c.send_count (u8 c.cur_packet_no);
  send_count = c.send_count + 1;
}

-- The two branches of `while (fillSize)`: the last piece whole, or a full block.
pub block_part : List ℕ → List ℕ
block_part bs = if leb (length bs) client_default_buffer then bs else take client_default_buffer bs

pub rest_part : List ℕ → List ℕ
rest_part bs = if leb (length bs) client_default_buffer then [] else drop client_default_buffer bs

-- `while (fillSize)`, over the bytes that are left to send. A round takes one of the blocks that
-- are free, so `max_block` rounds are enough.
pub fill_blocks : ℕ → Client → List ℕ → Client
fill_blocks zero c bs = c
fill_blocks (suc f) c [] = c
fill_blocks (suc f) c (b ∷ bs) =
    let c' = put_block c (block_part (b ∷ bs)) in
    let rest = fill_blocks f c' (rest_part (b ∷ bs)) in
    if leb max_block c'.send_count then c' else rest

-- `STSV_SendData`; the size is the length of the buffer. The mutex is held throughout.
pub send_data : Client → List ℕ → Client
send_data c buffer =
    if ltb c.send_count max_block
    then record (fill_blocks max_block c buffer) { cur_packet_no = u16 (c.cur_packet_no + 1) }
    else c

-- `for (i...) sumSize += client->sendBufferMSGSize[i]`
unfoldable pub sum_sizes : (ℕ → ℕ) → ℕ → ℕ → ℕ
sum_sizes size i zero = 0
sum_sizes size i (suc n) = size i + sum_sizes size (i + 1) n

-- `if (curPacket != sendPacketNo[i]) continuePack = 1 - continuePack`, in a `u16`.
unfoldable pub toggle : ℕ → ℕ → ℕ → ℕ
toggle cur num cont = if cur == num then cont else u16 (1 + 2 ^ 16 - cont)

abbrev pub table_word : ℕ → ℕ → ℕ
table_word size cont = u16 (bit_or size (cont * 2 ^ 11))

-- The second loop of `_PackDataWithPacket`: the size of each block, with a bit that changes with
-- the message.
unfoldable pub pack_table : Client → ℕ → ℕ → ℕ → ℕ → Mem → Mem
pack_table c i zero cur cont m = m
pack_table c i (suc n) cur cont m =
    let cont' = toggle cur (c.send_packet_no i) cont in
    pack_table c (i + 1) n (c.send_packet_no i) cont'
      (write m (pack_header_size + 2 * i) (bytes16 (table_word (c.send_msg_size i) cont')))

-- The third loop: the blocks move down inside the same buffer.
unfoldable pub pack_blocks : (ℕ → ℕ) → ℕ → ℕ → ℕ → Mem → Mem
pack_blocks size i zero a m = m
pack_blocks size i (suc n) a m =
    pack_blocks size (i + 1) n (a + size i) (write m a (read m (block_address i) (size i)))

unfoldable pub packed_size : Client → ℕ
packed_size c = u32 (sum_sizes c.send_msg_size 0 c.send_count + c.send_count * 2 + 4)

unfoldable pub pack_header : Client → Mem
pack_header c =
    let m0 = write c.send_buffer 0 (bytes16 sockmsg_packdatasize) in
    let m1 = write m0 4 (bytes32 c.pack_ref) in
    let m2 = write m1 2 (bytes16 sockid_server) in
    let m3 = write m2 8 (bytes32 (packed_size c)) in write m3 14 (bytes16 c.send_count)

-- `_PackDataWithPacket`
unfoldable pub pack_data_with_packet : Client → Client
pack_data_with_packet c =
    let m = pack_table c 0 c.send_count 0 0 (pack_header c) in
    record c {
      send_buffer =
          pack_blocks c.send_msg_size 0 c.send_count (pack_header_size + 2 * c.send_count) m;
    }

-- The table of sizes in a receive buffer.
abbrev pub read_table : Mem → ℕ → ℕ → List ℕ
read_table m a zero = []
read_table m a (suc n) = get16 m a ∷ read_table m (a + 2) n

-- The variables of the loop of `_processMessagePacket`; `count` is `curPacket + 1`.
pub record Cursor : Type 0 where
  pub cont : ℕ
  pub count : ℕ
  pub start : ℕ
  pub msg : ℕ → ℕ
  pub msg_size : ℕ → ℕ

-- Where the bits above the size change, the next message begins.
pub next_message : Cursor → ℕ → Cursor
next_message s tag = if s.cont == tag then s else record s {
  count = s.count + 1;
  msg = set_at s.msg s.count s.start;
  msg_size = set_at s.msg_size s.count 0;
}

abbrev pub extend : Cursor → ℕ → ℕ → ℕ → Cursor
extend s k tag size = record s {
  msg_size = set_at s.msg_size k (s.msg_size k + size);
  cont = tag;
  start = s.start + size;
}

-- The block is added to the message `curPacket`. `none`: the arrays of messages are left, at -1 or
-- at 64.
pub add_block : Cursor → ℕ → ℕ → Option Cursor
add_block s tag size =
    if s.count == 0
    then none
    else if ltb client_default_max_block s.count
    then none
    else some (extend s (s.count - 1) tag size)

pub parse_word : Cursor → ℕ → Option Cursor
parse_word s word =
    let tag = word / 2 ^ 11 in add_block (next_message s tag) tag (bit_and word 0x7ff)

pub parse_words : Cursor → List ℕ → Option Cursor
parse_words s [] = some s
parse_words s (w ∷ ws) = elim (parse_word s w) [ none ↦ none | some s' ↦ parse_words s' ws ]

-- The rounds of `i < numData` for a signed 16-bit number.
abbrev pub rounds16 : ℕ → ℕ
rounds16 v = if ltb v (2 ^ 15) then v else 0

-- What the loop leaves in the client: the messages, and `recvCount = curPacket + 1`.
abbrev pub store_messages : Client → Option Cursor → Option Client
store_messages c none = none
store_messages c (some s) =
    some (record c { recv_msg = s.msg; recv_msg_size = s.msg_size; recv_count = s.count })

-- `_processMessagePacket`, which always returns 0. `none`: a read or a write out of the buffer of
-- `data_buffer` bytes, or out of the arrays.
unfoldable pub process_message_packet : ℕ → Client → Option Client
process_message_packet data_buffer c =
    let num_data = get16 c.recv_buffer 14 in
    let n = rounds16 num_data in
    if num_data == 0
    then some c
    else if ltb data_buffer (pack_header_size + 2 * n)
    then none
    else store_messages c (
        parse_words
          (record {
            cont = 1;
            count = 0;
            start = pack_header_size + 2 * num_data;
            msg = c.recv_msg;
            msg_size = c.recv_msg_size;
          })
          (read_table c.recv_buffer pack_header_size n))
