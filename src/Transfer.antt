-- ===== src/Transfer.antt =====
-- Files that travel behind the messages of a packet, StarServer/StarSocketServer.cpp:
-- `_ProessMessageBigData` and `_ProessMessageFileData` on the receiving side, `STSV_SendDBFile` and
-- `_PackDataWithBigData` on the sending side. Files are a disk, whose paths the `sprintf`s name.
-- `none` is an access out of an array or buffer.
pub mod Files
pub mod Receive
pub mod Send
pub mod Receiving
pub mod Sending
pub mod Found
pub mod Stored
pub mod Underway
pub mod Piece
pub mod Step
pub mod Whole
mod Examples
