-- ===== src/Session.antt =====
-- What the server does with a packet of a client, StarServer/StarSocketServer.cpp:
-- `processMessageBuffer`, and `StartPackSendData` and `EndPackSendData` around the game's own
-- handler. A client is `s_Client_t[client->idx]`, as `AcceptConnection` sets it up, so that
-- `SendReTrasmit` and `SendConfirmMessage` change the client itself.
pub mod State
pub mod Register
pub mod Receive
pub mod Answer
pub mod Outcomes
pub mod Numbers
pub mod Integrity
pub mod Replying
pub mod Thread
pub mod Sending
pub mod Rounds
pub mod Accepting
pub mod Accepted
mod Taken
mod Examples
