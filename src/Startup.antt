-- ===== src/Startup.antt =====
-- The start of the server, StarServer/StarSocketServer.cpp: `CheckLimite`, `InitServerLimit`,
-- `InitServerUnlimit`, `CreateServer` and what it calls, and `STSV_Init`. The system is an argument:
-- which `malloc` gives memory, what the limits are, and which calls on the socket fail. The sizes of the
-- types are an argument too.
pub mod Memory
pub mod Limits
pub mod Listening
pub mod State
pub mod Init
pub mod Steps
pub mod Ready
pub mod Grown
pub mod Growth
pub mod Counted
pub mod Sums
pub mod Allocated
pub mod Balance
pub mod Planned
pub mod Lobby
mod Examples
