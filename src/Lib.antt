-- ===== src/Lib.antt =====
-- The socket server of star-server, StarServer/StarSocketServer.cpp with its header
-- StarServer/StarSocketServer.h.
--
-- The server gives each connection a slot `Client_t` and a thread. The thread waits for its socket,
-- reads one packet with `processMessageBuffer`, lets the game's handler look at the messages and
-- queue answers with `STSV_SendData`, and sends these in one packet with `EndPackSendData`. A packet
-- has 16 bytes of header, a table of block sizes, the blocks, and perhaps a part of a file. A pool
-- of database connections is shared by the handlers.
--
-- Which file models which part:
--   Prelude    Boolean tests, lists, options, machine words, byte-addressed memory, bit operations.
--   Crc        `_InitCRC8Table` .. `STOS_CRC32`. The tables are lists, the input is a memory and an
--              address; the registers are numbers below 2^32, with the wrap-around written out.
--   Client     `Client_t`: the record of the fields that the operations below read or write.
--   Packet     `STSV_SendData` (send_data), `_PackDataWithPacket` (pack_data_with_packet) and
--              `_processMessagePacket` (process_message_packet). The children are named for what
--              they are about: the queue as a list, the layout, the messages found.
--   Io         `ReadFrom` (read_from) and `WriteTo` (write_to). The results of `recv` and `send` are a
--              plan: -1, or how many bytes may pass; the end of the plan is a call that blocks.
--   Transfer   Files: paths and the disk. Receive: `_ProessMessageBigData`, `_ProessMessageFileData`.
--              Send: `STSV_SendDBFile`, `_PackDataWithBigData`.
--   Session    State: the server's variables and what a thread changes; `SendReTrasmit`,
--              `SendConfirmMessage` and the other short messages. Register: the cases of
--              `processMessageBuffer` for a registration and for sending again. Receive: a packet of
--              data, and `processMessageBuffer` as a whole, one function for each check. Answer:
--              `EndPackSendData`, and the body of the loop of `STSV_ClientThreadFuncAlway` with the
--              handler as a parameter. Thread: that function up to the end of its loop.
--              The other files prove.
--   Handler    `STSV_GetData`, `STSV_GetDataCount` and the others that a handler calls, and the loop
--              of `ClientRequest` in StarServer/GameServer.cpp, with the bytes it passes on.
--   Slots      `FindFreeIdxHost` (find_free_idx_host), `AcceptConnection` (accept_connection), and the
--              beginning and end of a client's thread, as steps of many threads in any order. Sockets:
--              the same with the descriptors and what is sent, `STSV_PollAcceptFunc`, `DestroySocket`
--              and `STSV_Stop`. Udp: `AcceptConnectionUDP` and `STSV_KoockAcceptFunc`. Direct: `Read` and
--              `WriteAll`, which nothing calls.
--   Pool       `GetBigDataBufferIdx`, `STSV_GetBigData`, `STSV_FreeBigData`: the memory for big data.
--   Rooms      The lobby: `STSV_CreateRoom`, `STSV_JoinFreeRoom`, `STSV_JoinRoom`, `STSV_ExitRoom` and
--              the others, and `DestroyClientRoom`. A call returns, waits for a mutex, or goes out of an
--              array. Leaving: a client that goes. Confirm: the three messages. Creating: calls of
--              `STSV_CreateRoom` by several threads at once. The other files prove.
--   Config     `GetStringValueConfig` and `atoi` (Config), `ReadConfigFile` (Settings).
--   Startup    Memory: `malloc`, and the sizes. Limits: `CheckLimite`. Listening: `CreateServer` and the
--              two functions below it. State: the variables and a monad whose failure is the return of
--              -1. Init: `InitServerLimit`, `InitServerUnlimit`, of which the equal parts are
--              allocate_clients and allocate_database, and `STSV_Init`. The other files prove.
--   Database   `STDB_Connect` .. `STSV_DBReleaseResult`, with the MySQL client library as a
--              parameter: a state and what `mysql_real_connect`, `mysql_query`, `mysql_errno`,
--              `mysql_store_result` and `mysql_insert_id` return on it.
--
-- Numbers: a `u8`, `u16` or `u32` is a natural number below its power of two; a signed field is its
-- bit pattern, and a test of its sign is a test of the highest bit. Pointers into a buffer are
-- offsets. An access out of a buffer or an array is a result of its own: `none` in Packet and
-- Transfer, `undefined` in Startup and Rooms, `fault` elsewhere. The size of the receive buffer is
-- an argument.
--
-- Loops: over a message or a table they are structural. `fill_blocks` gets as many rounds as there
-- are places, and `chunks` as many as the message has bytes, of which each round takes one at least.
-- `find_free` gets the rounds as an argument, since the loop that it models may not end; the loop of a
-- client's thread gets the results of `poll`, and the loops that accept those of `select` or `poll`.
-- `add_again` gets as many rounds as bytes are asked for, of which each adds one at least, unless none
-- passes and the loop that it models does not end.
--
-- Not modelled: what is only printed or logged; the system's sockets, threads and limits but for the
-- results of `accept`, `recv`, `send`, `select` and `poll`, the descriptors that are open, and the
-- results of the calls at the start; the clock and the keyboard; the functions that set a handler.
-- A mutex that is held through a call makes the call one step, but in Rooms/Creating. What the accepting
-- thread does for a client is one step, and so is each change of the login count, which the source makes
-- without a mutex. `SendReTrasmit` and `SendConfirmMessage` go through `s_Client_t[idx]`, which is the client itself.
pub mod Prelude
pub mod Crc
pub mod Client
pub mod Packet
pub mod Io
pub mod Transfer
pub mod Session
pub mod Handler
pub mod Slots
pub mod Rooms
pub mod Database
pub mod Config
pub mod Startup
pub mod Pool
