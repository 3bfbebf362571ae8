-- ===== src/Slots.antt =====
-- The slots of the clients and their threads, StarServer/StarSocketServer.cpp: `FindFreeIdxHost`,
-- `AcceptConnection`, and the start and the end of `STSV_ClientThreadFuncAlway`. The socket and the
-- message that gives the client its number are added in Sockets. The handler that a thread's end calls
-- and the room that it leaves are left out. `pthread_join` does not fail here, and only a client's own
-- thread takes it offline. Each change of the login count, which the source makes without a mutex, is one
-- step, and so is all that AcceptConnection does for a slot, from `online` to `pthread_create`.
pub mod Served
pub mod Threads
pub mod Sockets
pub mod Udp
pub mod Direct
mod Examples
use star_server.Prelude.{
  ℕ, zero, suc, ◌+◌, ◌-◌, ◌^◌, ◌≡◌, ◌<◌, Bool, true, false, Option, none, some, if◌then◌else◌,
  set_at, u32, u16, negsuc,
}
use star_server.Client.{Client}

pub record Slots : Type 0 where
  pub max_connection : ℕ
  pub clients : ℕ → Client
  -- Whether a thread runs on the slot.
  pub running : ℕ → Bool
  pub login_count : ℕ

-- The loop of `FindFreeIdxHost`, with n slots left from i on. `none` is -1.
pub find_free_idx : ℕ → ℕ → (ℕ → Client) → Option ℕ
find_free_idx zero i clients = none
find_free_idx (suc n) i clients =
    let rest = find_free_idx n (i + 1) clients in if (clients i).online then rest else some i

pub find_free_idx_host : Slots → Option ℕ
find_free_idx_host s = find_free_idx s.max_connection 0 s.clients

-- What `AcceptConnection` sets, after it joined a thread that had run on the slot.
unfoldable pub set_up_client : ℕ → Client → Client
set_up_client i c = record c {
  thread = false;
  online = true;
  idx = u16 i;
  pack_ref = 0;
  room_idx = negsuc 0;
  cur_packet_no = 0;
  file_data_sending = false;
  big_data_ready = false;
}

-- `pthread_create` made the thread, or failed.
pub accept_connection : ℕ → Bool → Slots → Slots
accept_connection i true s = record s {
  clients = set_at s.clients i (set_up_client i (s.clients i));
  running = set_at s.running i true;
  login_count = u32 (s.login_count + 1);
}
accept_connection i false s = record s {
  clients = set_at s.clients i (record (set_up_client i (s.clients i)) { online = false });
}

-- The thread's first statements.
pub start_thread : ℕ → Slots → Slots
start_thread i s = record s {
  clients =
      set_at s.clients i
        (record (s.clients i) { thread = true; send_done = false; send_data_size = 0 });
}

pub leave : ℕ → Slots → Slots
leave i s = record s { clients = set_at s.clients i (record (s.clients i) { online = false }) }

-- The thread's end, behind `while (client->online)`.
pub end_thread : ℕ → Slots → Slots
end_thread i s = record s {
  running = set_at s.running i false;
  login_count = u32 (s.login_count + 2 ^ 32 - 1);
}

-- The steps of the accepting thread and of the clients' threads, each of them done in one piece.
-- `pthread_join` waits for the end of the thread that a slot had.
pub data Step (s : Slots) : Slots → Type 0 where
  accepts :
      (i : ℕ) (created : Bool)
      → find_free_idx_host s ≡ some i
      → ((s.clients i).thread ≡ true → s.running i ≡ false)
      → Step s (accept_connection i created s)
  starts : (i : ℕ) → i < s.max_connection → s.running i ≡ true → Step s (start_thread i s)
  leaves :
      (i : ℕ)
      → i < s.max_connection
      → s.running i ≡ true
      → (s.clients i).thread ≡ true
      → Step s (leave i s)
  ends :
      (i : ℕ)
      → i < s.max_connection
      → s.running i ≡ true
      → (s.clients i).thread ≡ true
      → (s.clients i).online ≡ false
      → Step s (end_thread i s)
