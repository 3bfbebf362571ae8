-- ===== src/Client.antt =====
-- `Client_t` of StarServer/StarSocketServer.h: the fields that the modelled code reads or writes.
-- Words are numbers, a signed field is its bit pattern unless its type here is ℤ, an array is a
-- function of its index, and a buffer is a memory. `recv_msg` holds offsets into `recv_buffer`.
use star_server.Prelude.{ℕ, ◌+◌, ◌*◌, Bool, List, Mem, ℤ}

abbrev pub client_default_buffer : ℕ
client_default_buffer = 1024

abbrev pub client_default_max_block : ℕ
client_default_max_block = 64

pub record Client : Type 0 where
  pub online : Bool
  pub thread : Bool
  pub idx : ℕ
  pub room_idx : ℤ
  pub send_data_size : ℕ
  pub send_done : Bool
  pub recv_buffer : Mem
  pub send_buffer : Mem
  pub pack_ref : ℕ
  pub send_count : ℕ
  pub recv_count : ℕ
  pub cur_packet_no : ℕ
  pub send_packet_no : ℕ → ℕ
  pub send_msg_size : ℕ → ℕ
  pub recv_msg : ℕ → ℕ
  pub recv_msg_size : ℕ → ℕ
  pub big_data_ready : Bool
  pub big_data_read_size : ℕ
  pub big_data_read_size_done : ℕ
  pub file_data_ready : Bool
  pub file_data_name : List ℕ
  pub file_send_name : List ℕ
  pub file_data_sending : Bool
  pub big_data_send_size : ℕ
  pub big_data_send_size_done : ℕ

-- `sendBufferMSG[j]`, as the two initialisations set it: an offset into `send_buffer`.
abbrev pub block_address : ℕ → ℕ
block_address j = client_default_buffer * 2 + j * client_default_buffer
