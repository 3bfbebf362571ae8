-- ===== src/Handler.antt =====
-- What a game's handler reads of a packet, StarServer/StarSocketServer.cpp: `STSV_GetData` to
-- `STSV_FreeFileData`, and the loop over the messages that `STSV_TempClientRequestFunc` and the
-- `ClientRequest` of GameServer.cpp are made of. A client is its index in the table of the slots.
pub mod Visiting
mod Examples
use star_server.Prelude.{ℕ, zero, suc, ◌+◌, Bool, true, false, List, [], ◌∷◌, Mem, read, set_at}
use star_server.Client.{Client}
use star_server.Packet.{rounds16}

-- The address in the receive buffer and the size, which is returned by a pointer.
pub record Buffer : Type 0 where
  pub address : ℕ
  pub size : ℕ

-- `STSV_GetData`
unfoldable pub get_data : (ℕ → Client) → ℕ → ℕ → Buffer
get_data clients idx i = record {
  address = (clients idx).recv_msg i;
  size = (clients idx).recv_msg_size i;
}

-- `STSV_GetDataCount`
unfoldable pub get_data_count : (ℕ → Client) → ℕ → ℕ
get_data_count clients idx = (clients idx).recv_count

-- `STSV_HaveBigData`
unfoldable have_big_data : (ℕ → Client) → ℕ → Bool
have_big_data clients idx = (clients idx).big_data_ready

-- `STSV_GetFileDataName`
unfoldable get_file_data_name : (ℕ → Client) → ℕ → List ℕ
get_file_data_name clients idx = (clients idx).file_data_name

-- `STSV_HaveFileData`
unfoldable have_file_data : (ℕ → Client) → ℕ → Bool
have_file_data clients idx = (clients idx).file_data_ready

-- `STSV_FreeFileData`
unfoldable free_file_data : (ℕ → Client) → ℕ → ℕ → Client
free_file_data clients idx = set_at clients idx (record (clients idx) { file_data_ready = false })

-- `for(int i=0;i<STSV_GetDataCount(ct->idx);i++)`, with the bytes that each round is given.
unfoldable pub visit : (ℕ → Client) → ℕ → ℕ → ℕ → List (List ℕ)
visit clients idx i zero = []
visit clients idx i (suc n) =
    let b = get_data clients idx i in
    read (clients idx).recv_buffer b.address b.size ∷ visit clients idx (i + 1) n

unfoldable pub visit_all : (ℕ → Client) → ℕ → List (List ℕ)
visit_all clients idx = visit clients idx 0 (rounds16 (get_data_count clients idx))
