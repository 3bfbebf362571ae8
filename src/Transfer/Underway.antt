-- ===== src/Transfer/Underway.antt =====
-- A transfer under way: what the two clients of `_PackDataWithBigData` and `_ProessMessageFileData`
-- hold between two packets.
use star_server.Prelude.{
  ℕ, ◌+◌, ◌-◌, ◌*◌, ◌^◌, ◌≤◌, ◌<◌, min, ◌≡◌, ◌⊎◌, true, not, List, some, ◌==◌, length, take, Mem,
  get32,
}
use star_server.Client.{Client}
use star_server.Packet.Queue.{Block}
use star_server.Packet.Layout.{bytes_of}
use star_server.Packet.Packed.{IsPacked}
use star_server.Packet.Received.{Blocked}
use star_server.Transfer.Files.{Disk, FilePath, c_string}

-- The sender is in the middle of a file of its disk, or at its start.
pub record IsSending (c : Client) (d : Disk) (s file : List ℕ) : Type 0 where
  pub sending : c.file_data_sending ≡ true
  pub name_length : length c.file_send_name ≡ 32
  pub name_string : c_string c.file_send_name ≡ some s
  pub there : d.content (FilePath.db_file s) ≡ some file
  pub size : length file ≡ c.big_data_send_size
  pub small : c.big_data_send_size < 2 ^ 31
  pub so_far : c.big_data_send_size_done ≤ c.big_data_send_size

-- A packet of messages, with room behind them.
pub record CanCarry (m : Mem) (bs : List Block) : Type 0 where
  pub packed : IsPacked m bs
  pub blocked : Blocked bs
  pub few : length bs ≤ 62
  pub size_all : get32 m 8 ≡ 2 * length bs + length (bytes_of bs) + 4
  pub room : get32 m 8 < 60 * 2 ^ 10

-- What the receiver has of the file: nothing, or its front as far as it was sent, and its name.
pub record HasFront (r : Client) (d : Disk) (c : Client) (s file : List ℕ) : Type 0 where
  pub writable : d.writable (FilePath.received_file r.idx s) ≡ true
  pub front :
      (c.big_data_send_size_done ≡ 0)
      ⊎ ((r.file_data_name ≡ c.file_send_name)
          × (d.content (FilePath.received_file r.idx s)
              ≡ some (take c.big_data_send_size_done file)))

-- The sender has sent as many bytes more as remained or there was room for, and goes on sending
-- unless these were the last.
pub record Advances (c : Client) (space : ℕ) (c' : Client) : Type 0 where
  pub done :
      c'.big_data_send_size_done
      ≡ c.big_data_send_size_done + min (c.big_data_send_size - c.big_data_send_size_done) space
  pub still : c'.file_data_sending ≡ not (c'.big_data_send_size_done == c.big_data_send_size)
  pub name : c'.file_send_name ≡ c.file_send_name
  pub size : c'.big_data_send_size ≡ c.big_data_send_size
