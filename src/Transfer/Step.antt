-- ===== src/Transfer/Step.antt =====
-- One packet of a transfer, from `_PackDataWithBigData` to `_ProessMessageFileData`.
use mathlib.Core.Path.{subst}
use star_server.Prelude.{
  ℕ, ◌+◌, ◌-◌, ◌*◌, ◌^◌, ◌≤◌, ◌≡◌, refl, ◌∙◌, sym, ap, inl, inr, Bool, true, false, Bool-cases, not,
  ◌&&◌, List, ◌++◌, Option, some, ◌==◌, ==_iff, take, drop, take-add, Mem, read, get32, arith,
}
use star_server.Client.{Client}
use star_server.Packet.Queue.{Block}
use star_server.Transfer.Files.{Disk, FilePath, c_string}
use star_server.Transfer.Send.{
  Piece, is_first, has_name, name_size, piece_size, done_after, put_piece, pack_data_with_big_data,
}
use star_server.Transfer.Receive.{Part, Received, find_part, process_message_file_data}
use star_server.Transfer.Found.{find_part-HasPiece}
use star_server.Transfer.Stored.{Stores, begins, continues}
use star_server.Transfer.Underway.{IsSending, CanCarry, HasFront, Advances}
use star_server.Transfer.Piece.{name_size-le, facts, after, next_piece}

module _ (data_buffer : ℕ) (c : Client) (d : Disk) (s file : List ℕ) (m : Mem) (bs : List Block)
    (sending : IsSending c d s file) (carries : CanCarry m bs) (fits : 2 ^ 16 ≤ data_buffer)
    (r : Client) (d' : Disk) (has : HasFront r d' c s file) where
  abbrev a : ℕ
  a = get32 m 8

  abbrev k : ℕ
  k = piece_size c a

  abbrev p : Piece
  p = next_piece c file m

  abbrev done : ℕ
  done = c.big_data_send_size_done

  open facts data_buffer c d s file m bs sending carries fits use {
    k_lem, size_lem, bytes_lem, length_lem, flags_lem, address_lem, start_lem, piece,
  }

  abbrev reader : Client
  reader = record r { recv_buffer = put_piece c p m }

  abbrev part : Part
  part = record {
    address = p.address + 8;
    flags = p.flags;
    whole = c.big_data_send_size;
    pack_size = name_size (has_name c) + k;
  }

  finds : find_part data_buffer (put_piece c p m) ≡ some part
  finds =
      find_part-HasPiece data_buffer m (put_piece c p m) c p bs (name_size (has_name c) + k)
        carries.packed piece carries.blocked (omega (arith, carries.few))
        (omega (arith, address_lem, carries.size_all)) (omega (arith, address_lem, carries.room))
        (omega (arith, address_lem, carries.room)) (omega (arith, address_lem, size_lem))
        (omega (arith, k_lem, sending.small, name_size-le (has_name c)))

  named : has_name c ≡ is_first c
  named = ap (λ b. is_first c && b) sending.sending ∙ and_true (is_first c)
    where
      and_true : (b : Bool) → (b && true) ≡ b
      and_true true = refl
      and_true false = refl

  payload : read (put_piece c p m) p.start k ≡ take k (drop done file)
  payload = ap (read (put_piece c p m) p.start) (sym length_lem) ∙ piece.bytes ∙ bytes_lem

  abbrev Receives : Type 0
  Receives =
      Stores (process_message_file_data data_buffer reader d') r.idx d'
        (FilePath.received_file r.idx s) (take (done + k) file) c.file_send_name

  receives_first : is_first c ≡ true → Receives
  receives_first first =
      subst (λ t. Stores out r.idx d' path (take (done + k) file) t) name
        (subst (λ t. Stores out r.idx d' path t (read (put_piece c p m) (p.address + 8) 32)) bytes
          (begins data_buffer reader d' part s k finds flags_lem.1 has.writable
            (flags_lem.2 ∙ first) (ap c_string name ∙ sending.name_string) (omega (arith, ns))
            (omega (arith, k_lem, sending.small))
            (omega (arith, address_lem, k_lem, carries.room))))
    where
      out : Option Received
      out = process_message_file_data data_buffer reader d'

      path : FilePath
      path = FilePath.received_file r.idx s

      ns : name_size (has_name c) ≡ 32
      ns = ap name_size (named ∙ first)

      nothing : done ≡ 0
      nothing = (==_iff done 0).0 first

      name : read (put_piece c p m) (p.address + 8) 32 ≡ c.file_send_name
      name = piece.name (named ∙ first)

      bytes : read (put_piece c p m) (p.address + 8 + 32) k ≡ take (done + k) file
      bytes =
          ap (λ t. read (put_piece c p m) t k) {y = p.start} (omega (arith, start_lem, ns))
          ∙ payload
          ∙ ap (λ n. take k (drop n file)) nothing
          ∙ ap (λ n. take n file) {x = k} (omega (arith, nothing))

  receives_next :
      is_first c ≡ false
      → r.file_data_name ≡ c.file_send_name
      → d'.content (FilePath.received_file r.idx s) ≡ some (take done file)
      → Receives
  receives_next later name front =
      subst (λ t. Stores out r.idx d' path (take (done + k) file) t) name
        (subst (λ t. Stores out r.idx d' path t r.file_data_name) bytes
          (continues data_buffer reader d' part s k finds flags_lem.1 has.writable (take done file)
            (flags_lem.2 ∙ later) (flags_lem.3 ∙ ap not later)
            (ap c_string name ∙ sending.name_string) front (omega (arith, ns))
            (omega (arith, address_lem, k_lem, carries.room))))
    where
      out : Option Received
      out = process_message_file_data data_buffer reader d'

      path : FilePath
      path = FilePath.received_file r.idx s

      ns : name_size (has_name c) ≡ 0
      ns = ap name_size (named ∙ later)

      bytes : take done file ++ read (put_piece c p m) (p.address + 8) k ≡ take (done + k) file
      bytes =
          ap (λ t. take done file ++ read (put_piece c p m) t k) {y = p.start}
            (omega (arith, start_lem, ns))
          ∙ ap (◌++◌ (take done file)) payload
          ∙ sym (take-add done k file)

  receives : Receives
  receives = elim (Bool-cases (is_first c)) [
    | inl first ↦ receives_first first
    | inr later ↦ elim has.front [
      | inl nothing ↦ absurd (ground arith)
      | inr front ↦ receives_next later front.0 front.1
    ]
  ]

-- A client is sending a file of the disk, of fewer than 2^31 bytes, and the receiver has the front of
-- it that was sent. Behind a packet of messages of fewer than 61440 bytes, `_PackDataWithBigData`
-- puts the next bytes, as many as remain or as there is room for, and stops sending exactly when
-- the whole file is sent. When the packet arrives, `_ProessMessageFileData` returns 0 and the
-- receiver has the front of the file that is sent by now, and the file's name.
pub pack_data_with_big_data-Stores :
    (data_buffer : ℕ) (c : Client) (d : Disk) (s file : List ℕ) (m : Mem) (bs : List Block)
    (r : Client) (d' : Disk)
    → IsSending c d s file
    → CanCarry m bs
    → 2 ^ 16 ≤ data_buffer
    → HasFront r d' c s file
    → (c' : Client) × (pack_data_with_big_data data_buffer (record c { send_buffer = m }) d
        ≡ some c')
      × Advances c (60 * 2 ^ 10 - get32 m 8) c'
      × Stores
          (process_message_file_data data_buffer (record r { recv_buffer = c'.send_buffer }) d')
          r.idx
          d'
          (FilePath.received_file r.idx s)
          (take c'.big_data_send_size_done file)
          c.file_send_name
pack_data_with_big_data-Stores data_buffer c d s file m bs r d' sending carries fits has =
    let f = facts data_buffer c d s file m bs sending carries fits in
    (
      after c file m,
      f.sent,
      record {
        done = f.done_lem ∙ ap (λ n. c.big_data_send_size_done + n) f.k_lem;
        still =
            ap (λ b. b && not (done_after c (get32 m 8) == c.big_data_send_size)) sending.sending;
        name = refl;
        size = refl;
      },
      subst
          (λ n.
            Stores
              (process_message_file_data data_buffer
                (reader data_buffer c d s file m bs sending carries fits r d' has) d')
              r.idx d' (FilePath.received_file r.idx s) (take n file) c.file_send_name)
          (sym f.done_lem) (receives data_buffer c d s file m bs sending carries fits r d' has),
    )
