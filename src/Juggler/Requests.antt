-- ===== src/Juggler/Requests.antt =====
-- FileJuggler handles the messages of a transfer.
use piwheels.Prelude.{
  ℕ, ◌≤◌, ◌<◌, list_eq, nat_eq, ◌≡◌, true, Option, none, some, List, length, arith, All,
}
use piwheels.Dict.Laws.{All-insert}
use piwheels.Result.{Fault, index_error, value_error, ok, err}
use piwheels.Ranges.Tiling.{Tiles}
use piwheels.Files.{FileMessage, file_from_message}
use piwheels.Transfer.{TransferState, new_transfer_state, done}
use piwheels.Juggler.{
  Juggler, FileRequest, short_hello, short_chunk, garbled_chunk, Outcome, FileReply, do_expect,
  fetch_all,
}

-- What is to come is made of non-empty ranges in ascending order.
abbrev pub IsWell : TransferState → Type 0
IsWell t = (hi : ℕ) × Tiles 0 hi t.map

-- A complete transfer is one with nothing to come, under the id of its slave.
pub record Inv (j : Juggler) : Type 0 where
  pub pending : All (λ e. IsWell e.1) j.pending
  pub active : All (λ e. IsWell e.1) j.active
  pub complete : All (λ e. (done e.1 ≡ true) × (e.1.slave_id ≡ e.0)) j.complete

abbrev pub Goes : Outcome → Type 0
Goes o = (r : Juggler × List FileReply) × (o ≡ some (ok r)) × Inv r.0

-- The exception that a message raises for lack of an argument, with the transfer that is under way at
-- its address: the number of a HELLO is only read when there is none, and what a CHUNK has when there
-- is one.
abbrev pub fault_of : Option TransferState → FileRequest → Option Fault
fault_of none short_hello = some index_error
fault_of (some t) short_chunk = some index_error
fault_of (some t) garbled_chunk = some value_error
fault_of active r = none

abbrev pub Ends : Option Fault → Outcome → Type 0
Ends none o = Goes o
Ends (some fault) o = o ≡ some (err fault)

-- The requests for more are sent, at most one for each credit, and only `credit` and `offset` of
-- the transfer change.
abbrev FetchesAll : ℕ → TransferState → Type 0
FetchesAll fuel t =
    (t' : TransferState) × (asked : List FileReply) × (fetch_all fuel t ≡ some (t', asked))
    × (length asked ≤ t.credit)
    × (t'.map ≡ t.map)

-- Expecting a non-empty file keeps the invariant that `handle_file` needs.
pub do_expect-Inv :
    (id : ℕ) (m : FileMessage) (j : Juggler) → 0 < m.filesize → Inv j → Inv (do_expect id m j)
unfolding do_expect new_transfer_state file_from_message
do_expect-Inv id m j pos inv = record {
  pending =
      All-insert (λ e. IsWell e.1) id (new_transfer_state id (file_from_message m)) j.pending
        (m.filesize, omega arith) inv.pending;
  active = inv.active;
  complete = inv.complete;
}
