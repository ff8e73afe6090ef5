-- ===== src/Juggler.antt =====
-- FileJuggler (piwheels/master/file_juggler.py): the transfers that are expected, under way and
-- complete. A message has its first word, but may lack its arguments, or have others than
-- numbers; a negative offset of a CHUNK is not modelled.
pub mod Requests
pub mod Verdicts
pub mod Client
use piwheels.Prelude.{
  ℕ, zero, suc, ◌+◌, ◌-◌, ◌==◌, list_eq, nat_eq, ◌≡◌, Bool, true, false, Option, none, some, List,
  [], ◌∷◌, ◌++◌, Text, if◌then◌else◌, length,
}
use piwheels.Dict.{Dict, lookup, insert, remove}
use piwheels.Ranges.{Range}
use piwheels.Result.{Result, ok, err, index_error, value_error}
use piwheels.Files.{FileMessage, file_from_message}
use piwheels.Transfer.{
  TransferState, new_transfer_state, reset_credit, done, fetch, chunk, Hash, Verdict, matches,
  wrong_size, wrong_hash, verify, PkgDir, absent, commit,
}

-- `pending` and `complete` are keyed by a slave's id, `active` by its address.
pub record Juggler : Type 0 where
  pub pending : Dict ℕ TransferState
  pub active : Dict Text TransferState
  pub complete : Dict ℕ TransferState

-- `hello none` has an argument that is no slave's number, and `short_hello` no argument. `short_chunk`
-- lacks its offset, or has a number for it and lacks its data, and the offset of `garbled_chunk` is no
-- number, whether it has data or not.
pub data FileRequest : Type 0 where
  hello : Option ℕ → FileRequest
  short_hello : FileRequest
  chunk_of : ℕ → List ℕ → FileRequest
  short_chunk garbled_chunk : FileRequest
  unknown : FileRequest

pub data FileReply : Type 0 where
  fetch_range : ℕ → ℕ → FileReply
  all_done : FileReply

unfoldable pub do_expect : ℕ → FileMessage → Juggler → Juggler
unfolding insert file_from_message new_transfer_state
do_expect id m j = record j {
  pending = insert id (new_transfer_state id (file_from_message m)) j.pending;
}

-- What comes of a message: `none` if a loop does not end, or else the replies or the exception that
-- ends the task.
abbrev pub Outcome : Type 0
Outcome = Option (Result (Juggler × List FileReply))

-- The reply FETCH for a range: its start and its length.
abbrev pub ask : Range → FileReply
ask r = fetch_range r.start (r.stop - r.start)

-- while fetch_range: ... `none` says that a `fetch` hangs, or that the fuel ran out.
unfoldable pub fetch_all : ℕ → TransferState → Option (TransferState × List FileReply)
unfolding fetch
fetch_all zero t = none
fetch_all (suc fuel) t = elim (fetch 2 t) [
  | none ↦ none
  | some (none, t') ↦ some (t', [])
  | some (some r, t') ↦ elim (fetch_all fuel t') [
    | none ↦ none
    | some (t'', asked) ↦ some (t'', ask r ∷ asked)
  ]
]

-- The end of `handle_file`: the transfer in `active` is the object that is asked from.
unfoldable pub resume : Text → Juggler → TransferState → Outcome
unfolding fetch_all insert
resume address j t = elim (fetch_all (suc t.credit) t) [
  | none ↦ none
  | some (t', asked) ↦ some (ok (record j { active = insert address t' j.active }, asked))
]

-- `new_transfer`, and what `handle_file` does with its result or its exception.
-- For a HELLO without an argument, `args[0]` raises IndexError, which nothing catches.
unfoldable pub start_transfer : Text → FileRequest → Juggler → Outcome
unfolding lookup remove resume
start_transfer address short_hello j = some (err index_error)
start_transfer address (hello none) j = some (ok (j, []))
start_transfer address (hello (some id)) j = elim (lookup id j.pending) [
  | none ↦ some (ok (j, []))
  | some t ↦ resume address (record j { pending = remove id j.pending }) t
]
start_transfer address (chunk_of offset bytes) j = some (ok (j, []))
start_transfer address short_chunk j = some (ok (j, []))
start_transfer address garbled_chunk j = some (ok (j, []))
start_transfer address unknown j = some (ok (j, []))

-- `current_transfer`, and what `handle_file` does then. It does not read the argument of a HELLO.
unfoldable pub continue_transfer : Text → FileRequest → TransferState → Juggler → Outcome
unfolding chunk done reset_credit insert remove resume
continue_transfer address (chunk_of offset bytes) t j =
    let t' = chunk offset bytes t in
    let over = record j {
      active = remove address j.active;
      complete = insert t'.slave_id t' j.complete;
    } in
    if done t' then some (ok (over, all_done ∷ [])) else resume address j t'
continue_transfer address short_chunk t j = some (err index_error)
continue_transfer address garbled_chunk t j = some (err value_error)
continue_transfer address short_hello t j = resume address j (reset_credit t)
continue_transfer address (hello id) t j = resume address j (reset_credit t)
continue_transfer address unknown t j = resume address j (reset_credit t)

unfoldable pub handle_file : Text → FileRequest → Juggler → Outcome
unfolding lookup start_transfer continue_transfer
handle_file address r j = elim (lookup address j.active) [
  | none ↦ start_transfer address r j
  | some t ↦ continue_transfer address r t j
]

abbrev pub dir_at : Text → Dict Text PkgDir → PkgDir
dir_at pkg dirs = elim (lookup pkg dirs) [ none ↦ absent | some d ↦ d ]

-- What VERIFY leaves: the juggler, the directories of the packages, and whether the answer is OK.
pub record Verified : Type 0 where
  pub juggler : Juggler
  pub dirs : Dict Text PkgDir
  pub accepted : Bool

unfoldable pub judge : Text → TransferState → Option Verdict → Juggler → Dict Text PkgDir → Verified
unfolding commit insert lookup
judge pkg t (some matches) j dirs = record {
  juggler = j;
  dirs = insert pkg (commit t (dir_at pkg dirs)).0 dirs;
  accepted = true;
}
judge pkg t other j dirs = record { juggler = j; dirs = dirs; accepted = false }

module _ (h : Hash) where
  -- A transfer that is not complete is a KeyError, which is answered with ERROR, as an IOError is.
  unfoldable pub do_verify : ℕ → Text → Juggler → Dict Text PkgDir → Verified
  unfolding lookup remove verify judge
  do_verify id pkg j dirs = elim (lookup id j.complete) [
    | none ↦ record { juggler = j; dirs = dirs; accepted = false }
    | some t ↦
        judge pkg t (verify h (suc (length t.file)) t)
          (record j { complete = remove id j.complete }) dirs
  ]
