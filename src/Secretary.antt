-- ===== src/Secretary.antt =====
-- TheSecretary (piwheels/master/the_secretary.py): the buffer of the requests to write pages.
pub mod Buffer
pub mod Output
pub mod Order
pub mod Reload
use piwheels.Prelude.{
  ℕ, ◌-◌, ◌==◌, Eq, list_eq, nat_eq, ◌≡◌, Bool, true, false, Option, none, some, List, [], ◌∷◌,
  ◌++◌, Text, ltb, if◌then◌else◌,
}
use piwheels.Dict.{Dict, lookup, has, insert, remove}
use piwheels.Result.{Result, ok, err, or_fault, key_error, ◌>>=◌}

-- The two messages that are buffered.
pub data Command : Type 0 where
  project both : Command

-- The messages of the web queue; `D` is data that is only passed on.
pub data WebRequest (D : Type 0) : Type 0 where
  home search log : D → WebRequest D
  write : Command → Text → WebRequest D
  delete_package : Text → WebRequest D
  delete_version : Text → Text → WebRequest D

-- `buffer` has the IndexTasks, a package with the time of its first request, oldest first.
pub record Secretary : Type 0 where
  pub buffer : Dict Text ℕ
  pub commands : Dict Text Command
  pub paused : Bool
  pub timeout : ℕ

-- for index, entry in enumerate(buffer): if entry.package == package: del buffer[index]; break
unfoldable pub delete_first : Text → Dict Text ℕ → Dict Text ℕ
delete_first p [] = []
delete_first p ((q, at) ∷ b) = if q == p then b else (q, at) ∷ delete_first p b

-- try: del self.commands[package] ... else: the loop over the buffer
unfoldable pub expunge : Text → Secretary → Secretary
unfolding has remove delete_first
expunge p s =
    if has p s.commands
    then record s { commands = remove p s.commands; buffer = delete_first p s.buffer }
    else s

-- self.commands[package] = 'BOTH', for that message only
upgrade : Command → Text → Dict Text Command → Dict Text Command
unfolding insert
upgrade project p commands = commands
upgrade both p commands = insert p both commands

unfoldable pub request_write : ℕ → Command → Text → Secretary → Secretary
unfolding has insert upgrade
request_write now c p s =
    if has p s.commands
    then record s { commands = upgrade c p s.commands }
    else record s { buffer = s.buffer ++ (p, now) ∷ []; commands = insert p c s.commands }

-- The state after a message, and the messages sent to TheScribe; the answer is always DONE.
unfoldable pub handle_input :
    {D : Type 0} → ℕ → WebRequest D → Secretary → Secretary × List (WebRequest D)
unfolding expunge request_write
handle_input now (home d) s = (s, home d ∷ [])
handle_input now (search d) s = (s, search d ∷ [])
handle_input now (log d) s = (s, log d ∷ [])
handle_input now (delete_package p) s = (expunge p s, delete_package p ∷ [])
handle_input now (delete_version p version) s = (expunge p s, delete_version p version ∷ [])
handle_input now (write c p) s = (request_write now c p s, [])

-- What is left of the buffer and the commands, and what was sent.
pub record Sent : Type 0 where
  pub buffer : Dict Text ℕ
  pub commands : Dict Text Command
  pub sent : List (Command × Text)

-- The `while` loop of `handle_output`.
unfoldable pub send_due : ℕ → ℕ → Dict Text ℕ → Dict Text Command → Result Sent
unfolding lookup remove
send_due now timeout [] commands = ok (record { buffer = []; commands = commands; sent = [] })
send_due now timeout ((p, at) ∷ buffer) commands =
    let rest = send_due now timeout buffer (remove p commands) in
    if ltb timeout (now - at)
    then (do
      message ← or_fault key_error (lookup p commands)
      out ← rest
      ok (record out { sent = (message, p) ∷ out.sent }))
    else ok (record { buffer = (p, at) ∷ buffer; commands = commands; sent = [] })

unfoldable pub handle_output : ℕ → Secretary → Result (Secretary × List (Command × Text))
unfolding send_due
handle_output now s = if s.paused then ok (s, []) else (do
  out ← send_due now s.timeout s.buffer s.commands
  ok (record s { buffer = out.buffer; commands = out.commands }, out.sent))

-- TheSecretary.__init__, with the timeout of the configuration
unfoldable pub new_secretary : ℕ → Secretary
new_secretary timeout = record { buffer = []; commands = []; paused = false; timeout = timeout }

-- The rows of the table of pending rewrites: the package, the time and the command.
abbrev pub Pending : Type 0
Pending = Dict Text (ℕ × Command)

-- The rows that `close` stores.
unfoldable pub save : Dict Text ℕ → Dict Text Command → Result (Pending)
unfolding lookup
save [] commands = ok []
save ((p, at) ∷ buffer) commands = do
  c ← or_fault key_error (lookup p commands)
  rows ← save buffer commands
  ok ((p, (at, c)) ∷ rows)

-- The loop of `once` over the rows that were loaded.
unfoldable pub load : Pending → Secretary → Secretary
unfolding insert
load [] s = s
load ((p, (at, c)) ∷ rows) s =
    load rows (record s { buffer = s.buffer ++ (p, at) ∷ []; commands = insert p c s.commands })
