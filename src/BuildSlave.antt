-- ===== src/BuildSlave.antt =====
-- PiWheelsSlave (piwheels/slave/__init__.py): how a build slave answers the master.
pub mod Session
use piwheels.Prelude.{
  ℕ, list_eq, nat_eq, ◌==◌, ◌≡◌, Bool, true, false, Option, none, some, List, [], ◌∷◌, Text,
  if◌then◌else◌, is_some,
}
use piwheels.Result.{
  Result, ok, err, or_fault, assertion, index_error, system_exit, terminate_timeout, ◌>>=◌,
}
use piwheels.Files.{FileMessage}
use piwheels.Slave.{
  Built, SlaveStats, Request, idle, busy, built, sent, Reply, ack, die, cont, finished, sleep,
  build, send,
}

-- A build, which runs in its own thread until it has a result.
pub record Builder : Type 0 where
  pub pkg : Text
  pub version : Text
  pub result : Option Built

pub record BuildSlave : Type 0 where
  pub slave_id : Option ℕ
  pub pypi_url : Option Text
  pub builder : Option Builder

-- What the slave finds while it handles one reply: its load, the result of the build if the thread
-- has ended by then, and whether a build that is stopped ends in time.
pub record Surroundings : Type 0 where
  pub status : SlaveStats
  pub ended : Option Built
  pub stops : Bool

-- The next message, and the slave that waits for its reply.
abbrev pub Turn : Type 0
Turn = Request × BuildSlave

-- `assert`
abbrev pub require {ℓ} : {A : Type ℓ} → Bool → Result A → Result A
require true m = m
require false m = err assertion

-- Joining the thread: a result, once there, stays.
unfoldable pub joined : Surroundings → Builder → Builder
joined w b = elim b.result [ none ↦ record b { result = w.ended } | some r ↦ b ]

abbrev is_done : Builder → Bool
is_done b = is_some b.result

unfoldable pub clean_up_build : Surroundings → BuildSlave → Result BuildSlave
unfolding joined
clean_up_build w s = elim s.builder [
  | none ↦ ok s
  | some b ↦
      if is_done (joined w b)
      then ok (record s { builder = none })
      else (if w.stops then ok (record s { builder = none }) else err terminate_timeout)
]

unfoldable pub do_ack : Surroundings → ℕ → Text → BuildSlave → Result Turn
do_ack w new_id url s = elim s.slave_id [
  | none ↦ ok (idle w.status, record s { slave_id = some new_id; pypi_url = some url })
  | some id ↦ err assertion
]

unfoldable pub do_sleep : Surroundings → BuildSlave → Result Turn
do_sleep w s = require (is_some s.slave_id) (ok (idle w.status, s))

unfoldable pub do_build : Surroundings → Text → Text → BuildSlave → Result Turn
do_build w pkg version s = require (is_some s.slave_id) (elim s.builder [
  | some b ↦ err assertion
  | none ↦ ok (
    busy w.status,
    record s { builder = some (record { pkg = pkg; version = version; result = none }) },
  )
])

unfoldable pub report : Surroundings → Builder → BuildSlave → Result Turn
report w b s = elim b.result [
  | none ↦ ok (busy w.status, record s { builder = some b })
  | some r ↦ ok (built r, record s { builder = some b })
]

unfoldable pub do_cont : Surroundings → BuildSlave → Result Turn
unfolding joined report
do_cont w s =
    require (is_some s.slave_id)
      (elim s.builder [ none ↦ err assertion | some b ↦ report w (joined w b) s ])

-- [f for f in self.builder.wheels if f.filename == filename][0]
unfoldable pub find_wheel : Text → List FileMessage → Option FileMessage
find_wheel name [] = none
find_wheel name (f ∷ fs) = if f.filename == name then some f else find_wheel name fs

-- `builder.status` is false until the build has succeeded.
unfoldable pub send_wheel : Text → Option Built → BuildSlave → Result Turn
unfolding find_wheel
send_wheel name none s = err assertion
send_wheel name (some r) s =
    require r.status (do wheel ← or_fault index_error (find_wheel name r.files); ok (sent, s))

unfoldable pub do_send : Text → BuildSlave → Result Turn
unfolding send_wheel
do_send name s =
    require (is_some s.slave_id)
      (elim s.builder [ none ↦ err assertion | some b ↦ send_wheel name b.result s ])

unfoldable pub do_done : Surroundings → BuildSlave → Result Turn
unfolding clean_up_build
do_done w s =
    require (is_some s.slave_id)
      (require (is_some s.builder) (do s' ← clean_up_build w s; ok (idle w.status, s')))

unfoldable pub handle_reply : Surroundings → Reply → BuildSlave → Result Turn
unfolding do_ack do_sleep do_build do_cont do_send do_done
handle_reply w (ack new_id url) s = do_ack w new_id url s
handle_reply w (sleep paused) s = do_sleep w s
handle_reply w (build pkg version) s = do_build w pkg version s
handle_reply w cont s = do_cont w s
handle_reply w (send name) s = do_send name s
handle_reply w finished s = do_done w s
handle_reply w die s = err system_exit

-- A slave that has just connected, and sends HELLO.
unfoldable pub connected : BuildSlave
connected = record { slave_id = none; pypi_url = none; builder = none }
