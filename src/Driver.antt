-- ===== src/Driver.antt =====
-- SlaveDriver (piwheels/master/slave_driver.py): the task that answers the build slaves.
pub mod Control
pub mod Invariant
pub mod Handlers
pub mod Total
pub mod Marks
pub mod Upkeep
pub mod Expiry
pub mod Deletions
pub mod Replies
use piwheels.Prelude.{
  list_eq, nat_eq, ◌==◌, ℕ, suc, ◌+◌, ◌≡◌, Bool, true, false, not, ◌&&◌, ◌||◌, Option, none, some,
  List, [], ◌∷◌, ◌++◌, map, Text, text, if◌then◌else◌,
}
use piwheels.Dict.{Dict, lookup, insert, remove}
use piwheels.Result.{
  Result, ok, err, or_fault, no_reply, no_build, key_error, rpc_error, task_quit, ◌>>=◌,
}
use piwheels.Files.{
  FileState, FileMessage, BuildState, BuildMessage, file_as_message, build_as_message, verified,
  next_file, transfers_done, logged,
}
use piwheels.Slave.{
  Hello, SlaveState, Request, hello, bye, idle, busy, built, sent, Reply, ack, die, cont, finished,
  sleep, build, send, Status, new_slave, set_request, set_reply, kill, skip, pause, wake, expired,
  announce,
}
use piwheels.Builds.{Key, Queue, Builds, refresh, delete, take_build, queue_sizes, deletes}
use piwheels.Armv6.{build_armv6l_hack}

-- `counter` is SlaveState.counter, the number of slaves so far.
pub record Driver : Type 0 where
  pub builds : Builds
  pub slaves : Dict Text SlaveState
  pub paused : Bool
  pub counter : ℕ
  pub pypi_simple : Text

-- What the task sends, in order.
pub data Effect : Type 0 where
  status : Status → Effect
  queue_stats : Dict Text ℕ → Effect
  expect : ℕ → FileMessage → Effect
  verify : ℕ → Text → Effect
  log_build : BuildMessage → Effect
  write_log : Option ℕ → Text → Effect
  write_project write_both : Text → Effect
  reply_to : Text → Reply → Effect
  deletion_done : Effect

-- What the other tasks answer while one message is handled: the clock, whether EXPECT and LOGBUILD
-- succeed, whether VERIFY does, and the id that the database gives a build.
pub record Env : Type 0 where
  pub now : ℕ
  pub rpc_ok : Bool
  pub verify_ok : Bool
  pub build_id : ℕ

-- A handler's reply, if any, with the task, the slave and the messages sent.
pub record Answer : Type 0 where
  pub reply : Option Reply
  pub driver : Driver
  pub slave : SlaveState
  pub effects : List Effect

abbrev pub answer : Reply → Driver → SlaveState → List Effect → Result Answer
answer r d s es = ok (record { reply = some r; driver = d; slave = s; effects = es })

unfoldable pub do_hello : Driver → SlaveState → Result Answer
unfolding insert
do_hello d s =
    answer (ack s.slave_id d.pypi_simple) (record d { slaves = insert s.address s d.slaves }) s []

unfoldable pub do_bye : Driver → SlaveState → Result Answer
unfolding set_reply remove
do_bye d s = do
  (s', told) ← set_reply die s
  ok (record {
    reply = none;
    driver = record d { slaves = remove s.address d.slaves };
    slave = s';
    effects = map status told;
  })

-- slave.reply[0] in ('ACK', 'SLEEP', 'DONE')
abbrev pub is_free : Reply → Bool
is_free (ack id url) = true
is_free (sleep b) = true
is_free finished = true
is_free other = false

unfoldable pub give_build : Driver → SlaveState → Option (Text × Text) × Builds → Result Answer
unfolding queue_sizes
give_build d s (none, b) = answer (sleep false) (record d { builds = b }) s []
give_build d s (some (pkg, version), b) =
    answer (build pkg version) (record d { builds = b }) s (queue_stats (queue_sizes b) ∷ [])

unfoldable pub do_idle : Env → Driver → SlaveState → Result Answer
unfolding give_build take_build
do_idle env d s = do
  last ← or_fault no_reply s.reply
  if not (is_free last)
      then answer die d s []
      else if s.killed
      then answer die d s []
      else if d.paused
      then answer (sleep true) d s []
      else give_build d s (take_build (env.now + s.build_timeout) s.native_abi d.builds)

unfoldable pub do_busy : Driver → SlaveState → Result Answer
do_busy d s = if s.skipped then answer finished d s [] else answer cont d s []

-- self.fs.expect(slave_id, files[next_file]), and the reply SEND with that name
unfoldable pub expect_next : Env → Driver → SlaveState → BuildState → List Effect → Result Answer
unfolding next_file lookup file_as_message
expect_next env d s b before = do
  name ← or_fault key_error (next_file b)
  file ← or_fault key_error (lookup name b.files)
  if env.rpc_ok
      then answer (send name) d s (before ++ expect s.slave_id (file_as_message file) ∷ [])
      else err rpc_error

-- db.log_build, and the messages LOG and PROJECT or BOTH to the web tasks
unfoldable pub finish_build :
    Env → Driver → SlaveState → BuildState → List Effect → Effect → Result Answer
unfolding logged build_as_message
finish_build env d s b before last =
    let b' = logged b env.build_id in
    if env.rpc_ok
    then answer finished d (record s { current = some b' })
        (before ++ log_build (build_as_message b) ∷ write_log b'.build_id b'.output ∷ last ∷ [])
    else err rpc_error

unfoldable pub is_build : Reply → Bool
is_build (build pkg version) = true
is_build other = false

-- The end of `do_built`, for a build after the armv6l hack.
unfoldable pub start_transfers : Env → Driver → SlaveState → BuildState → Result Answer
unfolding expect_next finish_build transfers_done
start_transfers env d s b =
    if b.status && not (transfers_done b)
    then expect_next env d s b []
    else finish_build env d s b [] (write_project b.pkg)

unfoldable pub take_built : Env → Driver → SlaveState → Result Answer
unfolding start_transfers build_armv6l_hack
take_built env d s = do
  b ← or_fault no_build s.current
  let b' = build_armv6l_hack b
  start_transfers env d (record s { current = some b' }) b'

unfoldable pub do_built : Env → Driver → SlaveState → Result Answer
unfolding is_build take_built
do_built env d s = do
  last ← or_fault no_reply s.reply
  if not (is_build last)
      then answer die d s []
      else if s.skipped
      then answer finished d s []
      else take_built env d s

unfoldable pub is_send : Reply → Bool
is_send (send name) = true
is_send other = false

-- files[next_file].verified()
unfoldable pub mark_verified : BuildState → Result BuildState
unfolding next_file lookup insert verified
mark_verified b = do
  name ← or_fault key_error (next_file b)
  file ← or_fault key_error (lookup name b.files)
  ok (record b { files = insert name (verified file) b.files })

-- The end of `do_sent`, after a transfer that was verified.
unfoldable pub next_transfer : Env → Driver → SlaveState → BuildState → List Effect → Result Answer
unfolding expect_next finish_build transfers_done
next_transfer env d s b asked =
    if transfers_done b
    then finish_build env d s b asked (write_both b.pkg)
    else expect_next env d s b asked

unfoldable pub take_sent : Env → Driver → SlaveState → Result Answer
unfolding mark_verified next_transfer expect_next
take_sent env d s = do
  b ← or_fault no_build s.current
  let asked = verify s.slave_id b.pkg ∷ []
  if env.verify_ok
      then (do b' ← mark_verified b; next_transfer env d (record s { current = some b' }) b' asked)
      else expect_next env d s b asked

unfoldable pub do_sent : Env → Driver → SlaveState → Result Answer
unfolding is_send take_sent
do_sent env d s = do
  last ← or_fault no_reply s.reply
  if is_send last then take_sent env d s else answer die d s []

unfoldable pub dispatch : Env → Driver → SlaveState → Request → Result Answer
unfolding do_hello do_bye do_idle do_busy do_built do_sent
dispatch env d s (hello h) = do_hello d s
dispatch env d s bye = do_bye d s
dispatch env d s (idle stats) = do_idle env d s
dispatch env d s (busy stats) = do_busy d s
dispatch env d s (built data') = do_built env d s
dispatch env d s sent = do_sent env d s

-- The slave is one object, so the table sees what was written to it.
unfoldable pub deliver : Text → List Effect → Answer → Result (Driver × List Effect)
unfolding set_reply insert
deliver address told a = elim a.reply [
  | none ↦ ok (a.driver, told ++ a.effects)
  | some r ↦ (do
    (s, heard) ← set_reply r a.slave
    ok (
      record a.driver { slaves = insert address s a.driver.slaves },
      told ++ a.effects ++ map status heard ++ reply_to address r ∷ [],
    ))
]

unfoldable pub serve : Env → Text → Request → Driver → SlaveState → Result (Driver × List Effect)
unfolding set_request dispatch deliver
serve env address r d s = do
  (s', told) ← set_request env.now r s
  a ← dispatch env d s' r
  deliver address (map status told) a

-- The first message of a slave must be HELLO; any other is logged and dropped.
unfoldable pub first_message : Env → Text → Request → Driver → Result (Driver × List Effect)
unfolding serve new_slave
first_message env address (hello h) d =
    let id = d.counter + 1 in
    serve env address (hello h) (record d { counter = id }) (new_slave env.now address id h)
first_message env address other d = ok (d, [])

unfoldable pub handle_slave : Env → Text → Request → Driver → Result (Driver × List Effect)
unfolding first_message serve lookup
handle_slave env address r d = elim (lookup address d.slaves) [
  | none ↦ first_message env address r d
  | some s ↦ serve env address r d s
]
