-- ===== src/Driver/Control.antt =====
-- SlaveDriver (piwheels/master/slave_driver.py): what the clock and the other tasks ask of it.
use piwheels.Prelude.{
  list_eq, nat_eq, ◌==◌, ℕ, Bool, true, false, Option, none, some, List, [], ◌∷◌, ◌++◌, map, Text,
  if◌then◌else◌,
}
use piwheels.Dict.{Dict}
use piwheels.Result.{Result, ok, err, or_fault, no_reply, task_quit, ◌>>=◌}
use piwheels.Slave.{
  SlaveState, Reply, die, build, set_reply, kill, skip, pause, wake, expired, announce,
}
use piwheels.Builds.{Key, Queue, refresh, delete, queue_sizes, deletes}
use piwheels.Driver.{Driver, Effect, status, queue_stats, deletion_done}

-- remove_expired: `slave.reply[0]` fails for a slave that was never answered.
unfoldable pub expire : ℕ → Dict Text SlaveState → Result (Dict Text SlaveState × List Effect)
unfolding expired set_reply
expire now [] = ok ([], [])
expire now ((address, s) ∷ slaves) = do
  (kept, told) ← expire now slaves
  if expired now s
      then (do
        last ← or_fault no_reply s.reply
        (s', heard) ← set_reply die s
        ok (kept, map status heard ++ told))
      else ok ((address, s) ∷ kept, told)

unfoldable pub remove_expired : ℕ → Driver → Result (Driver × List Effect)
unfolding expire
remove_expired now d = do (kept, told) ← expire now d.slaves; ok (record d { slaves = kept }, told)

pub data Control : Type 0 where
  quit_task pause_task resume_task list_slaves : Control
  kill_slave sleep_slave skip_slave wake_slave : Option ℕ → Control

-- ctrl.data is None or slave.slave_id == ctrl.data
abbrev pub is_meant : Option ℕ → SlaveState → Bool
is_meant none s = true
is_meant (some id) s = s.slave_id == id

unfoldable pub on_slaves :
    (SlaveState → SlaveState) → Option ℕ → Dict Text SlaveState → Dict Text SlaveState
on_slaves f id [] = []
on_slaves f id ((address, s) ∷ slaves) =
    (address, (if is_meant id s then f s else s)) ∷ on_slaves f id slaves

unfoldable pub announce_all : Dict Text SlaveState → Result (List Effect)
unfolding announce
announce_all [] = ok []
announce_all ((address, s) ∷ slaves) = do
  told ← announce s
  rest ← announce_all slaves
  ok (map status told ++ rest)

-- `task_quit` is TaskQuit. RESUME only clears `paused`.
unfoldable pub handle_control : Control → Driver → Result (Driver × List Effect)
unfolding on_slaves announce_all kill skip pause wake
handle_control quit_task d = err task_quit
handle_control pause_task d = ok (record d { paused = true }, [])
handle_control resume_task d = ok (record d { paused = false }, [])
handle_control list_slaves d = do told ← announce_all d.slaves; ok (d, told)
handle_control (kill_slave id) d = ok (record d { slaves = on_slaves kill id d.slaves }, [])
handle_control (sleep_slave id) d = ok (record d { slaves = on_slaves pause id d.slaves }, [])
handle_control (skip_slave id) d = ok (record d { slaves = on_slaves skip id d.slaves }, [])
handle_control (wake_slave id) d = ok (record d { slaves = on_slaves wake id d.slaves }, [])

unfoldable pub handle_build :
    ℕ → List Text → Dict Text Queue → Driver → Result (Driver × List Effect)
unfolding refresh queue_sizes
handle_build now build_abis new_queues d = do
  b ← refresh now build_abis new_queues d.builds
  ok (record d { builds = b }, queue_stats (queue_sizes b) ∷ [])

unfoldable pub skip_if_deleted : Key → SlaveState → Reply → SlaveState
unfolding skip
skip_if_deleted key s (build pkg version) = if deletes key (pkg, version) then skip s else s
skip_if_deleted key s other = s

unfoldable pub skip_deleted : Key → Dict Text SlaveState → Result (Dict Text SlaveState)
unfolding skip_if_deleted
skip_deleted key [] = ok []
skip_deleted key ((address, s) ∷ slaves) = do
  last ← or_fault no_reply s.reply
  rest ← skip_deleted key slaves
  ok ((address, skip_if_deleted key s last) ∷ rest)

unfoldable pub handle_delete : ℕ → Key → List Text → Driver → Result (Driver × List Effect)
unfolding delete skip_deleted
handle_delete now key build_abis d = do
  slaves ← skip_deleted key d.slaves
  ok (record d { builds = delete now key build_abis d.builds; slaves = slaves }, deletion_done ∷ [])
