-- ===== src/Tests/Slaves.antt =====
-- Runs of SlaveDriver.
use piwheels.Prelude.{refl, true, false, none, some, [], ◌∷◌, text, list_eq, nat_eq, ◌≡◌, map}
use piwheels.Slave.{Hello, Request, built, SlaveState, build, sent, die}
use piwheels.Result.{ok}
use piwheels.Driver.{Answer, dispatch, Driver, Env, handle_slave}
use piwheels.Driver.Replies.{may_reply, dispatch-may_reply}
use piwheels.Driver.Control.{skip_slave, handle_control, remove_expired, handle_delete}
use piwheels.Driver.Upkeep.{Controls, handle_control-Controls}
use piwheels.Driver.Expiry.{late, alive, farewell, remove_expired_lem}
use piwheels.Driver.Deletions.{Deletes, handle_delete-Deletes}
use piwheels.Dict.{values}
use piwheels.Driver.Invariant.{Inv}
use piwheels.Driver.Total.{Goes, handle_slave-Goes}
use piwheels.Tests.Files.{file_of}
use piwheels.Files.{file_as_message}

abbrev pub pi4 : Hello
pi4 = record {
  build_timeout = 300;
  busy_timeout = 600;
  native_py_version = text "37";
  native_abi = text "cp37m";
  native_platform = text "linux_armv7l";
  label = text "pi4";
  os_name = text "Raspbian";
  os_version = text "10";
  board_revision = text "c03111";
  board_serial = text "1";
}

-- A slave that was told to build foo 0.1.
abbrev builder : SlaveState
builder = record {
  address = text "s1";
  slave_id = 1;
  info = pi4;
  first_seen = 0;
  last_seen = 10;
  request = none;
  reply = some (build (text "foo") (text "0.1"));
  current = none;
  stats = [];
  clock_skew = none;
  killed = false;
  skipped = false;
  paused = false;
}

abbrev pub one_slave : Driver
one_slave = record {
  builds = record { abi_queues = []; excluded_builds = [] };
  slaves = (text "s1", builder) ∷ [];
  paused = false;
  counter = 1;
  pypi_simple = text "https://pypi.org/simple";
}

abbrev pub answering : Env
answering = record { now = 60; rpc_ok = true; verify_ok = true; build_id = 7 }

abbrev two_files : Request
two_files = built (record {
  status = true;
  duration = 50;
  output = text "";
  files =
      file_as_message (file_of (text "b") false) ∷ file_as_message (file_of (text "a") false) ∷ [];
})

one_slave-Inv : Inv one_slave
one_slave-Inv = (record { keyed = refl; abi = refl; replied = tt }, tt)

handle_slave-Goes_example : Goes (handle_slave answering (text "s1") two_files one_slave)
handle_slave-Goes_example =
    handle_slave-Goes answering (text "s1") two_files one_slave refl tt one_slave-Inv

handle_control-Controls_example :
    Controls (skip_slave (some 1)) one_slave (handle_control (skip_slave (some 1)) one_slave)
handle_control-Controls_example =
    handle_control-Controls (skip_slave (some 1)) one_slave tt one_slave-Inv

remove_expired_lem_example :
    (remove_expired 1000 one_slave
      ≡ ok (
        record one_slave { slaves = alive 1000 one_slave.slaves },
        map farewell (values (late 1000 one_slave.slaves)),
      ))
    × Inv (record one_slave { slaves = alive 1000 one_slave.slaves })
remove_expired_lem_example = remove_expired_lem 1000 one_slave one_slave-Inv

handle_delete-Deletes_example :
    Deletes 20
      (text "foo", none)
      (text "cp37m" ∷ [])
      one_slave
      (handle_delete 20 (text "foo", none) (text "cp37m" ∷ []) one_slave)
handle_delete-Deletes_example =
    handle_delete-Deletes 20 (text "foo", none) (text "cp37m" ∷ []) one_slave one_slave-Inv

abbrev told_to_die : Answer
told_to_die = record { reply = some die; driver = one_slave; slave = builder; effects = [] }

sent_early : dispatch answering one_slave builder sent ≡ ok told_to_die
unfolding dispatch
sent_early = refl

dispatch-may_reply_example : may_reply (build (text "foo") (text "0.1")) sent (some die) ≡ true
dispatch-may_reply_example =
    dispatch-may_reply answering one_slave builder (build (text "foo") (text "0.1")) sent
      told_to_die refl sent_early
