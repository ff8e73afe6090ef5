-- ===== src/Tests/Conversations.antt =====
-- A build slave's conversation with SlaveDriver.
use piwheels.Prelude.{list_eq, nat_eq, refl, true, false, none, List, [], ◌∷◌, text}
use piwheels.Slave.{new_slave, hello}
use piwheels.BuildSlave.{Surroundings, connected}
use piwheels.Conversation.{Moment, Ends, talk, talk-connected-Ends}
use piwheels.Tests.Slaves.{pi4, one_slave, answering}

abbrev idling : Surroundings
idling = record {
  status = record {
    timestamp = 0;
    disk_size = 1;
    disk_free = 1;
    mem_size = 1;
    mem_free = 1;
    swap_size = 1;
    swap_free = 1;
    load_average = 1;
    cpu_temp = 1;
  };
  ended = none;
  stops = true;
}

-- The slave is accepted, sleeps, and is killed.
abbrev three_moments : List Moment
three_moments =
    record { env = answering; driver = one_slave; killed = false; skipped = false; around = idling }
    ∷ record {
      env = answering;
      driver = one_slave;
      killed = false;
      skipped = false;
      around = idling;
    }
    ∷ record {
      env = answering;
      driver = one_slave;
      killed = true;
      skipped = false;
      around = idling;
    }
    ∷ []

talk-connected-Ends_example :
    Ends three_moments
      (talk three_moments (text "s2") (new_slave 5 (text "s2") 2 pi4) (hello pi4, connected))
talk-connected-Ends_example =
    talk-connected-Ends three_moments 5 (text "s2") 2 pi4 refl
      ((refl, refl), ((refl, refl), ((refl, refl), tt)))
