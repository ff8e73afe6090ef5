-- ===== src/Tests/Changelog.antt =====
-- Runs of PyPIBuffer.
use piwheels.Prelude.{
  ℕ, list_eq, nat_eq, ◌≡◌, refl, arith, true, none, some, List, [], ◌∷◌, ◌++◌, text, inl,
}
use piwheels.Result.{ok}
use piwheels.Pypi.{Event, PypiBuffer, read, sort, sort_into}
use piwheels.Pypi.Steps.{Reads, read-Reads}
use piwheels.Pypi.Batches.{Started, reads, concat, in_time, reads-sort}

abbrev event : ℕ → ℕ → Event
event time serial = record {
  pkg = text "foo";
  version = none;
  timestamp = time;
  action = text "create";
  serial = serial;
}

-- A buffer whose position is the event 700000, at time 1000.
abbrev begun : PypiBuffer
begun = record {
  wanted = 700000;
  buffer = event 1000 700000 ∷ [];
  next_serial = 700000;
  serial_timestamp = some 1000;
}

abbrev two_batches : List (List Event)
two_batches =
    (event 1500 700001 ∷ event 1400 700002 ∷ []) ∷ (event 1600 700003 ∷ event 2000 700004 ∷ []) ∷ []

begun-Started : Started begun
unfolding sort_into
begun-Started = record {
  first = event 1000 700000;
  rest = [];
  holds = inl (refl, omega arith);
  timestamp = refl;
  wanted = refl;
  sorted = refl;
}

two_batches-in_time : in_time two_batches begun ≡ true
unfolding in_time
two_batches-in_time = refl

-- The first read puts the position at time 1400; an event of time 1300 that comes later is lost.
event_lost :
    reads
      ((event 1500 700001 ∷ event 1400 700002 ∷ [])
        ∷ (event 1300 700003 ∷ event 2500 700004 ∷ [])
        ∷ [])
      begun
    ≡ ok (
      event 1000 700000 ∷ event 1400 700002 ∷ event 1500 700001 ∷ [],
      record {
        wanted = 700004;
        buffer = event 2500 700004 ∷ [];
        next_serial = 700004;
        serial_timestamp = some 2500;
      },
    )
unfolding reads
event_lost = refl

reads-sort_example :
    (outs : List Event) × (b' : PypiBuffer) × (reads two_batches begun ≡ ok (outs, b'))
    × (outs ++ sort b'.buffer ≡ sort (begun.buffer ++ concat two_batches))
reads-sort_example = reads-sort two_batches begun begun-Started two_batches-in_time

read-Reads_example : Reads begun (event 1500 700001 ∷ []) (read (event 1500 700001 ∷ []) begun)
read-Reads_example = read-Reads (event 1500 700001 ∷ []) begun (inl (refl, omega arith))
