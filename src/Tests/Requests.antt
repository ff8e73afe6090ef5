-- ===== src/Tests/Requests.antt =====
-- Runs of Seraph.
use piwheels.Prelude.{◌+◌, ◌≡◌, List, [], ◌∷◌, ◌++◌, Text, text}
use piwheels.Seraph.{Message, Seraph, Happening, arrives, polled, is_ready, answered, run}
use piwheels.Seraph.Sharing.{total, count_arrivals, run-total}
use piwheels.Seraph.Turns.{schedule, waiting, answers_to, run-schedule}

abbrev from : Text → Message
from client = record { client = client; body = text "q" }

abbrev no_workers : Seraph
no_workers = record { workers = []; front = []; busy = []; answers = [] }

-- The first poll finds no worker.
abbrev some_traffic : List Happening
some_traffic =
    arrives (from (text "a"))
    ∷ polled
    ∷ is_ready (text "w")
    ∷ arrives (from (text "b"))
    ∷ polled
    ∷ answered (text "w") (text "r")
    ∷ []

run-total_example :
    total (text "a") (run some_traffic no_workers)
    ≡ total (text "a") no_workers + count_arrivals (text "a") some_traffic
run-total_example = run-total (text "a") some_traffic no_workers

abbrev two_requests : List Message
two_requests = from (text "a") ∷ from (text "b") ∷ []

run-schedule_example :
    (v : Text) × (vs : List Text) × (run
        (schedule (λ q. text "r" ++ q) two_requests (text "w" ∷ []))
        (waiting (text "w") [] two_requests [])
      ≡ waiting v vs [] ([] ++ answers_to (λ q. text "r" ++ q) two_requests))
run-schedule_example = run-schedule (λ q. text "r" ++ q) (text "w") [] two_requests []
