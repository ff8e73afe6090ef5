-- ===== src/Seraph.antt =====
-- Seraph (piwheels/master/seraph.py), which shares the requests of the database's clients among the
-- workers (TheOracle), with the queues around it.
pub mod Sharing
pub mod Turns
use piwheels.Prelude.{
  ℕ, list_eq, nat_eq, ◌==◌, ◌≡◌, Bool, true, false, Option, none, some, List, [], ◌∷◌, ◌++◌, Text,
  if◌then◌else◌,
}

-- A message of a client or for it: the client's address and the body.
pub record Message : Type 0 where
  pub client : Text
  pub body : Text

-- What a worker sends: that it is ready, or the answer to the request that it had.
pub data FromWorker : Type 0 where
  ready : FromWorker
  response : Message → FromWorker

-- `workers` is Seraph's list. `front` has the requests that wait in the front queue, `busy` those that
-- were sent on and wait for an answer, and `answers` what was sent back to the clients.
pub record Seraph : Type 0 where
  pub workers : List Text
  pub front : List Message
  pub busy : List (Text × Message)
  pub answers : List Message

-- The first request goes to the first worker; without a worker it is left in the queue.
unfoldable pub hand_out : List Message → List Text → Seraph → Seraph
hand_out [] ws s = s
hand_out (m ∷ ms) [] s = s
hand_out (m ∷ ms) (w ∷ ws) s = record s { workers = ws; front = ms; busy = s.busy ++ (w, m) ∷ [] }

-- Called when a request waits.
unfoldable pub handle_front : Seraph → Seraph
unfolding hand_out
handle_front s = hand_out s.front s.workers s

unfoldable pub handle_back : Text → FromWorker → Seraph → Seraph
handle_back w ready s = record s { workers = s.workers ++ w ∷ [] }
handle_back w (response m) s = record s {
  workers = s.workers ++ w ∷ [];
  answers = s.answers ++ m ∷ [];
}

-- The request that a worker has, and those of the others.
unfoldable pub take_out : Text → List (Text × Message) → Option (Message × List (Text × Message))
take_out w [] = none
take_out w ((v, m) ∷ busy) =
    let rest : Option (Message × List (Text × Message)) = take_out w busy in
    if w == v
    then some (m, busy)
    else elim rest [ none ↦ none | some (n, left) ↦ some (n, (v, m) ∷ left) ]

-- What can happen: a request arrives, Seraph polls its front queue, a worker is ready, or a worker
-- answers the request that it has, to the client that it was told.
pub data Happening : Type 0 where
  arrives : Message → Happening
  polled : Happening
  is_ready : Text → Happening
  answered : Text → Text → Happening

unfoldable pub happen : Happening → Seraph → Seraph
unfolding handle_front handle_back take_out
happen (arrives m) s = record s { front = s.front ++ m ∷ [] }
happen polled s = handle_front s
happen (is_ready w) s = handle_back w ready s
happen (answered w body) s = elim (take_out w s.busy) [
  | none ↦ s
  | some (m, left) ↦ handle_back w (response (record m { body = body })) (record s { busy = left })
]

unfoldable pub run : List Happening → Seraph → Seraph
unfolding happen
run [] s = s
run (e ∷ es) s = run es (happen e s)
