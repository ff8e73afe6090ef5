-- ===== src/Seraph/Sharing.antt =====
-- The requests to the database are kept count of (piwheels/master/seraph.py).
use piwheels.Prelude.{
  ℕ, suc, ◌+◌, list_eq, nat_eq, ◌==◌, ◌≡◌, refl, subst, ap, Option, none, some, List, [], ◌∷◌, ◌++◌,
  Text, if◌then◌else◌, arith, Bool-cases, Option-cases, inl, inr,
}
use piwheels.Seraph.{
  Message, Seraph, hand_out, handle_front, handle_back, take_out, Happening, arrives, polled,
  is_ready, answered, happen, run,
}

-- How many messages are from a client or for it.
unfoldable pub count : Text → List Message → ℕ
count c [] = 0
count c (m ∷ ms) = let rest = count c ms in if c == m.client then suc rest else rest

unfoldable pub count_busy : Text → List (Text × Message) → ℕ
count_busy c [] = 0
count_busy c ((w, m) ∷ ms) = let rest = count_busy c ms in if c == m.client then suc rest else rest

unfoldable pub count_arrivals : Text → List Happening → ℕ
count_arrivals c [] = 0
count_arrivals c (arrives m ∷ es) =
    let rest = count_arrivals c es in if c == m.client then suc rest else rest
count_arrivals c (other ∷ es) = count_arrivals c es

-- A client's requests that wait, are being worked on, or were answered.
abbrev pub total : Text → Seraph → ℕ
total c s = count c s.front + count_busy c s.busy + count c s.answers

count-last :
    (c : Text) (ms : List Message) (m : Message)
    → count c (ms ++ m ∷ []) ≡ count c ms + (if c == m.client then 1 else 0)
unfolding count
count-last c [] m = ground arith
count-last c (x ∷ ms) m = ground (arith, count-last c ms m)

count_busy-last :
    (c : Text) (ms : List (Text × Message)) (w : Text) (m : Message)
    → count_busy c (ms ++ (w, m) ∷ []) ≡ count_busy c ms + (if c == m.client then 1 else 0)
unfolding count_busy
count_busy-last c [] w m = ground arith
count_busy-last c ((v, x) ∷ ms) w m = ground (arith, count_busy-last c ms w m)

-- What taking a request out leaves.
abbrev Taken : Text → List (Text × Message) → Option (Message × List (Text × Message)) → Type 0
Taken c busy none = Unit
Taken c busy (some (m, left)) =
    count_busy c busy ≡ count_busy c left + (if c == m.client then 1 else 0)

take_out-Taken : (c w : Text) (busy : List (Text × Message)) → Taken c busy (take_out w busy)
unfolding take_out count_busy
take_out-Taken c w [] = tt
take_out-Taken c w ((v, x) ∷ busy) = elim (Bool-cases (w == v)) [
  | inl same ↦ rw same (ground arith)
  | inr other ↦ rw other (elim (Option-cases (take_out w busy)) [
    | inl none_left ↦ rw none_left tt
    | inr ((m, left), found) ↦
        let rest : Taken c busy (some (m, left)) =
          subst (Taken c busy) found (take_out-Taken c w busy) in
        rw found (ground (arith, rest))
  ])
]

hand_out-total :
    (c : Text) (ms : List Message) (ws : List Text) (s : Seraph)
    → s.front ≡ ms
    → total c (hand_out ms ws s) ≡ total c s
unfolding hand_out count
hand_out-total c [] ws s e = refl
hand_out-total c (m ∷ ms) [] s e = refl
hand_out-total c (m ∷ ms) (w ∷ ws) s e =
    let front : count c s.front ≡ (if c == m.client then suc (count c ms) else count c ms) =
      ap (count c) e in
    ground (arith, front, count_busy-last c s.busy w m)

handle_front-total : (c : Text) (s : Seraph) → total c (handle_front s) ≡ total c s
unfolding handle_front
handle_front-total c s = hand_out-total c s.front s.workers s refl

happen-total :
    (c : Text) (e : Happening) (s : Seraph)
    → total c (happen e s) ≡ total c s + count_arrivals c (e ∷ [])
unfolding happen count_arrivals handle_back
happen-total c (arrives m) s = omega (arith, count-last c s.front m)
happen-total c polled s = omega (arith, handle_front-total c s)
happen-total c (is_ready w) s = omega arith
happen-total c (answered w body) s = elim (Option-cases (take_out w s.busy)) [
  | inl idle ↦ rw (idle, happen) (omega arith)
  | inr ((m, left), found) ↦
      rw (found, happen)
        (omega (
          arith,
          subst (Taken c s.busy) found (take_out-Taken c w s.busy),
          count-last c s.answers (record m { body = body }),
        ))
]

count_arrivals-cons :
    (c : Text) (e : Happening) (es : List Happening)
    → count_arrivals c (e ∷ es) ≡ count_arrivals c (e ∷ []) + count_arrivals c es
unfolding count_arrivals
count_arrivals-cons c (arrives m) es = ground arith
count_arrivals-cons c polled es = omega arith
count_arrivals-cons c (is_ready w) es = omega arith
count_arrivals-cons c (answered w body) es = omega arith

-- Whatever arrives and in whatever order Seraph polls and the workers are ready and answer: for each
-- client, the requests that wait, those that a worker has and the answers that were sent are together
-- as many as there were before and as have arrived since.
pub run-total :
    (c : Text) (es : List Happening) (s : Seraph)
    → total c (run es s) ≡ total c s + count_arrivals c es
unfolding run count count_busy count_arrivals
run-total c [] s = omega arith
run-total c (e ∷ es) s =
    omega (arith, run-total c es (happen e s), happen-total c e s, count_arrivals-cons c e es)
