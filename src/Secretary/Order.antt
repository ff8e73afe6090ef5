-- ===== src/Secretary/Order.antt =====
-- The buffer of TheSecretary is in the order of its times, and what stays in it is not due.
use piwheels.Prelude.{
  ℕ, ◌-◌, ◌≤◌, list_eq, nat_eq, ◌≡◌, false, List, [], ◌∷◌, ◌++◌, Text, ltb, arith, Bool-cases, inl,
  inr, All, ◌==◌,
}
use piwheels.Dict.{Dict, has}
use piwheels.Result.{ok}
use piwheels.Secretary.{
  Command, WebRequest, home, search, log, write, delete_package, delete_version, Secretary,
  delete_first, expunge, request_write, handle_input, handle_output,
}
use piwheels.Secretary.Buffer.{IsValid}
use piwheels.Secretary.Output.{Waits, handle_output-Passes}

-- The times ascend from `lo` on, and end by `hi`.
abbrev pub Ascends : ℕ → ℕ → Dict Text ℕ → Type 0
Ascends lo hi [] = lo ≤ hi
Ascends lo hi ((p, at) ∷ b) = (lo ≤ at) × Ascends at hi b

Ascends-mono :
    (lo low hi high : ℕ) (b : Dict Text ℕ)
    → low ≤ lo
    → hi ≤ high
    → Ascends lo hi b
    → Ascends low high b
Ascends-mono lo low hi high [] l h a = omega arith
Ascends-mono lo low hi high ((p, at) ∷ b) l h a =
    (omega arith, Ascends-mono at at hi high b (omega arith) h a.1)

append_one-Ascends :
    (lo hi now : ℕ) (p : Text) (b : Dict Text ℕ)
    → hi ≤ now
    → Ascends lo hi b
    → Ascends lo now (b ++ (p, now) ∷ [])
append_one-Ascends lo hi now p [] h a = (omega arith, omega arith)
append_one-Ascends lo hi now p ((q, at) ∷ b) h a = (a.0, append_one-Ascends at hi now p b h a.1)

delete_first-Ascends :
    (lo hi : ℕ) (p : Text) (b : Dict Text ℕ) → Ascends lo hi b → Ascends lo hi (delete_first p b)
unfolding delete_first
delete_first-Ascends lo hi p [] a = a
delete_first-Ascends lo hi p ((q, at) ∷ b) a = elim (Bool-cases (q == p)) [
  | inl same ↦ rw same (Ascends-mono at lo hi hi b a.0 (omega arith) a.1)
  | inr other ↦ rw other (a.0, delete_first-Ascends at hi p b a.1)
]

expunge-Ascends :
    (lo hi : ℕ) (p : Text) (s : Secretary)
    → Ascends lo hi s.buffer
    → Ascends lo hi (expunge p s).buffer
unfolding expunge
expunge-Ascends lo hi p s a = elim (Bool-cases (has p s.commands)) [
  | inl known ↦ rw known (delete_first-Ascends lo hi p s.buffer a)
  | inr new ↦ rw new a
]

request_write-Ascends :
    (hi now : ℕ) (c : Command) (p : Text) (s : Secretary)
    → hi ≤ now
    → Ascends 0 hi s.buffer
    → Ascends 0 now (request_write now c p s).buffer
unfolding request_write
request_write-Ascends hi now c p s h a = elim (Bool-cases (has p s.commands)) [
  | inl known ↦ rw known (Ascends-mono 0 0 hi now s.buffer (omega arith) h a)
  | inr new ↦ rw new (append_one-Ascends 0 hi now p s.buffer h a)
]

-- If the times of the buffer ascend and a message is handled at a time that is not before the last
-- of them, they still ascend, up to that time: no message changes the place or the time of a task.
pub handle_input-Ascends :
    {D : Type 0} (hi now : ℕ) (r : WebRequest D) (s : Secretary)
    → hi ≤ now
    → Ascends 0 hi s.buffer
    → Ascends 0 now (handle_input now r s).0.buffer
unfolding handle_input
handle_input-Ascends hi now (home d) s h a = Ascends-mono 0 0 hi now _ (omega arith) h a
handle_input-Ascends hi now (search d) s h a = Ascends-mono 0 0 hi now _ (omega arith) h a
handle_input-Ascends hi now (log d) s h a = Ascends-mono 0 0 hi now _ (omega arith) h a
handle_input-Ascends hi now (delete_package p) s h a =
    Ascends-mono 0 0 hi now _ (omega arith) h (expunge-Ascends 0 hi p s a)
handle_input-Ascends hi now (delete_version p version) s h a =
    Ascends-mono 0 0 hi now _ (omega arith) h (expunge-Ascends 0 hi p s a)
handle_input-Ascends hi now (write c p) s h a = request_write-Ascends hi now c p s h a

abbrev pub IsEarly : ℕ → ℕ → Text × ℕ → Type 0
IsEarly now timeout (p, at) = ltb timeout (now - at) ≡ false

Ascends-later :
    (now timeout lo hi : ℕ) (b : Dict Text ℕ)
    → now - lo ≤ timeout
    → Ascends lo hi b
    → All (IsEarly now timeout) b
Ascends-later now timeout lo hi [] h a = tt
Ascends-later now timeout lo hi ((p, at) ∷ b) h a =
    (ground arith, Ascends-later now timeout at hi b (omega arith) a.1)

Ascends-rest :
    (lo hi : ℕ) (front rest : Dict Text ℕ) → Ascends lo hi (front ++ rest) → Ascends 0 hi rest
Ascends-rest lo hi [] rest a = Ascends-mono lo 0 hi hi rest (omega arith) (omega arith) a
Ascends-rest lo hi ((p, at) ∷ front) rest a = Ascends-rest at hi front rest a.1

Waits-IsEarly :
    (now timeout hi : ℕ) (b : Dict Text ℕ)
    → Waits now timeout b
    → Ascends 0 hi b
    → All (IsEarly now timeout) b
Waits-IsEarly now timeout hi [] w a = tt
Waits-IsEarly now timeout hi ((p, at) ∷ b) w a =
    (w, Ascends-later now timeout at hi b (ground arith) a.1)

-- If the times of the buffer ascend, then after a run of `handle_output` that is not paused nothing
-- in the buffer is overdue.
pub handle_output-IsEarly :
    (now hi : ℕ) (s : Secretary)
    → IsValid s
    → s.paused ≡ false
    → Ascends 0 hi s.buffer
    → (s' : Secretary) × (sent : List (Command × Text)) × (handle_output now s ≡ ok (s', sent))
      × All (IsEarly now s.timeout) s'.buffer
handle_output-IsEarly now hi s v on a =
    let (s', sent, e, w) = handle_output-Passes now s v on in
    (
      s',
      sent,
      e,
      Waits-IsEarly now s.timeout hi s'.buffer w.waits
          (Ascends-rest 0 hi w.front s'.buffer (rw w.split at a)),
    )
