-- ===== src/Tasks.antt =====
-- How the tasks of the master take control messages (piwheels/tasks.py): Task, NonStopTask, PausingTask and
-- PauseableTask.
use piwheels.Prelude.{◌≡◌, refl, Bool, true, false, List, [], ◌∷◌, Text, if◌then◌else◌}

-- A message of the internal control queue; the tasks have others of their own.
pub data ControlMessage : Type 0 where
  quit pause resume : ControlMessage
  custom : Text → ControlMessage

-- What a handler does: it returns, with the task paused or not, or raises TaskQuit or TaskControl.
pub data Outcome : Type 0 where
  returns : Bool → Outcome
  raises_quit : Outcome
  raises_control : ControlMessage → Outcome

-- Task.handle_control
unfoldable pub handle_control : ControlMessage → Outcome
handle_control quit = raises_quit
handle_control msg = raises_control msg

-- NonStopTask.handle_control, where `except TaskControl` takes what the base class raised
unfoldable pub non_stop : Outcome → Outcome
non_stop (raises_control pause) = returns false
non_stop (raises_control resume) = returns false
non_stop other = other

-- PausingTask.handle_control, of a task that is paused or not; `resume` while not paused only warns
unfoldable pub pausing : Bool → Outcome → Outcome
pausing paused (raises_control pause) = returns true
pausing paused (raises_control resume) = returns false
pausing paused other = other

-- The loop of PauseableTask.handle_control, which reads the control queue itself
unfoldable pub while_paused : ControlMessage → Outcome
while_paused quit = raises_quit
while_paused resume = returns false
while_paused msg = raises_control msg

-- PauseableTask.handle_control outside of that loop, which PAUSE enters
unfoldable pub when_running : Outcome → Outcome
when_running (raises_control pause) = returns true
when_running (raises_control resume) = returns false
when_running other = other

-- With `true` the task is inside its loop.
unfoldable pub pauseable : Bool → ControlMessage → Outcome
unfolding handle_control while_paused when_running
pauseable true msg = while_paused msg
pauseable false msg = when_running (handle_control msg)

-- Where the task is after all the messages: it goes on, paused or not, or it stopped as told, or an
-- exception ended it, and with it the master.
pub data End : Type 0 where
  goes_on : Bool → End
  stopped failed : End

unfoldable pub run : (Bool → ControlMessage → Outcome) → Bool → List ControlMessage → End
run handle paused [] = goes_on paused
run handle paused (msg ∷ msgs) = elim (handle paused msg) [
  | returns b ↦ run handle b msgs
  | raises_quit ↦ stopped
  | raises_control other ↦ failed
]

abbrev pub run_non_stop : List ControlMessage → End
run_non_stop = run (λ paused msg. non_stop (handle_control msg)) false

abbrev pub run_pausing : Bool → List ControlMessage → End
run_pausing = run (λ paused msg. pausing paused (handle_control msg))

abbrev pub run_pauseable : Bool → List ControlMessage → End
run_pauseable = run pauseable

-- A task that is paused is told to pause again, before it is told to quit.
unfoldable pub pauses_again : Bool → List ControlMessage → Bool
pauses_again paused [] = false
pauses_again paused (quit ∷ msgs) = false
pauses_again paused (resume ∷ msgs) = pauses_again false msgs
pauses_again true (pause ∷ msgs) = true
pauses_again false (pause ∷ msgs) = pauses_again true msgs
pauses_again paused (custom name ∷ msgs) = false

-- Without the pause.
unfoldable pub unpaused : End → End
unpaused (goes_on paused) = goes_on false
unpaused stopped = stopped
unpaused failed = failed

run_pauseable-pauses_again :
    (paused : Bool) (msgs : List ControlMessage)
    → run_pauseable paused msgs
      ≡ (if pauses_again paused msgs then failed else run_pausing paused msgs)
unfolding run pauseable pausing handle_control while_paused when_running pauses_again
run_pauseable-pauses_again true [] = refl
run_pauseable-pauses_again false [] = refl
run_pauseable-pauses_again true (quit ∷ msgs) = refl
run_pauseable-pauses_again false (quit ∷ msgs) = refl
run_pauseable-pauses_again true (resume ∷ msgs) = run_pauseable-pauses_again false msgs
run_pauseable-pauses_again false (resume ∷ msgs) = run_pauseable-pauses_again false msgs
run_pauseable-pauses_again true (pause ∷ msgs) = refl
run_pauseable-pauses_again false (pause ∷ msgs) = run_pauseable-pauses_again true msgs
run_pauseable-pauses_again true (custom name ∷ msgs) = refl
run_pauseable-pauses_again false (custom name ∷ msgs) = refl

run_non_stop-unpaused :
    (paused : Bool) (msgs : List ControlMessage)
    → run_non_stop msgs ≡ unpaused (run_pausing paused msgs)
unfolding run non_stop pausing handle_control unpaused
run_non_stop-unpaused paused [] = refl
run_non_stop-unpaused paused (quit ∷ msgs) = refl
run_non_stop-unpaused paused (resume ∷ msgs) = run_non_stop-unpaused false msgs
run_non_stop-unpaused paused (pause ∷ msgs) = run_non_stop-unpaused true msgs
run_non_stop-unpaused paused (custom name ∷ msgs) = refl

-- The three kinds of task agree on the control messages: a NonStopTask ends up where a PausingTask
-- would, except that it is never paused, and so does a PauseableTask, unless it is told to pause again
-- while it is paused: then an exception ends it.
pub run_pauseable-run_pausing :
    (paused : Bool) (msgs : List ControlMessage)
    → (run_pauseable paused msgs
        ≡ (if pauses_again paused msgs then failed else run_pausing paused msgs))
      × (run_non_stop msgs ≡ unpaused (run_pausing paused msgs))
run_pauseable-run_pausing paused msgs =
    (run_pauseable-pauses_again paused msgs, run_non_stop-unpaused paused msgs)
