-- ===== src/Tests/Controls.antt =====
-- Runs of the tasks' control handlers.
use piwheels.Prelude.{◌≡◌, refl, false, [], ◌∷◌, if◌then◌else◌}
use piwheels.Tasks.{
  failed, run, pauseable, pause, resume, run_pausing, run_pauseable, run_non_stop, unpaused,
  pauses_again, run_pauseable-run_pausing,
}

paused_twice : run_pauseable false (pause ∷ pause ∷ []) ≡ failed
unfolding run pauseable
paused_twice = refl

run_pauseable-run_pausing_example :
    (run_pauseable false (pause ∷ resume ∷ pause ∷ []) ≡ (
      if pauses_again false (pause ∷ resume ∷ pause ∷ [])
      then failed
      else run_pausing false (pause ∷ resume ∷ pause ∷ [])))
    × (run_non_stop (pause ∷ resume ∷ pause ∷ [])
        ≡ unpaused (run_pausing false (pause ∷ resume ∷ pause ∷ [])))
run_pauseable-run_pausing_example = run_pauseable-run_pausing false (pause ∷ resume ∷ pause ∷ [])
