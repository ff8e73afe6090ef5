-- ===== src/Tests/Pages.antt =====
-- Runs of TheSecretary.
use piwheels.Prelude.{ℕ, ◌≡◌, refl, false, List, [], ◌∷◌, Text, text, All, arith, list_eq, nat_eq}
use piwheels.Dict.{has, lookup}
use piwheels.Result.{ok}
use piwheels.Secretary.{
  Command, project, both, WebRequest, write, Secretary, new_secretary, handle_input, handle_output,
  Pending, save, load,
}
use piwheels.Secretary.Buffer.{IsValid, handle_input-IsValid}
use piwheels.Secretary.Output.{Passes, handle_output-Passes}
use piwheels.Secretary.Order.{IsEarly, handle_output-IsEarly}
use piwheels.Secretary.Reload.{load-save}

abbrev foo : WebRequest ℕ
foo = write project (text "foo")

abbrev bar : WebRequest ℕ
bar = write both (text "bar")

-- foo is asked for at 10 and bar at 50.
abbrev one : Secretary
one = record {
  buffer = (text "foo", 10) ∷ [];
  commands = (text "foo", project) ∷ [];
  paused = false;
  timeout = 60;
}

abbrev two : Secretary
two = record {
  buffer = (text "foo", 10) ∷ (text "bar", 50) ∷ [];
  commands = (text "foo", project) ∷ (text "bar", both) ∷ [];
  paused = false;
  timeout = 60;
}

two_by : (handle_input 50 bar (handle_input 10 foo (new_secretary 60)).0).0 ≡ two
unfolding handle_input new_secretary
two_by = refl

output_two :
    handle_output 100 two
    ≡ ok (
      record two { buffer = (text "bar", 50) ∷ []; commands = (text "bar", both) ∷ [] },
      (project, text "foo") ∷ [],
    )
unfolding handle_output
output_two = refl

new-IsValid : IsValid (new_secretary 60)
unfolding new_secretary has
new-IsValid = record { nodup = tt; same = λ p. refl }

one-IsValid : IsValid one
unfolding handle_input new_secretary
one-IsValid = handle_input-IsValid 10 foo (new_secretary 60) new-IsValid

two-IsValid : IsValid two
unfolding handle_input
two-IsValid = handle_input-IsValid 50 bar one one-IsValid

handle_input-IsValid_example : IsValid (handle_input 50 bar one).0
handle_input-IsValid_example = handle_input-IsValid 50 bar one one-IsValid

handle_output-Passes_example :
    (s' : Secretary) × (sent : List (Command × Text)) × (handle_output 100 two ≡ ok (s', sent))
    × Passes 100 60 two.buffer two.commands s'.buffer s'.commands sent
handle_output-Passes_example = handle_output-Passes 100 two two-IsValid refl

handle_output-IsEarly_example :
    (s' : Secretary) × (sent : List (Command × Text)) × (handle_output 100 two ≡ ok (s', sent))
    × All (IsEarly 100 60) s'.buffer
handle_output-IsEarly_example = handle_output-IsEarly 100 50 two two-IsValid refl (omega arith)

load-save_example :
    (rows : Pending) × (save two.buffer two.commands ≡ ok rows)
    × ((load rows (new_secretary 60)).buffer ≡ two.buffer)
    × ((p : Text) → lookup p (load rows (new_secretary 60)).commands ≡ lookup p two.commands)
load-save_example = load-save two 60 two-IsValid
