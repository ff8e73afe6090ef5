-- ===== src/Tests/BuildQueues.antt =====
-- Runs of the build queues.
use piwheels.Prelude.{
  ◌≡◌, refl, none, some, List, [], ◌∷◌, Text, text, All, inl, list_eq, nat_eq, arith,
}
use piwheels.Result.{ok}
use piwheels.Builds.{Builds, BuildEvent, refreshed, asked, refresh, delete, take_build}
use piwheels.Builds.Handout.{Outcome, take_build-Outcome}
use piwheels.Builds.Clean.{IsClean, refresh-IsClean}
use piwheels.Builds.Runs.{IsOther, run, run-handed_out, run-delete}

abbrev cp37m : Text
cp37m = text "cp37m"

-- Nothing in it, and the queues after the architect sent two versions of foo and one of bar.
abbrev empty : Builds
empty = record { abi_queues = []; excluded_builds = [] }

abbrev filled : Builds
filled = record {
  abi_queues =
      (cp37m, (text "foo", text "0.1") ∷ (text "foo", text "0.2") ∷ (text "bar", text "1.0") ∷ [])
      ∷ [];
  excluded_builds = (cp37m, []) ∷ [];
}

abbrev sent_again : BuildEvent
sent_again = refreshed 100 (cp37m ∷ []) filled.abi_queues

filled_by : refresh 0 (cp37m ∷ []) filled.abi_queues empty ≡ ok filled
unfolding refresh
filled_by = refl

filled-IsClean : IsClean filled
filled-IsClean = refresh-IsClean 0 (cp37m ∷ []) filled.abi_queues empty filled filled_by

abbrev after_take : Builds
after_take = record {
  abi_queues = (cp37m, (text "foo", text "0.2") ∷ (text "bar", text "1.0") ∷ []) ∷ [];
  excluded_builds = (cp37m, ((text "foo", some (text "0.1")), 900) ∷ []) ∷ [];
}

take_filled : take_build 900 cp37m filled ≡ (some (text "foo", text "0.1"), after_take)
unfolding take_build
take_filled = refl

take_build-Outcome_example :
    Outcome 900 cp37m filled (take_build 900 cp37m filled).0 (take_build 900 cp37m filled).1
take_build-Outcome_example = take_build-Outcome 900 cp37m filled

abbrev two_asked : List BuildEvent
two_asked = sent_again ∷ asked 950 cp37m ∷ []

abbrev after_two : Builds
after_two = record {
  abi_queues = (cp37m, (text "bar", text "1.0") ∷ []) ∷ [];
  excluded_builds =
      (cp37m, ((text "foo", some (text "0.1")), 900) ∷ ((text "foo", some (text "0.2")), 950) ∷ [])
      ∷ [];
}

run_two : run two_asked after_take ≡ ok (after_two, (cp37m, text "foo", text "0.2") ∷ [])
unfolding run take_build refresh
run_two = refl

run-handed_out_example :
    All (IsOther cp37m (text "foo", some (text "0.1"))) ((cp37m, text "foo", text "0.2") ∷ [])
run-handed_out_example =
    run-handed_out 900 cp37m (text "foo", text "0.1") two_asked filled after_take after_two
      ((cp37m, text "foo", text "0.2") ∷ []) filled-IsClean take_filled (omega arith, (tt, tt))
      run_two

abbrev without_foo : Builds
without_foo = record {
  abi_queues = (cp37m, []) ∷ [];
  excluded_builds =
      (cp37m, ((text "foo", none), 3700) ∷ ((text "bar", some (text "1.0")), 950) ∷ []) ∷ [];
}

run_deleted :
    run two_asked (delete 100 (text "foo", none) (cp37m ∷ []) filled)
    ≡ ok (without_foo, (cp37m, text "bar", text "1.0") ∷ [])
unfolding run take_build refresh delete
run_deleted = refl

run-delete_example : All (IsOther cp37m (text "foo", none)) ((cp37m, text "bar", text "1.0") ∷ [])
run-delete_example =
    run-delete 100 (text "foo", none) (cp37m ∷ []) cp37m two_asked filled without_foo
      ((cp37m, text "bar", text "1.0") ∷ []) filled-IsClean (inl refl) (omega arith, (tt, tt))
      run_deleted
