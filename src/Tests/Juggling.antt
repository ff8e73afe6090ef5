-- ===== src/Tests/Juggling.antt =====
-- Runs of FileJuggler.
use piwheels.Prelude.{◌≡◌, refl, some, [], ◌∷◌, text, list_eq, nat_eq}
use piwheels.Dict.{lookup}
use piwheels.Ranges.{range}
use piwheels.Transfer.{TransferState}
use piwheels.Juggler.{Juggler, do_verify}
use piwheels.Juggler.Requests.{Inv}
use piwheels.Juggler.Verdicts.{Judged, do_verify-Judged}
use piwheels.Tests.Transfers.{four, src, plain}

abbrev under_way : TransferState
under_way = record {
  slave_id = 1;
  file_state = four;
  file = text "ab??";
  credit = 1;
  offset = 4;
  map = range 2 4 ∷ [];
}

abbrev nothing : Juggler
nothing = record { pending = []; active = []; complete = [] }

abbrev fetching : Juggler
fetching = record nothing { active = (text "s1", under_way) ∷ [] }

abbrev complete : TransferState
complete = record under_way { file = src; map = [] }

abbrev fetched : Juggler
fetched = record nothing { complete = (1, complete) ∷ [] }

nothing-Inv : Inv nothing
nothing-Inv = record { pending = tt; active = tt; complete = tt }

fetched-at : lookup 1 fetched.complete ≡ some complete
unfolding lookup
fetched-at = refl

do_verify-Judged_example :
    Judged plain 1 (text "foo") complete fetched [] (do_verify plain 1 (text "foo") fetched [])
do_verify-Judged_example = do_verify-Judged plain 1 (text "foo") complete fetched [] fetched-at
