-- ===== src/MrChase/Answers.antt =====
-- MrChase answers every message, and keeps a state for exactly the imports that go on.
use piwheels.Prelude.{
  list_eq, nat_eq, ◌==◌, ◌≡◌, Bool, true, false, Option, none, some, List, Text, is_some,
}
use piwheels.Dict.{Dict, lookup, insert, remove}
use piwheels.Result.{Result, ok}
use piwheels.Files.{BuildState, build_from_message, next_file}
use piwheels.Transfer.{Hash}
use piwheels.MrChase.Tools.{Database, Post, ChaseReply, send, error, finished}
use piwheels.MrChase.{ChaseRequest, import', tool, Chase}

-- The state that goes with a reply: after SEND a build whose next file was asked for, otherwise none.
abbrev pub Matches : ChaseReply → Option BuildState → Type 0
Matches (send name) o = (b : BuildState) × (o ≡ some b) × (next_file b ≡ some name)
Matches (error why) o = o ≡ none
Matches (finished what) o = o ≡ none

-- An import that goes on has a file to come.
abbrev pub Waiting : Option BuildState → Type 0
Waiting none = Unit
Waiting (some b) = is_some (next_file b) ≡ true

abbrev pub Inv : {D : Type 0} → Chase D → Type 0
Inv c = (a : Text) → Waiting (lookup a c.states)

-- The messages that are answered: a build names an ABI, and a client with an import under way sends
-- no message of the tools.
abbrev pub Admitted : ChaseRequest → Option BuildState → Type 0
Admitted (import' m) none = is_some (build_from_message m) ≡ true
Admitted (tool t) (some b) = ⊥
Admitted other o = Unit

-- The message is answered, the invariant holds afterwards, and the other clients' states stay.
abbrev pub Answered :
    {D : Type 0} → Text → Chase D → Result (Chase D × ChaseReply × List Post) → Type 0
Answered address c m =
    (c' : Chase _) × (reply : ChaseReply) × (posts : List Post) × (m ≡ ok (c', reply, posts))
    × Matches reply (lookup address c'.states)
    × Inv c'
    × ((other : Text) → (address == other) ≡ false → lookup other c'.states ≡ lookup other c.states)

module _ {D : Type 0} (db : Database D) (h : Hash) where
  table_after : ChaseReply → Text → BuildState → Dict Text BuildState → Dict Text BuildState
  table_after (send name) address b d = insert address b d
  table_after (error why) address b d = remove address d
  table_after (finished what) address b d = remove address d

  is_final : ChaseReply → Bool
  is_final (send name) = false
  is_final (error why) = true
  is_final (finished what) = true
