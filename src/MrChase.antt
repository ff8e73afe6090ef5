-- ===== src/MrChase.antt =====
-- MrChase (piwheels/master/mr_chase.py): imports of builds, and the requests to add, remove or rebuild
-- packages.
pub mod Names
pub mod Tools
pub mod Handlers
pub mod Answers
pub mod Removal
pub mod Aliases
pub mod Resend
use piwheels.Prelude.{
  ℕ, list_eq, nat_eq, ◌==◌, ◌≡◌, ◌⊎◌, inl, inr, Bool, true, false, not, ◌&&◌, Option, none, some,
  List, [], ◌∷◌, ◌++◌, Text, text, if◌then◌else◌,
}
use piwheels.Dict.{Dict, lookup, insert, remove}
use piwheels.Result.{Result, ok, err, or_fault, key_error, assertion, value_error, ◌>>=◌}
use piwheels.Files.{
  FileState, BuildState, BuildMessage, build_from_message, build_as_message, verified, next_file,
  transfers_done, logged,
}
use piwheels.Armv6.{build_armv6l_hack}
use piwheels.Transfer.{Hash, PkgDir}
use piwheels.Juggler.{Juggler, Verified}
use piwheels.Juggler.Client.{expect, verify}
use piwheels.MrChase.Tools.{
  Database, Post, to_web_log, to_web, to_both, ToolRequest, ChaseReply, send, error, finished,
  serve_tool,
}

-- The messages of the importer, and those of the tools.
pub data ChaseRequest : Type 0 where
  import' : BuildMessage → ChaseRequest
  sent : ChaseRequest
  tool : ToolRequest → ChaseRequest

-- `states`, with what MrChase reaches of the database and of FileJuggler.
pub record Chase (D : Type 0) : Type 0 where
  pub states : Dict Text BuildState
  pub db : D
  pub juggler : Juggler
  pub dirs : Dict Text PkgDir

-- The reply to the client, the build as the handler leaves it, and what was sent to other tasks.
pub record Handled (D : Type 0) : Type 0 where
  pub reply : ChaseReply
  pub build : BuildState
  pub chase : Chase D
  pub posts : List Post

module _ {D : Type 0} (db : Database D) (h : Hash) where
  abbrev refuse : Text → BuildState → Chase D → Result (Handled D)
  refuse why b c = ok (record { reply = error why; build = b; chase = c; posts = [] })

  -- self.fs.expect(0, state.files[state.next_file]), and the reply SEND with that name
  unfoldable pub ask_next : BuildState → Chase D → Result (Handled D)
  unfolding next_file lookup expect
  ask_next b c = do
    name ← or_fault key_error (next_file b)
    file ← or_fault key_error (lookup name b.files)
    let v = expect h 0 file c.juggler c.dirs
    ok (record {
      reply = send name;
      build = b;
      chase = record c { juggler = v.juggler };
      posts = [];
    })

  -- The end of `do_import`, after the build was logged.
  unfoldable pub start_import : BuildState → Chase D → Result (Handled D)
  unfolding ask_next transfers_done
  start_import b c =
      if b.status && not (transfers_done b)
      then ask_next b c
      else ok (record {
        reply = finished [];
        build = b;
        chase = c;
        posts = to_web_log b.build_id b.output ∷ to_web b.pkg ∷ [];
      })

  -- `do_import` after the armv6l hack.
  unfoldable pub register : BuildState → Chase D → Result (Handled D)
  unfolding start_import build_as_message logged
  register b c =
      if not (db.has_abi b.abi_tag c.db)
      then refuse (text "invalid ABI: " ++ b.abi_tag) b c
      else if not (db.test_package_version b.pkg b.version c.db)
      then refuse (text "unknown package version " ++ b.pkg ++ text " " ++ b.version) b c
      else elim (db.log_build (build_as_message b) c.db) [
        | inl why ↦ refuse why b c
        | inr (id, d) ↦ start_import (logged b id) (record c { db = d })
      ]

  unfoldable pub do_import : BuildState → Chase D → Result (Handled D)
  unfolding register build_armv6l_hack
  do_import b c =
      if not b.status
      then refuse (text "importing a failed build is not supported") b c
      else elim b.files [
        | [] ↦ refuse (text "no files listed for import") b c
        | f ∷ fs ↦ register (build_armv6l_hack b) c
      ]

  -- state.files[state.next_file].verified(), and what follows
  unfoldable pub after_transfer : BuildState → Chase D → Result (Handled D)
  unfolding ask_next next_file lookup insert verified transfers_done
  after_transfer b c = do
    name ← or_fault key_error (next_file b)
    file ← or_fault key_error (lookup name b.files)
    let b' = record b { files = insert name (verified file) b.files }
    if transfers_done b'
        then ok (record {
          reply = finished (text "IMPORT");
          build = b';
          chase = c;
          posts = to_web_log b'.build_id b'.output ∷ to_both b'.pkg ∷ [];
        })
        else ask_next b' c

  unfoldable pub do_sent : BuildState → Chase D → Result (Handled D)
  unfolding after_transfer next_file verify
  do_sent b c =
      let v = verify h 0 b.pkg c.juggler c.dirs in
      let c' = record c { juggler = v.juggler; dirs = v.dirs } in
      if v.accepted then after_transfer b c' else (do
        name ← or_fault key_error (next_file b)
        ok (record { reply = send name; build = b; chase = c'; posts = [] }))

  -- self.states.pop(address, None) after DONE or ERROR. The build is the object in `states`, so
  -- otherwise the table sees what was written to it.
  unfoldable pub settle : Text → Handled D → Chase D × ChaseReply × List Post
  unfolding insert remove
  settle address m =
      let kept : Dict Text BuildState = elim m.reply [
        | send name ↦ insert address m.build m.chase.states
        | error why ↦ remove address m.chase.states
        | finished what ↦ remove address m.chase.states
      ] in
      (record m.chase { states = kept }, m.reply, m.posts)

  -- A message from an address without a state.
  unfoldable pub first_message :
      Text → ChaseRequest → Chase D → Result (Chase D × ChaseReply × List Post)
  unfolding do_import settle serve_tool
  first_message address (import' m) c = do
    b ← or_fault assertion (build_from_message m)
    let b' = record b { slave_id = 0 }
    r ← do_import b' (record c { states = insert address b' c.states })
    ok (settle address r)
  first_message address sent c = ok (c, error (text "protocol violation"), [])
  first_message address (tool t) c =
      let (reply, d, posts) = serve_tool db t c.db in
      ok (record c { db = d; states = remove address c.states }, reply, posts)

  -- A message from an address with a state, which takes the place of the message's data; the handlers
  -- of the tools' messages cannot unpack it.
  unfoldable pub next_message :
      Text → ChaseRequest → BuildState → Chase D → Result (Chase D × ChaseReply × List Post)
  unfolding do_import do_sent settle
  next_message address (import' m) b c = do r ← do_import b c; ok (settle address r)
  next_message address sent b c = do r ← do_sent b c; ok (settle address r)
  next_message address (tool t) b c = err value_error

  unfoldable pub handle_import :
      Text → ChaseRequest → Chase D → Result (Chase D × ChaseReply × List Post)
  unfolding lookup first_message next_message
  handle_import address r c = elim (lookup address c.states) [
    | none ↦ first_message address r c
    | some b ↦ next_message address r b c
  ]
