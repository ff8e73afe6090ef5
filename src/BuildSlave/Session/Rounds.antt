-- ===== src/BuildSlave/Session/Rounds.antt =====
-- What SlaveDriver answers to a build slave that is in step with it.
pub mod Talk
use piwheels.Prelude.{
  ℕ, ◌+◌, list_eq, nat_eq, ◌==◌, ◌≡◌, refl, sym, subst, ap, ◌∙◌, Bool, true, false, not, ◌&&◌,
  Option, none, some, List, [], ◌∷◌, ◌++◌, Text, All, text, if◌then◌else◌, is_some, Bool-cases,
  Option-cases, inl, inr, arith, map,
}
use piwheels.Dict.{Dict, lookup, insert}
use piwheels.Result.{Result, ok, err, or_fault, no_reply, no_build, key_error, ◌>>=◌, >>=-ok}
use piwheels.Files.{
  FileState, FileMessage, BuildState, next_file, files_from_messages, build_state, verified,
  transfers_done,
}
use piwheels.Files.Next.{next_file-lookup, next_file-transfers_done}
use piwheels.Files.Waiting.{Waits, insert-Waits, next_file-Waits, files_from_messages-Waits}
use piwheels.Armv6.{build_armv6l_hack}
use piwheels.Armv6.Waiting.{build_armv6l_hack-Waits}
use piwheels.Builds.{Builds, take_build}
use piwheels.Slave.{
  Built, SlaveStats, Request, hello, bye, idle, busy, built, sent, Reply, ack, die, cont, finished,
  sleep, build, send, SlaveState, Status, set_reply, built_state,
}
use piwheels.Driver.{
  Driver, Effect, Env, Answer, answer, verify, is_free, is_build, is_send, do_idle, do_busy,
  do_built, do_sent, give_build, expect_next, finish_build, start_transfers, take_built, take_sent,
  mark_verified, next_transfer, write_project, write_both,
}
use piwheels.Driver.Invariant.{HasAbi}
use piwheels.BuildSlave.{Builder, BuildSlave, Surroundings, find_wheel, handle_reply}
use piwheels.BuildSlave.Session.{
  HasWheel, Knows, Told, Has, Sending, Replied, sleep-Replied, build-Replied, finished-Replied,
  cont-Replied, send-Replied,
}

-- The handler answers, with a reply and a slave of that kind.
abbrev pub Yields : (Reply → SlaveState → Type 0) → Result Answer → Type 0
Yields P m =
    (r : Reply) × (d : Driver) × (s : SlaveState) × (es : List Effect) × (m ≡ answer r d s es)
    × P r s

module _ (P : Reply → SlaveState → Type 0) where
  pub Yields-answer :
      (r : Reply) (d : Driver) (s : SlaveState) (es : List Effect)
      → P r s
      → Yields P (answer r d s es)
  Yields-answer r d s es p = (r, d, s, es, refl, p)

  Yields-if :
      (c : Bool) (m n : Result Answer)
      → (c ≡ true → Yields P m)
      → (c ≡ false → Yields P n)
      → Yields P (if c then m else n)
  Yields-if true m n h k = h refl
  Yields-if false m n h k = k refl

  Yields-known :
      {A : Type 0} (m : Result A) (f : A → Result Answer) (x : A)
      → m ≡ ok x
      → Yields P (f x)
      → Yields P (m >>= f)
  Yields-known m f x e (r, d, s, es, q, p) = (r, d, s, es, >>=-ok m f x _ e q, p)

  expect_next-Yields :
      (env : Env) (d : Driver) (s : SlaveState) (b : BuildState) (es : List Effect) (name : Text)
      → env.rpc_ok ≡ true
      → next_file b ≡ some name
      → P (send name) s
      → Yields P (expect_next env d s b es)
  unfolding expect_next
  expect_next-Yields env d s b es name up next p =
      let (f, at) = next_file-lookup b name next in
      Yields-known (or_fault key_error (next_file b)) _ name (rw next refl) (
        Yields-known (or_fault key_error (lookup name b.files)) _ f (rw at refl) (
          Yields-if env.rpc_ok _ _ (λ _. Yields-answer (send name) d s _ p)
            (λ down. absurd (ground arith))))

  finish_build-Yields :
      (env : Env) (d : Driver) (s : SlaveState) (b : BuildState) (es : List Effect) (last : Effect)
      → env.rpc_ok ≡ true
      → ((b' : BuildState) → P finished (record s { current = some b' }))
      → Yields P (finish_build env d s b es last)
  unfolding finish_build
  finish_build-Yields env d s b es last up p =
      Yields-if env.rpc_ok _ _ (λ _. Yields-answer finished d _ _ (p _))
        (λ down. absurd (ground arith))

module _ (u : Surroundings) (w : BuildSlave) (env : Env) (d : Driver) (s : SlaveState)
    (k : Knows s w) (up : env.rpc_ok ≡ true) (stops : u.stops ≡ true) where
  abbrev Good : Reply → SlaveState → Type 0
  Good = Replied u w s.killed

  give_build-Yields :
      (o : Option (Text × Text)) (b : Builds)
      → w.builder ≡ none
      → Yields Good (give_build d s (o, b))
  unfolding give_build
  give_build-Yields none b e =
      Yields-answer Good (sleep false) _ s _ (sleep-Replied u w s.killed s k false e)
  give_build-Yields (some (pkg, version)) b e =
      Yields-answer Good (build pkg version) _ s _ (build-Replied u w s.killed s k pkg version e)

  pub do_idle-Yields : Told is_free s → w.builder ≡ none → Yields Good (do_idle env d s)
  unfolding do_idle set_reply handle_reply
  do_idle-Yields (last, e, free) none_left =
      let b = take_build (env.now + s.build_timeout) s.native_abi d.builds in
      Yields-known Good (or_fault no_reply s.reply) _ last (rw e refl) (
        Yields-if Good (not (is_free last)) _ _ (λ no_turn. absurd (ground arith))
          λ _.
            Yields-if Good s.killed _ _ (λ dead. Yields-answer Good die d s _ (_, _, refl, dead))
              λ _.
                Yields-if Good d.paused _ _
                  (λ _.
                    Yields-answer Good (sleep true) d s _
                      (sleep-Replied u w s.killed s k true none_left))
                  λ _. give_build-Yields b.0 b.1 none_left)

  pub do_busy-Yields : (r : Option Built) → Has r w → Told is_build s → Yields Good (do_busy d s)
  unfolding do_busy
  do_busy-Yields r h told =
      Yields-if Good s.skipped _ _
        (λ _. Yields-answer Good finished d s _ (finished-Replied u w s.killed s k r h stops))
        (λ _. Yields-answer Good cont d s _ (cont-Replied u w s.killed s k r h told))

  finished-Good :
      (r : Option Built) (b : BuildState) → Has r w → Good finished (record s { current = some b })
  finished-Good r b h =
      finished-Replied u w s.killed (record s { current = some b })
        (record { known = k.known; abi = k.abi }) r h stops

  -- The next file of a build is asked for, or the build is finished.
  next-Yields :
      (r : Built) (b : BuildState) (es : List Effect)
      → Has (some r) w
      → r.status ≡ true
      → Waits (HasWheel r.files) b.files
      → is_some (next_file b) ≡ true
      → Yields Good (expect_next env d (record s { current = some b }) b es)
  next-Yields r b es h good waits more = elim (Option-cases (next_file b)) [
    | inl nothing ↦ absurd (ground arith)
    | inr (name, next) ↦
        expect_next-Yields Good env d (record s { current = some b }) b es name up next
          (send-Replied u w s.killed (record s { current = some b })
            (record { known = k.known; abi = k.abi }) r name b h good
            (next_file-Waits (HasWheel r.files) b name waits next) refl next waits)
  ]

  pub do_built-Yields :
      (r : Built) (made : BuildState)
      → Has (some r) w
      → Told is_build s
      → s.current ≡ some made
      → made.status ≡ r.status
      → Waits (HasWheel r.files) made.files
      → Yields Good (do_built env d s)
  unfolding do_built take_built start_transfers
  do_built-Yields r made h (last, e, was_build) cur same waits =
      let b = build_armv6l_hack made in
      Yields-known Good (or_fault no_reply s.reply) _ last (rw e refl) (
        Yields-if Good (not (is_build last)) _ _ (λ no_turn. absurd (ground arith))
          λ _.
            Yields-if Good s.skipped _ _
              (λ _.
                Yields-answer Good finished d s _
                  (finished-Replied u w s.killed s k (some r) h stops))
              λ _. Yields-known Good (or_fault no_build s.current) _ made (rw cur refl) (
                Yields-if Good (b.status && not (transfers_done b)) _ _
                  (λ more.
                    next-Yields r b [] h (ground (arith, same))
                      (build_armv6l_hack-Waits (HasWheel r.files) made waits)
                      (ground (arith, next_file-transfers_done b)))
                  (λ _.
                    finish_build-Yields Good env d (record s { current = some b }) b [] _ up
                      (λ b'. finished-Good (some r) b' h))))

  mark_verified-ok :
      (b : BuildState) (name : Text) (f : FileState)
      → next_file b ≡ some name
      → lookup name b.files ≡ some f
      → mark_verified b ≡ ok (record b { files = insert name (verified f) b.files })
  unfolding mark_verified
  mark_verified-ok b name f next at =
      >>=-ok (or_fault key_error (next_file b)) _ name _ (rw next refl)
        (>>=-ok (or_fault key_error (lookup name b.files)) _ f _ (rw at refl) refl)

  pub do_sent-Yields : Sending s w → Yields Good (do_sent env d s)
  unfolding do_sent take_sent next_transfer is_send verified
  do_sent-Yields v =
      let made = v.made in
      let (f, at) = next_file-lookup made v.name v.next in
      let b' = record made { files = insert v.name (verified f) made.files } in
      let asked = verify s.slave_id made.pkg ∷ [] in
      let waits' : Waits (HasWheel v.result.files) b'.files =
        insert-Waits (HasWheel v.result.files) v.name (verified f) made.files refl v.waits in
      Yields-known Good (or_fault no_reply s.reply) _ (send v.name) (rw v.told refl) (
        Yields-known Good (or_fault no_build s.current) _ made (rw v.current refl) (
          Yields-if Good env.verify_ok _ _
            (λ _.
              Yields-known Good (mark_verified made) _ b' (mark_verified-ok made v.name f v.next at)
                (Yields-if Good (transfers_done b') _ _
                  (λ _.
                    finish_build-Yields Good env d (record s { current = some b' }) b' asked _ up
                      (λ b''. finished-Good (some v.result) b'' v.has_result))
                  (λ more.
                    next-Yields v.result b' asked v.has_result v.good waits'
                      (ground (arith, next_file-transfers_done b')))))
            (λ _. expect_next-Yields Good env d s made asked v.name up v.next (
              send-Replied u w s.killed s k v.result v.name made v.has_result v.good
                (next_file-Waits (HasWheel v.result.files) made v.name v.waits v.next) v.current
                v.next v.waits))))
