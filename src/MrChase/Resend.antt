-- ===== src/MrChase/Resend.antt =====
-- What becomes of a transfer that the importer has finished: MrChase (piwheels/master/mr_chase.py) together
-- with FileJuggler (piwheels/master/file_juggler.py).
use piwheels.Prelude.{
  list_eq, nat_eq, ◌≡◌, refl, sym, ◌∙◌, subst, true, false, none, some, List, [], ◌∷◌, Text, text,
  is_some, Bool-cases, Option-cases, inl, inr, arith, beq_refl,
}
use piwheels.Dict.{lookup, insert, remove}
use piwheels.Dict.Laws.{lookup-insert, lookup-remove}
use piwheels.Result.{Result, ok, ◌>>=◌}
use piwheels.Files.{FileState, BuildState, verified, next_file, transfers_done}
use piwheels.Files.Next.{next_file-lookup, next_file-transfers_done}
use piwheels.Transfer.{Hash, TransferState, PkgDir, commit, new_transfer_state}
use piwheels.Juggler.{Verified, hello, dir_at, handle_file, start_transfer}
use piwheels.Juggler.Client.{expect, verify, handle_fs_request, expect_lem}
use piwheels.Juggler.Verdicts.{IsGood, Judged, do_verify-Judged}
use piwheels.MrChase.Tools.{Database, Post, to_web_log, to_both, ChaseReply, send, error, finished}
use piwheels.MrChase.{
  sent, Chase, ask_next, after_transfer, do_sent, settle, next_message, handle_import,
}

module _ {D : Type 0} (db : Database D) (h : Hash) (address : Text) (c : Chase D) (b : BuildState)
    (t : TransferState) (name : Text) (known : lookup address c.states ≡ some b)
    (next : next_file b ≡ some name) (complete : lookup 0 c.juggler.complete ≡ some t) where
  verify-Judged : Judged h 0 b.pkg t c.juggler c.dirs (verify h 0 b.pkg c.juggler c.dirs)
  unfolding verify handle_fs_request
  verify-Judged = do_verify-Judged h 0 b.pkg t c.juggler c.dirs complete

  refused : (IsGood h t → ⊥) → (verify h 0 b.pkg c.juggler c.dirs).accepted ≡ false
  refused bad = elim (Bool-cases (verify h 0 b.pkg c.juggler c.dirs).accepted) [
    | inl accepted ↦ absurd (bad ((verify-Judged).good accepted).0)
    | inr rejected ↦ rejected
  ]

  -- The master with the transfer forgotten, and nothing expected in its place.
  abbrev after_refusal : Chase D
  after_refusal = record c {
    states = insert address b c.states;
    juggler = (verify h 0 b.pkg c.juggler c.dirs).juggler;
    dirs = (verify h 0 b.pkg c.juggler c.dirs).dirs;
  }

  sent-refused :
      (IsGood h t → ⊥) → handle_import db h address sent c ≡ ok (after_refusal, send name, [])
  unfolding handle_import next_message do_sent settle
  sent-refused bad =
      rw (known, handle_import, next_message, do_sent) (rw (refused bad) (rw next refl))

  -- An importer's file that arrived with a wrong size or hash is asked for again, but FileJuggler does
  -- not expect it: the transfer was forgotten, and the importer's HELLO from any address without a
  -- transfer under way is dropped without a reply. It is assumed that nothing else is pending for the
  -- imports.
  pub sent-dropped :
      (client : Text)
      → (IsGood h t → ⊥)
      → lookup 0 c.juggler.pending ≡ none
      → lookup client c.juggler.active ≡ none
      → (c' : Chase D) × (handle_import db h address sent c ≡ ok (c', send name, []))
        × (lookup address c'.states ≡ some b)
        × (handle_file client (hello (some 0)) c'.juggler ≡ some (ok (c'.juggler, [])))
  unfolding handle_file start_transfer
  sent-dropped client bad nothing idle =
      let j = (verify h 0 b.pkg c.juggler c.dirs).juggler in
      let same : j ≡ record c.juggler { complete = remove 0 c.juggler.complete } =
        (verify-Judged).forgotten in
      let none_active : lookup client j.active ≡ none = rw same idle in
      let none_pending : lookup 0 j.pending ≡ none = rw same nothing in
      (
        after_refusal,
        sent-refused bad,
        lookup-insert address address b c.states ∙ rw (beq_refl address) refl,
        rw (none_active, handle_file, start_transfer) (rw (none_pending, start_transfer) refl),
      )

  granted : IsGood h t → (verify h 0 b.pkg c.juggler c.dirs).accepted ≡ true
  granted good = elim (Bool-cases (verify h 0 b.pkg c.juggler c.dirs).accepted) [
    | inl went ↦ went
    | inr rejected ↦ absurd (((verify-Judged).bad rejected).0 good)
  ]

  -- The build with its next file marked as transferred.
  abbrev pub received : FileState → BuildState
  received f = record b { files = insert name (record f { transferred = true }) b.files }

  -- What follows a transfer that was verified, by the build that it leaves: if a file waits, the next
  -- one is asked for, and FileJuggler expects it from the imports; and if none does, the state is
  -- given up, and the log and the pages are written.
  abbrev pub Follows : BuildState → ChaseReply → Chase D → List Post → Type 0
  Follows b' (send n) c' posts =
      (f : FileState) × (lookup address c'.states ≡ some b')
      × (next_file b' ≡ some n)
      × (lookup n b'.files ≡ some f)
      × (lookup 0 c'.juggler.pending
          ≡ some (new_transfer_state 0 (record f { transferred = false })))
      × (posts ≡ [])
  Follows b' (finished what) c' posts =
      (transfers_done b' ≡ true)
      × (what ≡ text "IMPORT")
      × (lookup address c'.states ≡ none)
      × (posts ≡ to_web_log b.build_id b.output ∷ to_both b.pkg ∷ [])
  Follows b' (error why) c' posts = ⊥

  -- The message is answered, the package's directory is as given, and the build follows.
  abbrev pub Answers : PkgDir → BuildState → Result (Chase D × ChaseReply × List Post) → Type 0
  Answers dir b' m =
      (c' : Chase D) × (reply : ChaseReply) × (posts : List Post) × (m ≡ ok (c', reply, posts))
      × (lookup b.pkg c'.dirs ≡ some dir)
      × Follows b' reply c' posts

  abbrev pub Followed : PkgDir → Result (Chase D × ChaseReply × List Post) → Type 0
  Followed dir m = (f : FileState) × (lookup name b.files ≡ some f) × Answers dir (received f) m

  ask_next-Followed :
      (dir : PkgDir) (b' : BuildState) (c₁ : Chase D)
      → is_some (next_file b') ≡ true
      → lookup b.pkg c₁.dirs ≡ some dir
      → Answers dir b' (ask_next db h b' c₁ >>= λ r. ok (settle db h address r))
  unfolding ask_next settle
  ask_next-Followed dir b' c₁ more held = elim (Option-cases (next_file b')) [
    | inl nothing ↦ absurd (ground arith)
    | inr (n, next') ↦
        let (f, at) = next_file-lookup b' n next' in
        let (v, e, good, dirs, pending, others, act, compl) = expect_lem h 0 f c₁.juggler c₁.dirs in
        rw (next', at)
          (
            record c₁ {
              states = insert address b' c₁.states;
              juggler = (expect h 0 f c₁.juggler c₁.dirs).juggler;
            },
            send n,
            [],
            refl,
            held,
            (
              f,
              lookup-insert address address b' c₁.states ∙ rw (beq_refl address) refl,
              next',
              at,
              subst
                  (λ (v : Verified).
                    lookup 0 v.juggler.pending
                    ≡ some (new_transfer_state 0 (record f { transferred = false })))
                  (sym e) pending,
              refl,
            ),
          )
  ]

  after_transfer-Followed :
      (dir : PkgDir) (c₁ : Chase D)
      → lookup b.pkg c₁.dirs ≡ some dir
      → Followed dir (after_transfer db h b c₁ >>= λ r. ok (settle db h address r))
  unfolding after_transfer settle verified
  after_transfer-Followed dir c₁ held =
      let (f, at) = next_file-lookup b name next in
      let b' = received f in
      (
        f,
        at,
        rw (next, at)
            (elim (Bool-cases (transfers_done b')) [
              | inl over ↦ rw over (
                record c₁ { states = remove address c₁.states },
                finished (text "IMPORT"),
                to_web_log b.build_id b.output ∷ to_both b.pkg ∷ [],
                refl,
                held,
                (
                  over,
                  refl,
                  lookup-remove address address c₁.states ∙ rw (beq_refl address) refl,
                  refl,
                ),
              )
              | inr more ↦
                  rw more
                    (ask_next-Followed dir b' c₁ (ground (arith, next_file-transfers_done b')) held)
            ]),
      )

  -- If an import is under way, and the transfer of its next file is complete, with the announced size and
  -- hash, then SENT commits the file to the package's directory and marks it as transferred. If a file of
  -- the build still waits after that, its `next_file` is asked for, FileJuggler expects this file from the
  -- imports, and the build with the mark is kept; and if none does, the reply is DONE, the build's log and
  -- the package's pages are to be written, and the state of the import is given up.
  pub sent-Followed :
      IsGood h t → Followed (commit t (dir_at b.pkg c.dirs)).0 (handle_import db h address sent c)
  unfolding handle_import next_message do_sent
  sent-Followed good =
      let accepted = granted good in
      let v = verify h 0 b.pkg c.juggler c.dirs in
      let filed : v.dirs ≡ insert b.pkg (commit t (dir_at b.pkg c.dirs)).0 c.dirs =
        ((verify-Judged).good accepted).1 in
      rw (known, handle_import, next_message, do_sent)
        (rw accepted (
          after_transfer-Followed (commit t (dir_at b.pkg c.dirs)).0
            (record c { juggler = v.juggler; dirs = v.dirs })
            (rw filed (
              lookup-insert b.pkg b.pkg (commit t (dir_at b.pkg c.dirs)).0 c.dirs
              ∙ rw (beq_refl b.pkg) refl))))
