-- ===== src/MrChase/Handlers.antt =====
-- Every handler of MrChase answers (piwheels/master/mr_chase.py).
use piwheels.Prelude.{
  ℕ, list_eq, nat_eq, ◌≡◌, ◌⊎◌, refl, Bool, true, false, not, ◌&&◌, some, [], ◌∷◌, Text, text,
  if◌then◌else◌, is_some, Option-cases, inl, inr, arith,
}
use piwheels.Dict.{lookup, insert}
use piwheels.Result.{Result, ok, or_fault, key_error, >>=-ok}
use piwheels.Files.{BuildState, build_as_message, verified, next_file, transfers_done, logged}
use piwheels.Files.Next.{next_file-lookup, next_file-transfers_done}
use piwheels.Armv6.{build_armv6l_hack}
use piwheels.Transfer.{Hash}
use piwheels.Juggler.Client.{verify}
use piwheels.MrChase.Tools.{Database, ChaseReply, send, error, finished}
use piwheels.MrChase.{
  Chase, Handled, ask_next, start_import, register, do_import, after_transfer, do_sent,
}

abbrev pub Fits : ChaseReply → BuildState → Type 0
Fits (send name) b = next_file b ≡ some name
Fits (error why) b = Unit
Fits (finished what) b = Unit

module _ {D : Type 0} where
  -- A handler answers, and leaves the table of the states alone.
  abbrev pub Fine : Chase D → Result (Handled D) → Type 0
  Fine c m = (x : Handled D) × (m ≡ ok x) × (x.chase.states ≡ c.states) × Fits x.reply x.build

module _ {D : Type 0} (db : Database D) (h : Hash) where
  Fine-if :
      (c : Chase D) (t : Bool) (m n : Result (Handled D))
      → (t ≡ true → Fine c m)
      → (t ≡ false → Fine c n)
      → Fine c (if t then m else n)
  Fine-if c true m n p q = p refl
  Fine-if c false m n p q = q refl

  ask_next-Fine :
      (b : BuildState) (c : Chase D) → is_some (next_file b) ≡ true → Fine c (ask_next db h b c)
  unfolding ask_next
  ask_next-Fine b c more = elim (Option-cases (next_file b)) [
    | inl nothing ↦ absurd (ground arith)
    | inr (name, next) ↦
        let (f, at) = next_file-lookup b name next in
        (
          _,
          >>=-ok (or_fault key_error (next_file b)) _ name _ (rw next refl)
              (>>=-ok (or_fault key_error (lookup name b.files)) _ f _ (rw at refl) refl),
          refl,
          next,
        )
  ]

  start_import-Fine : (b : BuildState) (c : Chase D) → Fine c (start_import db h b c)
  unfolding start_import
  start_import-Fine b c =
      Fine-if c (b.status && not (transfers_done b)) _ _
        (λ more. ask_next-Fine b c (ground (arith, next_file-transfers_done b)))
        (λ _. (_, refl, refl, tt))

  logged-Fine :
      (b : BuildState) (c : Chase D) (o : Text ⊎ (ℕ × D))
      → Fine c (elim o [
        | inl why ↦ ok (record { reply = error why; build = b; chase = c; posts = [] })
        | inr (id, d) ↦ start_import db h (logged b id) (record c { db = d })
      ])
  logged-Fine b c (inl why) = (_, refl, refl, tt)
  logged-Fine b c (inr (id, d)) =
      let (x, e, kept, fits) = start_import-Fine (logged b id) (record c { db = d }) in
      (x, e, kept, fits)

  register-Fine : (b : BuildState) (c : Chase D) → Fine c (register db h b c)
  unfolding register
  register-Fine b c =
      Fine-if c (not (db.has_abi b.abi_tag c.db)) _ _ (λ _. (_, refl, refl, tt))
        λ _.
          Fine-if c (not (db.test_package_version b.pkg b.version c.db)) _ _
            (λ _. (_, refl, refl, tt)) λ _. logged-Fine b c (db.log_build (build_as_message b) c.db)

  after_transfer-Fine :
      (b : BuildState) (c : Chase D)
      → is_some (next_file b) ≡ true
      → Fine c (after_transfer db h b c)
  unfolding after_transfer
  after_transfer-Fine b c more = elim (Option-cases (next_file b)) [
    | inl nothing ↦ absurd (ground arith)
    | inr (name, next) ↦
        let (f, at) = next_file-lookup b name next in
        let b' = record b { files = insert name (verified f) b.files } in
        let (x, e, kept, fits) =
          Fine-if c (transfers_done b') _ (ask_next db h b' c) (λ _. (_, refl, refl, tt))
            (λ more. ask_next-Fine b' c (ground (arith, next_file-transfers_done b'))) in
        (
          x,
          >>=-ok (or_fault key_error (next_file b)) _ name _ (rw next refl)
              (>>=-ok (or_fault key_error (lookup name b.files)) _ f _ (rw at refl) e),
          kept,
          fits,
        )
  ]

  pub do_import-Fine : (b : BuildState) (c : Chase D) → Fine c (do_import db h b c)
  unfolding do_import
  do_import-Fine b c =
      Fine-if c (not b.status) _ _ (λ _. (_, refl, refl, tt))
        λ _.
          elim b.files
            as (λ fs. Fine c (elim fs [
              | [] ↦ ok (record {
                reply = error (text "no files listed for import");
                build = b;
                chase = c;
                posts = [];
              })
              | f ∷ rest ↦ register db h (build_armv6l_hack b) c
            ])) [ [] ↦ (_, refl, refl, tt) | f ∷ rest ↦ register-Fine (build_armv6l_hack b) c ]

  pub do_sent-Fine :
      (b : BuildState) (c : Chase D) → is_some (next_file b) ≡ true → Fine c (do_sent db h b c)
  unfolding do_sent
  do_sent-Fine b c more =
      let v = verify h 0 b.pkg c.juggler c.dirs in
      let c' = record c { juggler = v.juggler; dirs = v.dirs } in
      Fine-if c v.accepted _ _ (λ _. after_transfer-Fine b c' more)
        (λ _. elim (Option-cases (next_file b)) [
          | inl nothing ↦ absurd (ground arith)
          | inr (name, next) ↦ (
            record { reply = send name; build = b; chase = c'; posts = [] },
            >>=-ok (or_fault key_error (next_file b)) _ name _ (rw next refl) refl,
            refl,
            next,
          )
        ])
