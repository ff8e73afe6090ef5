-- ===== src/Juggler/Verdicts.antt =====
-- What FileJuggler commits when it is asked to verify a transfer.
use piwheels.Prelude.{
  ℕ, suc, Eq, list_eq, nat_eq, ◌≡◌, refl, true, false, some, Text, length, arith, Bool-cases, inl,
  inr, nat_beq, nat_beq_iff, eq_of_beq,
}
use piwheels.Dict.{Dict, lookup, insert, remove}
use piwheels.Transfer.{TransferState, Hash, verify, lower, PkgDir, commit}
use piwheels.Transfer.Verify.{verify_lem}
use piwheels.Juggler.{Juggler, Verified, dir_at, judge, do_verify}

module _ (h : Hash) where
  -- The bytes of the transfer have the size and the hash that were announced.
  abbrev pub IsGood : TransferState → Type 0
  IsGood t =
      (length t.file ≡ t.file_state.filesize)
      × (lower (h.hexdigest (h.update h.start t.file)) ≡ t.file_state.filehash)

  -- What VERIFY does to a complete transfer.
  pub record Judged (id : ℕ) (pkg : Text) (t : TransferState) (j : Juggler)
      (dirs : Dict Text PkgDir) (v : Verified) : Type 0 where
    pub forgotten : v.juggler ≡ record j { complete = remove id j.complete }
    pub good :
        v.accepted ≡ true → IsGood t × (v.dirs ≡ insert pkg (commit t (dir_at pkg dirs)).0 dirs)
    pub bad : v.accepted ≡ false → (IsGood t → ⊥) × (v.dirs ≡ dirs)

  judge-Judged :
      (id : ℕ) (pkg : Text) (t : TransferState) (j : Juggler) (dirs : Dict Text PkgDir)
      → Judged id pkg t j dirs (
          judge pkg t
            (verify h (suc (length t.file)) t)
            (record j { complete = remove id j.complete })
            dirs)
  unfolding judge
  judge-Judged id pkg t j dirs =
      let text_eq : Eq Text = list_eq in
      rw (verify_lem h (suc (length t.file)) t (omega arith))
        (elim (Bool-cases (nat_beq (length t.file) t.file_state.filesize)) [
          | inr other ↦ rw other (record {
            forgotten = refl;
            good = λ e. cc;
            bad = λ e. (λ g. ground (arith, g.0), refl);
          })
          | inl size ↦
              rw size
                (elim (Bool-cases (
                  text_eq.beq (lower (h.hexdigest (h.update h.start t.file)))
                    t.file_state.filehash)) [
                      | inl same ↦ rw same (record {
                        forgotten = refl;
                        good = λ e. (((nat_beq_iff _ _).0 size, eq_of_beq _ _ same), refl);
                        bad = λ e. cc;
                      })
                      | inr wrong ↦ rw wrong (record {
                        forgotten = refl;
                        good = λ e. cc;
                        bad = λ e. (λ g. cc ((text_eq.beq_iff _ _).1 g.1, wrong), refl);
                      })
                    ])
        ])

  -- A VERIFY of a complete transfer forgets it, and is accepted exactly when the bytes that arrived
  -- have the announced size and hash: then the file is committed to the package, and otherwise no
  -- directory changes.
  pub do_verify-Judged :
      (id : ℕ) (pkg : Text) (t : TransferState) (j : Juggler) (dirs : Dict Text PkgDir)
      → lookup id j.complete ≡ some t
      → Judged id pkg t j dirs (do_verify h id pkg j dirs)
  unfolding do_verify
  do_verify-Judged id pkg t j dirs at = rw (at, do_verify) (judge-Judged id pkg t j dirs)
