-- ===== src/Juggler/Client.antt =====
-- The requests of FsClient to FileJuggler (piwheels/master/file_juggler.py): EXPECT and VERIFY.
use piwheels.Prelude.{ℕ, list_eq, nat_eq, ◌==◌, ◌≡◌, refl, ◌∙◌, true, false, some, Text, beq_refl}
use piwheels.Dict.{Dict, lookup}
use piwheels.Dict.Laws.{lookup-insert}
use piwheels.Files.{FileState, FileMessage, file_as_message, file_from_message}
use piwheels.Transfer.{Hash, PkgDir, new_transfer_state}
use piwheels.Juggler.{Juggler, Verified, do_expect, do_verify}

pub data FsRequest : Type 0 where
  expect_file : ℕ → FileMessage → FsRequest
  verify_file : ℕ → Text → FsRequest

module _ (h : Hash) where
  -- `accepted` says whether the answer is OK; any exception of a handler is answered with ERROR.
  unfoldable pub handle_fs_request : FsRequest → Juggler → Dict Text PkgDir → Verified
  unfolding do_expect do_verify
  handle_fs_request (expect_file id m) j dirs = record {
    juggler = do_expect id m j;
    dirs = dirs;
    accepted = true;
  }
  handle_fs_request (verify_file id pkg) j dirs = do_verify h id pkg j dirs

  -- `_execute`: without `accepted` it raises IOError, which `expect` lets pass.
  unfoldable pub expect : ℕ → FileState → Juggler → Dict Text PkgDir → Verified
  unfolding handle_fs_request file_as_message
  expect id f j dirs = handle_fs_request (expect_file id (file_as_message f)) j dirs

  -- FsClient.verify: `accepted` is what it returns, since an IOError makes it false.
  unfoldable pub verify : ℕ → Text → Juggler → Dict Text PkgDir → Verified
  unfolding handle_fs_request
  verify id pkg j dirs = handle_fs_request (verify_file id pkg) j dirs

  -- FsClient.expect never fails: afterwards a new transfer of the file, as one that is still to be
  -- transferred, is pending under the slave's id, and what is pending for the other slaves, the
  -- transfers under way, those that are complete and the directories are as before.
  pub expect_lem :
      (id : ℕ) (f : FileState) (j : Juggler) (dirs : Dict Text PkgDir)
      → (v : Verified) × (expect id f j dirs ≡ v)
        × (v.accepted ≡ true)
        × (v.dirs ≡ dirs)
        × (lookup id v.juggler.pending
            ≡ some (new_transfer_state id (record f { transferred = false })))
        × ((other : ℕ)
            → id == other ≡ false
            → lookup other v.juggler.pending ≡ lookup other j.pending)
        × (v.juggler.active ≡ j.active)
        × (v.juggler.complete ≡ j.complete)
  unfolding expect handle_fs_request do_expect file_as_message file_from_message
  expect_lem id f j dirs =
      let t = new_transfer_state id (record f { transferred = false }) in
      (
        _,
        refl,
        refl,
        refl,
        lookup-insert id id t j.pending ∙ rw (beq_refl id) refl,
        λ other apart. lookup-insert id other t j.pending ∙ rw apart refl,
        refl,
        refl,
      )
