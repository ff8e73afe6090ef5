-- ===== src/Transfer/Verify.antt =====
-- `verify` of TransferState: the loop that hashes the file, and when a transfer is accepted.
use piwheels.Prelude.{
  take-append-drop, drop-length-take, drop-add, length-drop, length-take-le, nil_of_length, Eq,
  subst, ◌⊎◌, inl, inr, ℕ, zero, suc, ◌+◌, ◌-◌, ◌≤◌, ◌<◌, ◌≡◌, refl, ◌∙◌, some, List, [], ◌∷◌, ◌++◌,
  length, take, drop, if◌then◌else◌, arith, true, Text, ◌==◌, list_eq, nat_eq, nat_beq, ap, All,
  nat_beq_iff, sym,
}
use piwheels.Transfer.{
  chunk, TransferState, Hash, matches, wrong_size, wrong_hash, chunk_size, read_loop, verify, lower,
  new_transfer_state, done,
}
use piwheels.Files.{FileState}
use piwheels.Transfer.Integrity.{IsPart, chunks, file-chunks}

length-take-pos : (n : ℕ) (xs : List ℕ) → take (suc n) xs ≡ [] → length xs ≡ 0
length-take-pos n [] e = refl
length-take-pos n (x ∷ xs) e = cc

-- A buffer that is read at `at`, and what follows it, are what stands from `at` on.
buffer-rest :
    (n at : ℕ) (file buf : List ℕ)
    → take n (drop at file) ≡ buf
    → buf ++ drop (at + length buf) file ≡ drop at file
buffer-rest n at file buf e =
    subst (λ b. b ++ drop (at + length b) file ≡ drop at file) e
      (rw (drop-add at (length (take n (drop at file))) file, drop-length-take n (drop at file))
        (take-append-drop n (drop at file)))

length-buffer-le : (n at : ℕ) (file : List ℕ) → length (take n (drop at file)) ≤ length file - at
length-buffer-le n at file = omega (arith, length-take-le n (drop at file), length-drop at file)

file_state-new : (id : ℕ) (f : FileState) → (new_transfer_state id f).file_state ≡ f
unfolding new_transfer_state
file_state-new id f = refl

file_state-chunks :
    (cs : List (ℕ × List ℕ)) (t : TransferState) → (chunks cs t).file_state ≡ t.file_state
unfolding chunks chunk
file_state-chunks [] t = refl
file_state-chunks ((offset, bytes) ∷ cs) t = file_state-chunks cs (chunk offset bytes t)

List-cases : (xs : List ℕ) → (xs ≡ []) ⊎ ((y : ℕ) × (ys : List ℕ) × (xs ≡ y ∷ ys))
List-cases [] = inl refl
List-cases (x ∷ xs) = inr (x, xs, refl)

module _ (h : Hash) where
  open h use {State, start, update, hexdigest, update_append, update_nil}

  read_loop_lem :
      (fuel : ℕ) (file : List ℕ) (at : ℕ) (s : State)
      → at ≤ length file
      → length file - at < fuel
      → read_loop h fuel file at s ≡ some (update s (drop at file), length file)
  unfolding read_loop
  read_loop_lem zero file at s b f = absurd (omega arith)
  read_loop_lem (suc fuel) file at s b f = elim (List-cases (take chunk_size (drop at file))) [
    | inl e ↦
        let none_left : length (drop at file) ≡ 0 = length-take-pos 65535 (drop at file) e in
        let at_end : at ≡ length file = omega (arith, length-drop at file) in
        let no_more : drop at file ≡ [] = nil_of_length _ none_left in
        rw (e, read_loop) (rw no_more (cc (at_end, update_nil s)))
    | inr (x, xs, e) ↦
        let bound : suc (length xs) ≤ length file - at =
          subst (λ b. length b ≤ length file - at) e (length-buffer-le chunk_size at file) in
        rw (e, read_loop)
          (read_loop_lem fuel file (at + length (x ∷ xs)) (update s (x ∷ xs)) (omega arith)
              (omega arith)
            ∙ ap (λ z. some (z, length file))
                (update_append s (x ∷ xs) (drop (at + length (x ∷ xs)) file)
                  ∙ ap (update s) (buffer-rest chunk_size at file (x ∷ xs) e)))
  ]

  -- `verify` ends, given more rounds than the file has bytes; it accepts exactly a file of the
  -- announced size whose digest, in lower case, is the announced hash, and says which check failed.
  pub verify_lem :
      (fuel : ℕ) (t : TransferState)
      → length t.file < fuel
      → verify h fuel t
        ≡ some (
            if nat_beq (length t.file) t.file_state.filesize
            then (if lower (hexdigest (update start t.file)) == t.file_state.filehash
                then matches
                else wrong_hash)
            else wrong_size)
  unfolding verify
  verify_lem fuel t f = rw (read_loop_lem fuel t.file 0 start (omega arith) (omega arith), verify)

  verify-matches :
      (fuel : ℕ) (t : TransferState)
      → length t.file < fuel
      → length t.file ≡ t.file_state.filesize
      → lower (hexdigest (update start t.file)) ≡ t.file_state.filehash
      → verify h fuel t ≡ some matches
  verify-matches fuel t enough size hash =
      verify_lem fuel t enough
      ∙ rw ((nat_beq_iff _ _).1 size) (rw ((text_eq.beq_iff _ _).1 hash) refl)
    where
      text_eq : Eq Text
      text_eq = list_eq

  -- A transfer of a non-empty file of which honest chunks arrived, in any order, is accepted once
  -- it is done, if the announced size and hash are those of the file.
  pub verify-chunks :
      (fuel id : ℕ) (f : FileState) (src : List ℕ) (cs : List (ℕ × List ℕ))
      → f.filesize ≡ length src
      → lower (hexdigest (update start src)) ≡ f.filehash
      → 0 < f.filesize
      → All (λ c. IsPart src c.0 c.1) cs
      → done (chunks cs (new_transfer_state id f)) ≡ true
      → length src < fuel
      → verify h fuel (chunks cs (new_transfer_state id f)) ≡ some matches
  verify-chunks fuel id f src cs size hash pos parts d enough =
      let t = chunks cs (new_transfer_state id f) in
      let same : t.file ≡ src = file-chunks id f src cs size pos parts d in
      let kept : t.file_state ≡ f =
        file_state-chunks cs (new_transfer_state id f) ∙ file_state-new id f in
      verify-matches fuel t (rw same enough) (rw (same, kept) (sym size)) (rw (same, kept) hash)
