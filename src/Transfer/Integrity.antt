-- ===== src/Transfer/Integrity.antt =====
-- A finished transfer has the bytes of the file on the slave, whatever the order of the chunks.
use piwheels.Prelude.{
  ℕ, ◌+◌, ◌-◌, ◌≤◌, ◌<◌, ◌≡◌, refl, ◌∙◌, List, [], ◌∷◌, length, get_elem?, if◌then◌else◌, ltb, leb,
  arith, ◌&&◌, true, false, All, length-replicate, Bool-cases, inl, inr, subst,
}
use piwheels.Files.{FileState}
use piwheels.Ranges.{Range, range, in_range, exclude}
use piwheels.Ranges.Members.{covers, covers-exclude}
use piwheels.Ranges.Tiling.{Tiles, exclude-Tiles}
use piwheels.Transfer.{TransferState, new_transfer_state, done, chunk}
use piwheels.Transfer.Bytes.{length-write_at, get_elem?-write_at, eq_of_get_elem?}

-- The bytes are those of the file at that offset.
pub record IsPart (src : List ℕ) (offset : ℕ) (bytes : List ℕ) : Type 0 where
  pub within : offset + length bytes ≤ length src
  pub same : (j : ℕ) → j < length bytes → get_elem? bytes j ≡ get_elem? src (offset + j)

-- What has arrived of `src` is what `src` has there.
pub record IsFaithful (src : List ℕ) (t : TransferState) : Type 0 where
  pub size_file : length t.file ≡ length src
  pub tiles : Tiles 0 (length src) t.map
  pub arrived :
      (i : ℕ) → i < length src → covers i t.map ≡ false → get_elem? t.file i ≡ get_elem? src i

pub new_transfer_state-IsFaithful :
    (id : ℕ) (f : FileState) (src : List ℕ)
    → f.filesize ≡ length src
    → 0 < f.filesize
    → IsFaithful src (new_transfer_state id f)
unfolding new_transfer_state
new_transfer_state-IsFaithful id f src e h = record {
  size_file = length-replicate f.filesize 0 ∙ e;
  tiles = omega arith;
  arrived = λ i l c. absurd (ground arith);
}

pub chunk-IsFaithful :
    (src : List ℕ) (offset : ℕ) (bytes : List ℕ) (t : TransferState)
    → IsPart src offset bytes
    → IsFaithful src t
    → IsFaithful src (chunk offset bytes t)
unfolding chunk
chunk-IsFaithful src offset bytes t p v = record {
  size_file = length-write_at offset t.file bytes fits ∙ v.size_file;
  tiles = exclude-Tiles 0 (length src) t.map ex v.tiles;
  arrived = λ i l c. get_elem?-write_at offset t.file bytes i fits ∙ byte i l c;
}
  where
    ex : Range
    ex = range offset (offset + length bytes)

    fits : offset + length bytes ≤ length t.file
    fits = omega (arith, p.within, v.size_file)

    byte :
        (i : ℕ)
        → i < length src
        → covers i (exclude t.map ex) ≡ false
        → (if leb offset i && ltb i (offset + length bytes)
            then get_elem? bytes (i - offset)
            else get_elem? t.file i)
          ≡ get_elem? src i
    byte i l c = elim (Bool-cases (in_range i ex)) [
      | inl new ↦ rw new (
          p.same (i - offset) (ground arith)
          ∙ subst (λ k. get_elem? src (offset + (i - offset)) ≡ get_elem? src k) (place i new) refl)
      | inr old ↦ rw old (v.arrived i l (ground (arith, covers-exclude i t.map ex)))
    ]
      where
        place : (i : ℕ) → in_range i ex ≡ true → offset + (i - offset) ≡ i
        place i new = ground arith

-- The chunks of a transfer, in the order of their arrival.
unfoldable pub chunks : List (ℕ × List ℕ) → TransferState → TransferState
chunks [] t = t
chunks ((offset, bytes) ∷ cs) t = chunks cs (chunk offset bytes t)

pub chunks-IsFaithful :
    (src : List ℕ) (cs : List (ℕ × List ℕ)) (t : TransferState)
    → All (λ c. IsPart src c.0 c.1) cs
    → IsFaithful src t
    → IsFaithful src (chunks cs t)
unfolding chunks
chunks-IsFaithful src [] t h v = v
chunks-IsFaithful src ((offset, bytes) ∷ cs) t h v =
    chunks-IsFaithful src cs (chunk offset bytes t) h.1 (chunk-IsFaithful src offset bytes t h.0 v)

pub map_of_done : (t : TransferState) → done t ≡ true → t.map ≡ []
unfolding done
map_of_done t d = ground arith

-- A faithful transfer that is done holds exactly the file.
pub file_of_done :
    (src : List ℕ) (t : TransferState) → IsFaithful src t → done t ≡ true → t.file ≡ src
file_of_done src t v d =
    eq_of_get_elem? t.file src v.size_file
      λ i l. v.arrived i (omega (arith, v.size_file)) (rw (map_of_done t d) refl)

-- Start a transfer of a non-empty file, and let chunks of it arrive in any order, repeated or
-- overlapping: once the transfer is done, the temporary file is equal to the file on the slave.
pub file-chunks :
    (id : ℕ) (f : FileState) (src : List ℕ) (cs : List (ℕ × List ℕ))
    → f.filesize ≡ length src
    → 0 < f.filesize
    → All (λ c. IsPart src c.0 c.1) cs
    → done (chunks cs (new_transfer_state id f)) ≡ true
    → (chunks cs (new_transfer_state id f)).file ≡ src
file-chunks id f src cs e h parts d =
    file_of_done src _
      (chunks-IsFaithful src cs _ parts (new_transfer_state-IsFaithful id f src e h)) d
