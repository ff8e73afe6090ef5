-- ===== src/Transfer/Progress.antt =====
-- A transfer to a slave that answers every request gets done.
use piwheels.Prelude.{
  inl, ap, get_elem?-take, get_elem?-drop, length-take, length-drop, ℕ, zero, suc, ◌+◌, ◌-◌, ◌≤◌,
  ◌<◌, ◌≡◌, refl, ◌∙◌, Option, none, some, List, [], ◌∷◌, length, take, drop, arith, true, ◌⊎◌,
}
use piwheels.Files.{FileState}
use piwheels.Transfer.{new_transfer_state, TransferState, done, fetch, chunk}
use piwheels.Transfer.Integrity.{
  new_transfer_state-IsFaithful, file_of_done, IsPart, IsFaithful, chunk-IsFaithful,
}
use piwheels.Ranges.Tiling.{Tiles-le, Tiles, size, size-exclude-lt, Tiles-size-zero}
use piwheels.Ranges.{Range, range}
use piwheels.Ranges.Members.{covers}
use piwheels.Transfer.Fetch.{Fetched, fetch_total}

-- The bytes that a slave sends for a requested range.
abbrev pub slice : List ℕ → Range → List ℕ
slice src r = take (r.stop - r.start) (drop r.start src)

-- At most `n` rounds of a request and its answer, until there is nothing to ask for. `none` says
-- that a request did not end.
unfoldable pub rounds : ℕ → List ℕ → TransferState → Option TransferState
rounds zero src t = some t
rounds (suc n) src t = elim (fetch 2 t) [
  | none ↦ none
  | some (none, t') ↦ some t'
  | some (some r, t') ↦ rounds n src (chunk r.start (slice src r) t')
]

covers-lt : (i lo hi : ℕ) (rs : List Range) → Tiles lo hi rs → covers i rs ≡ true → i < hi
covers-lt i lo hi [] t c = cc
covers-lt i lo hi (r ∷ rs) t c =
    ground (arith, covers-lt i r.stop hi rs t.2, Tiles-le r.stop hi rs t.2)

slice-IsPart :
    (src : List ℕ) (r : Range)
    → r.start < r.stop
    → r.stop ≤ length src
    → IsPart src r.start (slice src r) × (length (slice src r) ≡ r.stop - r.start)
slice-IsPart src r h k = (
  record {
    within = omega (arith, size_slice);
    same = λ j l.
        get_elem?-take (r.stop - r.start) (drop r.start src) j (omega (arith, size_slice))
        ∙ get_elem?-drop r.start src j;
  },
  size_slice,
)
  where
    size_slice : length (slice src r) ≡ r.stop - r.start
    size_slice =
        omega (arith, length-take (r.stop - r.start) (drop r.start src), length-drop r.start src)

abbrev Finishes : ℕ → List ℕ → TransferState → Type 0
Finishes n src t =
    (t' : TransferState) × (rounds n src t ≡ some t') × (done t' ≡ true) × (t'.file ≡ src)

-- A transfer that can still ask for something, or has nothing to ask for.
abbrev pub CanAsk : TransferState → Type 0
CanAsk t = (0 < t.credit) ⊎ (t.map ≡ [])

done_of_map : (t : TransferState) → t.map ≡ [] → done t ≡ true
unfolding done
done_of_map t e = ground arith

chunk-CanAsk : (offset : ℕ) (bytes : List ℕ) (t : TransferState) → CanAsk (chunk offset bytes t)
unfolding chunk
chunk-CanAsk offset bytes t = ground arith

size-chunk-lt :
    (offset : ℕ) (bytes : List ℕ) (t : TransferState)
    → 0 < length bytes
    → covers offset t.map ≡ true
    → size (chunk offset bytes t).map < size t.map
unfolding chunk
size-chunk-lt offset bytes t pos c =
    size-exclude-lt offset t.map (range offset (offset + length bytes)) c (ground arith)

module _ (n : ℕ) (src : List ℕ) (t : TransferState) (v : IsFaithful src t) (c : CanAsk t) where
  finish_step :
      (o : Option Range) (t' : TransferState)
      → fetch 2 t ≡ some (o, t')
      → Fetched t o t'
      → size t.map ≤ suc n
      → ((u : TransferState) → IsFaithful src u → CanAsk u → size u.map ≤ n → Finishes n src u)
      → Finishes (suc n) src t
  unfolding rounds
  finish_step none t' e f s again =
      let nothing : t.map ≡ [] = ground arith in
      let same : t'.file ≡ t.file = ground arith in
      (
        t',
        rw (e, rounds),
        done_of_map t' (ground arith),
        same ∙ file_of_done src t v (done_of_map t nothing),
      )
  finish_step (some r) t' e f s again =
      let v' : IsFaithful src t' =
        rw f.4 (record { size_file = v.size_file; tiles = v.tiles; arrived = v.arrived }) in
      let inside : r.stop ≤ length src = omega (
        arith,
        covers-lt (r.stop - 1) 0 (length src) t.map v.tiles (f.3 (r.stop - 1) (ground arith)),
      ) in
      let (part, len) = slice-IsPart src r f.1 inside in
      let u = chunk r.start (slice src r) t' in
      let smaller : size u.map < size t'.map =
        size-chunk-lt r.start (slice src r) t' (omega arith)
          (rw f.4 (f.3 r.start (ground arith))) in
      let same : t'.map ≡ t.map = ground arith in
      let small : size u.map ≤ n = omega (arith, ap size same) in
      let (w, run, over, bytes) =
        again u (chunk-IsFaithful src r.start (slice src r) t' part v')
          (chunk-CanAsk r.start (slice src r) t') small in
      (w, rw (e, rounds) run, over, bytes)

-- Whatever has arrived before, if there is credit or nothing is to come, then as many rounds as
-- there are bytes to come finish the transfer with exactly the bytes of the file.
pub rounds_finish :
    (n : ℕ) (src : List ℕ) (t : TransferState)
    → IsFaithful src t
    → CanAsk t
    → size t.map ≤ n
    → (t' : TransferState) × (rounds n src t ≡ some t') × (done t' ≡ true) × (t'.file ≡ src)
rounds_finish zero src t v c s =
    let nothing : t.map ≡ [] = Tiles-size-zero 0 (length src) t.map v.tiles (omega arith) in
    (t, unfold rounds in refl, done_of_map t nothing, file_of_done src t v (done_of_map t nothing))
rounds_finish (suc n) src t v c s =
    let (o, t', e, f) = fetch_total 0 0 (length src) t v.tiles in
    finish_step n src t v c o t' e f s (rounds_finish n src)

size-new : (id : ℕ) (f : FileState) → size (new_transfer_state id f).map ≡ f.filesize
unfolding size new_transfer_state
size-new id f = omega arith

credit-new : (id : ℕ) (f : FileState) → 0 < (new_transfer_state id f).credit
unfolding new_transfer_state
credit-new id f = omega arith

-- A new transfer of a non-empty file, to a slave that answers every request with the bytes asked
-- for, is done after at most as many rounds as the file has bytes, and no request of it hangs; the
-- temporary file is then equal to the file on the slave.
pub rounds-new :
    (id : ℕ) (f : FileState) (src : List ℕ)
    → f.filesize ≡ length src
    → 0 < f.filesize
    → (t' : TransferState) × (rounds f.filesize src (new_transfer_state id f) ≡ some t')
      × (done t' ≡ true)
      × (t'.file ≡ src)
rounds-new id f src e h =
    rounds_finish f.filesize src (new_transfer_state id f)
      (new_transfer_state-IsFaithful id f src e h) (inl (credit-new id f))
      (omega (arith, size-new id f))
