-- ===== src/Transfer.antt =====
-- TransferState of piwheels/states.py: one file on its way from a build slave to the master.
pub mod Fetch
pub mod Bytes
pub mod Integrity
pub mod Verify
pub mod Progress
pub mod Commit
use piwheels.Prelude.{
  nat_beq, ℕ, zero, suc, ◌+◌, ◌-◌, ◌*◌, ◌/◌, max, min, ◌==◌, list_eq, nat_eq, ◌≡◌, Bool, true,
  false, not, Option, none, some, List, [], ◌∷◌, ◌++◌, Text, text, drop_last, ltb, leb,
  if◌then◌else◌, length, take, drop, replicate, map, ◌&&◌,
}
use piwheels.Dict.{Dict, lookup, has, insert, remove}
use piwheels.Ranges.{Range, range, nonempty, exclude, intersect}
use piwheels.Files.{FileState, verified, armv7l, armv6_name}

abbrev pub chunk_size : ℕ
chunk_size = 65536

abbrev pub pipeline_size : ℕ
pipeline_size = 10

-- `file` holds the bytes of the temporary file, and `map` the ranges that are still to come.
pub record TransferState : Type 0 where
  pub slave_id : ℕ
  pub file_state : FileState
  pub file : List ℕ
  pub credit : ℕ
  pub offset : ℕ
  pub map : List Range

unfoldable pub reset_credit : TransferState → TransferState
reset_credit t = record t {
  credit = max 1 (min pipeline_size (t.file_state.filesize / chunk_size));
}

unfoldable pub new_transfer_state : ℕ → FileState → TransferState
unfolding reset_credit
new_transfer_state slave_id f = reset_credit (record {
  slave_id = slave_id;
  file_state = f;
  file = replicate f.filesize 0;
  credit = 0;
  offset = 0;
  map = range 0 f.filesize ∷ [];
})

unfoldable pub done : TransferState → Bool
done t = elim t.map [ [] ↦ true | r ∷ rs ↦ false ]

-- for map_range in self._map: the first overlap with the range to fetch
first_overlap : List Range → Range → Option Range
first_overlap [] f = none
first_overlap (r ∷ rs) f = elim (intersect r f) [
  | none ↦ first_overlap rs f
  | some found ↦ some found
]

-- The `while True` loop of `fetch`. The outer `none` says that the fuel ran out in the loop.
fetch_loop : ℕ → List Range → Range → Option (Option Range)
fetch_loop zero rs f = none
fetch_loop (suc fuel) [] f = some none
fetch_loop (suc fuel) (r ∷ rs) f = elim (first_overlap (r ∷ rs) f) [
  | some found ↦ some (some found)
  | none ↦ fetch_loop fuel (r ∷ rs) (range r.start (r.start + chunk_size))
]

-- What `fetch` does with the outcome of its loop.
after_loop : TransferState → Option (Option Range) → Option (Option Range × TransferState)
after_loop t none = none
after_loop t (some none) = some (none, record t { credit = t.credit - 1 })
after_loop t (some (some r)) = some (some r, record t { credit = t.credit - 1; offset = r.stop })

unfoldable pub fetch : ℕ → TransferState → Option (Option Range × TransferState)
unfolding first_overlap fetch_loop after_loop
fetch fuel t =
    if nat_beq t.credit 0
    then some (none, t)
    else after_loop t (fetch_loop fuel t.map (range t.offset (t.offset + chunk_size)))

-- f.seek(offset); f.write(data). A gap before `offset` is filled with zeros.
overlay : List ℕ → List ℕ → List ℕ
overlay file [] = file
overlay [] (d ∷ ds) = d ∷ ds
overlay (x ∷ xs) (d ∷ ds) = d ∷ overlay xs ds

write_from : ℕ → List ℕ → List ℕ → List ℕ
unfolding overlay
write_from zero file ds = overlay file ds
write_from (suc k) [] ds = 0 ∷ write_from k [] ds
write_from (suc k) (x ∷ xs) ds = x ∷ write_from k xs ds

unfoldable pub write_at : ℕ → List ℕ → List ℕ → List ℕ
unfolding write_from
write_at offset file [] = file
write_at offset file (d ∷ ds) = write_from offset file (d ∷ ds)

unfoldable pub chunk : ℕ → List ℕ → TransferState → TransferState
unfolding write_at
chunk offset bytes t =
    let rest = exclude t.map (range offset (offset + length bytes)) in
    record t {
      file = write_at offset t.file bytes;
      map = rest;
      credit = elim rest [ [] ↦ 0 | r ∷ rs ↦ t.credit + 1 ];
    }

-- hashlib: an object that takes bytes and gives the digest in hexadecimal. Updates add up.
pub record Hash : Type 1 where
  pub State : Type 0
  pub start : State
  pub update : State → List ℕ → State
  pub hexdigest : State → Text
  pub update_append : (s : State) (xs ys : List ℕ) → update (update s xs) ys ≡ update s (xs ++ ys)
  pub update_nil : (s : State) → update s [] ≡ s

abbrev pub lower_code : ℕ → ℕ
lower_code c = if leb 65 c && ltb c 91 then c + 32 else c

-- str.lower() on ASCII, which a digest is
unfoldable pub lower : Text → Text
lower = map lower_code

pub data Verdict : Type 0 where
  matches wrong_size wrong_hash : Verdict

module _ (h : Hash) where
  -- The reading loop of `verify`, from the position `at`: the state of the hash at the end of the
  -- file, and the position there (`tell`). The outer `none` says that the fuel ran out.
  read_loop : ℕ → List ℕ → ℕ → h.State → Option (h.State × ℕ)
  read_loop zero file at body = none
  read_loop (suc fuel) file at body = elim (take chunk_size (drop at file)) [
    | [] ↦ some (body, at)
    | b ∷ bs ↦ read_loop fuel file (at + length (b ∷ bs)) (h.update body (b ∷ bs))
  ]

  -- `wrong_size` and `wrong_hash` are the two IOErrors of `verify`.
  unfoldable pub verify : ℕ → TransferState → Option Verdict
  unfolding read_loop lower
  verify fuel t = elim (read_loop fuel t.file 0 h.start) [
    | none ↦ none
    | some (body, size) ↦ some (
        if nat_beq size t.file_state.filesize
        then (if lower (h.hexdigest body) == t.file_state.filehash then matches else wrong_hash)
        else wrong_size)
  ]

-- What a name of the output tree stands for.
pub data Node : Type 0 where
  missing : Node
  regular : List ℕ → Node
  symlink : Text → Node

-- A package's directory below `simple`.
pub data PkgDir : Type 0 where
  absent : PkgDir
  alias : Text → PkgDir
  directory : Dict Text Node → PkgDir

-- `mkdir_override_symlink`, by one process: an alias is unlinked, and the loop goes round again.
unfoldable pub mkdir_override_symlink : ℕ → PkgDir → PkgDir
mkdir_override_symlink zero d = d
mkdir_override_symlink (suc fuel) absent = directory []
mkdir_override_symlink (suc fuel) (alias target) = mkdir_override_symlink fuel absent
mkdir_override_symlink (suc fuel) (directory d) = directory d

link_armv6 : FileState → Dict Text Node → Dict Text Node
unfolding armv6_name has insert
link_armv6 f d =
    if f.platform_tag == armv7l
    then (if has (armv6_name f.filename) d
        then d
        else insert (armv6_name f.filename) (symlink f.filename) d)
    else d

unfoldable pub entries : PkgDir → Dict Text Node
entries absent = []
entries (alias target) = []
entries (directory d) = d

-- `commit`: the package's directory afterwards, and the file state with `transferred` set.
unfoldable pub commit : TransferState → PkgDir → PkgDir × FileState
unfolding mkdir_override_symlink link_armv6 entries insert verified
commit t dir =
    let d = entries (mkdir_override_symlink 2 dir) in
    let f = t.file_state in
    (directory (link_armv6 f (insert f.filename (regular t.file) d)), verified f)
