-- ===== src/Transfer/Fetch.antt =====
-- `fetch` of TransferState: which range is asked for next.
use piwheels.Files.{FileState}
use piwheels.Transfer.{
  new_transfer_state, TransferState, chunk_size, first_overlap, fetch_loop, fetch, after_loop,
}
use piwheels.Prelude.{
  ap, ◌∙◌, max, min, ℕ, zero, suc, ◌+◌, ◌-◌, ◌≤◌, ◌<◌, ◌≡◌, refl, ◌⊎◌, inl, inr, true, false,
  Option, none, some, List, [], ◌∷◌, arith, Option-cases, Bool-cases, ltb→lt, nat_beq,
}
use piwheels.Ranges.{Range, range, in_range, intersect}
use piwheels.Ranges.Members.{covers, intersect_lem}
use piwheels.Ranges.Tiling.{Tiles}

-- `r` is a non-empty range of offsets that are both wanted and in `f`.
pub record IsOverlap (rs : List Range) (f r : Range) : Type 0 where
  pub some_offset : r.start < r.stop
  pub wanted : (i : ℕ) → in_range i r ≡ true → (covers i rs ≡ true) × (in_range i f ≡ true)

intersect-IsOverlap :
    (r f o : Range) (rs : List Range) → intersect r f ≡ some o → IsOverlap (r ∷ rs) f o
intersect-IsOverlap r f o rs e = record {
  some_offset = ltb→lt _ _ ((intersect_lem r f).1 o e);
  wanted = λ i h. ground (arith, (intersect_lem r f).0 i, e);
}

first_overlap-IsOverlap :
    (rs : List Range) (f o : Range) → first_overlap rs f ≡ some o → IsOverlap rs f o
unfolding first_overlap
first_overlap-IsOverlap [] f o e = cc
first_overlap-IsOverlap (r ∷ rs) f o e = elim (Option-cases (intersect r f)) [
  | inl missed ↦
      let later : IsOverlap rs f o =
        first_overlap-IsOverlap rs f o (rw (missed, first_overlap) at e) in
      record { some_offset = later.some_offset; wanted = λ i h. ground (arith, later.wanted i h) }
  | inr (a, hit) ↦ intersect-IsOverlap r f o rs (ground arith)
]

-- The first range of a list overlaps the range that starts where it does.
first_overlap-head :
    (r : Range) (rs : List Range)
    → r.start < r.stop
    → (o : Range) × (first_overlap (r ∷ rs) (range r.start (r.start + chunk_size)) ≡ some o)
unfolding first_overlap intersect
first_overlap-head r rs h =
    (range (max r.start r.start) (min r.stop (r.start + chunk_size)), ground arith)

-- What `fetch` gives: nothing without credit or when nothing is to come, and otherwise a
-- non-empty range of wanted offsets, of at most a chunk, at the price of one credit.
abbrev pub Fetched : TransferState → Option Range → TransferState → Type 0
Fetched t none t' = ((t.credit ≡ 0) ⊎ (t.map ≡ [])) × (t' ≡ record t { credit = t.credit - 1 })
Fetched t (some r) t' =
    (0 < t.credit)
    × (r.start < r.stop)
    × (r.stop ≤ r.start + chunk_size)
    × ((i : ℕ) → in_range i r ≡ true → covers i t.map ≡ true)
    × (t' ≡ record t { credit = t.credit - 1; offset = r.stop })

abbrev LoopResult : List Range → Option Range → Type 0
LoopResult rs none = rs ≡ []
LoopResult rs (some r) =
    (r.start < r.stop)
    × (r.stop ≤ r.start + chunk_size)
    × ((i : ℕ) → in_range i r ≡ true → covers i rs ≡ true)

LoopResult-overlap :
    (rs : List Range) (start : ℕ) (o : Range)
    → IsOverlap rs (range start (start + chunk_size)) o
    → LoopResult rs (some o)
LoopResult-overlap rs start o v = (
  v.some_offset,
  ground (arith, v.wanted o.start, v.wanted (o.stop - 1), v.some_offset),
  λ i h. (v.wanted i h).0,
)

fetch_loop-once :
    (fuel lo hi start : ℕ) (r : Range) (rs : List Range)
    → Tiles lo hi (r ∷ rs)
    → (o : Option Range) × (fetch_loop (suc (suc fuel)) (r ∷ rs) (range start (start + chunk_size))
        ≡ some o)
      × LoopResult (r ∷ rs) o
unfolding fetch_loop
fetch_loop-once fuel lo hi start r rs t =
    elim (Option-cases (first_overlap (r ∷ rs) (range start (start + chunk_size)))) [
      | inr (o, e) ↦ (
        some o,
        rw (e, fetch_loop),
        LoopResult-overlap (r ∷ rs) start o (first_overlap-IsOverlap _ _ _ e),
      )
      | inl e ↦
          let (o, hit) = first_overlap-head r rs t.1 in
          (
            some o,
            rw (e, fetch_loop) (rw (hit, fetch_loop)),
            LoopResult-overlap (r ∷ rs) r.start o (first_overlap-IsOverlap _ _ _ hit),
          )
    ]

fetch_loop_lem :
    (fuel lo hi start : ℕ) (rs : List Range)
    → Tiles lo hi rs
    → (o : Option Range) × (fetch_loop (suc (suc fuel)) rs (range start (start + chunk_size))
        ≡ some o)
      × LoopResult rs o
fetch_loop_lem fuel lo hi start [] t = (none, unfold fetch_loop in refl, refl)
fetch_loop_lem fuel lo hi start (r ∷ rs) t = fetch_loop-once fuel lo hi start r rs t

after_loop-Fetched :
    (t : TransferState) (o : Option Range)
    → 0 < t.credit
    → LoopResult t.map o
    → (t' : TransferState) × (after_loop t (some o) ≡ some (o, t')) × Fetched t o t'
unfolding after_loop
after_loop-Fetched t none c l = (record t { credit = t.credit - 1 }, refl, (inr l, refl))
after_loop-Fetched t (some r) c l =
    (record t { credit = t.credit - 1; offset = r.stop }, refl, (c, l.0, l.1, l.2, refl))

unfetch :
    (fuel : ℕ) (t : TransferState)
    → nat_beq t.credit 0 ≡ false
    → fetch fuel t ≡ after_loop t (fetch_loop fuel t.map (range t.offset (t.offset + chunk_size)))
unfolding fetch
unfetch fuel t h = rw h

-- The `while True` loop of `fetch` ends within two rounds when the ranges of the map are non-empty
-- and ascend. It then gives nothing, without credit or with nothing to come, or a non-empty range
-- of offsets that are all still wanted, of at most a chunk; it takes one credit if there was any,
-- moves `offset` to the end of the range, and changes nothing else.
pub fetch_total :
    (fuel lo hi : ℕ) (t : TransferState)
    → Tiles lo hi t.map
    → (o : Option Range) × (t' : TransferState) × (fetch (suc (suc fuel)) t ≡ some (o, t'))
      × Fetched t o t'
fetch_total fuel lo hi t h = elim (Bool-cases (nat_beq t.credit 0)) [
  | inl broke ↦ (none, t, unfold fetch in ground arith, (inl (ground arith), ground arith))
  | inr funds ↦
      let (o, e, l) = fetch_loop_lem fuel lo hi t.offset t.map h in
      let (t', e', f) = after_loop-Fetched t o (ground arith) l in
      (o, t', cc (unfetch (suc (suc fuel)) t funds, e, e'), f)
]

fetch_loop-empty : (fuel a : ℕ) (f : Range) → fetch_loop fuel (range a a ∷ []) f ≡ none
unfolding fetch_loop
fetch_loop-empty zero a f = refl
fetch_loop-empty (suc fuel) a f =
    let missed : first_overlap (range a a ∷ []) f ≡ none =
      unfold first_overlap intersect in ground arith in
    rw (missed, fetch_loop) (fetch_loop-empty fuel a (range a (a + chunk_size)))

fetch-empty_range :
    (fuel a : ℕ) (t : TransferState) → 0 < t.credit → t.map ≡ range a a ∷ [] → fetch fuel t ≡ none
fetch-empty_range fuel a t c e =
    unfetch fuel t (ground arith)
    ∙ rw (e, fetch_loop-empty fuel a (range t.offset (t.offset + chunk_size)))
        (unfold after_loop in refl)

-- A new transfer of an empty file hangs in its first `fetch`: no number of rounds ends the loop,
-- since its map is one empty range, which overlaps nothing and is never removed.
pub fetch-empty_file :
    (fuel id : ℕ) (f : FileState) → f.filesize ≡ 0 → fetch fuel (new_transfer_state id f) ≡ none
unfolding new_transfer_state
fetch-empty_file fuel id f e =
    fetch-empty_range fuel 0 (new_transfer_state id f) (omega arith) (ap (λ n. range 0 n ∷ []) e)
