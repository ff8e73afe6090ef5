-- ===== src/Transfer/Bytes.antt =====
-- What `write_at`, the write of `chunk` into the temporary file, does to the bytes.
use piwheels.Prelude.{
  ℕ, zero, suc, ◌+◌, ◌-◌, ◌≤◌, ◌<◌, ◌≡◌, refl, some, List, [], ◌∷◌, length, get_elem?,
  if◌then◌else◌, ltb, leb, arith, ◌&&◌, ap,
}
use piwheels.Transfer.{overlay, write_from, write_at}

length-overlay :
    (file ds : List ℕ) → length ds ≤ length file → length (overlay file ds) ≡ length file
unfolding overlay
length-overlay file [] h = refl
length-overlay [] (d ∷ ds) h = absurd (omega arith)
length-overlay (x ∷ xs) (d ∷ ds) h = ap suc (length-overlay xs ds (omega arith))

length-write_from :
    (k : ℕ) (file ds : List ℕ)
    → k + length ds ≤ length file
    → length (write_from k file ds) ≡ length file
unfolding write_from
length-write_from zero file ds h = length-overlay file ds (omega arith)
length-write_from (suc k) [] ds h = absurd (omega arith)
length-write_from (suc k) (x ∷ xs) ds h = ap suc (length-write_from k xs ds (omega arith))

-- A write inside the file leaves its length.
pub length-write_at :
    (k : ℕ) (file ds : List ℕ)
    → k + length ds ≤ length file
    → length (write_at k file ds) ≡ length file
unfolding write_at
length-write_at k file [] h = refl
length-write_at k file (d ∷ ds) h = length-write_from k file (d ∷ ds) h

get_elem?-overlay :
    (file ds : List ℕ) (i : ℕ)
    → length ds ≤ length file
    → get_elem? (overlay file ds) i
      ≡ (if ltb i (length ds) then get_elem? ds i else get_elem? file i)
unfolding overlay
get_elem?-overlay file [] i h = ground arith
get_elem?-overlay [] (d ∷ ds) i h = absurd (omega arith)
get_elem?-overlay (x ∷ xs) (d ∷ ds) zero h = ground arith
get_elem?-overlay (x ∷ xs) (d ∷ ds) (suc i) h = ground (arith, get_elem?-overlay xs ds i)

get_elem?-write_from :
    (k : ℕ) (file ds : List ℕ) (i : ℕ)
    → k + length ds ≤ length file
    → get_elem? (write_from k file ds) i
      ≡ (if leb k i && ltb i (k + length ds) then get_elem? ds (i - k) else get_elem? file i)
unfolding write_from
get_elem?-write_from zero file ds i h = ground (arith, get_elem?-overlay file ds i)
get_elem?-write_from (suc k) [] ds i h = absurd (omega arith)
get_elem?-write_from (suc k) (x ∷ xs) ds zero h = ground arith
get_elem?-write_from (suc k) (x ∷ xs) ds (suc i) h = ground (arith, get_elem?-write_from k xs ds i)

-- A write inside the file puts the new bytes at its place, and changes no other byte.
pub get_elem?-write_at :
    (k : ℕ) (file ds : List ℕ) (i : ℕ)
    → k + length ds ≤ length file
    → get_elem? (write_at k file ds) i
      ≡ (if leb k i && ltb i (k + length ds) then get_elem? ds (i - k) else get_elem? file i)
unfolding write_at
get_elem?-write_at k file [] i h = ground arith
get_elem?-write_at k file (d ∷ ds) i h = get_elem?-write_from k file (d ∷ ds) i h

-- Two files with the same bytes at every position are equal.
pub eq_of_get_elem? :
    (xs ys : List ℕ)
    → length xs ≡ length ys
    → ((i : ℕ) → i < length xs → get_elem? xs i ≡ get_elem? ys i)
    → xs ≡ ys
eq_of_get_elem? [] [] h f = refl
eq_of_get_elem? [] (y ∷ ys) h f = absurd (omega arith)
eq_of_get_elem? (x ∷ xs) [] h f = absurd (omega arith)
eq_of_get_elem? (x ∷ xs) (y ∷ ys) h f =
    let first : some x ≡ some y = f 0 (omega arith) in
    let rest = eq_of_get_elem? xs ys (omega arith) (λ i l. f (suc i) (omega arith)) in cc
