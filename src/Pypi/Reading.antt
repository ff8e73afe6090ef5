-- ===== src/Pypi/Reading.antt =====
-- What one iteration of PyPIBuffer yields and keeps.
use piwheels.Prelude.{
  ℕ, ◌+◌, ◌-◌, ◌*◌, ◌≤◌, ◌<◌, list_eq, nat_eq, ◌≡◌, ◌⊎◌, refl, sym, ◌∙◌, ap, true, false, Option,
  none, some, List, [], ◌∷◌, ◌++◌, All, Any, arith, Bool-cases, inl, inr, ltb, leb, nat_beq, length,
  take, length-append,
}
use piwheels.Result.{Result, ok, >>=-ok}
use piwheels.Pypi.{Event, PypiBuffer, since, wind, emit, last_event, yield_rows, at_serial}
use piwheels.Pypi.Sorting.{Sorted}
use piwheels.Pypi.Seeking.{Sought, Before, Found, seek-Found}

since-append :
    (f : ℕ) (p r : List Event) → All (λ e. e.timestamp < f) p → since f (p ++ r) ≡ since f r
unfolding since
since-append f [] r h = refl
since-append f (e ∷ p) r h =
    let early : ltb e.timestamp f ≡ true = ground (arith, h.0) in rw early (since-append f p r h.1)

-- The rows that `since` drops.
since-split : (f : ℕ) (xs : List Event) → (mid : List Event) × (xs ≡ mid ++ since f xs)
unfolding since
since-split f [] = ([], refl)
since-split f (e ∷ es) = elim (Bool-cases (ltb e.timestamp f)) [
  | inl early ↦ let (mid, same) = since-split f es in rw early (e ∷ mid, ap (λ xs. e ∷ xs) same)
  | inr now ↦ rw now ([], refl)
]

since-last :
    (f : ℕ) (e : Event) (es : List Event)
    → f ≤ (last_event e es).timestamp
    → (n : Event) × (later : List Event) × (since f (e ∷ es) ≡ n ∷ later) × (f ≤ n.timestamp)
unfolding since last_event
since-last f e [] h =
    let now : ltb e.timestamp f ≡ false = ground (arith, h) in rw now (e, [], refl, h)
since-last f e (x ∷ xs) h = elim (Bool-cases (ltb e.timestamp f)) [
  | inl early ↦ rw (early, since) (since-last f x xs h)
  | inr now ↦ rw now (e, x ∷ xs, refl, ground arith)
]

take-++ : (xs ys : List Event) → take (length xs) (xs ++ ys) ≡ xs
take-++ [] ys = refl
take-++ (x ∷ xs) ys = ap (λ zs. x ∷ zs) (take-++ xs ys)

All-Before :
    (t wanted f : ℕ) (xs : List Event)
    → t < f
    → All (Before t wanted) xs
    → All (λ e. e.timestamp < f) xs
All-Before t wanted f [] h k = tt
All-Before t wanted f (x ∷ xs) h k = (
  elim k.0 [ inl lt ↦ omega (arith, lt, h) | inr same ↦ omega (arith, same.0, h) ],
  All-Before t wanted f xs h k.1,
)

-- What a read that yields makes of the sorted rows: the rows before the position are dropped, `out` is
-- yielded, and the position is the first row of what is kept.
pub record Cut (t sought : ℕ) (rows out : List Event) (b' : PypiBuffer) : Type 0 where
  pub before : List Event
  pub parts : rows ≡ before ++ (out ++ b'.buffer)
  pub early : All (Before t sought) before
  pub first : Event
  pub others : List Event
  pub yielded : out ≡ first ∷ others
  pub at : Sought t sought first
  pub next : Event
  pub later : List Event
  pub kept : b'.buffer ≡ next ∷ later
  pub wanted : b'.wanted ≡ next.serial
  pub timestamp : b'.serial_timestamp ≡ some next.timestamp

abbrev cut_to : Event → List Event → PypiBuffer → PypiBuffer
cut_to n later b = record b {
  wanted = n.serial;
  serial_timestamp = some n.timestamp;
  buffer = n ∷ later;
}

emit-ok :
    (t : ℕ) (row : Event) (mid : List Event) (n : Event) (later : List Event) (b : PypiBuffer)
    → row.timestamp ≡ t
    → emit t row (mid ++ n ∷ later) (n ∷ later) b ≡ ok (row ∷ mid, cut_to n later b)
unfolding emit
emit-ok t row mid n later b at =
    let len : length (row ∷ mid ++ n ∷ later) ≡ length (row ∷ mid) + length (n ∷ later) =
      length-append (row ∷ mid) (n ∷ later) in
    let here : nat_beq row.timestamp t ≡ true = ground (arith, at) in
    let less : ltb (length (n ∷ later)) (length (row ∷ mid ++ n ∷ later)) ≡ true =
      ground (arith, len) in
    let many : length (row ∷ mid ++ n ∷ later) - length (n ∷ later) ≡ length (row ∷ mid) =
      omega (arith, len) in
    rw (here, less)
      (ap (λ k. ok (take k (row ∷ mid ++ n ∷ later), cut_to n later b)) many
        ∙ ap (λ xs. ok (xs, cut_to n later b)) (take-++ (row ∷ mid) (n ∷ later)))

emit-Cut :
    (t f : ℕ) (rows : List Event) (b : PypiBuffer) (s : Found t b.wanted rows (since t rows))
    (n : Event) (later : List Event)
    → t < f
    → since f rows ≡ n ∷ later
    → (out : List Event) × (b' : PypiBuffer) × (emit t s.row s.rest (since f rows) b ≡ ok (out, b'))
      × Cut t b.wanted rows out b'
unfolding emit
emit-Cut t f rows b s n later lt e =
    let skip : since f rows ≡ since f (s.row ∷ s.rest) =
      ap (since f) s.parts
      ∙ since-append f s.before (s.row ∷ s.rest) (All-Before t b.wanted f s.before lt s.early) in
    let skip_row : since f (s.row ∷ s.rest) ≡ since f s.rest =
      since-append f (s.row ∷ []) s.rest (omega (arith, s.at), tt) in
    let (mid, split) = since-split f s.rest in
    let tail : since f s.rest ≡ n ∷ later = sym (skip ∙ skip_row) ∙ e in
    let rest : s.rest ≡ mid ++ n ∷ later = split ∙ ap (λ xs. mid ++ xs) tail in
    (
      s.row ∷ mid,
      cut_to n later b,
      ap (λ xs. emit t s.row s.rest xs b) e
          ∙ ap (λ xs. emit t s.row xs (n ∷ later) b) rest
          ∙ emit-ok t s.row mid n later b s.at,
      record {
        before = s.before;
        parts = s.parts ∙ ap (λ xs. s.before ++ s.row ∷ xs) rest;
        early = s.early;
        first = s.row;
        others = mid;
        yielded = refl;
        at = (s.at, s.enough);
        next = n;
        later = later;
        kept = refl;
        wanted = refl;
        timestamp = refl;
      },
    )

-- What `__iter__` comes to once the buffer is sorted: nothing is yielded yet, or the rows are cut.
abbrev pub Yielded : ℕ → List Event → PypiBuffer → Result (List Event × PypiBuffer) → Type 0
Yielded t rows b m =
    (out : List Event) × (b' : PypiBuffer) × (m ≡ ok (out, b'))
    × (((out ≡ []) × (b' ≡ record b { buffer = rows })) ⊎ Cut t b.wanted rows out b')

pub yield_rows-Yielded :
    (t : ℕ) (rows : List Event) (b : PypiBuffer)
    → Sorted rows
    → Any (Sought t b.wanted) rows
    → Yielded t rows b (yield_rows t rows b)
unfolding yield_rows
yield_rows-Yielded t [] b s a = absurd a
yield_rows-Yielded t (e ∷ es) b s a =
    let f = (last_event e es).timestamp - 5 * 60 in
    elim (Bool-cases (leb f t)) [
      | inl wait ↦ rw wait ([], record b { buffer = e ∷ es }, refl, inl (refl, refl))
      | inr goes ↦
          let v : Found t b.wanted (e ∷ es) (since t (e ∷ es)) =
            seek-Found t b.wanted (e ∷ es) s a in
          let (n, later, same, le) = since-last f e es (omega arith) in
          let (out, b', emits, cut) = emit-Cut t f (e ∷ es) b v n later (ground arith) same in
          rw goes (
            out,
            b',
            >>=-ok (wind t b.wanted (since t (e ∷ es))) _ (v.row, v.rest) _ v.winds emits,
            inr cut,
          )
    ]

abbrev pub HoldsAt : ℕ → List Event → Option ℕ → Type 0
HoldsAt wanted es none = Unit
HoldsAt wanted es (some t) = Any (Sought t wanted) es

-- The event at the position is in the buffer, if the position is known.
abbrev pub Holds : PypiBuffer → Type 0
Holds b = HoldsAt b.wanted b.buffer b.serial_timestamp

pub Sorted-right : (xs ys : List Event) → Sorted (xs ++ ys) → Sorted ys
Sorted-right [] ys s = s
Sorted-right (x ∷ xs) ys s = Sorted-right xs ys s.1

pub Any-append-left : (P : Event → Type 0) (xs ys : List Event) → Any P xs → Any P (xs ++ ys)
Any-append-left P [] ys h = absurd h
Any-append-left P (x ∷ xs) ys (inl h) = inl h
Any-append-left P (x ∷ xs) ys (inr h) = inr (Any-append-left P xs ys h)

pub Any-append-right : (P : Event → Type 0) (xs ys : List Event) → Any P ys → Any P (xs ++ ys)
Any-append-right P [] ys h = h
Any-append-right P (x ∷ xs) ys h = inr (Any-append-right P xs ys h)

pub at_serial-Sought :
    (wanted : ℕ) (e : Event) (es : List Event)
    → wanted ≤ (last_event e es).serial
    → (x : Event) × (at_serial wanted (e ∷ es) ≡ some x) × Any (Sought x.timestamp wanted) (e ∷ es)
unfolding at_serial last_event
at_serial-Sought wanted e [] h =
    let now : ltb e.serial wanted ≡ false = ground (arith, h) in rw now (e, refl, inl (refl, h))
at_serial-Sought wanted e (x ∷ xs) h = elim (Bool-cases (ltb e.serial wanted)) [
  | inl early ↦
      let (y, same, there) = at_serial-Sought wanted x xs h in
      rw (early, at_serial) (y, same, inr there)
  | inr now ↦ rw now (e, refl, inl (refl, ground arith))
]
