-- ===== src/Pypi/Steps.antt =====
-- PyPIBuffer always reads on, and drops nothing but what lies before its position (piwheels/pypi.py).
use piwheels.Prelude.{
  ℕ, list_eq, nat_eq, ◌≡◌, ◌⊎◌, refl, sym, ◌∙◌, subst, Option, none, some, List, [], ◌∷◌, ◌++◌, Any,
  if◌then◌else◌, arith, Bool-cases, Option-cases, inl, inr, leb,
}
use piwheels.Result.{Result, ok, or_fault, index_error, ◌>>=◌, >>=-ok}
use piwheels.Pypi.{
  Event, PypiBuffer, last_event, yield_rows, sort, sort_into, locate, at_serial, read, pypi_epoch,
}
use piwheels.Pypi.Sorting.{sort_into-Sorted, sort-Sorted, Any-sort_into, sort_into-++}
use piwheels.Pypi.Seeking.{Sought}
use piwheels.Pypi.Reading.{
  Cut, yield_rows-Yielded, HoldsAt, Holds, Any-append-left, Any-append-right, at_serial-Sought,
}

-- Nothing is yielded, and nothing is lost.
abbrev pub Quiet : PypiBuffer → List Event → List Event → PypiBuffer → Type 0
Quiet b events out b' =
    (out ≡ [])
    × (sort b'.buffer ≡ sort (b.buffer ++ events))
    × (b'.wanted ≡ b.wanted)
    × ((t : ℕ) → b.serial_timestamp ≡ some t → b'.serial_timestamp ≡ some t)

-- The rows are cut at the time of the position, which was known or has just come to be.
abbrev pub Cuts : PypiBuffer → List Event → List Event → PypiBuffer → Type 0
Cuts b events out b' =
    (t : ℕ) × ((b.serial_timestamp ≡ some t) ⊎ (b.serial_timestamp ≡ none))
    × Cut t b.wanted (sort (b.buffer ++ events)) out b'

abbrev pub Reads : PypiBuffer → List Event → Result (List Event × PypiBuffer) → Type 0
Reads b events m =
    (out : List Event) × (b' : PypiBuffer) × (m ≡ ok (out, b'))
    × Holds b'
    × (Quiet b events out b' ⊎ Cuts b events out b')

Holds-known :
    (b : PypiBuffer) (t : ℕ)
    → b.serial_timestamp ≡ some t
    → Any (Sought t b.wanted) b.buffer
    → Holds b
Holds-known b t e a = rw e a

Cut-Holds :
    (t sought : ℕ) (rows out : List Event) (b' : PypiBuffer) → Cut t sought rows out b' → Holds b'
Cut-Holds t sought rows out b' c =
    Holds-known b' c.next.timestamp c.timestamp (rw (c.kept, c.wanted) (inl (refl, omega arith)))

-- `__iter__` once the position was looked for, with the events in the buffer.
module _ (b : PypiBuffer) (events : List Event) (last : ℕ) where
  abbrev filled : Option ℕ → PypiBuffer
  filled found = record b {
    next_serial = last;
    serial_timestamp = found;
    buffer = b.buffer ++ events;
  }

  same_time :
      {t : ℕ}
      → ((b.serial_timestamp ≡ some t) ⊎ (b.serial_timestamp ≡ none))
      → (t' : ℕ) → b.serial_timestamp ≡ some t'
      → some t ≡ some t'
  same_time (inl e) t' e' = sym e ∙ e'
  same_time (inr e) t' e' = cc

  known-Reads :
      (t : ℕ)
      → ((b.serial_timestamp ≡ some t) ⊎ (b.serial_timestamp ≡ none))
      → Any (Sought t b.wanted) (b.buffer ++ events)
      → Reads b events (yield_rows t (sort (b.buffer ++ events)) (filled (some t)))
  known-Reads t from a =
      let sorted_in = Any-sort_into (Sought t b.wanted) [] (b.buffer ++ events) (inr a) in
      let sorted_holds : Holds (record (filled (some t)) { buffer = sort (b.buffer ++ events) }) =
        sorted_in in
      let sorted_twice : sort (sort (b.buffer ++ events)) ≡ sort (b.buffer ++ events) =
        sort-Sorted (sort (b.buffer ++ events)) (sort_into-Sorted [] (b.buffer ++ events) tt) in
      let (out, b', e, cases) =
        yield_rows-Yielded t (sort (b.buffer ++ events)) (filled (some t))
          (sort_into-Sorted [] (b.buffer ++ events) tt) sorted_in in
      elim cases [
        | inl (nothing, same) ↦ (
          out,
          b',
          e,
          subst Holds (sym same) sorted_holds,
          inl (
            nothing,
            rw same sorted_twice,
            rw same refl,
            λ t' e'. rw same (same_time from t' e'),
          ),
        )
        | inr cut ↦ (
          out,
          b',
          e,
          Cut-Holds t b.wanted (sort (b.buffer ++ events)) out b' cut,
          inr (t, from, cut),
        )
      ]

  late-Reads :
      (found : Option ℕ) (b₂ : PypiBuffer)
      → b₂ ≡ filled found
      → ((t : ℕ) → found ≡ some t → (b.serial_timestamp ≡ some t) ⊎ (b.serial_timestamp ≡ none))
      → ((t : ℕ) → b.serial_timestamp ≡ some t → found ≡ some t)
      → Holds (filled found)
      → Reads b events
          (elim found [ none ↦ ok ([], b₂) | some t ↦ yield_rows t (sort b₂.buffer) b₂ ])
  late-Reads none b₂ e from keeps holds =
      subst (λ b₂. Reads b events (ok ([], b₂))) (sym e)
        ([], filled none, refl, holds, inl (refl, refl, refl, keeps))
  late-Reads (some t) b₂ e from keeps holds =
      subst (λ (b₂ : PypiBuffer). Reads b events (yield_rows t (sort b₂.buffer) b₂)) (sym e)
        (known-Reads t (from t refl) holds)

  found-Reads :
      (found : Option ℕ)
      → ((t : ℕ) → found ≡ some t → (b.serial_timestamp ≡ some t) ⊎ (b.serial_timestamp ≡ none))
      → ((t : ℕ) → b.serial_timestamp ≡ some t → found ≡ some t)
      → Holds (filled found)
      → (b₂ : PypiBuffer) → b₂ ≡ filled found
      → Reads b events (
          if leb last pypi_epoch
          then ok ([], b₂)
          else elim found [ none ↦ ok ([], b₂) | some t ↦ yield_rows t (sort b₂.buffer) b₂ ])
  found-Reads found from keeps holds b₂ e = elim (Bool-cases (leb last pypi_epoch)) [
    | inl early ↦ rw early (
        subst (λ b₂. Reads b events (ok ([], b₂))) (sym e)
          ([], filled found, refl, holds, inl (refl, refl, refl, keeps)))
    | inr late ↦ rw late (late-Reads found b₂ e from keeps holds)
  ]

Reads->>= :
    (b : PypiBuffer) (events : List Event) {T : Type 0} (m : Result T)
    (f : T → Result (List Event × PypiBuffer)) (x : T)
    → m ≡ ok x
    → Reads b events (f x)
    → Reads b events (m >>= f)
Reads->>= b events m f x e r = rw e r

Holds-at :
    (b : PypiBuffer) (t : ℕ)
    → b.serial_timestamp ≡ some t
    → Holds b
    → Any (Sought t b.wanted) b.buffer
Holds-at b t e h = go b.serial_timestamp e h
  where
    go :
        (o : Option ℕ) → o ≡ some t → HoldsAt b.wanted b.buffer o → Any (Sought t b.wanted) b.buffer
    go none e h = cc e
    go (some t') e h =
        let same : t' ≡ t = cc e in subst (λ t. Any (Sought t b.wanted) b.buffer) same h

locate-known :
    (last : ℕ) (es : List Event) (b : PypiBuffer) (t : ℕ)
    → b.serial_timestamp ≡ some t
    → locate last es b ≡ ok (some t)
unfolding locate
locate-known last es b t e = rw e refl

-- The position is looked for among the events.
abbrev Located : List Event → ℕ → PypiBuffer → Type 0
Located es last b =
    (found : Option ℕ) × (locate last es b ≡ ok found)
    × Holds (record b { next_serial = last; serial_timestamp = found; buffer = b.buffer ++ es })

locate-Located :
    (e : Event) (es : List Event) (b : PypiBuffer)
    → b.serial_timestamp ≡ none
    → Located (e ∷ es) (last_event e es).serial b
unfolding locate
locate-Located e es b unknown = elim (Bool-cases (leb b.wanted (last_event e es).serial)) [
  | inl come ↦
      let (x, same, there) = at_serial-Sought b.wanted e es (ground (arith, come)) in
      (
        some x.timestamp,
        rw (unknown, come)
            (>>=-ok (or_fault index_error (at_serial b.wanted (e ∷ es))) _ x _ (rw same refl) refl),
        Any-append-right (Sought x.timestamp b.wanted) b.buffer (e ∷ es) there,
      )
  | inr not_yet ↦ (none, rw (unknown, not_yet) refl, tt)
]

-- Whatever arrives, an iteration goes through: no assertion fails and no index is out of range. It yields
-- nothing and keeps every event, or it cuts the sorted events in three: those before the position,
-- which are lost, those that are yielded, in order and from the position on, and those that are kept,
-- whose first one is the new position. It is assumed that the event at the position is in the buffer,
-- if its time is known, and so it is after the iteration.
pub read-Reads : (events : List Event) (b : PypiBuffer) → Holds b → Reads b events (read events b)
unfolding read sort_into
read-Reads [] b holds =
    ([], b, refl, holds, inl (refl, sym (sort_into-++ [] b.buffer []), refl, λ t e. e))
read-Reads (e ∷ es) b holds = elim (Option-cases b.serial_timestamp) [
  | inl unknown ↦
      let (found, located, there) = locate-Located e es b unknown in
      Reads->>= b (e ∷ es) (locate (last_event e es).serial (e ∷ es) b) _ found located (
        found-Reads b (e ∷ es) (last_event e es).serial found (λ t' e'. inr unknown)
          (λ t' e'. cc (unknown, e')) there _ refl)
  | inr (t, known) ↦
      let last = (last_event e es).serial in
      Reads->>= b (e ∷ es) (locate last (e ∷ es) b) _ (some t)
        (locate-known last (e ∷ es) b t known)
        (found-Reads b (e ∷ es) last (some t) (λ t' e'. inl (known ∙ e')) (λ t' e'. sym known ∙ e')
          (Any-append-left (Sought t b.wanted) b.buffer (e ∷ es) (Holds-at b t known holds)) _ refl)
]
