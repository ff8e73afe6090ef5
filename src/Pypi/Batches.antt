-- ===== src/Pypi/Batches.antt =====
-- Many iterations of PyPIBuffer, one after the other (piwheels/pypi.py).
use piwheels.Prelude.{
  ℕ, list_eq, nat_eq, ◌≡◌, ◌⊎◌, refl, sym, ◌∙◌, ap, subst, Bool, true, false, not, none, some, List,
  [], ◌∷◌, ◌++◌, All, arith, inl, inr, ltb, nat_beq, ◌||◌, ◌&&◌,
}
use piwheels.Result.{Result, ok, err, ◌>>=◌, >>=-ok}
use piwheels.Pypi.{Event, PypiBuffer, earlier, sort, sort_into, read}
use piwheels.Pypi.Sorting.{
  Le, Le-trans, All-append-right, Sorted, sort_into-Sorted, sort-Sorted, sort_into-append,
  sort_into-++,
}
use piwheels.Pypi.Seeking.{Before}
use piwheels.Pypi.Reading.{Holds, Sorted-right}
use piwheels.Pypi.Steps.{Quiet, Cuts, read-Reads}

-- The iterations over the batches of events that are read, and all that they yield.
unfoldable pub reads : List (List Event) → PypiBuffer → Result (List Event × PypiBuffer)
unfolding read
reads [] b = ok ([], b)
reads (es ∷ ess) b = do (out, b') ← read es b; (outs, b'') ← reads ess b'; ok (out ++ outs, b'')

unfoldable pub concat : List (List Event) → List Event
concat [] = []
concat (es ∷ ess) = es ++ concat ess

-- The event does not lie before the position.
unfoldable pub is_ahead : PypiBuffer → Event → Bool
is_ahead b e = elim b.serial_timestamp [
  | none ↦ true
  | some t ↦ not (ltb e.timestamp t || (nat_beq e.timestamp t && ltb e.serial b.wanted))
]

unfoldable pub all_ahead : PypiBuffer → List Event → Bool
unfolding is_ahead
all_ahead b [] = true
all_ahead b (e ∷ es) = is_ahead b e && all_ahead b es

-- No event arrives when the position is past it already.
unfoldable pub in_time : List (List Event) → PypiBuffer → Bool
unfolding all_ahead concat read
in_time [] b = true
in_time (es ∷ ess) b =
    all_ahead b (es ++ concat ess)
    && elim (read es b) [ err fault ↦ false | ok (out, b') ↦ in_time ess b' ]

-- The position is the first event of the buffer, in the order of times.
pub record Started (b : PypiBuffer) : Type 0 where
  pub first : Event
  pub rest : List Event
  pub holds : Holds b
  pub timestamp : b.serial_timestamp ≡ some first.timestamp
  pub wanted : b.wanted ≡ first.serial
  pub sorted : sort b.buffer ≡ first ∷ rest

is_ahead-known :
    (b : PypiBuffer) (e : Event) (t : ℕ)
    → b.serial_timestamp ≡ some t
    → is_ahead b e ≡ not (ltb e.timestamp t || (nat_beq e.timestamp t && ltb e.serial b.wanted))
unfolding is_ahead
is_ahead-known b e t known = rw known refl

all_ahead-Le :
    (b : PypiBuffer) (s : Started b) (es : List Event) → all_ahead b es ≡ true → All (Le s.first) es
unfolding all_ahead earlier
all_ahead-Le b s [] h = tt
all_ahead-Le b s (e ∷ es) h =
    let here : is_ahead b e ≡ true = ground (arith, h) in
    let there : all_ahead b es ≡ true = ground (arith, h) in
    (
      ground (arith, here, is_ahead-known b e s.first.timestamp s.timestamp, s.wanted),
      all_ahead-Le b s es there,
    )

all_ahead-++ :
    (b : PypiBuffer) (xs ys : List Event)
    → all_ahead b (xs ++ ys) ≡ true
    → (all_ahead b xs ≡ true) × (all_ahead b ys ≡ true)
unfolding all_ahead
all_ahead-++ b [] ys h = (refl, h)
all_ahead-++ b (x ∷ xs) ys h = ground (arith, all_ahead-++ b xs ys)

behind_one :
    (x : Event) (xs : List Event) → All (Le x) xs → All (λ e. All (λ y. Le y e) (x ∷ [])) xs
behind_one x [] h = tt
behind_one x (e ∷ es) h = ((h.0, tt), behind_one x es h.1)

-- What is sorted in stays behind the first event.
sort-first :
    (b : PypiBuffer) (s : Started b) (es : List Event)
    → All (Le s.first) es
    → sort (b.buffer ++ es) ≡ s.first ∷ sort_into s.rest es
unfolding sort_into
sort-first b s es h =
    sort_into-++ [] b.buffer es
    ∙ ap (λ ss. sort_into ss es) s.sorted
    ∙ sort_into-append (s.first ∷ []) s.rest es (behind_one s.first es h)

Le-last :
    (xs : List Event) (n : Event) (ys : List Event) → Sorted (xs ++ n ∷ ys) → All (λ x. Le x n) xs
Le-last [] n ys s = tt
Le-last (x ∷ xs) n ys s = ((All-append-right (Le x) xs (n ∷ ys) s.0).0, Le-last xs n ys s.1)

nothing_dropped :
    (t wanted : ℕ) (before rows : List Event) (first : Event) (rest : List Event)
    → first ∷ rest ≡ before ++ rows
    → All (Before t wanted) before
    → first.timestamp ≡ t
    → first.serial ≡ wanted
    → before ≡ []
nothing_dropped t wanted [] rows first rest e h at same = refl
nothing_dropped t wanted (x ∷ xs) rows first rest e h at same =
    let here : first ≡ x = cc e in
    absurd (elim h.0 [
      | inl lt ↦ omega (arith, lt, at, ap Event.timestamp here)
      | inr late ↦ omega (arith, late.1, same, ap Event.serial here)
    ])

-- One iteration of a started buffer, on events that are ahead of it.
record Step (b : PypiBuffer) (es out : List Event) (b' : PypiBuffer) : Type 0 where
  pub started : Started b'
  pub parts : out ++ sort b'.buffer ≡ sort (b.buffer ++ es)
  pub passed : All (λ x. Le x started.first) out

read-Step :
    (b : PypiBuffer) (s : Started b) (es out : List Event) (b' : PypiBuffer)
    → All (Le s.first) es
    → Holds b'
    → (Quiet b es out b' ⊎ Cuts b es out b')
    → Step b es out b'
read-Step b s es out b' h holds (inl (nothing, same, wanted, at)) =
    let started : Started b' = record {
      first = s.first;
      rest = sort_into s.rest es;
      holds = holds;
      timestamp = at s.first.timestamp s.timestamp;
      wanted = wanted ∙ s.wanted;
      sorted = same ∙ sort-first b s es h;
    } in
    record { started = started; parts = rw nothing same; passed = rw nothing tt }
read-Step b s es out b' h holds (inr (t, from, cut)) =
    let time : s.first.timestamp ≡ t = elim from [
      | inl known ↦ cc (known, s.timestamp)
      | inr unknown ↦ cc (unknown, s.timestamp)
    ] in
    let whole : s.first ∷ sort_into s.rest es ≡ cut.before ++ (out ++ b'.buffer) =
      sym (sort-first b s es h) ∙ cut.parts in
    let nothing : cut.before ≡ [] =
      nothing_dropped t b.wanted cut.before (out ++ b'.buffer) s.first (sort_into s.rest es) whole
        cut.early time (sym s.wanted) in
    let parts : sort (b.buffer ++ es) ≡ out ++ b'.buffer =
      cut.parts ∙ ap (λ xs. xs ++ (out ++ b'.buffer)) nothing in
    let ordered : Sorted (out ++ b'.buffer) =
      subst Sorted parts (sort_into-Sorted [] (b.buffer ++ es) tt) in
    let kept : sort b'.buffer ≡ b'.buffer =
      sort-Sorted b'.buffer (Sorted-right out b'.buffer ordered) in
    record {
      started = record {
        first = cut.next;
        rest = cut.later;
        holds = holds;
        timestamp = cut.timestamp;
        wanted = cut.wanted;
        sorted = kept ∙ cut.kept;
      };
      parts = ap (λ xs. out ++ xs) kept ∙ sym parts;
      passed = Le-last out cut.next cut.later (subst (λ xs. Sorted (out ++ xs)) cut.kept ordered);
    }

append_assoc : (xs ys zs : List Event) → (xs ++ ys) ++ zs ≡ xs ++ (ys ++ zs)
append_assoc [] ys zs = refl
append_assoc (x ∷ xs) ys zs = ap (λ ws. x ∷ ws) (append_assoc xs ys zs)

-- Whatever comes behind the position comes behind all that was yielded.
all_passed :
    (n : Event) (out es : List Event)
    → All (λ x. Le x n) out
    → All (Le n) es
    → All (λ e. All (λ x. Le x e) out) es
all_passed n out [] h k = tt
all_passed n out (e ∷ es) h k = (each out h, all_passed n out es h k.1)
  where
    each : (out : List Event) → All (λ x. Le x n) out → All (λ x. Le x e) out
    each [] h = tt
    each (x ∷ xs) h = (Le-trans x n e h.0 k.0, each xs h.1)

in_time-ahead :
    (ess : List (List Event)) (b : PypiBuffer)
    → in_time ess b ≡ true
    → all_ahead b (concat ess) ≡ true
unfolding in_time concat all_ahead
in_time-ahead [] b h = refl
in_time-ahead (es ∷ ess) b h = ground (arith, h)

and_right : (x y : Bool) → (x && y) ≡ true → y ≡ true
and_right true y h = h
and_right false y h = cc h

in_time-read :
    (es : List Event) (ess : List (List Event)) (b : PypiBuffer) (out : List Event)
    (b' : PypiBuffer)
    → in_time (es ∷ ess) b ≡ true
    → read es b ≡ ok (out, b')
    → in_time ess b' ≡ true
unfolding in_time
in_time-read es ess b out b' h e = rw e at (and_right (all_ahead b (es ++ concat ess)) _ h)

-- PyPIBuffer puts the events in order across its iterations: as long as no event arrives when the
-- position is past it, what all the iterations yield, followed by what the buffer still holds, is
-- exactly the stable sort by time and serial of all the events that have come. No iteration fails.
-- The buffer is one whose position is its first event, as each iteration that yields leaves it.
pub reads-sort :
    (ess : List (List Event)) (b : PypiBuffer)
    → Started b
    → in_time ess b ≡ true
    → (outs : List Event) × (b' : PypiBuffer) × (reads ess b ≡ ok (outs, b'))
      × (outs ++ sort b'.buffer ≡ sort (b.buffer ++ concat ess))
unfolding reads concat sort_into
reads-sort [] b s h = ([], b, refl, sym (sort_into-++ [] b.buffer []))
reads-sort (es ∷ ess) b s h =
    let ahead = all_ahead-++ b es (concat ess) (in_time-ahead (es ∷ ess) b h) in
    let (out, b', e, holds, cases) = read-Reads es b s.holds in
    let v : Step b es out b' = read-Step b s es out b' (all_ahead-Le b s es ahead.0) holds cases in
    let after : in_time ess b' ≡ true = in_time-read es ess b out b' h e in
    let (outs, b'', es', same) = reads-sort ess b' v.started after in
    let behind : All (λ e. All (λ x. Le x e) out) (concat ess) =
      all_passed v.started.first out (concat ess) v.passed
        (all_ahead-Le b' v.started (concat ess) (in_time-ahead ess b' after)) in
    (
      out ++ outs,
      b'',
      >>=-ok (read es b) _ (out, b') _ e (>>=-ok (reads ess b') _ (outs, b'') _ es' refl),
      append_assoc out outs (sort b''.buffer)
          ∙ ap (λ xs. out ++ xs) (same ∙ sort_into-++ [] b'.buffer (concat ess))
          ∙ sym (sort_into-append out (sort b'.buffer) (concat ess) behind)
          ∙ ap (λ ss. sort_into ss (concat ess)) (v.parts ∙ sort_into-++ [] b.buffer es)
          ∙ sym (
              sort_into-++ [] b.buffer (es ++ concat ess)
              ∙ sort_into-++ (sort b.buffer) es (concat ess)),
    )
