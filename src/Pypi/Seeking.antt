-- ===== src/Pypi/Seeking.antt =====
-- How PyPIBuffer cuts its sorted buffer: what is before the position, the rows, and the rest.
use piwheels.Prelude.{
  ℕ, ◌≤◌, ◌<◌, list_eq, nat_eq, ◌≡◌, ◌⊎◌, refl, ap, List, [], ◌∷◌, ◌++◌, All, Any, arith,
  Bool-cases, inl, inr, ltb, nat_beq, ◌&&◌,
}
use piwheels.Result.{ok}
use piwheels.Pypi.{Event, earlier, since, wind}
use piwheels.Pypi.Sorting.{Le, Sorted}

-- A row that is sought: at the time `t`, with at least the serial that is wanted.
abbrev pub Sought : ℕ → ℕ → Event → Type 0
Sought t wanted e = (e.timestamp ≡ t) × (wanted ≤ e.serial)

-- A row before the position.
abbrev pub Before : ℕ → ℕ → Event → Type 0
Before t wanted e = (e.timestamp < t) ⊎ ((e.timestamp ≡ t) × (e.serial < wanted))

-- What winding forward finds.
pub record Found (t wanted : ℕ) (rows rest₀ : List Event) : Type 0 where
  pub before : List Event
  pub row : Event
  pub rest : List Event
  pub winds : wind t wanted rest₀ ≡ ok (row, rest)
  pub parts : rows ≡ before ++ row ∷ rest
  pub early : All (Before t wanted) before
  pub at : row.timestamp ≡ t
  pub enough : wanted ≤ row.serial

-- No row behind one that is later than `t` is sought.
no_later :
    (t wanted : ℕ) (x : Event) (xs : List Event)
    → t < x.timestamp
    → All (Le x) xs
    → Any (Sought t wanted) xs
    → ⊥
unfolding earlier
no_later t wanted x [] late h a = a
no_later t wanted x (y ∷ ys) late h (inl here) = ground (arith, h.0, here.0)
no_later t wanted x (y ∷ ys) late h (inr there) = no_later t wanted x ys late h.1 there

-- A row of the time `t` that is sought, where the rows are not before `t`.
wind-Found :
    (t wanted : ℕ) (rows : List Event)
    → Sorted rows
    → All (λ e. t ≤ e.timestamp) rows
    → Any (Sought t wanted) rows
    → Found t wanted rows rows
unfolding wind
wind-Found t wanted [] s h a = absurd a
wind-Found t wanted (e ∷ es) s h a =
    elim (Bool-cases (nat_beq e.timestamp t && ltb e.serial wanted)) [
      | inl skipped ↦
          let again : Found t wanted es es =
            wind-Found t wanted es s.1 h.1
              (elim a [ inl here ↦ absurd (ground (arith, here.0, here.1)) | inr there ↦ there ]) in
          record {
            before = e ∷ again.before;
            row = again.row;
            rest = again.rest;
            winds = rw skipped again.winds;
            parts = ap (λ xs. e ∷ xs) again.parts;
            early = (inr (ground arith, ground arith), again.early);
            at = again.at;
            enough = again.enough;
          }
      | inr stays ↦ elim (Bool-cases (ltb t e.timestamp)) [
        | inl late ↦ absurd (elim a [
          | inl here ↦ ground (arith, here.0)
          | inr there ↦ no_later t wanted e es (ground arith) s.0 there
        ])
        | inr now ↦
            let same : e.timestamp ≡ t = ground (arith, h.0) in
            record {
              before = [];
              row = e;
              rest = es;
              winds = rw stays refl;
              parts = refl;
              early = tt;
              at = same;
              enough = ground arith;
            }
      ]
    ]

all_since :
    (t : ℕ) (x : Event) (xs : List Event)
    → t ≤ x.timestamp
    → All (Le x) xs
    → All (λ e. t ≤ e.timestamp) xs
unfolding earlier
all_since t x [] h k = tt
all_since t x (y ∷ ys) h k = (ground (arith, k.0), all_since t x ys h k.1)

pub seek-Found :
    (t wanted : ℕ) (rows : List Event)
    → Sorted rows
    → Any (Sought t wanted) rows
    → Found t wanted rows (since t rows)
unfolding since
seek-Found t wanted [] s a = absurd a
seek-Found t wanted (e ∷ es) s a = elim (Bool-cases (ltb e.timestamp t)) [
  | inl early ↦
      let again : Found t wanted es (since t es) =
        seek-Found t wanted es s.1
          (elim a [ inl here ↦ absurd (ground (arith, here.0)) | inr there ↦ there ]) in
      record {
        before = e ∷ again.before;
        row = again.row;
        rest = again.rest;
        winds = rw (early, since) again.winds;
        parts = ap (λ xs. e ∷ xs) again.parts;
        early = (inl (ground arith), again.early);
        at = again.at;
        enough = again.enough;
      }
  | inr now ↦
      let here : t ≤ e.timestamp = ground arith in
      rw now (wind-Found t wanted (e ∷ es) s (here, all_since t e es here s.0) a)
]
