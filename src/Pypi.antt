-- ===== src/Pypi.antt =====
-- PyPIBuffer (piwheels/pypi.py): the events of PyPI's change log, put in the order of their times.
pub mod Sorting
pub mod Seeking
pub mod Reading
pub mod Steps
pub mod Batches
use piwheels.Prelude.{
  ℕ, suc, ◌+◌, ◌-◌, ◌*◌, list_eq, nat_eq, ◌==◌, ◌≡◌, Bool, true, false, not, ◌&&◌, ◌||◌, Option,
  none, some, List, [], ◌∷◌, ◌++◌, Text, text, if◌then◌else◌, ltb, leb, nat_beq, length, take,
}
use piwheels.Result.{Result, ok, err, or_fault, index_error, assertion, ◌>>=◌}

-- A row of `changelog_since_serial`; the time counts seconds.
pub record Event : Type 0 where
  pub pkg : Text
  pub version : Option Text
  pub timestamp : ℕ
  pub action : Text
  pub serial : ℕ

pub record PypiBuffer : Type 0 where
  pub wanted : ℕ
  pub buffer : List Event
  pub next_serial : ℕ
  pub serial_timestamp : Option ℕ

abbrev pypi_epoch : ℕ
pypi_epoch = 628000

abbrev pypi_margin : ℕ
pypi_margin = 2000

-- The setter of `serial`, which is `_serial` in the class.
unfoldable pub new_buffer : ℕ → PypiBuffer
new_buffer value = record {
  wanted = value;
  buffer = [];
  next_serial = (if ltb value pypi_epoch then 0 else value) - pypi_margin;
  serial_timestamp = none;
}

-- a < b by itemgetter(2, 4)
unfoldable pub earlier : Event → Event → Bool
earlier a b =
    ltb a.timestamp b.timestamp || (nat_beq a.timestamp b.timestamp && ltb a.serial b.serial)

unfoldable pub insert_event : Event → List Event → List Event
unfolding earlier
insert_event e [] = e ∷ []
insert_event e (x ∷ xs) =
    let rest = insert_event e xs in if earlier e x then e ∷ x ∷ xs else x ∷ rest

unfoldable pub sort_into : List Event → List Event → List Event
unfolding insert_event
sort_into sorted [] = sorted
sort_into sorted (e ∷ es) = sort_into (insert_event e sorted) es

-- self._buffer.sort(key=itemgetter(2, 4)), which is stable
abbrev pub sort : List Event → List Event
sort = sort_into []

-- buffer[bisect_left(times, t):]: from the first row on whose time is at least `t`
unfoldable pub since : ℕ → List Event → List Event
since t [] = []
since t (e ∷ es) = if ltb e.timestamp t then since t es else e ∷ es

-- events[bisect_left(serials, serial)]: the first event with at least that serial
unfoldable pub at_serial : ℕ → List Event → Option Event
at_serial serial [] = none
at_serial serial (e ∷ es) = if ltb e.serial serial then at_serial serial es else some e

unfoldable pub last_event : Event → List Event → Event
last_event e [] = e
last_event e (x ∷ xs) = last_event x xs

-- The loop that winds `start` forward, with buffer[start:] as it goes; at the end of the buffer the
-- index is out of range.
unfoldable pub wind : ℕ → ℕ → List Event → Result (Event × List Event)
wind t wanted [] = err index_error
wind t wanted (e ∷ es) =
    let rest = wind t wanted es in
    if nat_beq e.timestamp t && ltb e.serial wanted then rest else ok (e, es)

-- The rows from `row` on are buffer[start:], and `later` is buffer[finish:].
unfoldable pub emit :
    ℕ → Event → List Event → List Event → PypiBuffer → Result (List Event × PypiBuffer)
emit t row rest [] b = err index_error
emit t row rest (next ∷ later) b =
    if not (nat_beq row.timestamp t)
    then err assertion
    else if not (ltb (length (next ∷ later)) (length (row ∷ rest)))
    then err assertion
    else ok (
      take (length (row ∷ rest) - length (next ∷ later)) (row ∷ rest),
      record b {
        wanted = next.serial;
        serial_timestamp = some next.timestamp;
        buffer = next ∷ later;
      },
    )

-- The end of `__iter__`, for the time of the event that is sought.
unfoldable pub yield_rows : ℕ → List Event → PypiBuffer → Result (List Event × PypiBuffer)
unfolding since wind emit last_event
yield_rows t [] b = err index_error
yield_rows t (first ∷ rows) b =
    let finish = (last_event first rows).timestamp - 5 * 60 in
    if leb finish t then ok ([], record b { buffer = first ∷ rows }) else (do
      (row, rest) ← wind t b.wanted (since t (first ∷ rows))
      emit t row rest (since finish (first ∷ rows)) b)

-- _serial_timestamp, after events with `last` as the last serial have come
unfoldable pub locate : ℕ → List Event → PypiBuffer → Result (Option ℕ)
unfolding at_serial
locate last events b = elim b.serial_timestamp [
  | some t ↦ ok (some t)
  | none ↦
      if leb b.wanted last
      then (do e ← or_fault index_error (at_serial b.wanted events); ok (some e.timestamp))
      else ok none
]

-- __iter__, to its end, with the events that were read: the rows that it yields.
unfoldable pub read : List Event → PypiBuffer → Result (List Event × PypiBuffer)
unfolding locate yield_rows sort_into last_event
read [] b = ok ([], b)
read (e ∷ es) b = do
  let last = (last_event e es).serial
  found ← locate last (e ∷ es) b
  let b' = record b { next_serial = last; serial_timestamp = found; buffer = b.buffer ++ e ∷ es }
  if leb last pypi_epoch
      then ok ([], b')
      else elim found [ none ↦ ok ([], b') | some t ↦ yield_rows t (sort b'.buffer) b' ]
