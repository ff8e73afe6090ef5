-- ===== src/BuildSlave/Session.antt =====
-- How a build slave and the master's record of it agree while they exchange messages.
pub mod Rounds
use piwheels.Prelude.{
  ℕ, list_eq, nat_eq, ◌==◌, ◌≡◌, refl, sym, subst, ap, ◌∙◌, Bool, true, false, Option, none, some,
  List, [], ◌∷◌, Text, All, if◌then◌else◌, is_some, Bool-cases, Option-cases, inl, inr, arith,
  beq_refl,
}
use piwheels.Dict.{Dict, insert}
use piwheels.Result.{
  Result, ok, err, assertion, index_error, system_exit, or_fault, key_error, ◌>>=◌, >>=-ok,
}
use piwheels.Files.{
  FileState, FileMessage, BuildState, next_file, files_from_messages, file_from_message, verified,
}
use piwheels.Files.Next.{next_file-lookup}
use piwheels.Files.Waiting.{Waits, insert-Waits}
use piwheels.Armv6.{build_armv6l_hack}
use piwheels.Slave.{
  Built, Request, hello, bye, idle, busy, built, sent, Reply, ack, die, cont, finished, sleep,
  build, send, SlaveState, Status, set_reply,
}
use piwheels.Driver.{is_free, is_build, mark_verified}
use piwheels.Driver.Invariant.{HasAbi}
use piwheels.BuildSlave.{
  Builder, BuildSlave, Surroundings, Turn, find_wheel, handle_reply, joined, report, do_sleep,
  do_build, do_cont, do_send, send_wheel, do_done, clean_up_build,
}

-- The slave has a wheel of that name.
abbrev pub HasWheel : List FileMessage → Text → Type 0
HasWheel fs name = is_some (find_wheel name fs) ≡ true

-- The slave was accepted, and is of a proper ABI.
pub record Knows (m : SlaveState) (w : BuildSlave) : Type 0 where
  pub known : is_some w.slave_id ≡ true
  pub abi : HasAbi m.info

abbrev pub Told : (Reply → Bool) → SlaveState → Type 0
Told p m = (last : Reply) × (m.reply ≡ some last) × (p last ≡ true)

-- The slave has a build, which has come to that result.
abbrev pub Has : Option Built → BuildSlave → Type 0
Has r w = (b : Builder) × (w.builder ≡ some b) × (b.result ≡ r)

-- The master waits for a file that the slave has.
pub record Sending (m : SlaveState) (w : BuildSlave) : Type 0 where
  pub result : Built
  pub has_result : Has (some result) w
  pub good : result.status ≡ true
  pub name : Text
  pub told : m.reply ≡ some (send name)
  pub made : BuildState
  pub current : m.current ≡ some made
  pub next : next_file made ≡ some name
  pub waits : Waits (HasWheel result.files) made.files

-- The slave `w` has sent `r`, and the master, which has not read it yet, knows it as `m`.
abbrev pub InStep : SlaveState → BuildSlave → Request → Type 0
InStep m w (hello h) = (w.slave_id ≡ none) × (w.builder ≡ none) × HasAbi m.info
InStep m w bye = ⊥
InStep m w (idle x) = Knows m w × Told is_free m × (w.builder ≡ none)
InStep m w (busy x) = Knows m w × Told is_build m × ((r : Option Built) × Has r w)
InStep m w (built r) = Knows m w × Told is_build m × Has (some r) w
InStep m w sent = Knows m w × Sending m w

-- After a reply the slave has no failed assertion: it goes on, or exits as it was told to.
abbrev pub GoesOn : Bool → SlaveState → Result Turn → Type 0
GoesOn killed m (ok (r, w)) = InStep m w r
GoesOn killed m (err system_exit) = killed ≡ true
GoesOn killed m (err other) = ⊥

send_wheel-ok :
    (name : Text) (r : Built) (w : BuildSlave)
    → r.status ≡ true
    → HasWheel r.files name
    → send_wheel name (some r) w ≡ ok (sent, w)
unfolding send_wheel
send_wheel-ok name r w good there = elim (Option-cases (find_wheel name r.files)) [
  | inl missing ↦ cc
  | inr (wheel, found) ↦
      rw good
        (>>=-ok (or_fault index_error (find_wheel name r.files)) _ wheel _ (rw found refl) refl)
]

wheel_of :
    (w : BuildSlave) (name : Text) (b : Builder) (o : Option Builder)
    → o ≡ some b
    → elim o [ none ↦ err assertion | some c ↦ send_wheel name c.result w ]
      ≡ send_wheel name b.result w
wheel_of w name b none e = cc
wheel_of w name b (some c) e =
    let same : c ≡ b = cc in ap (λ (x : Builder). send_wheel name x.result w) same

module _ (u : Surroundings) (w : BuildSlave) (known : is_some w.slave_id ≡ true) where
  do_sleep-ok : do_sleep u w ≡ ok (idle u.status, w)
  unfolding do_sleep
  do_sleep-ok = rw known refl

  do_build-ok :
      (pkg version : Text)
      → w.builder ≡ none
      → do_build u pkg version w
        ≡ ok (
          busy u.status,
          record w { builder = some (record { pkg = pkg; version = version; result = none }) },
        )
  unfolding do_build
  do_build-ok pkg version e = rw (known, e) refl

  do_cont-report : (b : Builder) → w.builder ≡ some b → do_cont u w ≡ report u (joined u b) w
  unfolding do_cont
  do_cont-report b e = rw (known, e) refl

  do_send-wheel :
      (b : Builder) (name : Text) → w.builder ≡ some b → do_send name w ≡ send_wheel name b.result w
  unfolding do_send
  do_send-wheel b name e = rw known (wheel_of w name b w.builder e)

  do_done-ok :
      (b : Builder)
      → w.builder ≡ some b
      → u.stops ≡ true
      → do_done u w ≡ ok (idle u.status, record w { builder = none })
  unfolding do_done clean_up_build
  do_done-ok b e stops = elim (Bool-cases (is_some (joined u b).result)) [
    | inl over ↦ rw (known, e) (rw over refl)
    | inr runs ↦ rw (known, e) (rw (runs, stops) refl)
  ]

-- What the thread has come to is reported, or the slave is still busy.
report-GoesOn :
    (u : Surroundings) (b : Builder) (w : BuildSlave) (killed : Bool) (m : SlaveState)
    → Knows m w
    → Told is_build m
    → GoesOn killed m (report u b w)
unfolding report
report-GoesOn u b w killed m k told = elim (Option-cases b.result) [
  | inl runs ↦ rw (runs, report) (knows, told, (none, (b, refl, runs)))
  | inr (r, over) ↦ rw (over, report) (knows, told, (b, refl, over))
]
  where
    knows : Knows m (record w { builder = some b })
    knows = record { known = k.known; abi = k.abi }

-- The reply `r`, and what both sides make of it.
abbrev pub Replied : Surroundings → BuildSlave → Bool → Reply → SlaveState → Type 0
Replied u w killed r s =
    (m : SlaveState) × (heard : List Status) × (set_reply r s ≡ ok (m, heard))
    × GoesOn killed m (handle_reply u r w)

module _ (u : Surroundings) (w : BuildSlave) (killed : Bool) (s : SlaveState) (k : Knows s w) where
  sleep-Replied : (b : Bool) → w.builder ≡ none → Replied u w killed (sleep b) s
  unfolding set_reply handle_reply
  sleep-Replied b e = (
    _,
    _,
    refl,
    rw (do_sleep-ok u w k.known)
        (record { known = k.known; abi = k.abi }, (sleep b, refl, refl), e),
  )

  build-Replied : (pkg version : Text) → w.builder ≡ none → Replied u w killed (build pkg version) s
  unfolding set_reply handle_reply is_build
  build-Replied pkg version e = (
    _,
    _,
    refl,
    rw (do_build-ok u w k.known pkg version e) (
      record { known = k.known; abi = k.abi },
      (build pkg version, refl, refl),
      (none, (_, refl, refl)),
    ),
  )

  -- A slave with a build that stops in time is idle again.
  finished-Replied : (r : Option Built) → Has r w → u.stops ≡ true → Replied u w killed finished s
  unfolding set_reply handle_reply
  finished-Replied r (b, e, q) stops = (
    _,
    _,
    refl,
    rw (do_done-ok u w k.known b e stops)
        (record { known = k.known; abi = k.abi }, (finished, refl, refl), refl),
  )

  cont-Replied : (r : Option Built) → Has r w → Told is_build s → Replied u w killed cont s
  unfolding set_reply handle_reply
  cont-Replied r (b, e, q) told = (
    _,
    _,
    refl,
    rw (do_cont-report u w k.known b e) (report-GoesOn u (joined u b) w killed s k told),
  )

  send-Replied :
      (r : Built) (name : Text) (made : BuildState)
      → Has (some r) w
      → r.status ≡ true
      → HasWheel r.files name
      → s.current ≡ some made
      → next_file made ≡ some name
      → Waits (HasWheel r.files) made.files
      → Replied u w killed (send name) s
  unfolding set_reply handle_reply
  send-Replied r name made (b, e, q) good there cur next waits = (
    _,
    _,
    refl,
    rw
        (do_send-wheel u w k.known b name e
          ∙ ap (λ x. send_wheel name x w) q
          ∙ send_wheel-ok name r w good there)
        (
          record { known = k.known; abi = k.abi },
          record {
            result = r;
            has_result = (b, e, q);
            good = good;
            name = name;
            told = refl;
            made = made;
            current = cur;
            next = next;
            waits = waits;
          },
        ),
  )
