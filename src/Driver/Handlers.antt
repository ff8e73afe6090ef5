-- ===== src/Driver/Handlers.antt =====
-- Each handler of SlaveDriver answers, and leaves its slave fit for the answer.
use piwheels.Prelude.{
  list_eq, nat_eq, ◌==◌, ℕ, ◌+◌, ◌≡◌, refl, Bool, true, false, not, ◌&&◌, Option, none, some, List,
  [], ◌∷◌, Text, text, arith, Option-cases, inl, inr, is_some,
}
use piwheels.Dict.{Dict, lookup, insert}
use piwheels.Result.{Result, ok}
use piwheels.Files.{
  FileState, BuildState, next_file, transfers_done, logged, verified, build_state,
  files_from_messages,
}
use piwheels.Files.Next.{next_file-transfers_done, next_file-lookup}
use piwheels.Slave.{
  SlaveState, Built, Reply, ack, die, cont, finished, sleep, build, send, built_state,
}
use piwheels.Builds.{Builds, take_build}
use piwheels.Armv6.{build_armv6l_hack}
use piwheels.Driver.{
  Driver, Effect, Env, Answer, do_idle, do_busy, do_built, do_sent, give_build, expect_next,
  finish_build, start_transfers, take_built, take_sent, mark_verified, next_transfer, verify,
  is_build, is_free,
}
use piwheels.Driver.Invariant.{ReplyOk, HasAbi, Safe, Safe-same, Safe-if, Safe-some}

pub give_build-Safe :
    (d : Driver) (s : SlaveState) (o : Option (Text × Text)) (b : Builds)
    → Safe d s (give_build d s (o, b))
unfolding give_build
give_build-Safe d s none b = record {
  reply = sleep false;
  driver = record d { builds = b };
  slave = s;
  effects = [];
  answers = refl;
  slaves = refl;
  address = refl;
  info = refl;
  fits = tt;
}
give_build-Safe d s (some (pkg, version)) b = record {
  reply = build pkg version;
  driver = record d { builds = b };
  slave = s;
  effects = _;
  answers = refl;
  slaves = refl;
  address = refl;
  info = refl;
  fits = tt;
}

pub do_idle-Safe :
    (env : Env) (d : Driver) (s : SlaveState) (last : Reply)
    → s.reply ≡ some last
    → Safe d s (do_idle env d s)
unfolding do_idle
do_idle-Safe env d s last e =
    let b = take_build (env.now + s.build_timeout) s.native_abi d.builds in
    Safe-some d s _ s.reply _ last e (
      Safe-if d s (not (is_free last)) _ _ (λ _. Safe-same die d s [] tt)
        λ _.
          Safe-if d s s.killed _ _ (λ _. Safe-same die d s [] tt)
            λ _.
              Safe-if d s d.paused _ _ (λ _. Safe-same (sleep true) d s [] tt)
                λ _. give_build-Safe d s b.0 b.1)

pub do_busy-Safe :
    (d : Driver) (s : SlaveState) → ReplyOk s.reply s.current → Safe d s (do_busy d s)
unfolding do_busy
do_busy-Safe d s r =
    Safe-if d s s.skipped _ _ (λ _. Safe-same finished d s [] tt) (λ _. Safe-same cont d s [] r)

pub expect_next-Safe :
    (env : Env) (d : Driver) (s : SlaveState) (b : BuildState) (before : List Effect)
    → env.rpc_ok ≡ true
    → s.current ≡ some b
    → is_some (next_file b) ≡ true
    → Safe d s (expect_next env d s b before)
unfolding expect_next
expect_next-Safe env d s b before up cur next = elim (Option-cases (next_file b)) [
  | inl nothing ↦ absurd (ground arith)
  | inr (name, e) ↦
      let (f, at) = next_file-lookup b name e in
      Safe-some d s _ (next_file b) _ name e (
        Safe-some d s _ (lookup name b.files) _ f at (
          Safe-if d s env.rpc_ok _ _ (λ _. Safe-same (send name) d s _ (b, cur, e))
            (λ down. absurd (ground arith))))
]

pub finish_build-Safe :
    (env : Env) (d : Driver) (s : SlaveState) (b : BuildState) (before : List Effect)
    (last : Effect)
    → env.rpc_ok ≡ true
    → Safe d s (finish_build env d s b before last)
unfolding finish_build
finish_build-Safe env d s b before last up =
    Safe-if d s env.rpc_ok _ _
      (λ _. record {
        reply = finished;
        driver = d;
        slave = record s { current = some (logged b env.build_id) };
        effects = _;
        answers = refl;
        slaves = refl;
        address = refl;
        info = refl;
        fits = tt;
      })
      (λ down. absurd (ground arith))

-- A handler that starts by replacing the build of the slave.
pub Safe-current :
    (d : Driver) (s : SlaveState) (o : Option BuildState) (m : Result Answer)
    → Safe d (record s { current = o }) m
    → Safe d s m
Safe-current d s o m v = record {
  reply = v.reply;
  driver = v.driver;
  slave = v.slave;
  effects = v.effects;
  answers = v.answers;
  slaves = v.slaves;
  address = v.address;
  info = v.info;
  fits = v.fits;
}

pub start_transfers-Safe :
    (env : Env) (d : Driver) (s : SlaveState) (b : BuildState)
    → env.rpc_ok ≡ true
    → s.current ≡ some b
    → Safe d s (start_transfers env d s b)
unfolding start_transfers
start_transfers-Safe env d s b up cur =
    Safe-if d s (b.status && not (transfers_done b)) _ _
      (λ more. expect_next-Safe env d s b [] up cur (ground (arith, next_file-transfers_done b)))
      (λ _. finish_build-Safe env d s b [] _ up)

pub do_built-Safe :
    (env : Env) (d : Driver) (s : SlaveState) (last : Reply)
    → env.rpc_ok ≡ true
    → s.reply ≡ some last
    → (is_build last ≡ true → is_some s.current ≡ true)
    → Safe d s (do_built env d s)
unfolding do_built take_built
do_built-Safe env d s last up e has_build = Safe-some d s _ s.reply _ last e (
    Safe-if d s (not (is_build last)) _ _ (λ _. Safe-same die d s [] tt)
      λ was_build.
        Safe-if d s s.skipped _ _ (λ _. Safe-same finished d s [] tt)
          λ _. elim (Option-cases s.current) [
            | inl none' ↦ absurd (ground (arith, has_build (ground arith)))
            | inr (b, cur) ↦ Safe-some d s _ s.current _ b cur (
                Safe-current d s (some (build_armv6l_hack b)) _
                  (start_transfers-Safe env d _ (build_armv6l_hack b) up refl))
          ])

pub next_transfer-Safe :
    (env : Env) (d : Driver) (s : SlaveState) (b : BuildState) (asked : List Effect)
    → env.rpc_ok ≡ true
    → s.current ≡ some b
    → Safe d s (next_transfer env d s b asked)
unfolding next_transfer
next_transfer-Safe env d s b asked up cur =
    Safe-if d s (transfers_done b) _ _ (λ _. finish_build-Safe env d s b asked _ up)
      (λ more. expect_next-Safe env d s b asked up cur (ground (arith, next_file-transfers_done b)))

pub take_sent-Safe :
    (env : Env) (d : Driver) (s : SlaveState) (b : BuildState) (name : Text)
    → env.rpc_ok ≡ true
    → s.current ≡ some b
    → next_file b ≡ some name
    → Safe d s (take_sent env d s)
unfolding take_sent mark_verified
take_sent-Safe env d s b name up cur next =
    let (f, at) = next_file-lookup b name next in
    let b' = record b { files = insert name (verified f) b.files } in
    let asked = verify s.slave_id b.pkg ∷ [] in
    Safe-some d s _ s.current _ b cur (
      Safe-if d s env.verify_ok _ _
        (λ _.
          rw (next, mark_verified)
            (rw (at, mark_verified)
              (Safe-current d s (some b') _
                (next_transfer-Safe env d (record s { current = some b' }) b' asked up refl))))
        (λ _. expect_next-Safe env d s b asked up cur (ground arith)))

pub do_sent-Safe :
    (env : Env) (d : Driver) (s : SlaveState) (last : Reply)
    → env.rpc_ok ≡ true
    → s.reply ≡ some last
    → ReplyOk s.reply s.current
    → Safe d s (do_sent env d s)
unfolding do_sent
do_sent-Safe env d s (send name) up e r =
    let (b, cur, next) : (b : BuildState) × (s.current ≡ some b) × (next_file b ≡ some name) =
      rw e at r in
    Safe-some d s _ s.reply _ (send name) e (take_sent-Safe env d s b name up cur next)
do_sent-Safe env d s (ack id url) up e r =
    Safe-some d s _ s.reply _ (ack id url) e (Safe-same die d s [] tt)
do_sent-Safe env d s other up e r = Safe-some d s _ s.reply _ other e (Safe-same die d s [] tt)

build_state-some :
    (id : ℕ) (pkg version abi : Text) (status : Bool) (duration : ℕ) (output : Text)
    (files : Dict Text FileState)
    → (abi == text "none") ≡ false
    → (b : BuildState) × (build_state id pkg version abi status duration output files ≡ some b)
unfolding build_state
build_state-some id pkg version abi status duration output files h = (
  record {
    slave_id = id;
    pkg = pkg;
    version = version;
    abi_tag = abi;
    status = status;
    duration = duration;
    output = output;
    files = files;
    build_id = none;
  },
  rw h,
)

pub built_state-some :
    (s : SlaveState) (b : Built) (last : Reply)
    → HasAbi s.info
    → (made : Option BuildState) × (built_state s b last ≡ ok made)
      × (is_build last ≡ true → is_some made ≡ true)
unfolding built_state is_build
built_state-some s b (build pkg version) h =
    let (made, e) =
      build_state-some s.slave_id pkg version s.native_abi b.status b.duration b.output
        (files_from_messages b.files []) h in
    (some made, rw (e, built_state), λ _. refl)
built_state-some s b (ack id url) h = (none, refl, λ e. e)
built_state-some s b other h = (none, refl, λ e. cc)
