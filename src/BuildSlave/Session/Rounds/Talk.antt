-- ===== src/BuildSlave/Session/Rounds/Talk.antt =====
-- What one exchange with SlaveDriver leaves a build slave and the master's record of it in.
use piwheels.Prelude.{
  list_eq, nat_eq, ◌==◌, ◌≡◌, refl, Bool, true, none, some, List, [], ◌∷◌, ◌++◌, Text, All,
  Bool-cases, inl, inr, map, beq_refl,
}
use piwheels.Dict.{insert}
use piwheels.Result.{Result, ok, or_fault, no_reply, ◌>>=◌, >>=-ok}
use piwheels.Files.{FileMessage, BuildState, files_from_messages, build_state}
use piwheels.Files.Waiting.{Waits, files_from_messages-Waits}
use piwheels.Slave.{
  Hello, Built, SlaveStats, Request, hello, bye, idle, busy, built, sent, Reply, ack, die, cont,
  finished, sleep, build, send, SlaveState, set_request, note_request, record_stats, set_reply,
  announce, built_state,
}
use piwheels.Driver.{
  Driver, Effect, status, reply_to, Env, Answer, is_build, do_hello, do_idle, do_busy, do_built,
  do_sent, dispatch, deliver, serve,
}
use piwheels.Driver.Invariant.{HasAbi}
use piwheels.BuildSlave.{BuildSlave, Surroundings, find_wheel, handle_reply, do_ack}
use piwheels.BuildSlave.Session.{HasWheel, InStep, GoesOn, Replied}
use piwheels.BuildSlave.Session.Rounds.{
  Yields, do_idle-Yields, do_busy-Yields, do_built-Yields, do_sent-Yields, Yields-answer,
}

-- SlaveDriver sends a reply, the record of the slave is in its table, and the slave goes on.
abbrev pub Exchanged :
    Surroundings → BuildSlave → Bool → Text → Result (Driver × List Effect) → Type 0
Exchanged u w killed address m =
    (r : Reply) × (s : SlaveState) × (d : Driver) × (es : List Effect) × (m
      ≡ ok (record d { slaves = insert address s d.slaves }, es ++ reply_to address r ∷ []))
    × GoesOn killed s (handle_reply u r w)

deliver-Exchanged :
    (u : Surroundings) (w : BuildSlave) (killed : Bool) (address : Text) (told : List Effect)
    (m : Result Answer)
    → Yields (Replied u w killed) m
    → Exchanged u w killed address (m >>= deliver address told)
unfolding deliver
deliver-Exchanged u w killed address told m (r, d, s, es, e, (s', heard, q, on)) = (
  r,
  s',
  d,
  told ++ es ++ map status heard,
  >>=-ok m _ _ _ e (>>=-ok (set_reply r s) _ (s', heard) _ q refl),
  on,
)

all_HasWheel :
    (fs gs : List FileMessage)
    → ((name : Text) → HasWheel gs name → HasWheel fs name)
    → All (λ m. HasWheel fs m.filename) gs
unfolding find_wheel
all_HasWheel fs [] sub = tt
all_HasWheel fs (g ∷ gs) sub = (
  sub g.filename (rw (beq_refl g.filename) refl),
  all_HasWheel fs gs λ name h.
      sub name (elim (Bool-cases (g.filename == name)) [
        | inl same ↦ rw same refl
        | inr other ↦ rw other h
      ]),
)

-- The build that the master makes of a result.
record Makes (s : SlaveState) (r : Built) (last : Reply) : Type 0 where
  pub made : BuildState
  pub makes : built_state s r last ≡ ok (some made)
  pub status : made.status ≡ r.status
  pub waits : Waits (HasWheel r.files) made.files

built_state-Makes :
    (s : SlaveState) (r : Built) (last : Reply)
    → is_build last ≡ true
    → HasAbi s.info
    → Makes s r last
unfolding built_state build_state is_build
built_state-Makes s r (build pkg version) b h = record {
  made = record {
    slave_id = s.slave_id;
    pkg = pkg;
    version = version;
    abi_tag = s.native_abi;
    status = r.status;
    duration = r.duration;
    output = r.output;
    files = files_from_messages r.files [];
    build_id = none;
  };
  makes = rw h refl;
  status = refl;
  waits =
      files_from_messages-Waits (HasWheel r.files) r.files []
        (all_HasWheel r.files r.files λ name there. there) tt;
}
built_state-Makes s r (ack id url) b h = cc
built_state-Makes s r die b h = cc
built_state-Makes s r cont b h = cc
built_state-Makes s r finished b h = cc
built_state-Makes s r (sleep p) b h = cc
built_state-Makes s r (send name) b h = cc

module _ (u : Surroundings) (w : BuildSlave) (env : Env) (address : Text) (d : Driver)
    (s : SlaveState) (up : env.rpc_ok ≡ true) (stops : u.stops ≡ true) where
  hello-Exchanged :
      (h : Hello)
      → InStep s w (hello h)
      → Exchanged u w s.killed address (serve env address (hello h) d s)
  unfolding serve set_request note_request do_hello dispatch set_reply announce handle_reply do_ack
  hello-Exchanged h (fresh, no_build, abi) =
      let s₁ = record s { last_seen = env.now; request = some (hello h) } in
      let d' = record d { slaves = insert s.address s₁ d.slaves } in
      deliver-Exchanged u w s.killed address (map status []) (do_hello d s₁) (
        Yields-answer (Replied u w s.killed) (ack s.slave_id d.pypi_simple) d' s₁ [] (
          _,
          _,
          refl,
          rw fresh (
            record { known = refl; abi = abi },
            (ack s.slave_id d.pypi_simple, refl, refl),
            no_build,
          ),
        ))

  idle-Exchanged :
      (x : SlaveStats)
      → InStep s w (idle x)
      → Exchanged u w s.killed address (serve env address (idle x) d s)
  unfolding serve set_request note_request dispatch
  idle-Exchanged x (k, told, free) =
      let s₁ = record s { last_seen = env.now; request = some (idle x) } in
      let s' = (record_stats s₁ x).0 in
      deliver-Exchanged u w s.killed address (map status (record_stats s₁ x).1) (do_idle env d s')
        (do_idle-Yields u w env d s' (record { known = k.known; abi = k.abi }) up stops told free)

  busy-Exchanged :
      (x : SlaveStats)
      → InStep s w (busy x)
      → Exchanged u w s.killed address (serve env address (busy x) d s)
  unfolding serve set_request note_request dispatch
  busy-Exchanged x (k, told, (r, has)) =
      let s₁ = record s { last_seen = env.now; request = some (busy x) } in
      let s' = (record_stats s₁ x).0 in
      deliver-Exchanged u w s.killed address (map status (record_stats s₁ x).1) (do_busy d s')
        (do_busy-Yields u w env d s' (record { known = k.known; abi = k.abi }) up stops r has told)

  sent-Exchanged : InStep s w sent → Exchanged u w s.killed address (serve env address sent d s)
  unfolding serve set_request note_request dispatch
  sent-Exchanged (k, v) =
      let s' = record s { last_seen = env.now; request = some sent } in
      deliver-Exchanged u w s.killed address (map status []) (do_sent env d s') (
        do_sent-Yields u w env d s' (record { known = k.known; abi = k.abi }) up stops
          (record {
            result = v.result;
            has_result = v.has_result;
            good = v.good;
            name = v.name;
            told = v.told;
            made = v.made;
            current = v.current;
            next = v.next;
            waits = v.waits;
          }))

  built-Exchanged :
      (r : Built)
      → InStep s w (built r)
      → Exchanged u w s.killed address (serve env address (built r) d s)
  unfolding serve set_request note_request dispatch
  built-Exchanged r (k, (last, e, was_build), has) =
      let s₁ = record s { last_seen = env.now; request = some (built r) } in
      let v : Makes s₁ r last = built_state-Makes s₁ r last was_build k.abi in
      let s' = record s₁ { current = some v.made } in
      let noted : note_request s₁ (built r) ≡ ok (s', []) =
        >>=-ok (or_fault no_reply s₁.reply) _ last _ (rw e refl)
          (>>=-ok (built_state s₁ r last) _ (some v.made) _ v.makes refl) in
      rw noted (
        deliver-Exchanged u w s.killed address (map status []) (do_built env d s') (
          do_built-Yields u w env d s' (record { known = k.known; abi = k.abi }) up stops r v.made
            has (last, e, was_build) refl v.status v.waits))

  -- `serve` on what a slave in step has sent.
  pub serve-Exchanged :
      (r : Request) → InStep s w r → Exchanged u w s.killed address (serve env address r d s)
  serve-Exchanged (hello h) step = hello-Exchanged h step
  serve-Exchanged bye step = absurd step
  serve-Exchanged (idle x) step = idle-Exchanged x step
  serve-Exchanged (busy x) step = busy-Exchanged x step
  serve-Exchanged (built r) step = built-Exchanged r step
  serve-Exchanged sent step = sent-Exchanged step
