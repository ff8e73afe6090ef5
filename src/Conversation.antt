-- ===== src/Conversation.antt =====
-- Whole conversations of a build slave (piwheels/slave/__init__.py) with SlaveDriver
-- (piwheels/master/slave_driver.py), message by message.
use piwheels.Prelude.{
  ℕ, list_eq, nat_eq, ◌≡◌, refl, sym, subst, ◌∙◌, Bool, true, Option, none, some, List, [], ◌∷◌,
  ◌++◌, Text, Any, All, if◌then◌else◌, is_some, inl, inr, beq_refl,
}
use piwheels.Dict.{lookup, insert}
use piwheels.Dict.Laws.{lookup-insert}
use piwheels.Result.{
  Result, ok, err, or_fault, no_reply, no_build, key_error, assertion, rpc_error, task_quit,
  index_error, value_error, runtime_error, terminate_timeout, system_exit, ◌>>=◌,
}
use piwheels.Slave.{
  Hello, Request, hello, bye, idle, busy, built, sent, Reply, SlaveState, new_slave,
}
use piwheels.Driver.{
  Driver, Effect, status, queue_stats, expect, verify, log_build, write_log, write_project,
  write_both, deletion_done, reply_to, Env, serve,
}
use piwheels.Driver.Invariant.{HasAbi}
use piwheels.BuildSlave.{BuildSlave, Surroundings, Turn, handle_reply, connected}
use piwheels.BuildSlave.Session.{InStep, GoesOn}
use piwheels.BuildSlave.Session.Rounds.Talk.{serve-Exchanged}

-- One exchange: what holds in the master and around the slave while it takes place. Every other
-- slave, the queues and the marks that the controls set may differ from one exchange to the next.
pub record Moment : Type 0 where
  pub env : Env
  pub driver : Driver
  pub killed : Bool
  pub skipped : Bool
  pub around : Surroundings

-- The reply among the messages that were sent, the last one if there are several.
unfoldable pub last_reply : List Effect → Option Reply
last_reply [] = none
last_reply (reply_to address r ∷ es) = if is_some (last_reply es) then last_reply es else some r
last_reply (other ∷ es) = last_reply es

-- The slave's message is handled, and the slave handles the reply.
unfoldable pub exchange : Moment → Text → SlaveState → Turn → Result (SlaveState × Turn)
unfolding serve last_reply lookup handle_reply
exchange m address s (r, w) = do
  (d, es) ← serve m.env address r m.driver (record s { killed = m.killed; skipped = m.skipped })
  reply ← or_fault no_reply (last_reply es)
  s' ← or_fault key_error (lookup address d.slaves)
  turn ← handle_reply m.around reply w
  ok (s', turn)

unfoldable pub talk : List Moment → Text → SlaveState → Turn → Result (SlaveState × Turn)
unfolding exchange
talk [] address s turn = ok (s, turn)
talk (m ∷ ms) address s turn = do (s', turn') ← exchange m address s turn; talk ms address s' turn'

last_reply-++ :
    (es : List Effect) (address : Text) (r : Reply)
    → last_reply (es ++ reply_to address r ∷ []) ≡ some r
unfolding last_reply
last_reply-++ [] address r = refl
last_reply-++ (reply_to a q ∷ es) address r = rw (last_reply-++ es address r) refl
last_reply-++ (status x ∷ es) address r = last_reply-++ es address r
last_reply-++ (queue_stats x ∷ es) address r = last_reply-++ es address r
last_reply-++ (expect i x ∷ es) address r = last_reply-++ es address r
last_reply-++ (verify i x ∷ es) address r = last_reply-++ es address r
last_reply-++ (log_build x ∷ es) address r = last_reply-++ es address r
last_reply-++ (write_log i x ∷ es) address r = last_reply-++ es address r
last_reply-++ (write_project x ∷ es) address r = last_reply-++ es address r
last_reply-++ (write_both x ∷ es) address r = last_reply-++ es address r
last_reply-++ (deletion_done ∷ es) address r = last_reply-++ es address r

-- The marks that the controls set on a slave do not matter to it.
InStep-marked :
    (s : SlaveState) (w : BuildSlave) (r : Request) (k j : Bool)
    → InStep s w r
    → InStep (record s { killed = k; skipped = j }) w r
InStep-marked s w (hello h) k j step = step
InStep-marked s w bye k j step = step
InStep-marked s w (idle x) k j (v, q, free) = (record { known = v.known; abi = v.abi }, q, free)
InStep-marked s w (busy x) k j (v, q, has) = (record { known = v.known; abi = v.abi }, q, has)
InStep-marked s w (built b) k j (v, q, has) = (record { known = v.known; abi = v.abi }, q, has)
InStep-marked s w sent k j (v, q) = (
  record { known = v.known; abi = v.abi },
  record {
    result = q.result;
    has_result = q.has_result;
    good = q.good;
    name = q.name;
    told = q.told;
    made = q.made;
    current = q.current;
    next = q.next;
    waits = q.waits;
  },
)

-- The other tasks answer in this exchange, and a build that is stopped ends in time.
abbrev pub Works : Moment → Type 0
Works m = (m.env.rpc_ok ≡ true) × (m.around.stops ≡ true)

-- The two sides are in step, or the slave has ended as it was told to.
abbrev pub Ends : List Moment → Result (SlaveState × Turn) → Type 0
Ends ms (ok (s, (r, w))) = InStep s w r
Ends ms (err system_exit) = Any (λ m. m.killed ≡ true) ms
Ends ms (err other) = ⊥

turn-Ends :
    (m : Moment) (s : SlaveState) (t : Result Turn)
    → GoesOn m.killed s t
    → Ends (m ∷ []) (t >>= λ turn. ok (s, turn))
turn-Ends m s (ok (r, w)) on = on
turn-Ends m s (err system_exit) on = inl on
turn-Ends m s (err no_reply) on = on
turn-Ends m s (err no_build) on = on
turn-Ends m s (err key_error) on = on
turn-Ends m s (err assertion) on = on
turn-Ends m s (err rpc_error) on = on
turn-Ends m s (err task_quit) on = on
turn-Ends m s (err index_error) on = on
turn-Ends m s (err value_error) on = on
turn-Ends m s (err runtime_error) on = on
turn-Ends m s (err terminate_timeout) on = on

>>=-step :
    {S T : Type 0} (first : Result S) (rest : S → Result T) (s : S)
    → first ≡ ok s
    → (first >>= rest) ≡ rest s
>>=-step first rest s went = rw went refl

exchange-Ends :
    (m : Moment) (address : Text) (s : SlaveState) (turn : Turn)
    → Works m
    → InStep s turn.1 turn.0
    → Ends (m ∷ []) (exchange m address s turn)
unfolding exchange
exchange-Ends m address s (r, w) (up, stops) step =
    let s₁ = record s { killed = m.killed; skipped = m.skipped } in
    let (reply, s', d, es, e, on) =
      serve-Exchanged m.around w m.env address m.driver s₁ up stops r
        (InStep-marked s w r m.killed m.skipped step) in
    let told : last_reply (es ++ reply_to address reply ∷ []) ≡ some reply =
      last_reply-++ es address reply in
    let kept : lookup address (insert address s' d.slaves) ≡ some s' =
      lookup-insert address address s' d.slaves ∙ rw (beq_refl address) refl in
    let same : exchange m address s (r, w)
        ≡ (handle_reply m.around reply w >>= λ turn. ok (s', turn)) =
      >>=-step (serve m.env address r m.driver s₁) _
        (record d { slaves = insert address s' d.slaves }, es ++ reply_to address reply ∷ []) e
      ∙ >>=-step (or_fault no_reply (last_reply (es ++ reply_to address reply ∷ []))) _ reply
          (rw told refl)
      ∙ >>=-step (or_fault key_error (lookup address (insert address s' d.slaves))) _ s'
          (rw kept refl) in
    subst (Ends (m ∷ [])) (sym same) (turn-Ends m s' (handle_reply m.around reply w) on)

Ends-later :
    (m : Moment) (ms : List Moment) (x : Result (SlaveState × Turn)) → Ends ms x → Ends (m ∷ ms) x
Ends-later m ms (ok (s, (r, w))) on = on
Ends-later m ms (err system_exit) on = inr on
Ends-later m ms (err no_reply) on = on
Ends-later m ms (err no_build) on = on
Ends-later m ms (err key_error) on = on
Ends-later m ms (err assertion) on = on
Ends-later m ms (err rpc_error) on = on
Ends-later m ms (err task_quit) on = on
Ends-later m ms (err index_error) on = on
Ends-later m ms (err value_error) on = on
Ends-later m ms (err runtime_error) on = on
Ends-later m ms (err terminate_timeout) on = on

>>=-Ends :
    (m : Moment) (ms : List Moment) (x : Result (SlaveState × Turn))
    (f : SlaveState → Turn → Result (SlaveState × Turn))
    → Ends (m ∷ []) x
    → ((s : SlaveState) (turn : Turn) → InStep s turn.1 turn.0 → Ends ms (f s turn))
    → Ends (m ∷ ms) (x >>= λ r. f r.0 r.1)
>>=-Ends m ms (ok (s, (r, w))) f on rest = Ends-later m ms (f s (r, w)) (rest s (r, w) on)
>>=-Ends m ms (err system_exit) f (inl on) rest = inl on
>>=-Ends m ms (err system_exit) f (inr on) rest = absurd on
>>=-Ends m ms (err no_reply) f on rest = on
>>=-Ends m ms (err no_build) f on rest = on
>>=-Ends m ms (err key_error) f on rest = on
>>=-Ends m ms (err assertion) f on rest = on
>>=-Ends m ms (err rpc_error) f on rest = on
>>=-Ends m ms (err task_quit) f on rest = on
>>=-Ends m ms (err index_error) f on rest = on
>>=-Ends m ms (err value_error) f on rest = on
>>=-Ends m ms (err runtime_error) f on rest = on
>>=-Ends m ms (err terminate_timeout) f on rest = on

talk-Ends :
    (ms : List Moment) (address : Text) (s : SlaveState) (turn : Turn)
    → All Works ms
    → InStep s turn.1 turn.0
    → Ends ms (talk ms address s turn)
unfolding talk
talk-Ends [] address s turn works step = step
talk-Ends (m ∷ ms) address s turn (up, works) step =
    >>=-Ends m ms (exchange m address s turn) (talk ms address)
      (exchange-Ends m address s turn (up) step)
      λ s' turn' step'. talk-Ends ms address s' turn' works step'

-- A build slave that has just connected, and whose ABI is not 'none', keeps in step with the master:
-- whatever the other slaves, the queues and the operators do between its messages, no assertion fails
-- on either side, the master finds every file it asks for among the slave's wheels, and the slave ends
-- only when it was marked to be killed. The other tasks are assumed to answer, and a build that is
-- stopped to end in time.
pub talk-connected-Ends :
    (ms : List Moment) (now : ℕ) (address : Text) (id : ℕ) (h : Hello)
    → HasAbi h
    → All Works ms
    → Ends ms (talk ms address (new_slave now address id h) (hello h, connected))
unfolding new_slave connected
talk-connected-Ends ms now address id h abi works =
    talk-Ends ms address (new_slave now address id h) (hello h, connected) works (refl, refl, abi)
