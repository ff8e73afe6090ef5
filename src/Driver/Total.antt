-- ===== src/Driver/Total.antt =====
-- No message of a slave ends the task, and each keeps its invariant.
use piwheels.Slave.{
  SlaveStats, record_stats, note_request, Hello, SlaveState, Built, Request, hello, bye, idle, busy,
  built, sent, Reply, ack, new_slave, set_request, set_reply, announce,
}
use piwheels.Dict.Laws.{insert-insert, All-insert, All-remove, All-lookup}
use piwheels.Prelude.{
  list_eq, nat_eq, ◌+◌, ◌≡◌, refl, ◌∙◌, sym, subst, true, some, List, [], ◌∷◌, ◌++◌, map, Text, All,
  Option-cases, inl, inr,
}
use piwheels.Dict.{lookup, insert}
use piwheels.Result.{Result, ok, ◌>>=◌}
use piwheels.Driver.{
  Driver, Effect, status, reply_to, Env, Answer, do_hello, do_bye, do_idle, do_busy, dispatch,
  deliver, serve, first_message, handle_slave,
}
use piwheels.Driver.Invariant.{HasAbi, SlaveOk, Inv, IsValid, Safe, set_reply_lem}
use piwheels.Driver.Handlers.{
  do_idle-Safe, do_busy-Safe, do_built-Safe, do_sent-Safe, built_state-some,
}

-- The handling goes through, and the invariant holds after it.
abbrev pub Goes : Result (Driver × List Effect) → Type 0
Goes m = (r : Driver × List Effect) × (m ≡ ok r) × Inv r.0

abbrev Belongs : Text → SlaveState → Type 0
Belongs address s = (s.address ≡ address) × HasAbi s.info

deliver-Goes :
    (address : Text) (told : List Effect) (d : Driver) (s : SlaveState) (m : Result Answer)
    → Inv d
    → Belongs address s
    → Safe d s m
    → Goes (m >>= deliver address told)
unfolding deliver
deliver-Goes address told d s m inv mine v =
    let (s', heard, e, same, known, fine) = set_reply_lem v.reply v.slave v.fits in
    let ok' : SlaveOk address s' = record {
      keyed = same ∙ v.address ∙ mine.0;
      abi = subst HasAbi (sym (known ∙ v.info)) mine.1;
      replied = fine;
    } in
    rw v.answers (
      rw (e, deliver)
        (
          (
            record v.driver { slaves = insert address s' v.driver.slaves },
            told ++ v.effects ++ map status heard ++ reply_to address v.reply ∷ [],
          ),
          refl,
          All-insert (λ e. SlaveOk e.0 e.1) address s' v.driver.slaves ok' (rw v.slaves inv),
        ))

hello-Goes :
    (env : Env) (address : Text) (h : Hello) (d : Driver) (s : SlaveState)
    → Inv d
    → Belongs address s
    → Goes (serve env address (hello h) d s)
unfolding serve set_request note_request do_hello dispatch deliver set_reply announce
hello-Goes env address h d s inv mine =
    let s₁ = record s { last_seen = env.now; request = some (hello h) } in
    let s₂ = record s₁ { reply = some (ack s.slave_id d.pypi_simple) } in
    let fine : SlaveOk address s₂ = record { keyed = mine.0; abi = mine.1; replied = tt } in
    let table : All (λ e. SlaveOk e.0 e.1) (insert address s₂ (insert address s₁ d.slaves)) =
      rw (insert-insert address s₂ s₁ d.slaves)
        (All-insert (λ e. SlaveOk e.0 e.1) address s₂ d.slaves fine inv) in
    (
      _,
      refl,
      subst (λ a. All (λ e. SlaveOk e.0 e.1) (insert address s₂ (insert a s₁ d.slaves)))
          (sym mine.0) table,
    )

bye-Goes :
    (env : Env) (address : Text) (d : Driver) (s : SlaveState)
    → Inv d
    → Goes (serve env address bye d s)
unfolding serve set_request note_request do_bye dispatch deliver set_reply
bye-Goes env address d s inv = (_, refl, All-remove (λ e. SlaveOk e.0 e.1) s.address d.slaves inv)

-- A slave in the table was told something.
pub told_something :
    (address : Text) (s : SlaveState) → SlaveOk address s → (last : Reply) × (s.reply ≡ some last)
told_something address s v = elim (Option-cases s.reply) [
  | inl never ↦ absurd (rw never at v.replied)
  | inr last ↦ last
]

module _ (env : Env) (address : Text) (d : Driver) (s : SlaveState) (up : env.rpc_ok ≡ true)
    (inv : Inv d) (v : SlaveOk address s) where
  idle-Goes : (x : SlaveStats) → Goes (serve env address (idle x) d s)
  unfolding serve set_request note_request dispatch
  idle-Goes x =
      let (last, e) = told_something address s v in
      let s₁ = record s { last_seen = env.now; request = some (idle x) } in
      deliver-Goes address (map status (record_stats s₁ x).1) d (record_stats s₁ x).0
        (do_idle env d (record_stats s₁ x).0) inv (v.keyed, v.abi)
        (do_idle-Safe env d (record_stats s₁ x).0 last e)

  busy-Goes : (x : SlaveStats) → Goes (serve env address (busy x) d s)
  unfolding serve set_request note_request dispatch
  busy-Goes x =
      let s₁ = record s { last_seen = env.now; request = some (busy x) } in
      deliver-Goes address (map status (record_stats s₁ x).1) d (record_stats s₁ x).0
        (do_busy d (record_stats s₁ x).0) inv (v.keyed, v.abi)
        (do_busy-Safe d (record_stats s₁ x).0 v.replied)

  sent-Goes : Goes (serve env address sent d s)
  unfolding serve set_request note_request dispatch
  sent-Goes =
      let (last, e) = told_something address s v in
      deliver-Goes address (map status []) d _ _ inv (v.keyed, v.abi)
        (do_sent-Safe env d _ last up e v.replied)

  built-Goes : (b : Built) → Goes (serve env address (built b) d s)
  unfolding serve set_request note_request dispatch
  built-Goes b =
      let (last, e) = told_something address s v in
      let s₁ = record s { last_seen = env.now; request = some (built b) } in
      let (made, em, has_build) = built_state-some s₁ b last v.abi in
      let noted : note_request s₁ (built b) ≡ ok (record s₁ { current = made }, []) =
        simp (e, em) in
      rw noted (
        deliver-Goes address (map status []) d (record s₁ { current = made }) _ inv (v.keyed, v.abi)
          (do_built-Safe env d (record s₁ { current = made }) last up e has_build))

  serve-Goes : (r : Request) → Goes (serve env address r d s)
  serve-Goes (hello h) = hello-Goes env address h d s inv (v.keyed, v.abi)
  serve-Goes bye = bye-Goes env address d s inv
  serve-Goes (idle x) = idle-Goes x
  serve-Goes (busy x) = busy-Goes x
  serve-Goes (built b) = built-Goes b
  serve-Goes sent = sent-Goes

first_message-Goes :
    (env : Env) (address : Text) (r : Request) (d : Driver)
    → IsValid r
    → Inv d
    → Goes (first_message env address r d)
unfolding first_message new_slave
first_message-Goes env address (hello h) d valid inv =
    hello-Goes env address h (record d { counter = d.counter + 1 })
      (new_slave env.now address (d.counter + 1) h) inv (refl, valid)
first_message-Goes env address bye d valid inv = ((d, []), refl, inv)
first_message-Goes env address (idle x) d valid inv = ((d, []), refl, inv)
first_message-Goes env address (busy x) d valid inv = ((d, []), refl, inv)
first_message-Goes env address (built b) d valid inv = ((d, []), refl, inv)
first_message-Goes env address sent d valid inv = ((d, []), refl, inv)

-- Whatever a slave sends, the task handles it, if the other tasks answer: no exception is left to
-- end the task, and every slave in the table stays one that was answered, is kept under its own
-- address, and can be sent the next file that it was asked for. A slave that is new must name an
-- ABI other than 'none'.
pub handle_slave-Goes :
    (env : Env) (address : Text) (r : Request) (d : Driver)
    → env.rpc_ok ≡ true
    → IsValid r
    → Inv d
    → Goes (handle_slave env address r d)
unfolding handle_slave
handle_slave-Goes env address r d up valid inv = elim (Option-cases (lookup address d.slaves)) [
  | inl new ↦ rw (new, handle_slave) (first_message-Goes env address r d valid inv)
  | inr (s, known) ↦
      rw (known, handle_slave)
        (serve-Goes env address d s up inv
          (All-lookup (λ e. SlaveOk e.0 e.1) address s d.slaves inv known) r)
]
