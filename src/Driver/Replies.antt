-- ===== src/Driver/Replies.antt =====
-- Which replies SlaveDriver gives to which messages.
use piwheels.Prelude.{
  sym, ◌∙◌, [], ◌∷◌, list_eq, nat_eq, ◌≡◌, refl, subst, Bool, true, false, not, ◌&&◌, ◌||◌, Option,
  none, some, List, Text, if◌then◌else◌, arith,
}
use piwheels.Result.{
  Result, ok, err, Fault, or_fault, key_error, no_build, ok-injective, no_reply, >>=-eq-ok, ◌>>=◌,
}
use piwheels.Dict.{lookup}
use piwheels.Files.{BuildState, next_file, transfers_done}
use piwheels.Slave.{
  SlaveState, Request, hello, bye, idle, busy, built, sent, Reply, set_reply, ack, die, cont,
  finished, sleep, build, send,
}
use piwheels.Armv6.{build_armv6l_hack}
use piwheels.Builds.{Builds}
use piwheels.Driver.{
  Driver, Effect, Env, Answer, do_hello, do_bye, do_idle, do_busy, do_built, do_sent, give_build,
  expect_next, finish_build, start_transfers, take_built, take_sent, mark_verified, next_transfer,
  verify, write_both, write_project, dispatch, is_build, is_send, is_free,
}

is_die : Reply → Bool
is_die die = true
is_die other = false

-- Sleep, or build something.
is_order : Reply → Bool
is_order (sleep b) = true
is_order (build pkg version) = true
is_order other = false

-- Send another file, or be done.
is_step : Reply → Bool
is_step (send name) = true
is_step finished = true
is_step other = false

is_word : Reply → Bool
is_word cont = true
is_word finished = true
is_word other = false

-- The protocol: what may follow a message of a slave that was told `last`.
unfoldable pub may_reply : Reply → Request → Option Reply → Bool
unfolding is_die is_order is_step is_word
may_reply last (hello h) (some (ack id url)) = true
may_reply last bye none = true
may_reply last (idle x) (some r) = is_die r || (is_free last && is_order r)
may_reply last (busy x) (some r) = is_word r
may_reply last (built b) (some r) = if is_build last then is_step r else is_die r
may_reply last sent (some r) = if is_send last then is_step r else is_die r
may_reply last r other = false

abbrev pub Says : (Option Reply → Bool) → Result Answer → Type 0
Says p m = (a : Answer) → m ≡ ok a → p a.reply ≡ true

module _ (p : Option Reply → Bool) where
  Says-ok : (b : Answer) → p b.reply ≡ true → Says p (ok b)
  Says-ok b h a e = subst (λ (x : Answer). p x.reply ≡ true) (ok-injective e) h

  Says-err : (f : Fault) → Says p (err f)
  Says-err f a e = cc

  -- A first step whose result is known.
  Says-known :
      {A : Type 0} (m : Result A) (f : A → Result Answer) (x : A)
      → m ≡ ok x
      → Says p (f x)
      → Says p (m >>= f)
  Says-known m f x at h a e =
      let (y, at', e') = >>=-eq-ok m f e in
      h a (subst (λ z. f z ≡ ok a) (ok-injective (sym at' ∙ at)) e')

  Says-if :
      (c : Bool) (m n : Result Answer)
      → (c ≡ true → Says p m)
      → (c ≡ false → Says p n)
      → Says p (if c then m else n)
  Says-if true m n h k = h refl
  Says-if false m n h k = k refl

  Says->>= :
      {A : Type 0} (m : Result A) (f : A → Result Answer)
      → ((x : A) → Says p (f x))
      → Says p (m >>= f)
  Says->>= m f h a e = let (x, at, e') = >>=-eq-ok m f e in h x a e'

  module _ (step : (name : Text) → p (some (send name)) ≡ true) (env : Env) (d : Driver) where
    expect_next-Says :
        (s : SlaveState) (b : BuildState) (es : List Effect) → Says p (expect_next env d s b es)
    unfolding expect_next
    expect_next-Says s b es = Says->>= (or_fault key_error (next_file b)) _ λ name.
        Says->>= (or_fault key_error (lookup name b.files)) _
          λ file. Says-if env.rpc_ok _ _ (λ up. Says-ok _ (step name)) (λ down. Says-err _)

  module _ (over : p (some finished) ≡ true) (env : Env) (d : Driver) where
    finish_build-Says :
        (s : SlaveState) (b : BuildState) (es : List Effect) (e : Effect)
        → Says p (finish_build env d s b es e)
    unfolding finish_build
    finish_build-Says s b es e = Says-if env.rpc_ok _ _ (λ up. Says-ok _ over) (λ down. Says-err _)

  module _ (step : (name : Text) → p (some (send name)) ≡ true) (over : p (some finished) ≡ true)
      (env : Env) (d : Driver) (s : SlaveState) where
    take_built-Says : Says p (take_built env d s)
    unfolding take_built start_transfers
    take_built-Says = Says->>= (or_fault no_build s.current) _ λ b.
        let b' = build_armv6l_hack b in
        let s' = record s { current = some b' } in
        Says-if (b'.status && not (transfers_done b')) (expect_next env d s' b' [])
          (finish_build env d s' b' [] (write_project b'.pkg))
          (λ more. expect_next-Says step env d s' b' [])
          (λ all. finish_build-Says over env d s' b' [] (write_project b'.pkg))

    take_sent-Says : Says p (take_sent env d s)
    unfolding take_sent next_transfer
    take_sent-Says = Says->>= (or_fault no_build s.current) _ λ b.
        let asked = verify s.slave_id b.pkg ∷ [] in
        Says-if env.verify_ok _ (expect_next env d s b asked)
          (λ good. Says->>= (mark_verified b) _ λ b'.
            let s' = record s { current = some b' } in
            Says-if (transfers_done b') (finish_build env d s' b' asked (write_both b'.pkg))
              (expect_next env d s' b' asked)
              (λ all. finish_build-Says over env d s' b' asked (write_both b'.pkg))
              (λ more. expect_next-Says step env d s' b' asked))
          (λ bad. expect_next-Says step env d s b asked)

give_build-Says :
    (x : Option Reply → Bool) (d : Driver) (s : SlaveState) (o : Option (Text × Text)) (b : Builds)
    → (x (some (sleep false)) ≡ true)
    → ((pkg version : Text) → x (some (build pkg version)) ≡ true)
    → Says x (give_build d s (o, b))
unfolding give_build
give_build-Says x d s none b h k = Says-ok x _ h
give_build-Says x d s (some (pkg, version)) b h k = Says-ok x _ (k pkg version)

dispatch-Says :
    (env : Env) (d : Driver) (s : SlaveState) (last : Reply) (r : Request)
    → s.reply ≡ some last
    → Says (may_reply last r) (dispatch env d s r)
unfolding dispatch may_reply
dispatch-Says env d s last (hello h) e = unfold do_hello in Says-ok _ _ refl
dispatch-Says env d s last bye e = unfold do_bye set_reply in Says-ok _ _ refl
dispatch-Says env d s last (busy x) e =
    unfold do_busy in Says-if _ s.skipped _ _ (λ y. Says-ok _ _ refl) (λ n. Says-ok _ _ refl)
dispatch-Says env d s last (idle x) e =
    unfold do_idle in
    Says-known _ (or_fault no_reply s.reply) _ last (rw e refl) (
      Says-if _ (not (is_free last)) _ _ (λ y. Says-ok _ _ refl)
        λ free.
          Says-if _ s.killed _ _ (λ y. Says-ok _ _ refl)
            λ alive.
              Says-if _ d.paused _ _ (λ y. Says-ok _ _ (ground arith))
                λ on. give_build-Says _ d s _ _ (ground arith) (λ pkg version. ground arith))
dispatch-Says env d s last (built b) e =
    unfold do_built in
    Says-known _ (or_fault no_reply s.reply) _ last (rw e refl) (
      Says-if _ (not (is_build last)) _ _ (λ y. Says-ok _ _ (ground arith))
        λ told.
          Says-if _ s.skipped _ _ (λ y. Says-ok _ _ (ground arith))
            λ wanted. take_built-Says _ (λ name. ground arith) (ground arith) env d s)
dispatch-Says env d s last sent e =
    unfold do_sent in
    Says-known _ (or_fault no_reply s.reply) _ last (rw e refl) (
      Says-if _ (is_send last) _ _
        (λ told. take_sent-Says _ (λ name. ground arith) (ground arith) env d s)
        (λ y. Says-ok _ _ (ground arith)))

-- If a message of a slave that was told `last` is handled at all, the reply follows the protocol:
-- ACK to HELLO, nothing to BYE, and CONT or DONE to BUSY; to IDLE, DIE or, after ACK, SLEEP or DONE,
-- SLEEP or BUILD; to BUILT after BUILD, and to SENT after SEND, SEND or DONE, and otherwise DIE.
pub dispatch-may_reply :
    (env : Env) (d : Driver) (s : SlaveState) (last : Reply) (r : Request) (a : Answer)
    → s.reply ≡ some last
    → dispatch env d s r ≡ ok a
    → may_reply last r a.reply ≡ true
dispatch-may_reply env d s last r a e q = dispatch-Says env d s last r e a q
