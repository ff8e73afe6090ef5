-- ===== src/Driver/Expiry.antt =====
-- What SlaveDriver's timer does to its table of slaves.
use piwheels.Prelude.{
  list_eq, nat_eq, ℕ, ◌≡◌, refl, ap, Bool, ltb, ◌-◌, ◌∙◌, true, false, not, some, List, [], ◌∷◌,
  ◌++◌, map, Text, Bool-cases, inl, inr,
}
use piwheels.Dict.{Dict, values, filter_items}
use piwheels.Result.{ok, >>=-ok, or_fault, no_reply}
use piwheels.Slave.{SlaveState, Reply, die, Status, news_reply, status_of, expired, set_reply}
use piwheels.Driver.{Driver, Effect, status}
use piwheels.Driver.Control.{expire, remove_expired}
use piwheels.Driver.Invariant.{Inv}
use piwheels.Driver.Total.{told_something}
use piwheels.Driver.Upkeep.{AllOk}

-- The slave was last heard of longer ago than its timeout allows.
abbrev pub is_silent : ℕ → SlaveState → Bool
is_silent now s = ltb s.busy_timeout (now - s.last_seen)

-- The slaves that are silent for too long, and the others.
abbrev pub late : ℕ → Dict Text SlaveState → Dict Text SlaveState
late now = filter_items (λ address s. is_silent now s)

abbrev pub alive : ℕ → Dict Text SlaveState → Dict Text SlaveState
alive now = filter_items (λ address s. not (is_silent now s))

-- The monitors are told that the slave was sent DIE, as of the time when it was last seen.
abbrev pub farewell : SlaveState → Effect
farewell s = status (record { slave_id = s.slave_id; at = s.last_seen; news = news_reply die })

set_reply-die :
    (s : SlaveState)
    → (s' : SlaveState) × (heard : List Status) × (set_reply die s ≡ ok (s', heard))
      × (map status heard ≡ farewell s ∷ [])
unfolding set_reply status_of
set_reply-die s = (_, _, refl, refl)

expire-late :
    (now : ℕ) (address : Text) (s s' : SlaveState) (slaves kept : Dict Text SlaveState)
    (told : List Effect) (heard : List Status) (last : Reply)
    → expire now slaves ≡ ok (kept, told)
    → expired now s ≡ true
    → s.reply ≡ some last
    → set_reply die s ≡ ok (s', heard)
    → expire now ((address, s) ∷ slaves) ≡ ok (kept, map status heard ++ told)
unfolding expire
expire-late now address s s' slaves kept told heard last e late said e' =
    >>=-ok (expire now slaves) _ (kept, told) _ e
      (rw late (
        >>=-ok (or_fault no_reply s.reply) _ last _ (rw said refl) (
          >>=-ok (set_reply die s) (λ x. ok (kept, map status x.1 ++ told)) (s', heard) _ e' refl)))

expire-soon :
    (now : ℕ) (address : Text) (s : SlaveState) (slaves kept : Dict Text SlaveState)
    (told : List Effect)
    → expire now slaves ≡ ok (kept, told)
    → expired now s ≡ false
    → expire now ((address, s) ∷ slaves) ≡ ok ((address, s) ∷ kept, told)
unfolding expire
expire-soon now address s slaves kept told e stays = rw (e, stays) refl

expire_lem :
    (now : ℕ) (slaves : Dict Text SlaveState)
    → AllOk slaves
    → (expire now slaves ≡ ok (alive now slaves, map farewell (values (late now slaves))))
      × AllOk (alive now slaves)
unfolding filter_items expired
expire_lem now [] h = (unfold expire in refl, tt)
expire_lem now ((address, s) ∷ slaves) h =
    let (e, fine) = expire_lem now slaves h.1 in
    let (last, said) = told_something address s h.0 in
    let (s', heard, e', told) = set_reply-die s in
    let before = map farewell (values (late now slaves)) in
    elim (Bool-cases (is_silent now s)) [
      | inl gone ↦
          rw (gone, filter_items)
            (
              expire-late now address s s' slaves (alive now slaves) before heard last e gone said
                    e'
                  ∙ ap (λ xs. ok (alive now slaves, xs ++ before)) told,
              fine,
            )
      | inr stays ↦
          rw (stays, filter_items)
            (expire-soon now address s slaves (alive now slaves) before e stays, (h.0, fine))
    ]

-- If the invariant Driver.Invariant.Inv holds of the table of slaves, then the timer does not fail,
-- and this is kept. Exactly the slaves that were silent for longer than their `busy_timeout` are removed, the
-- others stay as they are and in their order, and of each that is removed the monitors are told, in
-- the order of the table, that it was sent DIE. Nothing else of the driver changes.
pub remove_expired_lem :
    (now : ℕ) (d : Driver)
    → Inv d
    → (remove_expired now d
        ≡ ok (record d { slaves = alive now d.slaves }, map farewell (values (late now d.slaves))))
      × Inv (record d { slaves = alive now d.slaves })
unfolding remove_expired
remove_expired_lem now d inv = let (e, fine) = expire_lem now d.slaves inv in (rw e refl, fine)
