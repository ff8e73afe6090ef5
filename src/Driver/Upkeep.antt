-- ===== src/Driver/Upkeep.antt =====
-- What the control messages do to SlaveDriver's table of slaves.
use piwheels.Prelude.{
  list_eq, nat_eq, ℕ, ◌≡◌, refl, true, false, Option, List, [], ◌∷◌, ◌++◌, map, Text, All, Bool,
  Bool-cases, inl, inr,
}
use piwheels.Dict.{Dict}
use piwheels.Result.{Result, ok, >>=-ok, or_fault, no_reply}
use piwheels.Slave.{SlaveState, Status, kill, skip, pause, wake, announce}
use piwheels.Driver.{Driver, Effect, status}
use piwheels.Driver.Control.{
  Control, quit_task, pause_task, resume_task, list_slaves, kill_slave, sleep_slave, skip_slave,
  wake_slave, is_meant, on_slaves, announce_all, handle_control,
}
use piwheels.Driver.Invariant.{SlaveOk, Inv}
use piwheels.Driver.Total.{told_something}
use piwheels.Driver.Marks.{
  Each, Each-refl, Each-on_slaves, Marked, kill-Marked, skip-Marked, pause-Marked, wake-Marked,
}

abbrev pub AllOk : Dict Text SlaveState → Type 0
AllOk = All (λ e. SlaveOk e.0 e.1)

abbrev pub KeepsOk : (SlaveState → SlaveState) → Type 0
KeepsOk f = (address : Text) (s : SlaveState) → SlaveOk address s → SlaveOk address (f s)

kill-KeepsOk : KeepsOk kill
unfolding kill
kill-KeepsOk address s v = record { keyed = v.keyed; abi = v.abi; replied = v.replied }

pause-KeepsOk : KeepsOk pause
unfolding pause
pause-KeepsOk address s v = record { keyed = v.keyed; abi = v.abi; replied = v.replied }

pub skip-KeepsOk : KeepsOk skip
unfolding skip
skip-KeepsOk address s v = record { keyed = v.keyed; abi = v.abi; replied = v.replied }

wake-KeepsOk : KeepsOk wake
unfolding wake
wake-KeepsOk address s v = record { keyed = v.keyed; abi = v.abi; replied = v.replied }

on_slaves-AllOk :
    (f : SlaveState → SlaveState) (id : Option ℕ) (slaves : Dict Text SlaveState)
    → KeepsOk f
    → AllOk slaves
    → AllOk (on_slaves f id slaves)
unfolding on_slaves
on_slaves-AllOk f id [] k h = tt
on_slaves-AllOk f id ((address, s) ∷ slaves) k h = elim (Bool-cases (is_meant id s)) [
  | inl meant ↦ rw meant (k address s h.0, on_slaves-AllOk f id slaves k h.1)
  | inr spared ↦ rw spared (h.0, on_slaves-AllOk f id slaves k h.1)
]

announce-told :
    (address : Text) (s : SlaveState)
    → SlaveOk address s
    → (told : List Status) × (announce s ≡ ok told)
unfolding announce
announce-told address s v =
    let (last, e) = told_something address s v in
    (_, >>=-ok (or_fault no_reply s.reply) _ last _ (rw e refl) refl)

announce_all-told :
    (slaves : Dict Text SlaveState)
    → AllOk slaves
    → (told : List Effect) × (announce_all slaves ≡ ok told)
unfolding announce_all
announce_all-told [] h = (_, refl)
announce_all-told ((address, s) ∷ slaves) h =
    let (told, e) = announce-told address s h.0 in
    let (rest, e') = announce_all-told slaves h.1 in (map status told ++ rest, rw (e, e') refl)

-- Whether SlaveDriver is paused after a control message.
abbrev pub paused_by : Control → Bool → Bool
paused_by pause_task was = true
paused_by resume_task was = false
paused_by c was = was

-- What the monitors are told after LIST is what each slave announces, and after the others nothing.
abbrev pub Told : Control → Dict Text SlaveState → List Effect → Type 0
Told list_slaves slaves told = announce_all slaves ≡ ok told
Told c slaves told = told ≡ []

-- All control messages but QUIT.
abbrev pub IsHandled : Control → Type 0
IsHandled quit_task = ⊥
IsHandled other = Unit

-- What a control message leaves.
pub record Controlled (c : Control) (d d' : Driver) (effects : List Effect) : Type 0 where
  pub inv : Inv d'
  pub slaves : Each (Marked c) d.slaves d'.slaves
  pub rest : d' ≡ record d { slaves = d'.slaves; paused = paused_by c d.paused }
  pub told : Told c d.slaves effects

abbrev pub Controls : Control → Driver → Result (Driver × List Effect) → Type 0
Controls c d m = (d' : Driver) × (told : List Effect) × (m ≡ ok (d', told)) × Controlled c d d' told

-- If the invariant Driver.Invariant.Inv holds of the table of slaves, then every control message but
-- QUIT is handled without an exception, and this is kept. KILL, SKIP and SLEEP set the mark `killed`,
-- `skipped` or `paused` of exactly the slaves with the given id, or of all if none is given, and WAKE clears
-- all three of them; every other mark, all else of the slaves and their places in the table stay. PAUSE and
-- RESUME set and clear SlaveDriver's own `paused`, and LIST alone sends something, which is what each slave
-- announces.
pub handle_control-Controls :
    (c : Control) (d : Driver) → IsHandled c → Inv d → Controls c d (handle_control c d)
unfolding handle_control
handle_control-Controls quit_task d h inv = absurd h
handle_control-Controls pause_task d h inv = (
  _,
  _,
  refl,
  record {
    inv = inv;
    slaves = Each-refl (Marked pause_task) (λ s. refl) d.slaves;
    rest = refl;
    told = refl;
  },
)
handle_control-Controls resume_task d h inv = (
  _,
  _,
  refl,
  record {
    inv = inv;
    slaves = Each-refl (Marked resume_task) (λ s. refl) d.slaves;
    rest = refl;
    told = refl;
  },
)
handle_control-Controls list_slaves d h inv =
    let (told, e) = announce_all-told d.slaves inv in
    rw e (
      d,
      told,
      refl,
      record {
        inv = inv;
        slaves = Each-refl (Marked list_slaves) (λ s. refl) d.slaves;
        rest = refl;
        told = e;
      },
    )
handle_control-Controls (kill_slave id) d h inv = (
  _,
  _,
  refl,
  record {
    inv = on_slaves-AllOk kill id d.slaves kill-KeepsOk inv;
    slaves = Each-on_slaves (Marked (kill_slave id)) kill id d.slaves (kill-Marked id);
    rest = refl;
    told = refl;
  },
)
handle_control-Controls (sleep_slave id) d h inv = (
  _,
  _,
  refl,
  record {
    inv = on_slaves-AllOk pause id d.slaves pause-KeepsOk inv;
    slaves = Each-on_slaves (Marked (sleep_slave id)) pause id d.slaves (pause-Marked id);
    rest = refl;
    told = refl;
  },
)
handle_control-Controls (skip_slave id) d h inv = (
  _,
  _,
  refl,
  record {
    inv = on_slaves-AllOk skip id d.slaves skip-KeepsOk inv;
    slaves = Each-on_slaves (Marked (skip_slave id)) skip id d.slaves (skip-Marked id);
    rest = refl;
    told = refl;
  },
)
handle_control-Controls (wake_slave id) d h inv = (
  _,
  _,
  refl,
  record {
    inv = on_slaves-AllOk wake id d.slaves wake-KeepsOk inv;
    slaves = Each-on_slaves (Marked (wake_slave id)) wake id d.slaves (wake-Marked id);
    rest = refl;
    told = refl;
  },
)
