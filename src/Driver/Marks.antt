-- ===== src/Driver/Marks.antt =====
-- The marks that the control messages set on the slaves of SlaveDriver's table.
use piwheels.Prelude.{
  list_eq, nat_eq, ℕ, ◌≡◌, refl, true, false, Option, none, some, [], ◌∷◌, Text, Bool, ◌==◌,
  if◌then◌else◌,
}
use piwheels.Dict.{Dict}
use piwheels.Slave.{SlaveState, kill, skip, pause, wake}
use piwheels.Driver.Control.{
  Control, kill_slave, sleep_slave, skip_slave, wake_slave, is_meant, on_slaves,
}

-- Two tables with the same addresses in the same order, whose slaves are related.
abbrev pub Each :
    (SlaveState → SlaveState → Type 0) → Dict Text SlaveState → Dict Text SlaveState → Type 0
Each R [] [] = Unit
Each R ((a, s) ∷ d) ((a', s') ∷ d') = (a' ≡ a) × R s s' × Each R d d'
Each R d d' = ⊥

pub Each-refl :
    (R : SlaveState → SlaveState → Type 0)
    → ((s : SlaveState) → R s s)
    → (d : Dict Text SlaveState) → Each R d d
Each-refl R h [] = tt
Each-refl R h ((a, s) ∷ d) = (refl, h s, Each-refl R h d)

pub Each-on_slaves :
    (R : SlaveState → SlaveState → Type 0) (f : SlaveState → SlaveState) (id : Option ℕ)
    (slaves : Dict Text SlaveState)
    → ((s : SlaveState) → R s (if is_meant id s then f s else s))
    → Each R slaves (on_slaves f id slaves)
unfolding on_slaves
Each-on_slaves R f id [] h = tt
Each-on_slaves R f id ((a, s) ∷ slaves) h = (refl, h s, Each-on_slaves R f id slaves h)

-- The slave has the id, or no id is given.
abbrev pub is_addressed : Option ℕ → SlaveState → Bool
is_addressed none s = true
is_addressed (some id) s = s.slave_id == id

abbrev pub kills : Control → SlaveState → Bool
kills (kill_slave id) s = is_addressed id s
kills c s = false

abbrev pub skips : Control → SlaveState → Bool
skips (skip_slave id) s = is_addressed id s
skips c s = false

abbrev pub sleeps : Control → SlaveState → Bool
sleeps (sleep_slave id) s = is_addressed id s
sleeps c s = false

abbrev pub wakes : Control → SlaveState → Bool
wakes (wake_slave id) s = is_addressed id s
wakes c s = false

-- The three marks of a slave after a control message; all else of it is as before.
abbrev pub Marked : Control → SlaveState → SlaveState → Type 0
Marked c s s' = s' ≡ record s {
  killed = if kills c s then true else if wakes c s then false else s.killed;
  skipped = if skips c s then true else if wakes c s then false else s.skipped;
  paused = if sleeps c s then true else if wakes c s then false else s.paused;
}

kill-if :
    (b : Bool) (s : SlaveState)
    → (if b then kill s else s) ≡ record s { killed = if b then true else s.killed }
unfolding kill
kill-if true s = refl
kill-if false s = refl

pub kill-Marked :
    (id : Option ℕ) (s : SlaveState)
    → Marked (kill_slave id) s (if is_meant id s then kill s else s)
kill-Marked none s = kill-if true s
kill-Marked (some id) s = kill-if (s.slave_id == id) s

skip-if :
    (b : Bool) (s : SlaveState)
    → (if b then skip s else s) ≡ record s { skipped = if b then true else s.skipped }
unfolding skip
skip-if true s = refl
skip-if false s = refl

pub skip-Marked :
    (id : Option ℕ) (s : SlaveState)
    → Marked (skip_slave id) s (if is_meant id s then skip s else s)
skip-Marked none s = skip-if true s
skip-Marked (some id) s = skip-if (s.slave_id == id) s

pause-if :
    (b : Bool) (s : SlaveState)
    → (if b then pause s else s) ≡ record s { paused = if b then true else s.paused }
unfolding pause
pause-if true s = refl
pause-if false s = refl

pub pause-Marked :
    (id : Option ℕ) (s : SlaveState)
    → Marked (sleep_slave id) s (if is_meant id s then pause s else s)
pause-Marked none s = pause-if true s
pause-Marked (some id) s = pause-if (s.slave_id == id) s

wake-if :
    (b : Bool) (s : SlaveState)
    → (if b then wake s else s) ≡ record s {
      killed = if b then false else s.killed;
      skipped = if b then false else s.skipped;
      paused = if b then false else s.paused;
    }
unfolding wake
wake-if true s = refl
wake-if false s = refl

pub wake-Marked :
    (id : Option ℕ) (s : SlaveState)
    → Marked (wake_slave id) s (if is_meant id s then wake s else s)
wake-Marked none s = wake-if true s
wake-Marked (some id) s = wake-if (s.slave_id == id) s
