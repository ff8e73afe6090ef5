-- ===== src/Driver/Invariant.antt =====
-- The invariant of SlaveDriver, and that no message of a slave ends the task.
use piwheels.Prelude.{
  list_eq, nat_eq, ◌==◌, ◌≡◌, refl, Bool, true, false, Option, none, some, List, Text, text,
  if◌then◌else◌, All,
}
use piwheels.Result.{Result, ok, or_fault, Fault, ◌>>=◌}
use piwheels.Files.{BuildState, next_file}
use piwheels.Slave.{
  Hello, SlaveState, Request, hello, Reply, ack, die, cont, finished, sleep, build, send, Status,
  set_reply, announce,
}
use piwheels.Driver.{Driver, Effect, Answer, answer}

-- A slave that was told to send a file has a build whose next file that is.
abbrev pub ReplyOk : Option Reply → Option BuildState → Type 0
ReplyOk none cur = ⊥
ReplyOk (some (send name)) cur = (b : BuildState) × (cur ≡ some b) × (next_file b ≡ some name)
ReplyOk (some other) cur = Unit

abbrev pub HasAbi : Hello → Type 0
HasAbi h = (h.native_abi == text "none") ≡ false

-- A slave in the table was answered, and can be sent the next file that it was asked for.
pub record SlaveOk (address : Text) (s : SlaveState) : Type 0 where
  pub keyed : s.address ≡ address
  pub abi : HasAbi s.info
  pub replied : ReplyOk s.reply s.current

abbrev pub Inv : Driver → Type 0
Inv d = All (λ e. SlaveOk e.0 e.1) d.slaves

-- The messages that the invariant speaks of: a slave names an ABI, which is not 'none'.
abbrev pub IsValid : Request → Type 0
IsValid (hello h) = HasAbi h
IsValid other = Unit

-- What a slave must have for the reply to leave it well.
abbrev pub Fits : Reply → SlaveState → Type 0
Fits cont s = ReplyOk s.reply s.current
Fits (send name) s = ReplyOk (some (send name)) s.current
Fits other s = Unit

pub set_reply_lem :
    (r : Reply) (s : SlaveState)
    → Fits r s
    → (s' : SlaveState) × (heard : List Status) × (set_reply r s ≡ ok (s', heard))
      × (s'.address ≡ s.address)
      × (s'.info ≡ s.info)
      × ReplyOk s'.reply s'.current
unfolding set_reply announce
set_reply_lem (ack id url) s f = (_, _, refl, refl, refl, tt)
set_reply_lem die s f = (_, _, refl, refl, refl, tt)
set_reply_lem cont s f = (_, _, refl, refl, refl, f)
set_reply_lem finished s f = (_, _, refl, refl, refl, tt)
set_reply_lem (sleep b) s f = (_, _, refl, refl, refl, tt)
set_reply_lem (build pkg version) s f = (_, _, refl, refl, refl, tt)
set_reply_lem (send name) s f = (_, _, refl, refl, refl, f)

-- A handler that answers, leaves the table alone, and leaves the slave fit for the answer.
pub record Safe (d : Driver) (s : SlaveState) (m : Result Answer) : Type 0 where
  pub reply : Reply
  pub driver : Driver
  pub slave : SlaveState
  pub effects : List Effect
  pub answers : m ≡ answer reply driver slave effects
  pub slaves : driver.slaves ≡ d.slaves
  pub address : slave.address ≡ s.address
  pub info : slave.info ≡ s.info
  pub fits : Fits reply slave

pub Safe-same :
    (r : Reply) (d : Driver) (s : SlaveState) (es : List Effect)
    → Fits r s
    → Safe d s (answer r d s es)
Safe-same r d s es f = record {
  reply = r;
  driver = d;
  slave = s;
  effects = es;
  answers = refl;
  slaves = refl;
  address = refl;
  info = refl;
  fits = f;
}

pub Safe-if :
    (d : Driver) (s : SlaveState) (c : Bool) (m n : Result Answer)
    → (c ≡ true → Safe d s m)
    → (c ≡ false → Safe d s n)
    → Safe d s (if c then m else n)
Safe-if d s true m n hm hn = hm refl
Safe-if d s false m n hm hn = hn refl

pub Safe-some :
    {A : Type 0} (d : Driver) (s : SlaveState) (e : Fault) (o : Option A) (f : A → Result Answer)
    (a : A)
    → o ≡ some a
    → Safe d s (f a)
    → Safe d s (or_fault e o >>= f)
Safe-some d s e o f a q h = rw q h
