-- ===== src/Slave.antt =====
-- SlaveState of piwheels/states.py: what the master knows of a build slave, and the messages of
-- the slave protocol (piwheels/protocols.py). Times and durations count seconds; the handler of a
-- message reads the clock as `now`.
use piwheels.Prelude.{
  ℕ, ◌-◌, list_eq, nat_eq, Bool, true, false, Option, none, some, List, [], ◌∷◌, ◌++◌, Text, ltb,
  leb, if◌then◌else◌, length, drop,
}
use piwheels.Result.{Result, ok, or_fault, no_reply, assertion, ◌>>=◌}
use piwheels.Files.{FileMessage, BuildState, files_from_messages, build_state}

-- A time difference; `negsuc n` is -(n + 1).
pub data ℤ : Type 0 where
  pos : ℕ → ℤ
  negsuc : ℕ → ℤ

abbrev pub sub_ℕ : ℕ → ℕ → ℤ
sub_ℕ a b = if leb b a then pos (a - b) else negsuc (b - a - 1)

-- What a slave says of itself in its first message.
pub record Hello : Type 0 where
  pub build_timeout : ℕ
  pub busy_timeout : ℕ
  pub native_py_version : Text
  pub native_abi : Text
  pub native_platform : Text
  pub label : Text
  pub os_name : Text
  pub os_version : Text
  pub board_revision : Text
  pub board_serial : Text

-- The load and the temperature, which are floats, count thousandths.
pub record SlaveStats : Type 0 where
  pub timestamp : ℕ
  pub disk_size : ℕ
  pub disk_free : ℕ
  pub mem_size : ℕ
  pub mem_free : ℕ
  pub swap_size : ℕ
  pub swap_free : ℕ
  pub load_average : ℕ
  pub cpu_temp : ℕ

pub record Built : Type 0 where
  pub status : Bool
  pub duration : ℕ
  pub output : Text
  pub files : List FileMessage

-- The messages from a slave, with the data that their schemas admit.
pub data Request : Type 0 where
  hello : Hello → Request
  bye sent : Request
  idle busy : SlaveStats → Request
  built : Built → Request

-- The messages to a slave.
pub data Reply : Type 0 where
  ack : ℕ → Text → Reply
  die cont finished : Reply
  sleep : Bool → Reply
  build : Text → Text → Reply
  send : Text → Reply

-- A message on the status queue: the slave's id, a time, and what is told.
pub data News : Type 0 where
  news_hello : Hello → News
  news_stats : SlaveStats → News
  news_reply : Reply → News

pub record Status : Type 0 where
  pub slave_id : ℕ
  pub at : ℕ
  pub news : News

pub record SlaveState : Type 0 where
  pub address : Text
  pub slave_id : ℕ
  pub info : Hello
  pub open info use *
  pub first_seen : ℕ
  pub last_seen : ℕ
  pub request : Option Request
  pub reply : Option Reply
  pub current : Option BuildState
  pub stats : List SlaveStats
  pub clock_skew : Option ℤ
  pub killed : Bool
  pub skipped : Bool
  pub paused : Bool

unfoldable pub new_slave : ℕ → Text → ℕ → Hello → SlaveState
new_slave now address id h = record {
  address = address;
  slave_id = id;
  info = h;
  first_seen = now;
  last_seen = now;
  request = none;
  reply = none;
  current = none;
  stats = [];
  clock_skew = none;
  killed = false;
  skipped = false;
  paused = false;
}

-- SlaveState.kill, skip, sleep and wake
unfoldable pub kill : SlaveState → SlaveState
kill s = record s { killed = true }

unfoldable pub skip : SlaveState → SlaveState
skip s = record s { skipped = true }

unfoldable pub pause : SlaveState → SlaveState
pause s = record s { paused = true }

unfoldable pub wake : SlaveState → SlaveState
wake s = record s { killed = false; skipped = false; paused = false }

-- (now - last_seen) > busy_timeout
unfoldable pub expired : ℕ → SlaveState → Bool
expired now s = ltb s.busy_timeout (now - s.last_seen)

unfoldable pub status_of : SlaveState → News → Status
status_of s n = record { slave_id = s.slave_id; at = s.last_seen; news = n }

replay_stats : SlaveState → List SlaveStats → List Status
unfolding status_of
replay_stats s [] = []
replay_stats s (x ∷ xs) = status_of s (news_stats x) ∷ replay_stats s xs

-- SlaveState.hello: the messages for a monitor that has just connected. `msg, data = self._reply`
-- fails before a first reply.
unfoldable pub announce : SlaveState → Result (List Status)
unfolding replay_stats status_of
announce s = do
  last ← or_fault no_reply s.reply
  ok (
      (record { slave_id = s.slave_id; at = s.first_seen; news = news_hello s.info }
        ∷ replay_stats s s.stats)
      ++ status_of s (news_reply last) ∷ [])

abbrev max_stats : ℕ
max_stats = 100

-- deque(maxlen=100).append
push_stats : List SlaveStats → SlaveStats → List SlaveStats
push_stats xs x = let all = xs ++ x ∷ [] in drop (length all - max_stats) all

-- The build that a BUILT message describes, if the slave was told to build.
unfoldable pub built_state : SlaveState → Built → Reply → Result (Option BuildState)
unfolding files_from_messages build_state
built_state s b (build pkg version) = do
  made ← or_fault assertion (
      build_state s.slave_id pkg version s.native_abi b.status b.duration b.output
        (files_from_messages b.files []))
  ok (some made)
built_state s b other = ok none

unfoldable pub record_stats : SlaveState → SlaveStats → SlaveState × List Status
unfolding push_stats status_of
record_stats s x = (
  record s { stats = push_stats s.stats x; clock_skew = some (sub_ℕ s.last_seen x.timestamp) },
  status_of s (news_stats x) ∷ [],
)

-- The setter of `request`, after the time and the message are stored.
unfoldable pub note_request : SlaveState → Request → Result (SlaveState × List Status)
unfolding built_state record_stats
note_request s (built b) = do
  last ← or_fault no_reply s.reply
  made ← built_state s b last
  ok (record s { current = made }, [])
note_request s (idle x) = ok (record_stats s x)
note_request s (busy x) = ok (record_stats s x)
note_request s other = ok (s, [])

unfoldable pub set_request : ℕ → Request → SlaveState → Result (SlaveState × List Status)
unfolding note_request
set_request now r s = note_request (record s { last_seen = now; request = some r }) r

-- The setter of `reply`.
unfoldable pub set_reply : Reply → SlaveState → Result (SlaveState × List Status)
unfolding announce status_of
set_reply cont s = ok (s, [])
set_reply finished s =
    let s' = record s { reply = some finished; current = none; skipped = false } in
    ok (s', status_of s' (news_reply finished) ∷ [])
set_reply (ack id url) s =
    let s' = record s { reply = some (ack id url) } in do told ← announce s'; ok (s', told)
set_reply r s = let s' = record s { reply = some r } in ok (s', status_of s' (news_reply r) ∷ [])
