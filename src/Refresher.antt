-- ===== src/Refresher.antt =====
-- src/llmbroker/broker/refresher.py: when the model list is looked for. The clock of
-- `ModelListRefresher` as a state that steps change: a provision, a tick, a check, the end of a
-- task, the close. Spans are in microseconds; a deadline that is none is the code's infinity.
-- With `stamp_age` of src/llmbroker/broker/stamps.py.
pub mod Clock
use llmbroker.Base.{
  ℕ, ◌+◌, ◌-◌, Bool, true, false, not, ◌&&◌, ◌||◌, Option, none, some, List, [], ◌∷◌, ◌++◌,
  if◌then◌else◌, is_some, any_some, ltb, leb, any, String,
}
use llmbroker.Models.{LlmConfig}

-- What the refresher follows: an interval, a preset, and what the host declared, by alias or as a
-- config.
pub data Declared : Type 0 where
  by_alias : String → Declared
  by_config : LlmConfig → Declared

pub record Setup : Type 0 where
  pub interval : Option ℕ
  pub source : Option String
  pub declared : List Declared

abbrev pub is_alias : Declared → Bool
is_alias (by_alias a) = true
is_alias (by_config c) = false

-- `_follows_an_alias`.
abbrev pub follows_alias : Setup → Bool
follows_alias s = any is_alias s.declared

pub record Refresher : Type 0 where
  pub attempted : Bool
  pub armed : Bool
  pub filling : Bool
  pub next_refresh : Option ℕ
  pub running : Bool

abbrev pub new_refresher : Refresher
new_refresher = record {
  attempted = false;
  armed = false;
  filling = false;
  next_refresh = none;
  running = false;
}

-- `stamp_age`, of the instant that the record holds: one in the future counts as absent.
unfoldable pub stamp_age : ℕ → Option ℕ → Option ℕ
stamp_age now none = none
stamp_age now (some checked_at) = if leb checked_at now then some (now - checked_at) else none

-- The first deadline, from the age of the check record.
unfoldable pub first_deadline : ℕ → ℕ → Option ℕ → ℕ
first_deadline now interval none = 0
first_deadline now interval (some age) = if ltb age interval then now + (interval - age) else 0

abbrev pub set_first : ℕ → Option ℕ → Option ℕ → Refresher → Refresher
set_first now none age r = r
set_first now (some interval) age r = record r {
  next_refresh = some (first_deadline now interval age);
}

-- `_arm`.
unfoldable pub arm : Setup → ℕ → Option ℕ → Refresher → Refresher
arm s now age r = if r.armed then r else set_first now s.interval age (record r { armed = true })

-- What a step has the refresher do: nothing, fill an empty registry before it returns, or begin a
-- refresh beside the request.
pub data Action : Type 0 where
  quiet fills starts : Action

-- `schedule`; one reading of the clock stands for its two.
abbrev pub is_early : ℕ → Option ℕ → Bool
is_early now none = true
is_early now (some at) = ltb now at

unfoldable pub schedule : Setup → ℕ → Refresher → Action × Refresher
schedule s now r = elim s.interval [
  | none ↦ (quiet, r)
  | some interval ↦
      if is_early now r.next_refresh || r.running
      then (quiet, r)
      else (starts, record r { next_refresh = some (now + interval); running = true })
]

-- `tick`.
unfoldable pub tick : Setup → ℕ → Option ℕ → Refresher → Action × Refresher
tick s now age r = schedule s now (if not r.armed && follows_alias s then arm s now age r else r)

-- `before_provision`: `empty` is whether the registry holds nothing. A fill is under way until its
-- attempt ends.
unfoldable pub provision_with :
    Setup → ℕ → Option ℕ → Bool → Option ℕ → Option String → Refresher → Action × Refresher
provision_with s now age empty none source r = (quiet, r)
provision_with s now age empty (some interval) none r =
    (quiet, if follows_alias s then arm s now age r else r)
provision_with s now age empty (some interval) (some source) r =
    if empty then (fills, record r { armed = true; filling = true }) else (quiet, arm s now age r)

unfoldable pub before_provision : Setup → ℕ → Option ℕ → Bool → Refresher → Action × Refresher
before_provision s now age empty r =
    if r.attempted
    then (quiet, r)
    else provision_with s now age empty s.interval s.source (record r { attempted = true })

-- The end of `_attempt`, whatever became of it: the next deadline, and whether the pool is rebuilt.
abbrev pub next_after : ℕ → Option ℕ → Option ℕ → Option ℕ
next_after now none before = before
next_after now (some interval) before = some (now + interval)

unfoldable pub fill_ends : Setup → ℕ → Refresher → Bool × Refresher
fill_ends s now r = (
  not r.filling,
  record r { filling = false; next_refresh = next_after now s.interval r.next_refresh },
)

unfoldable pub refresh_ends : Setup → ℕ → Refresher → Bool × Refresher
refresh_ends s now r = (
  not r.filling,
  record r { running = false; next_refresh = next_after now s.interval r.next_refresh },
)

-- `aclose`: a refresh in flight is cancelled; its `finally` sets the deadline.
unfoldable pub close : Setup → ℕ → Refresher → Refresher
close s now r = if r.running then (refresh_ends s now r).1 else r

-- What happens to a refresher; the readings are those of `time.monotonic`.
pub data Step : Type 0 where
  provisions : (now : ℕ) (age : Option ℕ) (empty : Bool) → Step
  ticks : (now : ℕ) (age : Option ℕ) → Step
  schedules fill_done refresh_done closes : (now : ℕ) → Step

-- A background refresh ends only where one runs, and a fill where one is under way.
unfoldable pub step : Setup → Step → Refresher → Action × Refresher
step s (provisions now age empty) r = before_provision s now age empty r
step s (ticks now age) r = tick s now age r
step s (schedules now) r = schedule s now r
step s (fill_done now) r = (quiet, if r.filling then (fill_ends s now r).1 else r)
step s (refresh_done now) r = (quiet, if r.running then (refresh_ends s now r).1 else r)
step s (closes now) r = (quiet, close s now r)

abbrev pub time_of : Step → ℕ
time_of (provisions now age empty) = now
time_of (ticks now age) = now
time_of (schedules now) = now
time_of (fill_done now) = now
time_of (refresh_done now) = now
time_of (closes now) = now

-- The readings at which background refreshes begin.
abbrev pub started : Action → ℕ → List ℕ → List ℕ
started quiet now later = later
started fills now later = later
started starts now later = now ∷ later

unfoldable pub start_times : Setup → List Step → Refresher → List ℕ
start_times s [] r = []
start_times s (x ∷ xs) r =
    let (action, r') = step s x r in started action (time_of x) (start_times s xs r')
