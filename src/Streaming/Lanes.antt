-- ===== src/Streaming/Lanes.antt =====
-- src/llmbroker/broker/streaming.py: the lanes of a streamed call, and which of them is shown and
-- which has won. A lane is known by its opening order, which no two lanes of a call share.
pub mod Winners
use Prim.Native.String.{◌++◌ as str_append}
use llmbroker.Base.{
  ℕ, zero, suc, String, ◌≡◌, ◌≤◌, refl, Bool, true, false, not, ◌&&◌, ◌||◌, Option, none, some,
  List, [], ◌∷◌, ◌++◌, arith, ◌==◌, if◌then◌else◌, ltb, leb, filter, All, map, any_some, is_some,
  ◌-◌,
}
use llmbroker.Base.Least.{least_from, least-IsLeast}
use llmbroker.Base.Sorting.{IsOrder}
use llmbroker.Models.{LlmConfig}
use llmbroker.Streaming.{StreamOutcome, new_outcome, Fault, Receipt}

-- Where the task that drains a lane stands: reading its stream, or waiting with its first delta, or
-- for the consumer.
pub data Gate : Type 0 where
  reading at_first at_pull : Gate

-- `StreamLane`, without its task. `release_first` and `pulled` are whether the events are set.
pub record StreamLane : Type 0 where
  pub config : LlmConfig
  pub outcome : StreamOutcome
  pub deltas : List String
  pub sent : ℕ
  pub first_delta_at : Option ℕ
  pub failure : Option Fault
  pub finished : Bool
  pub absorbed : Bool
  pub retired : Bool
  pub opening_order : ℕ
  pub hold_first : Bool
  pub consumer_driven : Bool
  pub release_first : Bool
  pub pulled : Bool
  pub wave : ℕ
  pub gate : Gate

abbrev pub new_lane : LlmConfig → ℕ → Bool → ℕ → StreamLane
new_lane config order hold_first wave = record {
  config = config;
  outcome = new_outcome;
  deltas = [];
  sent = 0;
  first_delta_at = none;
  failure = none;
  finished = false;
  absorbed = false;
  retired = false;
  opening_order = order;
  hold_first = hold_first;
  consumer_driven = false;
  release_first = false;
  pulled = false;
  wave = wave;
  gate = reading;
}

-- `StreamRace`; `exposed` is the opening order of the lane that is shown.
pub record StreamRace : Type 0 where
  pub lanes : List StreamLane
  pub width : ℕ
  pub deadline : ℕ
  pub exposed : Option ℕ
  pub done : Bool

abbrev pub is_exposed : Option ℕ → StreamLane → Bool
is_exposed exposed lane = any_some (λ order. order == lane.opening_order) exposed

unfoldable pub live : StreamRace → List StreamLane
live race = filter (λ lane. not lane.finished) race.lanes

-- The key of `winner`: completion, then whether it is another lane than the one shown, then rank.
abbrev pub WinnerKey : Type 0
WinnerKey = ℕ × Bool × ℕ

abbrev pub winner_key_at : Option ℕ → StreamLane → Option ℕ → Option WinnerKey
winner_key_at exposed lane none = none
winner_key_at exposed lane (some at) = some (at, not (is_exposed exposed lane), lane.opening_order)

unfoldable pub winner_key : Option ℕ → StreamLane → Option WinnerKey
winner_key exposed lane = winner_key_at exposed lane lane.outcome.completed_at

abbrev bool_eq : Bool → Bool → Bool
bool_eq x y = (x && y) || (not x && not y)

-- Python's order of the tuples.
unfoldable pub winner_lt : WinnerKey → WinnerKey → Bool
winner_lt (s, other, i) (t, other', j) =
    ltb s t || (s == t && ((not other && other') || (bool_eq other other' && ltb i j)))

-- `StreamRace.winner`.
abbrev pub entry_of {κ} : {K : Type κ} → Option (StreamLane × K) → Option StreamLane
entry_of none = none
entry_of (some b) = some b.0

unfoldable pub winner : StreamRace → Option StreamLane
winner race = entry_of (least_from winner_lt (winner_key race.exposed) none race.lanes)

-- The first of the lanes by the time of its first delta.
unfoldable pub earliest : List StreamLane → Option StreamLane
earliest lanes = entry_of (least_from ltb (λ lane. lane.first_delta_at) none lanes)

-- `StreamRace.select`; the preferred lane is the first, and with no lane there is none to choose.
unfoldable pub select_from : ℕ → ℕ → List StreamLane → Option StreamLane
select_from now deadline [] = none
select_from now deadline (preferred ∷ lanes) =
    if any_some (λ at. ltb at deadline) preferred.first_delta_at
    then some preferred
    else if not preferred.finished && ltb now deadline
    then none
    else earliest (preferred ∷ lanes)

abbrev pub select : ℕ → StreamRace → Option StreamLane
select now race = select_from now race.deadline race.lanes

-- `StreamRace.timeout`.
unfoldable pub timeout_from : ℕ → StreamRace → List StreamLane → Option ℕ
timeout_from now race [] = none
timeout_from now race (preferred ∷ lanes) =
    if is_some race.exposed || preferred.finished
    then none
    else if ltb now race.deadline
    then some (race.deadline - now)
    else none

abbrev pub timeout : ℕ → StreamRace → Option ℕ
timeout now race = timeout_from now race race.lanes

-- `_drain` of src/llmbroker/broker/stream_owner.py: a delta arrives, and the gates that follow it.
abbrev pub first_at : ℕ → Option ℕ → Option ℕ
first_at now none = some now
first_at now (some at) = some at

abbrev pub is_reading : Gate → Bool
is_reading reading = true
is_reading _ = false

abbrev pub pull_gate : StreamLane → Gate
pull_gate lane = if lane.consumer_driven then at_pull else reading

abbrev pub is_single : List String → Bool
is_single (d ∷ []) = true
is_single _ = false

unfoldable pub receive : ℕ → String → StreamLane → StreamLane
receive now delta lane =
    let lane' : StreamLane = record lane {
      first_delta_at = first_at now lane.first_delta_at;
      deltas = lane.deltas ++ delta ∷ [];
    } in
    if is_reading lane.gate && not lane.finished
    then record lane' {
      gate = if lane.hold_first && is_single lane'.deltas then at_first else pull_gate lane;
    }
    else lane

unfoldable pub pass_gate : StreamLane → StreamLane
pass_gate lane = elim lane.gate [
  | reading ↦ lane
  | at_first ↦ if lane.release_first then record lane { gate = pull_gate lane } else lane
  | at_pull ↦ if lane.pulled then record lane { gate = reading; pulled = false } else lane
]

-- The end of the task; a cancellation is no failure of the lane.
unfoldable pub finish_lane : Option Fault → StreamLane → StreamLane
finish_lane failure lane = record lane { failure = failure; finished = true }

-- `name`.
unfoldable pub name_lane : StreamLane → Receipt → Receipt
name_lane lane receipt = record receipt {
  llm_name = lane.outcome.receipt.llm_name;
  call_id = lane.outcome.receipt.call_id;
}

unfoldable pub join : List String → String
join [] = ""
join (d ∷ ds) = str_append d (join ds)

-- The owner shows the next delta of a lane, or has shown them all.
abbrev pub nth_delta : ℕ → List String → Option String
nth_delta n [] = none
nth_delta zero (d ∷ ds) = some d
nth_delta (suc n) (d ∷ ds) = nth_delta n ds

unfoldable pub show_next : StreamLane → Option (String × StreamLane)
show_next lane = elim (nth_delta lane.sent lane.deltas) [
  | none ↦ none
  | some delta ↦ some (delta, record lane { sent = suc lane.sent })
]
