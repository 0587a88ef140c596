-- ===== src/Streaming/Owner.antt =====
-- src/llmbroker/broker/stream_owner.py: the state of `RoutedStream`, and the operations on it that
-- its loops share. A lane is referred to by its opening order. The waves count from 1, where the
-- code counts from 0 and stands at -1 before the first.
pub mod Faults
pub mod Initial
pub mod Ordinary
pub mod Answers
pub mod Closing
pub mod Accounting
use text.Mathlib.Text.{◌==◌ as str_eq}
use llmbroker.Base.{
  ℕ, suc, ◌+◌, ◌-◌, String, ◌≡◌, refl, Bool, true, false, not, ◌&&◌, ◌||◌, Option, none, some, List,
  [], ◌∷◌, ◌++◌, arith, ◌==◌, if◌then◌else◌, ltb, leb, filter, map, any_some, is_some, is_empty,
  length, mem, find?, or_else,
}
use llmbroker.Base.Least.{least_from}
use llmbroker.Models.{LlmConfig, Instant, Usage}
use llmbroker.Http.Verdict.{Exc, bug, ProviderError}
use llmbroker.Optimizer.{Optimizer}
use llmbroker.Optimizer.Floats.{FloatOps}
use llmbroker.Pool.{Pool}
use llmbroker.Pool.Acquire.{Clocks, Request, take_free, NoLlmAvailable, timeout, excluded}
use llmbroker.Router.{Limits}
use llmbroker.Router.Calls.{RouteCall, absorb, new_call, request_of, note_attempted}
use llmbroker.Router.Route.{deadlines}
use llmbroker.Streaming.{
  Receipt, new_receipt, Fault, interrupted, answer_timed_out, reraised, generator_exit,
  StreamOutcome,
}
use llmbroker.Streaming.Lanes.{
  StreamLane, StreamRace, new_lane, entry_of, live, winner, join, is_exposed,
}
use llmbroker.Streaming.Budget.{StreamBudget, resume, plus}

pub record Owner : Type 0 where
  pub call : RouteCall
  pub race : StreamRace
  pub budget : StreamBudget
  pub queue_deadline : Option ℕ
  pub eligible_names : List String
  pub refresh_used : Bool
  pub initial_complete : Bool
  pub authoritative : Option ℕ
  pub delivered : List String
  pub terminal : Bool
  pub opening_order : ℕ
  pub waves : ℕ
  pub wave_width : List (ℕ × ℕ)
  pub receipt : Receipt

-- `_start`, at a reading of the clock: `wait` is the caller's, and `names` are the pool's configs.
unfoldable pub start : ℕ → Option ℕ → Limits → Option ℕ → Bool → List String → Receipt → Owner
start now wait limits fastest_of parallel_recovery names receipt =
    let (queue_deadline, answer_deadline) = deadlines wait now in
    let call =
      new_call (record limits { answer_deadline = answer_deadline }) fastest_of parallel_recovery in
    record {
      call = call;
      race = record { lanes = []; width = call.width; deadline = 0; exposed = none; done = false };
      budget = record { deadline = answer_deadline; paused_at = none };
      queue_deadline = queue_deadline;
      eligible_names = names;
      refresh_used = false;
      initial_complete = false;
      authoritative = none;
      delivered = [];
      terminal = false;
      opening_order = 0;
      waves = 0;
      wave_width = [];
      receipt = receipt;
    }

abbrev pub with_lanes : List StreamLane → Owner → Owner
with_lanes lanes o = record o { race = record o.race { lanes = lanes } }

-- `_open`.
unfoldable pub lanes_of : List LlmConfig → ℕ → Bool → ℕ → List StreamLane
lanes_of [] order hold_first wave = []
lanes_of (config ∷ configs) order hold_first wave =
    new_lane config order hold_first wave ∷ lanes_of configs (suc order) hold_first wave

abbrev pub new_wave : List LlmConfig → Owner → Owner
new_wave configs o = record o {
  waves = suc o.waves;
  wave_width =
      (suc o.waves, if leb (length configs) o.call.width then o.call.width else length configs)
      ∷ o.wave_width;
}

unfoldable pub open_lanes : List LlmConfig → Bool → Owner → Owner
open_lanes configs hold_first o = record o {
  race = record o.race {
    lanes = o.race.lanes ++ lanes_of configs o.opening_order hold_first o.waves;
  };
  opening_order = o.opening_order + length configs;
}

-- `_absorb_finished`.
abbrev pub is_absorbable : StreamLane → Bool
is_absorbable lane = lane.finished && not lane.absorbed && not (is_some lane.outcome.completed_at)

unfoldable pub absorb_lanes : List StreamLane → RouteCall → List StreamLane × RouteCall
absorb_lanes [] call = ([], call)
absorb_lanes (lane ∷ lanes) call =
    let call' = if is_absorbable lane then absorb lane.config lane.outcome.verdict call else call in
    let (rest, call'') = absorb_lanes lanes call' in
    ((if is_absorbable lane then record lane { absorbed = true } else lane) ∷ rest, call'')

unfoldable pub absorb_finished : Owner → Owner
absorb_finished o =
    let (lanes, call) = absorb_lanes o.race.lanes o.call in
    record (with_lanes lanes o) { call = call }

-- `_resume_budget`.
unfoldable pub resume_budget : ℕ → Owner → Owner
resume_budget now o =
    let (elapsed, budget) = resume now o.budget in
    record o {
      budget = budget;
      call = record o.call {
        limits = record o.call.limits {
          answer_deadline = plus o.call.limits.answer_deadline elapsed;
        };
      };
      queue_deadline = plus o.queue_deadline elapsed;
    }

-- Keys of a reading and the opening order.
abbrev pub TimeKey : Type 0
TimeKey = ℕ × ℕ

unfoldable pub time_lt : TimeKey → TimeKey → Bool
time_lt (s, i) (t, j) = ltb s t || (s == t && ltb i j)

abbrev pub time_key : StreamLane → Option ℕ → Option TimeKey
time_key lane none = none
time_key lane (some at) = some (at, lane.opening_order)

-- `_first_delta`.
unfoldable pub first_delta : Owner → Option StreamLane
first_delta o =
    entry_of (least_from time_lt (λ lane. time_key lane lane.first_delta_at) none o.race.lanes)

abbrev pub is_delivered : List String → Option String → Bool
is_delivered delivered none = false
is_delivered delivered (some id) = mem id delivered

-- `_buffered_lane`.
unfoldable pub buffered_key : List String → StreamLane → Option TimeKey
buffered_key delivered lane =
    if is_delivered delivered lane.outcome.receipt.call_id
    then none
    else time_key lane lane.outcome.completed_at

unfoldable pub buffered_lane : Owner → Option StreamLane
buffered_lane o = entry_of (least_from time_lt (buffered_key o.delivered) none o.race.lanes)

-- The accounting of `_refill_free`.
abbrev pub width_of : ℕ → ℕ → List (ℕ × ℕ) → ℕ
width_of wave default [] = default
width_of wave default ((w, width) ∷ widths) =
    let rest = width_of wave default widths in if w == wave then width else rest

abbrev pub was_delivered : Owner → StreamLane → Bool
was_delivered o lane = lane.wave == o.waves && is_delivered o.delivered lane.outcome.receipt.call_id

abbrev pub is_pending : Owner → StreamLane → Bool
is_pending o lane =
    lane.wave == o.waves
    && ((not lane.finished || is_some lane.outcome.completed_at)
        && not (is_delivered o.delivered lane.outcome.receipt.call_id))

abbrev pub delivered_count : Owner → ℕ
delivered_count o = length (filter (was_delivered o) o.race.lanes)

abbrev pub pending_count : Owner → ℕ
pending_count o = length (filter (is_pending o) o.race.lanes)

unfoldable pub needed : Owner → ℕ
needed o = width_of o.waves o.call.width o.wave_width - delivered_count o - pending_count o

module _ (fl : FloatOps) where
  -- `_untried`, for a stream: `tried` is empty, and what the call was handed is remembered.
  abbrev pub untried_request : List String → Owner → Request
  untried_request payable o = record {
    boundary = record {
      payable = payable;
      exclude = o.call.client_failed ++ o.call.attempted;
      eligible_names = some o.eligible_names;
    };
    width = needed o;
    recovery_width = 1;
    operation = o.call.limits.operation;
    queue_deadline = none;
    answer_deadline = o.call.limits.answer_deadline;
  }

  -- `_refill_free`.
  unfoldable pub refill_free : Option Optimizer → List String → Clocks → Owner → Pool → Owner × Pool
  refill_free opt payable t o p =
      let (configs, p') =
        take_free fl opt (untried_request payable o) (not (is_some (buffered_lane o))) t p in
      if o.call.expired || is_some (buffered_lane o)
      then (o, p)
      else if needed o == 0
      then (o, p)
      else (
        open_lanes configs false
            (record o { call = note_attempted (some o.eligible_names) configs o.call }),
        p',
      )

-- `_complete_initial`, with `Router._publish`.
abbrev pub publish : StreamLane → Receipt → Receipt
publish lane receipt = lane.outcome.receipt

abbrev pub deliver : Option String → List String → List String
deliver none delivered = delivered
deliver (some id) delivered = id ∷ delivered

unfoldable pub complete_initial : StreamLane → Owner → Owner
complete_initial lane o = record o {
  authoritative = some lane.opening_order;
  initial_complete = true;
  race = record o.race { done = true };
  receipt = publish lane o.receipt;
  delivered = deliver lane.outcome.receipt.call_id o.delivered;
}

abbrev pub lane_at : Option ℕ → List StreamLane → Option StreamLane
lane_at none lanes = none
lane_at (some order) lanes = find? (λ lane. lane.opening_order == order) lanes

-- `_unexpected_fault`.
abbrev pub crash_key : StreamLane → Option Exc → Option ℕ
crash_key lane none = none
crash_key lane (some e) = some lane.opening_order

abbrev pub crash_in : Option StreamLane → Option Exc
crash_in none = none
crash_in (some lane) = lane.outcome.crashed

unfoldable pub unexpected_fault : Owner → Option Exc
unexpected_fault o =
    crash_in
      (entry_of (least_from ltb (λ lane. crash_key lane lane.outcome.crashed) none o.race.lanes))
