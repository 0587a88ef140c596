-- ===== src/Router.antt =====
-- src/llmbroker/broker/router.py: one attempt on one model, and how it is settled. What an attempt
-- reads from outside (the clocks, the provider, whether the journal could be written) is its Moment.
-- Spans and readings are in microseconds.
pub mod Attempts
pub mod Validity
pub mod Calls
pub mod Race
pub mod Route
pub mod Rows
pub mod Settlements
use llmbroker.Base.{pos_part, neg_part}
use mathlib.Core.Option
use llmbroker.Base.{
  ℕ, ◌+◌, ◌-◌, ◌*◌, ◌/◌, ◌^◌, String, Bool, true, false, not, ◌&&◌, ◌||◌, Option, none, some, List,
  [], ◌∷◌, ◌==◌, any_some, if◌then◌else◌, leb, ltb, ℤ, pos, scale, min_ℤ, shift,
}
use llmbroker.Models.{
  Instant, LlmConfig, Call, CallStatus, ok, rate_limited, unavailable, error, superseded, Usage,
}
use llmbroker.Http.{is_auth_failure}
use llmbroker.Http.Verdict.{
  Parsers, Exc, bug, cancelled, Outcome, failed, budget_expired, Verdict, classify, is_failover,
}
use llmbroker.Optimizer.{Optimizer, rl_fail_count, on_rate_limited, on_success}
use llmbroker.Pool
use llmbroker.Pool.{Pool}
use llmbroker.KeyRing.{Ring, Secrets, resolve, forget}

-- What an attempt reads and changes: the pool, the caller's chain of key rings, the optimizer that
-- the router and the learner share (both absent where learning is off), and the journal, newest row
-- first.
pub record World : Type 0 where
  pub pool : Pool
  pub rings : List Ring
  pub opt : Option Optimizer
  pub journal : List Call

pub record Attempt : Type 0 where
  pub config : LlmConfig
  pub call_id : String
  pub t0 : ℕ
  pub operation : Option String
  pub trace_id : Option String
  pub scope : Option String

-- What the provider's call comes to.
pub data Reply : Type 0 where
  completed : (content : String) (usage : Option Usage) → Reply
  raised : Exc → Reply

pub record Moment : Type 0 where
  pub secrets : Secrets
  pub call_id : String
  -- `time.monotonic` when the attempt begins, when its timeout is set, and when its row is made.
  pub t0 : ℕ
  pub asked : ℕ
  pub ended : ℕ
  -- `datetime.now` as the attempt is classified, bounded, cooled and recorded.
  pub classified_at : Instant
  pub bounded_at : Instant
  pub cooled_at : Instant
  pub until_at : Instant
  pub recorded_at : Instant
  pub reply : Reply
  -- `outcome.superseded`: a sibling has answered.
  pub superseded : Bool
  -- Whether `store.record` succeeds; what it raises is only logged.
  pub stored : Bool

-- `Learner.observe`, on the optimizer.
unfoldable pub observe : Call → Optimizer → Optimizer
observe call opt = elim call.status [
  | none ↦ opt
  | some status ↦ elim status [
    | rate_limited ↦ on_rate_limited opt call.llm_name
    | unavailable ↦ on_rate_limited opt call.llm_name
    | ok ↦ on_success opt call.llm_name
    | superseded ↦ opt
    | error ↦
        if any_some is_auth_failure call.http_status
        then opt
        else if any_some (λ _. true) call.cooldown_until
        then on_rate_limited opt call.llm_name
        else opt
  ]
]

abbrev pub learn : Call → Option Optimizer → Option Optimizer
learn call none = none
learn call (some opt) = some (observe call opt)

-- `_log_call`: the learner is reached even where the write failed.
unfoldable pub log_call : Bool → Call → World → World
log_call stored call w = record w {
  opt = learn call w.opt;
  journal = if stored then call ∷ w.journal else w.journal;
}

-- The optional arguments of `_record`; it has worked out the end of the cooldown from its delay.
pub record Row : Type 0 where
  pub status : CallStatus
  pub http_status : Option ℕ
  pub error_detail : Option String
  pub usage : Option Usage
  pub cooldown_until : Option Instant
  pub budget_ms : Option ℕ

abbrev pub row : CallStatus → Row
row status = record {
  status = status;
  http_status = none;
  error_detail = none;
  usage = none;
  cooldown_until = none;
  budget_ms = none;
}

-- The end of a cooldown, where there is one; the outer none is the OverflowError of one out of range.
abbrev pub until_of : Instant → Option ℤ → Option (Option Instant)
until_of now none = some none
until_of now (some delay) = Option.map some (shift now delay)

unfoldable pub call_of : Attempt → Moment → Row → Call
call_of a m r = record {
  id = a.call_id;
  llm_name = a.config.name;
  operation = a.operation;
  trace_id = a.trace_id;
  status = some r.status;
  ts = some m.recorded_at;
  http_status = r.http_status;
  latency_ms = some ((m.ended - a.t0) / 1000);
  error_detail = r.error_detail;
  usage = r.usage;
  score = none;
  scope = a.scope;
  cooldown_until = r.cooldown_until;
  budget_ms = r.budget_ms;
}

-- `_record`.
unfoldable pub record_row : Attempt → Moment → Row → World → World
record_row a m r = log_call m.stored (call_of a m r)

abbrev pub on_pool : (Pool → Pool) → World → World
on_pool f w = record w { pool = f w.pool }

-- HTTP_TIMEOUT: 60 seconds.
abbrev pub http_timeout : ℕ
http_timeout = 60_000_000

unfoldable pub capped_wait : Option Optimizer → ℤ → ℕ → ℤ
capped_wait none base backoff = min_ℤ (scale base backoff) base
capped_wait (some opt) base backoff = min_ℤ (scale base backoff) (pos opt.max_delay)

-- The timeout of one attempt, and whether it is the caller's budget that sets it. A budget that has
-- run out leaves 0.
unfoldable pub attempt_timeout : Option ℕ → ℕ → ℕ × Bool
attempt_timeout none asked = (http_timeout, false)
attempt_timeout (some deadline) asked =
    if leb http_timeout (deadline - asked) then (http_timeout, false) else (deadline - asked, true)

-- The least number that rounds to no finite float.
abbrev pub float_bound : ℕ
float_bound = 2 ^ 1024 - 2 ^ 970

-- `_backoff`: a power of floats that is out of range raises OverflowError.
unfoldable pub backoff_of : Option Optimizer → String → Option ℕ
backoff_of none name = some 1
backoff_of (some opt) name =
    let backoff = opt.backoff_factor ^ rl_fail_count opt name in
    if ltb backoff float_bound then some backoff else none

unfoldable pub finish_ok : Attempt → Moment → Option Usage → World → World
finish_ok a m usage w =
    record_row a m (record (row ok) { http_status = some 200; usage = usage })
      (on_pool
        (λ p.
          Pool.clear_budget_bound a.config.name
            (Pool.clear_cooling a.config.name (Pool.release a.config p)))
        w)

-- The three steps of `_dispose` before the row: the key, the budget bound, and the slot.
unfoldable pub drop_key : Attempt → Verdict → World → World
drop_key a v w =
    if any_some is_auth_failure v.http_status
    then record w { rings = forget w.rings a.config.api_key_ref }
    else w

abbrev pub is_expired : Option Outcome → Bool
is_expired (some budget_expired) = true
is_expired _ = false

unfoldable pub bound_budget : Attempt → Moment → Verdict → ℕ → World → World
bound_budget a m v timeout w =
    if is_expired v.outcome
    then on_pool (Pool.raise_budget_bound a.config.name timeout m.bounded_at) w
    else w

-- `verdict.cool_base` is in seconds.
abbrev pub fits_float : ℤ → Bool
fits_float d = ltb (pos_part d + neg_part d) float_bound

-- The outer none is the OverflowError of a base that is too large for a float.
unfoldable pub delay_of : Option Optimizer → Verdict → ℕ → Option (Option ℤ)
delay_of opt v backoff = elim v.cool_base [
  | none ↦ some none
  | some base ↦
      if fits_float base then some (some (capped_wait opt (scale base 1_000_000) backoff)) else none
]

abbrev pub hand_back : Attempt → Moment → Option ℤ → Pool → Option Pool
hand_back a m none p = some (Pool.release a.config p)
hand_back a m (some delay) p = Pool.cool_down m.cooled_at a.config delay p

-- The row of a failure, once the end of its cooldown is known.
abbrev pub failure_row : Verdict → ℕ → Option Instant → Row
failure_row v timeout until = record {
  status = v.status;
  http_status = v.http_status;
  error_detail = v.detail;
  usage = none;
  cooldown_until = until;
  budget_ms = if is_expired v.outcome then some (timeout / 1000) else none;
}

-- How a settlement ends: through, or in an OverflowError, and then whether the slot is still held.
abbrev pub Overflow : Type 0
Overflow = Option Bool

unfoldable pub journaled :
    Attempt → Moment → (Option Instant → Row) → Option (Option Instant) → World → Overflow × World
journaled a m r none w = (some false, w)
journaled a m r (some until) w = (none, record_row a m (r until) w)

unfoldable pub handed_back :
    Attempt
    → Moment
    → (Option Instant → Row)
    → Option (Option Instant)
    → Option Pool
    → World
    → Overflow × World
handed_back a m r until none w = (some true, w)
handed_back a m r until (some p) w = journaled a m r until (record w { pool = p })

unfoldable pub cooled_by :
    Attempt → Moment → (Option Instant → Row) → Option (Option ℤ) → World → Overflow × World
cooled_by a m r none w = (some true, w)
cooled_by a m r (some delay) w =
    handed_back a m r (until_of m.until_at delay) (hand_back a m delay w.pool) w

-- `_dispose`.
unfoldable pub dispose : Attempt → Moment → Verdict → ℕ → ℕ → World → Overflow × World
dispose a m v backoff timeout w =
    cooled_by a m (failure_row v timeout) (delay_of w.opt v backoff)
      (bound_budget a m v timeout (drop_key a v w))

unfoldable pub settle_superseded : Attempt → Moment → Option Usage → World → World
settle_superseded a m usage w =
    record_row a m (record (row superseded) { usage = usage }) (on_pool (Pool.release a.config) w)

unfoldable pub spent_budget : Attempt → Moment → World → World
spent_budget a m w =
    record_row a m (record (row error) { error_detail = some "wait budget exhausted" })
      (on_pool (Pool.release a.config) w)

-- How an attempt left the call: with an answer, with what the driver fails over on, or raising;
-- `overflowed` raises the OverflowError of its own settlement, with the slot still held or not.
pub data Ended : Type 0 where
  answered : (content : String) (usage : Option Usage) → Ended
  gave_up : Option Outcome → Ended
  crashed : Exc → Ended
  overflowed : (holds_slot : Bool) → Ended

abbrev pub overflow_error : Exc
overflow_error = bug "OverflowError"

-- An attempt that ends with its slot still in flight.
abbrev pub still_holds : Ended → Bool
still_holds (overflowed holds_slot) = holds_slot
still_holds _ = false

abbrev pub disposed : Option Outcome → Overflow → Ended
disposed verdict none = gave_up verdict
disposed verdict (some holds_slot) = overflowed holds_slot

-- A bug is journaled, and a bare cancellation is not.
unfoldable pub crash_row : Attempt → Moment → Exc → World → World
crash_row a m (bug type_name) w =
    record_row a m (record (row error) { error_detail = some type_name }) w
crash_row a m _ w = w

unfoldable pub settle_crash : Attempt → Moment → Exc → World → World
settle_crash a m e w =
    if m.superseded
    then settle_superseded a m none w
    else crash_row a m e (on_pool (Pool.release a.config) w)

-- The limits of the call that an attempt belongs to.
pub record Limits : Type 0 where
  pub answer_deadline : Option ℕ
  pub operation : Option String
  pub trace_id : Option String
  pub scope : Option String

abbrev pub new_attempt : LlmConfig → Limits → Moment → Attempt
new_attempt config limits m = record {
  config = config;
  call_id = m.call_id;
  t0 = m.t0;
  operation = limits.operation;
  trace_id = limits.trace_id;
  scope = limits.scope;
}

module _ (py : Parsers) where
  -- The settlement of what the provider's call came to.
  unfoldable pub settle : Attempt → Moment → ℕ → ℕ → Bool → Reply → World → Ended × World
  settle a m backoff timeout budget_bound (completed content usage) w =
      (answered content usage, finish_ok a m usage w)
  settle a m backoff timeout budget_bound (raised e) w =
      let v = classify py m.classified_at e budget_bound in
      let (overflow, w') = dispose a m v backoff timeout w in
      if is_failover e then (disposed v.outcome overflow, w') else (crashed e, settle_crash a m e w)

  -- The attempt once its backoff is known.
  unfoldable pub backed_off : Option ℕ → Attempt → Limits → Moment → World → Ended × World
  backed_off none a limits m w = (overflowed true, w)
  backed_off (some backoff) a limits m w =
      let (timeout, budget_bound) = attempt_timeout limits.answer_deadline m.asked in
      if budget_bound && timeout == 0
      then (gave_up (some budget_expired), spent_budget a m w)
      else settle a m backoff timeout budget_bound m.reply w

  unfoldable pub opened : Attempt → Limits → Moment → World → Ended × World
  opened a limits m w = backed_off (backoff_of w.opt a.config.name) a limits m w

  -- With no key left for the model the slot goes straight back.
  unfoldable pub with_key : Option String → LlmConfig → Limits → Moment → World → Ended × World
  with_key none config limits m w = (gave_up (some (failed none)), on_pool (Pool.release config) w)
  with_key (some key) config limits m w = opened (new_attempt config limits m) limits m w

  -- `_attempt`.
  unfoldable pub attempt : LlmConfig → Limits → Moment → World → Ended × World
  attempt config limits m w =
      let (key, rings) = resolve m.secrets w.rings config.api_key_ref in
      with_key key config limits m (record w { rings = rings })
