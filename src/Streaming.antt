-- ===== src/Streaming.antt =====
-- src/llmbroker/broker/streaming.py: one streamed attempt on one model, from its key to its
-- settlement; its deltas, its outcome and its receipt are those of Deltas. What the transport does is a parameter: the chunks that arrive,
-- each as `parse_stream_chunk` reads it, and how it ends.
mod Deltas
unfoldable pub use Deltas.*
pub mod Attempts
pub mod Promises
pub mod Lanes
pub mod Budget
pub mod Owner
use Prim.Native.String.{◌++◌ as str_append}
use text.Mathlib.Text.{◌==◌ as str_eq}
use llmbroker.Base.{
  ℕ, ◌-◌, String, Bool, true, false, not, ◌&&◌, ◌||◌, Option, none, some, List, [], ◌∷◌, ◌==◌,
  if◌then◌else◌, leb,
}
use llmbroker.Models.{LlmConfig, error, Usage}
use llmbroker.Http.Verdict.{
  Parsers, Response, Exc, http_status_error, invalid_response, timed_out, bug, Outcome, failed,
  budget_expired, Verdict, classify, is_failover,
}
use llmbroker.Pool
use llmbroker.KeyRing.{resolve}
use llmbroker.Router.{
  World, Attempt, Moment, Limits, on_pool, attempt_timeout, backoff_of, finish_ok, dispose,
  Overflow, settle_superseded, spent_budget, crash_row, new_attempt,
}

-- What one streamed attempt reads from outside. `superseded` of its moment and `stopped` are the
-- owner's marks, as the attempt finds them when it ends.
pub record StreamMoment : Type 0 where
  pub moment : Moment
  pub transport : Transport
  pub stopped : Bool
  -- `time.monotonic` as a finished answer is settled, and as an exhausted one is.
  pub completed_at : ℕ
  pub exhausted_at : ℕ

-- What a streamed attempt raises to the lane that drains it.
pub data Fault : Type 0 where
  interrupted : (llm_name : String) → Fault
  answer_timed_out : (llm_name : String) (elapsed : String) → Fault
  reraised : Exc → Fault
  generator_exit : Fault
  -- The OverflowError of its own settlement, with the slot still held or not.
  overflow_fault : (holds_slot : Bool) → Fault

abbrev pub raised_by : Overflow → Option Fault → Option Fault
raised_by none fault = fault
raised_by (some holds_slot) fault = some (overflow_fault holds_slot)

-- An attempt that ends with its slot still in flight.
abbrev pub still_held : Option Fault → Bool
still_held (some (overflow_fault holds_slot)) = holds_slot
still_held _ = false

-- The verdict is set once the failure has been settled.
abbrev pub verdict_after : Overflow → Option Outcome → StreamOutcome → StreamOutcome
verdict_after none verdict out = record out { verdict = verdict }
verdict_after (some holds_slot) verdict out = out

pub record Settled : Type 0 where
  pub outcome : StreamOutcome
  pub fault : Option Fault
  pub world : World

pub record Streamed : Type 0 where
  pub deltas : List String
  pub settled : Settled

-- `stream_stopped`.
unfoldable pub stream_stopped :
    Attempt → Moment → Progress → StreamOutcome → World → StreamOutcome × World
stream_stopped a m p out w =
    if out.superseded
    then (out, settle_superseded a m p.usage w)
    else (record out { receipt = settle_receipt p }, finish_ok a m p.usage w)

abbrev pub crash_of : Exc → Option Exc
crash_of (bug type_name) = some (bug type_name)
crash_of _ = none

-- `stream_aborted`.
unfoldable pub stream_aborted :
    Attempt → StreamMoment → Progress → StreamOutcome → Exc → World → StreamOutcome × World
stream_aborted a sm p out e w =
    if out.superseded || out.stopped then stream_stopped a sm.moment p out w else (
      record out { crashed = crash_of e },
      crash_row a sm.moment e (on_pool (Pool.release a.config) w),
    )

-- NO_DELTA.
abbrev pub no_delta : String
no_delta = "the stream ended without a text delta"

module _ (py : Parsers) (show_seconds : ℕ → String) where
  -- `settle_stream`.
  unfoldable pub settle_stream :
      Attempt → StreamMoment → Progress → StreamOutcome → ℕ → ℕ → World → Settled
  settle_stream a sm p out backoff timeout w =
      let v = classify py sm.moment.classified_at (invalid_response (some no_delta)) false in
      let (overflow, w') = dispose a sm.moment v backoff timeout w in
      if p.started
      then record {
        outcome = record out {
          completed_at = some sm.completed_at;
          receipt = settle_receipt p;
          answered = true;
        };
        fault = none;
        world = finish_ok a sm.moment p.usage w;
      }
      else record {
        outcome = verdict_after overflow v.outcome out;
        fault = raised_by overflow none;
        world = w';
      }

  -- The verdict of `exhausted`; `show_seconds` is the format `.1f`.
  abbrev pub exhausted_verdict : ℕ → Verdict
  exhausted_verdict elapsed = record {
    status = error;
    detail =
        some (str_append "answer budget exhausted after " (str_append (show_seconds elapsed) "s"));
    http_status = none;
    cool_base = none;
    outcome = some budget_expired;
  }

  unfoldable pub exhausted : Attempt → StreamMoment → StreamOutcome → ℕ → ℕ → World → Settled
  exhausted a sm out backoff timeout w =
      let elapsed = sm.exhausted_at - a.t0 in
      let (overflow, w') = dispose a sm.moment (exhausted_verdict elapsed) backoff timeout w in
      record {
        outcome = record out { verdict = some budget_expired };
        fault = raised_by overflow (some (answer_timed_out a.config.name (show_seconds elapsed)));
        world = w';
      }

  unfoldable pub fail_stream :
      Attempt → StreamMoment → Exc → StreamOutcome → ℕ → ℕ → Bool → Bool → World → Settled
  fail_stream a sm e out backoff timeout budget_bound started w =
      let v = classify py sm.moment.classified_at e (budget_bound && not started) in
      let (overflow, w') = dispose a sm.moment v backoff timeout w in
      record {
        outcome = verdict_after overflow v.outcome out;
        fault = raised_by overflow (if started then some (interrupted a.config.name) else none);
        world = w';
      }

  -- The handlers of `stream_attempt`, by what its deltas came to.
  unfoldable pub settle_broke :
      Attempt → StreamMoment → ℕ → ℕ → Bool → Progress → StreamOutcome → Broke → World → Settled
  settle_broke a sm backoff timeout budget_bound p out finished w =
      settle_stream a sm p (record out { settling = true }) backoff timeout w
  settle_broke a sm backoff timeout budget_bound p out budget_exhausted w =
      exhausted a sm (record out { settling = true }) backoff timeout w
  settle_broke a sm backoff timeout budget_bound p out stopped_reading w =
      let (out', w') = stream_stopped a sm.moment p out w in
      record { outcome = out'; fault = some generator_exit; world = w' }
  settle_broke a sm backoff timeout budget_bound p out (broke_with e) w =
      let out' : StreamOutcome = record out { settling = true } in
      let (out'', w') = stream_aborted a sm p out' e w in
      if is_failover e
      then fail_stream a sm e out' backoff timeout budget_bound p.started w
      else record { outcome = out''; fault = some (reraised e); world = w' }

  unfoldable pub settle_drained :
      Attempt → StreamMoment → ℕ → ℕ → Bool → StreamOutcome → Drained → World → Streamed
  settle_drained a sm backoff timeout budget_bound out d w = record {
    deltas = d.deltas;
    settled =
        settle_broke a sm backoff timeout budget_bound d.progress
          (record out {
            receipt = d.progress.receipt;
            superseded = sm.moment.superseded;
            stopped = sm.stopped;
          })
          d.broke w;
  }

  abbrev pub silent : StreamOutcome → World → Streamed
  silent out w = record { deltas = []; settled = record { outcome = out; fault = none; world = w } }

  -- The attempt once its backoff is known.
  unfoldable pub stream_backed_off :
      Option ℕ → Attempt → Option ℕ → StreamMoment → StreamOutcome → World → Streamed
  stream_backed_off none a first_delta_deadline sm out w = record {
    deltas = [];
    settled = record { outcome = out; fault = some (overflow_fault true); world = w };
  }
  stream_backed_off (some backoff) a first_delta_deadline sm out w =
      let (timeout, budget_bound) = attempt_timeout first_delta_deadline sm.moment.asked in
      if budget_bound && timeout == 0
      then silent (record out { settling = true; verdict = some budget_expired })
          (spent_budget a sm.moment w)
      else settle_drained a sm backoff timeout budget_bound out
          (stream_deltas sm.transport (new_progress out.receipt a)) w

  unfoldable pub stream_opened :
      Attempt → Option ℕ → StreamMoment → StreamOutcome → World → Streamed
  stream_opened a first_delta_deadline sm out w =
      stream_backed_off (backoff_of w.opt a.config.name) a first_delta_deadline sm out w

  -- With no key left for the model the slot goes straight back.
  unfoldable pub stream_keyed :
      Option String → LlmConfig → Limits → StreamMoment → StreamOutcome → World → Streamed
  stream_keyed none config limits sm out w =
      silent (record out { verdict = some (failed none) }) (on_pool (Pool.release config) w)
  stream_keyed (some key) config limits sm out w =
      stream_opened (new_attempt config limits sm.moment) limits.answer_deadline sm
        (record out { holds_slot = true }) w

  -- `stream_attempt`.
  unfoldable pub stream_attempt :
      LlmConfig → Limits → StreamMoment → StreamOutcome → World → Streamed
  stream_attempt config limits sm out w =
      let (key, rings) = resolve sm.moment.secrets w.rings config.api_key_ref in
      stream_keyed key config limits sm out (record w { rings = rings })
