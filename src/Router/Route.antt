-- ===== src/Router/Route.antt =====
-- src/llmbroker/broker/router.py: `_route` and `_alone`: one routed call over the pool, from its
-- first acquisition to what its caller gets. What happens in each turn of the loop is a Turn.
pub mod Conserves
pub mod Excludes
use llmbroker.Router.{overflowed, overflow_error}
use llmbroker.Base.{
  ℕ, ◌+◌, ◌==◌, Bool, true, false, not, ◌&&◌, String, Option, none, some, List, [], ◌∷◌,
  if◌then◌else◌, all,
}
use llmbroker.Models.{Instant, LlmConfig, Usage}
use llmbroker.Http.Verdict.{Parsers, Exc}
use llmbroker.Optimizer.Floats.{FloatOps}
use llmbroker.Pool.{Pool}
use llmbroker.Pool.Acquire.{Clocks}
use llmbroker.Router.{World, Moment, Ended, answered, gave_up, crashed, attempt}
use llmbroker.Router.Calls.{
  RouteCall, absorb, CallError, Acquisition, acquired, refuses, still_waiting, acquire,
  expired_error,
}
use llmbroker.Router.Race.{
  Lane, is_done, Phase, racing, lost, won, broke, Race, Event, start, run, is_racing,
}

-- The deadlines of a call's slot and of its answer, from its `wait` and a reading of the monotonic
-- clock: a `wait` of 0 bounds the slot alone.
unfoldable pub deadlines : Option ℕ → ℕ → Option ℕ × Option ℕ
deadlines none now = (none, none)
deadlines (some wait) now = (some (now + wait), if wait == 0 then none else some (now + wait))

-- What one turn of the loop meets: whom the caller can pay for, the clocks, the rounds that the
-- acquisition waits, the attempt of a single candidate, or what happens in a race; `expired_at` is
-- the clock where the budget has run out.
pub record Turn : Type 0 where
  pub payable : List String
  pub clocks : Clocks
  pub later : List (Clocks × Pool)
  pub moment : Moment
  pub events : List Event
  pub expired_at : Instant

-- What a call comes to; `pending` where the schedule ends before the call does.
pub data Result : Type 0 where
  replied : LlmConfig → String → Option Usage → Result
  fails : CallError → Result
  raises : Exc → Result
  pending : Result

-- What a turn leaves: a result, or a call that goes on.
pub data After : Type 0 where
  ends_with : Result → World → After
  goes_on : RouteCall → World → After

abbrev pub all_done : List Lane → Bool
all_done lanes = all (λ lane. is_done lane.task) lanes

module _ (py : Parsers) (fl : FloatOps) (queue_deadline : Option ℕ) where
  unfoldable pub left_alone : Ended → LlmConfig → RouteCall → World → After
  left_alone (answered content usage) config call w = ends_with (replied config content usage) w
  left_alone (gave_up verdict) config call w = goes_on (absorb config verdict call) w
  left_alone (crashed x) config call w = ends_with (raises x) w
  left_alone (overflowed holds_slot) config call w = ends_with (raises overflow_error) w

  -- `_alone`.
  unfoldable pub alone : LlmConfig → Moment → RouteCall → World → After
  alone config m call w =
      let (e, after) = attempt py config call.limits (record m { superseded = false }) w in
      left_alone e config call after

  -- What a race that is over comes to.
  unfoldable pub race_result : Phase → RouteCall → World → After
  race_result (won config content usage) call w = ends_with (replied config content usage) w
  race_result (broke x) call w = ends_with (raises x) w
  race_result lost call w = goes_on call w
  race_result racing call w = ends_with pending w

  -- The call waits for every lane before it ends: the losers in `_settled`, the others in
  -- `_abandon`.
  unfoldable pub raced : List LlmConfig → List Event → RouteCall → World → After
  raced configs events call w =
      let r = run py fl (start py fl call configs w) events in
      if all_done r.lanes then race_result r.phase r.call r.world else ends_with pending r.world

  unfoldable pub dispatch : List LlmConfig → Turn → RouteCall → World → After
  dispatch (config ∷ []) turn call w = alone config turn.moment call w
  dispatch configs turn call w = raced configs turn.events call w

  unfoldable pub follow : Acquisition → Turn → World → After
  follow (refuses e) turn w = ends_with (fails e) w
  follow still_waiting turn w = ends_with pending w
  follow (acquired configs call pool) turn w = dispatch configs turn call (record w { pool = pool })

  -- One turn of the loop.
  unfoldable pub go_round : Turn → RouteCall → World → After
  go_round turn call w =
      follow (acquire fl w.opt none turn.payable queue_deadline call turn.clocks w.pool turn.later)
        turn w

  -- Every lane failed without an answer: the budget has run out, or the loop goes on.
  unfoldable pub next_turn :
      (rest : RouteCall → World → Result × World) → Turn → After → Result × World
  next_turn rest turn (ends_with result w) = (result, w)
  next_turn rest turn (goes_on call w) =
      if call.expired
      then (fails (expired_error turn.expired_at w.pool turn.payable call), w)
      else rest call w

  unfoldable pub route : List Turn → RouteCall → World → Result × World
  route [] call w = (pending, w)
  route (turn ∷ turns) call w =
      next_turn (λ call' w'. route turns call' w') turn (go_round turn call w)
