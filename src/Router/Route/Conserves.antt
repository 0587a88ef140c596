-- ===== src/Router/Route/Conserves.antt =====
-- A routed call hands back every slot that it was handed.
use llmbroker.Router.Calls.{Acquisition, acquired}
use llmbroker.Router.{still_holds}
use llmbroker.Base.{any, not, ◌&&◌, ◌||◌}
use text.Mathlib.Text.{◌==◌ as str_eq}
use llmbroker.Base.{ℕ, String, ◌≡◌, Bool, true, false, Option, none, List, [], ◌∷◌, map}
use llmbroker.Models.{LlmConfig}
use llmbroker.Http.Verdict.{Parsers}
use llmbroker.Optimizer.Floats.{FloatOps}
use llmbroker.Pool.{Pool}
use llmbroker.Pool.Invariant.{IsValid}
use llmbroker.Pool.Acquire.{Acquired, taken}
use llmbroker.Router.{World, attempt}
use llmbroker.Router.Calls.{RouteCall, acquire}
use llmbroker.Router.Race.{Task, settling, done, open_lane, start, run}
use llmbroker.Router.Race.Pools.{flights}
use llmbroker.Router.Race.Slots.{Balanced}
use llmbroker.Router.Route.{Turn, Result, pending, After, ends_with, goes_on, go_round}

-- A task that has settled with its slot in flight.
abbrev pub leaves_held : Task → Bool
leaves_held (settling e) = still_holds e
leaves_held (done e) = still_holds e
leaves_held _ = false

abbrev pub is_pending : Result → Bool
is_pending pending = true
is_pending _ = false

-- Whether an attempt of the call ended in an OverflowError with its slot in flight, in the turns that
-- the call takes.
module _ (py : Parsers) (fl : FloatOps) (queue_deadline : Option ℕ) where
  abbrev pub dispatch_leaks : List LlmConfig → Turn → RouteCall → World → Bool
  dispatch_leaks (config ∷ []) turn call w =
      still_holds (attempt py config call.limits (record turn.moment { superseded = false }) w).0
  dispatch_leaks configs turn call w =
      any (λ lane. leaves_held lane.task) (run py fl (start py fl call configs w) turn.events).lanes

  abbrev pub follow_leaks : Acquisition → Turn → World → Bool
  follow_leaks (acquired configs call pool) turn w =
      dispatch_leaks configs turn call (record w { pool = pool })
  follow_leaks _ turn w = false

  abbrev pub round_leaks : Turn → RouteCall → World → Bool
  round_leaks turn call w =
      follow_leaks
        (acquire fl w.opt none turn.payable queue_deadline call turn.clocks w.pool turn.later) turn
        w

  abbrev pub next_leaks : (rest : RouteCall → World → Bool) → After → Bool
  next_leaks rest (ends_with result w) = false
  next_leaks rest (goes_on call w) = not call.expired && rest call w

  abbrev pub leaks : List Turn → RouteCall → World → Bool
  leaks [] call w = false
  leaks (turn ∷ turns) call w =
      round_leaks turn call w
      || next_leaks (λ call' w'. leaks turns call' w') (go_round py fl queue_deadline turn call w)

module _ (py : Parsers) (fl : FloatOps) (queue_deadline : Option ℕ) (k : String) (base : ℕ) where
  -- The pool is as the call found it, and valid.
  abbrev Level : World → Type 0
  Level w = (flights k w.pool.slots ≡ base) × IsValid w.pool

  -- What a turn leaves is level, unless the schedule ended in its midst.
  IsLevel : After → Type 0
  IsLevel (ends_with result w) = is_pending result ≡ false → Level w
  IsLevel (goes_on call w) = Level w

  -- A world in which these candidates hold the slots that they were handed.
  abbrev Handed : List LlmConfig → World → Type 0
  Handed configs w = Balanced py fl k base (map open_lane configs) w

  -- What a round of the acquisition hands out is held.
  Hands : World → Acquired → Type 0
  Hands w (taken configs p) = Handed configs (record w { pool = p })
  Hands w _ = Unit {0}

  -- What a call has come to is level, where it has come to anything.
  Lands : Result × World → Type 0
  Lands r = is_pending r.0 ≡ false → Level r.1
