-- ===== src/Router/Race.antt =====
-- src/llmbroker/broker/router.py: `_race`, with `_untried`, `_refill`, `_supersede`, `_abandon`,
-- `_cancel` and `_stop`, and `Lane` of src/llmbroker/broker/route_state.py. The event loop's order
-- of things is a list of events: what a lane's task does next, and the driver waking up.
pub mod Pools
pub mod Collecting
pub mod Slots
pub mod Balance
pub mod Field
pub mod Outcomes
pub mod Progress
pub mod Width
use llmbroker.Router.{overflowed, overflow_error}
use llmbroker.Base.{
  ℕ, zero, suc, ◌-◌, ◌==◌, String, Bool, true, false, not, ◌&&◌, Option, none, some, List, [], ◌∷◌,
  ◌++◌, map, if◌then◌else◌, any, filter, length, is_empty,
}
use llmbroker.Models.{LlmConfig, Usage}
use llmbroker.Http.Verdict.{Parsers, Exc, cancelled, failed}
use llmbroker.Optimizer.Floats.{FloatOps}
use llmbroker.Pool
use llmbroker.Pool.Acquire.{Clocks, Request, take_free}
use llmbroker.KeyRing.{Secrets, resolve}
use llmbroker.Router.{
  World, Attempt, Moment, Limits, Ended, answered, gave_up, crashed, opened, new_attempt, on_pool,
}
use llmbroker.Router.Calls.{RouteCall, absorb}

-- A lane's task: not begun, holding its slot, settling (its verdict is applied, its row written), or
-- done.
pub data Task : Type 0 where
  fresh holding : Task
  settling done : Ended → Task

-- Live in the race, behind a lane that answered, cancelled because the race broke off, or taken out
-- of the race by the driver.
pub data Standing : Type 0 where
  live overtaken abandoned handled : Standing

pub record Lane : Type 0 where
  pub config : LlmConfig
  pub task : Task
  pub standing : Standing

abbrev pub open_lane : LlmConfig → Lane
open_lane config = record { config = config; task = fresh; standing = live }

abbrev pub is_live : Lane → Bool
is_live lane = elim lane.standing [
  | live ↦ true
  | overtaken ↦ false
  | abandoned ↦ false
  | handled ↦ false
]

abbrev pub is_overtaken : Standing → Bool
is_overtaken overtaken = true
is_overtaken _ = false

abbrev pub is_done : Task → Bool
is_done (done e) = true
is_done _ = false

pub data Phase : Type 0 where
  racing lost : Phase
  won : LlmConfig → String → Option Usage → Phase
  broke : Exc → Phase

pub record Race : Type 0 where
  pub world : World
  pub call : RouteCall
  pub width : ℕ
  pub lanes : List Lane
  pub phase : Phase

-- What a task may do next: begin and resolve its key, come to the settlement of its attempt, finish
-- settling, or be cancelled before it held its slot.
pub data Move : Type 0 where
  begins : Secrets → Move
  settles : Moment → Move
  ends cuts_short : Move

pub data Event : Type 0 where
  moves : ℕ → Move → Event
  -- `asyncio.wait` returns: whom the caller can pay for, and the clocks, are read for a refill.
  wakes : (payable : List String) → Clocks → Event
  -- The caller's own task is cancelled.
  cancels : Event

abbrev pub set_standing : Standing → Lane → Lane
set_standing standing lane = if is_live lane then record lane { standing = standing } else lane

-- One settled lane, as the driver's loop finds it.
unfoldable pub collect_ended : Ended → Lane → RouteCall → Phase → Lane × RouteCall × Phase
collect_ended e lane call (broke x) = (lane, call, broke x)
collect_ended (gave_up verdict) lane call phase =
    (record lane { standing = handled }, absorb lane.config verdict call, phase)
collect_ended (crashed x) lane call phase = (record lane { standing = handled }, call, broke x)
collect_ended (overflowed holds_slot) lane call phase =
    (record lane { standing = handled }, call, broke overflow_error)
collect_ended (answered content usage) lane call (won c text' u) =
    (record lane { standing = overtaken }, call, won c text' u)
collect_ended (answered content usage) lane call phase =
    (record lane { standing = handled }, call, won lane.config content usage)

unfoldable pub collect_one : Lane → RouteCall → Phase → Lane × RouteCall × Phase
collect_one lane call phase = elim lane.task [
  | fresh ↦ (lane, call, phase)
  | holding ↦ (lane, call, phase)
  | settling e ↦ (lane, call, phase)
  | done e ↦ if is_live lane then collect_ended e lane call phase else (lane, call, phase)
]

-- The driver's loop over the lanes that have settled.
unfoldable pub collect : List Lane → RouteCall → Phase → List Lane × RouteCall × Phase
collect [] call phase = ([], call, phase)
collect (lane ∷ lanes) call phase =
    let (lane', call', phase') = collect_one lane call phase in
    let (lanes', call'', phase'') = collect lanes call' phase' in (lane' ∷ lanes', call'', phase'')

-- `_untried`'s acquisition, for a refill.
abbrev pub refill_request : List Lane → List String → RouteCall → Request
refill_request lanes payable call = record {
  boundary = record {
    payable = payable;
    exclude = map (λ lane. lane.config.name) lanes ++ call.client_failed;
    eligible_names = none;
  };
  width = 0;
  recovery_width = 1;
  operation = call.limits.operation;
  queue_deadline = none;
  answer_deadline = call.limits.answer_deadline;
}

module _ (py : Parsers) (fl : FloatOps) where
  -- `_new_attempt`, with the key that it resolved.
  unfoldable pub begun : Option String → Lane → World → Lane × World
  begun none lane w = (
    record lane { task = done (gave_up (some (failed none))) },
    on_pool (Pool.release lane.config) w,
  )
  begun (some key) lane w = (record lane { task = holding }, w)

  unfoldable pub settled : Limits → Moment → Lane → World → Lane × World
  settled limits m lane w =
      let (e, after) =
        opened py (new_attempt lane.config limits m) limits
          (record m { superseded = is_overtaken lane.standing }) w in
      (record lane { task = settling e }, after)

  -- One move of a lane; a move that its task cannot make is none. A lane that is cancelled before it
  -- holds its slot ran no code, and `_stop` hands the slot back.
  unfoldable pub move : Limits → Move → Lane → World → Lane × World
  move limits (begins secrets) lane w = elim lane.task [
    | fresh ↦
        if is_live lane
        then (let (key, rings) = resolve secrets w.rings lane.config.api_key_ref in
            begun key lane (record w { rings = rings }))
        else (lane, w)
    | holding ↦ (lane, w)
    | settling e ↦ (lane, w)
    | done e ↦ (lane, w)
  ]
  move limits (settles m) lane w = elim lane.task [
    | fresh ↦ (lane, w)
    | holding ↦ settled limits m lane w
    | settling e ↦ (lane, w)
    | done e ↦ (lane, w)
  ]
  move limits ends lane w = elim lane.task [
    | fresh ↦ (lane, w)
    | holding ↦ (lane, w)
    | settling e ↦ (record lane { task = done e }, w)
    | done e ↦ (lane, w)
  ]
  move limits cuts_short lane w = elim lane.task [
    | fresh ↦ if is_live lane then (lane, w) else (
      record lane { task = done (crashed (cancelled "CancelledError")) },
      on_pool (Pool.release lane.config) w,
    )
    | holding ↦ (lane, w)
    | settling e ↦ (lane, w)
    | done e ↦ (lane, w)
  ]

  unfoldable pub move_at : Limits → ℕ → Move → List Lane → World → List Lane × World
  move_at limits n m [] w = ([], w)
  move_at limits zero m (lane ∷ lanes) w =
      let (lane', w') = move limits m lane w in (lane' ∷ lanes, w')
  move_at limits (suc n) m (lane ∷ lanes) w =
      let (lanes', w') = move_at limits n m lanes w in (lane ∷ lanes', w')

  -- `_refill`.
  unfoldable pub refill : List String → Clocks → Race → Race
  refill payable t r =
      let needed = r.width - length (filter is_live r.lanes) in
      let (configs, pool) =
        take_free fl r.world.opt (record (refill_request r.lanes payable r.call) { width = needed })
          true t r.world.pool in
      if needed == 0 then r else record r {
        world = record r.world { pool = pool };
        lanes = r.lanes ++ map open_lane configs;
      }

  -- What the driver does once the batch is collected.
  unfoldable pub conclude : Race → Race
  conclude r = if any is_live r.lanes then r else record r { phase = lost }

  unfoldable pub proceed : List String → Clocks → Race → Race
  proceed payable t r = elim r.phase [
    | racing ↦ conclude (if r.call.expired then r else refill payable t r)
    | lost ↦ r
    | won c content u ↦ record r { lanes = map (set_standing overtaken) r.lanes }
    | broke x ↦ record r { lanes = map (set_standing abandoned) r.lanes }
  ]

  abbrev pub is_racing : Phase → Bool
  is_racing racing = true
  is_racing _ = false

  abbrev pub has_settled : List Lane → Bool
  has_settled lanes = any (λ lane. is_live lane && is_done lane.task) lanes

  unfoldable pub wake : List String → Clocks → Race → Race
  wake payable t r =
      let (lanes, call, phase) = collect r.lanes r.call r.phase in
      if is_racing r.phase && has_settled r.lanes
      then proceed payable t (record r { lanes = lanes; call = call; phase = phase })
      else r

  unfoldable pub cancel : Race → Race
  cancel r =
      if is_racing r.phase
      then record r {
        phase = broke (cancelled "CancelledError");
        lanes = map (set_standing abandoned) r.lanes;
      }
      else r

  unfoldable pub step : Race → Event → Race
  step r (moves n m) =
      let (lanes, w) = move_at r.call.limits n m r.lanes r.world in
      record r { lanes = lanes; world = w }
  step r (wakes payable t) = wake payable t r
  step r cancels = cancel r

  unfoldable pub run : Race → List Event → Race
  run r [] = r
  run r (e ∷ es) = run (step r e) es

  -- A race over the candidates that the call has acquired.
  unfoldable pub start : RouteCall → List LlmConfig → World → Race
  start call configs w = record {
    world = w;
    call = call;
    width = length configs;
    lanes = map open_lane configs;
    phase = if is_empty configs then lost else racing;
  }
