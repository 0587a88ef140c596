-- ===== src/Router/Race/Width.antt =====
-- A race never has more lanes running at once than it began with.
use llmbroker.Router.{overflowed}
use llmbroker.Base.{
  ℕ, zero, suc, ◌+◌, ◌-◌, ◌≤◌, ◌==◌, ◌≡◌, refl, ap, true, ◌&&◌, if◌then◌else◌, if_ind, Bool-cases,
  List, [], ◌∷◌, ◌++◌, arith, map, any, inl, inr, length, length-map, filter, String,
}
use llmbroker.Models.{LlmConfig}
use llmbroker.Http.Verdict.{Parsers}
use llmbroker.Optimizer.Floats.{FloatOps}
use llmbroker.Pool.Reserve.{reserve, candidates, chosen, Context}
use llmbroker.Pool.Reserve.Counts.{length-chosen-le}
use llmbroker.Pool.Acquire.{Clocks, take_free, Request, context}
use llmbroker.Router.{World, Ended, answered, gave_up, crashed, Limits}
use llmbroker.Router.Calls.{RouteCall}
use llmbroker.Router.Race.{
  Task, fresh, holding, settling, done, Standing, overtaken, abandoned, Lane, is_live, open_lane,
  Phase, racing, lost, won, broke, Race, collect_ended, collect_one, collect, refill,
  refill_request, conclude, proceed, wake, cancel, is_racing, has_settled, Move, move, move_at,
  set_standing, Event, moves, wakes, cancels, step, run, start,
}
use llmbroker.Router.Race.Slots.{move-Fits}

abbrev pub running : List Lane → ℕ
running lanes = length (filter is_live lanes)

collect_ended-live :
    (e : Ended) (lane : Lane) (call : RouteCall) (phase : Phase)
    → is_live (collect_ended e lane call phase).0 ≡ true
    → is_live lane ≡ true
unfolding collect_ended
collect_ended-live e lane call (broke x) h = h
collect_ended-live (gave_up verdict) lane call racing h = ground (arith, h)
collect_ended-live (gave_up verdict) lane call lost h = ground (arith, h)
collect_ended-live (gave_up verdict) lane call (won c t u) h = ground (arith, h)
collect_ended-live (crashed x) lane call racing h = ground (arith, h)
collect_ended-live (crashed x) lane call lost h = ground (arith, h)
collect_ended-live (crashed x) lane call (won c t u) h = ground (arith, h)
collect_ended-live (overflowed holds_slot) lane call racing h = ground (arith, h)
collect_ended-live (overflowed holds_slot) lane call lost h = ground (arith, h)
collect_ended-live (overflowed holds_slot) lane call (won c t u) h = ground (arith, h)
collect_ended-live (answered content usage) lane call racing h = ground (arith, h)
collect_ended-live (answered content usage) lane call lost h = ground (arith, h)
collect_ended-live (answered content usage) lane call (won c t u) h = ground (arith, h)

collect_one-live :
    (lane : Lane) (call : RouteCall) (phase : Phase)
    → is_live (collect_one lane call phase).0 ≡ true
    → is_live lane ≡ true
unfolding collect_one
collect_one-live lane call phase = of_task lane.task
  where
    of_task :
        (task : Task)
        → let lane' : Lane = record lane { task = task } in
          is_live (collect_one lane' call phase).0 ≡ true → is_live lane' ≡ true
    of_task fresh h = h
    of_task holding h = h
    of_task (settling e) h = h
    of_task (done e) h =
        let lane' : Lane = record lane { task = done e } in
        if_ind (λ (r : Lane × RouteCall × Phase). is_live r.0 ≡ true → is_live lane ≡ true)
          (is_live lane) (collect_ended-live e lane' call phase) (λ h. h) h

running-collect-le :
    (lanes : List Lane) (call : RouteCall) (phase : Phase)
    → running (collect lanes call phase).0 ≤ running lanes
unfolding collect
running-collect-le [] call phase = omega arith
running-collect-le (lane ∷ lanes) call phase =
    let (lane', call', phase') = collect_one lane call phase in
    let rest = running-collect-le lanes call' phase' in
    elim (Bool-cases (is_live lane')) [
      | inl b ↦ let own = collect_one-live lane call phase b in ground (arith, rest, own, b)
      | inr b ↦ ground (arith, rest, b)
    ]

running-set_standing-le :
    (standing : Standing) (lanes : List Lane)
    → running (map (set_standing standing) lanes) ≤ running lanes
running-set_standing-le standing [] = omega arith
running-set_standing-le standing (lane ∷ lanes) =
    let rest = running-set_standing-le standing lanes in
    elim (Bool-cases (is_live lane)) [
      | inl b ↦ ground (arith, rest, b)
      | inr b ↦ ground (arith, rest, b)
    ]

running-appended :
    (lanes : List Lane) (configs : List LlmConfig)
    → running (lanes ++ map open_lane configs) ≡ running lanes + length configs
running-appended [] [] = refl
running-appended [] (c ∷ configs) = omega (arith, running-appended [] configs)
running-appended (lane ∷ lanes) configs = ground (arith, running-appended lanes configs)

module _ (py : Parsers) (fl : FloatOps) where
  running-move_at :
      (limits : Limits) (n : ℕ) (m : Move) (lanes : List Lane) (w : World)
      → running (move_at py fl limits n m lanes w).0 ≡ running lanes
  unfolding move_at
  running-move_at limits n m [] w = refl
  running-move_at limits zero m (lane ∷ lanes) w =
      let same : is_live (move py fl limits m lane w).0 ≡ is_live lane =
        ap (λ standing. is_live (record lane { standing = standing }))
          (move-Fits py fl "" limits m lane w).same_standing in
      ground (arith, same)
  running-move_at limits (suc n) m (lane ∷ lanes) w =
      let rest = running-move_at limits n m lanes w in ground (arith, rest)

  -- The width that the race began with is kept, and is not passed.
  IsNarrow : ℕ → Race → Type 0
  IsNarrow limit r = (r.width ≡ limit) × (running r.lanes ≤ limit)

  refill-IsNarrow :
      (limit : ℕ) (payable : List String) (t : Clocks) (r : Race)
      → IsNarrow limit r
      → IsNarrow limit (refill py fl payable t r)
  unfolding IsNarrow refill take_free reserve
  refill-IsNarrow limit payable t r h =
      let needed = r.width - running r.lanes in
      let q : Request = record (refill_request r.lanes payable r.call) { width = needed } in
      let c : Context = record (context q t) { recovery_width = 1 } in
      let found = candidates q.boundary r.world.pool in
      let best = chosen fl r.world.opt r.world.pool c found in
      let short = length-chosen-le fl r.world.opt r.world.pool c found in
      let size = length-map (λ e. e.1.config) best in
      let grown = running-appended r.lanes (map (λ e. e.1.config) best) in
      elim (Bool-cases (needed == 0)) [
        | inl b ↦ rw b h
        | inr b ↦
            let some_needed : 1 ≤ needed = ground (arith, b) in
            rw b (h.0, omega (arith, short, size, grown, h.0, h.1, some_needed))
      ]

  proceed-IsNarrow :
      (limit : ℕ) (payable : List String) (t : Clocks) (world : World) (call : RouteCall)
      (width : ℕ) (lanes : List Lane) (phase : Phase)
      → (width ≡ limit) × (running lanes ≤ limit)
      → IsNarrow limit (
          proceed py fl payable t
            (record { world = world; call = call; width = width; lanes = lanes; phase = phase }))
  unfolding proceed conclude IsNarrow
  proceed-IsNarrow limit payable t world call width lanes racing h =
      let r : Race = record {
        world = world;
        call = call;
        width = width;
        lanes = lanes;
        phase = racing;
      } in
      let go = if call.expired then r else refill py fl payable t r in
      let narrow : IsNarrow limit go =
        if_ind (IsNarrow limit) call.expired h (refill-IsNarrow limit payable t r h) in
      if_ind (IsNarrow limit) (any is_live go.lanes) narrow narrow
  proceed-IsNarrow limit payable t world call width lanes lost h = h
  proceed-IsNarrow limit payable t world call width lanes (won c content u) h =
      (h.0, omega (arith, running-set_standing-le overtaken lanes, h.1))
  proceed-IsNarrow limit payable t world call width lanes (broke x) h =
      (h.0, omega (arith, running-set_standing-le abandoned lanes, h.1))

  step-IsNarrow :
      (limit : ℕ) (r : Race) (e : Event) → IsNarrow limit r → IsNarrow limit (step py fl r e)
  unfolding step wake cancel IsNarrow
  step-IsNarrow limit r (moves n m) h =
      (h.0, omega (arith, running-move_at r.call.limits n m r.lanes r.world, h.1))
  step-IsNarrow limit r (wakes payable t) h =
      let (lanes, call, phase) = collect r.lanes r.call r.phase in
      if_ind (IsNarrow limit) (is_racing py fl r.phase && has_settled py fl r.lanes)
        (proceed-IsNarrow limit payable t r.world call r.width lanes phase
          (h.0, omega (arith, running-collect-le r.lanes r.call r.phase, h.1)))
        h
  step-IsNarrow limit r cancels h =
      if_ind (IsNarrow limit) (is_racing py fl r.phase)
        (h.0, omega (arith, running-set_standing-le abandoned r.lanes, h.1)) h

  run-IsNarrow :
      (limit : ℕ) (r : Race) (es : List Event) → IsNarrow limit r → IsNarrow limit (run py fl r es)
  unfolding run
  run-IsNarrow limit r [] h = h
  run-IsNarrow limit r (e ∷ es) h =
      run-IsNarrow limit (step py fl r e) es (step-IsNarrow limit r e h)

  -- Whatever the order of events, a race never has more live lanes than the candidates that it
  -- began with.
  pub run-narrow :
      (call : RouteCall) (configs : List LlmConfig) (w : World) (es : List Event)
      → running (run py fl (start py fl call configs w) es).lanes ≤ length configs
  unfolding IsNarrow start
  run-narrow call configs w es =
      (run-IsNarrow (length configs) (start py fl call configs w) es
        (refl, omega (arith, running-appended [] configs))).1
