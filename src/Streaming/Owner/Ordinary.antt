-- ===== src/Streaming/Owner/Ordinary.antt =====
-- src/llmbroker/broker/stream_owner.py: `_ordinary_initial` with `_yield_visible`, one turn of the
-- loop at a time: the first lane whose text begins is the answer.
use llmbroker.Base.{
  ℕ, true, ◌||◌, Option, none, some, List, [], ◌==◌, if◌then◌else◌, map, is_some, is_empty,
}
use llmbroker.Optimizer.{Optimizer}
use llmbroker.Optimizer.Floats.{FloatOps}
use llmbroker.Pool.{Pool}
use llmbroker.Pool.Acquire.{NoLlmAvailable, excluded}
use llmbroker.Streaming.{Fault}
use llmbroker.Streaming.Lanes.{StreamLane, live, show_next}
use llmbroker.Streaming.Budget.{pause}
use llmbroker.Streaming.Owner.{
  Owner, with_lanes, absorb_finished, first_delta, refill_free, complete_initial, lane_at,
  resume_budget,
}
use llmbroker.Streaming.Owner.Faults.{lane_failed, initial_fault}
use llmbroker.Streaming.Owner.Initial.{
  Turn, shows, goes_on, pauses, completes, fails, acquire_stream, opened_wave, expired_turn,
  Reading, expose, next_shown, or_refill,
}

module _ (fl : FloatOps) (opt : Option Optimizer) where
  -- One turn of `_ordinary_initial`, until a lane's text has begun; then that lane is the answer.
  abbrev pub release_all : List StreamLane → List StreamLane
  release_all lanes = map {A = StreamLane} (λ lane. record lane { release_first = true }) lanes

  abbrev pub drive : ℕ → List StreamLane → List StreamLane
  drive order lanes =
      map {A = StreamLane}
        (λ lane. record lane {
          consumer_driven = lane.consumer_driven || lane.opening_order == order;
        })
        lanes

  unfoldable pub choose_first : Option StreamLane → Owner → Turn
  choose_first none o = if is_empty (live o.race) then goes_on o else pauses o
  choose_first (some lane) o =
      let o' = expose lane (record o { authoritative = some lane.opening_order }) in
      goes_on (with_lanes (release_all (drive lane.opening_order o'.race.lanes)) o')

  abbrev pub chosen_after : Turn × Pool → Turn × Pool
  chosen_after (goes_on o, p) = (choose_first (first_delta o) o, p)
  chosen_after (t, p) = (t, p)

  unfoldable pub ordinary_search : Reading → Owner → Pool → Turn × Pool
  ordinary_search r o p =
      let o' = absorb_finished o in
      let (o'', p') =
        if is_empty o'.race.lanes then (o', p) else refill_free fl opt r.payable r.clocks o' p in
      if is_empty (live o''.race)
      then if o''.call.expired
        then (expired_turn r.back o'', p')
        else chosen_after (opened_wave true r.back o'' p' (acquire_stream r o''))
      else (choose_first (first_delta o'') o'', p')

  -- `_yield_visible` on the chosen lane, and what follows its last delta.
  abbrev pub no_answer : NoLlmAvailable
  no_answer = record { reason = excluded; retry_at = none }

  abbrev pub ended_visible : Option Fault → StreamLane → Owner → Turn
  ended_visible (some fault) lane o = fails (lane_failed fault) o
  ended_visible none lane o =
      if lane.outcome.answered
      then completes [] (complete_initial lane o)
      else fails (initial_fault o no_answer) o

  -- The field is refilled before each delta, while the budget stands still.
  abbrev pub refill_shown : Reading → Pool → Turn → Turn × Pool
  refill_shown r p (shows delta o) =
      let (o', p') = refill_free fl opt r.payable r.clocks o p in (shows delta o', p')
  refill_shown r p t = (t, p)

  abbrev pub visible_or : Option Turn → Reading → StreamLane → Owner → Pool → Turn × Pool
  visible_or (some turn) r lane o p = refill_shown r p turn
  visible_or none r lane o p =
      if lane.finished then (ended_visible lane.failure lane o, p) else or_refill fl opt none r o p

  unfoldable pub visible_turn : Reading → StreamLane → Owner → Pool → Turn × Pool
  visible_turn r lane o p =
      visible_or
        (if is_some (show_next lane)
          then next_shown (some lane) (record o { budget = pause r.now o.budget })
          else none)
        r lane o p

  -- The reader asks for the next delta: the budget runs again, and the lane is pulled.
  unfoldable pub reader_back : ℕ → ℕ → Owner → Owner
  reader_back now order o =
      with_lanes
        (map {A = StreamLane}
          (λ lane. record lane { pulled = lane.pulled || lane.opening_order == order })
          o.race.lanes)
        (resume_budget now o)

  abbrev pub ordinary_chosen : Option StreamLane → Reading → Owner → Pool → Turn × Pool
  ordinary_chosen none r o p = ordinary_search r o p
  ordinary_chosen (some lane) r o p = visible_turn r lane o p

  unfoldable pub ordinary_turn : Reading → Owner → Pool → Turn × Pool
  ordinary_turn r o p = ordinary_chosen (lane_at o.authoritative o.race.lanes) r o p
