-- ===== src/Examples/Races.antt =====
-- The theorems on races and routed calls, on the example pools.
use llmbroker.Router.{delay_of}
use llmbroker.Router.{cooled_by}
use llmbroker.Base.{String}
use llmbroker.Router.{handed_back, journaled, backed_off}
use llmbroker.Base.{shift, is_some, ◌||◌, false}
use llmbroker.Optimizer
use llmbroker.Optimizer.Windows.{window_of, bucket_eq}
use llmbroker.Http.{is_rate_limit, is_auth_failure}
use llmbroker.Base.{has_key}
use llmbroker.KeyRing.{new_ring}
use llmbroker.Pool.Reserve.{
  candidates, is_candidate, cover, reserved, take_slots, covered, before, ranked, chosen, reserve,
}
use llmbroker.Pool.Acquire.{refused, acquire_round, acquire_many, take_free}
use llmbroker.Pool.Slots.{is_free}
use llmbroker.Pool.Ranking.{over_budget, rank_lt, is_demoted, priority, rank}
use llmbroker.KeyRing.{resolve, resolve_ref, resolve_own, read, own_ref}
use llmbroker.Http.Verdict.{classify, classify_status, is_failover}
use llmbroker.Optimizer.{on_success, on_rate_limited, rl_fail_count}
use llmbroker.Router.Route.{
  left_alone, alone, race_result, raced, dispatch, follow, go_round, next_turn, Turn, route,
}
use llmbroker.Router.Race.{
  step, cancel, proceed, conclude, refill, move_at, move, settled, begun, collect_one,
  collect_ended, Race, Event, moves, wakes, begins, settles, Move, run, start, Lane, open_lane,
  done, racing, wake, collect,
}
use llmbroker.Router.Calls.{
  acquisition, note_attempted, refusal, absorb, RouteCall, new_call, acquire, acquired,
  excluded_names,
}
use llmbroker.Router.{
  attempt, with_key, opened, settle, settle_crash, crash_row, spent_budget, settle_superseded,
  dispose, bound_budget, drop_key, finish_ok, backoff_of, attempt_timeout, capped_wait, record_row,
  call_of, log_call, observe, gave_up, answered,
}
use llmbroker.Base.{
  ◌≡◌, ◌≤◌, refl, true, false, not, ◌&&◌, none, List, [], ◌∷◌, all, mem, all_some, lookup, insert,
  update,
}
use llmbroker.Base.Sorting.{sorted, place}
use llmbroker.Router.Race.Balance.{race_on}
use llmbroker.Router.Race.Field.{entered, race-distinct}
use llmbroker.Router.Race.Outcomes.{collect-decided, decided, first_crash, first_answer}
use llmbroker.Router.Race.Progress.{Moves, wake-Moves}
use llmbroker.Router.Route.Conserves.{is_pending}
use llmbroker.Router.Route.Excludes.{acquire-within}
use llmbroker.Examples.Samples.{
  floats, parsers, vault, world, moment, answering, limits, alpha, beta, fleet, fleet-IsValid,
  at_reading, single, everyone,
}
use llmbroker.Pool
use llmbroker.Pool.{Pool}
use llmbroker.Pool.Slots.{new_slot}

-- A call that races two models.
abbrev pair : RouteCall
pair = record {
  limits = limits;
  width = 2;
  recovery_width = 2;
  client_failed = [];
  attempted = [];
  last_client_error = none;
  expired = false;
}

-- The first lane is throttled, and then the second answers.
abbrev events : List Event
events =
    moves 0 (begins vault)
    ∷ moves 1 (begins vault)
    ∷ moves 0 (settles moment)
    ∷ moves 0 Move.ends
    ∷ wakes ("KEY_A" ∷ "KEY_B" ∷ []) (at_reading 110)
    ∷ moves 1 (settles answering)
    ∷ moves 1 Move.ends
    ∷ wakes ("KEY_A" ∷ "KEY_B" ∷ []) (at_reading 120)
    ∷ []

abbrev turn : Turn
turn = record {
  payable = "KEY_A" ∷ "KEY_B" ∷ [];
  clocks = at_reading 100;
  later = [];
  moment = answering;
  events = events;
  expired_at = 200;
}

-- A call of one model at a time.
abbrev single_call : RouteCall
single_call = record pair { width = 1 }

race_is_over : is_pending (route parsers floats none (turn ∷ []) single_call world).0 ≡ false
unfolding lookup insert update sorted place observe log_call call_of record_row capped_wait
    attempt_timeout backoff_of finish_ok drop_key bound_budget dispose delay_of cooled_by
    handed_back journaled backed_off shift settle_superseded spent_budget crash_row settle_crash
    settle opened with_key attempt new_call absorb refusal excluded_names note_attempted acquisition
    acquire collect_ended collect_one collect begun settled move move_at refill conclude proceed
    wake cancel step run start route next_turn go_round follow dispatch raced race_result alone
    left_alone candidates is_candidate cover reserved take_slots covered before ranked chosen
    reserve refused acquire_round acquire_many take_free is_free over_budget rank_lt is_demoted
    priority rank resolve resolve_ref resolve_own read own_ref classify classify_status is_failover
    Optimizer.is_demoted window_of bucket_eq Optimizer.wilson_upper Optimizer.mean
    Optimizer.sum_from Optimizer.z_score Optimizer.quality_score Optimizer.strength has_key new_ring
    is_rate_limit is_auth_failure Pool.release Pool.cool_down Pool.clear_cooling
    Pool.clear_budget_bound on_success on_rate_limited rl_fail_count
race_is_over = refl

race-distinct_example :
    entered "alpha"
      (run parsers floats (race_on parsers floats pair single everyone world) events).lanes
    ≤ 1
race-distinct_example =
    race-distinct parsers floats pair single everyone world events fleet-IsValid "alpha"

abbrev spent_lane : Lane
spent_lane = record (open_lane alpha) { task = done (gave_up none) }

abbrev answered_lane : Lane
answered_lane = record (open_lane beta) { task = done (answered "hello" none) }

abbrev stalled : Race
stalled = record { world = world; call = pair; width = 1; lanes = spent_lane ∷ []; phase = racing }

wake-Moves_example :
    Moves parsers floats 1 (wake parsers floats ("KEY_A" ∷ []) (at_reading 100) stalled)
wake-Moves_example =
    wake-Moves parsers floats ("KEY_A" ∷ []) (at_reading 100) stalled refl refl refl

collect-decided_example :
    (collect (spent_lane ∷ answered_lane ∷ []) pair racing).2
    ≡ decided
        (first_crash (spent_lane ∷ answered_lane ∷ []))
        (first_answer (spent_lane ∷ answered_lane ∷ []))
        racing
collect-decided_example = collect-decided (spent_lane ∷ answered_lane ∷ []) pair racing

-- The pool once a call that can pay for one of its two models has been handed it.
abbrev taken_alpha : Pool
taken_alpha = record fleet {
  slots = ("alpha", record (new_slot alpha 0) { in_flight = 1 }) ∷ ("beta", new_slot beta 1) ∷ [];
}

alpha_is_acquired :
    acquire floats none none ("KEY_A" ∷ []) none pair (at_reading 100) fleet []
    ≡ acquired (alpha ∷ []) pair taken_alpha
unfolding lookup update sorted place excluded_names note_attempted acquisition acquire candidates
    is_candidate cover reserved take_slots covered before ranked chosen reserve acquire_round
    acquire_many is_free over_budget rank_lt is_demoted priority rank
alpha_is_acquired = refl

acquire-within_example :
    all
      (λ c.
        all_some (mem c.name) none
        && (mem c.api_key_ref ("KEY_A" ∷ [])
            && (not (mem c.name pair.client_failed)
                && (not (is_some {A = List String} none) || not (mem c.name pair.attempted)))))
      (alpha ∷ [])
    ≡ true
acquire-within_example =
    acquire-within floats none none ("KEY_A" ∷ []) none pair (at_reading 100) fleet [] (alpha ∷ [])
      pair taken_alpha alpha_is_acquired
