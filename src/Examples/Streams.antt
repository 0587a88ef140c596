-- ===== src/Examples/Streams.antt =====
-- The theorems on streamed calls, on example streams.
use llmbroker.Streaming.{take_chunk, progress_opened}
use llmbroker.Streaming.{settle_stream}
use llmbroker.Streaming.{stream_backed_off}
use llmbroker.Optimizer.{rl_fail_count}
use llmbroker.Router.{backoff_of}
use llmbroker.Base.{lookup}
use llmbroker.Base.{
  ℕ, ◌≡◌, ◌≢◌, ◌≤◌, refl, true, false, none, some, List, [], ◌∷◌, arith, All, mem, no_repeats,
  String, has_key,
}
use llmbroker.Http.Verdict.{timed_out}
use llmbroker.KeyRing.{new_ring, resolve_ref, read, own_ref, resolve_own, resolve}
use llmbroker.Router.{new_attempt, attempt_timeout}
use llmbroker.Base.Least.{least_from, better}
use llmbroker.Router.Calls.{still_waiting}
use llmbroker.Streaming.{
  new_outcome, StreamMoment, responds, ends, raises, stream_attempt, stream_keyed, stream_opened,
  settle_drained, settle_broke, broke_of, stream_deltas, take_chunks, new_receipt,
}
use llmbroker.Streaming.Promises.{Rates, stream_attempt-Rates, stream_attempt-answers}
use llmbroker.Streaming.Lanes.{StreamLane, StreamRace, new_lane, winner, winner_key, winner_lt}
use llmbroker.Streaming.Lanes.Winners.{IsBehind, winner-IsFirst}
use llmbroker.Streaming.Owner.{Owner, refill_free, absorb_finished}
use llmbroker.Streaming.Owner.Accounting.{held, wave_limit, refill_free-held}
use llmbroker.Streaming.Owner.Initial.{Reading, explicit_turn}
use llmbroker.Streaming.Owner.Initial.Conclusions.{Concludes, explicit_turn-Concludes}
use llmbroker.Streaming.Owner.Answers.{Round, answered_ids}
use llmbroker.Streaming.Owner.Answers.Once.{answered_ids-once}
use llmbroker.Examples.Samples.{
  parsers, world, moment, limits, alpha, beta, fleet, floats, learner, at_reading,
}

abbrev shown_seconds : ℕ → String
shown_seconds span = "2.0"

-- Two deltas, with nothing between, and then the end.
abbrev whole : StreamMoment
whole = record {
  moment = moment;
  transport =
      responds (record { status_code = 200; text = ""; retry_after = none })
        (("he", none) ∷ ("", none) ∷ ("llo", none) ∷ []) ends;
  stopped = false;
  completed_at = 2_000;
  exhausted_at = 2_000;
}

-- One that breaks after its first delta.
abbrev broken : StreamMoment
broken = record whole {
  transport =
      responds (record { status_code = 200; text = ""; retry_after = none }) (("he", none) ∷ [])
        (raises (timed_out "ReadTimeout"));
}

stream_attempt-Rates_example :
    let r = (stream_attempt parsers shown_seconds alpha limits whole new_outcome world).settled in
    Rates (new_attempt alpha limits moment) world r.outcome.receipt r.world
stream_attempt-Rates_example =
    stream_attempt-Rates parsers shown_seconds alpha limits whole new_outcome world refl refl

streamed-text :
    (stream_attempt parsers shown_seconds alpha limits whole new_outcome world).deltas
    ≡ "he" ∷ "llo" ∷ []
unfolding stream_attempt stream_keyed resolve resolve_own has_key new_ring read own_ref resolve_ref
    stream_opened stream_backed_off backoff_of rl_fail_count lookup attempt_timeout settle_drained
    stream_deltas take_chunks
streamed-text = refl

streamed-fault :
    (stream_attempt parsers shown_seconds alpha limits whole new_outcome world).settled.fault ≡ none
unfolding stream_attempt stream_keyed resolve resolve_own has_key new_ring read own_ref resolve_ref
    stream_opened stream_backed_off backoff_of rl_fail_count lookup attempt_timeout settle_drained
    stream_deltas settle_broke broke_of settle_stream progress_opened take_chunk take_chunks
streamed-fault = refl

some_text : (ds : List String) → ds ≡ "he" ∷ "llo" ∷ [] → ds ≢ []
some_text ds e h = cc

stream_attempt-answers_example :
    (stream_attempt parsers shown_seconds alpha limits whole new_outcome
      world).settled.outcome.answered
    ≡ true
stream_attempt-answers_example =
    stream_attempt-answers parsers shown_seconds alpha limits whole new_outcome world
      (some_text _ streamed-text) streamed-fault

-- Two lanes that were complete at one reading; the second is the one shown.
abbrev first_lane : StreamLane
first_lane = record (new_lane alpha 0 false 1) {
  deltas = "a" ∷ [];
  finished = true;
  outcome = record new_outcome {
    answered = true;
    completed_at = some 50;
    receipt = record new_receipt { llm_name = some "alpha"; call_id = some "c1"; settled = true };
  };
}

abbrev second_lane : StreamLane
second_lane = record first_lane {
  config = beta;
  opening_order = 1;
  outcome = record first_lane.outcome {
    receipt = record new_receipt { llm_name = some "beta"; call_id = some "c2"; settled = true };
  };
}

abbrev tied : StreamRace
tied = record {
  lanes = first_lane ∷ second_lane ∷ [];
  width = 2;
  deadline = 10;
  exposed = some 1;
  done = false;
}

winner-IsFirst_example : All (IsBehind (some 1) second_lane) tied.lanes
unfolding winner least_from better winner_key winner_lt
winner-IsFirst_example = winner-IsFirst tied second_lane refl

abbrev owner : Owner
owner = record {
  call = record {
    limits = limits;
    width = 2;
    recovery_width = 1;
    client_failed = [];
    attempted = [];
    last_client_error = none;
    expired = false;
  };
  race = tied;
  budget = record { deadline = none; paused_at = none };
  queue_deadline = none;
  eligible_names = "alpha" ∷ "beta" ∷ [];
  refresh_used = false;
  initial_complete = false;
  authoritative = none;
  delivered = [];
  terminal = false;
  opening_order = 2;
  waves = 1;
  wave_width = (1, 2) ∷ [];
  receipt = new_receipt;
}

abbrev reading : Reading
reading = record {
  now = 60;
  clocks = at_reading 60;
  payable = "KEY_A" ∷ "KEY_B" ∷ [];
  back = none;
  refreshed = none;
  names = [];
  acquisition = λ o. still_waiting;
}

explicit_turn-Concludes_example :
    Concludes
      (absorb_finished owner).race
      (explicit_turn floats (some learner) 1_000 reading owner fleet).0
explicit_turn-Concludes_example =
    explicit_turn-Concludes floats (some learner) 1_000 reading owner fleet

-- One of the two lanes has died, so that its wave lacks one.
abbrev short : Owner
short = record owner {
  race = record tied { lanes = first_lane ∷ record second_lane { outcome = new_outcome } ∷ [] };
}

refill_free-held_example :
    let o = record short { delivered = "c1" ∷ [] } in
    let o' =
      (refill_free floats (some learner) ("KEY_A" ∷ "KEY_B" ∷ []) (at_reading 60) o fleet).0 in
    (held o' ≤ wave_limit o) × (wave_limit o' ≡ wave_limit o)
refill_free-held_example =
    refill_free-held floats (some learner) ("KEY_A" ∷ "KEY_B" ∷ []) (at_reading 60)
      (record short { delivered = "c1" ∷ [] }) fleet (omega arith)

abbrev rounds : List Round
rounds =
    record { reading = reading; pool = fleet; lanes = tied.lanes }
    ∷ record { reading = reading; pool = fleet; lanes = tied.lanes }
    ∷ record { reading = reading; pool = fleet; lanes = tied.lanes }
    ∷ []

answered_ids-once_example :
    All (λ id. mem id [] ≡ false) (answered_ids floats (some learner) rounds owner)
    × (no_repeats (answered_ids floats (some learner) rounds owner) ≡ true)
answered_ids-once_example = answered_ids-once floats (some learner) rounds owner
