-- ===== src/Streaming/Owner/Initial.antt =====
-- src/llmbroker/broker/stream_owner.py: what a streamed call's initial answer comes to, one turn of
-- the loop at a time: `_acquire` with the waves that it opens, and `_explicit_initial`.
pub mod Conclusions
use llmbroker.Base.{
  ℕ, suc, ◌+◌, ◌-◌, String, Bool, true, false, not, ◌&&◌, ◌||◌, Option, none, some, List, [], ◌∷◌,
  ◌++◌, ◌==◌, if◌then◌else◌, leb, map, any_some, is_some, is_empty, drop,
}
use llmbroker.Models.{LlmConfig, Instant, Usage}
use llmbroker.Http.Verdict.{Exc, cancelled, ProviderError}
use llmbroker.Optimizer.{Optimizer}
use llmbroker.Optimizer.Floats.{FloatOps}
use llmbroker.Pool.{Pool}
use llmbroker.Pool.Acquire.{Clocks, NoLlmAvailable, Reason, timeout, excluded, retry_at}
use llmbroker.Router.Calls.{
  RouteCall, CallError, rejected, unavailable, Acquisition, acquired, refuses, still_waiting,
  is_excluded,
}
use llmbroker.Streaming.{Receipt, Fault, interrupted, answer_timed_out, reraised, generator_exit}
use llmbroker.Streaming.Lanes.{
  StreamLane, StreamRace, live, winner, select, show_next, name_lane, join,
}
use llmbroker.Streaming.Budget.{pause}
use llmbroker.Streaming.Owner.Faults.{
  StreamError, routed, lane_failed, crashed, reported, is_exception, failure_of, earlier_error,
  crash_error, fault_error, initial_fault,
}
use llmbroker.Streaming.Owner.{
  Owner, with_lanes, new_wave, open_lanes, absorb_finished, first_delta, refill_free,
  complete_initial, lane_at, unexpected_fault, resume_budget,
}

-- What one turn of the initial answer comes to.
pub data Turn : Type 0 where
  -- A delta for the reader.
  shows : String → Owner → Turn
  -- The loop goes on at once, or after it was woken.
  goes_on pauses : Owner → Turn
  -- The deltas not yet shown, and the end.
  completes : List String → Owner → Turn
  -- StreamReplacementError, with the lane that has won and the one whose text was shown.
  replaces : (won : StreamLane) (shown : ℕ) → Owner → Turn
  fails : StreamError → Owner → Turn

-- `_backend.acquire` in `_acquire`: with `again` the refresh has brought new models, once.
pub data Acquiring : Type 0 where
  obtained : List LlmConfig → Owner → Pool → Acquiring
  again : Owner → Acquiring
  declined : CallError → Acquiring
  waiting : Acquiring

abbrev pub is_unavailable : CallError → Bool
is_unavailable (unavailable e) = true
is_unavailable (rejected e) = false

-- `refreshed` is what `on_exhausted` answers, where there is one to ask.
unfoldable pub acquire_once : Bool → Option Bool → List String → Owner → Acquisition → Acquiring
acquire_once initial refreshed names o (acquired configs call p) =
    obtained configs (record o { call = call }) p
acquire_once initial refreshed names o (refuses e) =
    if is_unavailable e && initial && not o.refresh_used && any_some (λ b. b) refreshed
    then again (record o { refresh_used = true; eligible_names = o.eligible_names ++ names })
    else declined e
acquire_once initial refreshed names o still_waiting = waiting

-- `_ordinary_initial` and `_explicit_initial` open what they acquired as a new wave.
abbrev pub declined_error : Owner → Option Instant → CallError → StreamError
declined_error o back (unavailable e) = initial_fault o (reported e back)
declined_error o back (rejected e) = routed (rejected e)

unfoldable pub opened_wave : Bool → Option Instant → Owner → Pool → Acquiring → Turn × Pool
opened_wave hold_first back o p (obtained configs o' p') =
    (goes_on (open_lanes configs hold_first (new_wave configs o')), p')
opened_wave hold_first back o p (again o') = (goes_on o', p)
opened_wave hold_first back o p (declined e) = (fails (declined_error o back e) o, p)
opened_wave hold_first back o p waiting = (pauses o, p)

-- `_raise_expired`.
unfoldable pub expired_turn : Option Instant → Owner → Turn
expired_turn back o = fails (initial_fault o (record { reason = timeout; retry_at = back })) o

-- What one turn reads from outside: the clocks, whom the caller can pay for, when the pool is back,
-- what `on_exhausted` answers with the names that it brought, and what the pool's acquisition comes
-- to where the turn acquires.
pub record Reading : Type 0 where
  pub now : ℕ
  pub clocks : Clocks
  pub payable : List String
  pub back : Option Instant
  pub refreshed : Option Bool
  pub names : List String
  pub acquisition : Owner → Acquisition

-- `_acquire` of an initial answer: after a refresh it asks once more.
abbrev pub acquire_again : Reading → Acquiring → Acquiring
acquire_again r (again o) = acquire_once true r.refreshed r.names o (r.acquisition o)
acquire_again r got = got

unfoldable pub acquire_stream : Reading → Owner → Acquiring
acquire_stream r o = acquire_again r (acquire_once true r.refreshed r.names o (r.acquisition o))

abbrev pub expose : StreamLane → Owner → Owner
expose lane o = record o {
  race = record o.race { exposed = some lane.opening_order };
  receipt = name_lane lane o.receipt;
}

abbrev pub unshown : StreamLane → List String
unshown lane = drop lane.sent lane.deltas

-- The answer is complete: shown, or to replace what was shown.
unfoldable pub finish_explicit : StreamLane → Option ℕ → Owner → Turn
finish_explicit w none o = completes (unshown w) (complete_initial w (expose w o))
finish_explicit w (some order) o =
    if order == w.opening_order
    then completes (unshown w) (complete_initial w o)
    else replaces w order (complete_initial w o)

-- The deadline of a window that opens.
abbrev pub window_end : ℕ → Option ℕ → ℕ
window_end at none = at
window_end at (some answer_deadline) = if leb at answer_deadline then at else answer_deadline

abbrev pub set_window : ℕ → ℕ → Turn × Pool → Turn × Pool
set_window now window (goes_on o, p) = (
  goes_on (record o {
    race = record o.race { deadline = window_end (now + window) o.call.limits.answer_deadline };
  }),
  p,
)
set_window now window (t, p) = (t, p)

abbrev pub choose : Option StreamLane → Owner → Owner
choose none o = o
choose (some lane) o = expose lane o

abbrev pub shown_turn : Option (String × StreamLane) → Owner → Option Turn
shown_turn none o = none
shown_turn (some (delta, lane)) o = some (
    shows delta (
      with_lanes (map (λ l. if l.opening_order == lane.opening_order then lane else l) o.race.lanes)
        o))

abbrev pub next_shown : Option StreamLane → Owner → Option Turn
next_shown none o = none
next_shown (some lane) o = shown_turn (show_next lane) o

module _ (fl : FloatOps) (opt : Option Optimizer) where
  abbrev pub or_refill : Option Turn → Reading → Owner → Pool → Turn × Pool
  or_refill (some turn) r o p = (turn, p)
  or_refill none r o p = let (o', p') = refill_free fl opt r.payable r.clocks o p in (pauses o', p')

  -- Nothing is complete yet: open a wave where no lane is live, or show what there is.
  unfoldable pub explicit_open : ℕ → Reading → Owner → Pool → Turn × Pool
  explicit_open window r o p =
      let o' = if is_some o.race.exposed then o else choose (select r.now o.race) o in
      if is_empty (live o.race)
      then if o.call.expired
        then (expired_turn r.back o, p)
        else set_window r.now window (opened_wave false r.back o p (acquire_stream r o))
      else or_refill (next_shown (lane_at o'.race.exposed o'.race.lanes) o') r o' p

  abbrev pub after_winner : Option StreamLane → ℕ → Reading → Owner → Pool → Turn × Pool
  after_winner none window r o p = explicit_open window r o p
  after_winner (some w) window r o p =
      if w.finished then (finish_explicit w o.race.exposed o, p) else explicit_open window r o p

  -- One turn of `_explicit_initial`.
  unfoldable pub explicit_turn : ℕ → Reading → Owner → Pool → Turn × Pool
  explicit_turn window r o p =
      let o' = absorb_finished o in after_winner (winner o'.race) window r o' p
