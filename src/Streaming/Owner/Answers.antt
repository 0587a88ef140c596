-- ===== src/Streaming/Owner/Answers.antt =====
-- src/llmbroker/broker/stream_owner.py: `another` and `_next_answer`, the further complete answers of
-- a streamed call, one turn of the loop at a time.
pub mod Once
use llmbroker.Base.{
  ℕ, String, Bool, true, false, not, ◌&&◌, ◌||◌, Option, none, some, List, [], ◌∷◌, if◌then◌else◌,
  leb, any_some, is_some, is_empty,
}
use llmbroker.Http.Verdict.{Exc, ProviderError}
use llmbroker.Optimizer.{Optimizer}
use llmbroker.Optimizer.Floats.{FloatOps}
use llmbroker.Pool.{Pool}
use llmbroker.Router.Calls.{rejected, unavailable, Acquisition, acquired, refuses, still_waiting}
use llmbroker.Streaming.Lanes.{StreamLane, live}
use llmbroker.Streaming.Owner.{
  Owner, with_lanes, new_wave, open_lanes, absorb_finished, buffered_lane, refill_free, deliver,
  unexpected_fault,
}
use llmbroker.Streaming.Owner.Faults.{StreamError, routed, crashed}
use llmbroker.Streaming.Owner.Initial.{
  Reading, Acquiring, obtained, again, declined, waiting, acquire_once,
}

-- What one turn comes to: an answer, another turn at once or after it was woken, an error, or the
-- end of the answers, which `another` reports from then on.
pub data Answer : Type 0 where
  answers : StreamLane → Owner → Answer
  goes_on pauses ends : Owner → Answer
  raises : StreamError → Owner → Answer

-- Nothing more comes: the provider's rejection of the request, a bug, or the end.
unfoldable pub give_up : Owner → Option ProviderError → Option Exc → Answer
give_up o (some e) crash = raises (routed (rejected e)) o
give_up o none (some e) = raises (crashed e) o
give_up o none none = ends (record o { terminal = true })

abbrev pub no_more : Owner → Answer
no_more o = give_up o o.call.last_client_error (unexpected_fault o)

unfoldable pub opened_further : Owner → Pool → Acquiring → Answer × Pool
opened_further o p (obtained configs o' p') =
    (goes_on (open_lanes configs false (new_wave configs o')), p')
opened_further o p (again o') = (goes_on o', p)
opened_further o p (declined (unavailable e)) = (no_more o, p)
opened_further o p (declined (rejected e)) = (raises (routed (rejected e)) o, p)
opened_further o p waiting = (pauses o, p)

abbrev pub take_answer : StreamLane → Owner → Answer
take_answer lane o =
    answers lane (record o { delivered = deliver lane.outcome.receipt.call_id o.delivered })

abbrev pub owner_of : Answer → Owner
owner_of (answers lane o) = o
owner_of (goes_on o) = o
owner_of (pauses o) = o
owner_of (ends o) = o
owner_of (raises e o) = o

abbrev pub stops : Answer → Bool
stops (ends o) = true
stops (raises e o) = true
stops _ = false

abbrev pub answer_id : Answer → Option String
answer_id (answers lane o) = lane.outcome.receipt.call_id
answer_id _ = none

-- What a turn finds: the reading, the pool, and the lanes as their tasks have left them.
pub record Round : Type 0 where
  pub reading : Reading
  pub pool : Pool
  pub lanes : List StreamLane

abbrev pub id_before : Option String → List String → List String
id_before none ids = ids
id_before (some id) ids = id ∷ ids

module _ (fl : FloatOps) (opt : Option Optimizer) where
  abbrev pub out_of_time : ℕ → Owner → Bool
  out_of_time now o = o.call.expired || any_some (λ at. leb at now) o.budget.deadline

  -- After the refill.
  unfoldable pub after_refill : Reading → Owner → Pool → Answer × Pool
  after_refill r o p =
      if is_some (buffered_lane o)
      then (goes_on o, p)
      else if not (is_empty (live o.race))
      then (pauses o, p)
      else if out_of_time r.now o
      then (no_more o, p)
      else opened_further o p (acquire_once false r.refreshed r.names o (r.acquisition o))

  unfoldable pub take_or_refill : Option StreamLane → Reading → Owner → Pool → Answer × Pool
  take_or_refill (some lane) r o p = (take_answer lane o, p)
  take_or_refill none r o p =
      let (o', p') = refill_free fl opt r.payable r.clocks o p in after_refill r o' p'

  -- One turn of `_next_answer`.
  unfoldable pub next_turn : Reading → Owner → Pool → Answer × Pool
  next_turn r o p = let o' = absorb_finished o in take_or_refill (buffered_lane o') r o' p

  -- The call ids of the answers over a schedule of turns, until an error or the end.
  unfoldable pub answered_ids : List Round → Owner → List String
  answered_ids [] o = []
  answered_ids (r ∷ rounds) o =
      let a = (next_turn r.reading (with_lanes r.lanes o) r.pool).0 in
      let rest = answered_ids rounds (owner_of a) in
      if stops a then [] else id_before (answer_id a) rest
