-- ===== src/Streaming/Owner/Answers/Once.antt =====
-- No answer of a streamed call is handed out twice.
use llmbroker.Streaming.Owner.Answers.{no_more}
use llmbroker.Streaming.Owner.Answers.{out_of_time}
use llmbroker.Streaming.Owner.Answers.{pauses}
use llmbroker.Router.Calls.{Acquisition, acquired, refuses, still_waiting, rejected, unavailable}
use llmbroker.Streaming.Lanes.{live}
use llmbroker.Base.{is_empty}
use llmbroker.Streaming.Owner.Answers.{goes_on}
use llmbroker.Base.{is_some}
use llmbroker.Streaming.Owner.Answers.{acquire_once}
use llmbroker.Base.{
  String, ◌≡◌, refl, sym, ap, ◌∙◌, subst, Bool, true, false, not, Option, none, some, List, [], ◌∷◌,
  arith, eq_iff, if_ind, mem, no_repeats, All, Bool-cases, inl, inr,
}
use llmbroker.Base.Least.{least_from, least-IsLeast, some_inj}
use llmbroker.Base.Sorting.{IsOrder}
use llmbroker.Http.Verdict.{Exc, ProviderError}
use llmbroker.Optimizer.{Optimizer}
use llmbroker.Optimizer.Floats.{FloatOps}
use llmbroker.Pool.{Pool}
use llmbroker.Pool.Acquire.{Clocks}
use llmbroker.Streaming.Lanes.{StreamLane, entry_of}
use llmbroker.Streaming.Owner.{
  Owner, with_lanes, absorb_finished, buffered_lane, buffered_key, refill_free, open_lanes, deliver,
  is_delivered, TimeKey, time_lt,
}
use llmbroker.Streaming.Owner.Initial.{
  Reading, Acquiring, obtained, again, declined, waiting, acquire_once,
}
use llmbroker.Streaming.Owner.Answers.{
  Answer, Round, next_turn, take_or_refill, after_refill, opened_further, give_up, owner_of, stops,
  answer_id, id_before, answered_ids,
}

-- All these ids are new to a call that has delivered the others.
abbrev AreNew : List String → List String → Type 0
AreNew delivered ids = All (λ id. mem id delivered ≡ false) ids

AreNew-mem : (id : String) (ds ids : List String) → AreNew (id ∷ ds) ids → mem id ids ≡ false
AreNew-mem id ds [] h = refl
AreNew-mem id ds (x ∷ ids) (h, hs) =
    ground (arith, eq_iff id x, eq_iff x id, AreNew-mem id ds ids hs, h)

AreNew-tail : (id : String) (ds ids : List String) → AreNew (id ∷ ds) ids → AreNew ds ids
AreNew-tail id ds [] h = tt
AreNew-tail id ds (x ∷ ids) (h, hs) = (ground (arith, h), AreNew-tail id ds ids hs)

-- What a turn's answer adds: an id not delivered before, and delivered from then on.
abbrev Adds : List String → Answer → Type 0
Adds delivered a =
    ((id : String) → answer_id a ≡ some id → mem id delivered ≡ false)
    × ((owner_of a).delivered ≡ deliver (answer_id a) delivered)

time_lt-IsOrder : IsOrder time_lt
unfolding time_lt
time_lt-IsOrder = record { asym = λ a b h. ground arith; cotrans = λ a b c h. ground arith }

key-fresh :
    (ds : List String) (lane : StreamLane) (k : TimeKey)
    → buffered_key ds lane ≡ some k
    → is_delivered ds lane.outcome.receipt.call_id ≡ false
unfolding buffered_key
key-fresh ds lane k e = elim (Bool-cases (is_delivered ds lane.outcome.receipt.call_id)) [
  | inl h ↦ absurd (ground arith)
  | inr h ↦ h
]

-- A buffered answer has not been delivered.
buffered-fresh :
    (o : Owner) (lane : StreamLane)
    → buffered_lane o ≡ some lane
    → is_delivered o.delivered lane.outcome.receipt.call_id ≡ false
unfolding buffered_lane
buffered-fresh o lane = go (least_from time_lt (buffered_key o.delivered) none o.race.lanes) refl
  where
    go :
        (b : Option (StreamLane × TimeKey))
        → least_from time_lt (buffered_key o.delivered) none o.race.lanes ≡ b
        → entry_of b ≡ some lane
        → is_delivered o.delivered lane.outcome.receipt.call_id ≡ false
    go none e e' = absurd cc
    go (some (l, k)) e e' =
        let (own, rest) =
          least-IsLeast time_lt (buffered_key o.delivered) time_lt-IsOrder o.race.lanes (l, k) e in
        subst (λ (x : StreamLane). is_delivered o.delivered x.outcome.receipt.call_id ≡ false)
          (some_inj e') (key-fresh o.delivered l k own)

module _ (fl : FloatOps) (opt : Option Optimizer) where
  refill_free-delivered :
      (payable : List String) (t : Clocks) (o : Owner) (p : Pool)
      → (refill_free fl opt payable t o p).0.delivered ≡ o.delivered
  unfolding refill_free open_lanes
  refill_free-delivered payable t o p = ground arith

  give_up-Adds :
      (o : Owner) (e : Option ProviderError) (c : Option Exc) → Adds o.delivered (give_up o e c)
  unfolding give_up
  give_up-Adds o (some e) c = (λ id h. absurd cc, refl)
  give_up-Adds o none (some e) = (λ id h. absurd cc, refl)
  give_up-Adds o none none = (λ id h. absurd cc, refl)

  -- What an acquisition leaves delivered.
  abbrev Keeps : List String → Acquiring → Type 0
  Keeps ds (obtained configs o p) = o.delivered ≡ ds
  Keeps ds (again o) = o.delivered ≡ ds
  Keeps ds _ = Unit

  acquire_once-Keeps :
      (initial : Bool) (refreshed : Option Bool) (names : List String) (o : Owner) (a : Acquisition)
      → Keeps o.delivered (acquire_once initial refreshed names o a)
  unfolding acquire_once
  acquire_once-Keeps initial refreshed names o (acquired configs call p) = refl
  acquire_once-Keeps initial refreshed names o (refuses e) =
      if_ind (Keeps o.delivered) _ {x = again _} {y = declined e} refl tt
  acquire_once-Keeps initial refreshed names o still_waiting = tt

  opened_further-Adds :
      (o : Owner) (p : Pool) (a : Acquiring)
      → Keeps o.delivered a
      → Adds o.delivered (opened_further o p a).0
  unfolding opened_further open_lanes
  opened_further-Adds o p (obtained configs o' p') h = (λ id e. absurd cc, h)
  opened_further-Adds o p (again o') h = (λ id e. absurd cc, h)
  opened_further-Adds o p (declined (unavailable e)) h = give_up-Adds o _ _
  opened_further-Adds o p (declined (rejected e)) h = (λ id e. absurd cc, refl)
  opened_further-Adds o p waiting h = (λ id e. absurd cc, refl)

  silent :
      (o : Owner) (a : Answer)
      → answer_id a ≡ none
      → (owner_of a).delivered ≡ o.delivered
      → Adds o.delivered a
  silent o a e h = (λ id e'. absurd cc, h ∙ sym (ap (λ i. deliver i o.delivered) e))

  after_refill-Adds :
      (r : Reading) (o : Owner) (p : Pool) → Adds o.delivered (after_refill fl opt r o p).0
  unfolding after_refill
  after_refill-Adds r o p =
      let done =
        opened_further-Adds o p (acquire_once false r.refreshed r.names o (r.acquisition o))
          (acquire_once-Keeps false r.refreshed r.names o (r.acquisition o)) in
      if_ind (λ (a : Answer × Pool). Adds o.delivered a.0) (is_some (buffered_lane o))
        {x = (goes_on o, p)} (silent o (goes_on o) refl refl)
        (if_ind (λ (a : Answer × Pool). Adds o.delivered a.0) (not (is_empty (live o.race)))
          {x = (pauses o, p)} (silent o (pauses o) refl refl)
          (if_ind (λ (a : Answer × Pool). Adds o.delivered a.0) (out_of_time fl opt r.now o)
            {x = (no_more o, p)} (give_up-Adds o _ _) done))

  take_or_refill-Adds :
      (lane : Option StreamLane) (r : Reading) (o : Owner) (p : Pool)
      → buffered_lane o ≡ lane
      → Adds o.delivered (take_or_refill fl opt lane r o p).0
  unfolding take_or_refill
  take_or_refill-Adds (some lane) r o p e =
      (λ id e'. sym (ap (is_delivered o.delivered) e') ∙ buffered-fresh o lane e, refl)
  take_or_refill-Adds none r o p e =
      subst (λ ds. Adds ds (after_refill fl opt r o' p').0)
        (refill_free-delivered r.payable r.clocks o p) (after_refill-Adds r o' p')
    where
      o' : Owner
      o' = (refill_free fl opt r.payable r.clocks o p).0

      p' : Pool
      p' = (refill_free fl opt r.payable r.clocks o p).1

  next_turn-Adds :
      (r : Reading) (o : Owner) (p : Pool) → Adds o.delivered (next_turn fl opt r o p).0
  unfolding next_turn absorb_finished
  next_turn-Adds r o p = take_or_refill-Adds _ r (absorb_finished o) p refl

  before-fresh :
      (i : Option String) (ds ids : List String)
      → ((id : String) → i ≡ some id → mem id ds ≡ false)
      → AreNew (deliver i ds) ids
      → no_repeats ids ≡ true
      → AreNew ds (id_before i ids) × (no_repeats (id_before i ids) ≡ true)
  before-fresh none ds ids h new once = (new, once)
  before-fresh (some id) ds ids h new once =
      ((h id refl, AreNew-tail id ds ids new), ground (arith, AreNew-mem id ds ids new, once))

  -- However the lanes of a streamed call go on between its turns, and whatever the pool and the
  -- clocks are, `another` never hands out one call twice: the call ids of the answers over any
  -- schedule of turns have no repeats, and none of them was delivered before, as the initial answer
  -- was.
  pub answered_ids-once :
      (rounds : List Round) (o : Owner)
      → All (λ id. mem id o.delivered ≡ false) (answered_ids fl opt rounds o)
        × (no_repeats (answered_ids fl opt rounds o) ≡ true)
  unfolding answered_ids
  answered_ids-once [] o = (tt, refl)
  answered_ids-once (r ∷ rounds) o =
      let a = (next_turn fl opt r.reading (with_lanes r.lanes o) r.pool).0 in
      let (fresh, kept) = next_turn-Adds r.reading (with_lanes r.lanes o) r.pool in
      let (new, once) = answered_ids-once rounds (owner_of a) in
      if_ind (λ ids. AreNew o.delivered ids × (no_repeats ids ≡ true)) (stops a) {x = []} (tt, refl)
        (before-fresh (answer_id a) o.delivered (answered_ids fl opt rounds (owner_of a)) fresh
          (subst (λ ds. AreNew ds (answered_ids fl opt rounds (owner_of a))) kept new) once)
