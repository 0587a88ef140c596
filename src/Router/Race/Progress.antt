-- ===== src/Router/Race/Progress.antt =====
-- A race never stands still, and never grows past its width.
use llmbroker.Base.{
  ℕ, ◌-◌, ◌<◌, ◌==◌, ◌≡◌, refl, ◌⊎◌, inl, inr, true, false, not, ◌&&◌, ◌||◌, if◌then◌else◌, if_ind,
  Bool-cases, List, [], ◌∷◌, ◌++◌, arith, map, any, all, length, filter, String,
}
use llmbroker.Models.{LlmConfig}
use llmbroker.Http.Verdict.{Parsers}
use llmbroker.Optimizer.Floats.{FloatOps}
use llmbroker.Pool.Acquire.{Clocks, take_free, Request}
use llmbroker.Router.{World}
use llmbroker.Router.Calls.{RouteCall}
use llmbroker.Router.Race.{
  Lane, is_live, is_done, open_lane, Phase, racing, lost, won, broke, Race, collect_one, collect,
  refill, refill_request, conclude, proceed, wake, is_racing, has_settled,
}
use llmbroker.Router.Race.Outcomes.{has_ended, is_broke, all_ended}

-- Where something is live and all that is live has ended, something has settled.
settled_of_ended :
    (lanes : List Lane)
    → any is_live lanes ≡ true
    → all has_ended lanes ≡ true
    → any (λ lane. is_live lane && is_done lane.task) lanes ≡ true
settled_of_ended [] h h' = ground (arith, h)
settled_of_ended (lane ∷ lanes) h h' = elim (Bool-cases (is_live lane)) [
  | inl b ↦ ground (arith, b, h')
  | inr b ↦
      let rest = settled_of_ended lanes (ground (arith, h, b)) (ground (arith, h')) in
      ground (arith, rest)
]

length-collect :
    (lanes : List Lane) (call : RouteCall) (phase : Phase)
    → length (collect lanes call phase).0 ≡ length lanes
unfolding collect
length-collect [] call phase = refl
length-collect (lane ∷ lanes) call phase =
    let (lane', call', phase') = collect_one lane call phase in
    omega (arith, length-collect lanes call' phase')

live_appended :
    (lanes : List Lane) (configs : List LlmConfig)
    → any is_live lanes ≡ false
    → any is_live (lanes ++ map open_lane configs) ≡ true
    → length lanes < length (lanes ++ map open_lane configs)
live_appended [] [] h h' = ground (arith, h')
live_appended [] (c ∷ configs) h h' = omega arith
live_appended (lane ∷ lanes) configs h h' =
    let rest = live_appended lanes configs (ground (arith, h)) (ground (arith, h, h')) in
    omega (arith, rest)

module _ (py : Parsers) (fl : FloatOps) where
  refill-grows :
      (payable : List String) (t : Clocks) (r : Race)
      → any is_live r.lanes ≡ false
      → any is_live (refill py fl payable t r).lanes ≡ true
      → length r.lanes < length (refill py fl payable t r).lanes
  unfolding refill
  refill-grows payable t r h =
      let needed = r.width - length (filter is_live r.lanes) in
      let q : Request = record (refill_request r.lanes payable r.call) { width = needed } in
      let configs = (take_free fl r.world.opt q true t r.world.pool).0 in
      if_ind (λ (r' : Race). any is_live r'.lanes ≡ true → length r.lanes < length r'.lanes)
        (needed == 0) (λ h'. ground (arith, h, h')) (live_appended r.lanes configs h)

  -- The race is decided, or has lanes that it lacked.
  abbrev pub Moves : ℕ → Race → Type 0
  Moves n r = (is_racing py fl r.phase ≡ false) ⊎ (n < length r.lanes)

  proceed-Moves :
      (payable : List String) (t : Clocks) (world : World) (call : RouteCall) (width : ℕ)
      (lanes : List Lane) (phase : Phase)
      → (is_broke phase || not (any is_live lanes)) ≡ true
      → Moves (length lanes) (
          proceed py fl payable t
            (record { world = world; call = call; width = width; lanes = lanes; phase = phase }))
  unfolding proceed conclude
  proceed-Moves payable t world call width lanes racing h =
      let r : Race = record {
        world = world;
        call = call;
        width = width;
        lanes = lanes;
        phase = racing;
      } in
      let go = if call.expired then r else refill py fl payable t r in
      let grows : any is_live go.lanes ≡ true → length lanes < length go.lanes =
        if_ind (λ (r' : Race). any is_live r'.lanes ≡ true → length lanes < length r'.lanes)
          call.expired (λ h'. ground (arith, h, h'))
          (refill-grows payable t r (ground (arith, h))) in
      elim (Bool-cases (any is_live go.lanes)) [
        | inl b ↦ rw b (inr (grows b))
        | inr b ↦ rw b (inl refl)
      ]
  proceed-Moves payable t world call width lanes lost h = inl refl
  proceed-Moves payable t world call width lanes (won c content u) h = inl refl
  proceed-Moves payable t world call width lanes (broke x) h = inl refl

  -- A race whose every live lane has come to an end does not wait on: when its driver wakes, it is
  -- decided or it opens lanes that it did not have.
  pub wake-Moves :
      (payable : List String) (t : Clocks) (r : Race)
      → is_racing py fl r.phase ≡ true
      → any is_live r.lanes ≡ true
      → all has_ended r.lanes ≡ true
      → Moves (length r.lanes) (wake py fl payable t r)
  unfolding wake
  wake-Moves payable t r going alive ended =
      let (lanes, call, phase) = collect r.lanes r.call r.phase in
      let settled : has_settled py fl r.lanes ≡ true = settled_of_ended r.lanes alive ended in
      rw (going, settled)
        (rw (← length-collect r.lanes r.call r.phase) (
          proceed-Moves payable t r.world call r.width lanes phase
            (all_ended r.lanes r.call r.phase ended)))
