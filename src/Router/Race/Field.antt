-- ===== src/Router/Race/Field.antt =====
-- The field of a race: no model runs twice in it, and it never grows past its width.
use text.Mathlib.Text.{◌==◌ as str_eq}
use llmbroker.Base.{
  ℕ, zero, suc, ◌+◌, ◌-◌, ◌≤◌, ◌==◌, String, ◌≡◌, refl, ap, Bool, false, ◌&&◌, if◌then◌else◌,
  if_ind, List, [], ◌∷◌, ◌++◌, arith, map, any, length, filter, inl, inr, mem, mem-append, eq_iff,
}
use llmbroker.Base.Counting.{count_if, count_if-append}
use llmbroker.Models.{LlmConfig}
use llmbroker.Http.Verdict.{Parsers}
use llmbroker.Optimizer.Floats.{FloatOps}
use llmbroker.Pool.Invariant.{IsValid}
use llmbroker.Pool.Reserve.{Boundary, Context, is_candidate, candidates, reserve}
use llmbroker.Pool.Reserve.Counts.{count}
use llmbroker.Pool.Reserve.Effects.{taken, reserve-Effect, count-taken-le_one}
use llmbroker.Pool.Acquire.{Clocks, Request, context, take_free}
use llmbroker.Router.{World, Limits}
use llmbroker.Router.Calls.{RouteCall}
use llmbroker.Router.Race.{
  Lane, is_live, open_lane, Standing, overtaken, abandoned, Phase, racing, lost, won, broke, Race,
  Move, Event, moves, wakes, cancels, set_standing, collect, collect_one, move, move_at, refill,
  refill_request, conclude, proceed, wake, cancel, step, run, start, is_racing, has_settled,
}
use llmbroker.Router.Race.Collecting.{collect_one-Same, owing-collect}
use llmbroker.Router.Race.Slots.{move-Fits}
use llmbroker.Router.Race.Pools.{one_if, flights, count-reserve, lookup_named}
use llmbroker.Router.Race.Balance.{
  InBalance, step-InBalance, recast-InBalance, reserve-Balanced, race_on,
}

abbrev pub has_config_name : String → Lane → Bool
has_config_name k lane = str_eq lane.config.name k

-- How many lanes a race has opened on the model of one name.
abbrev pub entered : String → List Lane → ℕ
entered k lanes = count_if (has_config_name k) lanes

entered-collect :
    (k : String) (lanes : List Lane) (call : RouteCall) (phase : Phase)
    → entered k (collect lanes call phase).0 ≡ entered k lanes
unfolding collect count_if
entered-collect k [] call phase = refl
entered-collect k (lane ∷ lanes) call phase =
    let (lane', call', phase') = collect_one lane call phase in
    let same : lane'.config.name ≡ lane.config.name =
      ap (λ (c : LlmConfig). c.name) (collect_one-Same lane call phase).0 in
    rw same (ap (λ n. one_if (has_config_name k lane) + n) (entered-collect k lanes call' phase'))

entered-set_standing :
    (k : String) (standing : Standing) (lanes : List Lane)
    → entered k (map (set_standing standing) lanes) ≡ entered k lanes
unfolding count_if
entered-set_standing k standing [] = refl
entered-set_standing k standing (lane ∷ lanes) =
    let same : (set_standing standing lane).config.name ≡ lane.config.name =
      if_ind (λ (l : Lane). l.config.name ≡ lane.config.name) (is_live lane) refl refl in
    rw same (ap (λ n. one_if (has_config_name k lane) + n) (entered-set_standing k standing lanes))

entered-open_lane :
    (k : String) (configs : List LlmConfig)
    → entered k (map open_lane configs) ≡ count_if (λ c. str_eq c.name k) configs
unfolding count_if
entered-open_lane k [] = refl
entered-open_lane k (c ∷ configs) = omega (arith, entered-open_lane k configs)

mem-entered :
    (k : String) (lanes : List Lane)
    → mem k (map (λ lane. lane.config.name) lanes) ≡ false
    → entered k lanes ≡ 0
unfolding count_if
mem-entered k [] h = refl
mem-entered k (lane ∷ lanes) h =
    ground (arith, mem-entered k lanes, eq_iff lane.config.name k, eq_iff k lane.config.name)

module _ (py : Parsers) (fl : FloatOps) (k : String) where
  entered-move_at :
      (limits : Limits) (n : ℕ) (m : Move) (lanes : List Lane) (w : World)
      → entered k (move_at py fl limits n m lanes w).0 ≡ entered k lanes
  unfolding move_at count_if
  entered-move_at limits n m [] w = refl
  entered-move_at limits zero m (lane ∷ lanes) w =
      let same : (move py fl limits m lane w).0.config.name ≡ lane.config.name =
        ap (λ (c : LlmConfig). c.name) (move-Fits py fl k limits m lane w).same_config in
      rw same refl
  entered-move_at limits (suc n) m (lane ∷ lanes) w =
      omega (arith, entered-move_at limits n m lanes w)

  module _ (base : ℕ) where
    pub record Fielded (r : Race) : Type 0 where
      pub balance : InBalance py fl k base r
      pub once : entered k r.lanes ≤ 1

    refill-once :
        (payable : List String) (t : Clocks) (r : Race)
        → Fielded r
        → entered k (refill py fl payable t r).lanes ≤ 1
    unfolding refill take_free is_candidate
    refill-once payable t r h =
        let needed = r.width - length (filter is_live r.lanes) in
        let q : Request = record (refill_request r.lanes payable r.call) { width = needed } in
        let c : Context = record (context q t) { recovery_width = 1 } in
        let p = r.world.pool in
        let configs = (reserve fl r.world.opt p c (candidates q.boundary p)).0 in
        let grows : entered k (r.lanes ++ map open_lane configs)
            ≡ entered k r.lanes + count k (taken fl r.world.opt p c q.boundary) =
          omega (
            arith,
            count_if-append (has_config_name k) r.lanes (map open_lane configs),
            entered-open_lane k configs,
            count-reserve fl r.world.opt p c q.boundary h.balance.valid k,
          ) in
        if_ind (λ (r' : Race). entered k r'.lanes ≤ 1) (needed == 0) h.once
          (elim (reserve-Effect fl r.world.opt p c q.boundary h.balance.valid.unique k) [
            | inl (out, same) ↦ omega (arith, grows, out, h.once)
            | inr (s, hit, e, cand, free, after) ↦
                let named : s.config.name ≡ k =
                  lookup_named p.next_order k s p.slots h.balance.valid.sound e in
                let untried : mem k (map (λ lane. lane.config.name) r.lanes) ≡ false = ground (
                  arith,
                  named,
                  mem-append k (map (λ lane. lane.config.name) r.lanes) r.call.client_failed,
                ) in
                omega (arith, grows, hit, mem-entered k r.lanes untried)
          ])

    recast-Fielded :
        (r r' : Race)
        → entered k r'.lanes ≡ entered k r.lanes
        → InBalance py fl k base r'
        → Fielded r
        → Fielded r'
    recast-Fielded r r' same balance h = record {
      balance = balance;
      once = omega (arith, same, h.once);
    }

    proceed-once :
        (payable : List String) (t : Clocks) (world : World) (call : RouteCall) (width : ℕ)
        (lanes : List Lane) (phase : Phase)
        → let r : Race = record {
          world = world;
          call = call;
          width = width;
          lanes = lanes;
          phase = phase;
        } in
          Fielded r → entered k (proceed py fl payable t r).lanes ≤ 1
    unfolding proceed conclude
    proceed-once payable t world call width lanes racing h =
        let r : Race = record {
          world = world;
          call = call;
          width = width;
          lanes = lanes;
          phase = racing;
        } in
        let go = if call.expired then r else refill py fl payable t r in
        let done : entered k go.lanes ≤ 1 =
          if_ind (λ (r' : Race). entered k r'.lanes ≤ 1) call.expired h.once
            (refill-once payable t r h) in
        if_ind (λ (r' : Race). entered k r'.lanes ≤ 1) (any is_live go.lanes) done done
    proceed-once payable t world call width lanes lost h = h.once
    proceed-once payable t world call width lanes (won c content u) h =
        omega (arith, entered-set_standing k overtaken lanes, h.once)
    proceed-once payable t world call width lanes (broke x) h =
        omega (arith, entered-set_standing k abandoned lanes, h.once)

    step-once : (r : Race) (e : Event) → Fielded r → entered k (step py fl r e).lanes ≤ 1
    unfolding step wake cancel
    step-once r (moves n m) h =
        omega (arith, entered-move_at r.call.limits n m r.lanes r.world, h.once)
    step-once r (wakes payable t) h =
        let (lanes, call, phase) = collect r.lanes r.call r.phase in
        if_ind (λ (r' : Race). entered k r'.lanes ≤ 1)
          (is_racing py fl r.phase && has_settled py fl r.lanes)
          (proceed-once payable t r.world call r.width lanes phase (record {
            balance =
                recast-InBalance py fl k base r.lanes lanes r.world
                  (owing-collect k r.lanes r.call r.phase) h.balance;
            once = omega (arith, entered-collect k r.lanes r.call r.phase, h.once);
          }))
          h.once
    step-once r cancels h =
        if_ind (λ (r' : Race). entered k r'.lanes ≤ 1) (is_racing py fl r.phase)
          (omega (arith, entered-set_standing k abandoned r.lanes, h.once)) h.once

    run-Fielded : (r : Race) (es : List Event) → Fielded r → Fielded (run py fl r es)
    unfolding run
    run-Fielded r [] h = h
    run-Fielded r (e ∷ es) h =
        run-Fielded (step py fl r e) es
          (record { balance = step-InBalance py fl k base r e h.balance; once = step-once r e h })

module _ (py : Parsers) (fl : FloatOps) where
  -- In a race over what one reservation in a valid pool takes, whatever the order of events, no
  -- model is ever given a second lane: a refill takes a model that this race has not tried.
  pub race-distinct :
      (call : RouteCall) (c : Context) (b : Boundary) (w : World) (es : List Event)
      → IsValid w.pool
      → (k : String) → entered k (run py fl (race_on py fl call c b w) es).lanes ≤ 1
  unfolding start count_if
  race-distinct call c b w es valid k =
      let base = flights k w.pool.slots in
      let balance =
        reserve-Balanced py fl k w.opt c b base [] w
          (record { owed = omega arith; valid = valid }) in
      let first : Fielded py fl k base (race_on py fl call c b w) = record {
        balance = balance;
        once = omega (
          arith,
          entered-open_lane k (reserve fl w.opt w.pool c (candidates b w.pool)).0,
          count-reserve fl w.opt w.pool c b valid k,
          count-taken-le_one fl w.opt w.pool c b valid.unique k,
        );
      } in
      (run-Fielded py fl k base (race_on py fl call c b w) es first).once
