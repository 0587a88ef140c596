-- ===== src/Router/Race/Balance.antt =====
-- A race hands back every slot that it was given, exactly once.
use llmbroker.Base.{
  ℕ, ◌+◌, ◌-◌, ◌≤◌, ◌==◌, String, ◌≡◌, refl, sym, subst, ◌∙◌, ap, Bool, true, false, not, ◌&&◌,
  if◌then◌else◌, if_ind, Option, none, some, List, [], ◌∷◌, ◌++◌, arith, map, all, length, filter,
}
use llmbroker.Base.Counting.{count_if, count_if-append}
use llmbroker.Http.Verdict.{Parsers}
use llmbroker.Optimizer.Floats.{FloatOps}
use llmbroker.Optimizer.{Optimizer}
use llmbroker.Pool.Invariant.{IsValid}
use llmbroker.Pool.Reserve.{Boundary, Context, candidates, reserve}
use llmbroker.Pool.Acquire.{Clocks, Request, context, take_free}
use llmbroker.Router.{World}
use llmbroker.Router.Calls.{RouteCall}
use llmbroker.Router.Race.{
  Lane, is_live, open_lane, overtaken, abandoned, Phase, racing, lost, won, broke, Race, Event,
  moves, wakes, cancels, collect, refill, refill_request, conclude, proceed, wake, cancel, step,
  run, start, is_racing, has_settled,
}
use llmbroker.Router.Race.Collecting.{
  owes, owes_name, owing, owing-collect, owing-set_standing, owing-open_lane,
}
use llmbroker.Router.Race.Slots.{Balanced, move_at-Balanced}
use llmbroker.Router.Race.Pools.{flights, reserve-flights, count-reserve, reserve-Valid}

module _ (py : Parsers) (fl : FloatOps) (k : String) where
  abbrev pub InBalance : ℕ → Race → Type 0
  InBalance base r = Balanced py fl k base r.lanes r.world

  -- What a reservation takes, its lanes owe.
  pub reserve-Balanced :
      (opt : Option Optimizer) (c : Context) (b : Boundary) (base : ℕ) (lanes : List Lane)
      (w : World)
      → Balanced py fl k base lanes w
      → let (configs, pool) = reserve fl opt w.pool c (candidates b w.pool) in
        Balanced py fl k base (lanes ++ map open_lane configs) (record w { pool = pool })
  reserve-Balanced opt c b base lanes w h = record {
    owed = omega (
      arith,
      h.owed,
      reserve-flights fl opt w.pool c b h.valid k,
      count-reserve fl opt w.pool c b h.valid k,
      owing-open_lane k (reserve fl opt w.pool c (candidates b w.pool)).0,
      count_if-append (owes_name k) lanes
          (map open_lane (reserve fl opt w.pool c (candidates b w.pool)).0),
    );
    valid = reserve-Valid fl opt w.pool c b h.valid;
  }

  module _ (base : ℕ) where
    refill-InBalance :
        (payable : List String) (t : Clocks) (r : Race)
        → InBalance base r
        → InBalance base (refill py fl payable t r)
    unfolding refill take_free
    refill-InBalance payable t r h =
        let needed = r.width - length (filter is_live r.lanes) in
        let q : Request = record (refill_request r.lanes payable r.call) { width = needed } in
        if_ind (InBalance base) (needed == 0) h (
          reserve-Balanced r.world.opt (record (context q t) { recovery_width = 1 }) q.boundary base
            r.lanes r.world h)

    pub recast-InBalance :
        (lanes lanes' : List Lane) (w : World)
        → owing k lanes' ≡ owing k lanes
        → Balanced py fl k base lanes w
        → Balanced py fl k base lanes' w
    recast-InBalance lanes lanes' w e h = record {
      owed = omega (arith, h.owed, e);
      valid = h.valid;
    }

    proceed-InBalance :
        (payable : List String) (t : Clocks) (world : World) (call : RouteCall) (width : ℕ)
        (lanes : List Lane) (phase : Phase)
        → Balanced py fl k base lanes world
        → InBalance base (
            proceed py fl payable t
              (record { world = world; call = call; width = width; lanes = lanes; phase = phase }))
    unfolding proceed conclude
    proceed-InBalance payable t world call width lanes racing h =
        let r : Race = record {
          world = world;
          call = call;
          width = width;
          lanes = lanes;
          phase = racing;
        } in
        let go = if call.expired then r else refill py fl payable t r in
        let done : InBalance base go =
          if_ind (InBalance base) call.expired h (refill-InBalance payable t r h) in
        if_ind (InBalance base) (llmbroker.Base.any is_live go.lanes) done done
    proceed-InBalance payable t world call width lanes lost h = h
    proceed-InBalance payable t world call width lanes (won c content u) h =
        recast-InBalance lanes _ world (owing-set_standing k overtaken lanes) h
    proceed-InBalance payable t world call width lanes (broke x) h =
        recast-InBalance lanes _ world (owing-set_standing k abandoned lanes) h

    pub step-InBalance : (r : Race) (e : Event) → InBalance base r → InBalance base (step py fl r e)
    unfolding step wake cancel
    step-InBalance r (moves n m) h =
        move_at-Balanced py fl k r.call.limits n m base r.lanes r.world h
    step-InBalance r (wakes payable t) h =
        let (lanes, call, phase) = collect r.lanes r.call r.phase in
        if_ind (InBalance base) (is_racing py fl r.phase && has_settled py fl r.lanes)
          (proceed-InBalance payable t r.world call r.width lanes phase
            (recast-InBalance r.lanes lanes r.world (owing-collect k r.lanes r.call r.phase) h))
          h
    step-InBalance r cancels h =
        if_ind (InBalance base) (is_racing py fl r.phase)
          (recast-InBalance r.lanes _ r.world (owing-set_standing k abandoned r.lanes) h) h

    pub run-InBalance :
        (r : Race) (es : List Event) → InBalance base r → InBalance base (run py fl r es)
    unfolding run
    run-InBalance r [] h = h
    run-InBalance r (e ∷ es) h = run-InBalance (step py fl r e) es (step-InBalance r e h)

-- No lane still owes its slot.
abbrev pub all_settled : List Lane → Bool
all_settled lanes = all (λ lane. not (owes lane.task)) lanes

owing_nothing : (k : String) (lanes : List Lane) → all_settled lanes ≡ true → owing k lanes ≡ 0
unfolding count_if
owing_nothing k [] h = refl
owing_nothing k (lane ∷ lanes) h = ground (arith, owing_nothing k lanes)

module _ (py : Parsers) (fl : FloatOps) where
  -- A race over the candidates that one reservation in a pool takes.
  abbrev pub race_on : RouteCall → Context → Boundary → World → Race
  race_on call c b w =
      let (configs, pool) = reserve fl w.opt w.pool c (candidates b w.pool) in
      start py fl call configs (record w { pool = pool })

  pub race-hands_back :
      (call : RouteCall) (c : Context) (b : Boundary) (w : World) (es : List Event)
      → IsValid w.pool
      → all_settled (run py fl (race_on call c b w) es).lanes ≡ true
      → (k : String)
      → flights k (run py fl (race_on call c b w) es).world.pool.slots ≡ flights k w.pool.slots
  unfolding start count_if
  race-hands_back call c b w es valid quiet k =
      let base = flights k w.pool.slots in
      let before =
        reserve-Balanced py fl k w.opt c b base [] w
          (record { owed = omega arith; valid = valid }) in
      let after = run-InBalance py fl k base (race_on call c b w) es before in
      omega (arith, after.owed, owing_nothing k (run py fl (race_on call c b w) es).lanes quiet)
