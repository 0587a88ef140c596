-- ===== src/Streaming/Owner/Accounting.antt =====
-- How many lanes a wave of a streamed call may hold, and what it absorbs.
use llmbroker.Base.{some}
use llmbroker.Router.Calls.{note_attempted}
use llmbroker.Base.{
  length-map, ℕ, suc, ◌+◌, ◌-◌, ◌≤◌, ◌==◌, ◌≡◌, refl, ap, Bool, true, false, not, ◌||◌, String,
  Option, List, [], ◌∷◌, ◌++◌, arith, length, length-filter-le, filter, is_some, Bool-cases, inl,
  inr,
}
use llmbroker.Models.{LlmConfig}
use llmbroker.Optimizer.{Optimizer}
use llmbroker.Optimizer.Floats.{FloatOps}
use llmbroker.Pool.{Pool}
use llmbroker.Pool.Acquire.{Clocks, Request, take_free, context}
use llmbroker.Router.Calls.{RouteCall}
use llmbroker.Pool.Reserve.{Entry, reserve, candidates, chosen, Context}
use llmbroker.Pool.Reserve.Counts.{length-chosen-le}
use llmbroker.Streaming.Lanes.{StreamLane}
use llmbroker.Streaming.Owner.{
  Owner, with_lanes, lanes_of, open_lanes, absorb_lanes, is_absorbable, absorb_finished,
  buffered_lane, needed, width_of, delivered_count, pending_count, was_delivered, is_pending,
  refill_free, untried_request,
}

absorb_lanes-step :
    (lane : StreamLane) (lanes : List StreamLane) (call : RouteCall)
    → is_absorbable lane ≡ false
    → absorb_lanes lanes call ≡ (lanes, call)
    → absorb_lanes (lane ∷ lanes) call ≡ (lane ∷ lanes, call)
unfolding absorb_lanes
absorb_lanes-step lane lanes call h e =
    rw h (ap (λ (r : List StreamLane × RouteCall). (lane ∷ r.0, r.1)) e)

spent : (lane : StreamLane) → is_absorbable (record lane { absorbed = true }) ≡ false
spent lane = ground arith

-- A second pass finds nothing to do.
absorb_lanes-once :
    (lanes : List StreamLane) (call call' : RouteCall)
    → absorb_lanes (absorb_lanes lanes call).0 call' ≡ ((absorb_lanes lanes call).0, call')
unfolding absorb_lanes
absorb_lanes-once [] call call' = refl
absorb_lanes-once (lane ∷ lanes) call call' = elim (Bool-cases (is_absorbable lane)) [
  | inl b ↦ rw b (
      absorb_lanes-step (record lane { absorbed = true }) _ call' (spent lane)
        (absorb_lanes-once lanes _ call'))
  | inr b ↦ rw b (absorb_lanes-step lane _ call' b (absorb_lanes-once lanes call call'))
]

-- A settled attempt counts once for its call: absorbing what has finished a second time changes
-- nothing.
pub absorb_finished-once : (o : Owner) → absorb_finished (absorb_finished o) ≡ absorb_finished o
unfolding absorb_finished
absorb_finished-once o =
    ap (λ (r : List StreamLane × RouteCall). record (with_lanes r.0 o) { call = r.1 })
      (absorb_lanes-once o.race.lanes o.call (absorb_lanes o.race.lanes o.call).1)

-- What a wave holds: the answers delivered, and the lanes that work or wait with one.
abbrev pub held : Owner → ℕ
held o = delivered_count o + pending_count o

abbrev pub wave_limit : Owner → ℕ
wave_limit o = width_of o.waves o.call.width o.wave_width

length-filter-append :
    (q : StreamLane → Bool) (xs ys : List StreamLane)
    → length (filter q (xs ++ ys)) ≡ length (filter q xs) + length (filter q ys)
length-filter-append q [] ys = omega arith
length-filter-append q (x ∷ xs) ys = ground (arith, length-filter-append q xs ys)

length-lanes_of :
    (configs : List LlmConfig) (order : ℕ) (hold : Bool) (wave : ℕ)
    → length (lanes_of configs order hold wave) ≡ length configs
unfolding lanes_of
length-lanes_of [] order hold wave = refl
length-lanes_of (c ∷ configs) order hold wave =
    ap suc (length-lanes_of configs (suc order) hold wave)

new-undelivered :
    (o : Owner) (configs : List LlmConfig) (order : ℕ) (hold : Bool) (wave : ℕ)
    → length (filter (was_delivered o) (lanes_of configs order hold wave)) ≡ 0
unfolding lanes_of
new-undelivered o [] order hold wave = refl
new-undelivered o (c ∷ configs) order hold wave =
    ground (arith, new-undelivered o configs (suc order) hold wave)

module _ (fl : FloatOps) (opt : Option Optimizer) where
  length-take_free-le :
      (q : Request) (still : Bool) (t : Clocks) (p : Pool)
      → 1 ≤ q.width
      → length (take_free fl opt q still t p).0 ≤ q.width
  unfolding take_free reserve
  length-take_free-le q true t p h =
      let c : Context = record (context q t) { recovery_width = 1 } in
      let found = candidates q.boundary p in
      let size = length-map (λ (e : Entry). e.1.config) (chosen fl opt p c found) in
      omega (arith, length-chosen-le fl opt p c found, size, h)
  length-take_free-le q false t p h = omega arith

  same_limit :
      (o : Owner) (configs : List LlmConfig) (call : RouteCall)
      → call.width ≡ o.call.width
      → wave_limit (open_lanes configs false (record o { call = call })) ≡ wave_limit o
  unfolding open_lanes
  same_limit o configs call e = rw e refl

  opened-held :
      (configs : List LlmConfig) (call : RouteCall) (o : Owner)
      → length configs ≤ wave_limit o - held o
      → held o ≤ wave_limit o
      → held (open_lanes configs false (record o { call = call })) ≤ wave_limit o
  unfolding open_lanes
  opened-held configs call o h g =
      let new = lanes_of configs o.opening_order false o.waves in
      let old = o.race.lanes in
      omega (
        arith,
        length-filter-append (was_delivered o) old new,
        length-filter-append (is_pending o) old new,
        new-undelivered o configs o.opening_order false o.waves,
        length-filter-le (is_pending o) new,
        length-lanes_of configs o.opening_order false o.waves,
        h,
        g,
      )

  -- A refill never overfills its wave: where the answers delivered and the lanes that work or wait
  -- with one are no more than the width of the wave, they are no more after it, and the width of the
  -- wave is what it was.
  pub refill_free-held :
      (payable : List String) (t : Clocks) (o : Owner) (p : Pool)
      → held o ≤ wave_limit o
      → let o' = (refill_free fl opt payable t o p).0 in
        (held o' ≤ wave_limit o) × (wave_limit o' ≡ wave_limit o)
  unfolding refill_free needed note_attempted
  refill_free-held payable t o p h =
      elim (Bool-cases (o.call.expired || is_some (buffered_lane o))) [
        | inl b ↦ rw b (h, refl)
        | inr b ↦ elim (Bool-cases (needed o == 0)) [
          | inl z ↦ rw (b, z) (h, refl)
          | inr z ↦
              let some_needed : 1 ≤ needed o = ground (arith, z) in
              let kept = same_limit o _ (note_attempted (some o.eligible_names) _ o.call) refl in
              let short =
                length-take_free-le (untried_request fl payable o) (not (is_some (buffered_lane o)))
                  t p some_needed in
              rw (b, z) (opened-held _ _ o (omega (arith, short)) h, kept)
        ]
      ]
