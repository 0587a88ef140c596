-- ===== src/Pool/Invariant.antt =====
-- What holds of the pool of src/llmbroker/broker/pool.py after any sequence of its operations.
use llmbroker.Base.{some, none}
use mathlib.Core.Option
use llmbroker.Base.{shift, or_else}
use llmbroker.Base.{
  ℕ, ◌+◌, ◌≤◌, ◌<◌, String, ◌≡◌, refl, true, Option, List, [], ◌∷◌, arith, All, Dict, has_key,
  is_some, Bool-cases, inl, inr, ℤ, or_else,
}
use llmbroker.Base.Counting.{count_if}
use llmbroker.Models.{Instant, LlmConfig}
use llmbroker.Optimizer.Floats.{FloatOps}
use llmbroker.Optimizer.{Optimizer}
use llmbroker.Pool
use llmbroker.Pool.{Pool, empty_pool}
use llmbroker.Pool.Slots.{Slot, new_slot}
use llmbroker.Pool.Reserve.{Entry, Boundary, Context, candidates, reserved, chosen, reserve}
use llmbroker.Pool.Reserve.Effects.{IsUnique}
use llmbroker.Pool.Entries.{
  count-update, count-take_slots, count-remove-le, unique_insert, All-update, All-take_slots,
  All-remove, All-insert,
}

-- One entry of the slots, below the next order that the pool will give.
pub record IsSound (n : ℕ) (e : Entry) : Type 0 where
  pub named : e.0 ≡ e.1.config.name
  -- A recovery is owed exactly while a cooldown is recorded.
  pub due_cooled : e.1.recovery_due ≡ is_some e.1.cooldown_until
  -- A claim is made only on an owed recovery, by a call that is in flight.
  pub claimed_due : e.1.recovery_claimed ≡ true → e.1.recovery_due ≡ true
  pub claimed_busy : e.1.recovery_claimed ≡ true → 1 ≤ e.1.in_flight
  pub ordered : e.1.order < n

pub record IsValid (p : Pool) : Type 0 where
  pub unique : IsUnique p.slots
  pub sound : All (IsSound p.next_order) p.slots

-- A call of one of the pool's methods, `reserve` standing for the acquisitions.
pub data Event : Type 0 where
  adds : LlmConfig → Option ℕ → Event
  drops disables enables settles : String → Event
  releases : LlmConfig → Event
  cools : Instant → LlmConfig → ℤ → Event
  reserves : Context → Boundary → Event
  bounds : Dict (ℕ × Instant) → Event
  misses : String → ℕ → Instant → Event
  unbounds : String → Event

module _ (fl : FloatOps) (opt : Option Optimizer) where
  unfoldable pub step : Pool → Event → Pool
  step p (adds cfg order) = Pool.add cfg order p
  step p (drops name) = Pool.drop name p
  step p (disables name) = Pool.set_disabled name p
  step p (enables name) = Pool.clear_disabled name p
  step p (settles name) = Pool.clear_cooling name p
  step p (releases cfg) = Pool.release cfg p
  step p (cools now cfg delay) = or_else (Pool.cool_down now cfg delay p) p
  step p (reserves c b) = (reserve fl opt p c (candidates b p)).1
  step p (bounds observed) = Pool.apply_budget_bounds observed p
  step p (misses name budget at) = Pool.raise_budget_bound name budget at p
  step p (unbounds name) = Pool.clear_budget_bound name p

  pub run : Pool → List Event → Pool
  run p [] = p
  run p (e ∷ es) = run (step p e) es

IsSound-mono : {m n : ℕ} (d : Dict Slot) → m ≤ n → All (IsSound m) d → All (IsSound n) d
IsSound-mono [] h a = tt
IsSound-mono ((i, w) ∷ d) h a = (
  record {
    named = a.0.named;
    due_cooled = a.0.due_cooled;
    claimed_due = a.0.claimed_due;
    claimed_busy = a.0.claimed_busy;
    ordered = omega (arith, a.0.ordered);
  },
  IsSound-mono d h a.1,
)

-- A change of one slot that keeps it sound keeps the pool valid.
on_slot-IsValid :
    (name : String) (f : Slot → Slot) (p : Pool)
    → ((s : Slot) → IsSound p.next_order (name, s) → IsSound p.next_order (name, f s))
    → IsValid p
    → IsValid (Pool.on_slot name f p)
on_slot-IsValid name f p keep v = record {
  unique = λ k. omega (arith, count-update k name f p.slots, v.unique k);
  sound = All-update (IsSound p.next_order) name f p.slots keep v.sound;
}

add-IsValid :
    (cfg : LlmConfig) (order : Option ℕ) (p : Pool) → IsValid p → IsValid (Pool.add cfg order p)
unfolding Pool.add
add-IsValid cfg order p v =
    let o : ℕ = or_else order p.next_order in
    let n : ℕ = Pool.max_ℕ p.next_order (o + 1) in
    let old : All (IsSound n) p.slots = IsSound-mono p.slots (ground arith) v.sound in
    elim (Bool-cases (has_key cfg.name p.slots)) [
      | inl known ↦
          rw (known, Pool.add)
            (record {
              unique = λ k.
                  omega (arith, count-update k cfg.name (Pool.refreshed cfg o) p.slots, v.unique k);
              sound =
                  All-update (IsSound n) cfg.name (Pool.refreshed cfg o) p.slots
                    (λ s h. record {
                      named = refl;
                      due_cooled = h.due_cooled;
                      claimed_due = h.claimed_due;
                      claimed_busy = h.claimed_busy;
                      ordered = ground arith;
                    })
                    old;
            })
      | inr new ↦
          rw (new, Pool.add)
            (record {
              unique = λ k. unique_insert k cfg.name (new_slot cfg o) p.slots new (v.unique k);
              sound =
                  All-insert (IsSound n) cfg.name (new_slot cfg o) p.slots new
                    (record {
                      named = refl;
                      due_cooled = refl;
                      claimed_due = λ e. cc;
                      claimed_busy = λ e. cc;
                      ordered = ground arith;
                    })
                    old;
            })
    ]

reserve-IsValid :
    (fl : FloatOps) (opt : Option Optimizer) (c : Context) (b : Boundary) (p : Pool)
    → IsValid p
    → IsValid (reserve fl opt p c (candidates b p)).1
unfolding reserve reserved
reserve-IsValid fl opt c b p v = record {
  unique = λ k.
      omega (arith, count-take_slots k (chosen fl opt p c (candidates b p)) p.slots, v.unique k);
  sound =
      All-take_slots (IsSound p.next_order) (chosen fl opt p c (candidates b p)) p.slots
        (λ k s h. ground arith) v.sound;
}

drop-IsValid : (name : String) (p : Pool) → IsValid p → IsValid (Pool.drop name p)
unfolding Pool.drop
drop-IsValid name p v = record {
  unique = λ k. omega (arith, count-remove-le k name p.slots, v.unique k);
  sound = All-remove (IsSound p.next_order) name p.slots v.sound;
}

-- Every operation of the pool keeps it valid.
pub step-IsValid :
    (fl : FloatOps) (opt : Option Optimizer) (p : Pool) (e : Event)
    → IsValid p
    → IsValid (step fl opt p e)
unfolding step Pool.apply_budget_bounds Pool.raise_budget_bound Pool.clear_budget_bound
    Pool.set_disabled Pool.clear_disabled Pool.clear_cooling Pool.release Pool.cool_down
step-IsValid fl opt p (adds cfg order) v = add-IsValid cfg order p v
step-IsValid fl opt p (drops name) v = drop-IsValid name p v
step-IsValid fl opt p (disables name) v = on_slot-IsValid name _ p (λ s h. ground arith) v
step-IsValid fl opt p (enables name) v = on_slot-IsValid name _ p (λ s h. ground arith) v
step-IsValid fl opt p (settles name) v = on_slot-IsValid name Pool.settled p (λ s h. ground arith) v
step-IsValid fl opt p (releases cfg) v =
    on_slot-IsValid cfg.name Pool.released p (λ s h. ground arith) v
step-IsValid fl opt p (cools now cfg delay) v = of_end (shift now delay)
  where
    of_end :
        (o : Option Instant)
        → IsValid (or_else (Option.map (λ until. Pool.on_slot cfg.name (Pool.cooled until) p) o) p)
    of_end none = v
    of_end (some until) = on_slot-IsValid cfg.name (Pool.cooled until) p (λ s h. ground arith) v
step-IsValid fl opt p (reserves c b) v = reserve-IsValid fl opt c b p v
step-IsValid fl opt p (bounds observed) v = record { unique = v.unique; sound = v.sound }
step-IsValid fl opt p (misses name budget at) v = record { unique = v.unique; sound = v.sound }
step-IsValid fl opt p (unbounds name) v = record { unique = v.unique; sound = v.sound }

run-IsValid :
    (fl : FloatOps) (opt : Option Optimizer) (p : Pool) (es : List Event)
    → IsValid p
    → IsValid (run fl opt p es)
unfolding run
run-IsValid fl opt p [] v = v
run-IsValid fl opt p (e ∷ es) v =
    run-IsValid fl opt (step fl opt p e) es (step-IsValid fl opt p e v)

-- After any sequence of calls on a new pool the names of its slots are unique and are those of
-- their configs, a slot owes a recovery exactly while it records a cooldown, a recovery is claimed
-- only where one is owed and by a call that is in flight, and every slot stands below the next
-- order that the pool will give.
pub run-empty_pool-IsValid :
    (fl : FloatOps) (opt : Option Optimizer) (es : List Event) → IsValid (run fl opt empty_pool es)
unfolding count_if
run-empty_pool-IsValid fl opt es =
    run-IsValid fl opt empty_pool es (record { unique = λ k. omega arith; sound = tt })
