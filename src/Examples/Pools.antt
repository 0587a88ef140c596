-- ===== src/Examples/Pools.antt =====
-- The pool's theorems on the example pools.
use llmbroker.Examples.Samples.{beta}
use llmbroker.Base.Sorting.{IsOrder}
use llmbroker.Optimizer.Floats.{FloatOps}
use llmbroker.Base.{Bool, ltb, ◌%◌, ◌+◌, ◌-◌, ◌==◌, ◌&&◌, ◌||◌, if◌then◌else◌, ◌≡◌, ℕ}
use llmbroker.Base.{
  ◌≤◌, ◌≡◌, refl, true, false, none, some, [], ◌∷◌, arith, All, lookup, filter, pos,
}
use llmbroker.Pool
use llmbroker.Pool.{Pool, empty_pool}
use llmbroker.Pool.Slots.{Slot, new_slot, is_free}
use llmbroker.Pool.Reserve.{
  is_candidate, candidates, reserved, take_slots, covered, before, ranked, chosen, reserve,
}
use llmbroker.Pool.Reserve.Counts.{count}
use llmbroker.Base.Sorting.{sorted, place}
use llmbroker.Base.Counting.{count_if}
use llmbroker.Pool.Reserve.Effects.{Effect, taken, reserve-Effect}
use llmbroker.Pool.Reserve.Best.{ComesFirst, chosen-best}
use llmbroker.Pool.Reserve.Recovery.{release_drops_claim}
use llmbroker.Pool.Ranking.{over_budget, rank_lt, is_demoted, priority, rank}
use llmbroker.Pool.Invariant.{IsValid, run, adds, cools, reserves, run-empty_pool-IsValid}
use llmbroker.Pool.Acquire.{exhaustion_reason, acquire_round, acquire_many}
use llmbroker.Pool.Acquire.Outcomes.{InTime, Round, acquire_round-Round, acquire_many-ends}
use llmbroker.Pool.Acquire.Reasons.{Means, exhaustion_reason-Means}
use llmbroker.Examples.Samples.{
  floats, alpha, recovering, fleet, troubled, fleet-IsUnique, everyone, single, request, at_reading,
}

-- The code that the examples run.
program : Unit {0}
unfolding sorted place lookup take_slots count_if is_candidate candidates reserved covered before
    ranked chosen reserve over_budget rank_lt is_demoted priority rank is_free
program = tt

reserve-Effect_example : Effect floats none fleet single everyone "alpha"
reserve-Effect_example = reserve-Effect floats none fleet single everyone fleet-IsUnique "alpha"

run-empty_pool-IsValid_example : IsValid (
    run floats none empty_pool
      (adds alpha none ∷ reserves single everyone ∷ cools 100 alpha (pos 60) ∷ []))
run-empty_pool-IsValid_example =
    run-empty_pool-IsValid floats none
      (adds alpha none ∷ reserves single everyone ∷ cools 100 alpha (pos 60) ∷ [])

-- Scores of either sign: the even numbers from the least up, and below them the odd ones, each the
-- opposite of the even number before it.
abbrev is_even : ℕ → Bool
is_even x = x % 2 == 0

abbrev signed_lt : ℕ → ℕ → Bool
signed_lt x y = if is_even x then is_even y && ltb x y else (is_even y || ltb y x)

abbrev opposite : ℕ → ℕ
opposite x = if is_even x then x + 1 else x - 1

abbrev signed : FloatOps
signed = record floats { neg = opposite; lt = signed_lt }

signed_order : IsOrder signed_lt
signed_order = record { asym = λ a b h. ground arith; cotrans = λ a b c h. ground arith }

signed_negates : (x y : ℕ) → signed_lt (opposite x) (opposite y) ≡ signed_lt y x
signed_negates x y = ground arith

chosen-best_example :
    All
      (ComesFirst signed signed_order none fleet single ("beta", new_slot beta 1))
      (filter (λ f. is_free 100 f.1) fleet.slots)
unfolding program
chosen-best_example =
    chosen-best signed signed_order none fleet single signed_negates fleet.slots
      ("beta", new_slot beta 1) [] refl

alpha_is_taken : count "alpha" (taken floats none fleet single everyone) ≡ 1
unfolding program
alpha_is_taken = refl

release_drops_claim_example :
    (s' : Slot) × (is_free 100 recovering ≡ false)
    × (lookup "alpha" (Pool.release alpha troubled).slots ≡ some s')
    × (1 ≤ s'.in_flight)
    × (s'.recovery_due ≡ true)
    × (is_free 100 s' ≡ true)
unfolding lookup
release_drops_claim_example =
    release_drops_claim troubled alpha recovering 100 refl refl refl (omega arith) refl refl

acquire_round-Round_example :
    Round floats none request
      (at_reading 10)
      fleet
      (acquire_round floats none request (at_reading 10) fleet)
acquire_round-Round_example =
    acquire_round-Round floats none request (at_reading 10) fleet (omega arith)

acquire_many-ends_example :
    InTime floats none request 40
      (at_reading 45)
      (acquire_many floats none request (at_reading 10) troubled ((at_reading 45, troubled) ∷ []))
acquire_many-ends_example =
    acquire_many-ends floats none request 40 (at_reading 10) troubled
      ((at_reading 45, troubled) ∷ []) refl

abbrev all_off : Pool
all_off = record fleet { slots = ("alpha", record (new_slot alpha 0) { disabled = true }) ∷ [] }

exhaustion_reason-Means_example : Means everyone all_off (exhaustion_reason everyone all_off)
unfolding program
exhaustion_reason-Means_example = exhaustion_reason-Means everyone all_off refl (refl, tt) refl
