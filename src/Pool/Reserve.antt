-- ===== src/Pool/Reserve.antt =====
-- src/llmbroker/broker/pool.py: `_candidates`, `_reserve` and `_cover`. A slot is known by its key in
-- the dict, which is its identity: what `_reserve` changes is changed in the pool.
pub mod Counts
pub mod Effects
pub mod Best
pub mod Recovery
use llmbroker.Base.{
  ℕ, suc, ◌+◌, ◌-◌, String, Bool, true, false, not, ◌&&◌, ◌||◌, Option, none, some, List, [], ◌∷◌,
  ◌++◌, map, Dict, update, keys, if◌then◌else◌, ℤ, mem, all_some, filter, take, drop, length,
}
use llmbroker.Base.Sorting.{sorted}
use llmbroker.Models.{Instant, LlmConfig}
use llmbroker.Optimizer.Floats.{FloatOps}
use llmbroker.Optimizer.{Optimizer}
use llmbroker.Pool.{Pool}
use llmbroker.Pool.Slots.{Slot, is_free}
use llmbroker.Pool.Ranking.{Rank, rank, rank_lt}

abbrev pub Entry : Type 0
Entry = String × Slot

-- Whom a call may be handed: what its caller can pay for, whom it refuses, and whom it is held to.
pub record Boundary : Type 0 where
  pub payable : List String
  pub exclude : List String
  pub eligible_names : Option (List String)

unfoldable pub is_candidate : Boundary → Entry → Bool
is_candidate b (key, s) =
    (all_some (mem s.config.name) b.eligible_names && mem s.config.api_key_ref b.payable)
    && (not s.disabled && not (mem s.config.name b.exclude))

unfoldable pub candidates : Boundary → Pool → List Entry
candidates b p = filter (is_candidate b) p.slots

-- What selection weighs beside the candidates.
pub record Context : Type 0 where
  pub width : ℕ
  pub recovery_width : ℕ
  pub remaining : Option ℤ
  pub now : Instant
  pub operation : Option String

abbrev pub is_due : Entry → Bool
is_due e = e.1.recovery_due

-- What runs beside a recovery attempt: ordinary entries first.
unfoldable pub cover : List Entry → ℕ → List Entry
cover rest count = take count (filter (λ e. not (is_due e)) rest ++ filter is_due rest)

unfoldable pub reserved : Slot → Slot
reserved s = record s { in_flight = s.in_flight + 1; recovery_claimed = s.recovery_due }

unfoldable pub take_slots : List Entry → Dict Slot → Dict Slot
take_slots [] slots = slots
take_slots (e ∷ best) slots = take_slots best (update e.0 reserved slots)

-- `best`, covered where its head is a recovery attempt.
unfoldable pub covered : List Entry → List Entry → ℕ → List Entry
covered [] rest count = []
covered (e ∷ es) rest count = if is_due e then (e ∷ es) ++ cover rest count else e ∷ es

module _ (fl : FloatOps) (opt : Option Optimizer) where
  unfoldable pub before : Pool → Context → Entry → Entry → Bool
  before p c a b =
      rank_lt fl (rank fl opt p c.remaining c.now c.operation a.1)
        (rank fl opt p c.remaining c.now c.operation b.1)

  -- The free candidates, best first.
  unfoldable pub ranked : Pool → Context → List Entry → List Entry
  ranked p c found = sorted (before p c) (filter (λ e. is_free c.now e.1) found)

  unfoldable pub chosen : Pool → Context → List Entry → List Entry
  chosen p c found =
      let free = ranked p c found in
      covered (take c.width free) (drop c.width free) (c.recovery_width - c.width)

  unfoldable pub reserve : Pool → Context → List Entry → List LlmConfig × Pool
  reserve p c found =
      let best = chosen p c found in
      (map (λ e. e.1.config) best, record p { slots = take_slots best p.slots })
