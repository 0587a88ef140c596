-- ===== src/Pool/Acquire.antt =====
-- src/llmbroker/broker/pool.py: `acquire_many`, `take_free`, and what a call that gets no slot is
-- told. The loop of `acquire_many` runs over what each wait comes back to: a reading of the clocks,
-- and the pool as the other callers have left it.
pub mod Outcomes
pub mod Reasons
use llmbroker.Base.{
  ℕ, suc, ◌+◌, ◌-◌, ◌*◌, String, Bool, true, false, not, ◌&&◌, ◌||◌, Option, none, some, List, [],
  ◌∷◌, ◌++◌, map, keys, values, if◌then◌else◌, ℤ, sub_ℕ, ltb_ℤ, min_ℤ, pos, mem, any, all_some,
  any_some, filter, is_empty, leb, ltb,
}
use llmbroker.Models.{Instant, LlmConfig}
use llmbroker.Optimizer.Floats.{FloatOps}
use llmbroker.Optimizer.{Optimizer}
use llmbroker.Pool.{Pool}
use llmbroker.Pool.Slots.{Slot, is_free, has_capacity}
use llmbroker.Pool.Reserve.{Entry, Boundary, Context, candidates, reserve}

pub data Reason : Type 0 where
  excluded empty_pool no_keys all_disabled timeout : Reason

-- NoLLMAvailableError, without its text.
pub record NoLlmAvailable : Type 0 where
  pub reason : Reason
  pub retry_at : Option Instant

-- The readings of one round, in microseconds; `asked`, `checked` and `waited` are those of
-- `time.monotonic`, in the order of the code.
pub record Clocks : Type 0 where
  pub now : Instant
  pub asked : ℕ
  pub checked : ℕ
  pub waited : ℕ

abbrev pub least : ℕ → Option ℕ → ℕ
least x none = x
least x (some m) = if ltb m x then m else x

-- `min(xs) if xs else None`.
unfoldable pub minimum : List ℕ → Option ℕ
minimum [] = none
minimum (x ∷ xs) = some (least x (minimum xs))

abbrev pub least_ℤ : ℤ → Option ℤ → ℤ
least_ℤ x none = x
least_ℤ x (some m) = min_ℤ x m

unfoldable pub minimum_ℤ : List ℤ → Option ℤ
minimum_ℤ [] = none
minimum_ℤ (x ∷ xs) = some (least_ℤ x (minimum_ℤ xs))

-- A cooldown, where it is still running.
abbrev pub running : Instant → Option Instant → List Instant
running now none = []
running now (some until) = if ltb now until then until ∷ [] else []

unfoldable pub cooling : Instant → List Entry → List Instant
cooling now [] = []
cooling now (e ∷ found) = running now e.1.cooldown_until ++ cooling now found

unfoldable pub earliest_return : List Entry → Instant → Option Instant
earliest_return found now = minimum (cooling now found)

-- `retry_at`, at a reading of the clock.
unfoldable pub retry_at : Instant → Pool → List String → List String → Option Instant
retry_at now p payable exclude =
    let found =
      candidates (record { payable = payable; exclude = exclude; eligible_names = none }) p in
    if any (λ e. is_free now e.1) found then none else earliest_return found now

-- The spans until the cooldowns of the slots that have capacity end.
unfoldable pub wakeups : Instant → List Entry → List ℤ
wakeups now found =
    map (λ until. pos (until - now)) (cooling now (filter (λ e. has_capacity e.1) found))

unfoldable pub wake_timeout : Instant → Option ℕ → ℕ → List Entry → Option ℤ
wake_timeout now none monotonic found = minimum_ℤ (wakeups now found)
wake_timeout now (some queue_deadline) monotonic found =
    minimum_ℤ (wakeups now found ++ sub_ℕ queue_deadline monotonic ∷ [])

unfoldable pub exhaustion_reason : Boundary → Pool → Reason
exhaustion_reason b p =
    if any (λ name. mem name (keys p.slots)) b.exclude
    then excluded
    else if is_empty p.slots
    then empty_pool
    else if not (any (λ e. mem e.1.config.api_key_ref b.payable) p.slots)
    then no_keys
    else all_disabled

-- The call's own limits: `queue_deadline` and `answer_deadline` are readings of the monotonic clock.
pub record Request : Type 0 where
  pub boundary : Boundary
  pub width : ℕ
  pub recovery_width : ℕ
  pub operation : Option String
  pub queue_deadline : Option ℕ
  pub answer_deadline : Option ℕ

pub data Acquired : Type 0 where
  taken : List LlmConfig → Pool → Acquired
  raised : NoLlmAvailable → Acquired
  waits : (timeout : Option ℤ) → Acquired

abbrev pub remaining_at : Option ℕ → ℕ → Option ℤ
remaining_at none monotonic = none
remaining_at (some deadline) monotonic = some (sub_ℕ deadline monotonic)

abbrev pub context : Request → Clocks → Context
context r t = record {
  width = r.width;
  recovery_width = r.recovery_width;
  remaining = remaining_at r.answer_deadline t.asked;
  now = t.now;
  operation = r.operation;
}

-- What a round that reserved nothing comes to.
unfoldable pub refused : Request → Clocks → Pool → Acquired
refused r t p =
    let found = candidates r.boundary p in
    if is_empty found
    then raised (record { reason = exhaustion_reason r.boundary p; retry_at = none })
    else if any_some (λ deadline. leb deadline t.checked) r.queue_deadline
    then raised (record { reason = timeout; retry_at = earliest_return found t.now })
    else waits (wake_timeout t.now r.queue_deadline t.waited found)

module _ (fl : FloatOps) (opt : Option Optimizer) where
  -- One round of the loop.
  unfoldable pub acquire_round : Request → Clocks → Pool → Acquired
  acquire_round r t p =
      let (configs, after) = reserve fl opt p (context r t) (candidates r.boundary p) in
      if is_empty configs then refused r t p else taken configs after

  -- `acquire_many`: a round that waits is followed by one on what the wait comes back to. With no
  -- more of the schedule the call is still waiting.
  unfoldable pub acquire_many : Request → Clocks → Pool → List (Clocks × Pool) → Acquired
  acquire_many r t p [] = acquire_round r t p
  acquire_many r t p ((t', p') ∷ later) = elim (acquire_round r t p) [
    | taken configs after ↦ taken configs after
    | raised e ↦ raised e
    | waits span ↦ acquire_many r t' p' later
  ]

  -- `take_free`; `still_needed` is what the caller's test answers, and no test is one that passes.
  unfoldable pub take_free : Request → Bool → Clocks → Pool → List LlmConfig × Pool
  take_free r still_needed t p =
      if still_needed
      then reserve fl opt p (record (context r t) { recovery_width = 1 }) (candidates r.boundary p)
      else ([], p)
