-- ===== src/Catalog/Reports.antt =====
-- src/llmbroker/broker/catalog.py: what the catalog says of its health in the log. A line is kept as
-- what it says; its text and its level are left out.
pub mod Quiet
use llmbroker.Base.{
  ℕ, ◌==◌, String, Bool, true, false, not, ◌&&◌, Option, none, some, List, [], ◌∷◌, ◌++◌, map,
  filter, mem, if◌then◌else◌, any_some, leb,
}
use llmbroker.Models.{PendingKey}
use llmbroker.Catalog.Measure.{PoolHealth, is_degraded, set_add}

-- `_NO_POOL`, `_HEALTHY`, and a count of usable providers that is degraded.
pub data HealthState : Type 0 where
  no_pool healthy : HealthState
  degraded_to : ℕ → HealthState

abbrev pub state_eq : HealthState → HealthState → Bool
state_eq no_pool no_pool = true
state_eq healthy healthy = true
state_eq (degraded_to m) (degraded_to n) = m == n
state_eq _ _ = false

unfoldable pub state_of : PoolHealth → HealthState
state_of h =
    if h.providers_total == 0
    then no_pool
    else if is_degraded h
    then degraded_to h.providers_usable
    else healthy

pub data Line : Type 0 where
  cannot_serve recovered : Line
  no_failover : (total : ℕ) → Line

-- `previous is not None and previous >= 0`.
abbrev pub was_degraded : Option HealthState → Bool
was_degraded (some (degraded_to n)) = true
was_degraded _ = false

-- The line of a state that is new.
unfoldable pub line_of : Option HealthState → PoolHealth → Option Line
line_of previous h = elim (state_of h) [
  | no_pool ↦ none
  | _ ↦
      if h.providers_usable == 0
      then some cannot_serve
      else if is_degraded h
      then some (no_failover h.providers_total)
      else if was_degraded previous
      then some recovered
      else none
]

-- `_report_health`: the state that is remembered, and the line.
unfoldable pub report_health : Option HealthState → PoolHealth → Option HealthState × Option Line
report_health previous h =
    if any_some (state_eq (state_of h)) previous
    then (previous, none)
    else (some (state_of h), line_of previous h)

-- Whose keys are missing: a pooled provider's, or one that only a declared model wants.
pub data MissingLine : Type 0 where
  pool_inactive direct_fails : (api_key_ref : String) → MissingLine

unfoldable pub missing_line : (pooled : List String) → PendingKey → MissingLine
missing_line pooled key =
    if mem key.api_key_ref pooled
    then pool_inactive key.api_key_ref
    else direct_fails key.api_key_ref

unfoldable pub report_each :
    (pooled reported : List String) → List PendingKey → List MissingLine × List String
report_each pooled reported [] = ([], reported)
report_each pooled reported (key ∷ keys) =
    let (lines, after) = report_each pooled (set_add key.api_key_ref reported) keys in
    (if mem key.api_key_ref reported then lines else missing_line pooled key ∷ lines, after)

abbrev pub refs_of : List PendingKey → List String
refs_of keys = map (λ k. k.api_key_ref) keys

-- `_report_missing_keys`: the refs that are remembered as reported, and the lines.
unfoldable pub report_missing_keys :
    (reported : List String)
    → (missing direct_missing : List PendingKey) → List String × List MissingLine
report_missing_keys reported missing direct_missing =
    let pending = missing ++ direct_missing in
    let (lines, after) = report_each (refs_of missing) reported pending in
    (filter (λ ref. mem ref (refs_of pending)) after, lines)
