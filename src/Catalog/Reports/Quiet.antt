-- ===== src/Catalog/Reports/Quiet.antt =====
-- A report that has nothing new to say is silent.
use text.Mathlib.Text.{◌==◌ as str_eq}
use llmbroker.Base.{
  ℕ, String, ◌≡◌, ◌≢◌, refl, sym, ◌∙◌, ap, ◌↔◌, true, not, ◌&&◌, ◌||◌, Option, none, some, List, [],
  ◌∷◌, ◌++◌, arith, mem, mem-filter, ◌+◌, if◌then◌else◌, eq_iff, Bool-cases, inl, inr,
}
use llmbroker.Models.{PendingKey}
use llmbroker.Catalog.Measure.{PoolHealth, is_degraded, set_add}
use llmbroker.Catalog.Measure.Partition.{mem-set_add}
use llmbroker.Catalog.Reports.{
  HealthState, no_pool, healthy, degraded_to, state_eq, state_of, cannot_serve, recovered,
  was_degraded, line_of, report_health, MissingLine, pool_inactive, direct_fails, missing_line,
  report_each, refs_of, report_missing_keys,
}

state_eq_refl : (s : HealthState) → state_eq s s ≡ true
state_eq_refl no_pool = refl
state_eq_refl healthy = refl
state_eq_refl (degraded_to n) = ground arith

state_eq_sound : (s t : HealthState) → state_eq s t ≡ true → s ≡ t
state_eq_sound no_pool no_pool h = refl
state_eq_sound healthy healthy h = refl
state_eq_sound (degraded_to m) (degraded_to n) h = ground arith
state_eq_sound no_pool healthy h = cc
state_eq_sound no_pool (degraded_to n) h = cc
state_eq_sound healthy no_pool h = cc
state_eq_sound healthy (degraded_to n) h = cc
state_eq_sound (degraded_to m) no_pool h = cc
state_eq_sound (degraded_to m) healthy h = cc

report_health-state :
    (previous : Option HealthState) (h : PoolHealth)
    → (report_health previous h).0 ≡ some (state_of h)
unfolding report_health
report_health-state none h = refl
report_health-state (some s) h = elim (Bool-cases (state_eq (state_of h) s)) [
  | inl same ↦ rw same (ap some (sym (state_eq_sound (state_of h) s same)))
  | inr new ↦ rw new refl
]

report_health_again : (h : PoolHealth) → (report_health (some (state_of h)) h).1 ≡ none
unfolding report_health
report_health_again h = rw (state_eq_refl (state_of h)) refl

module _ (h : PoolHealth) where
  line-cannot_serve :
      (previous : Option HealthState)
      → ((report_health previous h).1 ≡ some cannot_serve)
        ↔ ((state_of h ≡ degraded_to 0) × (previous ≢ some (degraded_to 0)))
  unfolding report_health line_of state_of is_degraded
  line-cannot_serve none = ground arith
  line-cannot_serve (some no_pool) = ground arith
  line-cannot_serve (some healthy) = ground arith
  line-cannot_serve (some (degraded_to n)) = ground arith

  line-recovered :
      (previous : Option HealthState)
      → ((report_health previous h).1 ≡ some recovered)
        ↔ ((state_of h ≡ healthy) × (was_degraded previous ≡ true))
  unfolding report_health line_of state_of is_degraded
  line-recovered none = ground arith
  line-recovered (some no_pool) = ground arith
  line-recovered (some healthy) = ground arith
  line-recovered (some (degraded_to n)) = ground arith

-- A report of the pool's health remembers the state that it was given. Its line says that no request
-- can be served exactly where the state is new and no provider of some is usable; that the pool has
-- recovered exactly where a degraded pool has become healthy; and a state that is remembered already
-- writes none.
pub report_health-Says :
    (previous : Option HealthState) (h : PoolHealth)
    → let (state, line) = report_health previous h in
      (state ≡ some (state_of h))
      × ((line ≡ some cannot_serve)
          ↔ ((state_of h ≡ degraded_to 0) × (previous ≢ some (degraded_to 0))))
      × ((line ≡ some recovered) ↔ ((state_of h ≡ healthy) × (was_degraded previous ≡ true)))
      × ((report_health state h).1 ≡ none)
report_health-Says previous h = (
  report_health-state previous h,
  line-cannot_serve h previous,
  line-recovered h previous,
  ap (λ s. (report_health s h).1) (report_health-state previous h) ∙ report_health_again h,
)

module _ (k : String) where
  abbrev ref_of : MissingLine → String
  ref_of (pool_inactive ref) = ref
  ref_of (direct_fails ref) = ref

  -- How often the lines name a ref.
  abbrev pub lines_about : List MissingLine → ℕ
  lines_about [] = 0
  lines_about (l ∷ ls) = (if str_eq (ref_of l) k then 1 else 0) + lines_about ls

  mem-report_each :
      (pooled reported : List String) (keys : List PendingKey)
      → mem k (report_each pooled reported keys).1 ≡ (mem k reported || mem k (refs_of keys))
  unfolding report_each set_add
  mem-report_each pooled reported [] = ground arith
  mem-report_each pooled reported (key ∷ keys) =
      mem-report_each pooled (set_add key.api_key_ref reported) keys
      ∙ ground (arith, eq_iff key.api_key_ref k)

  lines_about-report_each :
      (pooled reported : List String) (keys : List PendingKey)
      → lines_about (report_each pooled reported keys).0
        ≡ (if mem k (refs_of keys) && not (mem k reported) then 1 else 0)
  unfolding report_each missing_line
  lines_about-report_each pooled reported [] = refl
  lines_about-report_each pooled reported (key ∷ keys) = ground (
    arith,
    lines_about-report_each pooled (set_add key.api_key_ref reported) keys,
    mem-set_add key.api_key_ref reported k,
    eq_iff key.api_key_ref k,
  )

mem-refs_of :
    (k : String) (missing direct : List PendingKey)
    → mem k (refs_of (missing ++ direct)) ≡ (mem k (refs_of missing) || mem k (refs_of direct))
mem-refs_of k [] direct = refl
mem-refs_of k (key ∷ missing) direct = ground (arith, mem-refs_of k missing direct)

-- A ref is reported once for as long as it stays missing: a report names it in one line where it is
-- missing and not remembered, and in none otherwise; and what is remembered is exactly what is
-- missing, so that a ref which was found and is missing again is reported again.
pub report_missing_keys_once :
    (reported : List String) (missing direct : List PendingKey) (k : String)
    → let (after, lines) = report_missing_keys reported missing direct in
      let is_missing = mem k (refs_of missing) || mem k (refs_of direct) in
      (lines_about k lines ≡ (if is_missing && not (mem k reported) then 1 else 0))
      × (mem k after ≡ is_missing)
unfolding report_missing_keys
report_missing_keys_once reported missing direct k = (
  rw (← mem-refs_of k missing direct)
      (lines_about-report_each k (refs_of missing) reported (missing ++ direct)),
  mem-filter (λ ref. mem ref (refs_of (missing ++ direct))) k _
      ∙ ground (
        arith,
        mem-report_each k (refs_of missing) reported (missing ++ direct),
        mem-refs_of k missing direct,
      ),
)
