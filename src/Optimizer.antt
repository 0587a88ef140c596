-- ===== src/Optimizer.antt =====
-- src/llmbroker/optimizer.py: the failure streaks, and the windows of quality ratings.
pub mod Ratings
pub mod Floats
pub mod Windows
use llmbroker.Base.{
  ℕ, suc, ◌+◌, ◌-◌, String, ◌≡◌, Bool, true, false, not, ◌&&◌, Option, none, some, List, [], ◌∷◌,
  ◌++◌, map, Dict, length, last_n, is_empty, lookup, insert, or_else, if◌then◌else◌, ltb,
}
use text.Mathlib.Text.{◌==◌ as str_eq}
use llmbroker.Models.{Double}
use Floats.{FloatOps}
use Windows.{Bucket, Window, window_of, put_window, rate}

pub record Optimizer : Type 0 where
  pub max_delay : ℕ
  pub backoff_factor : ℕ
  pub quality_floor : Double
  pub quality_confidence : Double
  pub quality_window : ℕ
  pub quality_min_count : ℕ
  pub prior_strength : Double
  pub rl_fail_counts : Dict ℕ
  pub scores : List (Bucket × Window)

unfoldable pub rl_fail_count : Optimizer → String → ℕ
rl_fail_count opt llm_name = or_else (lookup llm_name opt.rl_fail_counts) 0

unfoldable pub on_rate_limited : Optimizer → String → Optimizer
on_rate_limited opt llm_name = record opt {
  rl_fail_counts = insert llm_name (suc (rl_fail_count opt llm_name)) opt.rl_fail_counts;
}

unfoldable pub on_success : Optimizer → String → Optimizer
on_success opt llm_name = record opt { rl_fail_counts = insert llm_name 0 opt.rl_fail_counts }

abbrev pub ratings : Window → List Double
ratings w = map (λ e. e.1) w

module _ (fl : FloatOps) where
  open fl use {of_ℕ, fadd, fsub, fmul, fdiv, sqrt, lt, is_zero, inv_cdf}

  unfoldable pub sum_from : Double → List Double → Double
  sum_from acc [] = acc
  sum_from acc (x ∷ xs) = sum_from (fadd acc x) xs

  -- The sum of a list over its length, the length a number above 0.
  unfoldable pub mean : List Double → Double
  mean xs = fdiv (sum_from (of_ℕ 0) xs) (of_ℕ (length xs))

  unfoldable pub z_score : Double → Double
  z_score confidence = inv_cdf (fdiv (fadd (of_ℕ 1) confidence) (of_ℕ 2))

  unfoldable pub wilson_upper : List Double → Double → Double
  wilson_upper xs z =
      let n = of_ℕ (length xs) in
      let p = mean xs in
      let z2 = fmul z z in
      let center = fadd p (fdiv z2 (fmul (of_ℕ 2) n)) in
      let spread = fdiv (fmul p (fsub (of_ℕ 1) p)) n in
      let margin = fmul z (sqrt (fadd spread (fdiv z2 (fmul (fmul (of_ℕ 4) n) n)))) in
      let denom = fadd (of_ℕ 1) (fdiv z2 n) in fdiv (fadd center margin) denom

  -- `max(0.0, x)`.
  abbrev clamp_0 : Double → Double
  clamp_0 x = if lt (of_ℕ 0) x then x else of_ℕ 0

  unfoldable pub wilson_bound : Optimizer → String → Option String → Option Double
  wilson_bound opt llm_name operation =
      let window = or_else (window_of (llm_name, operation) opt.scores) [] in
      if is_empty window
      then none
      else some (wilson_upper (ratings window) (z_score opt.quality_confidence))

  -- The weight of the curated prior beside `n` ratings.
  unfoldable pub strength : Optimizer → ℕ → Double
  strength opt n =
      fmul opt.prior_strength (clamp_0 (fsub (of_ℕ 1) (fdiv (of_ℕ n) (of_ℕ opt.quality_window))))

  unfoldable pub quality_score : Optimizer → String → Option String → Double → Double
  quality_score opt llm_name operation weight =
      let window = or_else (window_of (llm_name, operation) opt.scores) [] in
      let n = length window in
      let observed = mean (ratings window) in
      let prior = strength opt n in
      if is_empty window
      then weight
      else if is_zero prior
      then observed
      else fdiv (fadd (fmul (of_ℕ n) observed) (fmul prior weight)) (fadd (of_ℕ n) prior)

  unfoldable pub is_demoted : Optimizer → String → Option String → Bool
  is_demoted opt llm_name operation = elim (window_of (llm_name, operation) opt.scores) [
    | none ↦ false
    | some window ↦
        not (ltb (length window) opt.quality_min_count)
        && lt (wilson_upper (ratings window) (z_score opt.quality_confidence)) opt.quality_floor
  ]

  -- The operations whose window of this model is demoted.
  unfoldable pub demoted_among : Optimizer → String → List (Bucket × Window) → List (Option String)
  demoted_among opt llm_name [] = []
  demoted_among opt llm_name (((name, operation), window) ∷ rest) =
      let others = demoted_among opt llm_name rest in
      if str_eq name llm_name && is_demoted opt name operation then operation ∷ others else others

  unfoldable pub demoted_operations : Optimizer → String → List (Option String)
  demoted_operations opt llm_name = demoted_among opt llm_name opt.scores

-- `record_quality`; what it only logs is left out.
unfoldable pub record_quality : Optimizer → String → Option String → String → Double → Optimizer
record_quality opt llm_name operation call_id score =
    let window = or_else (window_of (llm_name, operation) opt.scores) [] in
    record opt {
      scores =
          put_window (llm_name, operation) (rate opt.quality_window call_id score window)
            opt.scores;
    }

-- `load_scores`: every window is replaced.
unfoldable pub load_scores : Optimizer → List (Bucket × Window) → Optimizer
load_scores opt loaded = record opt {
  scores = map (λ e. (e.0, last_n opt.quality_window e.1)) loaded;
}
