-- ===== src/Optimizer/Floats.antt =====
-- The float arithmetic that optimizer.py uses: the machine's, so a parameter here.
use llmbroker.Base.{ℕ, Bool}
use llmbroker.Models.{Double}

pub record FloatOps : Type 0 where
  pub of_ℕ : ℕ → Double
  pub fadd : Double → Double → Double
  pub fsub : Double → Double → Double
  pub fmul : Double → Double → Double
  pub fdiv : Double → Double → Double
  -- `x ** 0.5`.
  pub sqrt : Double → Double
  pub neg : Double → Double
  pub lt : Double → Double → Bool
  pub is_zero : Double → Bool
  -- `NormalDist().inv_cdf`.
  pub inv_cdf : Double → Double
