-- ===== src/Pool/Ranking.antt =====
-- src/llmbroker/broker/pool.py: `_is_demoted`, `_priority`, `_over_budget` and `_rank`, the ordering
-- key of every acquisition.
use llmbroker.Base.{
  ℕ, ◌+◌, String, Bool, false, not, ◌&&◌, Option, none, some, lookup, ltb, leb, ℤ, pos, ltb_ℤ,
  any_some, List, [],
}
use llmbroker.Base.Sorting.{lex}
use llmbroker.Models.{Instant, Double}
use llmbroker.Optimizer.Floats.{FloatOps}
use llmbroker.Optimizer.{Optimizer}
use llmbroker.Optimizer
use llmbroker.Pool.{Pool}
use llmbroker.Pool.Slots.{Slot}

-- `_BUDGET_SLACK_SEC`, in microseconds.
abbrev pub budget_slack : ℕ
budget_slack = 1_000_000

pub record Rank : Type 0 where
  pub over_budget : Bool
  pub demoted : Bool
  pub neg_priority : Double
  pub order : ℕ

-- `remaining` is what is left for the answer, and may be negative.
unfoldable pub over_budget : Pool → Slot → Option ℤ → Instant → Bool
over_budget p slot none now = false
over_budget p slot (some remaining) now =
    any_some (λ b. not (leb b.until now) && ltb_ℤ remaining (pos (b.seconds + budget_slack)))
      (lookup slot.config.name p.budget_bounds)

-- Python's order of two keys: the first component that differs decides.
abbrev pub bool_lt : Bool → Bool → Bool
bool_lt a b = not a && b

module _ (fl : FloatOps) where
  unfoldable pub rank_lt : Rank → Rank → Bool
  rank_lt =
      lex (λ a b. bool_lt a.over_budget b.over_budget)
        (lex (λ a b. bool_lt a.demoted b.demoted)
          (lex (λ a b. fl.lt a.neg_priority b.neg_priority) (λ a b. ltb a.order b.order)))

  unfoldable pub is_demoted : Option Optimizer → String → Option String → Bool
  is_demoted none name operation = false
  is_demoted (some opt) name operation = Optimizer.is_demoted fl opt name operation

  unfoldable pub priority : Option Optimizer → Slot → Option String → Double
  priority none slot operation = slot.config.weight
  priority (some opt) slot operation =
      Optimizer.quality_score fl opt slot.config.name operation slot.config.weight

  unfoldable pub demoted_operations : Option Optimizer → String → List (Option String)
  demoted_operations none name = []
  demoted_operations (some opt) name = Optimizer.demoted_operations fl opt name

  unfoldable pub rank : Option Optimizer → Pool → Option ℤ → Instant → Option String → Slot → Rank
  rank opt p remaining now operation slot = record {
    over_budget = over_budget p slot remaining now;
    demoted = is_demoted opt slot.config.name operation;
    neg_priority = fl.neg (priority opt slot operation);
    order = slot.order;
  }
