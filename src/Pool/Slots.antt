-- ===== src/Pool/Slots.antt =====
-- src/llmbroker/broker/pool.py: one slot, whether it is free, and the recent budget misses. Seconds
-- are kept as whole microseconds.
use llmbroker.Base.{ℕ, Bool, false, not, ◌&&◌, Option, none, all_some, leb, ltb}
use llmbroker.Models.{Instant, LlmConfig}

-- `_Bound`: the largest budget a model recently missed, and when that lapses.
pub record Bound : Type 0 where
  pub seconds : ℕ
  pub until : Instant

pub record Slot : Type 0 where
  pub config : LlmConfig
  pub in_flight : ℕ
  pub cooldown_until : Option Instant
  pub fail_count : ℕ
  pub disabled : Bool
  pub order : ℕ
  pub recovery_due : Bool
  pub recovery_claimed : Bool

abbrev pub new_slot : LlmConfig → ℕ → Slot
new_slot cfg order = record {
  config = cfg;
  in_flight = 0;
  cooldown_until = none;
  fail_count = 0;
  disabled = false;
  order = order;
  recovery_due = false;
  recovery_claimed = false;
}

abbrev pub has_capacity : Slot → Bool
has_capacity s = all_some (λ cap. ltb s.in_flight cap) s.config.parallel

unfoldable pub is_free : Instant → Slot → Bool
is_free now s =
    (not s.recovery_claimed && has_capacity s) && all_some (λ until. leb until now) s.cooldown_until
