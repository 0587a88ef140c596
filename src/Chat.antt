-- ===== src/Chat.antt =====
-- src/llmbroker/chat.py: the token counts that a provider reports.
pub mod Counts
pub mod Requests
pub mod Completions
pub mod Sse
use llmbroker.Base.{
  ℕ, String, Bool, true, false, not, ◌&&◌, Option, none, some, List, [], ◌∷◌, Dict, lookup, mem,
  if◌then◌else◌, is_empty, ℤ, pos, negsuc, ltb_ℤ,
}
use llmbroker.Models.{Double, Value, integer, real, table, Usage}
use llmbroker.Metadata.{dict_of_fields}

-- `_MAX_INT64`: 2 ^ 63 - 1.
abbrev pub max_int64 : ℕ
max_int64 = 9_223_372_036_854_775_807

-- `-_MAX_INT64 - 1 <= value <= _MAX_INT64`, the count or None.
unfoldable pub stored_count : ℤ → Option ℤ
stored_count n =
    if not (ltb_ℤ n (negsuc max_int64)) && not (ltb_ℤ (pos max_int64) n) then some n else none

abbrev pub stored_whole : Option ℤ → Option ℤ
stored_whole none = none
stored_whole (some n) = stored_count n

-- `{"prompt_tokens", "completion_tokens", "total_tokens"}`.
abbrev pub known_counts : List String
known_counts = "prompt_tokens" ∷ "completion_tokens" ∷ "total_tokens" ∷ []

-- `whole` is the integer that a float is, and `none` for a float that is infinite, not a number, or
-- a fraction.
module _ (whole : Double → Option ℤ) where
  -- `_token_count`.
  unfoldable pub token_count : Value → Option ℤ
  token_count (integer n) = stored_count n
  token_count (real x) = stored_whole (whole x)
  token_count _ = none

  abbrev pub reported : Option Value → Option ℤ
  reported none = none
  reported (some v) = token_count v

  unfoldable pub extra_counts : Dict Value → Dict ℤ
  extra_counts [] = []
  extra_counts ((k, v) ∷ raw) =
      let rest = extra_counts raw in
      if mem k known_counts
      then rest
      else elim (token_count v) [ none ↦ rest | some count ↦ (k, count) ∷ rest ]

  unfoldable pub usage_of : Dict Value → Usage
  usage_of raw =
      let extra = extra_counts raw in
      record {
        prompt_tokens = reported (lookup "prompt_tokens" raw);
        completion_tokens = reported (lookup "completion_tokens" raw);
        total_tokens = reported (lookup "total_tokens" raw);
        extra = if is_empty extra then none else some extra;
      }

  -- A usage that is not an object is none.
  unfoldable pub usage_in : Option Value → Option Usage
  usage_in (some (table raw)) = some (usage_of (dict_of_fields raw))
  usage_in _ = none

  unfoldable pub parse_usage : Dict Value → Option Usage
  parse_usage body = usage_in (lookup "usage" body)
