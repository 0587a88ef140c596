-- ===== src/Store.antt =====
-- src/llmbroker/backends/ports.py: the journal's rows and the domain ports over a driver, with the
-- driver of src/llmbroker/backends/inmemory.py and src/llmbroker/journal_policy.py. A row is a record
-- of its columns; a column that `row.get` does not find is none. `datetime.min` is the instant 0.
pub mod Journal
pub mod Tables
pub mod Retention
pub mod Rows
pub mod Views
pub mod Ratings
pub mod Recorded
use text.Mathlib.Text.{◌==◌ as str_eq}
use llmbroker.Base.{
  ℕ, ◌+◌, ◌-◌, String, Bool, true, false, not, ◌&&◌, ◌||◌, Option, none, some, List, [], ◌∷◌, ◌++◌,
  if◌then◌else◌, is_some, ℤ, Dict, or_else,
}
use llmbroker.Models.{Instant, Double, Call, CallStatus, Usage}

-- KIND_CALL and KIND_QUALITY.
pub data Kind : Type 0 where
  kind_call kind_quality : Kind

pub record Row : Type 0 where
  pub id : String
  pub kind : Kind
  pub llm_name : String
  pub operation : Option String
  pub trace_id : Option String
  pub status : Option CallStatus
  pub http_status : Option ℕ
  pub latency_ms : Option ℕ
  pub error_detail : Option String
  pub prompt_tokens : Option ℤ
  pub completion_tokens : Option ℤ
  pub total_tokens : Option ℤ
  pub usage_extra : Option (Dict ℤ)
  pub quality_score : Option Double
  pub call_id : Option String
  pub called_at : Option Instant
  pub scope : Option String
  pub cooldown_until : Option Instant
  pub budget_ms : Option ℕ
  -- What a view folds onto the row.
  pub score : Option Double

-- `_usage_columns`.
pub record UsageColumns : Type 0 where
  pub prompt_tokens : Option ℤ
  pub completion_tokens : Option ℤ
  pub total_tokens : Option ℤ
  pub usage_extra : Option (Dict ℤ)

unfoldable pub usage_columns : Option Usage → UsageColumns
usage_columns none = record {
  prompt_tokens = none;
  completion_tokens = none;
  total_tokens = none;
  usage_extra = none;
}
usage_columns (some u) = record {
  prompt_tokens = u.prompt_tokens;
  completion_tokens = u.completion_tokens;
  total_tokens = u.total_tokens;
  usage_extra = u.extra;
}

-- `_call_to_row`.
unfoldable pub call_to_row : Call → Row
call_to_row c =
    let counts = usage_columns c.usage in
    record {
      id = c.id;
      kind = kind_call;
      llm_name = c.llm_name;
      operation = c.operation;
      trace_id = c.trace_id;
      status = c.status;
      http_status = c.http_status;
      latency_ms = c.latency_ms;
      error_detail = c.error_detail;
      prompt_tokens = counts.prompt_tokens;
      completion_tokens = counts.completion_tokens;
      total_tokens = counts.total_tokens;
      usage_extra = counts.usage_extra;
      quality_score = none;
      call_id = none;
      called_at = c.ts;
      scope = c.scope;
      cooldown_until = c.cooldown_until;
      budget_ms = c.budget_ms;
      score = none;
    }

-- `_row_to_call`: a usage is there where any of its columns is.
abbrev pub has_counts : UsageColumns → Bool
has_counts u =
    is_some u.prompt_tokens
    || is_some u.completion_tokens
    || is_some u.total_tokens
    || is_some u.usage_extra

unfoldable pub usage_from : UsageColumns → Option Usage
usage_from u =
    if has_counts u
    then some (record {
      prompt_tokens = u.prompt_tokens;
      completion_tokens = u.completion_tokens;
      total_tokens = u.total_tokens;
      extra = u.usage_extra;
    })
    else none

unfoldable pub row_to_call : Row → Call
row_to_call r = record {
  id = r.id;
  llm_name = r.llm_name;
  operation = r.operation;
  trace_id = r.trace_id;
  status = r.status;
  ts = r.called_at;
  http_status = r.http_status;
  latency_ms = r.latency_ms;
  error_detail = r.error_detail;
  usage = usage_from (record {
    prompt_tokens = r.prompt_tokens;
    completion_tokens = r.completion_tokens;
    total_tokens = r.total_tokens;
    usage_extra = r.usage_extra;
  });
  score = r.score;
  scope = r.scope;
  cooldown_until = r.cooldown_until;
  budget_ms = r.budget_ms;
}

-- `quality_row`, with the id that it draws and the clock that it reads.
unfoldable pub quality_row : String → Instant → String → Double → Option String → Row
quality_row fresh_id now call_id score scope = record {
  id = fresh_id;
  kind = kind_quality;
  llm_name = "";
  operation = none;
  trace_id = none;
  status = none;
  http_status = none;
  latency_ms = none;
  error_detail = none;
  prompt_tokens = none;
  completion_tokens = none;
  total_tokens = none;
  usage_extra = none;
  quality_score = some score;
  call_id = some call_id;
  called_at = some now;
  scope = scope;
  cooldown_until = none;
  budget_ms = none;
  score = none;
}

-- `with_utc_timestamps`: an instant is in UTC already.
unfoldable pub with_utc_timestamps : Instant → Call → Call
with_utc_timestamps now c = record c { ts = some (or_else c.ts now) }
