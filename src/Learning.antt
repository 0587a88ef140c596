-- ===== src/Learning.antt =====
-- src/llmbroker/broker/learning.py and src/llmbroker/broker/stats.py: what a read of the journal's
-- tail, newest row first, says of the models.
pub mod Stats
pub mod Misses
use text.Mathlib.Text.{◌==◌ as str_eq}
use llmbroker.Base.{
  ℕ, ◌+◌, ◌-◌, ◌*◌, String, Bool, true, false, not, ◌||◌, Option, none, some, List, [], ◌∷◌, ◌++◌,
  map, Dict, lookup, insert, has_key, or_else, any_some, if◌then◌else◌, ltb, mem, length,
}
use llmbroker.Models.{Instant, Double, Call, CallStatus, ok, status_eq, LlmStats, LlmMetrics}
use llmbroker.Optimizer.{Optimizer, load_scores}
use llmbroker.Optimizer.Windows.{Bucket, Window, window_of, put_window}
use llmbroker.Pool
use llmbroker.Pool.{Pool}

-- The four dicts that `stats_from_calls` fills.
pub record Tally : Type 0 where
  pub totals : Dict ℕ
  pub by_status : Dict (List (CallStatus × ℕ))
  pub newest : Dict Call
  pub oldest : Dict Call

abbrev pub no_tally : Tally
no_tally = record { totals = []; by_status = []; newest = []; oldest = [] }

-- `counts[status] = counts.get(status, 0) + 1`.
unfoldable pub count_status : CallStatus → List (CallStatus × ℕ) → List (CallStatus × ℕ)
count_status status [] = (status, 1) ∷ []
count_status status ((s, n) ∷ counts) =
    if status_eq s status then (s, n + 1) ∷ counts else (s, n) ∷ count_status status counts

unfoldable pub counted : Call → Dict (List (CallStatus × ℕ)) → Dict (List (CallStatus × ℕ))
counted row by_status = elim row.status [
  | none ↦ by_status
  | some status ↦
      insert row.llm_name (count_status status (or_else (lookup row.llm_name by_status) []))
        by_status
]

unfoldable pub note : Call → Tally → Tally
note row t = record {
  totals = insert row.llm_name (or_else (lookup row.llm_name t.totals) 0 + 1) t.totals;
  by_status = counted row t.by_status;
  newest = if has_key row.llm_name t.newest then t.newest else insert row.llm_name row t.newest;
  oldest = insert row.llm_name row t.oldest;
}

unfoldable pub tally : Tally → List Call → Tally
tally t [] = t
tally t (row ∷ rows) = tally (note row t) rows

abbrev pub ts_of : Option Call → Option Instant
ts_of none = none
ts_of (some row) = row.ts

abbrev pub status_of : Option Call → Option CallStatus
status_of none = none
status_of (some row) = row.status

-- Every name with a total has a newest and an oldest row.
unfoldable pub stats_of : Tally → String → ℕ → LlmStats
stats_of t name total = record {
  total = total;
  by_status = or_else (lookup name t.by_status) [];
  first_at = ts_of (lookup name t.oldest);
  last_at = ts_of (lookup name t.newest);
  last_status = status_of (lookup name t.newest);
}

unfoldable pub stats_from_calls : List Call → Dict LlmStats
stats_from_calls rows = let t = tally no_tally rows in map (λ e. (e.0, stats_of t e.0 e.1)) t.totals

unfoldable pub metrics_from_calls : List Call → Dict LlmMetrics
metrics_from_calls rows =
    map
      (λ e. (
        e.0,
        record { call_count = e.1.total; last_status = e.1.last_status; last_at = e.1.last_at },
      ))
      (stats_from_calls rows)

-- The models that have answered, and the largest miss of each other one, so far.
pub record Sweep : Type 0 where
  pub bounds : Dict (ℕ × Instant)
  pub answered : List String

-- The budget that a row says was missed since then, in microseconds, and when.
unfoldable pub miss_of : Instant → Call → Option (ℕ × Instant)
miss_of since row = elim row.budget_ms [
  | none ↦ none
  | some budget_ms ↦ elim row.ts [
    | none ↦ none
    | some ts ↦ if ltb ts since then none else some (budget_ms * 1000, ts)
  ]
]

-- `current is None or seconds > current[0]`.
abbrev pub larger : Option (ℕ × Instant) → ℕ × Instant → ℕ × Instant
larger none miss = miss
larger (some current) miss = if ltb current.0 miss.0 then miss else current

abbrev pub widened : Dict (ℕ × Instant) → String → Option (ℕ × Instant) → Dict (ℕ × Instant)
widened bounds name none = bounds
widened bounds name (some miss) = insert name (larger (lookup name bounds) miss) bounds

abbrev pub is_ok : Call → Bool
is_ok row = any_some (status_eq ok) row.status

unfoldable pub advance : Instant → Call → Sweep → Sweep
advance since row s =
    if mem row.llm_name s.answered
    then s
    else if is_ok row
    then record s { answered = row.llm_name ∷ s.answered }
    else record s { bounds = widened s.bounds row.llm_name (miss_of since row) }

unfoldable pub sweep : Instant → Sweep → List Call → Sweep
sweep since s [] = s
sweep since s (row ∷ rows) = sweep since (advance since row s) rows

unfoldable pub budget_bounds_from_calls : Instant → List Call → Dict (ℕ × Instant)
budget_bounds_from_calls since rows =
    (sweep since (record { bounds = []; answered = [] }) rows).bounds

-- One rated row, in its bucket; a bucket that is full takes no older rating.
unfoldable pub gather : ℕ → Call → List (Bucket × Window) → List (Bucket × Window)
gather window row scores = elim row.score [
  | none ↦ scores
  | some score ↦
      let bucket : Bucket = (row.llm_name, row.operation) in
      let held = or_else (window_of bucket scores) [] in
      put_window bucket (if ltb (length held) window then held ++ (row.id, score) ∷ [] else held)
        scores
]

unfoldable pub gather_all : ℕ → List (Bucket × Window) → List Call → List (Bucket × Window)
gather_all window scores [] = scores
gather_all window scores (row ∷ rows) = gather_all window (gather window row scores) rows

abbrev pub reversed : Window → Window
reversed [] = []
reversed (e ∷ w) = reversed w ++ e ∷ []

-- `_apply_scores_and_metrics`, on the optimizer.
unfoldable pub apply_scores : Optimizer → List Call → Optimizer
apply_scores opt rows =
    load_scores opt (map (λ e. (e.0, reversed e.1)) (gather_all opt.quality_window [] rows))

-- `relearn`, on the rows that the store has read: the optimizer, the metrics, and the pool.
unfoldable pub relearn : Instant → List Call → Optimizer → Pool → Optimizer × Dict LlmMetrics × Pool
relearn now rows opt p = (
  apply_scores opt rows,
  metrics_from_calls rows,
  Pool.apply_budget_bounds (budget_bounds_from_calls (now - Pool.budget_bound_window) rows) p,
)
