-- ===== src/Callers.antt =====
-- src/llmbroker/broker/llms.py: `AsyncLLMs`, one caller's view: the journal rows of its scope, the
-- rating of a past call, one model by its handle, and the second pass of an exhausted call; with
-- `snapshot`, `get` and `count` of src/llmbroker/broker/pool_view.py. The store is that of
-- src/llmbroker/backends/ports.py.
pub mod Ratings
pub mod Retries
use llmbroker.Store.Retention.{record_rating}
use text.Mathlib.Text.{◌==◌ as str_eq}
use llmbroker.Base.{
  ℕ, ◌-◌, String, Bool, true, false, not, ◌&&◌, ◌||◌, Option, none, some, List, [], ◌∷◌, map,
  if◌then◌else◌, is_some, find?, Dict, lookup, mem, length, has_key,
}
use llmbroker.Models.{
  Instant, Double, Call, CallStatus, status_eq, ok, LlmConfig, LlmMetrics, LlmStats,
}
use llmbroker.Optimizer
use llmbroker.Optimizer.{Optimizer}
use llmbroker.Optimizer.Floats.{FloatOps}
use llmbroker.Pool
use llmbroker.Pool.{Pool}
use llmbroker.Pool.Ranking.{demoted_operations}
use llmbroker.Pool.Acquire.{NoLlmAvailable}
use llmbroker.KeyRing.{Ring, Secrets, resolve}
use llmbroker.Learning.{stats_from_calls}
use llmbroker.Catalog.Overlay.{Handle, by_alias, by_name, Found, found, find_declared}
use llmbroker.Router.Calls.{CallError, rejected, unavailable}
use llmbroker.Store.{Row}
use llmbroker.Store.Journal
use llmbroker.Store.Journal.{Match}
use llmbroker.Results.{is_unit}

-- `calls`: none is the ValueError of a limit below 1.
unfoldable pub calls :
    Option String
    → ℕ
    → Option Instant
    → (operation trace_id call_id : Option String) → List Row
    → Option (List Call)
calls scope limit since operation trace_id call_id rows =
    Journal.calls limit
      (record { scope = scope; operation = operation; trace_id = trace_id; id = call_id }) since
      rows

-- `stats`.
abbrev pub stats_of : Option (List Call) → Option (Dict LlmStats)
stats_of none = none
stats_of (some tail) = some (stats_from_calls tail)

unfoldable pub stats :
    Option String → Option Instant → ℕ → Option String → List Row → Option (Dict LlmStats)
stats scope since limit operation rows = stats_of (calls scope limit since operation none none rows)

-- _RATING_WINDOW, 7 days, and _RATING_PAGE.
abbrev pub rating_window : ℕ
rating_window = 604_800_000_000

abbrev pub rating_page : ℕ
rating_page = 20

abbrev pub is_answered : Call → Bool
is_answered c = elim c.status [ none ↦ false | some status ↦ status_eq status ok ]

abbrev pub first_answered : Option (List Call) → Option Call
first_answered none = none
first_answered (some tail) = find? is_answered tail

-- `_resolve_rated`: a call id names one row, and a trace the attempts of one call.
unfoldable pub resolve_rated :
    Option String → Instant → (call_id trace_id : Option String) → List Row → Option Call
resolve_rated scope now call_id trace_id rows = first_answered (
    calls scope (if is_some call_id then 1 else rating_page) (some (now - rating_window)) none
      trace_id call_id rows)

pub data Rating : Type 0 where
  -- ValueError: the score, or the keys; UnknownCallError.
  bad_score bad_keys unknown_call : Rating
  rates :
      (rated : Call) (last_purge : Option ℕ) (journal : List Row) (learner : Option Optimizer)
      → Rating

-- What a write of the store reads for its purge: `time.monotonic`, the time of day, and the retention;
-- and when the store was last purged.
pub record PurgeReading : Type 0 where
  pub monotonic : ℕ
  pub today : Instant
  pub retention : ℕ
  pub last_purge : Option ℕ

abbrev pub learned : Call → Double → Option Optimizer → Option Optimizer
learned c score none = none
learned c score (some opt) = some (Optimizer.record_quality opt c.llm_name c.operation c.id score)

abbrev pub rate_found :
    Option String
    → (fresh_id : String) → Instant
    → PurgeReading
    → Double
    → List Row
    → Option Optimizer
    → Option Call
    → Rating
rate_found scope fresh_id now purge score rows opt none = unknown_call
rate_found scope fresh_id now purge score rows opt (some c) =
    let (last_purge, rows') =
      record_rating purge.monotonic purge.today purge.retention fresh_id now c.id score scope
        purge.last_purge rows in
    rates c last_purge rows' (learned c score opt)

-- `record_quality`. The clock is read for the window, and again for the row.
unfoldable pub record_quality :
    FloatOps
    → (Double → Double → Bool)
    → Option String
    → (fresh_id : String) → (asked now : Instant) → PurgeReading
    → Double
    → (call_id trace_id : Option String) → List Row
    → Option Optimizer
    → Rating
record_quality fl le scope fresh_id asked now purge score call_id trace_id rows opt =
    if not (is_unit fl le score)
    then bad_score
    else if (is_some call_id && is_some trace_id)
        || (not (is_some call_id) && not (is_some trace_id))
    then bad_keys
    else rate_found scope fresh_id now purge score rows opt
        (resolve_rated scope asked call_id trace_id rows)

-- What a routed call comes to, for its caller.
pub data Reply {ℓ} (A : Type ℓ) : Type ℓ where
  replied : A → Reply A
  refused : CallError → Reply A

-- `chat`: a caller who is told that the ports were re-read asks once more, with no wait. The routed
-- call and the question are parameters on a state.
module _ {ℓ κ} {A : Type ℓ} {W : Type κ} (route : Option ℕ → W → Reply A × W)
    (on_exhausted : NoLlmAvailable → W → Bool × W) where
  abbrev pub again_or : NoLlmAvailable → Bool × W → Reply A × W
  again_or e (again, w) =
      let second = route (some 0) w in if again then second else (refused (unavailable e), w)

  unfoldable pub after_first : Reply A → W → Reply A × W
  after_first (replied x) w = (replied x, w)
  after_first (refused (rejected e)) w = (refused (rejected e), w)
  after_first (refused (unavailable e)) w = again_or e (on_exhausted e w)

  unfoldable pub chat : Option ℕ → W → Reply A × W
  chat wait w = let (first, w') = route wait w in after_first first w'

-- `resolve_direct`.
pub data Direct : Type 0 where
  reaches : LlmConfig → (key : String) → Direct
  bad_handle : Direct
  missing_key : LlmConfig → Direct
  not_found : Found → Direct

abbrev pub handle_of : Option String → Option String → Option Handle
handle_of (some alias) none = some (by_alias alias)
handle_of none (some name) = some (by_name name)
handle_of _ _ = none

abbrev pub with_key : LlmConfig → Option String → Direct
with_key cfg none = missing_key cfg
with_key cfg (some key) = reaches cfg key

unfoldable pub resolve_found : Secrets → List Ring → Found → Direct × List Ring
resolve_found secrets rings (found cfg) =
    let (key, rings') = resolve secrets rings cfg.api_key_ref in (with_key cfg key, rings')
resolve_found secrets rings other = (not_found other, rings)

abbrev pub resolve_handle :
    List LlmConfig
    → List LlmConfig
    → Dict String
    → Secrets
    → List Ring
    → Option Handle
    → Direct × List Ring
resolve_handle stored declared unresolved secrets rings none = (bad_handle, rings)
resolve_handle stored declared unresolved secrets rings (some handle) =
    resolve_found secrets rings (find_declared stored declared unresolved handle)

unfoldable pub resolve_direct :
    (stored declared : List LlmConfig)
    → Dict String
    → Secrets
    → List Ring
    → (alias name : Option String) → Direct × List Ring
resolve_direct stored declared unresolved secrets rings alias name =
    resolve_handle stored declared unresolved secrets rings (handle_of alias name)

-- `LLMSnapshot`, and `PoolView.snapshot` of the models.
pub record LlmSnapshot : Type 0 where
  pub config : LlmConfig
  pub disabled : Bool
  pub has_key : Bool
  pub cooldown_until : Option Instant
  pub demoted_operations : List (Option String)
  pub metrics : Option LlmMetrics

abbrev pub snapshot_of :
    FloatOps
    → Option Optimizer
    → Instant
    → Pool
    → List String
    → Dict LlmMetrics
    → String
    → LlmConfig
    → LlmSnapshot
snapshot_of fl opt now p payable metrics name cfg = record {
  config = cfg;
  disabled = Pool.is_disabled p name;
  has_key = mem cfg.api_key_ref payable;
  cooldown_until = (Pool.state now p name).cooldown_until;
  demoted_operations = demoted_operations fl opt name;
  metrics = lookup name metrics;
}

unfoldable pub snapshot :
    FloatOps → Option Optimizer → Instant → Pool → List String → Dict LlmMetrics → Dict LlmSnapshot
snapshot fl opt now p payable metrics =
    map (λ e. (e.0, snapshot_of fl opt now p payable metrics e.0 e.1)) (Pool.configs p)

-- `PoolView.get`, of a handle's config, and `count`.
abbrev pub get_llm : Pool → String → Option LlmConfig
get_llm p name = Pool.config_of p name

abbrev pub count_llms : Pool → ℕ
count_llms p = length p.slots
