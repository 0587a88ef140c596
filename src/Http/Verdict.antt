-- ===== src/Http/Verdict.antt =====
-- src/llmbroker/broker/verdict.py, with `retry_after_seconds` and `provider_error` of
-- src/llmbroker/chat.py: how one failed attempt is disposed of.
use Prim.Native.String.{◌++◌ as str_append}
use llmbroker.Base.{
  ℕ, zero, suc, String, ◌/◌, Bool, Option, none, some, if◌then◌else◌, is_some, ℤ, pos, sub_ℕ,
  pos_part,
}
use llmbroker.Base.{true, false}
use llmbroker.Models.{Instant, CallStatus, rate_limited, unavailable, error}
use llmbroker.Http.{detail_snippet, is_rate_limit, is_unavailable, is_auth_failure, is_client_error}

-- What the code reads of an `httpx.Response`.
pub record Response : Type 0 where
  pub status_code : ℕ
  pub text : String
  pub retry_after : Option String

-- Python's `int(raw)` and `parsedate_to_datetime(raw)`; `none` is the ValueError or TypeError.
pub record Parsers : Type 0 where
  pub parse_int : String → Option ℤ
  pub parse_date : String → Option Instant

-- ProviderError and its two subclasses.
pub data ProviderError : Type 0 where
  auth_error : (status : ℕ) (detail : String) → ProviderError
  rate_limit_error : (status : ℕ) (detail : String) (retry_after : Option ℤ) → ProviderError
  provider_failure : (status : ℕ) (detail : String) → ProviderError

-- What an attempt may raise. `type_name` is the name of the exception's class. The first four are
-- FAILOVER_ERRORS; the last two are any other `Exception` and a bare `BaseException`.
pub data Exc : Type 0 where
  http_status_error : Response → Exc
  invalid_response : (detail : Option String) → Exc
  timed_out : (type_name : String) → Exc
  transport : (type_name : String) → Exc
  bug : (type_name : String) → Exc
  cancelled : (type_name : String) → Exc

pub data Outcome : Type 0 where
  failed : (error : Option ProviderError) → Outcome
  budget_expired : Outcome

pub record Verdict : Type 0 where
  pub status : CallStatus
  pub detail : Option String
  pub http_status : Option ℕ
  pub cool_base : Option ℤ
  pub outcome : Option Outcome

abbrev pub default_rate_limit_sec : ℤ
default_rate_limit_sec = pos 60

-- `text[:n]`, by characters.
unfoldable pub snippet : ℕ → String → String
snippet zero s = String.[]
snippet (suc n) String.[] = String.[]
snippet (suc n) (String.◌∷◌ c s) = String.◌∷◌ c (snippet n s)

module _ (py : Parsers) where
  -- max(0, int((when - now).total_seconds())), for the date case.
  abbrev seconds_until : Instant → Instant → ℤ
  seconds_until now when = pos (pos_part (sub_ℕ when now) / 1_000_000)

  unfoldable pub retry_after_seconds : Instant → Option String → ℤ → ℤ
  retry_after_seconds now none default_sec = default_sec
  retry_after_seconds now (some raw) default_sec = elim (py.parse_int raw) [
    | some n ↦ n
    | none ↦ elim (py.parse_date raw) [ some when ↦ seconds_until now when | none ↦ default_sec ]
  ]

  unfoldable pub provider_error : Instant → ℕ → String → Option String → ProviderError
  provider_error now status detail retry_after =
      if is_auth_failure status
      then auth_error status detail
      else if is_rate_limit status
      then rate_limit_error status detail
          (if is_some retry_after then some (retry_after_seconds now retry_after (pos 0)) else none)
      else provider_failure status detail

  unfoldable pub classify_status : Instant → Response → Verdict
  classify_status now response =
      let code = response.status_code in
      let detail = snippet detail_snippet response.text in
      if is_rate_limit code
      then record {
        status = if is_unavailable code then unavailable else rate_limited;
        detail = some detail;
        http_status = some code;
        cool_base = some (retry_after_seconds now response.retry_after default_rate_limit_sec);
        outcome = none;
      }
      else if is_auth_failure code
      then record {
        status = error;
        detail = some detail;
        http_status = some code;
        cool_base = none;
        outcome = some (failed none);
      }
      else if is_client_error code
      then record {
        status = error;
        detail = some detail;
        http_status = some code;
        cool_base = none;
        outcome = some (failed (some (provider_error now code detail response.retry_after)));
      }
      else record {
        status = error;
        detail = some detail;
        http_status = some code;
        cool_base = some default_rate_limit_sec;
        outcome = none;
      }

  abbrev cooled : String → Verdict
  cooled type_name = record {
    status = error;
    detail = some type_name;
    http_status = none;
    cool_base = some default_rate_limit_sec;
    outcome = none;
  }

  unfoldable pub classify : Instant → Exc → Bool → Verdict
  classify now (http_status_error response) budget_bound = classify_status now response
  classify now (invalid_response detail) budget_bound = record {
    status = error;
    detail = detail;
    http_status = none;
    cool_base = some default_rate_limit_sec;
    outcome = none;
  }
  classify now (timed_out type_name) budget_bound =
      if budget_bound
      then record {
        status = error;
        detail = some (str_append "wait budget exhausted: " type_name);
        http_status = none;
        cool_base = some default_rate_limit_sec;
        outcome = some budget_expired;
      }
      else cooled type_name
  classify now (transport type_name) budget_bound = cooled type_name
  classify now (bug type_name) budget_bound = cooled type_name
  classify now (cancelled type_name) budget_bound = cooled type_name

-- FAILOVER_ERRORS.
unfoldable pub is_failover : Exc → Bool
is_failover (bug type_name) = false
is_failover (cancelled type_name) = false
is_failover _ = true
