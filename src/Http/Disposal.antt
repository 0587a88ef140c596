-- ===== src/Http/Disposal.antt =====
-- What a provider's status code decides.
use llmbroker.Base.{ℕ, ◌≤◌, ◌<◌, ◌≡◌, ◌≢◌, ◌↔◌, none, some, arith}
use llmbroker.Models.{Instant, rate_limited, unavailable}
use llmbroker.Http.{is_rate_limit, is_unavailable, is_auth_failure, is_client_error}
use llmbroker.Http.Verdict.{Parsers, Response, classify_status}

-- The statuses that leave the model uncooled.
abbrev pub IsCallersError : ℕ → Type 0
IsCallersError code = (400 ≤ code) × (code < 500) × (code ≢ 429)

-- The status code alone decides how a provider's error is disposed of. It cools the model exactly
-- unless it is a client error other than 429; it is journaled as RATE_LIMITED on 429 and as
-- UNAVAILABLE on 503, and as neither of them on any other code; and its code is the one that is
-- journaled.
pub classify_status-disposal :
    (py : Parsers) (now : Instant) (r : Response)
    → let v = classify_status py now r in
      ((v.cool_base ≡ none) ↔ IsCallersError r.status_code)
      × ((v.status ≡ rate_limited) ↔ (r.status_code ≡ 429))
      × ((v.status ≡ unavailable) ↔ (r.status_code ≡ 503))
      × (v.http_status ≡ some r.status_code)
unfolding classify_status is_rate_limit is_unavailable is_auth_failure is_client_error
classify_status-disposal py now r = ground arith
