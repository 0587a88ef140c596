-- ===== src/Http.antt =====
-- src/llmbroker/http_status.py: what an HTTP status of a provider means.
pub mod Disposal
pub mod Verdict
use llmbroker.Base.{ℕ, Bool, not, ◌&&◌, ◌||◌, ==_iff, ◌==◌, ltb, leb}

abbrev pub error_floor : ℕ
error_floor = 400

abbrev pub detail_snippet : ℕ
detail_snippet = 300

abbrev pub server_error_floor : ℕ
server_error_floor = 500

unfoldable pub is_rate_limit : ℕ → Bool
is_rate_limit code = code == 429 || code == 503

unfoldable pub is_unavailable : ℕ → Bool
is_unavailable code = code == 503

unfoldable pub is_auth_failure : ℕ → Bool
is_auth_failure code = code == 401 || code == 403

unfoldable pub is_client_error : ℕ → Bool
is_client_error code =
    (leb error_floor code && ltb code server_error_floor)
    && not (is_rate_limit code || is_auth_failure code)
