-- ===== src/Streaming/Owner/Faults.antt =====
-- src/llmbroker/broker/stream_owner.py: what a streamed call raises to its reader: `_reported` and
-- `_raise_initial_fault`.
use llmbroker.Base.{Bool, true, false, ◌&&◌, Option, none, some, if◌then◌else◌, is_some}
use llmbroker.Models.{Instant}
use llmbroker.Http.Verdict.{Exc, cancelled, ProviderError}
use llmbroker.Pool.Acquire.{NoLlmAvailable, timeout}
use llmbroker.Router.Calls.{CallError, rejected, unavailable, is_excluded}
use llmbroker.Streaming.{Fault, reraised, generator_exit}
use llmbroker.Streaming.Lanes.{StreamLane}
use llmbroker.Streaming.Owner.{Owner, lane_at, unexpected_fault}

-- What a streamed call raises to its reader.
pub data StreamError : Type 0 where
  routed : CallError → StreamError
  lane_failed : Fault → StreamError
  crashed : Exc → StreamError

-- `_reported`: models that come back by themselves are a busy pool.
unfoldable pub reported : NoLlmAvailable → Option Instant → NoLlmAvailable
reported e back =
    if is_excluded e.reason && is_some back then record { reason = timeout; retry_at = back } else e

-- Whether a lane's failure is an `Exception`.
abbrev pub is_exception : Fault → Bool
is_exception (reraised (cancelled type_name)) = false
is_exception generator_exit = false
is_exception _ = true

abbrev pub failure_of : Option StreamLane → Option Fault
failure_of none = none
failure_of (some lane) = lane.failure

-- `_raise_initial_fault`: the shown lane's own failure, then a bug, then the provider's rejection of
-- the request, then the fallback.
abbrev pub earlier_error : Option ProviderError → NoLlmAvailable → StreamError
earlier_error none fallback = routed (unavailable fallback)
earlier_error (some e) fallback = routed (rejected e)

abbrev pub crash_error : Option Exc → Option ProviderError → NoLlmAvailable → StreamError
crash_error none earlier fallback = earlier_error earlier fallback
crash_error (some e) earlier fallback = crashed e

abbrev pub fault_error :
    Option Fault → Option Exc → Option ProviderError → NoLlmAvailable → StreamError
fault_error none crash earlier fallback = crash_error crash earlier fallback
fault_error (some fault) crash earlier fallback =
    if is_exception fault then lane_failed fault else crash_error crash earlier fallback

unfoldable pub initial_fault : Owner → NoLlmAvailable → StreamError
initial_fault o fallback =
    fault_error (failure_of (lane_at o.race.exposed o.race.lanes)) (unexpected_fault o)
      o.call.last_client_error fallback
