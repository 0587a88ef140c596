-- ===== src/Router/Calls.antt =====
-- src/llmbroker/broker/route_state.py: `RouteCall`, with `_acquire` and `_expired` of
-- src/llmbroker/broker/router.py: what one routed call remembers, whom it asks for next, and which
-- error its caller sees. The sets of names are lists that are read by membership.
use llmbroker.Base.{
  ℕ, String, Bool, Option, none, some, List, [], ◌∷◌, ◌++◌, map, if◌then◌else◌, is_some, or_else,
}
use llmbroker.Models.{Instant, LlmConfig}
use llmbroker.Http.Verdict.{ProviderError, Outcome, failed, budget_expired}
use llmbroker.Optimizer.Floats.{FloatOps}
use llmbroker.Optimizer.{Optimizer}
use llmbroker.Pool.{Pool}
use llmbroker.Pool.Acquire.{
  Reason, excluded, timeout, NoLlmAvailable, Clocks, Request, Acquired, taken, raised, waits,
  acquire_many, retry_at,
}
use llmbroker.Router.{Limits}

pub record RouteCall : Type 0 where
  pub limits : Limits
  pub width : ℕ
  pub recovery_width : ℕ
  pub client_failed : List String
  pub attempted : List String
  pub last_client_error : Option ProviderError
  pub expired : Bool

-- The call as `_route` begins it.
unfoldable pub new_call : Limits → Option ℕ → Bool → RouteCall
new_call limits fastest_of parallel_recovery = record {
  limits = limits;
  width = lanes_of fastest_of;
  recovery_width = if parallel_recovery then 2 else 1;
  client_failed = [];
  attempted = [];
  last_client_error = none;
  expired = Bool.false;
}
  where
    lanes_of : Option ℕ → ℕ
    lanes_of none = 1
    lanes_of (some n) = if llmbroker.Base.ltb 1 n then n else 1

-- `absorb`, of one settled attempt.
unfoldable pub absorb : LlmConfig → Option Outcome → RouteCall → RouteCall
absorb config none call = call
absorb config (some budget_expired) call = record call { expired = Bool.true }
absorb config (some (failed e)) call = record call {
  client_failed = config.name ∷ call.client_failed;
  last_client_error = if is_some e then e else call.last_client_error;
}

-- What a call raises to its caller.
pub data CallError : Type 0 where
  rejected : ProviderError → CallError
  unavailable : NoLlmAvailable → CallError

-- The names a call will not be handed again; what it attempted counts where it names its models.
unfoldable pub excluded_names : Option (List String) → RouteCall → List String
excluded_names none call = call.client_failed
excluded_names (some names) call = call.client_failed ++ call.attempted

abbrev pub is_excluded : Reason → Bool
is_excluded excluded = Bool.true
is_excluded _ = Bool.false

-- The error of a refused acquisition.
unfoldable pub refusal : RouteCall → NoLlmAvailable → CallError
refusal call e = elim call.last_client_error [
  | none ↦ unavailable e
  | some earlier ↦ if is_excluded e.reason then rejected earlier else unavailable e
]

abbrev pub request_of : Option (List String) → List String → Option ℕ → RouteCall → Request
request_of eligible_names payable queue_deadline call = record {
  boundary = record {
    payable = payable;
    exclude = excluded_names eligible_names call;
    eligible_names = eligible_names;
  };
  width = call.width;
  recovery_width = call.recovery_width;
  operation = call.limits.operation;
  queue_deadline = queue_deadline;
  answer_deadline = call.limits.answer_deadline;
}

-- The models a call has been handed, where it names its models.
unfoldable pub note_attempted : Option (List String) → List LlmConfig → RouteCall → RouteCall
note_attempted none configs call = call
note_attempted (some names) configs call = record call {
  attempted = map (λ c. c.name) configs ++ call.attempted;
}

pub data Acquisition : Type 0 where
  acquired : List LlmConfig → RouteCall → Pool → Acquisition
  refuses : CallError → Acquisition
  still_waiting : Acquisition

-- What the pool's answer is to the call.
unfoldable pub acquisition : Option (List String) → RouteCall → Acquired → Acquisition
acquisition eligible_names call (taken configs after) =
    acquired configs (note_attempted eligible_names configs call) after
acquisition eligible_names call (raised e) = refuses (refusal call e)
acquisition eligible_names call (waits span) = still_waiting

-- `_acquire`.
unfoldable pub acquire :
    (fl : FloatOps)
    → Option Optimizer
    → Option (List String)
    → List String
    → Option ℕ
    → RouteCall
    → Clocks
    → Pool
    → List (Clocks × Pool)
    → Acquisition
acquire fl opt eligible_names payable queue_deadline call t p later =
    acquisition eligible_names call
      (acquire_many fl opt (request_of eligible_names payable queue_deadline call) t p later)

-- `_expired`: an earlier rejection of the request is the more useful answer.
unfoldable pub expired_error : Instant → Pool → List String → RouteCall → CallError
expired_error now p payable call = elim call.last_client_error [
  | some earlier ↦ rejected earlier
  | none ↦
      unavailable
        (record { reason = timeout; retry_at = retry_at now p payable call.client_failed })
]
