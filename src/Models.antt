-- ===== src/Models.antt =====
-- src/llmbroker/models.py: the data that the components exchange.
--
-- An instant is a whole number of microseconds, the resolution of `datetime`; a span is an integer
-- number of them. A float that is a score or a weight is a `Double`, of which the program only
-- stores, compares and combines values: the arithmetic is a parameter where it is used.
use llmbroker.Base.{ℕ, String, Bool, true, false, Option, none, List, Dict, ℤ}

-- Microseconds from `datetime.min`.
abbrev pub Instant : Type 0
Instant = ℕ

abbrev pub Double : Type 0
Double = ℕ

-- A value of a JSON body or of a TOML table.
mutual
  pub data Value : Type 0 where
    null : Value
    boolean : Bool → Value
    integer : ℤ → Value
    real : Double → Value
    text : String → Value
    table : Fields → Value
    array : Elements → Value

  pub data Fields : Type 0 where
    no_fields : Fields
    with_field : (key : String) (held : Value) (others : Fields) → Fields

  pub data Elements : Type 0 where
    no_elements : Elements
    with_element : (first : Value) (others : Elements) → Elements

pub record LlmConfig : Type 0 where
  pub name : String
  pub base_url : String
  pub model : String
  pub api_key_ref : String
  pub parallel : Option ℕ
  pub from_preset : Bool
  pub alias : Option String
  pub weight : Double
  pub tool_params : Dict Value

pub data LifecyclePhase : Type 0 where
  available cooling : LifecyclePhase

pub record LlmState : Type 0 where
  pub phase : LifecyclePhase
  pub cooldown_until : Option Instant
  pub fail_count : ℕ

pub record KeyInfo : Type 0 where
  pub api_key_ref : String
  pub help : String
  pub extra : Dict String

pub record ModelList : Type 0 where
  pub configs : List LlmConfig
  pub keys : Dict KeyInfo

pub record PendingKey : Type 0 where
  pub api_key_ref : String
  pub help : String
  pub entry_names : List String

pub record SyncReport : Type 0 where
  pub source : String
  pub applied : Bool
  pub added : List String
  pub updated : List String
  pub removed : List String
  pub orphan_refs : List String
  pub pending_keys : List PendingKey
  pub active_before : ℕ
  pub active_after : ℕ

pub data CallStatus : Type 0 where
  ok rate_limited unavailable error superseded : CallStatus

abbrev pub status_eq : CallStatus → CallStatus → Bool
status_eq ok ok = true
status_eq rate_limited rate_limited = true
status_eq unavailable unavailable = true
status_eq error error = true
status_eq superseded superseded = true
status_eq _ _ = false

pub record Usage : Type 0 where
  pub prompt_tokens : Option ℤ
  pub completion_tokens : Option ℤ
  pub total_tokens : Option ℤ
  pub extra : Option (Dict ℤ)

-- One call attempt as the journal holds it.
pub record Call : Type 0 where
  pub id : String
  pub llm_name : String
  pub operation : Option String
  pub trace_id : Option String
  pub status : Option CallStatus
  pub ts : Option Instant
  pub http_status : Option ℕ
  pub latency_ms : Option ℕ
  pub error_detail : Option String
  pub usage : Option Usage
  pub score : Option Double
  pub scope : Option String
  pub cooldown_until : Option Instant
  pub budget_ms : Option ℕ

pub record LlmMetrics : Type 0 where
  pub call_count : ℕ
  pub last_status : Option CallStatus
  pub last_at : Option Instant

-- `by_status` holds only the statuses that were seen.
pub record LlmStats : Type 0 where
  pub total : ℕ
  pub by_status : List (CallStatus × ℕ)
  pub first_at : Option Instant
  pub last_at : Option Instant
  pub last_status : Option CallStatus

abbrev pub default_state : LlmState
default_state = record { phase = available; cooldown_until = none; fail_count = 0 }
