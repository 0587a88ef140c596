-- ===== src/Streaming/Deltas.antt =====
-- src/llmbroker/broker/streaming.py: `stream_deltas`, with `StreamProgress`; and what an attempt
-- leaves behind, `Outcome` of src/llmbroker/broker/route_state.py and `CallReceipt` of
-- src/llmbroker/broker/result.py.
pub mod Marks
use text.Mathlib.Text.{◌==◌ as str_eq}
use llmbroker.Base.{
  ℕ, String, Bool, true, false, Option, none, some, List, [], ◌∷◌, if◌then◌else◌, leb,
}
use llmbroker.Models.{Usage}
use llmbroker.Http.Verdict.{Response, Exc, http_status_error, timed_out, Outcome}
use llmbroker.Router.{Attempt}

-- `CallReceipt`.
pub record Receipt : Type 0 where
  pub llm_name : Option String
  pub call_id : Option String
  pub usage : Option Usage
  pub settled : Bool

abbrev pub new_receipt : Receipt
new_receipt = record { llm_name = none; call_id = none; usage = none; settled = false }

-- `Outcome`.
pub record StreamOutcome : Type 0 where
  pub receipt : Receipt
  pub answered : Bool
  pub verdict : Option Outcome
  pub superseded : Bool
  pub stopped : Bool
  pub completed_at : Option ℕ
  pub settling : Bool
  pub holds_slot : Bool
  pub crashed : Option Exc

abbrev pub new_outcome : StreamOutcome
new_outcome = record {
  receipt = new_receipt;
  answered = false;
  verdict = none;
  superseded = false;
  stopped = false;
  completed_at = none;
  settling = false;
  holds_slot = false;
  crashed = none;
}

-- `StreamProgress`.
pub record Progress : Type 0 where
  pub receipt : Receipt
  pub llm_name : String
  pub call_id : String
  pub started : Bool
  pub usage : Option Usage

abbrev pub new_progress : Receipt → Attempt → Progress
new_progress receipt a = record {
  receipt = receipt;
  llm_name = a.config.name;
  call_id = a.call_id;
  started = false;
  usage = none;
}

unfoldable pub progress_opened : Progress → Progress
progress_opened p = record p {
  started = true;
  receipt = record p.receipt { llm_name = some p.llm_name; call_id = some p.call_id };
}

-- `StreamProgress.settle`: the receipt that it leaves.
unfoldable pub settle_receipt : Progress → Receipt
settle_receipt p = record {
  llm_name = some p.llm_name;
  call_id = some p.call_id;
  usage = p.usage;
  settled = true;
}

-- How the transport ends: exhausted, past a deadline of `budgeted_await`, with an exception, or
-- because the reader closes the generator.
pub data StreamEnd : Type 0 where
  ends expires closes : StreamEnd
  raises : Exc → StreamEnd

abbrev pub Chunk : Type 0
Chunk = String × Option Usage

-- What the request comes to: no response at all, or one with its chunks.
pub data Transport : Type 0 where
  unopened : StreamEnd → Transport
  responds : (response : Response) (chunks : List Chunk) (how : StreamEnd) → Transport

abbrev pub keep_usage : Option Usage → Option Usage → Option Usage
keep_usage none before = before
keep_usage (some u) before = some u

-- One chunk: its usage is noted even where it carries no text.
unfoldable pub take_chunk : Chunk → Progress → Progress
take_chunk (delta, usage) p =
    let p' : Progress = record p { usage = keep_usage usage p.usage } in
    if str_eq delta "" then p' else if p'.started then p' else progress_opened p'

abbrev pub emit : String → List String → List String
emit delta rest = if str_eq delta "" then rest else delta ∷ rest

unfoldable pub take_chunks : List Chunk → Progress → List String × Progress
take_chunks [] p = ([], p)
take_chunks (chunk ∷ chunks) p =
    let (deltas, p') = take_chunks chunks (take_chunk chunk p) in (emit chunk.0 deltas, p')

-- What `stream_deltas` leaves its caller with.
pub data Broke : Type 0 where
  finished budget_exhausted stopped_reading : Broke
  broke_with : Exc → Broke

-- A deadline missed after the first delta is the caller's budget, and before it a timeout.
unfoldable pub broke_of : Bool → StreamEnd → Broke
broke_of started ends = finished
broke_of started expires =
    if started then budget_exhausted else broke_with (timed_out "TimeoutError")
broke_of started closes = stopped_reading
broke_of started (raises e) = broke_with e

pub record Drained : Type 0 where
  pub deltas : List String
  pub progress : Progress
  pub broke : Broke

-- `stream_deltas`. ERROR_FLOOR is 400.
unfoldable pub stream_deltas : Transport → Progress → Drained
stream_deltas (unopened how) p = record {
  deltas = [];
  progress = p;
  broke = broke_of p.started how;
}
stream_deltas (responds response chunks how) p =
    let (deltas, p') = take_chunks chunks p in
    if leb 400 response.status_code
    then record { deltas = []; progress = p; broke = broke_with (http_status_error response) }
    else record { deltas = deltas; progress = p'; broke = broke_of p'.started how }
