-- ===== src/Router/Rows.antt =====
-- The journal rows that an attempt writes.
use llmbroker.Base.{ℤ}
use llmbroker.Router.{cooled_by}
use llmbroker.Router.{
  overflowed, disposed, handed_back, journaled, failure_row, until_of, hand_back, delay_of,
}
use llmbroker.Pool.{Pool}
use llmbroker.Base.{
  ℕ, String, ◌≡◌, refl, ◌≢◌, Bool, true, false, Option, none, some, List, ◌∷◌, arith, if◌then◌else◌,
  if_ind,
}
use llmbroker.Models.{Instant, Call, CallStatus, ok, error, superseded}
use llmbroker.Http.Verdict.{
  Parsers, Exc, bug, cancelled, http_status_error, invalid_response, timed_out, transport, Verdict,
  Response, classify_status, classify,
}
use llmbroker.Router.{
  World, Attempt, Moment, Row, Ended, answered, gave_up, crashed, record_row, log_call, call_of,
  drop_key, bound_budget, dispose, spent_budget,
}

-- A row for this attempt, and nothing else, on top of the journal.
abbrev pub OneRow : String → String → (CallStatus → Type 0) → List Call → List Call → Type 0
OneRow id name Status before after =
    (c : Call) × (after ≡ c ∷ before)
    × (c.id ≡ id)
    × (c.llm_name ≡ name)
    × ((s : CallStatus) × (c.status ≡ some s) × Status s)

-- A bare cancellation, as against a bug.
abbrev pub is_cancelled : Exc → Bool
is_cancelled (cancelled type_name) = true
is_cancelled _ = false

-- The row that an attempt owes for the way in which it ended.
abbrev pub Owes : Attempt → Bool → Ended → List Call → List Call → Type 0
Owes a lost (answered content usage) before after =
    OneRow a.call_id a.config.name (λ s. s ≡ ok) before after
Owes a lost (gave_up verdict) before after =
    OneRow a.call_id a.config.name (λ s. s ≢ ok) before after
Owes a lost (crashed e) before after =
    if lost
    then OneRow a.call_id a.config.name (λ s. s ≡ superseded) before after
    else if is_cancelled e
    then after ≡ before
    else OneRow a.call_id a.config.name (λ s. s ≢ ok) before after
Owes a lost (overflowed holds_slot) before after = after ≡ before

pub classify_status-ne-ok :
    (py : Parsers) (now : Instant) (r : Response) → (classify_status py now r).status ≢ ok
unfolding classify_status
classify_status-ne-ok py now r h = ground arith

pub classify-ne-ok :
    (py : Parsers) (now : Instant) (e : Exc) (bound : Bool) → (classify py now e bound).status ≢ ok
unfolding classify
classify-ne-ok py now (http_status_error r) bound = classify_status-ne-ok py now r
classify-ne-ok py now (invalid_response detail) bound = λ h. cc
classify-ne-ok py now (timed_out type_name) bound = λ h. ground arith
classify-ne-ok py now (transport type_name) bound = λ h. cc
classify-ne-ok py now (bug type_name) bound = λ h. cc
classify-ne-ok py now (cancelled type_name) bound = λ h. cc

pub error-ne-ok : error ≢ ok
error-ne-ok h = cc

pub record_row-OneRow :
    (a : Attempt) (m : Moment) (r : Row) (w : World) (Status : CallStatus → Type 0)
    (before : List Call)
    → m.stored ≡ true
    → w.journal ≡ before
    → Status r.status
    → OneRow a.call_id a.config.name Status before (record_row a m r w).journal
unfolding record_row log_call call_of
record_row-OneRow a m r w Status before stored same h =
    (call_of a m r, ground arith, refl, refl, (r.status, refl, h))

module _ (a : Attempt) (m : Moment) (stored : m.stored ≡ true) where
  -- A failure that is settled has its row; an OverflowError leaves none.
  pub dispose-Owes :
      (v : Verdict) (backoff timeout : ℕ) (lost : Bool) (w : World)
      → v.status ≢ ok
      → let r = dispose a m v backoff timeout w in
        Owes a lost (disposed v.outcome r.0) w.journal r.1.journal
  unfolding dispose cooled_by drop_key bound_budget handed_back journaled
  dispose-Owes v backoff timeout lost w h = of_delay (delay_of w.opt v backoff)
    where
      bounded : World
      bounded = bound_budget a m v timeout (drop_key a v w)

      dropped : (drop_key a v w).journal ≡ w.journal
      dropped = if_ind (λ (w' : World). w'.journal ≡ w.journal) _ refl refl

      same : bounded.journal ≡ w.journal
      same = if_ind (λ (w' : World). w'.journal ≡ w.journal) _ dropped dropped

      of_slot :
          (handed : Option Pool) (until : Option (Option Instant))
          → let r = handed_back a m (failure_row v timeout) until handed bounded in
            Owes a lost (disposed v.outcome r.0) w.journal r.1.journal
      of_slot none until = same
      of_slot (some p') none = same
      of_slot (some p') (some until) =
          record_row-OneRow a m (failure_row v timeout until) (record bounded { pool = p' })
            (λ s. s ≢ ok) w.journal stored same h

      of_delay :
          (delay : Option (Option ℤ))
          → let r = cooled_by a m (failure_row v timeout) delay bounded in
            Owes a lost (disposed v.outcome r.0) w.journal r.1.journal
      of_delay none = same
      of_delay (some delay) = of_slot (hand_back a m delay bounded.pool) (until_of m.until_at delay)

  pub spent_budget-OneRow :
      (w : World)
      → OneRow a.call_id a.config.name (λ s. s ≢ ok) w.journal (spent_budget a m w).journal
  unfolding spent_budget
  spent_budget-OneRow w = record_row-OneRow a m _ _ (λ s. s ≢ ok) w.journal stored refl error-ne-ok
