-- ===== src/Streaming/Promises.antt =====
-- What a streamed attempt promises to the reader: no silent failover once text is out, and no
-- receipt that settles ahead of its journal row.
use llmbroker.Base.{if◌then◌else◌}
use llmbroker.Streaming.{Fault, reraised, no_delta, raised_by, verdict_after, stream_backed_off}
use llmbroker.Router.{Overflow, dispose, backoff_of}
use llmbroker.Http.Verdict.{Outcome, classify, invalid_response}
use llmbroker.Base.{ap, ◌∙◌, not, ◌&&◌, false, none, some, Option}
use llmbroker.Base.{
  ℕ, String, ◌≡◌, ◌≢◌, refl, ap, ◌∙◌, Bool, true, false, ◌||◌, Option, none, some, [], arith,
  if_ind,
}
use llmbroker.Models.{LlmConfig, ok}
use llmbroker.Http.Verdict.{Parsers, Exc, is_failover}
use llmbroker.Pool
use llmbroker.Router.{World, Attempt, Limits, crash_row, on_pool, finish_ok, new_attempt}
use llmbroker.Router.Rows.{OneRow, record_row-OneRow}
use llmbroker.Streaming.Deltas.Marks.{
  stream_deltas-settled, stream_deltas-text, stream_deltas-Names,
}
use llmbroker.Streaming.{
  crash_of, Receipt, StreamOutcome, Progress, StreamMoment, Broke, finished, budget_exhausted,
  stopped_reading, broke_with, Settled, Streamed, settle_receipt, new_progress, stream_stopped,
  stream_aborted, settle_stream, exhausted, fail_stream, settle_broke, settle_drained,
  stream_opened, stream_keyed, stream_attempt,
}

-- What an attempt's outcome may claim in its receipt.
abbrev pub Rates : Attempt → World → Receipt → World → Type 0
Rates a w receipt w' =
    receipt.settled ≡ true
    → (receipt.call_id ≡ some a.call_id)
      × (receipt.llm_name ≡ some a.config.name)
      × OneRow a.call_id a.config.name (λ s. s ≡ ok) w.journal w'.journal

unsettled : {P : Type 0} (r : Receipt) → r.settled ≡ false → r.settled ≡ true → P
unsettled r e h = absurd (ground arith)

receipt-verdict_after :
    (o : Overflow) (verdict : Option Outcome) (out : StreamOutcome)
    → (verdict_after o verdict out).receipt ≡ out.receipt
receipt-verdict_after none verdict out = refl
receipt-verdict_after (some holds_slot) verdict out = refl

-- A settlement that is to raise does raise.
raised_by-some : (o : Overflow) (f : Fault) → raised_by o (some f) ≢ none
raised_by-some none f h = cc
raised_by-some (some holds_slot) f h = cc

module _ (a : Attempt) (sm : StreamMoment) (stored : sm.moment.stored ≡ true) where
  finished-Rates :
      (p : Progress) (w : World)
      → p.call_id ≡ a.call_id
      → p.llm_name ≡ a.config.name
      → Rates a w (settle_receipt p) (finish_ok a sm.moment p.usage w)
  unfolding finish_ok settle_receipt
  finished-Rates p w id name h = (
    ap some id,
    ap some name,
    record_row-OneRow a sm.moment _ _ (λ s. s ≡ ok) w.journal stored refl refl,
  )

  module _ (p : Progress) (id : p.call_id ≡ a.call_id) (name : p.llm_name ≡ a.config.name) where
    stream_stopped-Rates :
        (out : StreamOutcome) (w : World)
        → out.receipt.settled ≡ false
        → let r = stream_stopped a sm.moment p out w in Rates a w r.0.receipt r.1
    unfolding stream_stopped
    stream_stopped-Rates out w e =
        if_ind (λ (r : StreamOutcome × World). Rates a w r.0.receipt r.1) out.superseded
          (unsettled out.receipt e) (finished-Rates p w id name)

    stream_aborted-Rates :
        (out : StreamOutcome) (e : Exc) (w : World)
        → out.receipt.settled ≡ false
        → let r = stream_aborted a sm p out e w in Rates a w r.0.receipt r.1
    unfolding stream_aborted
    stream_aborted-Rates out e w h =
        if_ind (λ (r : StreamOutcome × World). Rates a w r.0.receipt r.1)
          (out.superseded || out.stopped) {x = stream_stopped a sm.moment p out w}
          {y = (
            record out { crashed = crash_of e },
            crash_row a sm.moment e (on_pool (Pool.release a.config) w),
          )}
          (stream_stopped-Rates out w h) (unsettled out.receipt h)

    undecided :
        {P : Type 0} (o : Overflow) (verdict : Option Outcome) (out : StreamOutcome)
        → out.receipt.settled ≡ false
        → (verdict_after o verdict out).receipt.settled ≡ true
        → P
    undecided o verdict out h =
        unsettled (verdict_after o verdict out).receipt
          (ap (λ (r : Receipt). r.settled) (receipt-verdict_after o verdict out) ∙ h)

    module _ (py : Parsers) (show_seconds : ℕ → String) where
      settle_broke-Rates :
          (backoff timeout : ℕ) (bound : Bool) (out : StreamOutcome) (b : Broke) (w : World)
          → out.receipt.settled ≡ false
          → let r = settle_broke py show_seconds a sm backoff timeout bound p out b w in
            Rates a w r.outcome.receipt r.world
      unfolding settle_broke settle_stream exhausted fail_stream
      settle_broke-Rates backoff timeout bound out finished w h =
          let v = classify py sm.moment.classified_at (invalid_response (some no_delta)) false in
          if_ind (λ (r : Settled). Rates a w r.outcome.receipt r.world) p.started
            (finished-Rates p w id name)
            (undecided (dispose a sm.moment v backoff timeout w).0 v.outcome
              (record out { settling = true }) h)
      settle_broke-Rates backoff timeout bound out budget_exhausted w h = unsettled out.receipt h
      settle_broke-Rates backoff timeout bound out stopped_reading w h =
          stream_stopped-Rates out w h
      settle_broke-Rates backoff timeout bound out (broke_with e) w h =
          if_ind (λ (r : Settled). Rates a w r.outcome.receipt r.world) (is_failover e)
            (let v = classify py sm.moment.classified_at e (bound && not p.started) in
              undecided (dispose a sm.moment v backoff timeout w).0 v.outcome
                (record out { settling = true }) h)
            (stream_aborted-Rates (record out { settling = true }) e w h)

module _ (py : Parsers) (show_seconds : ℕ → String) where
  settle_broke-loud :
      (a : Attempt) (sm : StreamMoment) (backoff timeout : ℕ) (bound : Bool) (p : Progress)
      (out : StreamOutcome) (b : Broke) (w : World)
      → p.started ≡ true
      → let r = settle_broke py show_seconds a sm backoff timeout bound p out b w in
        r.fault ≡ none → r.outcome.answered ≡ true
  unfolding settle_broke settle_stream exhausted fail_stream
  settle_broke-loud a sm backoff timeout bound p out finished w h f = rw h refl
  settle_broke-loud a sm backoff timeout bound p out budget_exhausted w h f =
      absurd (raised_by-some _ _ f)
  settle_broke-loud a sm backoff timeout bound p out stopped_reading w h f = absurd cc
  settle_broke-loud a sm backoff timeout bound p out (broke_with e) w h f = loud (is_failover e) f
    where
      failed_stream : Settled
      failed_stream =
          fail_stream py show_seconds a sm e (record out { settling = true }) backoff timeout bound
            p.started w

      aborted : StreamOutcome × World
      aborted = stream_aborted a sm p (record out { settling = true }) e w

      loud :
          (failover : Bool)
          → let r : Settled =
              if failover
              then failed_stream
              else record { outcome = aborted.0; fault = some (reraised e); world = aborted.1 } in
            r.fault ≡ none → r.outcome.answered ≡ true
      loud true g = absurd (raised_by-some _ _ (rw h at g))
      loud false g = absurd cc

  stream_backed_off-Rates :
      (backoff : Option ℕ) (a : Attempt) (deadline : Option ℕ) (sm : StreamMoment)
      (out : StreamOutcome) (w : World)
      → sm.moment.stored ≡ true
      → out.receipt.settled ≡ false
      → let r = (stream_backed_off py show_seconds backoff a deadline sm out w).settled in
        Rates a w r.outcome.receipt r.world
  unfolding stream_backed_off settle_drained
  stream_backed_off-Rates none a deadline sm out w stored h = unsettled out.receipt h
  stream_backed_off-Rates (some backoff) a deadline sm out w stored h =
      let p = new_progress out.receipt a in
      let names = stream_deltas-Names a sm.transport p (refl, refl) in
      if_ind (λ (r : Streamed). Rates a w r.settled.outcome.receipt r.settled.world) _
        (unsettled out.receipt h)
        (settle_broke-Rates a sm stored _ names.0 names.1 py show_seconds _ _ _ _ _ w
          (stream_deltas-settled sm.transport p ∙ h))

  stream_keyed-Rates :
      (key : Option String) (config : LlmConfig) (limits : Limits) (sm : StreamMoment)
      (out : StreamOutcome) (w : World)
      → sm.moment.stored ≡ true
      → out.receipt.settled ≡ false
      → let r = (stream_keyed py show_seconds key config limits sm out w).settled in
        Rates (new_attempt config limits sm.moment) w r.outcome.receipt r.world
  unfolding stream_keyed stream_opened
  stream_keyed-Rates none config limits sm out w stored h = unsettled out.receipt h
  stream_keyed-Rates (some key) config limits sm out w stored h =
      stream_backed_off-Rates (backoff_of w.opt config.name) (new_attempt config limits sm.moment) _
        sm _ w stored h

  -- A receipt that has settled can be rated: where the journal can be written and the attempt began
  -- with an unsettled receipt, an attempt that settles its receipt has put exactly one row on the
  -- journal, an OK row under the very call id and model name that the receipt shows.
  pub stream_attempt-Rates :
      (config : LlmConfig) (limits : Limits) (sm : StreamMoment) (out : StreamOutcome) (w : World)
      → sm.moment.stored ≡ true
      → out.receipt.settled ≡ false
      → let r = (stream_attempt py show_seconds config limits sm out w).settled in
        Rates (new_attempt config limits sm.moment) w r.outcome.receipt r.world
  unfolding stream_attempt
  stream_attempt-Rates config limits sm out w = stream_keyed-Rates _ config limits sm out _

  -- What the reader was shown is never dropped in silence.
  abbrev IsLoud : Streamed → Type 0
  IsLoud r = r.deltas ≢ [] → r.settled.fault ≡ none → r.settled.outcome.answered ≡ true

  stream_backed_off-IsLoud :
      (backoff : Option ℕ) (a : Attempt) (deadline : Option ℕ) (sm : StreamMoment)
      (out : StreamOutcome) (w : World)
      → IsLoud (stream_backed_off py show_seconds backoff a deadline sm out w)
  unfolding stream_backed_off settle_drained
  stream_backed_off-IsLoud none a deadline sm out w = λ h. absurd (h refl)
  stream_backed_off-IsLoud (some backoff) a deadline sm out w =
      let p = new_progress out.receipt a in
      if_ind IsLoud _ (λ h. absurd (h refl))
        λ h. settle_broke-loud a sm _ _ _ _ _ _ w (stream_deltas-text sm.transport p h)

  stream_keyed-IsLoud :
      (key : Option String) (config : LlmConfig) (limits : Limits) (sm : StreamMoment)
      (out : StreamOutcome) (w : World)
      → IsLoud (stream_keyed py show_seconds key config limits sm out w)
  unfolding stream_keyed stream_opened
  stream_keyed-IsLoud none config limits sm out w = λ h. absurd (h refl)
  stream_keyed-IsLoud (some key) config limits sm out w =
      stream_backed_off-IsLoud (backoff_of w.opt config.name) (new_attempt config limits sm.moment)
        _ sm _ w

  -- Once text has reached the reader nothing is failed over in silence: an attempt that has emitted
  -- a delta and raises nothing has answered whole.
  pub stream_attempt-answers :
      (config : LlmConfig) (limits : Limits) (sm : StreamMoment) (out : StreamOutcome) (w : World)
      → let r = stream_attempt py show_seconds config limits sm out w in
        r.deltas ≢ [] → r.settled.fault ≡ none → r.settled.outcome.answered ≡ true
  unfolding stream_attempt
  stream_attempt-answers config limits sm out w = stream_keyed-IsLoud _ config limits sm out _
