-- ===== src/Examples/Stores.antt =====
-- The theorems on the journal, the registry, the clock of the refresher and the handles, on example
-- rows and runs.
use llmbroker.Base.{
  ◌≡◌, ◌≤◌, refl, inl, true, false, none, some, String, List, [], ◌∷◌, arith, lookup, leb,
}
use llmbroker.Models.{Call, ok}
use llmbroker.Store.{Row, call_to_row, with_utc_timestamps}
use llmbroker.Store.Journal.{calls, ordered}
use llmbroker.Store.Views.{first_rating}
use llmbroker.Store.Recorded.{by_id, calls-record_call}
use llmbroker.Store.Tables.{Stored, mirror, stored_of, write_all, drop_absent, check_aliases_from}
use llmbroker.Store.Tables.Maps.{written, mirror-Means}
use llmbroker.Callers.{record_quality, PurgeReading}
use llmbroker.Store.Retention.{record_call}
use llmbroker.Callers.Ratings.{Shows, record_quality-Shows}
use llmbroker.Refresher.{Step, provisions, schedules, refresh_done, start_times, new_refresher}
use llmbroker.Refresher.Clock.{setup, Spaced, start_times-Spaced}
use llmbroker.Results.Handles
use llmbroker.Results.Handles.Lifetime.{close_calls, BeginsNothing, run-Lifetime}
use llmbroker.Examples.Samples.{alpha, beta, floats}

abbrev answered_call : Call
answered_call = record {
  id = "c1";
  llm_name = "alpha";
  operation = none;
  trace_id = some "t1";
  status = some ok;
  ts = none;
  http_status = some 200;
  latency_ms = some 12;
  error_detail = none;
  usage = none;
  score = none;
  scope = none;
  cooldown_until = none;
  budget_ms = none;
}

abbrev earlier_call : Call
earlier_call = record answered_call { id = "c0"; ts = some 40 }

abbrev journal : List Row
journal = call_to_row earlier_call ∷ []

calls-record_call_example :
    let rows' = (record_call 0 50 90 50 answered_call none journal).1 in
    calls 1 (by_id "c1") none rows'
    ≡ some (
        record (with_utc_timestamps 50 answered_call) { score = first_rating "c1" (ordered rows') }
        ∷ [])
unfolding call_to_row
calls-record_call_example =
    calls-record_call 0 50 90 50 answered_call none journal (omega arith) (inl refl) (refl, tt)

-- A purge that is due.
abbrev reading : PurgeReading
reading = record { monotonic = 0; today = 60; retention = 50; last_purge = none }

record_quality-Shows_example :
    Shows journal reading 1
      (record_quality floats leb none "q1" 60 60 reading 1 (some "c0") none journal none)
unfolding call_to_row
record_quality-Shows_example =
    record_quality-Shows floats leb none "q1" 60 60 reading 1 (some "c0") none journal none
      (omega arith) (omega arith, tt)

abbrev mirrored : List (String × Stored)
mirrored =
    write_all floats (λ n. 0) (alpha ∷ beta ∷ [])
      (drop_absent ("alpha" ∷ "beta" ∷ []) ("gone" ∷ [])
        (("gone", stored_of floats (λ n. 0) beta) ∷ []))

mirror-Means_example :
    lookup "gone" mirrored ≡ written floats (λ n. 0) "gone" (alpha ∷ beta ∷ []) none
unfolding mirror check_aliases_from
mirror-Means_example =
    mirror-Means floats (λ n. 0) "gone" (alpha ∷ beta ∷ [])
      (("gone", stored_of floats (λ n. 0) beta) ∷ []) mirrored refl

-- A provision that arms the clock, requests, and a refresh that ends.
abbrev refreshes : List Step
refreshes =
    provisions 0 none false
    ∷ schedules 5
    ∷ schedules 6
    ∷ refresh_done 9
    ∷ schedules 12
    ∷ schedules 30
    ∷ []

start_times-Spaced_example :
    Spaced 10 none (start_times (setup 10 (some "preset") []) refreshes new_refresher)
start_times-Spaced_example =
    start_times-Spaced 10 (some "preset") [] refreshes
      (omega arith, (omega arith, (omega arith, (omega arith, (omega arith, (omega arith, tt))))))

abbrev reading_steps : List Handles.Step
reading_steps =
    Handles.Step.pull ∷ Handles.Step.ends true ∷ Handles.Step.close ∷ Handles.Step.cleanup ∷ []

run-Lifetime_example :
    (close_calls reading_steps Handles.new_handle ≤ 1)
    × BeginsNothing (
        Handles.run reading_steps
          (Handles.step Handles.Step.close (Handles.run reading_steps Handles.new_handle)).1)
run-Lifetime_example = run-Lifetime reading_steps reading_steps
