-- ===== src/Callers/Ratings.antt =====
-- A caller's rating, from the call it names to what later reads show.
use llmbroker.Callers.{PurgeReading}
use llmbroker.Base.{◌≤◌}
use llmbroker.Store.Retention.{survivors}
use mathlib.Core.Option
use llmbroker.Base.{
  ℕ, ◌<◌, ◌-◌, if◌then◌else◌, ◌≡◌, refl, sym, ap, ◌∙◌, String, Bool, true, not, ◌&&◌, ◌||◌, Option,
  none, some, List, [], ◌∷◌, map, if_ind, if_cases, find?, All, is_some,
}
use llmbroker.Base.Least.{some_inj}
use llmbroker.Models.{Instant, Double, Call}
use llmbroker.Optimizer.{Optimizer}
use llmbroker.Optimizer.Floats.{FloatOps}
use llmbroker.Store.{Row}
use llmbroker.Store.Journal
use llmbroker.Store.Journal.{Match, time_of}
use llmbroker.Store.Ratings.{rescored, calls-record_rating}
use llmbroker.Results.{is_unit}
use llmbroker.Callers.{
  Rating, bad_score, bad_keys, rates, rate_found, record_quality, resolve_rated, rating_page,
  rating_window, first_answered, is_answered, calls,
}

find?-holds : (q : Call → Bool) (cs : List Call) (c : Call) → find? q cs ≡ some c → q c ≡ true
find?-holds q [] c = λ e. absurd cc
find?-holds q (x ∷ cs) c =
    if_cases (λ o. o ≡ some c → q c ≡ true) (q x) (λ h e. ap q (sym (some_inj e)) ∙ h)
      (λ h. find?-holds q cs c)

first_answered-is_answered :
    (tail : Option (List Call)) (c : Call) → first_answered tail ≡ some c → is_answered c ≡ true
first_answered-is_answered none c e = absurd cc
first_answered-is_answered (some cs) c e = find?-holds is_answered cs c e

-- What a rating that is taken does.
abbrev pub Shows : List Row → PurgeReading → Double → Rating → Type 0
Shows rows purge score (rates c last_purge rows' opt) =
    (is_answered c ≡ true)
    × ((limit : ℕ) (m : Match) (since : Option Instant)
        → Journal.calls limit m since rows'
          ≡ Option.map (map (rescored c.id score)) (
              Journal.calls limit m since
                (survivors purge.monotonic purge.today purge.retention purge.last_purge rows)))
Shows rows purge score _ = Unit

module _ (fl : FloatOps) (le : Double → Double → Bool) where
  rate_found-Shows :
      (scope : Option String) (fresh_id : String) (now : Instant) (purge : PurgeReading)
      (score : Double) (rows : List Row) (opt : Option Optimizer) (c : Option Call)
      → ((x : Call) → c ≡ some x → is_answered x ≡ true)
      → purge.today - purge.retention ≤ now
      → All (λ r. time_of r < now) rows
      → Shows rows purge score (rate_found scope fresh_id now purge score rows opt c)
  rate_found-Shows scope fresh_id now purge score rows opt none h recent old = tt
  rate_found-Shows scope fresh_id now purge score rows opt (some c) h recent old = (
    h c refl,
    λ limit m since.
        calls-record_rating purge.monotonic purge.today purge.retention fresh_id now c.id score
          scope purge.last_purge rows limit m since recent old,
  )

  -- A rating lands on one call that answered, and shows: where the journal's rows are all older than
  -- the rating, and the rating is within the retention, a rating that is taken names a call whose
  -- status is OK, and leaves each later read of the journal, whatever it narrows by, with the calls
  -- that the same read shows of the rows that the purge of that write spares, in the same order,
  -- those of that id with the new score and the others as they were.
  pub record_quality-Shows :
      (scope : Option String) (fresh_id : String) (asked now : Instant) (purge : PurgeReading)
      (score : Double) (call_id trace_id : Option String) (rows : List Row) (opt : Option Optimizer)
      → purge.today - purge.retention ≤ now
      → All (λ r. time_of r < now) rows
      → Shows rows purge score
          (record_quality fl le scope fresh_id asked now purge score call_id trace_id rows opt)
  unfolding record_quality resolve_rated
  record_quality-Shows scope fresh_id asked now purge score call_id trace_id rows opt recent old =
      if_ind (Shows rows purge score) (not (is_unit fl le score)) {x = bad_score} tt (
        if_ind (Shows rows purge score)
          (is_some call_id && is_some trace_id || not (is_some call_id) && not (is_some trace_id))
          {x = bad_keys} tt
          (rate_found-Shows scope fresh_id now purge score rows opt
            (resolve_rated scope asked call_id trace_id rows)
            (first_answered-is_answered (
              calls scope (if is_some call_id then 1 else rating_page)
                (some (asked - rating_window)) none trace_id call_id rows))
            recent old))
