-- ===== src/Router/Validity.antt =====
-- Every settlement of an attempt keeps the pool of src/llmbroker/broker/pool.py valid.
use llmbroker.Router.{cooled_by}
use llmbroker.Router.{
  handed_back, journaled, failure_row, until_of, disposed, backed_off, backoff_of,
}
use llmbroker.Models.{Instant}
use llmbroker.Base.{or_else}
use llmbroker.Base.{ℕ, String, Bool, Option, none, some, if_ind, ℤ}
use llmbroker.Models.{LlmConfig, Usage}
use llmbroker.Http.Verdict.{Parsers, Exc, bug, Verdict, classify, is_failover}
use llmbroker.Optimizer.Floats.{FloatOps}
use llmbroker.Optimizer.{Optimizer}
use llmbroker.Pool
use llmbroker.Pool.{Pool}
use llmbroker.Pool.Invariant.{
  IsValid, releases, cools, settles, unbounds, misses, step, step-IsValid,
}
use llmbroker.Router.{
  World, Attempt, Reply, completed, raised, Moment, Limits, Ended, record_row, log_call, finish_ok,
  drop_key, bound_budget, hand_back, delay_of, dispose, settle_superseded, spent_budget, crash_row,
  settle_crash, settle, opened, with_key, attempt, new_attempt,
}

abbrev pub Keeps : World → World → Type 0
Keeps w w' = IsValid w.pool → IsValid w'.pool

module _ (fl : FloatOps) (opt : Option Optimizer) where
  pub release-IsValid : (cfg : LlmConfig) (p : Pool) → IsValid p → IsValid (Pool.release cfg p)
  unfolding step
  release-IsValid cfg p = step-IsValid fl opt p (releases cfg)

  finish_ok-Keeps :
      (a : Attempt) (m : Moment) (usage : Option Usage) (w : World)
      → Keeps w (finish_ok a m usage w)
  unfolding finish_ok record_row log_call step
  finish_ok-Keeps a m usage w v =
      let name = a.config.name in
      let free = Pool.release a.config w.pool in
      step-IsValid fl opt (Pool.clear_cooling name free) (unbounds name)
        (step-IsValid fl opt free (settles name) (release-IsValid a.config w.pool v))

  hand_back-IsValid :
      (a : Attempt) (m : Moment) (delay : Option ℤ) (p : Pool)
      → IsValid p
      → IsValid (or_else (hand_back a m delay p) p)
  unfolding step
  hand_back-IsValid a m none p = release-IsValid a.config p
  hand_back-IsValid a m (some delay) p = step-IsValid fl opt p (cools m.cooled_at a.config delay)

  drop_key-Keeps : (a : Attempt) (v : Verdict) (w : World) → Keeps w (drop_key a v w)
  unfolding drop_key
  drop_key-Keeps a v w h = if_ind (λ (w' : World). IsValid w'.pool) _ h h

  bound_budget-Keeps :
      (a : Attempt) (m : Moment) (v : Verdict) (timeout : ℕ) (w : World)
      → Keeps w (bound_budget a m v timeout w)
  unfolding bound_budget step
  bound_budget-Keeps a m v timeout w h =
      if_ind (λ (w' : World). IsValid w'.pool) _
        (step-IsValid fl opt w.pool (misses a.config.name timeout m.bounded_at) h) h

  dispose-Keeps :
      (a : Attempt) (m : Moment) (v : Verdict) (backoff timeout : ℕ) (w : World)
      → Keeps w (dispose a m v backoff timeout w).1
  unfolding dispose cooled_by handed_back journaled record_row log_call
  dispose-Keeps a m v backoff timeout w h = of_delay (delay_of w.opt v backoff)
    where
      bounded : World
      bounded = bound_budget a m v timeout (drop_key a v w)

      of_slot :
          (handed : Option Pool) (until : Option (Option Instant))
          → IsValid (or_else handed bounded.pool)
          → IsValid (handed_back a m (failure_row v timeout) until handed bounded).1.pool
      of_slot none until valid = valid
      of_slot (some p') none valid = valid
      of_slot (some p') (some until) valid = valid

      valid_before : IsValid bounded.pool
      valid_before = bound_budget-Keeps a m v timeout (drop_key a v w) (drop_key-Keeps a v w h)

      of_delay :
          (delay : Option (Option ℤ))
          → IsValid (cooled_by a m (failure_row v timeout) delay bounded).1.pool
      of_delay none = valid_before
      of_delay (some delay) =
          of_slot (hand_back a m delay bounded.pool) (until_of m.until_at delay)
            (hand_back-IsValid a m delay bounded.pool valid_before)

  settle_superseded-Keeps :
      (a : Attempt) (m : Moment) (usage : Option Usage) (w : World)
      → Keeps w (settle_superseded a m usage w)
  unfolding settle_superseded record_row log_call
  settle_superseded-Keeps a m usage w = release-IsValid a.config w.pool

  spent_budget-Keeps : (a : Attempt) (m : Moment) (w : World) → Keeps w (spent_budget a m w)
  unfolding spent_budget record_row log_call
  spent_budget-Keeps a m w = release-IsValid a.config w.pool

  crash_row-Keeps : (a : Attempt) (m : Moment) (e : Exc) (w : World) → Keeps w (crash_row a m e w)
  unfolding crash_row record_row log_call
  crash_row-Keeps a m (bug type_name) w h = h
  crash_row-Keeps a m _ w h = h

  settle_crash-Keeps :
      (a : Attempt) (m : Moment) (e : Exc) (w : World) → Keeps w (settle_crash a m e w)
  unfolding settle_crash
  settle_crash-Keeps a m e w h =
      if_ind (λ (w' : World). IsValid w'.pool) m.superseded (settle_superseded-Keeps a m none w h)
        (crash_row-Keeps a m e _ (release-IsValid a.config w.pool h))

  module _ (py : Parsers) where
    settle-Keeps :
        (a : Attempt) (m : Moment) (backoff timeout : ℕ) (budget_bound : Bool) (r : Reply)
        (w : World)
        → Keeps w (settle py a m backoff timeout budget_bound r w).1
    unfolding settle
    settle-Keeps a m backoff timeout budget_bound (completed content usage) w h =
        finish_ok-Keeps a m usage w h
    settle-Keeps a m backoff timeout budget_bound (raised e) w h =
        if_ind (λ (r : Ended × World). IsValid r.1.pool) (is_failover e)
          {x = (
            disposed (classify py m.classified_at e budget_bound).outcome
                (dispose a m (classify py m.classified_at e budget_bound) backoff timeout w).0,
            (dispose a m (classify py m.classified_at e budget_bound) backoff timeout w).1,
          )}
          (dispose-Keeps a m (classify py m.classified_at e budget_bound) backoff timeout w h)
          (settle_crash-Keeps a m e w h)

    backed_off-Keeps :
        (backoff : Option ℕ) (a : Attempt) (limits : Limits) (m : Moment) (w : World)
        → Keeps w (backed_off py backoff a limits m w).1
    unfolding backed_off
    backed_off-Keeps none a limits m w h = h
    backed_off-Keeps (some backoff) a limits m w h =
        if_ind (λ (r : Ended × World). IsValid r.1.pool) _ (spent_budget-Keeps a m w h)
          (settle-Keeps a m _ _ _ m.reply w h)

    pub opened-Keeps :
        (a : Attempt) (limits : Limits) (m : Moment) (w : World)
        → Keeps w (opened py a limits m w).1
    unfolding opened
    opened-Keeps a limits m w = backed_off-Keeps (backoff_of w.opt a.config.name) a limits m w

    with_key-Keeps :
        (key : Option String) (config : LlmConfig) (limits : Limits) (m : Moment) (w : World)
        → Keeps w (with_key py key config limits m w).1
    unfolding with_key
    with_key-Keeps none config limits m w = release-IsValid config w.pool
    with_key-Keeps (some key) config limits m w =
        opened-Keeps (new_attempt config limits m) limits m w

    pub attempt-Keeps :
        (config : LlmConfig) (limits : Limits) (m : Moment) (w : World)
        → Keeps w (attempt py config limits m w).1
    unfolding attempt
    attempt-Keeps config limits m w = with_key-Keeps _ config limits m _
