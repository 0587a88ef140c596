-- ===== src/Router/Attempts.antt =====
-- What every attempt does to the slot that it was handed, and to the other slots.
use llmbroker.Router.{cooled_by}
use llmbroker.Router.{
  Overflow, handed_back, journaled, failure_row, until_of, disposed, still_holds, gave_up, crashed,
  backed_off, attempt_timeout, backoff_of,
}
use llmbroker.Http.Verdict.{Outcome, budget_expired}
use llmbroker.Pool.Slots.{Slot}
use llmbroker.Models.{Instant}
use llmbroker.Base.Least.{some_inj}
use llmbroker.Base.{Dict, false, if◌then◌else◌, ◌&&◌, ◌==◌}
use llmbroker.Base.{ℕ, String, ◌≡◌, refl, sym, ap, ◌∙◌, subst, Bool, Option, none, some, if_ind, ℤ}
use llmbroker.Models.{LlmConfig}
use llmbroker.Http.Verdict.{Parsers, Exc, bug, Verdict, classify, is_failover}
use llmbroker.Pool
use llmbroker.Pool.{Pool}
use llmbroker.Pool.Handing.{HandsBack, release-HandsBack, cool_down-HandsBack, HandsBack-then}
use llmbroker.Router.{
  World, Attempt, Reply, completed, raised, Moment, Limits, Ended, record_row, log_call, finish_ok,
  drop_key, bound_budget, hand_back, delay_of, dispose, settle_superseded, spent_budget, crash_row,
  settle_crash, settle, opened,
}

-- What becomes of the slots: the slot of this name is handed back, or, where the attempt ended in an
-- OverflowError with its slot held, nothing is.
abbrev pub Handed : String → Bool → Dict Slot → Dict Slot → Type 0
Handed name holds_slot d d' = if holds_slot then d' ≡ d else HandsBack name d d'

-- An attempt's world before and after.
abbrev pub Hands : LlmConfig → World → World → Type 0
Hands config w w' = HandsBack config.name w.pool.slots w'.pool.slots

module _ (a : Attempt) (m : Moment) (w : World) where
  pub finish_ok-Hands : (usage : _) → Hands a.config w (finish_ok a m usage w)
  unfolding finish_ok record_row log_call Pool.clear_cooling Pool.clear_budget_bound
  finish_ok-Hands usage =
      HandsBack-then a.config.name Pool.settled w.pool.slots (Pool.release a.config w.pool).slots
        (λ s s' h. record {
          config_kept = h.config_kept;
          disabled_kept = h.disabled_kept;
          one_less = h.one_less;
          unclaimed = refl;
        })
        (release-HandsBack a.config w.pool)

  hand_back-Hands :
      (delay : Option ℤ) (p p' : Pool)
      → hand_back a m delay p ≡ some p'
      → HandsBack a.config.name p.slots p'.slots
  hand_back-Hands none p p' e =
      subst (λ (q : Pool). HandsBack a.config.name p.slots q.slots) (some_inj e)
        (release-HandsBack a.config p)
  hand_back-Hands (some delay) p p' e = cool_down-HandsBack m.cooled_at a.config delay p p' e

  -- Neither the key nor the bound is a matter of the slots.
  drop_key-slots : (v : Verdict) → (drop_key a v w).pool ≡ w.pool
  unfolding drop_key
  drop_key-slots v = if_ind (λ (w' : World). w'.pool ≡ w.pool) _ refl refl

  bound_budget-slots :
      (v : Verdict) (timeout : ℕ) → (bound_budget a m v timeout w).pool.slots ≡ w.pool.slots
  unfolding bound_budget Pool.raise_budget_bound
  bound_budget-slots v timeout = if_ind (λ (w' : World). w'.pool.slots ≡ w.pool.slots) _ refl refl

  pub settle_superseded-Hands : (usage : _) → Hands a.config w (settle_superseded a m usage w)
  unfolding settle_superseded record_row log_call
  settle_superseded-Hands usage = release-HandsBack a.config w.pool

  pub spent_budget-Hands : Hands a.config w (spent_budget a m w)
  unfolding spent_budget record_row log_call
  spent_budget-Hands = release-HandsBack a.config w.pool

-- Whether an OverflowError has left the slot held.
abbrev pub leaks : Overflow → Bool
leaks none = false
leaks (some holds_slot) = holds_slot

pub dispose-Handed :
    (a : Attempt) (m : Moment) (v : Verdict) (backoff timeout : ℕ) (w : World)
    → let r = dispose a m v backoff timeout w in
      Handed a.config.name (leaks r.0) w.pool.slots r.1.pool.slots
unfolding dispose cooled_by handed_back journaled record_row log_call
dispose-Handed a m v backoff timeout w = of_delay (delay_of w.opt v backoff)
  where
    bounded : World
    bounded = bound_budget a m v timeout (drop_key a v w)

    same : bounded.pool.slots ≡ w.pool.slots
    same =
        bound_budget-slots a m (drop_key a v w) v timeout
        ∙ ap (λ (p : Pool). p.slots) (drop_key-slots a m w v)

    of_slot :
        (handed : Option Pool) (until : Option (Option Instant))
        → ((p' : Pool) → handed ≡ some p' → HandsBack a.config.name bounded.pool.slots p'.slots)
        → let r = handed_back a m (failure_row v timeout) until handed bounded in
          Handed a.config.name (leaks r.0) w.pool.slots r.1.pool.slots
    of_slot none until h = same
    of_slot (some p') none h = subst (λ d. HandsBack a.config.name d p'.slots) same (h p' refl)
    of_slot (some p') (some until) h =
        subst (λ d. HandsBack a.config.name d p'.slots) same (h p' refl)

    of_delay :
        (delay : Option (Option ℤ))
        → let r = cooled_by a m (failure_row v timeout) delay bounded in
          Handed a.config.name (leaks r.0) w.pool.slots r.1.pool.slots
    of_delay none = same
    of_delay (some delay) =
        of_slot (hand_back a m delay bounded.pool) (until_of m.until_at delay)
          (λ p'. hand_back-Hands a m w delay bounded.pool p')

still_holds-disposed :
    (verdict : Option Outcome) (overflow : Overflow)
    → still_holds (disposed verdict overflow) ≡ leaks overflow
still_holds-disposed verdict none = refl
still_holds-disposed verdict (some holds_slot) = refl

pub crash_row-pool :
    (a : Attempt) (m : Moment) (e : Exc) (w : World) → (crash_row a m e w).pool ≡ w.pool
unfolding crash_row record_row log_call
crash_row-pool a m (bug type_name) w = refl
crash_row-pool a m _ w = refl

settle_crash-Hands :
    (a : Attempt) (m : Moment) (e : Exc) (w : World) → Hands a.config w (settle_crash a m e w)
unfolding settle_crash
settle_crash-Hands a m e w =
    if_ind (λ w'. Hands a.config w w') m.superseded (settle_superseded-Hands a m w none)
      (subst (λ (p : Pool). HandsBack a.config.name w.pool.slots p.slots)
        (sym (crash_row-pool a m e _)) (release-HandsBack a.config w.pool))

module _ (py : Parsers) where
  -- How an attempt ended, and what it did to the slots.
  abbrev pub Leaves : LlmConfig → World → Ended × World → Type 0
  Leaves config w r = Handed config.name (still_holds r.0) w.pool.slots r.1.pool.slots

  settle-Leaves :
      (a : Attempt) (m : Moment) (backoff timeout : ℕ) (budget_bound : Bool) (r : Reply) (w : World)
      → Leaves a.config w (settle py a m backoff timeout budget_bound r w)
  unfolding settle
  settle-Leaves a m backoff timeout budget_bound (completed content usage) w =
      finish_ok-Hands a m w usage
  settle-Leaves a m backoff timeout budget_bound (raised e) w =
      let v = classify py m.classified_at e budget_bound in
      let (overflow, w') = dispose a m v backoff timeout w in
      if_ind (Leaves a.config w) (is_failover e) {x = (disposed v.outcome overflow, w')}
        {y = (crashed e, settle_crash a m e w)}
        (subst (λ b. Handed a.config.name b w.pool.slots w'.pool.slots)
          (sym (still_holds-disposed v.outcome overflow)) (dispose-Handed a m v backoff timeout w))
        (settle_crash-Hands a m e w)

  backed_off-Leaves :
      (backoff : Option ℕ) (a : Attempt) (limits : Limits) (m : Moment) (w : World)
      → Leaves a.config w (backed_off py backoff a limits m w)
  unfolding backed_off
  backed_off-Leaves none a limits m w = refl
  backed_off-Leaves (some backoff) a limits m w =
      let (timeout, budget_bound) = attempt_timeout limits.answer_deadline m.asked in
      if_ind (Leaves a.config w) (budget_bound && timeout == 0)
        {x = (gave_up (some budget_expired), spent_budget a m w)}
        {y = settle py a m backoff timeout budget_bound m.reply w} (spent_budget-Hands a m w)
        (settle-Leaves a m backoff timeout budget_bound m.reply w)

  pub opened-Leaves :
      (a : Attempt) (limits : Limits) (m : Moment) (w : World)
      → Leaves a.config w (opened py a limits m w)
  unfolding opened
  opened-Leaves a limits m w = backed_off-Leaves (backoff_of w.opt a.config.name) a limits m w
