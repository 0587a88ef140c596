-- ===== src/Router/Settlements.antt =====
-- What each way of ending says of the model: its cooldown, its streak of failures, its budget bound
-- and its key.
use llmbroker.Router.{fits_float}
use llmbroker.Http.Verdict.{default_rate_limit_sec}
use llmbroker.Router.{delay_of}
use llmbroker.Http.Verdict.{Parsers, Response, classify_status, retry_after_seconds}
use llmbroker.Http.{is_rate_limit}
use llmbroker.Models.{Instant}
use llmbroker.Base.{String, last_instant, ◌∙◌, ◌*◌, ◌-◌, ◌<◌}
use mathlib.Core.Option
use llmbroker.Base.{
  ℕ, suc, ◌≤◌, ◌≡◌, refl, ap, true, false, Option, none, some, arith, lookup, lookup-insert_self,
  lookup-update_self, lookup-remove_self, ℤ, pos, negsuc, shift, scale, min_ℤ, or_else,
}
use llmbroker.Models.{LlmConfig, Call, ok, superseded, Usage}
use llmbroker.Optimizer.{Optimizer, rl_fail_count, on_success}
use llmbroker.Pool
use llmbroker.Pool.{Pool}
use llmbroker.Pool.Slots.{Slot, has_capacity, is_free}
use llmbroker.Router.{
  World, Attempt, learn, row, Moment, record_row, log_call, observe, call_of, finish_ok,
  settle_superseded, capped_wait,
}

-- Losing a race proves nothing about the model: its slot is handed back as `release` does it, and
-- the optimizer and the keys stay as they were.
pub settle_superseded-neutral :
    (a : Attempt) (m : Moment) (usage : Option Usage) (w : World)
    → let w' = settle_superseded a m usage w in
      (w'.pool ≡ Pool.release a.config w.pool) × (w'.opt ≡ w.opt) × (w'.rings ≡ w.rings)
unfolding settle_superseded record_row log_call observe call_of
settle_superseded-neutral a m usage w = (
  refl,
  learn-superseded (call_of a m (record (row superseded) { usage = usage })) w.opt refl,
  refl,
)
  where
    learn-superseded :
        (call : Call) (o : Option Optimizer) → call.status ≡ some superseded → learn call o ≡ o
    learn-superseded call none e = refl
    learn-superseded call (some opt) e = rw e refl

-- An answer settles every open question about the model: its slot is not cooling and owes no
-- recovery, no budget bound stands against it, and its streak of failures is over.
pub finish_ok-settles :
    (a : Attempt) (m : Moment) (usage : Option Usage) (w : World) (s : Slot) (opt : Optimizer)
    → lookup a.config.name w.pool.slots ≡ some s
    → w.opt ≡ some opt
    → let w' = finish_ok a m usage w in
      (s' : Slot) × (lookup a.config.name w'.pool.slots ≡ some s')
      × (s'.cooldown_until ≡ none)
      × (s'.recovery_due ≡ false)
      × (lookup a.config.name w'.pool.budget_bounds ≡ none)
      × ((opt' : Optimizer) × (w'.opt ≡ some opt') × (rl_fail_count opt' a.config.name ≡ 0))
unfolding finish_ok record_row log_call observe call_of Pool.release Pool.clear_cooling
    Pool.clear_budget_bound on_success rl_fail_count
finish_ok-settles a m usage w s opt e eo = (
  Pool.settled (Pool.released s),
  lookup-update_self a.config.name Pool.settled _ (Pool.released s)
      (lookup-update_self a.config.name Pool.released w.pool.slots s e),
  refl,
  refl,
  lookup-remove_self a.config.name w.pool.budget_bounds,
  (
    on_success opt a.config.name,
    ap (learn (call_of a m (record (row ok) { http_status = some 200; usage = usage }))) eo,
    ap (λ (o : Option ℕ). or_else o 0) (lookup-insert_self a.config.name 0 opt.rl_fail_counts),
  ),
)

module _ (n k : ℕ) where
  scale-negsuc : 1 ≤ k → scale (negsuc n) k ≡ negsuc (suc n * k - 1)
  scale-negsuc h = grind arith

min_ℤ-negsuc : (m k : ℕ) → min_ℤ (negsuc m) (pos k) ≡ negsuc m
min_ℤ-negsuc m k = ground arith

-- What a negative base comes to: its product with the backoff, which no cap shortens.
capped_wait-negsuc :
    (opt : Optimizer) (n backoff : ℕ)
    → 1 ≤ backoff
    → capped_wait (some opt) (scale (negsuc n) 1_000_000) backoff
      ≡ negsuc (suc n * 1_000_000 * backoff - 1)
unfolding capped_wait
capped_wait-negsuc opt n backoff h =
    let seconds : suc (suc n * 1_000_000 - 1) ≡ suc n * 1_000_000 = omega arith in
    ap (λ base. min_ℤ (scale base backoff) (pos opt.max_delay))
      (scale-negsuc n 1_000_000 (omega arith))
    ∙ (ap (λ d. min_ℤ d (pos opt.max_delay))
          (scale-negsuc (suc n * 1_000_000 - 1) backoff h
            ∙ ap (λ m. negsuc (m * backoff - 1)) seconds)
        ∙ min_ℤ-negsuc _ opt.max_delay)

shift-negsuc :
    (now m : ℕ) → suc m ≤ now → now ≤ last_instant → shift now (negsuc m) ≡ some (now - suc m)
unfolding shift
shift-negsuc now m h g = ground arith

retry_after_seconds-parsed :
    (py : Parsers) (now : Instant) (raw : String) (d default_sec : ℤ)
    → py.parse_int raw ≡ some d
    → retry_after_seconds py now (some raw) default_sec ≡ d
unfolding retry_after_seconds
retry_after_seconds-parsed py now raw d default_sec parsed = rw (parsed, retry_after_seconds) refl

-- A number of seconds within the range of instants is a float.
fits_negsuc :
    (n backoff now : ℕ)
    → 1 ≤ backoff
    → suc n * 1_000_000 * backoff ≤ now
    → now ≤ last_instant
    → fits_float (negsuc n) ≡ true
fits_negsuc n backoff now h g k =
    let small : suc n ≤ suc n * 1_000_000 * backoff = grind (arith, h) in
    ground (arith, small, g, k)

-- The seconds that a Retry-After header asks for are what a throttled model is cooled by.
cool_base-retry_after :
    (py : Parsers) (now : Instant) (r : Response) (raw : String) (d : ℤ)
    → is_rate_limit r.status_code ≡ true
    → r.retry_after ≡ some raw
    → py.parse_int raw ≡ some d
    → (classify_status py now r).cool_base ≡ some d
unfolding classify_status
cool_base-retry_after py now r raw d limited asked parsed = rw limited (
    ap some (
      ap (λ header. retry_after_seconds py now header default_rate_limit_sec) asked
      ∙ retry_after_seconds-parsed py now raw d default_rate_limit_sec parsed))

-- A throttled model whose provider sends a negative number of seconds as Retry-After is not cooled
-- at all: where the backoff is positive and the instant that many seconds back, times the backoff, is
-- in range, its cooldown ends before it begins, and the slot is free at the instant of its failure as
-- far as its capacity goes.
pub negative_delay_is_free :
    (py : Parsers) (classified_at now : Instant) (r : Response) (raw : String) (n backoff : ℕ)
    (opt : Optimizer) (cfg : LlmConfig) (p : Pool) (s : Slot)
    → is_rate_limit r.status_code ≡ true
    → r.retry_after ≡ some raw
    → py.parse_int raw ≡ some (negsuc n)
    → 1 ≤ backoff
    → suc n * 1_000_000 * backoff ≤ now
    → now ≤ last_instant
    → lookup cfg.name p.slots ≡ some s
    → (delay : ℤ) × (p' : Pool) × (s' : Slot) × (until : Instant) × (delay_of
          (some opt)
          (classify_status py classified_at r)
          backoff
        ≡ some (some delay))
      × (Pool.cool_down now cfg delay p ≡ some p')
      × (lookup cfg.name p'.slots ≡ some s')
      × (s'.cooldown_until ≡ some until)
      × (until < now)
      × (is_free now s' ≡ has_capacity s')
unfolding Pool.cool_down is_free delay_of
negative_delay_is_free py classified_at now r raw n backoff opt cfg p s limited asked parsed
      pos_backoff in_range now_in_range e =
    (
      negsuc m,
      Pool.on_slot cfg.name (Pool.cooled (now - suc m)) p,
      Pool.cooled (now - suc m) s,
      now - suc m,
      rw (cool_base-retry_after py classified_at r raw (negsuc n) limited asked parsed) (
          rw (fits_negsuc n backoff now pos_backoff in_range now_in_range)
            (ap (λ d. some (some d)) (capped_wait-negsuc opt n backoff pos_backoff))),
      ap (Option.map (λ until. Pool.on_slot cfg.name (Pool.cooled until) p))
          (shift-negsuc now m (omega (arith, whole, in_range)) now_in_range),
      lookup-update_self cfg.name (Pool.cooled (now - suc m)) p.slots s e,
      refl,
      omega (arith, whole, in_range),
      ground arith,
    )
  where
    m : ℕ
    m = suc n * 1_000_000 * backoff - 1

    whole : suc m ≡ suc n * 1_000_000 * backoff
    whole = grind (arith, pos_backoff)
