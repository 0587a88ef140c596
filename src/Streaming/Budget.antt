-- ===== src/Streaming/Budget.antt =====
-- src/llmbroker/broker/streaming.py: `StreamBudget` and `budgeted_await`, with `_resume_budget` of
-- src/llmbroker/broker/stream_owner.py. Readings of `time.monotonic` are arguments.
use llmbroker.Base.{
  ℕ, ◌+◌, ◌-◌, ◌≤◌, ◌≡◌, refl, ap, Option, none, some, List, [], ◌∷◌, ◌&&◌, arith, if◌then◌else◌,
  is_some, not, leb,
}

pub record StreamBudget : Type 0 where
  pub deadline : Option ℕ
  pub paused_at : Option ℕ

-- `pause`.
unfoldable pub pause : ℕ → StreamBudget → StreamBudget
pause now b =
    if is_some b.deadline && not (is_some b.paused_at) then record b { paused_at = some now } else b

abbrev pub plus : Option ℕ → ℕ → Option ℕ
plus none span = none
plus (some at) span = some (at + span)

-- `resume`: the budget, and the span for which the reader held it.
unfoldable pub resume : ℕ → StreamBudget → ℕ × StreamBudget
resume now b = elim b.paused_at [
  | none ↦ (0, b)
  | some at ↦ (now - at, record { deadline = plus b.deadline (now - at); paused_at = none })
]

-- The deadline that `budgeted_await` waits under.
abbrev pub earlier : ℕ → Option ℕ → ℕ
earlier provider none = provider
earlier provider (some at) = if leb provider at then provider else at

unfoldable pub deadline_of : ℕ → Option StreamBudget → ℕ
deadline_of provider none = provider
deadline_of provider (some b) =
    if is_some b.paused_at then provider else earlier provider b.deadline

-- What `asyncio.wait` comes back to: the task is done, or the budget has changed, or the time is up.
pub data Wake {ℓ} (A : Type ℓ) : Type ℓ where
  task_done : A → Wake A
  budget_changed : (now : ℕ) → Option StreamBudget → Wake A
  time_up : Wake A

pub data Awaited {ℓ} (A : Type ℓ) : Type ℓ where
  produced : A → Awaited A
  timed_out : Awaited A
  -- The schedule ends: the span of the wait that is still on.
  waits : (span : ℕ) → Awaited A

unfoldable pub budgeted_await {ℓ} :
    {A : Type ℓ} → ℕ → ℕ → Option StreamBudget → List (Wake A) → Awaited A
budgeted_await now provider b [] = waits (deadline_of provider b - now)
budgeted_await now provider b (task_done x ∷ later) = produced x
budgeted_await now provider b (budget_changed now' b' ∷ later) =
    budgeted_await now' provider b' later
budgeted_await now provider b (time_up ∷ later) = timed_out

-- What is left of the budget at a reading; a paused budget stands at what it had.
unfoldable pub left : ℕ → StreamBudget → Option ℕ
left now b = elim b.deadline [
  | none ↦ none
  | some at ↦ some (at - (elim b.paused_at [ none ↦ now | some paused ↦ paused ]))
]

abbrev budget_of : Option ℕ → Option ℕ → StreamBudget
budget_of deadline paused_at = record { deadline = deadline; paused_at = paused_at }

resumed_left :
    (paused resumed : ℕ) (deadline paused_at : Option ℕ)
    → paused_at ≡ none
    → paused ≤ resumed
    → left resumed (resume resumed (pause paused (budget_of deadline paused_at))).1
      ≡ left paused (budget_of deadline paused_at)
unfolding left resume pause
resumed_left paused resumed deadline (some at) e h = absurd cc
resumed_left paused resumed none none e h = refl
resumed_left paused resumed (some at) none e h = ap some (omega arith)

-- The time for which a reader holds a delta is not the model's: a running budget that is paused and
-- resumed later has just what it had left when it was paused.
pub resume-left :
    (paused resumed : ℕ) (b : StreamBudget)
    → b.paused_at ≡ none
    → paused ≤ resumed
    → left resumed (resume resumed (pause paused b)).1 ≡ left paused b
resume-left paused resumed b = resumed_left paused resumed b.deadline b.paused_at
