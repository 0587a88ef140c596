-- ===== src/Results/Handles.antt =====
-- src/llmbroker/broker/result.py: `StreamHandle`, as the operations that the reader and the broker
-- begin and end on it.
pub mod Lifetime
use llmbroker.Base.{
  ℕ, suc, String, Bool, true, false, not, ◌&&◌, ◌||◌, Option, none, some, List, [], ◌∷◌,
  if◌then◌else◌, is_some,
}

-- The operation that is under way on a handle.
pub data Active : Type 0 where
  idle : Active
  pulling : Active
  continuing : Active

pub record StreamHandle : Type 0 where
  -- Whether `_start` has given the handle its source, and whether the source is closed.
  pub has_source : Bool
  pub active : Active
  pub closed : Bool
  -- `_on_close` has not been called yet.
  pub owes_close : Bool

abbrev pub new_handle : StreamHandle
new_handle = record { has_source = false; active = idle; closed = false; owes_close = true }

pub data Reply : Type 0 where
  -- The operation has begun.
  began : Reply
  -- StopAsyncIteration.
  stopped : Reply
  -- RuntimeError: the stream is closed, or busy, or has no complete initial answer.
  is_closed is_busy not_started : Reply
  -- The operation, or the close, is over; with `on_close` called or not.
  ended : (on_close : Bool) → Reply

-- What the reader, the broker and the event loop do: `starts` is whether the source was there when a
-- pull ended.
pub data Step : Type 0 where
  pull continue : Step
  ends : (starts : Bool) → Step
  enter close : Step
  -- The task of `_close` runs to its end, what is under way cancelled.
  cleanup : Step

abbrev pub is_idle : Active → Bool
is_idle idle = true
is_idle _ = false

unfoldable pub begin_pull : StreamHandle → Reply × StreamHandle
begin_pull h =
    if h.closed
    then (stopped, h)
    else if not (is_idle h.active)
    then (is_busy, h)
    else (began, record h { active = pulling })

unfoldable pub begin_another : StreamHandle → Reply × StreamHandle
begin_another h =
    if h.closed
    then (is_closed, h)
    else if not (is_idle h.active)
    then (is_busy, h)
    else if not h.has_source
    then (not_started, h)
    else (began, record h { active = continuing })

unfoldable pub end_active : Bool → StreamHandle → Reply × StreamHandle
end_active starts h = elim h.active [
  | idle ↦ (ended false, h)
  | pulling ↦ (ended false, record h { active = idle; has_source = h.has_source || starts })
  | continuing ↦ (ended false, record h { active = idle })
]

-- `__aenter__` and `aclose`.
unfoldable pub enter_handle : StreamHandle → Reply × StreamHandle
enter_handle h = if h.closed then (is_closed, h) else (began, h)

unfoldable pub close_handle : StreamHandle → Reply × StreamHandle
close_handle h = (began, record h { closed = true })

-- `_close`, which runs once a close has been asked for.
unfoldable pub run_cleanup : StreamHandle → Reply × StreamHandle
run_cleanup h =
    if h.closed
    then (ended h.owes_close, record h { active = idle; has_source = false; owes_close = false })
    else (ended false, h)

unfoldable pub step : Step → StreamHandle → Reply × StreamHandle
step pull h = begin_pull h
step continue h = begin_another h
step (ends starts) h = end_active starts h
step enter h = enter_handle h
step close h = close_handle h
step cleanup h = run_cleanup h

unfoldable pub run : List Step → StreamHandle → StreamHandle
run [] h = h
run (s ∷ ss) h = run ss (step s h).1

-- How often a run calls `on_close`.
abbrev pub calls_close : Reply → ℕ
calls_close (ended true) = 1
calls_close _ = 0
