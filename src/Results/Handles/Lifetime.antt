-- ===== src/Results/Handles/Lifetime.antt =====
-- The life of a stream's handle.
use llmbroker.Base.{
  ℕ, ◌+◌, ◌≤◌, ◌≡◌, ◌≢◌, refl, sym, ◌∙◌, Bool, true, List, [], ◌∷◌, arith, if_ind, if◌then◌else◌,
}
use llmbroker.Results.Handles.{
  StreamHandle, Active, idle, pulling, continuing, Reply, began, stopped, is_closed, new_handle,
  Step, pull, continue, ends, enter, close, cleanup, step, run, begin_pull, begin_another,
  end_active, enter_handle, close_handle, run_cleanup, calls_close,
}

-- How often a run of steps calls `on_close`.
abbrev pub close_calls : List Step → StreamHandle → ℕ
close_calls [] h = 0
close_calls (s ∷ ss) h = calls_close (step s h).0 + close_calls ss (step s h).1

abbrev pub owed : StreamHandle → ℕ
owed h = if h.owes_close then 1 else 0

-- What a step leaves owing, with what it calls.
abbrev Pays : StreamHandle → Reply × StreamHandle → Type 0
Pays h r = calls_close r.0 + owed r.1 ≤ owed h

same_owed : (h : StreamHandle) → 0 + owed h ≤ owed h
same_owed h = omega arith

end_active-Pays : (starts : Bool) (h : StreamHandle) → Pays h (end_active starts h)
unfolding end_active
end_active-Pays starts h = go h.active
  where
    go :
        (a : Active)
        → let h' : StreamHandle = record h { active = a } in Pays h' (end_active starts h')
    go idle = same_owed h
    go pulling = same_owed h
    go continuing = same_owed h

run_cleanup-Pays : (h : StreamHandle) → Pays h (run_cleanup h)
unfolding run_cleanup
run_cleanup-Pays h = ground arith

step-Pays : (s : Step) (h : StreamHandle) → Pays h (step s h)
unfolding step begin_pull begin_another enter_handle close_handle
step-Pays pull h = ground arith
step-Pays continue h = ground arith
step-Pays (ends starts) h = end_active-Pays starts h
step-Pays enter h = if_ind (Pays h) h.closed (same_owed h) (same_owed h)
step-Pays close h = same_owed h
step-Pays cleanup h = run_cleanup-Pays h

close_calls-owed : (ss : List Step) (h : StreamHandle) → close_calls ss h ≤ owed h
close_calls-owed [] h = ground arith
close_calls-owed (s ∷ ss) h = omega (arith, step-Pays s h, close_calls-owed ss (step s h).1)

-- Once closed, a handle begins nothing.
abbrev IsShut : Reply × StreamHandle → Type 0
IsShut r = r.1.closed ≡ true

step-closed : (s : Step) (h : StreamHandle) → h.closed ≡ true → (step s h).1.closed ≡ true
unfolding step begin_pull begin_another enter_handle close_handle run_cleanup end_active
step-closed pull h e = ground (arith, e)
step-closed continue h e = ground (arith, e)
step-closed (ends starts) h e = go h.active
  where
    go :
        (a : Active)
        → let h' : StreamHandle = record h { active = a } in (end_active starts h').1.closed ≡ true
    go idle = e
    go pulling = e
    go continuing = e
step-closed enter h e = ground (arith, e)
step-closed close h e = refl
step-closed cleanup h e = ground (arith, e)

run-closed : (ss : List Step) (h : StreamHandle) → h.closed ≡ true → (run ss h).closed ≡ true
unfolding run
run-closed [] h e = e
run-closed (s ∷ ss) h e = run-closed ss (step s h).1 (step-closed s h e)

abbrev pub BeginsNothing : StreamHandle → Type 0
BeginsNothing h =
    ((begin_pull h).0 ≢ began) × ((begin_another h).0 ≢ began) × ((enter_handle h).0 ≢ began)

closed-BeginsNothing : (h : StreamHandle) → h.closed ≡ true → BeginsNothing h
unfolding begin_pull begin_another enter_handle
closed-BeginsNothing h e = (
  λ b. ne_began (sym pulls ∙ b),
  λ b. shut-ne-began (sym goes_on ∙ b),
  λ b. shut-ne-began (sym enters ∙ b),
)
  where
    pulls : (begin_pull h).0 ≡ stopped
    pulls = ground (arith, e)

    goes_on : (begin_another h).0 ≡ is_closed
    goes_on = ground (arith, e)

    enters : (enter_handle h).0 ≡ is_closed
    enters = ground (arith, e)

    ne_began : stopped ≢ began
    ne_began b = cc

    shut-ne-began : is_closed ≢ began
    shut-ne-began b = cc

-- Whatever is done on a new handle and in whatever order, the broker is told once at most that it
-- has closed; and from a close on, no pull, no continuation and no `async with` begins on it.
pub run-Lifetime :
    (before after : List Step)
    → (close_calls before new_handle ≤ 1)
      × BeginsNothing (run after (step close (run before new_handle)).1)
unfolding step close_handle
run-Lifetime before after =
    (close_calls-owed before new_handle, closed-BeginsNothing _ (run-closed after _ refl))
