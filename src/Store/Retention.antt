-- ===== src/Store/Retention.antt =====
-- src/llmbroker/journal_policy.py: `PurgeClock`; `_maybe_purge`, `record` and `record_quality` of
-- `DriverStore` in src/llmbroker/backends/ports.py. Spans are in microseconds.
use llmbroker.Base.{String, ◌++◌, leb, all_some, or_else, All}
use llmbroker.Store.{call_to_row, with_utc_timestamps, quality_row}
use llmbroker.Models.{Double, Call}
use llmbroker.Base.{
  ℕ, ◌+◌, ◌-◌, ◌≤◌, ◌≡◌, refl, Bool, true, false, Option, none, some, List, [], ◌∷◌, arith,
  if◌then◌else◌, if_ind, filter, ltb, any_some, Bool-cases, inl, inr,
}
use llmbroker.Models.{Instant}
use llmbroker.Store.{Row}
use llmbroker.Store.Journal.{purge, is_kept, append_row}

-- PURGE_INTERVAL: an hour.
abbrev pub purge_interval : ℕ
purge_interval = 3_600_000_000

-- `due`: the clock's last purge, none before the first.
unfoldable pub due : ℕ → Option ℕ → Bool × Option ℕ
due now last =
    if any_some (λ l. ltb now (l + purge_interval)) last then (false, last) else (true, some now)

-- `_maybe_purge`, after a write: the monotonic clock, the time of day, and the retention. A horizon
-- before `datetime.min`, an OverflowError once the row is written, purges no row that has an instant.
unfoldable pub maybe_purge : ℕ → Instant → ℕ → Option ℕ → List Row → Option ℕ × List Row
maybe_purge now today retention last rows =
    let (is_due, last') = due now last in
    (last', if is_due then (purge (today - retention) rows).0 else rows)

-- A write of the store: the row, then the purge.
unfoldable pub write : ℕ → Instant → ℕ → Row → Option ℕ → List Row → Option ℕ × List Row
write now today retention r last rows = maybe_purge now today retention last (append_row r rows)

-- `DriverStore.record`; the call is stamped with `now` where it has no instant.
abbrev pub record_call :
    (monotonic : ℕ) (today : Instant) (retention : ℕ) (now : Instant)
    → Call
    → Option ℕ
    → List Row
    → Option ℕ × List Row
record_call monotonic today retention now c =
    write monotonic today retention (call_to_row (with_utc_timestamps now c))

-- `DriverStore.record_quality`.
abbrev pub record_rating :
    (monotonic : ℕ) (today : Instant) (retention : ℕ) (fresh_id : String) (now : Instant)
    (call_id : String)
    → Double
    → (scope : Option String) → Option ℕ
    → List Row
    → Option ℕ × List Row
record_rating monotonic today retention fresh_id now call_id score scope =
    write monotonic today retention (quality_row fresh_id now call_id score scope)

-- What the purge of such a write leaves of the rows that were there: all of them, unless the clock is
-- due; then those with no instant or one within the retention.
abbrev pub survivors : ℕ → Instant → ℕ → Option ℕ → List Row → List Row
survivors monotonic today retention last rows =
    if (due monotonic last).0
    then filter (λ r. all_some (leb (today - retention)) r.called_at) rows
    else rows

is_kept-all_some :
    (before : Instant) (r : Row) → is_kept before r ≡ all_some (leb before) r.called_at
is_kept-all_some before r = of_instant r.called_at
  where
    of_instant : (o : Option Instant) → leb before (or_else o before) ≡ all_some (leb before) o
    of_instant none = ground arith
    of_instant (some t) = refl

-- A row within the retention is appended to what the purge leaves of the others.
pub write-append :
    (monotonic : ℕ) (today : Instant) (retention : ℕ) (r : Row) (last : Option ℕ) (rows : List Row)
    → all_some (leb (today - retention)) r.called_at ≡ true
    → (write monotonic today retention r last rows).1
      ≡ append_row r (survivors monotonic today retention last rows)
unfolding write maybe_purge purge append_row
write-append monotonic today retention r last rows h = elim (Bool-cases (due monotonic last).0) [
  | inl b ↦ rw b (kept rows)
  | inr b ↦ rw b refl
]
  where
    kept :
        (rows : List Row)
        → filter (is_kept (today - retention)) (rows ++ r ∷ [])
          ≡ filter (λ s. all_some (leb (today - retention)) s.called_at) rows ++ r ∷ []
    kept [] = rw (is_kept-all_some (today - retention) r, h) refl
    kept (s ∷ rows) = rw (is_kept-all_some (today - retention) s) (ground (arith, kept rows))

pub All-survivors {ℓ} :
    (P : Row → Type ℓ) (monotonic : ℕ) (today : Instant) (retention : ℕ) (last : Option ℕ)
    (rows : List Row)
    → All P rows
    → All P (survivors monotonic today retention last rows)
All-survivors P monotonic today retention last rows h =
    if_ind (All P) (due monotonic last).0 (of_kept rows h) h
  where
    of_kept :
        (rows : List Row)
        → All P rows
        → All P (filter (λ s. all_some (leb (today - retention)) s.called_at) rows)
    of_kept [] h = tt
    of_kept (s ∷ rows) (h, hs) =
        if_ind (All P) (all_some (leb (today - retention)) s.called_at) (h, of_kept rows hs)
          (of_kept rows hs)

-- The readings at which a clock is due, over a run of them.
unfoldable pub due_times : List ℕ → Option ℕ → List ℕ
due_times [] last = []
due_times (now ∷ later) last =
    let (is_due, last') = due now last in
    let rest = due_times later last' in if is_due then now ∷ rest else rest

-- Each reading is at least an interval after the one before.
abbrev pub IsAfter : Option ℕ → List ℕ → Type 0
IsAfter last [] = Unit
IsAfter none (t ∷ ts) = IsAfter (some t) ts
IsAfter (some l) (t ∷ ts) = (l + purge_interval ≤ t) × IsAfter (some t) ts

-- The purge runs at most once an hour: over any readings of the clock, those at which it is due
-- follow the last purge, and one another, at an hour or more.
pub due_times-IsAfter :
    (readings : List ℕ) (last : Option ℕ) → IsAfter last (due_times readings last)
unfolding due_times due
due_times-IsAfter [] last = tt
due_times-IsAfter (now ∷ later) none = due_times-IsAfter later (some now)
due_times-IsAfter (now ∷ later) (some l) = elim (Bool-cases (ltb now (l + purge_interval))) [
  | inl h ↦ rw h (due_times-IsAfter later (some l))
  | inr h ↦ rw h (ground (arith, h), due_times-IsAfter later (some now))
]

-- A write never costs the journal a row that is within the retention: of all rows no older than the
-- horizon, with the one just written, none is lost, and no row is made up.
pub write-keeps :
    (now : ℕ) (today : Instant) (retention : ℕ) (r : Row) (last : Option ℕ) (rows : List Row)
    → filter (is_kept (today - retention)) (write now today retention r last rows).1
      ≡ filter (is_kept (today - retention)) (append_row r rows)
unfolding write maybe_purge purge
write-keeps now today retention r last rows =
    if_ind
      (λ rows'.
        filter (is_kept (today - retention)) rows'
        ≡ filter (is_kept (today - retention)) (append_row r rows))
      (due now last).0 (twice (append_row r rows)) refl
  where
    twice :
        (rows : List Row)
        → filter (is_kept (today - retention)) (filter (is_kept (today - retention)) rows)
          ≡ filter (is_kept (today - retention)) rows
    twice [] = refl
    twice (s ∷ rows) = ground (arith, twice rows)
