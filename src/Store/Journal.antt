-- ===== src/Store/Journal.antt =====
-- src/llmbroker/backends/inmemory.py: `journal_view`, `append` and `purge`; `calls` of `DriverStore` in
-- src/llmbroker/backends/ports.py. The journal is oldest first.
use text.Mathlib.Text.{◌==◌ as str_eq}
use llmbroker.Base.{
  ℕ, ◌-◌, String, Bool, true, false, ◌&&◌, Option, none, some, List, [], ◌∷◌, ◌++◌, map,
  if◌then◌else◌, filter, take, length, ltb, leb, lookup, insert, has_key, Dict, all_some, or_else,
}
use llmbroker.Base.Sorting.{sorted}
use llmbroker.Models.{Instant, Double, Call}
use llmbroker.Store.{kind_call, kind_quality, Row, row_to_call}

abbrev pub is_call : Row → Bool
is_call r = elim r.kind [ kind_call ↦ true | kind_quality ↦ false ]

-- `r.get("called_at") or _EPOCH`.
abbrev pub time_of : Row → ℕ
time_of r = or_else r.called_at 0

-- Newest first; Python's reversed sort keeps equal rows in their order.
abbrev pub newer : Row → Row → Bool
newer r s = ltb (time_of s) (time_of r)

unfoldable pub ordered : List Row → List Row
ordered rows = sorted newer rows

-- The rating that a row carries, of the call that it names.
unfoldable pub rating_of : Row → Option (String × Double)
rating_of r = if is_call r then none else elim r.call_id [
  | none ↦ none
  | some id ↦ elim r.quality_score [ none ↦ none | some score ↦ some (id, score) ]
]

-- `setdefault`: the first rating that is seen stays.
abbrev pub set_default : Option (String × Double) → Dict Double → Dict Double
set_default none d = d
set_default (some (id, score)) d = if has_key id d then d else insert id score d

unfoldable pub newest_rating : List Row → Dict Double → Dict Double
newest_rating [] d = d
newest_rating (r ∷ rows) d = newest_rating rows (set_default (rating_of r) d)

-- The columns that a read narrows by.
pub record Match : Type 0 where
  pub scope : Option String
  pub operation : Option String
  pub trace_id : Option String
  pub id : Option String

abbrev pub agrees : Option String → Option String → Bool
agrees none held = true
agrees (some want) none = false
agrees (some want) (some held) = str_eq held want

abbrev pub matches : Match → Row → Bool
matches m r =
    agrees m.scope r.scope
    && agrees m.operation r.operation
    && agrees m.trace_id r.trace_id
    && agrees m.id (some r.id)

abbrev pub is_since : Option Instant → Row → Bool
is_since since r = all_some (λ bound. leb bound (time_of r)) since

abbrev pub is_wanted : Match → Option Instant → Row → Bool
is_wanted m since r = is_call r && matches m r && is_since since r

abbrev pub rated : Dict Double → Row → Row
rated ratings r = record r { score = lookup r.id ratings }

-- `journal_view`; its three filters in turn keep what passes all three.
unfoldable pub journal_view : ℕ → Match → Option Instant → List Row → List Row
journal_view limit m since rows =
    let rows' = ordered rows in
    map (rated (newest_rating rows' [])) (take limit (filter (is_wanted m since) rows'))

-- `purge`: the rows that stay, and how many go. A row without an instant stays.
abbrev pub is_kept : Instant → Row → Bool
is_kept before r = leb before (or_else r.called_at before)

unfoldable pub purge : Instant → List Row → List Row × ℕ
purge before rows = let keep = filter (is_kept before) rows in (keep, length rows - length keep)

-- `DriverStore.calls`; `check_limit` refuses a limit below 1.
unfoldable pub calls : ℕ → Match → Option Instant → List Row → Option (List Call)
calls limit m since rows =
    if leb 1 limit then some (map row_to_call (journal_view limit m since rows)) else none

-- The row that `DriverStore.record` and `record_quality` append.
unfoldable pub append_row : Row → List Row → List Row
append_row r rows = rows ++ r ∷ []
