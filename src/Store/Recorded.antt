-- ===== src/Store/Recorded.antt =====
-- A call that was recorded is there to be read.
use llmbroker.Store.Retention.{record_call, survivors, write-append, All-survivors}
use llmbroker.Base.{ℕ, ◌≤◌, ◌-◌, leb, all_some, or_else, Option, subst, sym}
use text.Mathlib.Text.{◌==◌ as str_eq}
use llmbroker.Base.{
  ◌≡◌, ◌⊎◌, refl, ap, ◌∙◌, String, Bool, true, false, ◌&&◌, none, some, List, [], ◌∷◌, ◌++◌, map,
  arith, if◌then◌else◌, if_ind, filter, take, lookup, Dict, All, eq_iff,
}
use llmbroker.Base.Sorting.{sorted, place}
use llmbroker.Models.{Instant, Double, Call}
use llmbroker.Store.{Row, usage_columns, has_counts, call_to_row, row_to_call, with_utc_timestamps}
use llmbroker.Store.Rows.{row_to_call-call_to_row}
use llmbroker.Store.Journal.{
  is_call, newer, ordered, newest_rating, Match, is_wanted, rated, journal_view, calls, append_row,
}
use llmbroker.Store.Views.{first_rating, lookup-newest_rating}

if_both_same :
    (q : Row → Bool) (s : Row) (xs ys : List Row)
    → xs ≡ ys
    → (if q s then s ∷ xs else xs) ≡ (if q s then s ∷ ys else ys)
if_both_same q s xs ys e = ap (λ zs. if q s then s ∷ zs else zs) e

place-unwanted :
    (q : Row → Bool) (r : Row) (rows : List Row)
    → q r ≡ false
    → filter q (place newer r rows) ≡ filter q rows
unfolding place
place-unwanted q r [] h = rw h refl
place-unwanted q r (s ∷ rows) h =
    if_ind (λ placed. filter q placed ≡ filter q (s ∷ rows)) (newer s r)
      (if_both_same q s (filter q (place newer r rows)) (filter q rows) (place-unwanted q r rows h))
      (rw h refl)

-- Only the row just appended is wanted.
filter-sorted-last :
    (q : Row → Bool) (r : Row) (rows : List Row)
    → q r ≡ true
    → All (λ s. q s ≡ false) rows
    → filter q (sorted newer (rows ++ r ∷ [])) ≡ r ∷ []
unfolding sorted place
filter-sorted-last q r [] h hs = rw h refl
filter-sorted-last q r (s ∷ rows) h (e, hs) =
    place-unwanted q s (sorted newer (rows ++ r ∷ [])) e ∙ filter-sorted-last q r rows h hs

abbrev pub by_id : String → Match
by_id id = record { scope = none; operation = none; trace_id = none; id = some id }

str_eq_refl : (s : String) → str_eq s s ≡ true
str_eq_refl s = ground (arith, eq_iff s s)

calls-append_row :
    (now : Instant) (c : Call) (rows : List Row)
    → (c.usage ≡ none) ⊎ (has_counts (usage_columns c.usage) ≡ true)
    → All (λ r. (is_call r && str_eq r.id c.id) ≡ false) rows
    → let rows' = append_row (call_to_row (with_utc_timestamps now c)) rows in
      calls 1 (by_id c.id) none rows'
      ≡ some (record (with_utc_timestamps now c) { score = first_rating c.id (ordered rows') } ∷ [])
unfolding calls journal_view ordered append_row lookup call_to_row with_utc_timestamps
calls-append_row now c rows u h =
    ap (λ found. some (map row_to_call (map (rated d) (take 1 found)))) alone
    ∙ ap (λ (call : Call). some (call ∷ []))
        (row_to_call-call_to_row stamped (lookup c.id d) u
          ∙ ap (λ score. record stamped { score = score }) (lookup-newest_rating c.id rows'' []))
  where
    stamped : Call
    stamped = with_utc_timestamps now c

    rows'' : List Row
    rows'' = sorted newer (rows ++ call_to_row stamped ∷ [])

    d : Dict Double
    d = newest_rating rows'' []

    unwanted :
        (rows : List Row)
        → All (λ r. (is_call r && str_eq r.id c.id) ≡ false) rows
        → All (λ r. is_wanted (by_id c.id) none r ≡ false) rows
    unwanted [] h = tt
    unwanted (r ∷ rows) (h, hs) = (ground (arith, h), unwanted rows hs)

    alone : filter (is_wanted (by_id c.id) none) rows'' ≡ call_to_row stamped ∷ []
    alone =
        filter-sorted-last (is_wanted (by_id c.id) none) (call_to_row stamped) rows
          (ground (arith, str_eq_refl c.id)) (unwanted rows h)

-- A call that was recorded is there to be read: where the instant it bears, or else the one it is
-- stamped with, is within the retention, no other call of the journal bears its id, and its usage,
-- where it has one, counts anything, a read by that id after the write and its purge shows that call
-- and no other, with that instant and its rating if it has one.
pub calls-record_call :
    (monotonic : ℕ) (today : Instant) (retention : ℕ) (now : Instant) (c : Call) (last : Option ℕ)
    (rows : List Row)
    → today - retention ≤ or_else c.ts now
    → (c.usage ≡ none) ⊎ (has_counts (usage_columns c.usage) ≡ true)
    → All (λ r. (is_call r && str_eq r.id c.id) ≡ false) rows
    → let rows' = (record_call monotonic today retention now c last rows).1 in
      calls 1 (by_id c.id) none rows'
      ≡ some (record (with_utc_timestamps now c) { score = first_rating c.id (ordered rows') } ∷ [])
unfolding call_to_row with_utc_timestamps
calls-record_call monotonic today retention now c last rows recent u h =
    subst
      (λ rs.
        calls 1 (by_id c.id) none rs
        ≡ some (record (with_utc_timestamps now c) { score = first_rating c.id (ordered rs) } ∷ []))
      (sym (write-append monotonic today retention stamped last rows within))
      (calls-append_row now c (survivors monotonic today retention last rows) u
        (All-survivors _ monotonic today retention last rows h))
  where
    stamped : Row
    stamped = call_to_row (with_utc_timestamps now c)

    within : all_some (leb (today - retention)) stamped.called_at ≡ true
    within = ground arith
