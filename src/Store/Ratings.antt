-- ===== src/Store/Ratings.antt =====
-- What a rating changes in the journal that callers read.
use llmbroker.Store.Retention.{record_rating, survivors, write-append, All-survivors}
use llmbroker.Base.{◌≤◌, ◌-◌, all_some}
use llmbroker.Base.{insert}
use llmbroker.Base.{has_key}
use llmbroker.Store.Journal.{rating_of}
use mathlib.Core.Option
use text.Mathlib.Text.{◌==◌ as str_eq}
use llmbroker.Base.{
  ℕ, ◌<◌, ◌≡◌, refl, sym, ap, ◌∙◌, String, true, Option, some, List, [], ◌∷◌, ◌++◌, map, arith,
  if◌then◌else◌, filter, take, lookup, Dict, All, leb, Bool-cases, inl, inr,
}
use llmbroker.Base.Sorting.{sorted, place}
use llmbroker.Models.{Instant, Double, Call}
use llmbroker.Store.{Row, row_to_call, quality_row}
use llmbroker.Store.Journal.{
  time_of, newer, ordered, newest_rating, Match, is_wanted, rated, journal_view, calls, append_row,
}
use llmbroker.Store.Views.{lookup-newest_rating}

-- A row newer than all others comes first.
sorted-newest :
    (q : Row) (rows : List Row)
    → All (λ r. time_of r < time_of q) rows
    → sorted newer (rows ++ q ∷ []) ≡ q ∷ sorted newer rows
unfolding sorted place
sorted-newest q [] h = refl
sorted-newest q (r ∷ rows) (h, hs) =
    let first : newer q r ≡ true = ground (arith, h) in
    ap (place newer r) (sorted-newest q rows hs) ∙ rw first refl

-- A call read with a rating of this call folded on.
abbrev pub rescored : String → Double → Call → Call
rescored id score c = if str_eq id c.id then record c { score = some score } else c

rescored-rated :
    (id : String) (score : Double) (q : Row) (d d' : Dict Double) (r : Row)
    → lookup r.id d' ≡ (if str_eq id r.id then some score else lookup r.id d)
    → row_to_call (rated d' r) ≡ rescored id score (row_to_call (rated d r))
unfolding row_to_call
rescored-rated id score q d d' r e = elim (Bool-cases (str_eq id r.id)) [
  | inl b ↦
      ap (λ s. row_to_call (record r { score = s }))
        (e ∙ ap (λ b. if b then some score else lookup r.id d) b)
      ∙ rw b refl
  | inr b ↦
      ap (λ s. row_to_call (record r { score = s }))
        (e ∙ ap (λ b. if b then some score else lookup r.id d) b)
      ∙ rw b refl
]

map-rescored :
    (id : String) (score : Double) (q : Row) (d d' : Dict Double) (rows : List Row)
    → ((k : String) → lookup k d' ≡ (if str_eq id k then some score else lookup k d))
    → map row_to_call (map (rated d') rows)
      ≡ map (rescored id score) (map row_to_call (map (rated d) rows))
map-rescored id score q d d' [] h = refl
map-rescored id score q d d' (r ∷ rows) h =
    ap (λ c. c ∷ map row_to_call (map (rated d') rows)) (rescored-rated id score q d d' r (h r.id))
    ∙ ap (λ cs. rescored id score (row_to_call (rated d r)) ∷ cs)
        (map-rescored id score q d d' rows h)

lookup-rated :
    (k id : String) (score : Double) (rows : List Row)
    → lookup k (newest_rating rows ((id, score) ∷ []))
      ≡ (if str_eq id k then some score else lookup k (newest_rating rows []))
unfolding lookup
lookup-rated k id score rows =
    let plain = lookup-newest_rating k rows [] in
    lookup-newest_rating k rows ((id, score) ∷ [])
    ∙ elim (Bool-cases (str_eq id k)) [ inl b ↦ rw b refl | inr b ↦ rw b (sym plain) ]

-- A rating that is appended changes one thing, and everywhere: when every row of the journal is older, it
-- leaves each later read, whatever the read narrows by, with the same calls in the same order, where
-- those of the call it names show its score, and the others are as they were.
calls-append_rating :
    (fresh_id : String) (now : Instant) (id : String) (score : Double) (scope : Option String)
    (rows : List Row) (limit : ℕ) (m : Match) (since : Option Instant)
    → All (λ r. time_of r < now) rows
    → calls limit m since (append_row (quality_row fresh_id now id score scope) rows)
      ≡ Option.map (map (rescored id score)) (calls limit m since rows)
unfolding calls journal_view append_row ordered newest_rating rating_of quality_row has_key insert
    lookup
calls-append_rating fresh_id now id score scope rows limit m since h =
    elim (Bool-cases (leb 1 limit)) [ inl b ↦ rw b (ap some shown) | inr b ↦ rw b refl ]
  where
    q : Row
    q = quality_row fresh_id now id score scope

    view : List Row → List Call
    view rs =
        map row_to_call
          (map (rated (newest_rating rs [])) (take limit (filter (is_wanted m since) rs)))

    shown :
        view (sorted newer (rows ++ q ∷ [])) ≡ map (rescored id score) (view (sorted newer rows))
    shown =
        ap view (sorted-newest q rows h)
        ∙ map-rescored id score q (newest_rating (sorted newer rows) [])
            (newest_rating (sorted newer rows) ((id, score) ∷ []))
            (take limit (filter (is_wanted m since) (sorted newer rows)))
            (λ k. lookup-rated k id score (sorted newer rows))

-- The same of a rating that is written: of what the purge leaves of the journal, where the instant of
-- the rating is within the retention.
pub calls-record_rating :
    (monotonic : ℕ) (today : Instant) (retention : ℕ) (fresh_id : String) (now : Instant)
    (id : String) (score : Double) (scope : Option String) (last : Option ℕ) (rows : List Row)
    (limit : ℕ) (m : Match) (since : Option Instant)
    → today - retention ≤ now
    → All (λ r. time_of r < now) rows
    → calls limit m since
        (record_rating monotonic today retention fresh_id now id score scope last rows).1
      ≡ Option.map
          (map (rescored id score))
          (calls limit m since (survivors monotonic today retention last rows))
unfolding quality_row
calls-record_rating monotonic today retention fresh_id now id score scope last rows limit m since
      recent h =
    ap (calls limit m since) (write-append monotonic today retention q last rows within)
    ∙ calls-append_rating fresh_id now id score scope
        (survivors monotonic today retention last rows) limit m since
        (All-survivors _ monotonic today retention last rows h)
  where
    q : Row
    q = quality_row fresh_id now id score scope

    within : all_some (leb (today - retention)) q.called_at ≡ true
    within = ground arith
