-- ===== src/Learning/Stats.antt =====
-- The statistics of the journal's tail, as src/llmbroker/broker/stats.py aggregates it.
use text.Mathlib.Text.{◌==◌ as str_eq}
use mathlib.Core.Option
use llmbroker.Base.{
  ℕ, ◌+◌, ◌==◌, String, ◌≡◌, ◌≢◌, refl, sym, ◌∙◌, ap, subst, Option, none, some, List, [], ◌∷◌,
  arith, map, Dict, lookup, has_key, lookup-insert, eq_iff, if◌then◌else◌, filter, length, is_some,
  or_else, Bool-cases, inl, inr,
}
use llmbroker.Models.{Call, LlmStats}
use llmbroker.Learning.{Tally, note, tally, no_tally, ts_of, status_of, stats_of, stats_from_calls}

-- The rows of one model.
abbrev pub own_rows : String → List Call → List Call
own_rows name rows = filter (λ row. str_eq row.llm_name name) rows

abbrev pub first_of : Option Call → List Call → Option Call
first_of (some c) rows = some c
first_of none [] = none
first_of none (row ∷ rows) = some row

abbrev pub last_of : Option Call → List Call → Option Call
last_of o [] = o
last_of o (row ∷ rows) = last_of (some row) rows

abbrev pub added : Option ℕ → ℕ → Option ℕ
added (some m) n = some (m + n)
added none n = if n == 0 then none else some n

added-zero : (o : Option ℕ) → o ≡ added o 0
added-zero none = refl
added-zero (some n) = ground arith

added-suc : (o : Option ℕ) (n : ℕ) → added (some (or_else o 0 + 1)) n ≡ added o (n + 1)
added-suc none n = ground arith
added-suc (some m) n = ground arith

first_of-none : (o : Option Call) → o ≡ first_of o []
first_of-none none = refl
first_of-none (some c) = refl

first_of-cons :
    (o : Option Call) (row : Call) (rows : List Call)
    → first_of (if is_some o then o else some row) rows ≡ first_of o (row ∷ rows)
first_of-cons none row rows = refl
first_of-cons (some c) row rows = refl

module _ (name : String) (row : Call) (t : Tally) (own : List Call) where
  totals-note :
      added (lookup name (note row t).totals) (length own)
      ≡ added (lookup name t.totals) (length (if str_eq row.llm_name name then row ∷ own else own))
  unfolding note
  totals-note = elim (Bool-cases (str_eq row.llm_name name)) [
    | inl hit ↦ ground (
      arith,
      hit,
      eq_iff row.llm_name name,
      lookup-insert row.llm_name name (or_else (lookup row.llm_name t.totals) 0 + 1) t.totals,
      added-suc (lookup name t.totals) (length own),
    )
    | inr miss ↦ ground (
      arith,
      miss,
      lookup-insert row.llm_name name (or_else (lookup row.llm_name t.totals) 0 + 1) t.totals,
    )
  ]

  oldest-note :
      last_of (lookup name (note row t).oldest) own
      ≡ last_of (lookup name t.oldest) (if str_eq row.llm_name name then row ∷ own else own)
  unfolding note
  oldest-note = elim (Bool-cases (str_eq row.llm_name name)) [
    | inl hit ↦ ground (arith, hit, lookup-insert row.llm_name name row t.oldest)
    | inr miss ↦ ground (arith, miss, lookup-insert row.llm_name name row t.oldest)
  ]

  newest-note :
      first_of (lookup name (note row t).newest) own
      ≡ first_of (lookup name t.newest) (if str_eq row.llm_name name then row ∷ own else own)
  unfolding note has_key
  newest-note = elim (Bool-cases (str_eq row.llm_name name)) [
    | inl hit ↦ ground (
      arith,
      hit,
      eq_iff row.llm_name name,
      lookup-insert row.llm_name name row t.newest,
      first_of-cons (lookup name t.newest) row own,
    )
    | inr miss ↦ ground (arith, miss, lookup-insert row.llm_name name row t.newest)
  ]

lookup-totals :
    (name : String) (t : Tally) (rows : List Call)
    → lookup name (tally t rows).totals ≡ added (lookup name t.totals) (length (own_rows name rows))
unfolding tally
lookup-totals name t [] = added-zero (lookup name t.totals)
lookup-totals name t (row ∷ rows) =
    lookup-totals name (note row t) rows ∙ totals-note name row t (own_rows name rows)

lookup-oldest :
    (name : String) (t : Tally) (rows : List Call)
    → lookup name (tally t rows).oldest ≡ last_of (lookup name t.oldest) (own_rows name rows)
unfolding tally
lookup-oldest name t [] = refl
lookup-oldest name t (row ∷ rows) =
    lookup-oldest name (note row t) rows ∙ oldest-note name row t (own_rows name rows)

lookup-newest :
    (name : String) (t : Tally) (rows : List Call)
    → lookup name (tally t rows).newest ≡ first_of (lookup name t.newest) (own_rows name rows)
unfolding tally
lookup-newest name t [] = first_of-none (lookup name t.newest)
lookup-newest name t (row ∷ rows) =
    lookup-newest name (note row t) rows ∙ newest-note name row t (own_rows name rows)

lookup-map :
    {A : Type 0} {B : Type 0} (f : String → A → B) (name : String) (d : Dict A)
    → lookup name (map (λ e. (e.0, f e.0 e.1)) d) ≡ Option.map (f name) (lookup name d)
unfolding lookup
lookup-map f name [] = refl
lookup-map f name ((k, x) ∷ d) = ground (arith, eq_iff k name, lookup-map f name d)

-- What the statistics of a model say of its rows, newest first.
abbrev pub Describes : Option LlmStats → List Call → Type 0
Describes none own = own ≡ []
Describes (some s) own =
    (own ≢ [])
    × (s.total ≡ length own)
    × (s.first_at ≡ ts_of (last_of none own))
    × (s.last_at ≡ ts_of (first_of none own))
    × (s.last_status ≡ status_of (first_of none own))

added_none-nil : (own : List Call) → none ≡ added none (length own) → own ≡ []
added_none-nil [] e = refl
added_none-nil (row ∷ own) e = absurd (ground arith)

added_none-cons :
    (own : List Call) (n : ℕ) → some n ≡ added none (length own) → (own ≢ []) × (n ≡ length own)
added_none-cons [] n e = absurd (ground arith)
added_none-cons (row ∷ own) n e = (λ h. cc, ground arith)

-- A model has statistics exactly where the journal's tail has a row of it; then the total is the
-- number of its rows, the first time is its oldest row's, and the last time and status are its newest
-- row's.
pub stats_from_calls-Describes :
    (rows : List Call) (name : String)
    → Describes (lookup name (stats_from_calls rows)) (own_rows name rows)
unfolding stats_from_calls stats_of lookup
stats_from_calls-Describes rows name =
    subst (λ o. Describes o own) (sym (lookup-map (stats_of t) name t.totals))
      (go (lookup name t.totals) (lookup-totals name no_tally rows))
  where
    t : Tally
    t = tally no_tally rows

    own : List Call
    own = own_rows name rows

    go :
        (n : Option ℕ)
        → n ≡ added none (length own)
        → Describes (Option.map (stats_of t name) n) own
    go none e = added_none-nil own e
    go (some n) e = (
      (added_none-cons own n e).0,
      (added_none-cons own n e).1,
      ap ts_of (lookup-oldest name no_tally rows),
      ap ts_of (lookup-newest name no_tally rows),
      ap status_of (lookup-newest name no_tally rows),
    )
