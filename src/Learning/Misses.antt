-- ===== src/Learning/Misses.antt =====
-- The budget bounds that the journal's tail holds.
use llmbroker.Models.{CallStatus}
use llmbroker.Base.{◌*◌}
use llmbroker.Learning.{status_eq}
use llmbroker.Base.{any_some}
use llmbroker.Base.{leb}
use text.Mathlib.Text.{◌==◌ as str_eq}
use llmbroker.Base.{
  ℕ, ◌≤◌, ◌==◌, String, ◌≡◌, refl, sym, ◌∙◌, subst, true, false, ◌&&◌, Option, none, some, List, [],
  ◌∷◌, arith, Dict, lookup, lookup-insert, eq_iff, if◌then◌else◌, ltb, mem, any, All, Bool-cases,
  inl, inr,
}
use llmbroker.Models.{Instant, Call}
use llmbroker.Learning.{
  Sweep, miss_of, larger, widened, is_ok, advance, sweep, budget_bounds_from_calls,
}

abbrev pub Miss : Type 0
Miss = ℕ × Instant

-- The miss that a row tells of, on top of older ones: where it has a budget and an instant, which is
-- not before that one.
abbrev pub with_own : Instant → Option ℕ → Option Instant → List Miss → List Miss
with_own since (some budget_ms) (some ts) ms =
    if leb since ts then (budget_ms * 1000, ts) ∷ ms else ms
with_own since _ _ ms = ms

abbrev pub joined : Option Miss → List Miss → List Miss
joined none ms = ms
joined (some m) ms = m ∷ ms

-- The misses of one model since then, newest first, as far back as its latest answer.
pub misses : Instant → String → List Call → List Miss
misses since name [] = []
misses since name (row ∷ rows) =
    let older = misses since name rows in
    if str_eq row.llm_name name
    then if any_some (status_eq CallStatus.ok) row.status
      then []
      else with_own since row.budget_ms row.ts older
    else older

joined-miss_of :
    (since : Instant) (row : Call) (ms : List Miss)
    → joined (miss_of since row) ms ≡ with_own since row.budget_ms row.ts ms
unfolding miss_of
joined-miss_of since row ms = of_columns row.budget_ms row.ts
  where
    of_columns :
        (budget : Option ℕ) (ts : Option Instant)
        → joined (miss_of since (record row { budget_ms = budget; ts = ts })) ms
          ≡ with_own since budget ts ms
    of_columns none ts = refl
    of_columns (some b) none = refl
    of_columns (some b) (some ts) = ground arith

-- The largest of them, the newest of equals.
pub largest : Option Miss → List Miss → Option Miss
largest o [] = o
largest o (m ∷ ms) = largest (some (larger o m)) ms

lookup-widened :
    (bounds : Dict Miss) (name k : String) (o : Option Miss) (ms : List Miss)
    → largest (lookup k (widened bounds name o)) ms ≡ (
        if str_eq name k
        then largest (lookup k bounds) (joined o ms)
        else largest (lookup k bounds) ms)
unfolding largest
lookup-widened bounds name k none ms = ground arith
lookup-widened bounds name k (some m) ms =
    ground (arith, eq_iff name k, lookup-insert name k (larger (lookup name bounds) m) bounds)

-- What one row changes for one model, where these are its older misses.
lookup-advance :
    (since : Instant) (name : String) (row : Call) (s : Sweep) (ms : List Miss)
    → (if mem name (advance since row s).answered
        then lookup name (advance since row s).bounds
        else largest (lookup name (advance since row s).bounds) ms)
      ≡ (if mem name s.answered
          then lookup name s.bounds
          else largest (lookup name s.bounds) (
              if str_eq row.llm_name name
              then if is_ok row then [] else joined (miss_of since row) ms
              else ms))
unfolding advance largest
lookup-advance since name row s ms = elim (Bool-cases (mem row.llm_name s.answered)) [
  | inl known ↦ ground (arith, eq_iff row.llm_name name)
  | inr new ↦ elim (Bool-cases (is_ok row)) [
    | inl ok ↦ ground (arith, eq_iff row.llm_name name)
    | inr failed ↦ ground (
      arith,
      eq_iff row.llm_name name,
      lookup-widened s.bounds row.llm_name name (miss_of since row) ms,
      lookup-widened s.bounds row.llm_name name (miss_of since row) [],
    )
  ]
]

lookup-sweep :
    (since : Instant) (name : String) (s : Sweep) (rows : List Call)
    → lookup name (sweep since s rows).bounds ≡ (
        if mem name s.answered
        then lookup name s.bounds
        else largest (lookup name s.bounds) (misses since name rows))
unfolding sweep misses largest
lookup-sweep since name s [] = ground arith
lookup-sweep since name s (row ∷ rows) =
    lookup-sweep since name (advance since row s) rows
    ∙ lookup-advance since name row s (misses since name rows)
    ∙ rw (joined-miss_of since row (misses since name rows)) refl

-- A bound that is the largest of some misses.
abbrev pub IsLargest : Option Miss → List Miss → Type 0
IsLargest none ms = ms ≡ []
IsLargest (some b) ms = All (λ m. m.0 ≤ b.0) ms × (any (λ m. m.0 == b.0 && m.1 == b.1) ms ≡ true)

IsLargest-larger :
    (b m : Miss) (ms : List Miss) (o : Option Miss)
    → IsLargest o (larger (some b) m ∷ ms)
    → IsLargest o (b ∷ m ∷ ms)
IsLargest-larger b m ms none h = absurd (ground arith)
IsLargest-larger b m ms (some r) h = elim (Bool-cases (ltb b.0 m.0)) [
  | inl less ↦
      let ((low, lows), hit) = subst Picked (larger-lt less) h in
      ((ground (arith, less), (low, lows)), ground (arith, hit))
  | inr more ↦
      let ((low, lows), hit) = subst Picked (larger-ge more) h in
      ((low, (ground (arith, more), lows)), ground (arith, hit))
]
  where
    Picked : Miss → Type 0
    Picked x = IsLargest (some r) (x ∷ ms)

    larger-lt : ltb b.0 m.0 ≡ true → larger (some b) m ≡ m
    larger-lt e = rw e refl

    larger-ge : ltb b.0 m.0 ≡ false → larger (some b) m ≡ b
    larger-ge e = rw e refl

largest-IsLargest : (b : Miss) (ms : List Miss) → IsLargest (largest (some b) ms) (b ∷ ms)
unfolding largest
largest-IsLargest b [] = ((omega arith, tt), ground arith)
largest-IsLargest b (m ∷ ms) = IsLargest-larger b m ms _ (largest-IsLargest (larger (some b) m) ms)

largest-none-IsLargest : (ms : List Miss) → IsLargest (largest none ms) ms
unfolding largest
largest-none-IsLargest [] = refl
largest-none-IsLargest (m ∷ ms) = largest-IsLargest m ms

-- The bound that the journal holds for a model is the largest budget that it missed since then and
-- since its latest answer, with the time of that miss; there is none where it missed none.
pub budget_bounds_from_calls-IsLargest :
    (since : Instant) (rows : List Call) (name : String)
    → IsLargest (lookup name (budget_bounds_from_calls since rows)) (misses since name rows)
unfolding budget_bounds_from_calls lookup
budget_bounds_from_calls-IsLargest since rows name =
    subst (λ o. IsLargest o (misses since name rows))
      (sym (lookup-sweep since name (record { bounds = []; answered = [] }) rows))
      (largest-none-IsLargest (misses since name rows))
