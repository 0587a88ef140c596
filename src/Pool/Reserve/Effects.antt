-- ===== src/Pool/Reserve/Effects.antt =====
-- What `reserve` changes in the pool.
use llmbroker.Base.{◌+◌}
use text.Mathlib.Text.{◌==◌ as str_eq}
use mathlib.Core.Option
use llmbroker.Base.{
  ℕ, ◌≤◌, String, ◌≡◌, refl, ◌≢◌, Bool, true, ◌&&◌, Option, some, List, [], ◌∷◌, arith,
  if◌then◌else◌, filter, lookup, eq_iff, Dict, update, Bool-cases, inl, inr, lookup-update, ◌==◌,
  ◌⊎◌, filter-filter, ◌∙◌,
}
use llmbroker.Base.Counting.{count_if, count_if-filter-le}
use llmbroker.Optimizer.Floats.{FloatOps}
use llmbroker.Optimizer.{Optimizer}
use llmbroker.Pool.{Pool}
use llmbroker.Pool.Slots.{Slot, is_free}
use llmbroker.Pool.Reserve.{
  Entry, Boundary, Context, is_candidate, candidates, reserved, take_slots, chosen, reserve,
}
use llmbroker.Pool.Reserve.Counts.{has_name, count, count_if-chosen-le}

-- The keys of a dict stand once each.
abbrev pub IsUnique : Dict Slot → Type 0
IsUnique d = (k : String) → count k d ≤ 1

le_one_cases : (n : ℕ) → n ≤ 1 → (n ≡ 0) ⊎ (n ≡ 1)
le_one_cases n h = omega arith

absent_of_count :
    (k : String) (best : List Entry) (slots : Dict Slot)
    → count k best ≡ 0
    → lookup k (take_slots best slots) ≡ lookup k slots
unfolding take_slots count_if
absent_of_count k [] slots h = refl
absent_of_count k (e ∷ best) slots h =
    absent_of_count k best (update e.0 reserved slots) (ground arith)
    ∙ (lookup-update e.0 k reserved slots ∙ ground arith)

-- Each entry that is taken once is marked once, and no other is touched.
pub lookup-take_slots :
    (k : String) (best : List Entry) (slots : Dict Slot)
    → count k best ≤ 1
    → lookup k (take_slots best slots)
      ≡ (if count k best == 0 then lookup k slots else Option.map reserved (lookup k slots))
unfolding take_slots count_if
lookup-take_slots k [] slots h = refl
lookup-take_slots k (e ∷ best) slots h = elim (Bool-cases (str_eq e.0 k)) [
  | inl hit ↦
      absent_of_count k best (update e.0 reserved slots) (ground arith)
      ∙ (lookup-update e.0 k reserved slots ∙ ground arith)
  | inr miss ↦
      lookup-take_slots k best (update e.0 reserved slots) (ground arith)
      ∙ ground (arith, lookup-update e.0 k reserved slots)
]

-- An entry that stands in a dict of unique keys is what `lookup` finds, and is the test's own.
pub count-filter-lookup :
    (q : Entry → Bool) (k : String) (d : Dict Slot)
    → count k d ≤ 1
    → count k (filter q d) ≢ 0
    → (s : Slot) × (lookup k d ≡ some s) × (q (k, s) ≡ true)
unfolding count_if lookup
count-filter-lookup q k [] u h = absurd (h refl)
count-filter-lookup q k ((j, w) ∷ d) u h = elim (Bool-cases (str_eq j k)) [
  | inl hit ↦ (w, ground arith, ground (arith, eq_iff j k, count_if-filter-le (has_name k) q d))
  | inr miss ↦
      let (s, e, t) = count-filter-lookup q k d (ground arith) (λ z. h (ground arith)) in
      (s, ground arith, t)
]

module _ (fl : FloatOps) (opt : Option Optimizer) (p : Pool) (c : Context) (b : Boundary) where
  -- The entries that this call takes.
  abbrev pub taken : List Entry
  taken = chosen fl opt p c (candidates b p)

  admitted : Entry → Bool
  admitted e = is_candidate b e && is_free c.now e.1

  count-taken-le : (k : String) → count k taken ≤ count k (filter admitted p.slots)
  unfolding admitted candidates
  count-taken-le k =
      rw (← filter-filter (λ e. is_free c.now e.1) (is_candidate b) p.slots)
        (count_if-chosen-le fl opt p c (has_name k) (candidates b p))

  pub count-taken-le_one : IsUnique p.slots → (k : String) → count k taken ≤ 1
  count-taken-le_one u k =
      omega (arith, count-taken-le k, count_if-filter-le (has_name k) admitted p.slots, u k)

  -- What `reserve` does to the slot of one name.
  abbrev pub Effect : String → Type 0
  Effect k =
      let after = lookup k (reserve fl opt p c (candidates b p)).1.slots in
      (count k taken ≡ 0) × (after ≡ lookup k p.slots)
      ⊎ ((s : Slot) × (count k taken ≡ 1)
          × (lookup k p.slots ≡ some s)
          × (is_candidate b (k, s) ≡ true)
          × (is_free c.now s ≡ true)
          × (after
              ≡ some (record s { in_flight = s.in_flight + 1; recovery_claimed = s.recovery_due })))

  -- In a pool of unique names, a call that reserves leaves a slot as it is, or takes it exactly
  -- once: then the slot was a free candidate of the call, and it is marked in flight once more,
  -- with its recovery claimed exactly when one was due.
  pub reserve-Effect : IsUnique p.slots → (k : String) → Effect k
  unfolding reserve admitted reserved
  reserve-Effect u k = elim (le_one_cases (count k taken) (count-taken-le_one u k)) [
    | inl out ↦ inl (out, lookup-take_slots k taken p.slots (omega (arith, out)) ∙ rw out)
    | inr hit ↦
        let (s, e, t) =
          count-filter-lookup admitted k p.slots (u k) (omega (arith, hit, count-taken-le k)) in
        inr (
          s,
          hit,
          e,
          ground arith,
          ground arith,
          lookup-take_slots k taken p.slots (omega (arith, hit)) ∙ rw (hit, e),
        )
  ]
