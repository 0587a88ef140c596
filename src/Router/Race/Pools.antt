-- ===== src/Router/Race/Pools.antt =====
-- What a race's acquisitions and settlements do to the pool: how many calls are in flight on each
-- slot, and that the pool stays valid.
use text.Mathlib.Text.{◌==◌ as str_eq}
use llmbroker.Base.{
  ℕ, ◌+◌, ◌≤◌, String, ◌≡◌, refl, sym, ◌∙◌, ap, subst, Bool, if◌then◌else◌, Option, none, some,
  List, [], ◌∷◌, arith, All, Dict, lookup, map, eq_iff, Bool-cases, Option-cases, inl, inr,
}
use llmbroker.Base.Counting.{count_if}
use llmbroker.Models.{LlmConfig}
use llmbroker.Optimizer.Floats.{FloatOps}
use llmbroker.Optimizer.{Optimizer}
use llmbroker.Pool.{Pool}
use llmbroker.Pool.Slots.{Slot}
use llmbroker.Pool.Handing.{HandsBack}
use llmbroker.Pool.Invariant.{IsSound, IsValid, reserves, step, step-IsValid}
use llmbroker.Pool.Reserve.{Entry, Boundary, Context, candidates, reserved, chosen, reserve}
use llmbroker.Pool.Reserve.Counts.{count, All-chosen, All-filter}
use llmbroker.Pool.Reserve.Effects.{taken, reserve-Effect}

-- The calls in flight on the slot of one name.
abbrev pub in_flight_of : Option Slot → ℕ
in_flight_of none = 0
in_flight_of (some s) = s.in_flight

abbrev pub flights : String → Dict Slot → ℕ
flights k d = in_flight_of (lookup k d)

abbrev pub one_if : Bool → ℕ
one_if b = if b then 1 else 0

HandsBack-own :
    (name : String) (d d' : Dict Slot)
    → HandsBack name d d'
    → 1 ≤ flights name d
    → flights name d' + 1 ≡ flights name d
HandsBack-own name d d' h busy = elim (Option-cases (lookup name d)) [
  | inl e ↦
      let idle : 1 ≤ 0 = subst (λ o. 1 ≤ in_flight_of o) e busy in absurd (omega (arith, idle))
  | inr (s, e) ↦
      let (s', e', handed) = h.1 s e in
      let one : 1 ≤ s.in_flight = subst (λ o. 1 ≤ in_flight_of o) e busy in
      rw (e', e) (omega (arith, handed.one_less, one))
]

pub HandsBack-flights :
    (name k : String) (d d' : Dict Slot)
    → HandsBack name d d'
    → one_if (str_eq name k) ≤ flights k d
    → flights k d' + one_if (str_eq name k) ≡ flights k d
HandsBack-flights name k d d' h busy = elim (Bool-cases (str_eq name k)) [
  | inr miss ↦ rw (miss, h.0 k miss) (omega arith)
  | inl hit ↦ rw hit (
      subst (λ j. 1 ≤ flights j d → flights j d' + 1 ≡ flights j d) ((eq_iff name k).0 hit)
        (HandsBack-own name d d' h) (rw hit at busy))
]

pub lookup_named :
    (n : ℕ) (k : String) (s : Slot) (d : Dict Slot)
    → All (IsSound n) d
    → lookup k d ≡ some s
    → s.config.name ≡ k
unfolding lookup
lookup_named n k s [] h e = absurd (ground (arith, e))
lookup_named n k s ((j, w) ∷ d) h e = elim (Bool-cases (str_eq j k)) [
  | inl hit ↦
      let here : w ≡ s = ground (arith, e, hit) in
      ap (λ (t : Slot). t.config.name) (sym here) ∙ (sym (h.0.named) ∙ (eq_iff j k).0 hit)
  | inr miss ↦ lookup_named n k s d h.1 (ground (arith, e, miss))
]

module _ (fl : FloatOps) (opt : Option Optimizer) (p : Pool) (c : Context) (b : Boundary) where
  pub reserve-flights :
      IsValid p
      → (k : String)
      → flights k (reserve fl opt p c (candidates b p)).1.slots
        ≡ flights k p.slots + count k (taken fl opt p c b)
  unfolding reserved
  reserve-flights v k = elim (reserve-Effect fl opt p c b v.unique k) [
    | inl (out, same) ↦ rw (same, out) (omega arith)
    | inr (s, hit, e, cand, free, after) ↦ rw (after, e, hit) (omega arith)
  ]

  -- A config that a call is handed stands under its own name.
  named_taken :
      (k : String) (es : List Entry)
      → All (IsSound p.next_order) es
      → count_if (λ (cfg : LlmConfig). str_eq cfg.name k) (map (λ e. e.1.config) es) ≡ count k es
  unfolding count_if
  named_taken k [] h = refl
  named_taken k (e ∷ es) h = rw (← h.0.named) (omega (arith, named_taken k es h.1))

  pub count-reserve :
      IsValid p
      → (k : String)
      → count_if (λ (cfg : LlmConfig). str_eq cfg.name k) (reserve fl opt p c (candidates b p)).0
        ≡ count k (taken fl opt p c b)
  unfolding reserve candidates
  count-reserve v k = named_taken k (chosen fl opt p c (candidates b p)) (
      All-chosen fl opt p c (IsSound p.next_order) (candidates b p) (
        All-filter (IsSound p.next_order) _ _
          (All-filter (IsSound p.next_order) _ p.slots v.sound)))

  pub reserve-Valid : IsValid p → IsValid (reserve fl opt p c (candidates b p)).1
  unfolding step
  reserve-Valid = step-IsValid fl opt p (reserves c b)
