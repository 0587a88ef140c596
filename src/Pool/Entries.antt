-- ===== src/Pool/Entries.antt =====
-- The entries of the pool's slots under the changes of a dict: how often a key stands among them,
-- and what holds of all of them.
use text.Mathlib.Text.{◌==◌ as str_eq}
use llmbroker.Base.{
  ◌+◌, ◌≤◌, String, ◌≡◌, refl, sym, subst, false, List, [], ◌∷◌, arith, if◌then◌else◌, if_ind, All,
  lookup, eq_iff, Dict, insert, remove, update, has_key, Bool-cases, inl, inr,
}
use llmbroker.Base.Counting.{count_if}
use llmbroker.Pool.Slots.{Slot}
use llmbroker.Pool.Reserve.{Entry, reserved, take_slots}
use llmbroker.Pool.Reserve.Counts.{count}

pub count-update :
    (k j : String) (f : Slot → Slot) (d : Dict Slot) → count k (update j f d) ≡ count k d
unfolding count_if update
count-update k j f [] = refl
count-update k j f ((i, w) ∷ d) = ground (arith, count-update k j f d)

pub count-take_slots :
    (k : String) (best : List Entry) (d : Dict Slot) → count k (take_slots best d) ≡ count k d
unfolding take_slots
count-take_slots k [] d = refl
count-take_slots k (e ∷ best) d =
    omega (arith, count-take_slots k best (update e.0 reserved d), count-update k e.0 reserved d)

pub count-remove-le : (k j : String) (d : Dict Slot) → count k (remove j d) ≤ count k d
unfolding count_if remove
count-remove-le k j [] = omega arith
count-remove-le k j ((i, w) ∷ d) = ground (arith, count-remove-le k j d)

-- A key that a dict lacks is put in once.
count-insert :
    (k j : String) (s : Slot) (d : Dict Slot)
    → has_key j d ≡ false
    → count k (insert j s d) ≡ (if str_eq j k then 1 else 0) + count k d
unfolding count_if insert has_key lookup
count-insert k j s [] h = refl
count-insert k j s ((i, w) ∷ d) h = ground (arith, count-insert k j s d)

count_of_absent : (k : String) (d : Dict Slot) → has_key k d ≡ false → count k d ≡ 0
unfolding count_if has_key lookup
count_of_absent k [] h = refl
count_of_absent k ((i, w) ∷ d) h = ground (arith, count_of_absent k d)

pub unique_insert :
    (k j : String) (s : Slot) (d : Dict Slot)
    → has_key j d ≡ false
    → count k d ≤ 1
    → count k (insert j s d) ≤ 1
unique_insert k j s d absent h = elim (Bool-cases (str_eq j k)) [
  | inl hit ↦
      let gone =
        count_of_absent k d (subst (λ x. has_key x d ≡ false) ((eq_iff j k).0 hit) absent) in
      rw (count-insert k j s d absent) (rw hit (omega (arith, gone)))
  | inr miss ↦ rw (count-insert k j s d absent) (rw miss (omega arith))
]

module _ {κ} (P : Entry → Type κ) where
  pub All-update :
      (j : String) (f : Slot → Slot) (d : Dict Slot)
      → ((s : Slot) → P (j, s) → P (j, f s))
      → All P d
      → All P (update j f d)
  unfolding update
  All-update j f [] keep h = tt
  All-update j f ((i, w) ∷ d) keep h = elim (Bool-cases (str_eq i j)) [
    | inl hit ↦
        let e = (eq_iff i j).0 hit in
        let here = keep w (subst (λ k. P (k, w)) e h.0) in
        rw hit (subst (λ k. P (k, f w)) (sym e) here, h.1)
    | inr miss ↦ rw miss (h.0, All-update j f d keep h.1)
  ]

  pub All-take_slots :
      (best : List Entry) (d : Dict Slot)
      → ((k : String) (s : Slot) → P (k, s) → P (k, reserved s))
      → All P d
      → All P (take_slots best d)
  unfolding take_slots
  All-take_slots [] d keep h = h
  All-take_slots (e ∷ best) d keep h =
      All-take_slots best (update e.0 reserved d) keep (All-update e.0 reserved d (keep e.0) h)

  pub All-remove : (j : String) (d : Dict Slot) → All P d → All P (remove j d)
  unfolding remove
  All-remove j [] h = tt
  All-remove j ((i, w) ∷ d) h =
      if_ind (All P) (str_eq i j) (All-remove j d h.1) (h.0, All-remove j d h.1)

  pub All-insert :
      (j : String) (s : Slot) (d : Dict Slot)
      → has_key j d ≡ false
      → P (j, s)
      → All P d
      → All P (insert j s d)
  unfolding insert has_key lookup
  All-insert j s [] a p h = (p, tt)
  All-insert j s ((i, w) ∷ d) a p h = elim (Bool-cases (str_eq i j)) [
    | inl hit ↦ absurd (ground arith)
    | inr miss ↦ rw miss (h.0, All-insert j s d (ground arith) p h.1)
  ]
