-- ===== src/Pool/Reserve/Counts.antt =====
-- Which entries `chosen` takes: their number, and how often a key stands among them.
use text.Mathlib.Text.{◌==◌ as str_eq}
use llmbroker.Base.{
  ℕ, zero, suc, ◌+◌, ◌-◌, ◌≤◌, String, Bool, not, Option, List, [], ◌∷◌, ◌++◌, arith, if_ind,
  filter, take, drop, length, All, length-take-le, length-append, Bool-cases, inl, inr,
}
use llmbroker.Base.Sorting.{sorted, sorted-All}
use llmbroker.Base.Counting.{
  count_if, count_if-append, count_if-take-drop, count_if-filter_split, count_if-sorted,
}
use llmbroker.Optimizer.Floats.{FloatOps}
use llmbroker.Optimizer.{Optimizer}
use llmbroker.Pool.{Pool}
use llmbroker.Pool.Slots.{is_free}
use llmbroker.Pool.Reserve.{Entry, Context, is_due, cover, covered, before, ranked, chosen}

abbrev pub has_name : String → Entry → Bool
has_name k e = str_eq e.0 k

-- How often a key stands in a list of entries.
abbrev pub count : String → List Entry → ℕ
count k xs = count_if (has_name k) xs

module _ {κ} (P : Entry → Type κ) where
  pub All-filter : (q : Entry → Bool) (xs : List Entry) → All P xs → All P (filter q xs)
  All-filter q [] h = h
  All-filter q (x ∷ xs) h = elim (Bool-cases (q x)) [
    | inl e ↦ rw e (h.0, All-filter q xs h.1)
    | inr e ↦ rw e (All-filter q xs h.1)
  ]

  All-take : (n : ℕ) (xs : List Entry) → All P xs → All P (take n xs)
  All-take zero xs h = tt
  All-take (suc n) [] h = tt
  All-take (suc n) (x ∷ xs) h = (h.0, All-take n xs h.1)

  All-drop : (n : ℕ) (xs : List Entry) → All P xs → All P (drop n xs)
  All-drop zero xs h = h
  All-drop (suc n) [] h = tt
  All-drop (suc n) (x ∷ xs) h = All-drop n xs h.1

  All-append : (xs ys : List Entry) → All P xs → All P ys → All P (xs ++ ys)
  All-append [] ys hx hy = hy
  All-append (x ∷ xs) ys hx hy = (hx.0, All-append xs ys hx.1 hy)

  All-cover : (rest : List Entry) (n : ℕ) → All P rest → All P (cover rest n)
  unfolding cover
  All-cover rest n h =
      All-take n _
        (All-append _ _ (All-filter (λ e. not (is_due e)) rest h) (All-filter is_due rest h))

  All-covered :
      (best rest : List Entry) (n : ℕ) → All P best → All P rest → All P (covered best rest n)
  unfolding covered
  All-covered [] rest n hb hr = tt
  All-covered (e ∷ es) rest n hb hr =
      if_ind (All P) (is_due e) (All-append (e ∷ es) _ hb (All-cover rest n hr)) hb

module _ (p : Entry → Bool) where
  count_if-cover-le : (rest : List Entry) (n : ℕ) → count_if p (cover rest n) ≤ count_if p rest
  unfolding cover
  count_if-cover-le rest n =
      let ordinary = filter (λ e. not (is_due e)) rest in
      omega (
        arith,
        count_if-take-drop p n (ordinary ++ filter is_due rest),
        count_if-append p ordinary (filter is_due rest),
        count_if-filter_split p is_due rest,
      )

  count_if-covered-le :
      (best rest : List Entry) (n : ℕ)
      → count_if p (covered best rest n) ≤ count_if p best + count_if p rest
  unfolding covered
  count_if-covered-le [] rest n = omega (arith)
  count_if-covered-le (e ∷ es) rest n =
      if_ind (λ xs. count_if p xs ≤ count_if p (e ∷ es) + count_if p rest) (is_due e)
        (omega (arith, count_if-append p (e ∷ es) (cover rest n), count_if-cover-le rest n))
        (omega arith)

module _ (fl : FloatOps) (opt : Option Optimizer) (p : Pool) (c : Context) where
  -- No entry is chosen more often than it stands among the free ones.
  pub count_if-chosen-le :
      (q : Entry → Bool) (found : List Entry)
      → count_if q (chosen fl opt p c found) ≤ count_if q (filter (λ e. is_free c.now e.1) found)
  unfolding chosen ranked
  count_if-chosen-le q found =
      let free = filter (λ e. is_free c.now e.1) found in
      let best = sorted (before fl opt p c) free in
      omega (
        arith,
        count_if-covered-le q (take c.width best) (drop c.width best) (c.recovery_width - c.width),
        count_if-take-drop q c.width best,
        count_if-sorted q (before fl opt p c) free,
      )

  -- What holds of every free entry holds of every chosen one.
  pub All-chosen {κ} :
      (P : Entry → Type κ) (found : List Entry)
      → All P (filter (λ e. is_free c.now e.1) found)
      → All P (chosen fl opt p c found)
  unfolding chosen ranked
  All-chosen P found h =
      let best = sorted-All (before fl opt p c) P (filter (λ e. is_free c.now e.1) found) h in
      All-covered P _ _ _ (All-take P c.width _ best) (All-drop P c.width _ best)

  length-cover-le : (rest : List Entry) (n : ℕ) → length (cover rest n) ≤ n
  unfolding cover
  length-cover-le rest n = length-take-le n _

  length-covered-le :
      (best rest : List Entry) (n : ℕ) → length (covered best rest n) ≤ length best + n
  unfolding covered
  length-covered-le [] rest n = omega arith
  length-covered-le (e ∷ es) rest n =
      if_ind (λ xs. length xs ≤ length (e ∷ es) + n) (is_due e) {x = (e ∷ es) ++ cover rest n}
        {y = e ∷ es} (omega (arith, length-append (e ∷ es) (cover rest n), length-cover-le rest n))
        (omega arith)

  pub length-chosen-le :
      (found : List Entry)
      → length (chosen fl opt p c found) ≤ c.width + (c.recovery_width - c.width)
  unfolding chosen
  length-chosen-le found =
      let free = ranked fl opt p c found in
      omega (
        arith,
        length-covered-le (take c.width free) (drop c.width free) (c.recovery_width - c.width),
        length-take-le c.width free,
      )
