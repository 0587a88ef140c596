-- ===== src/Base/Counting.antt =====
-- How many entries of a list satisfy a test: what sorting, slicing and filtering do to the number.
use Prim.Native.Nat.{ℕ, zero, suc, ◌+◌, ◌≤◌}
use mathlib.Core.Path.{◌≡◌, refl}
use mathlib.Core.Bool.{Bool, not}
use mathlib.Core.List.{List, [], ◌∷◌, ◌++◌}
use native.Mathlib.Omega.{arith}
use llmbroker.Base.Tests.{if◌then◌else◌}
use llmbroker.Base.Lists.{filter, take, drop, length}
use llmbroker.Base.Sorting.{place, sorted}

module _ {ℓ} {A : Type ℓ} (p : A → Bool) where
  unfoldable pub count_if : List A → ℕ
  count_if [] = 0
  count_if (x ∷ xs) = (if p x then 1 else 0) + count_if xs

  pub count_if-append : (xs ys : List A) → count_if (xs ++ ys) ≡ count_if xs + count_if ys
  unfolding count_if
  count_if-append [] ys = omega arith
  count_if-append (x ∷ xs) ys = omega (arith, count_if-append xs ys)

  pub count_if-take-drop :
      (n : ℕ) (xs : List A) → count_if (take n xs) + count_if (drop n xs) ≡ count_if xs
  unfolding count_if
  count_if-take-drop zero xs = omega arith
  count_if-take-drop (suc n) [] = omega arith
  count_if-take-drop (suc n) (x ∷ xs) = omega (arith, count_if-take-drop n xs)

  pub count_if-filter_split :
      (q : A → Bool) (xs : List A)
      → count_if (filter (λ x. not (q x)) xs) + count_if (filter q xs) ≡ count_if xs
  unfolding count_if
  count_if-filter_split q [] = omega arith
  count_if-filter_split q (x ∷ xs) = ground (arith, count_if-filter_split q xs)

  pub count_if-filter-le : (q : A → Bool) (xs : List A) → count_if (filter q xs) ≤ count_if xs
  count_if-filter-le q xs = omega (arith, count_if-filter_split q xs)

  pub count_if-place :
      (lt : A → A → Bool) (x : A) (ys : List A)
      → count_if (place lt x ys) ≡ (if p x then 1 else 0) + count_if ys
  unfolding count_if place
  count_if-place lt x [] = refl
  count_if-place lt x (y ∷ ys) = ground (arith, count_if-place lt x ys)

  pub count_if-sorted : (lt : A → A → Bool) (xs : List A) → count_if (sorted lt xs) ≡ count_if xs
  unfolding count_if sorted
  count_if-sorted lt [] = refl
  count_if-sorted lt (x ∷ xs) =
      omega (arith, count_if-place lt x (sorted lt xs), count_if-sorted lt xs)

pub length-place {ℓ} :
    {A : Type ℓ} (lt : A → A → Bool) (x : A) (ys : List A)
    → length (place lt x ys) ≡ suc (length ys)
unfolding place
length-place lt x [] = refl
length-place lt x (y ∷ ys) = ground (arith, length-place lt x ys)

pub length-sorted {ℓ} :
    {A : Type ℓ} (lt : A → A → Bool) (xs : List A) → length (sorted lt xs) ≡ length xs
unfolding sorted
length-sorted lt [] = refl
length-sorted lt (x ∷ xs) = omega (arith, length-place lt x (sorted lt xs), length-sorted lt xs)
