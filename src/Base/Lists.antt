-- ===== src/Base/Lists.antt =====
-- Lists measured by native numbers, filtered by Boolean tests, and the sets of texts that the
-- program keeps (`set`, `frozenset`, as a list that is only asked for membership).
use Prim.Native.Nat.{ℕ, zero, suc, ◌+◌, ◌-◌, ◌≤◌}
use Prim.Native.String.{String}
use text.Mathlib.Text.{◌==◌ as str_eq}
use text.Mathlib.TextEquality.{eq_iff}
use mathlib.Core.Path.{◌≡◌, refl}
use mathlib.Core.Bool.{Bool, true, false, not, ◌&&◌, ◌||◌}
use mathlib.Core.List.{map, List, [], ◌∷◌, ◌++◌}
use mathlib.Core.Option.{Option, none, some}
use native.Mathlib.Omega.{arith}
use mathlib.Core.Logic.{inl, inr}
use llmbroker.Base.Tests.{if◌then◌else◌, Bool-cases}

module _ {ℓ} {A : Type ℓ} where
  abbrev pub length : List A → ℕ
  length [] = 0
  length (x ∷ xs) = suc (length xs)

  abbrev pub take : ℕ → List A → List A
  take zero xs = []
  take (suc n) [] = []
  take (suc n) (x ∷ xs) = x ∷ take n xs

  abbrev pub drop : ℕ → List A → List A
  drop zero xs = xs
  drop (suc n) [] = []
  drop (suc n) (x ∷ xs) = drop n xs

  abbrev pub filter : (A → Bool) → List A → List A
  filter p [] = []
  filter p (x ∷ xs) = let rest = filter p xs in if p x then x ∷ rest else rest

  abbrev pub any : (A → Bool) → List A → Bool
  any p [] = false
  any p (x ∷ xs) = p x || any p xs

  abbrev pub all : (A → Bool) → List A → Bool
  all p [] = true
  all p (x ∷ xs) = p x && all p xs

  abbrev pub is_empty : List A → Bool
  is_empty [] = true
  is_empty (x ∷ xs) = false

  abbrev pub find? : (A → Bool) → List A → Option A
  find? p [] = none
  find? p (x ∷ xs) = if p x then some x else find? p xs

  -- `xs[-n:]`, and what a `deque` of maximal length `n` keeps of a sequence.
  abbrev pub last_n : ℕ → List A → List A
  last_n n xs = drop (length xs - n) xs

  -- Every entry satisfies a predicate.
  abbrev pub All {κ} : (A → Type κ) → List A → Type κ
  All P [] = Unit
  All P (x ∷ xs) = P x × All P xs

  pub length-append : (xs ys : List A) → length (xs ++ ys) ≡ length xs + length ys
  length-append [] ys = omega arith
  length-append (x ∷ xs) ys = omega (arith, length-append xs ys)

  pub length-take-le : (n : ℕ) (xs : List A) → length (take n xs) ≤ n
  length-take-le zero xs = omega arith
  length-take-le (suc n) [] = omega arith
  length-take-le (suc n) (x ∷ xs) = omega (arith, length-take-le n xs)

  pub length-drop : (n : ℕ) (xs : List A) → length (drop n xs) ≡ length xs - n
  length-drop zero xs = omega arith
  length-drop (suc n) [] = omega arith
  length-drop (suc n) (x ∷ xs) = omega (arith, length-drop n xs)

  pub length-last_n-le : (n : ℕ) (xs : List A) → length (last_n n xs) ≤ n
  length-last_n-le n xs = omega (arith, length-drop (length xs - n) xs)

  pub filter-filter :
      (p q : A → Bool) (xs : List A) → filter p (filter q xs) ≡ filter (λ x. q x && p x) xs
  filter-filter p q [] = refl
  filter-filter p q (x ∷ xs) = ground (arith, filter-filter p q xs)

  pub filter-nil :
      (q : A → Bool) (xs : List A) → is_empty (filter q xs) ≡ true → All (λ x. q x ≡ false) xs
  filter-nil q [] h = tt
  filter-nil q (x ∷ xs) h = elim (Bool-cases (q x)) [
    | inl e ↦ absurd (ground arith)
    | inr e ↦ (e, filter-nil q xs (ground arith))
  ]

  pub any-false : (q : A → Bool) (xs : List A) → any q xs ≡ false → All (λ x. q x ≡ false) xs
  any-false q [] h = tt
  any-false q (x ∷ xs) h = (ground arith, any-false q xs (ground arith))

  pub any-filter : (q r : A → Bool) (xs : List A) → any q (filter r xs) ≡ any (λ x. r x && q x) xs
  any-filter q r [] = refl
  any-filter q r (x ∷ xs) = ground (arith, any-filter q r xs)

  pub is_empty-filter : (q : A → Bool) (xs : List A) → is_empty (filter q xs) ≡ not (any q xs)
  is_empty-filter q [] = refl
  is_empty-filter q (x ∷ xs) = ground (arith, is_empty-filter q xs)

  pub length-filter-le : (p : A → Bool) (xs : List A) → length (filter p xs) ≤ length xs
  length-filter-le p [] = omega arith
  length-filter-le p (x ∷ xs) = ground (arith, length-filter-le p xs)

abbrev pub mem : String → List String → Bool
mem k [] = false
mem k (j ∷ js) = str_eq j k || mem k js

-- `dict.fromkeys` and `set.add`: the first of equal texts stays, in order.
abbrev pub distinct_from : List String → List String → List String
distinct_from seen [] = []
distinct_from seen (k ∷ ks) =
    let rest = distinct_from (k ∷ seen) ks in
    let same = distinct_from seen ks in if mem k seen then same else k ∷ rest

abbrev pub distinct : List String → List String
distinct = distinct_from []

-- No text stands twice.
abbrev pub no_repeats : List String → Bool
no_repeats [] = true
no_repeats (k ∷ ks) = not (mem k ks) && no_repeats ks

pub mem-filter :
    (q : String → Bool) (k : String) (ks : List String) → mem k (filter q ks) ≡ (mem k ks && q k)
mem-filter q k [] = refl
mem-filter q k (j ∷ ks) = ground (arith, mem-filter q k ks, eq_iff j k)

pub mem-append : (k : String) (xs ys : List String) → mem k (xs ++ ys) ≡ (mem k xs || mem k ys)
mem-append k [] ys = refl
mem-append k (x ∷ xs) ys = ground (arith, mem-append k xs ys)

pub mem-distinct_from :
    (k : String) (seen ks : List String)
    → mem k (distinct_from seen ks) ≡ (mem k ks && not (mem k seen))
mem-distinct_from k seen [] = refl
mem-distinct_from k seen (j ∷ ks) =
    ground (arith, eq_iff j k, mem-distinct_from k seen ks, mem-distinct_from k (j ∷ seen) ks)

pub mem-distinct : (k : String) (ks : List String) → mem k (distinct ks) ≡ mem k ks
mem-distinct k ks = ground (arith, mem-distinct_from k [] ks)

pub length-map {ℓ ℓ'} :
    {A : Type ℓ} {B : Type ℓ'} (f : A → B) (xs : List A) → length (map f xs) ≡ length xs
length-map f [] = refl
length-map f (x ∷ xs) = omega (arith, length-map f xs)

pub All-imp {ℓ κ ι} :
    {A : Type ℓ} {P : A → Type κ} {Q : A → Type ι} (xs : List A)
    → ((x : A) → P x → Q x)
    → All P xs
    → All Q xs
All-imp [] f h = tt
All-imp (x ∷ xs) f (h, hs) = (f x h, All-imp xs f hs)
