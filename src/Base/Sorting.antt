-- ===== src/Base/Sorting.antt =====
-- Python's `sorted` with a key: a stable insertion sort by a strict order of keys.
use mathlib.Core.List.Perm
use mathlib.Core.List.{List, [], ◌∷◌, Perm}
use mathlib.Core.Bool.{Bool, true, false, not, ◌&&◌, ◌||◌}
use mathlib.Core.Path.{◌≡◌}
use mathlib.Core.Logic.{◌⊎◌, inl, inr}
use native.Mathlib.Omega.{arith}
use llmbroker.Base.Tests.{if◌then◌else◌, Bool-cases}
use llmbroker.Base.Lists.{All}

-- A strict weak order, as a test.
pub record IsOrder {ℓ} {A : Type ℓ} (lt : A → A → Bool) : Type ℓ where
  pub asym : (a b : A) → lt a b ≡ true → lt b a ≡ false
  pub cotrans : (a b c : A) → lt a c ≡ true → (lt a b ≡ true) ⊎ (lt b c ≡ true)

-- The order of pairs of keys: the second key decides where the first leaves two entries equal.
abbrev pub lex {ℓ} : {A : Type ℓ} → (A → A → Bool) → (A → A → Bool) → A → A → Bool
lex lt lt' a b = lt a b || (not (lt b a) && lt' a b)

pub lex-IsOrder {ℓ} :
    {A : Type ℓ} {lt lt' : A → A → Bool} → IsOrder lt → IsOrder lt' → IsOrder (lex lt lt')
lex-IsOrder o o' = record {
  asym = λ a b h. ground (arith, o.asym a b, o.asym b a, o'.asym a b);
  cotrans = λ a b c h.
      ground (arith, o.cotrans a b c, o.cotrans b c a, o.cotrans c a b, o'.cotrans a b c);
}

module _ {ℓ} {A : Type ℓ} (lt : A → A → Bool) where
  unfoldable pub place : A → List A → List A
  place x [] = x ∷ []
  place x (y ∷ ys) = if lt y x then y ∷ place x ys else x ∷ y ∷ ys

  unfoldable pub sorted : List A → List A
  unfolding place
  sorted [] = []
  sorted (x ∷ xs) = place x (sorted xs)

  pub place-perm : (x : A) (ys : List A) → Perm (place x ys) (x ∷ ys)
  unfolding place
  place-perm x [] = Perm.rfl
  place-perm x (y ∷ ys) = elim (Bool-cases (lt y x)) [
    | inl e ↦ rw (e, place) (Perm.trans (Perm.cons y (place-perm x ys)) (Perm.swap x y ys))
    | inr e ↦ rw (e, place) Perm.rfl
  ]

  pub sorted-perm : (xs : List A) → Perm (sorted xs) xs
  unfolding sorted
  sorted-perm [] = Perm.rfl
  sorted-perm (x ∷ xs) = Perm.trans (place-perm x (sorted xs)) (Perm.cons x (sorted-perm xs))

  -- No entry comes strictly before one that stands ahead of it.
  abbrev pub IsSorted : List A → Type ℓ
  IsSorted [] = Unit
  IsSorted (x ∷ xs) = All (λ y. lt y x ≡ false) xs × IsSorted xs

  module _ {κ} (P : A → Type κ) where
    pub place-All : (x : A) (ys : List A) → P x → All P ys → All P (place x ys)
    unfolding place
    place-All x [] p h = (p, h)
    place-All x (y ∷ ys) p h = elim (Bool-cases (lt y x)) [
      | inl e ↦ rw (e, place) (h.0, place-All x ys p h.1)
      | inr e ↦ rw (e, place) (p, h)
    ]

    pub sorted-All : (xs : List A) → All P xs → All P (sorted xs)
    unfolding sorted
    sorted-All [] h = h
    sorted-All (x ∷ xs) h = place-All x (sorted xs) h.0 (sorted-All xs h.1)

    All-place : (x : A) (ys : List A) → All P (place x ys) → P x × All P ys
    unfolding place
    All-place x [] h = h
    All-place x (y ∷ ys) h = elim (Bool-cases (lt y x)) [
      | inl e ↦
          let (hy, hr) = (rw (e, place) at h) in let (hx, hs) = All-place x ys hr in (hx, (hy, hs))
      | inr e ↦ rw (e, place) at h
    ]

    pub All-sorted : (xs : List A) → All P (sorted xs) → All P xs
    unfolding sorted
    All-sorted [] h = h
    All-sorted (x ∷ xs) h = let (hx, hs) = All-place x (sorted xs) h in (hx, All-sorted xs hs)

  module _ (order : IsOrder lt) where
    not_before_trans : (x y z : A) → lt y x ≡ false → lt z y ≡ false → lt z x ≡ false
    not_before_trans x y z p q = elim (Bool-cases (lt z x)) [
      | inr e ↦ e
      | inl e ↦ elim (order.cotrans z y x e) [ inl a ↦ cc | inr b ↦ cc ]
    ]

    All-not_before :
        (x y : A) (ys : List A)
        → lt y x ≡ false
        → All (λ z. lt z y ≡ false) ys
        → All (λ z. lt z x ≡ false) ys
    All-not_before x y [] p h = h
    All-not_before x y (z ∷ ys) p h = (not_before_trans x y z p h.0, All-not_before x y ys p h.1)

    place-IsSorted : (x : A) (ys : List A) → IsSorted ys → IsSorted (place x ys)
    unfolding place
    place-IsSorted x [] s = (tt, tt)
    place-IsSorted x (y ∷ ys) s = elim (Bool-cases (lt y x)) [
      | inl e ↦
          rw (e, place)
            (place-All (λ z. lt z y ≡ false) x ys (order.asym y x e) s.0, place-IsSorted x ys s.1)
      | inr e ↦ rw (e, place) ((e, All-not_before x y ys e s.0), s)
    ]

    pub sorted-IsSorted : (xs : List A) → IsSorted (sorted xs)
    unfolding sorted
    sorted-IsSorted [] = tt
    sorted-IsSorted (x ∷ xs) = place-IsSorted x (sorted xs) (sorted-IsSorted xs)
