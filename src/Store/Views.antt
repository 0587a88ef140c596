-- ===== src/Store/Views.antt =====
-- What a read of the journal shows: order, bounds and ratings.
use text.Mathlib.Text.{◌==◌ as str_eq}
use llmbroker.Base.{
  length-map, ℕ, zero, suc, ◌≤◌, ◌≡◌, inl, inr, refl, sym, ap, ◌∙◌, String, Bool, true, false,
  Option, none, some, List, [], ◌∷◌, map, arith, if◌then◌else◌, if_ind, if_cases, filter, take,
  length, length-take-le, lookup, has_key, Dict, All, eq_iff, lookup-insert, Bool-cases,
}
use llmbroker.Base.Sorting.{sorted, IsSorted, sorted-IsSorted, IsOrder}
use llmbroker.Models.{Instant, Double}
use llmbroker.Store.{Row}
use llmbroker.Store.Journal.{
  newer, ordered, rating_of, set_default, newest_rating, Match, is_wanted, rated, journal_view,
}

-- The rating of a call that is met first.
abbrev pub named_by : String → Option (String × Double) → Option Double
named_by id none = none
named_by id (some (other, score)) = if str_eq other id then some score else none

abbrev pub first_some : Option Double → Option Double → Option Double
first_some none other = other
first_some (some x) other = some x

abbrev pub first_rating : String → List Row → Option Double
first_rating id [] = none
first_rating id (r ∷ rows) = first_some (named_by id (rating_of r)) (first_rating id rows)

first_some-none : (x : Option Double) → first_some x none ≡ x
first_some-none none = refl
first_some-none (some x) = refl

first_some_assoc :
    (x y z : Option Double) → first_some (first_some x y) z ≡ first_some x (first_some y z)
first_some_assoc none y z = refl
first_some_assoc (some x) y z = refl

known :
    (id : String) (d : Dict Double) (x : Option Double)
    → has_key id d ≡ true
    → first_some (lookup id d) x ≡ lookup id d
unfolding has_key
known id d x h = ground (arith, h)

unknown : (id : String) (d : Dict Double) → has_key id d ≡ false → lookup id d ≡ none
unfolding has_key
unknown id d h = ground (arith, h)

lookup-set_default :
    (id : String) (rating : Option (String × Double)) (d : Dict Double)
    → lookup id (set_default rating d) ≡ first_some (lookup id d) (named_by id rating)
lookup-set_default id none d = sym (first_some-none (lookup id d))
lookup-set_default id (some (other, score)) d = elim (Bool-cases (has_key other d)) [
  | inl h ↦ elim (Bool-cases (str_eq other id)) [
    | inl e ↦
        let same : other ≡ id = ground (arith, eq_iff other id, e) in
        rw (h, e) (sym (known id d (some score) (ap (λ k. has_key k d) (sym same) ∙ h)))
    | inr e ↦ rw (h, e) (sym (first_some-none (lookup id d)))
  ]
  | inr h ↦ elim (Bool-cases (str_eq other id)) [
    | inl e ↦
        let same : other ≡ id = ground (arith, eq_iff other id, e) in
        rw
          (
            h,
            lookup-insert other id score d,
            e,
            unknown id d (ap (λ k. has_key k d) (sym same) ∙ h),
          )
          refl
    | inr e ↦ rw (h, lookup-insert other id score d, e) (sym (first_some-none (lookup id d)))
  ]
]

-- The ratings that a view folds are those met first, from the newest row on.
pub lookup-newest_rating :
    (id : String) (rows : List Row) (d : Dict Double)
    → lookup id (newest_rating rows d) ≡ first_some (lookup id d) (first_rating id rows)
unfolding newest_rating
lookup-newest_rating id [] d = sym (first_some-none (lookup id d))
lookup-newest_rating id (r ∷ rows) d =
    lookup-newest_rating id rows (set_default (rating_of r) d)
    ∙ ap (λ x. first_some x (first_rating id rows)) (lookup-set_default id (rating_of r) d)
    ∙ first_some_assoc (lookup id d) (named_by id (rating_of r)) (first_rating id rows)

module _ (lt : Row → Row → Bool) where
  All-filter :
      (P : Row → Type 0) (q : Row → Bool) (rows : List Row) → All P rows → All P (filter q rows)
  All-filter P q [] h = tt
  All-filter P q (r ∷ rows) (h, hs) =
      if_ind (All P) (q r) (h, All-filter P q rows hs) (All-filter P q rows hs)

  IsSorted-filter :
      (q : Row → Bool) (rows : List Row) → IsSorted lt rows → IsSorted lt (filter q rows)
  IsSorted-filter q [] h = tt
  IsSorted-filter q (r ∷ rows) (h, hs) =
      if_ind (IsSorted lt) (q r) (All-filter _ q rows h, IsSorted-filter q rows hs)
        (IsSorted-filter q rows hs)

  All-take : (P : Row → Type 0) (n : ℕ) (rows : List Row) → All P rows → All P (take n rows)
  All-take P zero rows h = tt
  All-take P (suc n) [] h = tt
  All-take P (suc n) (r ∷ rows) (h, hs) = (h, All-take P n rows hs)

  IsSorted-take : (n : ℕ) (rows : List Row) → IsSorted lt rows → IsSorted lt (take n rows)
  IsSorted-take zero rows h = tt
  IsSorted-take (suc n) [] h = tt
  IsSorted-take (suc n) (r ∷ rows) (h, hs) = (All-take _ n rows h, IsSorted-take n rows hs)

All-rated :
    (P Q : Row → Type 0) (d : Dict Double) (rows : List Row)
    → ((r : Row) → P r → Q (rated d r))
    → All P rows
    → All Q (map (rated d) rows)
All-rated P Q d [] f h = tt
All-rated P Q d (r ∷ rows) f (h, hs) = (f r h, All-rated P Q d rows f hs)

IsSorted-rated :
    (d : Dict Double) (rows : List Row) → IsSorted newer rows → IsSorted newer (map (rated d) rows)
IsSorted-rated d [] h = tt
IsSorted-rated d (r ∷ rows) (h, hs) = (
  All-rated (λ s. newer s r ≡ false) (λ s. newer s (rated d r) ≡ false) d rows (λ s e. e) h,
  IsSorted-rated d rows hs,
)

All-wanted : (q : Row → Bool) (rows : List Row) → All (λ r. q r ≡ true) (filter q rows)
All-wanted q [] = tt
All-wanted q (r ∷ rows) =
    if_cases (All (λ r. q r ≡ true)) (q r) (λ h. (h, All-wanted q rows)) (λ h. All-wanted q rows)

newer-IsOrder : IsOrder newer
newer-IsOrder = record { asym = λ a b h. ground arith; cotrans = λ a b c h. ground arith }

-- What a read of the journal shows: no more rows than its limit, newest first, each of them the row
-- of a call that the read asks for; and each with the rating of that call which is met first among
-- all rows of the journal, newest first, whatever the read narrows by.
pub journal_view-IsView :
    (limit : ℕ) (m : Match) (since : Option Instant) (rows : List Row)
    → let view = journal_view limit m since rows in
      (length view ≤ limit)
      × IsSorted newer view
      × All (λ r. (is_wanted m since r ≡ true) × (r.score ≡ first_rating r.id (ordered rows))) view
unfolding journal_view ordered sorted lookup
journal_view-IsView limit m since rows = (
  omega (arith, length-map (rated d) taken, length-take-le limit wanted),
  IsSorted-rated d taken (
      IsSorted-take newer limit wanted (
        IsSorted-filter newer (is_wanted m since) rows'
          (sorted-IsSorted newer newer-IsOrder rows))),
  All-rated (λ r. is_wanted m since r ≡ true) _ d taken
      (λ r h. (h, lookup-newest_rating r.id rows' []))
      (All-take newer _ limit wanted (All-wanted (is_wanted m since) rows')),
)
  where
    rows' : List Row
    rows' = sorted newer rows

    d : Dict Double
    d = newest_rating rows' []

    wanted : List Row
    wanted = filter (is_wanted m since) rows'

    taken : List Row
    taken = take limit wanted
