-- ===== src/Pool/Reserve/Best.antt =====
-- Which of the free candidates come first.
use llmbroker.Base.{◌≤◌}
use llmbroker.Base.{◌⊎◌}
use llmbroker.Base.{All-imp}
use llmbroker.Models.{Double}
use llmbroker.Base.{true}
use llmbroker.Base.{
  ℕ, zero, suc, ◌<◌, ◌≡◌, refl, sym, ap, false, Option, List, [], ◌∷◌, arith, filter, All, take,
  length, ltb, Bool-cases, inl, inr, subst,
}
use llmbroker.Base.Sorting.{IsOrder, lex-IsOrder, IsSorted, sorted, sorted-IsSorted, All-sorted}
use llmbroker.Base.Counting.{length-sorted}
use llmbroker.Optimizer.Floats.{FloatOps}
use llmbroker.Optimizer.{Optimizer}
use llmbroker.Pool.{Pool}
use llmbroker.Pool.Slots.{is_free}
use llmbroker.Pool.Ranking.{Rank, bool_lt, rank, rank_lt, over_budget, is_demoted, priority}
use llmbroker.Pool.Reserve.{Entry, Context, before, ranked, covered, chosen}

-- Python's lexicographic order of the keys is an order where that of the floats is one, which it is
-- on floats that are no NaN.
pub rank_lt-IsOrder : (fl : FloatOps) → IsOrder fl.lt → IsOrder (rank_lt fl)
unfolding rank_lt
rank_lt-IsOrder fl o = lex-IsOrder {lt = λ a b. bool_lt a.over_budget b.over_budget} flags (
    lex-IsOrder {lt = λ a b. bool_lt a.demoted b.demoted} demotions
      (lex-IsOrder {lt = λ a b. fl.lt a.neg_priority b.neg_priority} priorities orders))
  where
    flags : IsOrder {A = Rank} (λ a b. bool_lt a.over_budget b.over_budget)
    flags = record { asym = λ a b h. ground arith; cotrans = λ a b c h. ground arith }

    demotions : IsOrder {A = Rank} (λ a b. bool_lt a.demoted b.demoted)
    demotions = record { asym = λ a b h. ground arith; cotrans = λ a b c h. ground arith }

    priorities : IsOrder {A = Rank} (λ a b. fl.lt a.neg_priority b.neg_priority)
    priorities = record {
      asym = λ a b. o.asym a.neg_priority b.neg_priority;
      cotrans = λ a b c. o.cotrans a.neg_priority b.neg_priority c.neg_priority;
    }

    orders : IsOrder {A = Rank} (λ a b. ltb a.order b.order)
    orders = record { asym = λ a b h. ground arith; cotrans = λ a b c h. ground arith }

module _ (fl : FloatOps) (order : IsOrder fl.lt) (opt : Option Optimizer) (p : Pool)
    (c : Context) where
  before-IsOrder : IsOrder (before fl opt p c)
  unfolding before
  before-IsOrder =
      let key = λ (e : Entry). rank fl opt p c.remaining c.now c.operation e.1 in
      let o = rank_lt-IsOrder fl order in
      record {
        asym = λ a b. o.asym (key a) (key b);
        cotrans = λ a b d. o.cotrans (key a) (key b) (key d);
      }

  -- Not strictly better than the entry that was taken first.
  abbrev pub NotBefore : Entry → Entry → Type 0
  NotBefore e f = before fl opt p c f e ≡ false

  NotBefore-self : (e : Entry) → NotBefore e e
  NotBefore-self e = elim (Bool-cases (before fl opt p c e e)) [
    | inl h ↦ before-IsOrder.asym e e h
    | inr h ↦ h
  ]

  head_of_take :
      (n : ℕ) (xs : List Entry) (rest : List Entry) (m : ℕ) (e : Entry) (es : List Entry)
      → covered (take n xs) rest m ≡ e ∷ es
      → (tail : List Entry) × (xs ≡ e ∷ tail)
  unfolding covered
  head_of_take zero xs rest m e es h = absurd (ground arith)
  head_of_take (suc n) [] rest m e es h = absurd (ground arith)
  head_of_take (suc n) (x ∷ xs) rest m e es h = (xs, ground arith)

  -- Of two entries: the one that comes first missed no budget that the other kept; of two alike, it
  -- is not the one that is demoted; of two alike again, no other has the higher priority; and of two
  -- with no higher priority either way, it has the lower order, or the same.
  abbrev pub ComesFirst : Entry → Entry → Type 0
  ComesFirst e f =
      let misses = λ (x : Entry). over_budget p x.1 c.remaining c.now in
      let demoted = λ (x : Entry). is_demoted fl opt x.1.config.name c.operation in
      let score = λ (x : Entry). priority fl opt x.1 c.operation in
      (misses e ≡ false) × (misses f ≡ true)
      ⊎ (misses e ≡ misses f)
        × ((demoted e ≡ false) × (demoted f ≡ true)
            ⊎ (demoted e ≡ demoted f)
              × ((fl.lt (score f) (score e) ≡ true)
                  ⊎ (fl.lt (score e) (score f) ≡ false) × (e.1.order ≤ f.1.order)))

  NotBefore-ComesFirst :
      ((x y : Double) → fl.lt (fl.neg x) (fl.neg y) ≡ fl.lt y x)
      → (e f : Entry) → NotBefore e f
      → ComesFirst e f
  unfolding before rank rank_lt
  NotBefore-ComesFirst negates e f h =
      let up = negates (priority fl opt e.1 c.operation) (priority fl opt f.1 c.operation) in
      let down = negates (priority fl opt f.1 c.operation) (priority fl opt e.1 c.operation) in
      ground (arith, h, up, down)

  best_of_free :
      (found : List Entry) (e : Entry) (es : List Entry)
      → chosen fl opt p c found ≡ e ∷ es
      → All (NotBefore e) (filter (λ f. is_free c.now f.1) found)
  unfolding chosen ranked
  best_of_free found e es h =
      let free = filter (λ f. is_free c.now f.1) found in
      let (tail, split) = head_of_take c.width (sorted (before fl opt p c) free) _ _ e es h in
      let in_order =
        subst (IsSorted (before fl opt p c)) split
          (sorted-IsSorted (before fl opt p c) before-IsOrder free) in
      All-sorted (before fl opt p c) (NotBefore e) free
        (subst (All (NotBefore e)) (sym split) (NotBefore-self e, in_order.0))

  -- Where the test on scores is an order that negation turns round, the entry that a call takes
  -- first comes first of all the free candidates: before those that missed a budget where it missed
  -- none, then before those that are demoted where it is not, then before those of a lower priority,
  -- then before those of a higher order.
  pub chosen-best :
      ((x y : Double) → fl.lt (fl.neg x) (fl.neg y) ≡ fl.lt y x)
      → (found : List Entry) (e : Entry) (es : List Entry) → chosen fl opt p c found ≡ e ∷ es
      → All (ComesFirst e) (filter (λ f. is_free c.now f.1) found)
  chosen-best negates found e es h =
      All-imp _ (NotBefore-ComesFirst negates e) (best_of_free found e es h)

module _ (fl : FloatOps) (opt : Option Optimizer) (p : Pool) (c : Context) where
  covered-nil :
      (n : ℕ) (xs rest : List Entry) (m : ℕ) → 0 < n → covered (take n xs) rest m ≡ [] → xs ≡ []
  unfolding covered
  covered-nil zero xs rest m pos h = absurd (omega arith)
  covered-nil (suc n) [] rest m pos h = refl
  covered-nil (suc n) (x ∷ xs) rest m pos h = absurd (ground arith)

  -- A call of positive width comes back with nothing only where no candidate is free.
  pub chosen-nil :
      (found : List Entry)
      → 0 < c.width
      → chosen fl opt p c found ≡ []
      → length (filter (λ f. is_free c.now f.1) found) ≡ 0
  unfolding chosen ranked
  chosen-nil found pos h =
      let free = filter (λ f. is_free c.now f.1) found in
      let none_left = covered-nil c.width (sorted (before fl opt p c) free) _ _ pos h in
      omega (arith, length-sorted (before fl opt p c) free, ap length none_left)
