-- ===== src/Pool/Acquire/Outcomes.antt =====
-- When a call of `acquire_many` is served, waits or fails.
use llmbroker.Base.{sub_ℕ}
use llmbroker.Base.{pos_part, neg_part, ◌+◌, ◌≤◌, ◌++◌, if_ind, if_cases}
use llmbroker.Pool.Acquire.{minimum_ℤ, least_ℤ}
use llmbroker.Base.{some}
use llmbroker.Base.{ℤ}
use llmbroker.Pool.Acquire.{wake_timeout}
use llmbroker.Base.{ℕ}
use llmbroker.Base.{
  ◌<◌, ◌≡◌, refl, sym, subst, ◌≢◌, ◌⊎◌, inl, inr, Bool, true, false, not, Option, List, [], ◌∷◌,
  arith, map, any, All, any_some, filter, is_empty-filter, is_empty, length, leb, Bool-cases,
}
use llmbroker.Optimizer.Floats.{FloatOps}
use llmbroker.Optimizer.{Optimizer}
use llmbroker.Pool.{Pool}
use llmbroker.Pool.Slots.{is_free}
use llmbroker.Pool.Reserve.{Entry, candidates, chosen, reserve}
use llmbroker.Pool.Reserve.Counts.{All-chosen}
use llmbroker.Pool.Reserve.Best.{chosen-nil}
use llmbroker.Pool.Acquire.{
  timeout, Clocks, Request, Acquired, taken, raised, waits, context, exhaustion_reason, refused,
  acquire_round, acquire_many,
}

-- The tests of a round, said of the pool.
abbrev pub some_free : Request → Clocks → Pool → Bool
some_free r t p = any (λ e. is_free t.now e.1) (candidates r.boundary p)

abbrev pub no_candidates : Request → Pool → Bool
no_candidates r p = is_empty (candidates r.boundary p)

abbrev pub is_late : Request → Clocks → Bool
is_late r t = any_some (λ deadline. leb deadline t.checked) r.queue_deadline

is_empty-length {ℓ} : {A : Type ℓ} (xs : List A) → length xs ≡ 0 → is_empty xs ≡ true
is_empty-length [] h = refl
is_empty-length (x ∷ xs) h = absurd (omega arith)

is_empty-map {ℓ κ} :
    {A : Type ℓ} {B : Type κ} (f : A → B) (xs : List A) → is_empty (map f xs) ≡ is_empty xs
is_empty-map f [] = refl
is_empty-map f (x ∷ xs) = refl

nil_of_is_empty {ℓ} : {A : Type ℓ} (xs : List A) → is_empty xs ≡ true → xs ≡ []
nil_of_is_empty [] h = refl
nil_of_is_empty (x ∷ xs) h = cc

is_empty-absurd {ℓ} : {A : Type ℓ} (xs : List A) → All (λ _. ⊥) xs → is_empty xs ≡ true
is_empty-absurd [] h = refl
is_empty-absurd (x ∷ xs) h = absurd h.0

module _ (fl : FloatOps) (opt : Option Optimizer) (r : Request) (t : Clocks) (p : Pool) where
  picked : List Entry
  picked = chosen fl opt p (context r t) (candidates r.boundary p)

  -- Nothing is picked exactly where no candidate is free.
  picked-nil : 0 < r.width → is_empty picked ≡ not (some_free r t p)
  unfolding picked
  picked-nil pos = elim (Bool-cases (some_free r t p)) [
    | inl free ↦ rw free (not_empty free)
    | inr busy ↦ rw busy (all_busy busy)
  ]
    where
      free_ones : List Entry
      free_ones = filter (λ e. is_free t.now e.1) (candidates r.boundary p)

      not_empty : some_free r t p ≡ true → is_empty picked ≡ false
      not_empty free = elim (Bool-cases (is_empty picked)) [
        | inr e ↦ e
        | inl e ↦
            let gone =
              chosen-nil fl opt p (context r t) (candidates r.boundary p) pos
                (nil_of_is_empty picked e) in
            cc (
              is_empty-length free_ones gone,
              is_empty-filter (λ e. is_free t.now e.1) (candidates r.boundary p),
              free,
            )
      ]

      all_busy : some_free r t p ≡ false → is_empty picked ≡ true
      all_busy busy = is_empty-absurd picked (
          All-chosen fl opt p (context r t) (λ _. ⊥) (candidates r.boundary p)
            (rw
              (nil_of_is_empty free_ones (
                rw (is_empty-filter (λ e. is_free t.now e.1) (candidates r.boundary p), busy) refl))
              tt))

  abbrev pub Round : Acquired → Type 0
  Round (taken configs after) = (some_free r t p ≡ true) × (configs ≢ [])
  Round (raised e) =
      (some_free r t p ≡ false)
      × ((no_candidates r p ≡ true) × (e.reason ≡ exhaustion_reason r.boundary p)
          ⊎ (no_candidates r p ≡ false) × (is_late r t ≡ true) × (e.reason ≡ timeout))
  Round (waits span) =
      (some_free r t p ≡ false) × (no_candidates r p ≡ false) × (is_late r t ≡ false)

  -- A round of positive width is served exactly where a candidate is free; otherwise it fails at
  -- once where there is no candidate at all, fails by timeout where its deadline has passed, and
  -- waits in every other case.
  pub acquire_round-Round : 0 < r.width → Round (acquire_round fl opt r t p)
  unfolding acquire_round reserve refused picked
  acquire_round-Round pos =
      ground (arith, picked-nil pos, is_empty-map (λ (e : Entry). e.1.config) picked)

-- The result came from a round.
abbrev pub is_done : Acquired → Bool
is_done (waits span) = false
is_done _ = true

abbrev pub last_clocks : Clocks → List (Clocks × Pool) → Clocks
last_clocks t [] = t
last_clocks t ((t', p') ∷ later) = last_clocks t' later

module _ (fl : FloatOps) (opt : Option Optimizer) (r : Request) where
  -- The round of a schedule that a result came from, and what was so in it.
  abbrev pub Met : Acquired → Clocks → Pool → List (Clocks × Pool) → Type 0
  Met o t p [] = Round fl opt r t p o
  Met o t p ((t', p') ∷ later) = (is_done o ≡ true) × Round fl opt r t p o ⊎ Met o t' p' later

  -- Whatever a call of positive width comes back with is right about the pool of the round in
  -- which it comes back.
  pub acquire_many-Met :
      (t : Clocks) (p : Pool) (later : List (Clocks × Pool))
      → 0 < r.width
      → Met (acquire_many fl opt r t p later) t p later
  unfolding acquire_many
  acquire_many-Met t p [] pos = acquire_round-Round fl opt r t p pos
  acquire_many-Met t p ((t', p') ∷ later) pos =
      go (acquire_round fl opt r t p) refl (acquire_round-Round fl opt r t p pos)
        (acquire_many-Met t' p' later pos)
    where
      go :
          (o : Acquired)
          → acquire_round fl opt r t p ≡ o
          → Round fl opt r t p o
          → Met (acquire_many fl opt r t' p' later) t' p' later
          → Met (acquire_many fl opt r t p ((t', p') ∷ later)) t p ((t', p') ∷ later)
      go (taken configs after) e now next = rw (e, acquire_many) (inl (refl, now))
      go (raised x) e now next = rw (e, acquire_many) (inl (refl, now))
      go (waits span) e now next =
          inr (subst (λ o. Met o t' p' later) (sym (rw (e, acquire_many) refl)) next)

  -- The call has come back, or it waits, the last reading being before the deadline, and the wait
  -- ends at the deadline at the latest.
  abbrev pub InTime : ℕ → Clocks → Acquired → Type 0
  InTime deadline t (waits span) =
      (t.checked < deadline)
      × ((s : ℤ) × (span ≡ some s) × (pos_part s + t.waited ≤ deadline + neg_part s))
  InTime deadline t _ = Unit {0}

  minimum_ℤ-last :
      (deadline waited : ℕ) (xs : List ℤ)
      → (s : ℤ) × (minimum_ℤ (xs ++ sub_ℕ deadline waited ∷ []) ≡ some s)
        × (pos_part s + waited ≤ deadline + neg_part s)
  unfolding minimum_ℤ
  minimum_ℤ-last deadline waited [] = (sub_ℕ deadline waited, refl, ground arith)
  minimum_ℤ-last deadline waited (x ∷ xs) =
      let (s, e, h) = minimum_ℤ-last deadline waited xs in
      (least_ℤ x (some s), rw e refl, ground (arith, h))

  refused-InTime :
      (deadline : ℕ) (t : Clocks) (p : Pool)
      → r.queue_deadline ≡ some deadline
      → InTime deadline t (refused r t p)
  unfolding refused wake_timeout
  refused-InTime deadline t p e = rw e (
      if_ind (InTime deadline t) (is_empty (candidates r.boundary p)) tt (
        if_cases (InTime deadline t) (leb deadline t.checked) (λ late. tt)
          (λ early. (ground (arith, early), minimum_ℤ-last deadline t.waited _))))

  acquire_round-InTime :
      (deadline : ℕ) (t : Clocks) (p : Pool)
      → r.queue_deadline ≡ some deadline
      → InTime deadline t (acquire_round fl opt r t p)
  unfolding acquire_round
  acquire_round-InTime deadline t p e =
      let handed = reserve fl opt p (context r t) (candidates r.boundary p) in
      if_ind (InTime deadline t) (is_empty handed.0) {y = taken handed.0 handed.1}
        (refused-InTime deadline t p e) tt

  -- A call with a deadline does not wait past it: over any schedule of readings and pools, it has
  -- come back, or else the last reading is before the deadline and the wait that follows is at most
  -- what is left until the deadline at that reading.
  pub acquire_many-ends :
      (deadline : ℕ) (t : Clocks) (p : Pool) (later : List (Clocks × Pool))
      → r.queue_deadline ≡ some deadline
      → InTime deadline (last_clocks t later) (acquire_many fl opt r t p later)
  unfolding acquire_many
  acquire_many-ends deadline t p [] e = acquire_round-InTime deadline t p e
  acquire_many-ends deadline t p ((t', p') ∷ later) e =
      go (acquire_round fl opt r t p) refl (acquire_many-ends deadline t' p' later e)
    where
      go :
          (o : Acquired)
          → acquire_round fl opt r t p ≡ o
          → InTime deadline (last_clocks t' later) (acquire_many fl opt r t' p' later)
          → InTime deadline (last_clocks t' later) (acquire_many fl opt r t p ((t', p') ∷ later))
      go (taken configs after) same next = rw (same, acquire_many) tt
      go (raised x) same next = rw (same, acquire_many) tt
      go (waits span) same next = rw (same, acquire_many) next
