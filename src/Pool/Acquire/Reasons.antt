-- ===== src/Pool/Acquire/Reasons.antt =====
-- What a call that gets no slot is told: the reason, and when a slot comes back.
use text.Mathlib.Text.{◌==◌ as str_eq}
use llmbroker.Base.{
  ℕ, ◌==◌, ◌≤◌, ◌<◌, String, ◌≡◌, refl, inl, inr, Bool, true, false, Option, none, some, List, [],
  ◌∷◌, arith, any, All, filter-nil, any-false, is_empty, ltb, ltb→lt, ◌++◌, Bool-cases, mem, eq_iff,
  keys, sym, subst,
}
use llmbroker.Models.{Instant}
use llmbroker.Pool.{Pool}
use llmbroker.Pool.Reserve.{Entry, Boundary, is_candidate, candidates}
use llmbroker.Pool.Acquire.{
  Reason, excluded, empty_pool, no_keys, all_disabled, timeout, least, minimum, running, cooling,
  earliest_return, exhaustion_reason,
}

-- The least entry of a list of numbers.
abbrev pub IsLeast : Option ℕ → List ℕ → Type 0
IsLeast none xs = xs ≡ []
IsLeast (some m) xs = (any (λ x. x == m) xs ≡ true) × All (λ x. m ≤ x) xs

All-le_trans : (m n : ℕ) (xs : List ℕ) → m ≤ n → All (λ x. n ≤ x) xs → All (λ x. m ≤ x) xs
All-le_trans m n [] h a = tt
All-le_trans m n (x ∷ xs) h a = (omega arith, All-le_trans m n xs h a.1)

least-IsLeast :
    (x : ℕ) (o : Option ℕ) (xs : List ℕ) → IsLeast o xs → IsLeast (some (least x o)) (x ∷ xs)
least-IsLeast x none xs h = rw h (ground arith, (omega arith, tt))
least-IsLeast x (some m) xs h = elim (Bool-cases (ltb m x)) [
  | inl less ↦ subst Least (sym (rw less refl)) (ground arith, (ground arith, h.1))
  | inr more ↦
      subst Least (sym (rw more refl))
        (ground arith, (omega arith, All-le_trans x m xs (ground arith) h.1))
]
  where
    Least : ℕ → Type 0
    Least n = IsLeast (some n) (x ∷ xs)

minimum-IsLeast : (xs : List ℕ) → IsLeast (minimum xs) xs
unfolding minimum
minimum-IsLeast [] = refl
minimum-IsLeast (x ∷ xs) = least-IsLeast x (minimum xs) xs (minimum-IsLeast xs)

-- What a queue that timed out is told: no candidate is cooling and the answer is none, or the answer
-- is the end of a running cooldown, and no candidate's cooldown ends before it.
abbrev pub Returns : Instant → Option Instant → List Entry → Type 0
Returns now none found = cooling now found ≡ []
Returns now (some t) found =
    (now < t)
    × (any (λ u. u == t) (cooling now found) ≡ true)
    × All (λ e. (u : Instant) → e.1.cooldown_until ≡ some u → now < u → t ≤ u) found

running-le :
    (now t : Instant) (o : Option Instant) (rest : List Instant)
    → All (λ u. t ≤ u) (running now o ++ rest)
    → ((u : Instant) → o ≡ some u → now < u → t ≤ u) × All (λ u. t ≤ u) rest
running-le now t none rest h = (λ u e later. cc, h)
running-le now t (some until) rest h = elim (Bool-cases (ltb now until)) [
  | inl e ↦
      let h' : (t ≤ until) × All (λ u. t ≤ u) rest = (rw e at h) in
      (λ u e' later. ground (arith, h'.0), h'.1)
  | inr e ↦ (λ u e' later. absurd (ground arith), rw e at h)
]

running-later :
    (now : Instant) (o : Option Instant) (rest : List Instant)
    → All (λ u. now < u) rest
    → All (λ u. now < u) (running now o ++ rest)
running-later now none rest h = h
running-later now (some until) rest h = elim (Bool-cases (ltb now until)) [
  | inl e ↦ rw e (ltb→lt now until e, h)
  | inr e ↦ rw e h
]

cooling-le :
    (now t : Instant) (found : List Entry)
    → All (λ u. t ≤ u) (cooling now found)
    → All (λ e. (u : Instant) → e.1.cooldown_until ≡ some u → now < u → t ≤ u) found
unfolding cooling
cooling-le now t [] h = tt
cooling-le now t (e ∷ found) h =
    let (here, rest) = running-le now t e.1.cooldown_until (cooling now found) h in
    (here, cooling-le now t found rest)

cooling-later : (now : Instant) (found : List Entry) → All (λ u. now < u) (cooling now found)
unfolding cooling
cooling-later now [] = tt
cooling-later now (e ∷ found) =
    running-later now e.1.cooldown_until (cooling now found) (cooling-later now found)

All-any : (now t : ℕ) (xs : List ℕ) → All (λ u. now < u) xs → any (λ u. u == t) xs ≡ true → now < t
All-any now t [] h a = cc
All-any now t (x ∷ xs) h a = ground (arith, All-any now t xs h.1)

pub earliest_return-Returns :
    (now : Instant) (found : List Entry) → Returns now (earliest_return found now) found
unfolding earliest_return
earliest_return-Returns now found =
    go (minimum (cooling now found)) (minimum-IsLeast (cooling now found))
  where
    go : (o : Option Instant) → IsLeast o (cooling now found) → Returns now o found
    go none h = h
    go (some t) h = (
      All-any now t (cooling now found) (cooling-later now found) h.0,
      h.0,
      cooling-le now t found h.1,
    )

nil_of_is_empty : (xs : List Entry) → is_empty xs ≡ true → xs ≡ []
nil_of_is_empty [] h = refl
nil_of_is_empty (x ∷ xs) h = cc

All-mem_cons :
    (k : String) (ks : List String) (slots : List Entry)
    → All (λ e. mem e.0 ks ≡ true) slots
    → All (λ e. mem e.0 (k ∷ ks) ≡ true) slots
All-mem_cons k ks [] h = tt
All-mem_cons k ks (e ∷ slots) h = (ground (arith, h.0), All-mem_cons k ks slots h.1)

All-known : (slots : List Entry) → All (λ e. mem e.0 (keys slots) ≡ true) slots
All-known [] = tt
All-known (e ∷ slots) =
    (ground (arith, eq_iff e.0 e.0), All-mem_cons e.0 (keys slots) slots (All-known slots))

module _ (b : Boundary) (p : Pool) where
  -- Why no slot is a candidate, for a call that is held to no list of names: an entry is refused by
  -- the caller, or cannot be paid for, or is disabled.
  refused_entry :
      (e : Entry)
      → b.eligible_names ≡ none
      → is_candidate b e ≡ false
      → mem e.1.config.name b.exclude ≡ false
      → mem e.1.config.api_key_ref b.payable ≡ true
      → e.1.disabled ≡ true
  unfolding is_candidate
  refused_entry (k, s) free h kept payable = ground arith

  abbrev pub IsNamed : Entry → Type 0
  IsNamed e = e.0 ≡ e.1.config.name

  mem-not_any :
      (k : String) (ks names : List String)
      → any (λ name. mem name ks) names ≡ false
      → mem k ks ≡ true
      → mem k names ≡ false
  mem-not_any k ks [] h m = refl
  mem-not_any k ks (n ∷ names) h m = elim (Bool-cases (str_eq n k)) [
    | inl e ↦
        let hit = subst (λ x. mem x ks ≡ true) (sym ((eq_iff n k).0 e)) m in
        absurd (ground (arith, hit))
    | inr e ↦ ground (arith, mem-not_any k ks names (ground arith) m)
  ]

  All-disabled_of :
      (slots : List Entry) (ks : List String)
      → b.eligible_names ≡ none
      → All IsNamed slots
      → All (λ e. mem e.0 ks ≡ true) slots
      → any (λ name. mem name ks) b.exclude ≡ false
      → All (λ e. is_candidate b e ≡ false) slots
      → All (λ e. mem e.1.config.api_key_ref b.payable ≡ true → e.1.disabled ≡ true) slots
  All-disabled_of [] ks free named known kept refused = tt
  All-disabled_of (e ∷ slots) ks free named known kept refused = (
    refused_entry e free refused.0
        (subst (λ x. mem x b.exclude ≡ false) named.0 (mem-not_any e.0 ks b.exclude kept known.0)),
    All-disabled_of slots ks free named.1 known.1 kept refused.1,
  )

  -- What each reason says of the pool.
  abbrev pub Means : Reason → Type 0
  Means excluded = any (λ name. mem name (keys p.slots)) b.exclude ≡ true
  Means empty_pool = p.slots ≡ []
  Means no_keys = All (λ e. mem e.1.config.api_key_ref b.payable ≡ false) p.slots
  Means all_disabled =
      (any (λ e. mem e.1.config.api_key_ref b.payable) p.slots ≡ true)
      × All (λ e. mem e.1.config.api_key_ref b.payable ≡ true → e.1.disabled ≡ true) p.slots
  Means timeout = ⊥

  -- In a pool whose keys are the names of its configs, a call that is held to no list of names and
  -- has no candidate is told a reason that is so: a name it refuses is in the pool, the pool is
  -- empty, no slot can be paid for, or some can and every one of those is disabled.
  pub exhaustion_reason-Means :
      b.eligible_names ≡ none
      → All IsNamed p.slots
      → is_empty (candidates b p) ≡ true
      → Means (exhaustion_reason b p)
  unfolding exhaustion_reason candidates
  exhaustion_reason-Means free named none_left =
      elim (Bool-cases (any (λ name. mem name (keys p.slots)) b.exclude)) [
        | inl e ↦ told excluded (rw e) e
        | inr e ↦ elim (Bool-cases (is_empty p.slots)) [
          | inl e' ↦ told empty_pool (rw (e, e')) (nil_of_is_empty p.slots e')
          | inr e' ↦ elim (Bool-cases (any payable p.slots)) [
            | inr e'' ↦ told no_keys (rw (e, e', e'')) (any-false payable p.slots e'')
            | inl e'' ↦ told all_disabled (rw (e, e', e'')) (
              e'',
              All-disabled_of p.slots (keys p.slots) free named (All-known p.slots) e
                  (filter-nil (is_candidate b) p.slots none_left),
            )
          ]
        ]
      ]
    where
      payable : Entry → Bool
      payable e = mem e.1.config.api_key_ref b.payable

      told : (r : Reason) → exhaustion_reason b p ≡ r → Means r → Means (exhaustion_reason b p)
      told r e m = subst Means (sym e) m
