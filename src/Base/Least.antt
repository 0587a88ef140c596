-- ===== src/Base/Least.antt =====
-- Python's `min` with a key: the first entry whose key none comes before; entries without a key
-- do not take part.
use mathlib.Core.List.{List, [], ◌∷◌}
use mathlib.Core.Bool.{Bool, false}
use mathlib.Core.Option.{Option, none, some}
use mathlib.Core.Path.{◌≡◌, refl, sym, ap, ◌∙◌, subst}
use mathlib.Core.Logic.{inl, inr}
use native.Mathlib.Omega.{arith}
use llmbroker.Base.Tests.{if◌then◌else◌, Bool-cases, if_ind}
use llmbroker.Base.Lists.{All}
use llmbroker.Base.Sorting.{IsOrder}

pub some_inj {ℓ} : {A : Type ℓ} {x y : A} → some x ≡ some y → x ≡ y
some_inj e = cc

module _ {ℓ κ} {A : Type ℓ} {K : Type κ} (lt : K → K → Bool) (key : A → Option K) where
  -- The best so far and its key, against one entry more.
  unfoldable pub better : A → Option K → Option (A × K) → Option (A × K)
  better x none best = best
  better x (some k) none = some (x, k)
  better x (some k) (some (y, l)) = if lt k l then some (x, k) else some (y, l)

  unfoldable pub least_from : Option (A × K) → List A → Option (A × K)
  least_from best [] = best
  least_from best (x ∷ xs) = least_from (better x (key x) best) xs

  better-keeps {ι} :
      (P : A → Type ι) (x : A) (k : Option K) (best : Option (A × K))
      → P x
      → ((c : A × K) → best ≡ some c → P c.0)
      → (c : A × K) → better x k best ≡ some c
      → P c.0
  unfolding better
  better-keeps P x none best p h c e = h c e
  better-keeps P x (some k) none p h c e = subst (λ (d : A × K). P d.0) (some_inj e) p
  better-keeps P x (some k) (some b) p h c e =
      if_ind (λ o. o ≡ some c → P c.0) (lt k b.1)
        (λ e'. subst (λ (d : A × K). P d.0) (some_inj e') p) (h c) e

  -- The entry has a key, and the key is not before that of the best.
  abbrev pub NotBefore : K → A → Type κ
  NotBefore l x = (k : K) → key x ≡ some k → lt k l ≡ false

  -- What a best stands for: its own key, and no better one among the entries seen.
  abbrev pub IsBest : (A × K) → Type κ
  IsBest (y, l) = key y ≡ some l

  module _ (o : IsOrder lt) where
    irrefl : (k : K) → lt k k ≡ false
    irrefl k = ground (arith, o.asym k k)

    through : (l k m : K) → lt l k ≡ false → lt k m ≡ false → lt l m ≡ false
    through l k m h g = ground (arith, o.cotrans l k m)

    no_key : (x : A) (m : K) → key x ≡ none → NotBefore m x
    no_key x m e k e' = absurd cc

    own_key : (x : A) (k m : K) → key x ≡ some k → lt k m ≡ false → NotBefore m x
    own_key x k m e h k' e' = ground (arith, h)

    -- One entry more leaves a best no later than the one before, and than the entry.
    abbrev Bettered : A → K → Option (A × K) → Type (ℓ ⊔ κ)
    Bettered x l r =
        (b : A × K) × (r ≡ some b)
        × IsBest b
        × (lt l b.1 ≡ false)
        × ((m : K) → lt b.1 m ≡ false → NotBefore m x)

    better-Bettered :
        (x : A) (k : Option K) (b : A × K)
        → key x ≡ k
        → IsBest b
        → Bettered x b.1 (better x k (some b))
    unfolding better
    better-Bettered x none b e h = (b, refl, h, irrefl b.1, λ m g. no_key x m e)
    better-Bettered x (some k) b e h = elim (Bool-cases (lt k b.1)) [
      | inl c ↦ rw c ((x, k), refl, e, o.asym k b.1 c, λ m. own_key x k m e)
      | inr c ↦ rw c (b, refl, h, irrefl b.1, λ m g. own_key x k m e (through k b.1 m c g))
    ]

    abbrev pub Best : K → Option (A × K) → List A → Type (ℓ ⊔ κ)
    Best l r xs =
        (b : A × K) × (r ≡ some b) × IsBest b × (lt l b.1 ≡ false) × All (NotBefore b.1) xs

    least_from-Best : (b : A × K) (xs : List A) → IsBest b → Best b.1 (least_from (some b) xs) xs
    unfolding least_from
    least_from-Best b [] h = (b, refl, h, irrefl b.1, tt)
    least_from-Best b (x ∷ xs) h =
        let (b', same, best, low, own) = better-Bettered x (key x) b refl h in
        let (b'', same', best', low', rest) = least_from-Best b' xs best in
        (
          b'',
          ap (λ o. least_from o xs) same ∙ same',
          best',
          through b.1 b'.1 b''.1 low low',
          (own b''.1 low', rest),
        )

    abbrev Least : List A → A × K → Type κ
    Least xs b = IsBest b × All (NotBefore b.1) xs

    first-Least :
        (x : A) (k : Option K) (xs : List A) (b : A × K)
        → key x ≡ k
        → (least_from none xs ≡ some b → Least xs b)
        → least_from (better x k none) xs ≡ some b
        → Least (x ∷ xs) b
    unfolding better
    first-Least x none xs b e ih h = let (best, rest) = ih h in (best, (no_key x b.1 e, rest))
    first-Least x (some k) xs b e ih h =
        let (b', same, best, low, rest) = least_from-Best (x, k) xs e in
        subst (Least (x ∷ xs)) (some_inj (sym same ∙ h)) (best, (own_key x k b'.1 e low, rest))

    -- The entry that is found has the least key of all.
    pub least-IsLeast :
        (xs : List A) (b : A × K) → least_from none xs ≡ some b → IsBest b × All (NotBefore b.1) xs
    unfolding least_from
    least-IsLeast [] b e = absurd cc
    least-IsLeast (x ∷ xs) b e = first-Least x (key x) xs b refl (least-IsLeast xs b) e

  -- The entry that is found has what all entries have.
  pub least-All {ι} :
      (P : A → Type ι) (xs : List A) (best : Option (A × K)) (b : A × K)
      → ((c : A × K) → best ≡ some c → P c.0)
      → All P xs
      → least_from best xs ≡ some b
      → P b.0
  unfolding least_from
  least-All P [] best b h ps e = h b e
  least-All P (x ∷ xs) best b h (p, ps) e =
      least-All P xs (better x (key x) best) b (better-keeps P x (key x) best p h) ps e
