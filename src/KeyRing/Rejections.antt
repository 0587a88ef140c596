-- ===== src/KeyRing/Rejections.antt =====
-- What becomes of a key that the provider has rejected.
use text.Mathlib.Text.{◌==◌ as str_eq}
use llmbroker.Base.{
  String, ◌≡◌, refl, sym, ◌∙◌, ap, subst, ◌≢◌, true, false, Option, none, some, List, [], ◌∷◌,
  arith, Dict, lookup, has_key, no_repeats, keys, mem-keys, is_some, if◌then◌else◌, mem, eq_iff,
  lookup-insert, Bool-cases, inl, inr,
}
use llmbroker.KeyRing.{
  Secrets, Ring, is_empty_text, read, own_ref, Own, answered, asks_shared, resolve_own, resolve,
  forget, still_rejected, cleared, refresh,
}
use llmbroker.KeyRing.Holds.{
  IsSettled, resolve_own-IsSettled, own_absent, own_rejected, own_read, resolve_answered,
  resolve_shared,
}

module _ (s' : Secrets) (ref : String) where
  forget_held :
      (ring : Ring) (shared : List Ring) (v : String)
      → lookup ref ring.values ≡ some v
      → (resolve s' (forget (ring ∷ shared) ref) ref).0 ≡ none
  unfolding forget has_key
  forget_held ring shared v e =
      rw (e, forget)
        (ap (λ r. r.0)
          (resolve_answered s' _ _ shared ref none (
            own_rejected s' _ ref
              (ground (arith, eq_iff ref ref, lookup-insert ref ref v ring.rejected)))))

  forget_shared :
      (ring : Ring) (shared : List Ring)
      → IsSettled ref (asks_shared ring)
      → (resolve s' (forget shared ref) ref).0 ≡ none
      → (resolve s' (forget (ring ∷ shared) ref) ref).0 ≡ none
  unfolding forget
  forget_shared ring shared (a, b, c) ih =
      rw (b, forget)
        (ap (λ r. r.0)
            (resolve_shared s' ring ring (forget shared ref) ref (own_absent s' ring ref a b c))
          ∙ ih)

-- Where a chain has just handed out a key and the caller gives it up as rejected, the chain that this
-- leaves, asked for the same ref, answers with no key, whatever the backend holds by then.
pub forget-resolve :
    (s s' : Secrets) (chain : List Ring) (ref : String)
    → is_some (resolve s chain ref).0 ≡ true
    → (resolve s' (forget (resolve s chain ref).1 ref) ref).0 ≡ none
unfolding resolve
forget-resolve s s' [] ref = λ h. cc
forget-resolve s s' (ring ∷ shared) ref =
    go (resolve_own s ring ref) refl (resolve_own-IsSettled s ring ref)
      (forget-resolve s s' shared ref)
  where
    Goal : Option String × List Ring → Type 0
    Goal r = is_some r.0 ≡ true → (resolve s' (forget r.1 ref) ref).0 ≡ none

    go :
        (o : Own)
        → resolve_own s ring ref ≡ o
        → IsSettled ref o
        → Goal (resolve s shared ref)
        → Goal (resolve s (ring ∷ shared) ref)
    go (answered none ring') e h ih =
        subst Goal (sym (resolve_answered s ring ring' shared ref none e)) (λ x. cc)
    go (answered (some v) ring') e h ih =
        subst Goal (sym (resolve_answered s ring ring' shared ref (some v) e))
          (λ _. forget_held s' ref ring' shared v h.1)
    go (asks_shared ring') e h ih =
        subst Goal (sym (resolve_shared s ring ring' shared ref e))
          (λ x. forget_shared s' ref ring' _ h (ih x))

module _ (s : Secrets) (ring : Ring) (ref : String) where
  still_rejected-same :
      (d : Dict String) (v : String)
      → lookup ref d ≡ some v
      → read s ring (own_ref ring ref) ≡ some v
      → has_key ref (still_rejected s ring d) ≡ true
  unfolding still_rejected lookup has_key
  still_rejected-same [] v e r = cc
  still_rejected-same ((k, w) ∷ d) v e r = elim (Bool-cases (str_eq k ref)) [
    | inl hit ↦
        let same = (eq_iff k ref).0 hit in
        let r' : read s ring (own_ref ring k) ≡ some v = (rw same r) in
        ground (arith, r', eq_iff k ref, eq_iff v w)
    | inr miss ↦ ground (arith, still_rejected-same d v (ground arith) r)
  ]

  still_rejected-absent :
      (d : Dict String) → has_key ref d ≡ false → has_key ref (still_rejected s ring d) ≡ false
  unfolding still_rejected lookup has_key
  still_rejected-absent [] h = refl
  still_rejected-absent ((k, w) ∷ d) h = ground (arith, still_rejected-absent d)

  still_rejected-replaced :
      (d : Dict String) (v w : String)
      → no_repeats (keys d) ≡ true
      → lookup ref d ≡ some v
      → read s ring (own_ref ring ref) ≡ some w
      → w ≢ v
      → has_key ref (still_rejected s ring d) ≡ false
  unfolding still_rejected lookup has_key
  still_rejected-replaced [] v w u e r other = refl
  still_rejected-replaced ((k, x) ∷ d) v w u e r other = elim (Bool-cases (str_eq k ref)) [
    | inl hit ↦
        let same = (eq_iff k ref).0 hit in
        let r' : read s ring (own_ref ring k) ≡ some w = (rw same r) in
        let gone : mem ref (keys d) ≡ false = (rw (← same) (ground arith)) in
        ground (arith, r', eq_iff w x, mem-keys ref d, still_rejected-absent d)
    | inr miss ↦ ground (arith, still_rejected-replaced d v w (ground arith) (ground arith) r other)
  ]

-- A rebuild of a ring that has a key rejected: where the backend still holds that value, the ring
-- answers with no key, and asks no shared ring for one; where it holds another value, that one is
-- handed out.
pub refresh-resolve :
    (s : Secrets) (known : Option (List String)) (ring : Ring) (shared : List Ring)
    (ref v w : String)
    → no_repeats (keys ring.rejected) ≡ true
    → is_empty_text ref ≡ false
    → lookup ref ring.rejected ≡ some v
    → read s (cleared known ring) (own_ref ring ref) ≡ some w
    → (resolve s (refresh s known ring ∷ shared) ref).0 ≡ (if str_eq w v then none else some w)
unfolding refresh read own_ref lookup
refresh-resolve s known ring shared ref v w u named e r = elim (Bool-cases (str_eq w v)) [
  | inl same ↦ rw same (
      ap (λ r. r.0)
        (resolve_answered s fresh fresh shared ref none (
          own_rejected s fresh ref (
            still_rejected-same s (cleared known ring) ref ring.rejected v e
              (r ∙ ap some ((eq_iff w v).0 same))))))
  | inr other ↦ rw other (
      ap (λ r. r.0)
        (resolve_answered s fresh _ shared ref (some w) (
          own_read s fresh ref w
            (still_rejected-replaced s (cleared known ring) ref ring.rejected v w u e r
              (λ same. ground (arith, same, eq_iff w v)))
            refl (rw named) r)))
]
  where
    fresh : Ring
    fresh = refresh s known ring
