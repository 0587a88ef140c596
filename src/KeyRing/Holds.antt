-- ===== src/KeyRing/Holds.antt =====
-- How long a ring holds what it read, and what a rejection does.
use llmbroker.Base.{
  String, ◌≡◌, refl, sym, ◌∙◌, ap, subst, true, false, ◌||◌, Option, none, some, List, [], ◌∷◌,
  arith, lookup, insert, has_key, mem, eq_iff, lookup-insert, Bool-cases, Option-cases, inl, inr,
}
use llmbroker.KeyRing.{
  Secrets, Ring, is_empty_text, read, own_ref, Own, answered, asks_shared, resolve_own, resolve,
}

-- What is so of the own ring once it has been asked.
abbrev pub IsSettled : String → Own → Type 0
IsSettled ref (answered none ring) = has_key ref ring.rejected ≡ true
IsSettled ref (answered (some v) ring) =
    (has_key ref ring.rejected ≡ false) × (lookup ref ring.values ≡ some v)
IsSettled ref (asks_shared ring) =
    (has_key ref ring.rejected ≡ false)
    × (lookup ref ring.values ≡ none)
    × ((is_empty_text ref || mem ref ring.absent) ≡ true)

abbrev ring_of : Own → Ring
ring_of (answered answer ring) = ring
ring_of (asks_shared ring) = ring

module _ (s : Secrets) (ring : Ring) (ref : String) where
  pub own_rejected : has_key ref ring.rejected ≡ true → resolve_own s ring ref ≡ answered none ring
  unfolding resolve_own
  own_rejected a = rw a

  pub own_held :
      (v : String)
      → has_key ref ring.rejected ≡ false
      → lookup ref ring.values ≡ some v
      → resolve_own s ring ref ≡ answered (some v) ring
  unfolding resolve_own
  own_held v a b = rw (a, b)

  pub own_absent :
      has_key ref ring.rejected ≡ false
      → lookup ref ring.values ≡ none
      → (is_empty_text ref || mem ref ring.absent) ≡ true
      → resolve_own s ring ref ≡ asks_shared ring
  unfolding resolve_own
  own_absent a b c = rw (a, b, c)

  pub own_read :
      (v : String)
      → has_key ref ring.rejected ≡ false
      → lookup ref ring.values ≡ none
      → (is_empty_text ref || mem ref ring.absent) ≡ false
      → read s ring (own_ref ring ref) ≡ some v
      → resolve_own s ring ref
        ≡ answered (some v) (record ring { values = insert ref v ring.values })
  unfolding resolve_own
  own_read v a b c d = rw (a, b, c, d)

  pub own_unset :
      has_key ref ring.rejected ≡ false
      → lookup ref ring.values ≡ none
      → (is_empty_text ref || mem ref ring.absent) ≡ false
      → read s ring (own_ref ring ref) ≡ none
      → resolve_own s ring ref ≡ asks_shared (record ring { absent = ref ∷ ring.absent })
  unfolding resolve_own
  own_unset a b c d = rw (a, b, c, d)

pub resolve_own-IsSettled :
    (s : Secrets) (ring : Ring) (ref : String) → IsSettled ref (resolve_own s ring ref)
resolve_own-IsSettled s ring ref = elim (Bool-cases (has_key ref ring.rejected)) [
  | inl a ↦ subst (IsSettled ref) (sym (own_rejected s ring ref a)) a
  | inr a ↦ elim (Option-cases (lookup ref ring.values)) [
    | inr (v, b) ↦ subst (IsSettled ref) (sym (own_held s ring ref v a b)) (a, b)
    | inl b ↦ elim (Bool-cases (is_empty_text ref || mem ref ring.absent)) [
      | inl c ↦ subst (IsSettled ref) (sym (own_absent s ring ref a b c)) (a, b, c)
      | inr c ↦ elim (Option-cases (read s ring (own_ref ring ref))) [
        | inl d ↦
            subst (IsSettled ref) (sym (own_unset s ring ref a b c d))
              (a, b, ground (arith, eq_iff ref ref))
        | inr (v, d) ↦
            subst (IsSettled ref) (sym (own_read s ring ref v a b c d))
              (a, ground (arith, eq_iff ref ref, lookup-insert ref ref v ring.values))
      ]
    ]
  ]
]

-- What the own ring answered it answers again, whatever the backend holds by then.
pub resolve_own_again :
    (s' : Secrets) (ref : String) (o : Own) → IsSettled ref o → resolve_own s' (ring_of o) ref ≡ o
resolve_own_again s' ref (answered none ring) a = own_rejected s' ring ref a
resolve_own_again s' ref (answered (some v) ring) (a, b) = own_held s' ring ref v a b
resolve_own_again s' ref (asks_shared ring) (a, b, c) = own_absent s' ring ref a b c

-- One step of `resolve`.
pub resolve_answered :
    (s : Secrets) (ring ring' : Ring) (shared : List Ring) (ref : String) (answer : Option String)
    → resolve_own s ring ref ≡ answered answer ring'
    → resolve s (ring ∷ shared) ref ≡ (answer, ring' ∷ shared)
unfolding resolve
resolve_answered s ring ring' shared ref answer e = rw (e, resolve)

pub resolve_shared :
    (s : Secrets) (ring ring' : Ring) (shared : List Ring) (ref : String)
    → resolve_own s ring ref ≡ asks_shared ring'
    → resolve s (ring ∷ shared) ref ≡ ((resolve s shared ref).0, ring' ∷ (resolve s shared ref).1)
unfolding resolve
resolve_shared s ring ring' shared ref e = rw (e, resolve)

-- A chain holds what it has answered: asked again, with whatever the backend then holds, it gives
-- the same answer and is left as it is.
pub resolve_again :
    (s s' : Secrets) (chain : List Ring) (ref : String)
    → resolve s' (resolve s chain ref).1 ref ≡ resolve s chain ref
unfolding resolve
resolve_again s s' [] ref = refl
resolve_again s s' (ring ∷ shared) ref =
    go (resolve_own s ring ref) refl (resolve_own-IsSettled s ring ref)
      (resolve_again s s' shared ref)
  where
    Goal : Option String × List Ring → Type 0
    Goal r = resolve s' r.1 ref ≡ r

    go :
        (o : Own)
        → resolve_own s ring ref ≡ o
        → IsSettled ref o
        → Goal (resolve s shared ref)
        → Goal (resolve s (ring ∷ shared) ref)
    go (answered answer ring') e h ih =
        subst Goal (sym (resolve_answered s ring ring' shared ref answer e)) (
          resolve_answered s' ring' ring' shared ref answer
            (resolve_own_again s' ref (answered answer ring') h))
    go (asks_shared ring') e h ih = subst Goal (sym (resolve_shared s ring ring' shared ref e)) (
        resolve_shared s' ring' ring' _ ref (resolve_own_again s' ref (asks_shared ring') h)
        ∙ ap (λ (r : Option String × List Ring). (r.0, ring' ∷ r.1)) ih)
