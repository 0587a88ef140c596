-- ===== src/Catalog/Seeding/Preserves.antt =====
-- Seeding adds keys and changes none.
use text.Mathlib.Text.{◌==◌ as str_eq}
use llmbroker.Base.{
  String, ◌≡◌, refl, subst, ◌∙◌, Bool, true, false, ◌||◌, Option, none, some, List, [], ◌∷◌, arith,
  Dict, insert, lookup-insert, lookup-insert_self, if◌then◌else◌, if_ind, is_some, any, eq_iff,
  eq_refl, Bool-cases, Option-cases, inl, inr,
}
use llmbroker.Models.{LlmConfig}
use llmbroker.KeyRing.{
  value, missing, unreadable, resolve_ref, or_unset, found, fails, is_empty_text,
}
use llmbroker.Catalog.Seeding.{answer_of, resolved_in, held_in, seed_one, seed_secrets}

module _ (environment : String → Option String) (is_blank : String → Bool) where
  abbrev pub resolved : Dict String → String → Option String
  resolved held ref = resolved_in is_blank (held_in held) ref

  -- A key that the environment resolves is resolved by a backend that has taken it.
  resolved-insert_self :
      (ref v : String) (held : Dict String)
      → resolved_in is_blank environment ref ≡ some v
      → resolved (insert ref v held) ref ≡ some v
  unfolding resolve_ref
  resolved-insert_self ref v held e = elim (Bool-cases (is_empty_text ref)) [
    | inl blank ↦ absurd (ground (arith, blank))
    | inr named ↦
        rw (lookup-insert_self ref v held, named) (not_blank (environment ref) (rw named at e))
  ]
    where
      not_blank :
          (o : Option String)
          → or_unset (elim (answer_of o) [
            | value w ↦ found (if is_blank w then none else some w)
            | missing ↦ found none
            | unreadable ↦ fails
          ])
            ≡ some v
          → (if is_blank v then none else some v) ≡ some v
      not_blank (some w) h = elim (Bool-cases (is_blank w)) [
        | inl b ↦ absurd (ground (arith, b))
        | inr b ↦ ground (arith, b)
      ]
      not_blank none h = cc

  resolved-insert_ne :
      (j ref v : String) (held : Dict String)
      → str_eq j ref ≡ false
      → resolved (insert j v held) ref ≡ resolved held ref
  unfolding resolve_ref
  resolved-insert_ne j ref v held h = rw (lookup-insert j ref v held, h) refl

  -- What a key resolves to after its entries have been seeded, or where none of them is its own.
  abbrev pub seeded : Bool → Dict String → String → Option String
  seeded is_wanted held ref =
      if is_some (resolved held ref)
      then resolved held ref
      else if is_wanted
      then resolved_in is_blank environment ref
      else none

  seeded-false : (held : Dict String) (ref : String) → resolved held ref ≡ seeded false held ref
  seeded-false held ref = elim (Option-cases (resolved held ref)) [
    | inl e ↦ rw e refl
    | inr e ↦ rw (e.1) refl
  ]

  seed_one-own :
      (cfg : LlmConfig) (held : Dict String)
      → resolved (seed_one environment is_blank cfg held) cfg.api_key_ref
        ≡ seeded true held cfg.api_key_ref
  unfolding seed_one
  seed_one-own cfg held = elim (Option-cases (resolved held cfg.api_key_ref)) [
    | inr e ↦ rw (e.1) (e.1)
    | inl e ↦ elim (Option-cases (resolved_in is_blank environment cfg.api_key_ref)) [
      | inl n ↦ rw (e, n) e
      | inr w ↦ rw (e, w.1) (resolved-insert_self cfg.api_key_ref w.0 held (w.1))
    ]
  ]

  seed_one-other :
      (cfg : LlmConfig) (held : Dict String) (ref : String)
      → str_eq cfg.api_key_ref ref ≡ false
      → resolved (seed_one environment is_blank cfg held) ref ≡ resolved held ref
  unfolding seed_one
  seed_one-other cfg held ref h =
      if_ind (λ (d : Dict String). resolved d ref ≡ resolved held ref) _ refl
        (put_in (resolved_in is_blank environment cfg.api_key_ref))
    where
      put_in :
          (o : Option String)
          → resolved (elim o [ none ↦ held | some v ↦ insert cfg.api_key_ref v held ]) ref
            ≡ resolved held ref
      put_in none = refl
      put_in (some v) = resolved-insert_ne cfg.api_key_ref ref v held h

  resolved-seed_one :
      (cfg : LlmConfig) (held : Dict String) (ref : String)
      → resolved (seed_one environment is_blank cfg held) ref
        ≡ seeded (str_eq cfg.api_key_ref ref) held ref
  resolved-seed_one cfg held ref = elim (Bool-cases (str_eq cfg.api_key_ref ref)) [
    | inl hit ↦
        subst Seeds ((eq_iff cfg.api_key_ref ref).0 hit)
          (rw (eq_refl cfg.api_key_ref) (seed_one-own cfg held))
    | inr miss ↦ rw miss (seed_one-other cfg held ref miss ∙ seeded-false held ref)
  ]
    where
      Seeds : String → Type 0
      Seeds r =
          resolved (seed_one environment is_blank cfg held) r
          ≡ seeded (str_eq cfg.api_key_ref r) held r

  -- Seeding preserves and completes: a ref that the backend resolves keeps its value, a ref of one of
  -- the entries that it does not resolve takes what the environment resolves it to, and any other ref
  -- stays unresolved.
  pub seed_secrets-seeded :
      (configs : List LlmConfig) (held : Dict String) (ref : String)
      → resolved (seed_secrets environment is_blank configs held) ref
        ≡ seeded (any (λ c. str_eq c.api_key_ref ref) configs) held ref
  unfolding seed_secrets
  seed_secrets-seeded [] held ref = seeded-false held ref
  seed_secrets-seeded (cfg ∷ configs) held ref =
      seed_secrets-seeded configs (seed_one environment is_blank cfg held) ref
      ∙ rw (resolved-seed_one cfg held ref) (
          twice (resolved held ref) (resolved_in is_blank environment ref)
            (str_eq cfg.api_key_ref ref) (any (λ c. str_eq c.api_key_ref ref) configs))
    where
      twice :
          (o offered : Option String) (b rest : Bool)
          → (if is_some (if is_some o then o else if b then offered else none)
              then if is_some o then o else if b then offered else none
              else if rest
              then offered
              else none)
            ≡ (if is_some o then o else if b || rest then offered else none)
      twice (some v) offered b rest = refl
      twice none offered false rest = refl
      twice none (some w) true rest = refl
      twice none none true false = refl
      twice none none true true = refl
