-- ===== src/Store/Tables/Maps.antt =====
-- What the tables hold after each operation, key by key.
use text.Mathlib.Text.{◌==◌ as str_eq}
use llmbroker.Base.{
  String, ◌≡◌, refl, sym, ap, ◌∙◌, Bool, true, false, not, ◌&&◌, ◌||◌, Option, none, some, List, [],
  ◌∷◌, map, arith, if◌then◌else◌, if_ind, mem, Dict, lookup, insert, remove, has_key, keys,
  lookup-insert, lookup-remove, mem-keys, eq_iff, is_some, Bool-cases, inl, inr, ℤ,
}
use llmbroker.Base.Least.{some_inj}
use llmbroker.Models.{Double, LlmConfig}
use llmbroker.Optimizer.Floats.{FloatOps}
use llmbroker.Store.Tables.{
  seed_new, seed_disabled, seed_default, seed_changes, check_aliases, Stored, stored_of,
  drop_absent, write_all, mirror, mirror_checked,
}

not_some {ℓ} : {A : Type ℓ} {x : Option A} → is_some x ≡ false → x ≡ none
not_some {x = none} h = refl
not_some {x = some a} h = absurd cc

-- What a seed leaves at a name: the verdict that stands, or that it is not disabled where the name
-- is seeded.
abbrev pub seeded : Option Bool → Bool → Option Bool
seeded (some flag) asked = some flag
seeded none asked = if asked then some false else none

seeded-twice : (x : Option Bool) (a b : Bool) → seeded (seeded x a) b ≡ seeded x (a || b)
seeded-twice (some flag) a b = refl
seeded-twice none true b = refl
seeded-twice none false b = refl

seeded-none : (x : Option Bool) → seeded x false ≡ x
seeded-none (some flag) = refl
seeded-none none = refl

seeded-known : (x : Option Bool) (a : Bool) → is_some x ≡ true → seeded x a ≡ x
seeded-known (some flag) a h = refl
seeded-known none a h = absurd cc

lookup-default :
    (k n : String) (d : Dict Bool)
    → lookup k (if has_key n d then d else insert n false d) ≡ seeded (lookup k d) (str_eq n k)
unfolding has_key
lookup-default k n d = elim (Bool-cases (str_eq n k)) [
  | inl e ↦
      let same : n ≡ k = ground (arith, eq_iff n k, e) in
      elim (Bool-cases (is_some (lookup n d))) [
        | inl h ↦
            rw (h, e)
              (sym (seeded-known (lookup k d) true (ap (λ j. is_some (lookup j d)) (sym same) ∙ h)))
        | inr h ↦
            let blank : lookup k d ≡ none =
              not_some (ap (λ j. is_some (lookup j d)) (sym same) ∙ h) in
            rw (h, lookup-insert n k false d, e, blank) refl
      ]
  | inr e ↦
      if_ind (λ d'. lookup k d' ≡ seeded (lookup k d) (str_eq n k)) (is_some (lookup n d))
        (rw e (sym (seeded-none (lookup k d))))
        (rw (lookup-insert n k false d, e) (sym (seeded-none (lookup k d))))
]

lookup-seed_default :
    (k : String) (names : List String) (d : Dict Bool)
    → lookup k (seed_default names d) ≡ seeded (lookup k d) (mem k names)
unfolding seed_default
lookup-seed_default k [] d = sym (seeded-none (lookup k d))
lookup-seed_default k (n ∷ names) d =
    lookup-seed_default k names (if has_key n d then d else insert n false d)
    ∙ ap (λ x. seeded x (mem k names)) (lookup-default k n d)
    ∙ seeded-twice (lookup k d) (str_eq n k) (mem k names)

lookup-seed_new :
    (k : String) (existing names : List String) (d : Dict Bool)
    → lookup k (seed_new existing names d)
      ≡ (if mem k names && not (mem k existing) then some false else lookup k d)
unfolding seed_new
lookup-seed_new k existing [] d = refl
lookup-seed_new k existing (n ∷ names) d =
    lookup-seed_new k existing names (if mem n existing then d else insert n false d)
    ∙ ground (arith, lookup-insert n k false d, eq_iff n k)

lookup-seed_disabled :
    (k : String) (names : List String) (d : Dict Bool)
    → lookup k (seed_disabled names d) ≡ seeded (lookup k d) (mem k names)
unfolding seed_disabled
lookup-seed_disabled k names d =
    lookup-seed_new k (keys d) names d
    ∙ ap (λ held. if mem k names && not held then some false else lookup k d) (mem-keys k d)
    ∙ asked (lookup k d) (mem k names)
  where
    asked :
        (x : Option Bool) (a : Bool) → (if a && not (is_some x) then some false else x) ≡ seeded x a
    asked (some flag) a = ground arith
    asked none a = ground arith

-- Seeding never touches a verdict that stands, and adds the names it is given as not disabled; and
-- the stores that read what exists first leave each name as the stores that look it up each time do.
pub seed_disabled-Means :
    (k : String) (names : List String) (d : Dict Bool)
    → (lookup k (seed_disabled names d) ≡ seeded (lookup k d) (mem k names))
      × (lookup k (seed_default names d) ≡ lookup k (seed_disabled names d))
seed_disabled-Means k names d = (
  lookup-seed_disabled k names d,
  lookup-seed_default k names d ∙ sym (lookup-seed_disabled k names d),
)

-- A map that needs no write is as the seed would leave it.
seed_changes-none :
    (names : List String) (d : Dict Bool) → seed_changes names d ≡ false → seed_default names d ≡ d
unfolding seed_changes seed_default
seed_changes-none [] d h = refl
seed_changes-none (n ∷ names) d h =
    let known : has_key n d ≡ true = ground (arith, h) in
    let rest : seed_changes names d ≡ false = ground (arith, h) in
    rw known (seed_changes-none names d rest)

module _ (fl : FloatOps) (float_of : ℤ → Double) where
  -- The row that a list of configs writes last under a name.
  abbrev pub written : String → List LlmConfig → Option Stored → Option Stored
  written k [] before = before
  written k (c ∷ configs) before =
      written k configs (if str_eq c.name k then some (stored_of fl float_of c) else before)

  lookup-write_all :
      (k : String) (configs : List LlmConfig) (t : Dict Stored)
      → lookup k (write_all fl float_of configs t) ≡ written k configs (lookup k t)
  unfolding write_all
  lookup-write_all k [] t = refl
  lookup-write_all k (c ∷ configs) t =
      lookup-write_all k configs (insert c.name (stored_of fl float_of c) t)
      ∙ ap (written k configs) (lookup-insert c.name k (stored_of fl float_of c) t)

  lookup-drop_absent :
      (k : String) (names existing : List String) (t : Dict Stored)
      → lookup k (drop_absent names existing t)
        ≡ (if mem k existing && not (mem k names) then none else lookup k t)
  unfolding drop_absent
  lookup-drop_absent k names [] t = refl
  lookup-drop_absent k names (j ∷ existing) t =
      lookup-drop_absent k names existing (if mem j names then t else remove j t)
      ∙ ground (arith, lookup-remove j k t, eq_iff j k)

  written-names :
      (k : String) (configs : List LlmConfig) (x y : Option Stored)
      → mem k (map (λ c. c.name) configs) ≡ true
      → written k configs x ≡ written k configs y
  written-names k [] x y h = absurd cc
  written-names k (c ∷ configs) x y h = elim (Bool-cases (str_eq c.name k)) [
    | inl e ↦ rw e refl
    | inr e ↦ rw e (written-names k configs x y (ground (arith, h, e)))
  ]

  lookup-mirrored :
      (k : String) (configs : List LlmConfig) (t : Dict Stored)
      → lookup k
          (write_all fl float_of configs (drop_absent (map (λ c. c.name) configs) (keys t) t))
        ≡ written k configs none
  lookup-mirrored k configs t =
      lookup-write_all k configs (drop_absent names (keys t) t)
      ∙ ap (written k configs) (lookup-drop_absent k names (keys t) t)
      ∙ elim (Bool-cases (mem k names)) [
        | inl h ↦ written-names k configs _ none h
        | inr h ↦ ap (written k configs) (gone h)
      ]
    where
      names : List String
      names = map (λ c. c.name) configs

      absent : (x : Option Stored) → (if is_some x && true then none else x) ≡ none
      absent none = refl
      absent (some r) = refl

      gone :
          mem k names ≡ false
          → (if mem k (keys t) && not (mem k names) then none else lookup k t) ≡ none
      gone h = rw (h, mem-keys k t) (absent (lookup k t))

  -- The mirror is total: a registry that it writes holds, at every name, the row of the last of the
  -- configs of that name, and nothing at a name that no config has, whatever it held before.
  pub mirror-Means :
      (k : String) (configs : List LlmConfig) (t t' : Dict Stored)
      → mirror fl float_of configs t ≡ some t'
      → lookup k t' ≡ written k configs none
  unfolding mirror
  mirror-Means k configs t t' = go (check_aliases configs)
    where
      go :
          (clash : Option String)
          → mirror_checked fl float_of clash configs t ≡ some t'
          → lookup k t' ≡ written k configs none
      go (some alias) h = absurd cc
      go none h = ap (lookup k) (sym (some_inj h)) ∙ lookup-mirrored k configs t
