-- ===== src/Aliases/Served.antt =====
-- Which declared aliases are left without an entry.
use text.Mathlib.Text.{◌==◌ as str_eq}
use llmbroker.Base.{
  String, ◌≡◌, refl, sym, subst, ap, Bool, true, false, not, ◌&&◌, ◌||◌, Option, none, some, List,
  [], ◌∷◌, arith, Dict, lookup, lookup-remove, remove, is_some, any, eq_iff, Bool-cases, inl, inr,
}
use llmbroker.Models.{Double, LlmConfig}
use llmbroker.Curated.{CuratedModel}
use llmbroker.Aliases.{
  Declared, entry, follows, Unresolved, DeclaredModels, Resolution, serving, unresolved_reason,
  before_rest, target_config, config_of, each_declaration,
}

abbrev pub asks_for : String → Declared → Bool
asks_for alias (entry cfg) = false
asks_for alias (follows a) = str_eq a alias

-- One declaration more: `lost` is whether an alias has no entry, and `asked` whether a later
-- declaration asks for it.
left_out :
    (a alias : String) (target served : Option LlmConfig) (reason : Unresolved) (r : Resolution)
    (asked lost : Bool)
    → is_some (lookup alias r.unresolved) ≡ (asked && lost)
    → (str_eq a alias ≡ true → lost ≡ (not (is_some target) && not (is_some served)))
    → is_some (lookup alias (before_rest (follows a) target served reason r).unresolved)
      ≡ ((str_eq a alias || asked) && lost)
unfolding before_rest lookup
left_out a alias (some cfg) served reason r asked lost ih same =
    elim (Bool-cases (str_eq a alias)) [
      | inl hit ↦ let found : lost ≡ false = same hit in ground (arith, ih, found)
      | inr miss ↦ ground (arith, ih, miss)
    ]
left_out a alias none (some cfg) reason r asked lost ih same = elim (Bool-cases (str_eq a alias)) [
  | inl hit ↦ let found : lost ≡ false = same hit in ground (arith, ih, found)
  | inr miss ↦ ground (arith, ih, miss)
]
left_out a alias none none reason r asked lost ih same = elim (Bool-cases (str_eq a alias)) [
  | inl hit ↦ let gone : lost ≡ true = same hit in put_in hit gone
  | inr miss ↦ pass_by miss
]
  where
    put_in :
        str_eq a alias ≡ true
        → lost ≡ true
        → is_some (lookup alias ((a, reason) ∷ remove a r.unresolved))
          ≡ ((str_eq a alias || asked) && lost)
    put_in hit gone = rw hit (sym gone)

    pass_by :
        str_eq a alias ≡ false
        → is_some (lookup alias ((a, reason) ∷ remove a r.unresolved))
          ≡ ((str_eq a alias || asked) && lost)
    pass_by miss = rw miss (rw (lookup-remove a alias r.unresolved) (rw miss ih))

module _ (default_weight : Double) (targets : Dict CuratedModel) (detail : Option String)
    (previous : Option DeclaredModels) where
  -- Neither the catalog nor the last resolution has an entry for this alias.
  abbrev pub is_lost : String → Bool
  is_lost alias = not (is_some (lookup alias targets)) && not (is_some (serving previous alias))

  is_some-config_of :
      (a : String) (o : Option CuratedModel) → is_some o ≡ is_some (config_of default_weight a o)
  is_some-config_of a none = refl
  is_some-config_of a (some row) = refl

  -- A declared alias is left without an entry exactly where neither the catalog carries it nor the
  -- last resolution served it: what serves an alias is never given up to a catalog that has dropped
  -- it.
  pub each_declaration-lost :
      (declared : List Declared) (alias : String)
      → is_some (
          lookup alias
            (each_declaration default_weight declared targets detail previous).unresolved)
        ≡ (any (asks_for alias) declared && is_lost alias)
  unfolding each_declaration before_rest lookup
  each_declaration-lost [] alias = refl
  each_declaration-lost (entry cfg ∷ declared) alias = each_declaration-lost declared alias
  each_declaration-lost (follows a ∷ declared) alias =
      left_out a alias (target_config default_weight targets a) (serving previous a)
        (unresolved_reason targets detail)
        (each_declaration default_weight declared targets detail previous)
        (any (asks_for alias) declared) (is_lost alias) (each_declaration-lost declared alias)
        (λ hit.
          subst
            (λ j. is_lost j ≡ (
              not (is_some (target_config default_weight targets a))
              && not (is_some (serving previous a))))
            ((eq_iff a alias).0 hit)
            (ap (λ b. not b && not (is_some (serving previous a)))
              (is_some-config_of a (lookup a targets))))
