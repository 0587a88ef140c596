-- ===== src/Catalog/Membership/Mirrors.antt =====
-- The pool after a reconcile is the stored list.
use text.Mathlib.Text.{◌==◌ as str_eq}
use llmbroker.Base.{
  ℕ, suc, String, ◌≡◌, refl, ◌∙◌, ap, subst, true, false, not, Option, none, some, List, [], ◌∷◌,
  arith, Dict, lookup, insert, update, has_key, keys, filter, mem, mem-filter, no_repeats,
  if◌then◌else◌, is_some, eq_iff, lookup-insert, lookup-remove, lookup-update, Bool-cases,
  Option-cases, mem-keys, inl, inr,
}
use mathlib.Core.Option
use llmbroker.Models.{LlmConfig}
use llmbroker.Merge.{names}
use llmbroker.Pool
use llmbroker.Pool.{Pool}
use llmbroker.Pool.Slots.{Slot, new_slot}
use llmbroker.Catalog.Membership.{drop_all, add_all, reconcile}

-- The slot of a stored entry at its place in the list: a new one, or the one that the pool had.
abbrev pub placed : ℕ → LlmConfig → Option Slot → Slot
placed order cfg none = record {
  config = cfg;
  in_flight = 0;
  cooldown_until = none;
  fail_count = 0;
  disabled = false;
  order = order;
  recovery_due = false;
  recovery_claimed = false;
}
placed order cfg (some s) = record s { config = cfg; order = order }

placed-held :
    (order : ℕ) (cfg : LlmConfig) (o : Option Slot)
    → is_some o ≡ true
    → Option.map (Pool.refreshed cfg order) o ≡ some (placed order cfg o)
placed-held order cfg none h = cc
placed-held order cfg (some s) h = refl

placed-new :
    (order : ℕ) (cfg : LlmConfig) (o : Option Slot)
    → is_some o ≡ false
    → new_slot cfg order ≡ placed order cfg o
placed-new order cfg none h = refl
placed-new order cfg (some s) h = cc

module _ (cfg : LlmConfig) (order : ℕ) (d : Dict Slot) (k : String) where
  lookup-refresh :
      has_key cfg.name d ≡ true
      → lookup k (update cfg.name (Pool.refreshed cfg order) d)
        ≡ (if str_eq cfg.name k then some (placed order cfg (lookup k d)) else lookup k d)
  unfolding has_key
  lookup-refresh known = elim (Bool-cases (str_eq cfg.name k)) [
    | inl hit ↦
        lookup-update cfg.name k (Pool.refreshed cfg order) d
        ∙ rw hit (
            placed-held order cfg (lookup k d)
              (subst (λ x. is_some (lookup x d) ≡ true) ((eq_iff cfg.name k).0 hit) known))
    | inr miss ↦ lookup-update cfg.name k (Pool.refreshed cfg order) d ∙ rw miss refl
  ]

  lookup-join :
      has_key cfg.name d ≡ false
      → lookup k (insert cfg.name (new_slot cfg order) d)
        ≡ (if str_eq cfg.name k then some (placed order cfg (lookup k d)) else lookup k d)
  unfolding has_key
  lookup-join new = elim (Bool-cases (str_eq cfg.name k)) [
    | inl hit ↦
        lookup-insert cfg.name k (new_slot cfg order) d
        ∙ rw hit (
            ap some (
              placed-new order cfg (lookup k d)
                (subst (λ x. is_some (lookup x d) ≡ false) ((eq_iff cfg.name k).0 hit) new)))
    | inr miss ↦ lookup-insert cfg.name k (new_slot cfg order) d ∙ rw miss refl
  ]

lookup-add :
    (cfg : LlmConfig) (order : ℕ) (p : Pool) (k : String)
    → lookup k (Pool.add cfg (some order) p).slots
      ≡ (if str_eq cfg.name k then some (placed order cfg (lookup k p.slots)) else lookup k p.slots)
unfolding Pool.add
lookup-add cfg order p k = elim (Bool-cases (has_key cfg.name p.slots)) [
  | inl known ↦ rw known (lookup-refresh cfg order p.slots k known)
  | inr new ↦ rw new (lookup-join cfg order p.slots k new)
]

-- The place of a name in a list, counted from `order` on, and its entry.
abbrev pub entry_at : ℕ → String → List LlmConfig → Option (ℕ × LlmConfig)
entry_at order name [] = none
entry_at order name (c ∷ cs) =
    if str_eq c.name name then some (order, c) else entry_at (suc order) name cs

-- The slot of a name in a pool that mirrors a list, where the pool had `held` under that name.
abbrev pub mirrored : Option (ℕ × LlmConfig) → Option Slot → Option Slot → Option Slot
mirrored none held absent = absent
mirrored (some e) held absent = some (placed e.0 e.1 held)

entry_at-none :
    (order : ℕ) (name : String) (cs : List LlmConfig)
    → mem name (names cs) ≡ false
    → entry_at order name cs ≡ none
entry_at-none order name [] h = refl
entry_at-none order name (c ∷ cs) h =
    ground (arith, entry_at-none (suc order) name cs, eq_iff c.name name)

lookup-add_all :
    (order : ℕ) (cs : List LlmConfig) (p : Pool) (k : String)
    → no_repeats (names cs) ≡ true
    → lookup k (add_all order cs p).slots
      ≡ mirrored (entry_at order k cs) (lookup k p.slots) (lookup k p.slots)
unfolding add_all
lookup-add_all order [] p k u = refl
lookup-add_all order (c ∷ cs) p k u = elim (Bool-cases (str_eq c.name k)) [
  | inl hit ↦
      let last = entry_at-none (suc order) k cs (ground (arith, eq_iff c.name k)) in
      lookup-add_all (suc order) cs (Pool.add c (some order) p) k (ground (arith, u))
      ∙ rw (last, hit) (lookup-add c order p k ∙ rw hit refl)
  | inr miss ↦
      let same : lookup k (Pool.add c (some order) p).slots ≡ lookup k p.slots =
        lookup-add c order p k ∙ rw miss refl in
      lookup-add_all (suc order) cs (Pool.add c (some order) p) k (ground (arith, u))
      ∙ rw (same, miss) refl
]

lookup-drop_all :
    (ns : List String) (p : Pool) (k : String)
    → lookup k (drop_all ns p).slots ≡ (if mem k ns then none else lookup k p.slots)
unfolding drop_all Pool.drop
lookup-drop_all [] p k = refl
lookup-drop_all (n ∷ ns) p k =
    lookup-drop_all ns (Pool.drop n p) k ∙ ground (arith, lookup-remove n k p.slots)

entry_at-some :
    (order : ℕ) (name : String) (cs : List LlmConfig)
    → mem name (names cs) ≡ true
    → is_some (entry_at order name cs) ≡ true
entry_at-some order name [] h = cc
entry_at-some order name (c ∷ cs) h = ground (arith, entry_at-some (suc order) name cs)

mirrored-some :
    (o : Option (ℕ × LlmConfig)) (held : Option Slot)
    → is_some o ≡ true
    → mirrored o held held ≡ mirrored o held none
mirrored-some none held h = cc
mirrored-some (some e) held h = refl

-- What the drops leave under a name: what was there, where the name is kept.
lookup-kept :
    (kept : List String) (p : Pool) (k : String)
    → lookup k (drop_all (filter (λ n. not (mem n kept)) (keys p.slots)) p).slots
      ≡ (if mem k kept then lookup k p.slots else none)
lookup-kept kept p k =
    lookup-drop_all (filter (λ n. not (mem n kept)) (keys p.slots)) p k
    ∙ elim (Option-cases (lookup k p.slots)) [
      | inl e ↦ ground (arith, e)
      | inr e ↦
          ground
            (arith, e.1, mem-filter (λ n. not (mem n kept)) k (keys p.slots), mem-keys k p.slots)
    ]

-- A reconcile makes the pool the stored list. Where no name stands twice in it, the pool has a slot
-- under exactly its names; each has the list's config and its place in the list as its order, and a
-- slot that the pool had under the name keeps all else: its calls in flight, its cooldown and the
-- admin's verdict.
pub reconcile-mirrored :
    (stored : List LlmConfig) (p : Pool) (k : String)
    → no_repeats (names stored) ≡ true
    → lookup k (reconcile stored p).slots ≡ mirrored (entry_at 0 k stored) (lookup k p.slots) none
unfolding reconcile
reconcile-mirrored stored p k u = elim (Bool-cases (mem k (names stored))) [
  | inl kept ↦
      lookup-add_all 0 stored after k u
      ∙ (rw (lookup-kept (names stored) p k, kept)
          (mirrored-some (entry_at 0 k stored) (lookup k p.slots) (entry_at-some 0 k stored kept)))
  | inr gone ↦
      lookup-add_all 0 stored after k u
      ∙ rw (entry_at-none 0 k stored gone, lookup-kept (names stored) p k, gone) refl
]
  where
    after : Pool
    after = drop_all (filter (λ n. not (mem n (names stored))) (keys p.slots)) p
