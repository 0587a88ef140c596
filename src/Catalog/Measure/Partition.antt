-- ===== src/Catalog/Measure/Partition.antt =====
-- The usable refs and the missing ones are all of them.
use text.Mathlib.Text.{◌==◌ as str_eq}
use llmbroker.Base.{
  ◌+◌, String, ◌≡◌, refl, ap, Bool, true, false, not, ◌||◌, List, [], ◌∷◌, ◌++◌, arith, All, map,
  Dict, lookup, insert, has_key, lookup-insert, mem, filter, length, or_else, if◌then◌else◌, eq_iff,
  Bool-cases, inl, inr,
}
use llmbroker.Models.{LlmConfig}
use llmbroker.Merge.{has_ref}
use llmbroker.KeyRing.{Secrets, Ring, payable}
use llmbroker.Catalog.Measure.{
  set_add, append_name, held, Refs, no_refs, count_ref, count_refs, held_back, Help, HelpSources,
  pending, measure,
}

module _ (k : String) (ks : List String) where
  pub mem-set_add : (j : String) → mem j (set_add k ks) ≡ (str_eq k j || mem j ks)
  unfolding set_add
  mem-set_add j = ground (arith, eq_iff k j)

  length-set_add : length (set_add k ks) ≡ (if mem k ks then length ks else length ks + 1)
  unfolding set_add
  length-set_add = ground arith

module _ {ℓ} {V : Type ℓ} where
  length-insert :
      (k : String) (v : V) (d : Dict V)
      → length (insert k v d) ≡ (if has_key k d then length d else length d + 1)
  unfolding insert has_key lookup
  length-insert k v [] = refl
  length-insert k v ((j, w) ∷ d) = ground (arith, length-insert k v d)

  has_key-insert :
      (k j : String) (v : V) (d : Dict V) → has_key j (insert k v d) ≡ (str_eq k j || has_key j d)
  unfolding has_key
  has_key-insert k j v d = ground (arith, lookup-insert k j v d)

length-pending : (h : Help) (d : Dict (List String)) → length (pending h d) ≡ length d
unfolding pending
length-pending h [] = refl
length-pending h (e ∷ d) = omega (arith, length-pending h d)

module _ (is_held : String → Bool) where
  abbrev Held : List String → Type 0
  Held ks = All (λ k. is_held k ≡ true) ks

  abbrev Wanting : Dict (List String) → Type 0
  Wanting d = All (λ e. is_held e.0 ≡ false) d

  record Splits (r : Refs) : Type 0 where
    all_held : Held r.usable
    none_held : Wanting r.missing
    covered : (k : String) → mem k r.total ≡ (mem k r.usable || has_key k r.missing)
    sum : length r.total ≡ length r.usable + length r.missing

  Held-mem : (k : String) (ks : List String) → Held ks → is_held k ≡ false → mem k ks ≡ false
  Held-mem k [] h e = refl
  Held-mem k (j ∷ ks) h e = ground (arith, h.0, Held-mem k ks h.1, eq_iff j k)

  Wanting-has_key :
      (k : String) (d : Dict (List String)) → Wanting d → is_held k ≡ true → has_key k d ≡ false
  unfolding has_key lookup
  Wanting-has_key k [] h e = refl
  Wanting-has_key k ((j, v) ∷ d) h e = ground (arith, h.0, Wanting-has_key k d h.1, eq_iff j k)

  Wanting-insert :
      (k : String) (v : List String) (d : Dict (List String))
      → Wanting d
      → is_held k ≡ false
      → Wanting (insert k v d)
  unfolding insert
  Wanting-insert k v [] h e = (e, tt)
  Wanting-insert k v ((j, w) ∷ d) h e = elim (Bool-cases (str_eq j k)) [
    | inl hit ↦ rw hit h
    | inr miss ↦ rw miss (h.0, Wanting-insert k v d h.1 e)
  ]

  Held-set_add : (k : String) (ks : List String) → Held ks → is_held k ≡ true → Held (set_add k ks)
  unfolding set_add
  Held-set_add k ks h e = elim (Bool-cases (mem k ks)) [ inl m ↦ rw m h | inr m ↦ rw m (e, h) ]

  count_ref-Splits : (cfg : LlmConfig) (r : Refs) → Splits r → Splits (count_ref is_held cfg r)
  unfolding count_ref append_name
  count_ref-Splits cfg r s = elim (Bool-cases (has_ref cfg)) [
    | inr blank ↦ rw blank s
    | inl named ↦ elim (Bool-cases (is_held cfg.api_key_ref)) [
      | inl here ↦
          rw (named, here)
            (record {
              all_held = Held-set_add cfg.api_key_ref r.usable s.all_held here;
              none_held = s.none_held;
              covered = λ k. ground (
                arith,
                mem-set_add cfg.api_key_ref r.total k,
                mem-set_add cfg.api_key_ref r.usable k,
                s.covered k,
              );
              sum = ground (
                arith,
                length-set_add cfg.api_key_ref r.total,
                length-set_add cfg.api_key_ref r.usable,
                s.covered cfg.api_key_ref,
                Wanting-has_key cfg.api_key_ref r.missing s.none_held here,
                s.sum,
              );
            })
      | inr away ↦
          rw (named, away)
            (record {
              all_held = s.all_held;
              none_held = Wanting-insert cfg.api_key_ref _ r.missing s.none_held away;
              covered = λ k. ground (
                arith,
                mem-set_add cfg.api_key_ref r.total k,
                has_key-insert cfg.api_key_ref k
                    (or_else (lookup cfg.api_key_ref r.missing) [] ++ cfg.name ∷ []) r.missing,
                s.covered k,
              );
              sum = ground (
                arith,
                length-set_add cfg.api_key_ref r.total,
                length-insert cfg.api_key_ref
                    (or_else (lookup cfg.api_key_ref r.missing) [] ++ cfg.name ∷ []) r.missing,
                s.covered cfg.api_key_ref,
                Held-mem cfg.api_key_ref r.usable s.all_held away,
                s.sum,
              );
            })
    ]
  ]

  count_refs-Splits :
      (managed : List LlmConfig) (r : Refs) → Splits r → Splits (count_refs is_held managed r)
  unfolding count_refs
  count_refs-Splits [] r s = s
  count_refs-Splits (cfg ∷ managed) r s =
      count_refs-Splits managed (count_ref is_held cfg r) (count_ref-Splits cfg r s)

  no_refs-Splits : Splits no_refs
  unfolding has_key lookup
  no_refs-Splits = record { all_held = tt; none_held = tt; covered = λ k. refl; sum = refl }

  -- Nothing that is wanting is usable, so all of it is held back.
  filter-Wanting :
      (usable : List String) (d : Dict (List String))
      → Held usable
      → Wanting d
      → filter (λ e. not (mem e.0 usable)) d ≡ d
  filter-Wanting usable [] h w = refl
  filter-Wanting usable ((k, v) ∷ d) h w =
      rw (Held-mem k usable h w.0) (ap (λ rest. (k, v) ∷ rest) (filter-Wanting usable d h w.1))

  held_back-missing : (r : Refs) → Splits r → held_back r ≡ r.missing
  unfolding held_back
  held_back-missing r s = filter-Wanting r.usable r.missing s.all_held s.none_held

  module _ (r : Refs) (s : Splits r) (h : Help) where
    adds_up : length r.total ≡ length r.usable + length (pending h (held_back r))
    adds_up = rw (held_back-missing r s) (omega (arith, s.sum, length-pending h r.missing))

    All-pending :
        (d : Dict (List String))
        → Wanting d
        → All (λ key. mem key.api_key_ref r.usable ≡ false) (pending h d)
    unfolding pending
    All-pending [] w = tt
    All-pending (e ∷ d) w = (Held-mem e.0 r.usable s.all_held w.0, All-pending d w.1)

    apart : All (λ key. mem key.api_key_ref r.usable ≡ false) (pending h (held_back r))
    apart = rw (held_back-missing r s) (All-pending r.missing s.none_held)

-- The health that a measure reports adds up: every provider that an entry of the pool names is either
-- counted as usable or named among the missing keys, and none is both.
pub measure-adds_up :
    (secrets : Secrets) (scoped : List String) (sources : HelpSources) (h : Help)
    (chain : List Ring) (managed direct : List LlmConfig)
    → let m = measure secrets scoped sources h chain managed direct in
      (m.health.providers_total ≡ m.health.providers_usable + length m.health.missing_keys)
      × All (λ key. mem key.api_key_ref m.payable_refs ≡ false) m.health.missing_keys
unfolding measure
measure-adds_up secrets scoped sources h chain managed direct =
    (adds_up is_held refs split _, apart is_held refs split _)
  where
    is_held : String → Bool
    is_held = held (payable secrets chain (map (λ c. c.api_key_ref) managed)).0 scoped

    refs : Refs
    refs = count_refs is_held managed no_refs

    split : Splits is_held refs
    split = count_refs-Splits is_held managed no_refs (no_refs-Splits is_held)
