-- ===== src/Merge/Idempotence.antt =====
-- A merge repeated: the second time it has nothing to do.
use llmbroker.Base.{
  String, ◌≡◌, refl, sym, ◌∙◌, ap, subst, Bool, true, false, not, ◌||◌, some, List, [], ◌∷◌, ◌++◌,
  arith, Dict, lookup, insert, has_key, mem, filter, All, eq_iff, no_repeats, lookup-insert,
}
use llmbroker.Models.{LlmConfig, ModelList, SyncReport}
use llmbroker.Merge.{
  ok, names, by_name, by_name_onto, keeps_model, check_model_identity, check_name_clash, is_curated,
  is_owned, is_updated, keep_help, report_of, merge_upstream,
}
use llmbroker.Merge.Entries.{merge_upstream-inv, curated-merged, owned-merged, check_name_clash-ok}

lookup-by_name_onto :
    (k : String) (d : Dict LlmConfig) (cs : List LlmConfig)
    → mem k (names cs) ≡ false
    → lookup k (by_name_onto d cs) ≡ lookup k d
unfolding by_name_onto
lookup-by_name_onto k d [] h = refl
lookup-by_name_onto k d (c ∷ cs) h =
    lookup-by_name_onto k (insert c.name c d) cs (ground arith)
    ∙ ground (arith, lookup-insert c.name k c d)

-- Among unique names each entry is found under its own.
Finds : Dict LlmConfig → LlmConfig → Type 0
Finds d c = lookup c.name d ≡ some c

by_name_onto-Finds :
    (d : Dict LlmConfig) (cs : List LlmConfig)
    → no_repeats (names cs) ≡ true
    → All (Finds (by_name_onto d cs)) cs
unfolding by_name_onto Finds
by_name_onto-Finds d [] u = tt
by_name_onto-Finds d (c ∷ cs) u = (
  lookup-by_name_onto c.name (insert c.name c d) cs (ground arith)
      ∙ ground (arith, eq_iff c.name c.name, lookup-insert c.name c.name c d),
  by_name_onto-Finds (insert c.name c d) cs (ground arith),
)

mem-names_append :
    (k : String) (xs ys : List LlmConfig)
    → mem k (names (xs ++ ys)) ≡ (mem k (names xs) || mem k (names ys))
mem-names_append k [] ys = refl
mem-names_append k (x ∷ xs) ys = ground (arith, mem-names_append k xs ys)

no_repeats-append :
    (xs ys : List LlmConfig) → no_repeats (names (xs ++ ys)) ≡ true → no_repeats (names xs) ≡ true
no_repeats-append [] ys u = refl
no_repeats-append (x ∷ xs) ys u =
    ground (arith, no_repeats-append xs ys, mem-names_append x.name xs ys)

module _ (d : Dict LlmConfig) where
  identity_of_Finds : (cs : List LlmConfig) → All (Finds d) cs → check_model_identity cs d ≡ ok tt
  unfolding check_model_identity keeps_model Finds
  identity_of_Finds [] h = refl
  identity_of_Finds (c ∷ cs) h =
      ground (arith, h.0, eq_iff c.model c.model, identity_of_Finds cs h.1)

  none_added :
      (cs : List LlmConfig) → All (Finds d) cs → filter (λ c. not (has_key c.name d)) cs ≡ []
  unfolding Finds has_key
  none_added [] h = refl
  none_added (c ∷ cs) h = ground (arith, h.0, none_added cs h.1)

  none_updated :
      (same : LlmConfig → LlmConfig → Bool) (cs : List LlmConfig)
      → ((c : LlmConfig) → same c c ≡ true)
      → All (Finds d) cs
      → filter (is_updated same d) cs ≡ []
  unfolding Finds
  none_updated same [] eq h = refl
  none_updated same (c ∷ cs) eq h = ground (arith, eq c, h.0, none_updated same cs eq h.1)

none_removed_of :
    (ns : List String) (cs : List LlmConfig)
    → All (λ c. mem c.name ns ≡ true) cs
    → filter (λ c. not (mem c.name ns)) cs ≡ []
none_removed_of ns [] h = refl
none_removed_of ns (c ∷ cs) h = ground (arith, h.0, none_removed_of ns cs h.1)

All-mem_cons :
    (k : String) (ns : List String) (cs : List LlmConfig)
    → All (λ c. mem c.name ns ≡ true) cs
    → All (λ c. mem c.name (k ∷ ns) ≡ true) cs
All-mem_cons k ns [] h = tt
All-mem_cons k ns (c ∷ cs) h = (ground (arith, h.0), All-mem_cons k ns cs h.1)

All-named : (cs : List LlmConfig) → All (λ c. mem c.name (names cs) ≡ true) cs
All-named [] = tt
All-named (c ∷ cs) =
    (ground (arith, eq_iff c.name c.name), All-mem_cons c.name (names cs) cs (All-named cs))

-- A merge whose two checks pass.
merge_upstream-passes :
    (same : LlmConfig → LlmConfig → Bool) (new current : ModelList) (present : List String)
    (source : String)
    → let arriving = filter is_curated new.configs in
      let owned = filter is_owned current.configs in
      check_model_identity arriving (by_name (filter is_curated current.configs)) ≡ ok tt
      → check_name_clash [] (arriving ++ owned) ≡ ok tt
      → let keys = keep_help current.keys new.keys owned in
        merge_upstream same new current present source
        ≡ ok (
          record { configs = arriving ++ owned; keys = keys },
          report_of same source new current keys present,
        )
unfolding merge_upstream
merge_upstream-passes same new current present source a b = rw (a, b)

-- Where Python's equality of configs is reflexive, a list that has been merged in is merged again
-- with no error and no effect: the entries are the same, and the report says that none was added,
-- updated or removed.
pub merge_upstream_again :
    (same : LlmConfig → LlmConfig → Bool) (new current : ModelList) (present : List String)
    (source : String) (m : ModelList) (r : SyncReport)
    → ((c : LlmConfig) → same c c ≡ true)
    → merge_upstream same new current present source ≡ ok (m, r)
    → (m' : ModelList) × (r' : SyncReport) × (merge_upstream same new m present source
        ≡ ok (m', r'))
      × (m'.configs ≡ m.configs)
      × (r'.added ≡ [])
      × (r'.updated ≡ [])
      × (r'.removed ≡ [])
unfolding report_of
merge_upstream_again same new current present source m r eq e =
    let (_, clash, ends) = merge_upstream-inv same new current present source m r e in
    let arriving = filter is_curated new.configs in
    let owned = filter is_owned m.configs in
    let curated : filter is_curated m.configs ≡ arriving =
      ap (filter is_curated) ends ∙ curated-merged new.configs current.configs in
    let kept : owned ≡ filter is_owned current.configs =
      ap (filter is_owned) ends ∙ owned-merged new.configs current.configs in
    let unique = (check_name_clash-ok [] _ clash).0 in
    let found = by_name_onto-Finds [] arriving (no_repeats-append arriving _ unique) in
    let stored : All (Finds (by_name (filter is_curated m.configs))) arriving =
      subst (λ cs. All (Finds (by_name cs)) arriving) (sym curated) found in
    (
      record { configs = arriving ++ owned; keys = keep_help m.keys new.keys owned },
      report_of same source new m (keep_help m.keys new.keys owned) present,
      merge_upstream-passes same new m present source
          (identity_of_Finds (by_name (filter is_curated m.configs)) arriving stored)
          (subst (λ o. check_name_clash [] (arriving ++ o) ≡ ok tt) (sym kept) clash),
      subst (λ o. arriving ++ o ≡ m.configs) (sym kept) (sym ends),
      ap names (none_added (by_name (filter is_curated m.configs)) arriving stored),
      ap names (none_updated (by_name (filter is_curated m.configs)) same arriving eq stored),
      ap names (
          subst (λ cs. filter (λ c. not (mem c.name (names arriving))) cs ≡ []) (sym curated)
            (none_removed_of (names arriving) arriving (All-named arriving))),
    )
