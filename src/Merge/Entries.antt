-- ===== src/Merge/Entries.antt =====
-- Which entries a merge ends with.
use mathlib.Core.List.{append-nil}
use llmbroker.Base.{
  String, ◌≡◌, refl, sym, ◌∙◌, ap, subst, Bool, true, false, some, List, [], ◌∷◌, ◌++◌, arith, Dict,
  lookup, mem, filter, All, is_empty, eq_iff, no_repeats, Bool-cases, inl, inr,
}
use llmbroker.Models.{LlmConfig, ModelList, SyncReport}
use llmbroker.Merge.{
  Result, ok, err, ◌>>=◌, names, by_name, keeps_model, check_model_identity, check_name_clash,
  is_curated, is_owned, merge_upstream, check_not_emptying, merge_model_list,
}

nil_of_is_empty : (cs : List LlmConfig) → is_empty cs ≡ true → cs ≡ []
nil_of_is_empty [] h = refl
nil_of_is_empty (c ∷ cs) h = cc

All-unseen :
    (k : String) (seen : List String) (cs : List LlmConfig)
    → All (λ c. mem c.name (k ∷ seen) ≡ false) cs
    → (mem k (names cs) ≡ false) × All (λ c. mem c.name seen ≡ false) cs
All-unseen k seen [] h = (refl, tt)
All-unseen k seen (c ∷ cs) h =
    let (fresh, rest) = All-unseen k seen cs h.1 in
    (ground (arith, h.0, fresh, eq_iff k c.name, eq_iff c.name k), (ground (arith, h.0), rest))

-- No entry carries a name that was seen or that stands again behind it.
pub check_name_clash-ok :
    (seen : List String) (cs : List LlmConfig)
    → check_name_clash seen cs ≡ ok tt
    → (no_repeats (names cs) ≡ true) × All (λ c. mem c.name seen ≡ false) cs
unfolding check_name_clash
check_name_clash-ok seen [] e = (refl, tt)
check_name_clash-ok seen (c ∷ cs) e = elim (Bool-cases (mem c.name seen)) [
  | inl clash ↦ absurd (ground arith)
  | inr fresh ↦
      let (unique, others) = check_name_clash-ok (c.name ∷ seen) cs (ground arith) in
      let (once, unseen) = All-unseen c.name seen cs others in (ground arith, (fresh, unseen))
]

-- A stored namesake has the model of the arriving entry.
abbrev pub KeepsModel : Dict LlmConfig → LlmConfig → Type 0
KeepsModel current c =
    (stored : LlmConfig) → lookup c.name current ≡ some stored → stored.model ≡ c.model

keeps_model-ok :
    (current : Dict LlmConfig) (c : LlmConfig)
    → keeps_model current c ≡ ok tt
    → KeepsModel current c
unfolding keeps_model
keeps_model-ok current c e stored found = ground (arith, eq_iff stored.model c.model)

check_model_identity-ok :
    (cs : List LlmConfig) (current : Dict LlmConfig)
    → check_model_identity cs current ≡ ok tt
    → All (KeepsModel current) cs
unfolding check_model_identity
check_model_identity-ok [] current e = tt
check_model_identity-ok (c ∷ cs) current e =
    go (keeps_model current c) refl e (check_model_identity-ok cs current)
  where
    go :
        (r : Result (Unit {0}))
        → keeps_model current c ≡ r
        → (r >>= λ _. check_model_identity cs current) ≡ ok tt
        → (check_model_identity cs current ≡ ok tt → All (KeepsModel current) cs)
        → All (KeepsModel current) (c ∷ cs)
    go (ok u) k h ih = (keeps_model-ok current c k, ih h)
    go (err x) k h ih = absurd (ground arith)

filter_curated : (xs : List LlmConfig) → filter is_owned (filter is_curated xs) ≡ []
filter_curated [] = refl
filter_curated (c ∷ xs) = ground (arith, filter_curated xs)

filter_again : (p : LlmConfig → Bool) (xs : List LlmConfig) → filter p (filter p xs) ≡ filter p xs
filter_again p [] = refl
filter_again p (c ∷ xs) = ground (arith, filter_again p xs)

filter_owned : (xs : List LlmConfig) → filter is_curated (filter is_owned xs) ≡ []
filter_owned [] = refl
filter_owned (c ∷ xs) = ground (arith, filter_owned xs)

filter-append :
    (p : LlmConfig → Bool) (xs ys : List LlmConfig)
    → filter p (xs ++ ys) ≡ filter p xs ++ filter p ys
filter-append p [] ys = refl
filter-append p (c ∷ xs) ys = ground (arith, filter-append p xs ys)

pub curated-merged :
    (xs ys : List LlmConfig)
    → filter is_curated (filter is_curated xs ++ filter is_owned ys) ≡ filter is_curated xs
curated-merged xs ys =
    filter-append is_curated (filter is_curated xs) (filter is_owned ys)
    ∙ simp (filter_again is_curated xs, filter_owned ys, append-nil)

pub owned-merged :
    (xs ys : List LlmConfig)
    → filter is_owned (filter is_curated xs ++ filter is_owned ys) ≡ filter is_owned ys
owned-merged xs ys =
    filter-append is_owned (filter is_curated xs) (filter is_owned ys)
    ∙ simp (filter_again is_owned ys, filter_curated xs)

-- What a successful merge has checked, and what it ends with.
pub merge_upstream-inv :
    (same : LlmConfig → LlmConfig → Bool) (new current : ModelList) (present : List String)
    (source : String) (m : ModelList) (r : SyncReport)
    → merge_upstream same new current present source ≡ ok (m, r)
    → (check_model_identity
          (filter is_curated new.configs)
          (by_name (filter is_curated current.configs))
        ≡ ok tt)
      × (check_name_clash [] (filter is_curated new.configs ++ filter is_owned current.configs)
          ≡ ok tt)
      × (m.configs ≡ filter is_curated new.configs ++ filter is_owned current.configs)
unfolding merge_upstream
merge_upstream-inv same new current present source m r e = ground arith

-- A merge that succeeds ends with exactly the arriving curated entries and the installation's own
-- entries, no name stands twice among them, and no stored curated entry has changed its model
-- under its name.
pub merge_upstream-entries :
    (same : LlmConfig → LlmConfig → Bool) (new current : ModelList) (present : List String)
    (source : String) (m : ModelList) (r : SyncReport)
    → merge_upstream same new current present source ≡ ok (m, r)
    → (filter is_curated m.configs ≡ filter is_curated new.configs)
      × (filter is_owned m.configs ≡ filter is_owned current.configs)
      × (no_repeats (names m.configs) ≡ true)
      × All
          (KeepsModel (by_name (filter is_curated current.configs)))
          (filter is_curated new.configs)
merge_upstream-entries same new current present source m r e =
    let (identity, clash, ends) = merge_upstream-inv same new current present source m r e in
    (
      ap (filter is_curated) ends ∙ curated-merged new.configs current.configs,
      ap (filter is_owned) ends ∙ owned-merged new.configs current.configs,
      subst (λ cs. no_repeats (names cs) ≡ true) (sym ends) (check_name_clash-ok [] _ clash).0,
      check_model_identity-ok _ _ identity,
    )

-- A merge that is applied never leaves an installation that had entries with none.
pub merge_model_list-keeps_some :
    (same : LlmConfig → LlmConfig → Bool) (label : String) (new current : ModelList)
    (present : List String) (m : ModelList) (r : SyncReport)
    → merge_model_list same label new current present ≡ ok (m, r)
    → m.configs ≡ []
    → current.configs ≡ []
unfolding merge_model_list check_not_emptying
merge_model_list-keeps_some same label new current present m r e none_left =
    nil_of_is_empty current.configs (go (merge_upstream same new current present label) e)
  where
    applied : ModelList × SyncReport → Result (ModelList × SyncReport)
    applied (merged, report) =
        check_not_emptying merged.configs current.configs report >>= λ _. ok (merged, report)

    go :
        (o : Result (ModelList × SyncReport))
        → (o >>= applied) ≡ ok (m, r)
        → is_empty current.configs ≡ true
    go (ok (m', r')) h = ground arith
    go (err x) h = absurd (ground arith)
