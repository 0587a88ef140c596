-- ===== src/Merge.antt =====
-- src/llmbroker/broker/merge.py: an arriving model list becomes the list this installation follows.
-- Python's equality of two configs is a parameter.
pub mod Entries
pub mod Idempotence
use text.Mathlib.Text.{◌==◌ as str_eq}
use llmbroker.Base.{
  ℕ, String, Bool, true, false, not, ◌&&◌, ◌||◌, Option, none, some, List, [], ◌∷◌, ◌++◌, map, Dict,
  lookup, insert, update, has_key, any_some, if◌then◌else◌, mem, distinct, filter, is_empty, length,
}
use llmbroker.Models.{LlmConfig, KeyInfo, ModelList, PendingKey, SyncReport}

pub data MergeError : Type 0 where
  model_changed : (name stored arriving : String) → MergeError
  name_clash : (name : String) → MergeError
  sync_refused : SyncReport → MergeError

pub data Result {ℓ} (A : Type ℓ) : Type ℓ where
  err : (error : MergeError) → Result A
  ok : (merged : A) → Result A

-- What follows a step is reached only where the step raises nothing.
infixl 5 ◌>>=◌ ◌>>◌
abbrev pub ◌>>=◌ {κ ℓ} :
    {B : Type κ} {A : Type ℓ} (step : Result B) (next : B → Result A) → Result A
(err error) >>= next = err error
(ok x) >>= next = next x

abbrev pub ◌>>◌ {ℓ} : {A : Type ℓ} (check : Result (Unit {0})) (next : Result A) → Result A
check >> next = check >>= λ _. next

abbrev pub names : List LlmConfig → List String
names cs = map (λ c. c.name) cs

-- `{c.name: c for c in configs}`: the last of equal names stands.
unfoldable pub by_name_onto : Dict LlmConfig → List LlmConfig → Dict LlmConfig
by_name_onto d [] = d
by_name_onto d (c ∷ cs) = by_name_onto (insert c.name c d) cs

abbrev pub by_name : List LlmConfig → Dict LlmConfig
by_name = by_name_onto []

-- The test of one arriving entry against the stored one of its name.
unfoldable pub keeps_model : Dict LlmConfig → LlmConfig → Result (Unit {0})
keeps_model current cfg = elim (lookup cfg.name current) [
  | none ↦ ok tt
  | some stored ↦
      if str_eq stored.model cfg.model
      then ok tt
      else err (model_changed cfg.name stored.model cfg.model)
]

unfoldable pub check_model_identity : List LlmConfig → Dict LlmConfig → Result (Unit {0})
check_model_identity [] current = ok tt
check_model_identity (cfg ∷ arriving) current = do
  keeps_model current cfg
  check_model_identity arriving current

unfoldable pub check_name_clash : List String → List LlmConfig → Result (Unit {0})
check_name_clash seen [] = ok tt
check_name_clash seen (cfg ∷ merged) =
    let rest = check_name_clash (cfg.name ∷ seen) merged in
    if mem cfg.name seen then err (name_clash cfg.name) else rest

abbrev pub has_ref : LlmConfig → Bool
has_ref c = not (str_eq c.api_key_ref "")

-- The distinct refs of the entries that have one.
unfoldable pub distinct_refs : List LlmConfig → List String
distinct_refs entries = distinct (map (λ c. c.api_key_ref) (filter has_ref entries))

unfoldable pub orphan_refs : List LlmConfig → List LlmConfig → List String → List String
orphan_refs removed merged present =
    let still_used = map (λ c. c.api_key_ref) (filter has_ref merged) in
    filter (λ ref. not (mem ref still_used) && mem ref present) (distinct_refs removed)

-- `holds`: for each ref that is not present, the names of the entries that wait for it.
unfoldable pub holds_onto : List String → Dict (List String) → List LlmConfig → Dict (List String)
holds_onto present holds [] = holds
holds_onto present holds (cfg ∷ merged) =
    let ref = cfg.api_key_ref in
    let noted =
      if has_key ref holds
      then update ref (λ ns. ns ++ cfg.name ∷ []) holds
      else insert ref (cfg.name ∷ []) holds in
    holds_onto present (if not (has_ref cfg) || mem ref present then holds else noted) merged

abbrev help_of : Dict KeyInfo → String → String
help_of keys ref = elim (lookup ref keys) [ none ↦ "" | some info ↦ info.help ]

unfoldable pub pending_keys : List LlmConfig → Dict KeyInfo → List String → List PendingKey
pending_keys merged keys present =
    map (λ e. record { api_key_ref = e.0; help = help_of keys e.0; entry_names = e.1 })
      (holds_onto present [] merged)

-- The help of the refs that only the installation's own entries name.
unfoldable pub keep_help : Dict KeyInfo → Dict KeyInfo → List LlmConfig → Dict KeyInfo
keep_help current keys [] = keys
keep_help current keys (cfg ∷ owned) =
    let ref = cfg.api_key_ref in
    let kept : Dict KeyInfo = elim (lookup ref current) [
      | none ↦ keys
      | some info ↦ insert ref info keys
    ] in
    keep_help current (if has_ref cfg && not (has_key ref keys) then kept else keys) owned

abbrev pub is_curated : LlmConfig → Bool
is_curated c = c.from_preset

abbrev pub is_owned : LlmConfig → Bool
is_owned c = not c.from_preset

unfoldable pub active : List LlmConfig → List String → ℕ
active configs present = length (filter (λ c. mem c.api_key_ref present) configs)

-- Never an empty list over a working one.
unfoldable pub check_not_emptying : List LlmConfig → List LlmConfig → SyncReport → Result (Unit {0})
check_not_emptying merged current report =
    if not (is_empty merged) || is_empty current
    then ok tt
    else err (sync_refused (record report { applied = false }))

module _ (same : LlmConfig → LlmConfig → Bool) where
  -- An arriving entry whose stored namesake differs.
  abbrev pub is_updated : Dict LlmConfig → LlmConfig → Bool
  is_updated current c = any_some (λ stored. not (same stored c)) (lookup c.name current)

  unfoldable pub report_of :
      String → ModelList → ModelList → Dict KeyInfo → List String → SyncReport
  report_of source new current keys present =
      let arriving = filter is_curated new.configs in
      let stored = filter is_curated current.configs in
      let merged = arriving ++ filter is_owned current.configs in
      let removed = filter (λ c. not (mem c.name (names arriving))) stored in
      record {
        source = source;
        applied = true;
        added = names (filter (λ c. not (has_key c.name (by_name stored))) arriving);
        updated = names (filter (is_updated (by_name stored)) arriving);
        removed = names removed;
        orphan_refs = orphan_refs removed merged present;
        pending_keys = pending_keys merged keys present;
        active_before = active current.configs present;
        active_after = active merged present;
      }

  unfoldable pub merge_upstream :
      ModelList → ModelList → List String → String → Result (ModelList × SyncReport)
  merge_upstream new current present source = do
    let arriving = filter is_curated new.configs
    let stored = filter is_curated current.configs
    let owned = filter is_owned current.configs
    check_model_identity arriving (by_name stored)
    check_name_clash [] (arriving ++ owned)
    let keys = keep_help current.keys new.keys owned
    ok (
      record { configs = arriving ++ owned; keys = keys },
      report_of source new current keys present,
    )

  unfoldable pub merge_model_list :
      String → ModelList → ModelList → List String → Result (ModelList × SyncReport)
  merge_model_list label arriving current present = do
    (merged, report) ← merge_upstream arriving current present label
    check_not_emptying merged.configs current.configs report
    ok (merged, report)
