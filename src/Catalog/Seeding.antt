-- ===== src/Catalog/Seeding.antt =====
-- src/llmbroker/broker/catalog.py: `seed_secrets`, which copies keys from the environment into a
-- secrets backend that can be written.
pub mod Preserves
use llmbroker.Base.{
  String, Option, none, some, List, [], ◌∷◌, Dict, lookup, insert, if◌then◌else◌, is_some, Bool,
}
use llmbroker.Models.{LlmConfig}
use llmbroker.KeyRing.{Answer, value, missing, Secrets, resolve_ref, or_unset}

abbrev pub answer_of : Option String → Answer
answer_of none = missing
answer_of (some v) = value v

-- A secrets store that raises a KeyError at most, by what it holds; `is_blank` is Python's test of a
-- blank text.
abbrev pub readable : (is_blank : String → Bool) → (String → Option String) → Secrets
readable is_blank held = record { ask = λ ref. answer_of (held ref); is_blank = is_blank }

-- A lookup in such a store, which does not raise: the failing case never comes.
abbrev pub resolved_in :
    (is_blank : String → Bool) → (String → Option String) → String → Option String
resolved_in is_blank held ref = or_unset (resolve_ref (readable is_blank held) ref)

-- A backend that can be written, by what it holds.
abbrev pub held_in : Dict String → String → Option String
held_in held ref = lookup ref held

-- One entry: a ref that resolves already keeps its value.
unfoldable pub seed_one :
    (environment : String → Option String) (is_blank : String → Bool)
    → LlmConfig
    → Dict String
    → Dict String
seed_one environment is_blank cfg held =
    if is_some (resolved_in is_blank (held_in held) cfg.api_key_ref)
    then held
    else elim (resolved_in is_blank environment cfg.api_key_ref) [
      | none ↦ held
      | some v ↦ insert cfg.api_key_ref v held
    ]

unfoldable pub seed_secrets :
    (environment : String → Option String) (is_blank : String → Bool)
    → List LlmConfig
    → Dict String
    → Dict String
seed_secrets environment is_blank [] held = held
seed_secrets environment is_blank (cfg ∷ configs) held =
    seed_secrets environment is_blank configs (seed_one environment is_blank cfg held)
