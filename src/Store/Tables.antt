-- ===== src/Store/Tables.antt =====
-- src/llmbroker/backends/inmemory.py and src/llmbroker/backends/ports.py: keyed tables, and the
-- disabled map, the registry and the secrets that stand on them, with the disabled map of
-- `InMemoryStore` in src/llmbroker/standalone/store.py. A table is a dict by key; Python's order of
-- texts is a parameter of a fetch.
pub mod Maps
use text.Mathlib.Text.{◌==◌ as str_eq}
use llmbroker.Base.{
  ℕ, String, Bool, true, false, not, ◌&&◌, ◌||◌, Option, none, some, List, [], ◌∷◌, map,
  if◌then◌else◌, mem, filter, Dict, lookup, insert, remove, has_key, keys, values, or_else, is_some,
  ℤ,
}
use llmbroker.Base.Sorting.{sorted}
use llmbroker.Models.{Double, Value, LlmConfig}
use llmbroker.Optimizer.Floats.{FloatOps}
use llmbroker.Metadata.{to_metadata, from_metadata}

-- `upsert`, `get` and `delete` of the driver.
abbrev pub upsert {ℓ} : {V : Type ℓ} → String → V → Dict V → Dict V
upsert key row table = insert key row table

abbrev pub delete {ℓ} : {V : Type ℓ} → String → Dict V → Bool × Dict V
delete key table = (has_key key table, remove key table)

unfoldable pub fetch {ℓ} : {V : Type ℓ} → (String → String → Bool) → Dict V → List V
fetch lt table = values (sorted (λ a b. lt a.0 b.0) table)

-- `DriverStore`: the disabled map.
abbrev pub get_disabled : String → Dict Bool → Bool
get_disabled name table = or_else (lookup name table) false

abbrev pub set_disabled : String → Bool → Dict Bool → Dict Bool
set_disabled name flag table = upsert name flag table

-- `seed_disabled`: what exists is read once, before the inserts.
unfoldable pub seed_new : List String → List String → Dict Bool → Dict Bool
seed_new existing [] table = table
seed_new existing (name ∷ names) table =
    seed_new existing names (if mem name existing then table else upsert name false table)

unfoldable pub seed_disabled : List String → Dict Bool → Dict Bool
seed_disabled names table = seed_new (keys table) names table

-- `InMemoryStore.seed_disabled`, and `_read_disabled` with the loop of `FileStore`.
unfoldable pub seed_default : List String → Dict Bool → Dict Bool
seed_default [] d = d
seed_default (name ∷ names) d =
    seed_default names (if has_key name d then d else insert name false d)

-- What `FileStore` does with its map: whether it is written back.
unfoldable pub seed_changes : List String → Dict Bool → Bool
seed_changes [] d = false
seed_changes (name ∷ names) d =
    let later = seed_changes names (if has_key name d then d else insert name false d) in
    not (has_key name d) || later

-- `check_aliases`: the alias that two configs carry.
unfoldable pub check_aliases_from : List String → List LlmConfig → Option String
check_aliases_from seen [] = none
check_aliases_from seen (c ∷ configs) = elim c.alias [
  | none ↦ check_aliases_from seen configs
  | some alias ↦
      let rest = check_aliases_from (alias ∷ seen) configs in
      if mem alias seen then some alias else rest
]

abbrev pub check_aliases : List LlmConfig → Option String
check_aliases configs = check_aliases_from [] configs

-- A row of the registry.
pub record Stored : Type 0 where
  pub name : String
  pub base_url : String
  pub model : String
  pub api_key_ref : String
  pub metadata : Dict Value

-- `mirror`: what is absent goes, then every config is written.
unfoldable pub drop_absent : List String → List String → Dict Stored → Dict Stored
drop_absent names [] table = table
drop_absent names (k ∷ existing) table =
    drop_absent names existing (if mem k names then table else remove k table)

module _ (fl : FloatOps) (float_of : ℤ → Double) where
  abbrev pub stored_of : LlmConfig → Stored
  stored_of c = record {
    name = c.name;
    base_url = c.base_url;
    model = c.model;
    api_key_ref = c.api_key_ref;
    metadata = to_metadata fl float_of c;
  }

  unfoldable pub write_all : List LlmConfig → Dict Stored → Dict Stored
  write_all [] table = table
  write_all (c ∷ configs) table = write_all configs (upsert c.name (stored_of c) table)

  abbrev pub mirror_checked : Option String → List LlmConfig → Dict Stored → Option (Dict Stored)
  mirror_checked (some alias) configs table = none
  mirror_checked none configs table =
      some (write_all configs (drop_absent (map (λ c. c.name) configs) (keys table) table))

  unfoldable pub mirror : List LlmConfig → Dict Stored → Option (Dict Stored)
  mirror configs table = mirror_checked (check_aliases configs) configs table

  -- `load`: none where two rows carry one alias.
  abbrev pub config_of : Stored → LlmConfig
  config_of r = from_metadata fl float_of r.name r.base_url r.model r.api_key_ref (some r.metadata)

  unfoldable pub load : (String → String → Bool) → Dict Stored → Option (List LlmConfig)
  load lt table =
      let configs = map config_of (fetch lt table) in
      if is_some (check_aliases configs) then none else some configs

-- `DriverSecrets`: none is the KeyError of an unknown ref.
abbrev pub resolve_secret : String → Dict String → Option String
resolve_secret ref table = lookup ref table

abbrev pub set_secret : String → String → Dict String → Dict String
set_secret ref secret table = upsert ref secret table
