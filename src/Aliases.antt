-- ===== src/Aliases.antt =====
-- src/llmbroker/broker/aliases.py: the models that a host declares with `direct=`, resolved against
-- the paid catalog, and what a re-resolution has moved. Of the messages only the reason is kept.
pub mod Served
use text.Mathlib.Text.{◌==◌ as str_eq}
use llmbroker.Base.{
  String, Bool, true, false, not, ◌||◌, ◌&&◌, Option, none, some, List, [], ◌∷◌, ◌++◌, map, Dict,
  lookup, insert, has_key, keys, values, mem, any, find?, or_else, if◌then◌else◌, is_empty,
}
use llmbroker.Models.{Double, LlmConfig, Value}
use llmbroker.Values.{Python}
use llmbroker.Curated.{
  CuratedProvider, CuratedModel, Rows, rows, Fault, invalid, broken, refused, declare_model,
  models_from,
}

pub data AliasChange : Type 0 where
  model_moved key_ref_moved dropped : AliasChange

pub record AliasFact : Type 0 where
  pub change : AliasChange
  pub alias : String
  pub was : String
  pub now : String

abbrev pub is_callable : CuratedProvider → Bool
is_callable p = not (str_eq p.id "" || str_eq p.base_url "" || str_eq p.api_key_ref "")

-- The row that an alias recommends, put among the others; `none` is the ValueError of an alias that
-- is used twice.
abbrev pub add_target :
    CuratedModel → Option String → Option (Dict CuratedModel) → Option (Dict CuratedModel)
add_target row (some alias) (some targets) =
    if is_callable row.provider
    then if has_key alias targets then none else some (insert alias row targets)
    else some targets
add_target row none targets = targets
add_target row _ none = none

unfoldable pub targets_of :
    List CuratedModel → Option (Dict CuratedModel) → Option (Dict CuratedModel)
targets_of [] targets = targets
targets_of (row ∷ later) targets = targets_of later (add_target row row.alias targets)

-- What a handle names: an entry of its own, or an alias of the catalog.
pub data Declared : Type 0 where
  entry : LlmConfig → Declared
  follows : (alias : String) → Declared

-- Why an alias has no entry: the catalog could not be read, or does not carry it.
pub data Unresolved : Type 0 where
  unreadable : (detail : String) → Unresolved
  not_carried : (available : List String) → Unresolved

pub record DeclaredModels : Type 0 where
  pub configs : List LlmConfig
  pub key_help : Dict String
  pub unresolved : Dict Unresolved

abbrev pub no_declared : DeclaredModels
no_declared = record { configs = []; key_help = []; unresolved = [] }

abbrev pub has_alias : String → LlmConfig → Bool
has_alias alias cfg = elim cfg.alias [ none ↦ false | some a ↦ str_eq a alias ]

-- `_serving`.
unfoldable pub serving : Option DeclaredModels → String → Option LlmConfig
serving none alias = none
serving (some previous) alias = find? (has_alias alias) previous.configs

unfoldable pub unresolved_reason : Dict CuratedModel → Option String → Unresolved
unresolved_reason targets (some detail) = unreadable detail
unresolved_reason targets none = not_carried (keys targets)

pub record Resolution : Type 0 where
  pub configs : List LlmConfig
  pub unresolved : Dict Unresolved
  pub dropped : List AliasFact

-- One declaration, before those after it. `unresolved` is a dict: an alias that is declared again
-- keeps its place.
unfoldable pub before_rest :
    Declared → Option LlmConfig → Option LlmConfig → Unresolved → Resolution → Resolution
before_rest (entry cfg) target served reason r = record r { configs = cfg ∷ r.configs }
before_rest (follows alias) (some cfg) served reason r = record r { configs = cfg ∷ r.configs }
before_rest (follows alias) none (some cfg) reason r = record r {
  configs = cfg ∷ r.configs;
  dropped =
      record { change = AliasChange.dropped; alias = alias; was = cfg.model; now = "" } ∷ r.dropped;
}
before_rest (follows alias) none none reason r = record r {
  unresolved = (alias, reason) ∷ llmbroker.Base.remove alias r.unresolved;
}

abbrev pub wanted_alias : Declared → String
wanted_alias (entry cfg) = ""
wanted_alias (follows alias) = alias

module _ (default_weight : Double) where
  abbrev pub config_of : (alias : String) → Option CuratedModel → Option LlmConfig
  config_of alias none = none
  config_of alias (some row) =
      some (record (declare_model default_weight row) { alias = some alias })

  abbrev pub target_config : Dict CuratedModel → String → Option LlmConfig
  target_config targets alias = config_of alias (lookup alias targets)

  -- `_each_declaration`.
  unfoldable pub each_declaration :
      List Declared → Dict CuratedModel → Option String → Option DeclaredModels → Resolution
  each_declaration [] targets detail previous = record {
    configs = [];
    unresolved = [];
    dropped = [];
  }
  each_declaration (item ∷ declared) targets detail previous =
      before_rest item (target_config targets (wanted_alias item))
        (serving previous (wanted_alias item)) (unresolved_reason targets detail)
        (each_declaration declared targets detail previous)

-- The help of the providers whose keys these refs are.
unfoldable pub catalog_help : List String → List CuratedModel → Dict String → Dict String
catalog_help wanted [] help = help
catalog_help wanted (row ∷ later) help = catalog_help wanted later (
    if not (str_eq row.provider.key_help "") && mem row.provider.api_key_ref wanted
    then insert row.provider.api_key_ref row.provider.key_help help
    else help)

abbrev pub is_kept : List String → Option String → Bool
is_kept kept none = false
is_kept kept (some alias) = mem alias kept

abbrev pub add_kept : LlmConfig → Option String → Dict String → Dict String
add_kept cfg none help = help
add_kept cfg (some known) help = insert cfg.api_key_ref known help

-- An entry whose alias the catalog has dropped keeps the help it was resolved with.
unfoldable pub kept_help : List String → Dict String → List LlmConfig → Dict String → Dict String
kept_help kept was [] help = help
kept_help kept was (cfg ∷ configs) help = kept_help kept was configs (
    if is_kept kept cfg.alias && not (has_key cfg.api_key_ref help)
    then add_kept cfg (lookup cfg.api_key_ref was) help
    else help)

abbrev pub help_before : Option DeclaredModels → Dict String
help_before none = []
help_before (some previous) = previous.key_help

-- `_key_help`.
unfoldable pub key_help :
    Dict CuratedModel → List LlmConfig → List String → Option DeclaredModels → Dict String
key_help targets configs kept previous =
    kept_help kept (help_before previous) configs
      (catalog_help (map (λ c. c.api_key_ref) configs) (values targets) [])

-- `_alias_facts`.
unfoldable pub alias_facts : LlmConfig → LlmConfig → List AliasFact
alias_facts was now =
    let alias = or_else now.alias "" in
    (if str_eq was.model now.model
      then []
      else record { change = model_moved; alias = alias; was = was.model; now = now.model } ∷ [])
    ++ (if str_eq was.api_key_ref now.api_key_ref
        then []
        else record {
          change = key_ref_moved;
          alias = alias;
          was = was.api_key_ref;
          now = now.api_key_ref;
        }
          ∷ [])

-- `{c.alias: c for c in previous.configs if c.alias is not None}`.
unfoldable pub by_alias : List LlmConfig → Dict LlmConfig → Dict LlmConfig
by_alias [] was = was
by_alias (cfg ∷ configs) was =
    by_alias configs (elim cfg.alias [ none ↦ was | some alias ↦ insert alias cfg was ])

abbrev pub facts_on : Option LlmConfig → LlmConfig → List AliasFact
facts_on none now = []
facts_on (some was) now = alias_facts was now

abbrev pub served_before : Dict LlmConfig → Option String → Option LlmConfig
served_before was none = none
served_before was (some alias) = lookup alias was

unfoldable pub moved_among : Dict LlmConfig → List LlmConfig → List AliasFact
moved_among was [] = []
moved_among was (cfg ∷ configs) =
    facts_on (served_before was cfg.alias) cfg ++ moved_among was configs

-- `_moved`.
unfoldable pub moved : Option DeclaredModels → List LlmConfig → List AliasFact
moved none configs = []
moved (some previous) configs = moved_among (by_alias previous.configs []) configs

-- What the read of the paid catalog came to: its parsed text, or what it raised.
pub data CatalogRead : Type 0 where
  holds : Dict Value → CatalogRead
  unread : (detail : String) → CatalogRead

abbrev pub follows_alias : Declared → Bool
follows_alias (entry cfg) = false
follows_alias (follows alias) = true

-- The targets of a catalog, or what its reading raises.
pub data Targets : Type 0 where
  targets : Dict CuratedModel → Targets
  raises : Fault → Targets

abbrev pub unless_twice : Option (Dict CuratedModel) → Targets
unless_twice none = raises invalid
unless_twice (some found) = targets found

abbrev pub targets_in : Rows → Targets
targets_in (refused fault) = raises fault
targets_in (rows ms) = unless_twice (targets_of ms (some []))

-- What a catalog that was not read leaves: a re-resolution raises.
abbrev pub failed_read : Option DeclaredModels → String → Option (Dict CuratedModel × Option String)
failed_read none detail = some ([], some detail)
failed_read (some previous) detail = none

-- Only a ValueError is caught; `message` is its text.
abbrev pub read_targets :
    Option DeclaredModels
    → (message : String) → Targets
    → Option (Dict CuratedModel × Option String)
read_targets previous message (targets found) = some (found, none)
read_targets previous message (raises invalid) = failed_read previous message
read_targets previous message (raises broken) = none

abbrev pub resolved_with :
    Option DeclaredModels → Dict CuratedModel → Resolution → DeclaredModels × List AliasFact
resolved_with previous found r = (
  record {
    configs = r.configs;
    key_help = key_help found r.configs (map (λ f. f.alias) r.dropped) previous;
    unresolved = r.unresolved;
  },
  moved previous r.configs ++ r.dropped,
)

module _ (py : Python) (default_weight : Double) where
  unfoldable pub catalog_alias_targets : Dict Value → Targets
  catalog_alias_targets catalog = targets_in (models_from py catalog)

  -- `_catalog_targets`; `none` is an exception.
  unfoldable pub catalog_targets :
      List Declared
      → Option DeclaredModels
      → (message : String) → CatalogRead
      → Option (Dict CuratedModel × Option String)
  catalog_targets declared previous message read =
      if any follows_alias declared
      then elim read [
        | unread detail ↦ failed_read previous detail
        | holds catalog ↦ read_targets previous message (catalog_alias_targets catalog)
      ]
      else some ([], none)

  unfoldable pub resolve_declared :
      List Declared
      → Option DeclaredModels
      → (message : String) → CatalogRead
      → Option (DeclaredModels × List AliasFact)
  resolve_declared declared previous message read =
      if is_empty declared
      then some (no_declared, [])
      else elim (catalog_targets declared previous message read) [
        | none ↦ none
        | some found ↦ some (
            resolved_with previous found.0
              (each_declaration default_weight declared found.0 found.1 previous))
      ]
