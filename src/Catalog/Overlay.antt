-- ===== src/Catalog/Overlay.antt =====
-- src/llmbroker/broker/catalog.py: `check_overlay`, `find_declared` and `_by_alias`. An error is the
-- name of what was raised, without its text.
pub mod Handles
use text.Mathlib.Text.{◌==◌ as str_eq}
use llmbroker.Base.{
  String, Bool, true, false, ◌&&◌, Option, none, some, List, [], ◌∷◌, ◌++◌, if◌then◌else◌, mem, any,
  find?, Dict, lookup, any_some,
}
use llmbroker.Models.{LlmConfig}
use llmbroker.Merge.{names}

pub data OverlayError : Type 0 where
  alias_twice name_twice name_taken alias_taken : String → OverlayError

abbrev pub alias_list : Option String → List String
alias_list none = []
alias_list (some alias) = alias ∷ []

-- `{c.alias for c in configs if c.alias is not None}`.
abbrev pub aliases : List LlmConfig → List String
aliases [] = []
aliases (c ∷ cs) = alias_list c.alias ++ aliases cs

abbrev pub is_alias : String → LlmConfig → Bool
is_alias alias c = any_some (λ a. str_eq a alias) c.alias

abbrev pub is_name : String → LlmConfig → Bool
is_name name c = str_eq c.name name

-- The checks of one declared model, in the order of the code.
unfoldable pub overlay_error :
    (stored : List LlmConfig) (seen_names seen_aliases : List String)
    → LlmConfig
    → Option OverlayError
overlay_error stored seen_names seen_aliases cfg =
    if any_some (λ a. mem a seen_aliases) cfg.alias
    then elim cfg.alias [ none ↦ none | some a ↦ some (alias_twice a) ]
    else if mem cfg.name seen_names
    then some (name_twice cfg.name)
    else if mem cfg.name (names stored)
    then some (name_taken cfg.name)
    else elim cfg.alias [
      | none ↦ none
      | some a ↦ if mem a (aliases stored) then some (alias_taken a) else none
    ]

unfoldable pub check_declared :
    (stored : List LlmConfig) (seen_names seen_aliases : List String)
    → List LlmConfig
    → Option OverlayError
check_declared stored seen_names seen_aliases [] = none
check_declared stored seen_names seen_aliases (cfg ∷ declared) =
    let rest =
      check_declared stored (cfg.name ∷ seen_names) (alias_list cfg.alias ++ seen_aliases)
        declared in
    elim (overlay_error stored seen_names seen_aliases cfg) [ some e ↦ some e | none ↦ rest ]

unfoldable pub check_overlay : (stored declared : List LlmConfig) → Option OverlayError
check_overlay stored declared = check_declared stored [] [] declared

-- `direct()` takes an alias, or a name.
pub data Handle : Type 0 where
  by_alias by_name : String → Handle

pub data Found : Type 0 where
  found : LlmConfig → Found
  -- UnknownModelError for a handle of the paid catalog, with the reason that was kept for it.
  unresolved_handle : (message : String) → Found
  -- UnknownModelError where the string is a declared model's other handle, and where it is none.
  other_keyspace unknown_model : Found
  pool_model : Found

-- What a miss says: the string is the other handle of a declared model, or a pool model's name.
abbrev pub missed :
    (is_other : LlmConfig → Bool) (name : String) (stored declared : List LlmConfig) → Found
missed is_other name stored declared =
    if any is_other declared
    then other_keyspace
    else if any (is_name name) stored
    then pool_model
    else unknown_model

unfoldable pub find_declared :
    (stored declared : List LlmConfig) (unresolved : Dict String) → Handle → Found
find_declared stored declared unresolved (by_alias alias) = elim (find? (is_alias alias) declared) [
  | some cfg ↦ found cfg
  | none ↦ elim (lookup alias unresolved) [
    | some message ↦ unresolved_handle message
    | none ↦ missed (is_name alias) alias stored declared
  ]
]
find_declared stored declared unresolved (by_name name) = elim (find? (is_name name) declared) [
  | some cfg ↦ found cfg
  | none ↦ missed (is_alias name) name stored declared
]
