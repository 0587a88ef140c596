-- ===== src/Catalog/Measure.antt =====
-- src/llmbroker/broker/catalog.py: `_measure`, which counts the providers that the pool can use, with
-- `_held`, `_direct_without_keys`, `_pending`, `key_help` and `_read_key_help`. `PoolHealth` is of
-- src/llmbroker/models.py. A set of refs is a list with no repeats.
pub mod Partition
use text.Mathlib.Text.{◌==◌ as str_eq}
use llmbroker.Base.{
  ℕ, ◌==◌, String, Bool, true, false, not, ◌&&◌, ◌||◌, Option, none, some, List, [], ◌∷◌, ◌++◌, map,
  Dict, lookup, insert, keys, filter, mem, any, length, is_empty, is_some, or_else, if◌then◌else◌,
  ltb,
}
use llmbroker.Models.{LlmConfig, KeyInfo, PendingKey}
use llmbroker.Merge.{has_ref}
use llmbroker.KeyRing.{Secrets, Ring, payable, resolve}

pub record PoolHealth : Type 0 where
  pub providers_usable : ℕ
  pub providers_total : ℕ
  pub missing_keys : List PendingKey

-- Two providers is what failover takes.
abbrev pub min_usable_providers : ℕ
min_usable_providers = 2

unfoldable pub is_degraded : PoolHealth → Bool
is_degraded h = not (h.providers_total == 0) && ltb h.providers_usable min_usable_providers

-- `set.add`.
unfoldable pub set_add : String → List String → List String
set_add k ks = if mem k ks then ks else k ∷ ks

-- `missing.setdefault(ref, []).append(name)`.
unfoldable pub append_name : String → String → Dict (List String) → Dict (List String)
append_name ref name missing = insert ref (or_else (lookup ref missing) [] ++ name ∷ []) missing

abbrev pub held : (shared scoped : List String) → String → Bool
held shared scoped ref = mem ref shared || mem ref scoped

pub record Refs : Type 0 where
  pub usable : List String
  pub total : List String
  pub missing : Dict (List String)

abbrev pub no_refs : Refs
no_refs = record { usable = []; total = []; missing = [] }

-- One entry of the pool; `is_held` tells whether the installation has a key for a ref.
unfoldable pub count_ref : (is_held : String → Bool) → LlmConfig → Refs → Refs
count_ref is_held cfg r =
    if has_ref cfg
    then record {
      total = set_add cfg.api_key_ref r.total;
      usable = if is_held cfg.api_key_ref then set_add cfg.api_key_ref r.usable else r.usable;
      missing =
          if is_held cfg.api_key_ref
          then r.missing
          else append_name cfg.api_key_ref cfg.name r.missing;
    }
    else r

unfoldable pub count_refs : (is_held : String → Bool) → List LlmConfig → Refs → Refs
count_refs is_held [] r = r
count_refs is_held (cfg ∷ managed) r = count_refs is_held managed (count_ref is_held cfg r)

-- `{ref: names for ref, names in missing.items() if ref not in usable}`.
unfoldable pub held_back : Refs → Dict (List String)
held_back r = filter (λ e. not (mem e.0 r.usable)) r.missing

-- `cfg.alias or cfg.name`.
abbrev pub handle_of : LlmConfig → String
handle_of cfg = elim cfg.alias [
  | none ↦ cfg.name
  | some alias ↦ if str_eq alias "" then cfg.name else alias
]

-- The refs of the declared models that nothing resolves; the ring holds what it reads.
unfoldable pub direct_without_keys :
    Secrets
    → (scoped : List String) → List LlmConfig
    → Dict (List String)
    → List Ring
    → Dict (List String) × List Ring
direct_without_keys secrets scoped [] missing chain = (missing, chain)
direct_without_keys secrets scoped (cfg ∷ direct) missing chain =
    let (answer, chain') = resolve secrets chain cfg.api_key_ref in
    let shared = if is_some answer then cfg.api_key_ref ∷ [] else [] in
    let (missing', after) =
      if has_ref cfg
      then (
        if held shared scoped cfg.api_key_ref
            then missing
            else append_name cfg.api_key_ref (handle_of cfg) missing,
        chain',
      )
      else (missing, chain) in
    direct_without_keys secrets scoped direct missing' after

-- What is known of where keys come from: the registry's own, the followed list's, and the catalog's
-- for the declared models, where those have been resolved.
pub record Help : Type 0 where
  pub key_info : Dict KeyInfo
  pub followed_help : Dict KeyInfo
  pub declared_help : Option (Dict String)

abbrev pub is_helped : Dict KeyInfo → String → Bool
is_helped known ref = elim (lookup ref known) [
  | none ↦ false
  | some info ↦ not (str_eq info.help "")
]

abbrev pub help_in : Dict KeyInfo → String → String
help_in known ref = elim (lookup ref known) [ none ↦ "" | some info ↦ info.help ]

unfoldable pub key_help : Help → String → String
key_help h ref =
    if is_helped h.key_info ref
    then help_in h.key_info ref
    else if is_helped h.followed_help ref
    then help_in h.followed_help ref
    else elim h.declared_help [ none ↦ "" | some declared ↦ or_else (lookup ref declared) "" ]

-- What the registry and the followed list answer when they are read; `none` where they keep no help.
pub record HelpSources : Type 0 where
  pub registry : Option (Dict KeyInfo)
  pub followed : Option (Dict KeyInfo)

unfoldable pub read_key_help : HelpSources → (missing : List String) → Help → Help
read_key_help sources missing h =
    let stored = or_else sources.registry h.key_info in
    record h {
      key_info = stored;
      followed_help =
          if any (λ ref. not (is_helped stored ref)) missing
          then or_else sources.followed h.followed_help
          else h.followed_help;
    }

unfoldable pub pending : Help → Dict (List String) → List PendingKey
pending h refs =
    map (λ e. record { api_key_ref = e.0; help = key_help h e.0; entry_names = e.1 }) refs

-- What a measure leaves on the catalog.
pub record Measured : Type 0 where
  pub payable_refs : List String
  pub health : PoolHealth
  pub direct_missing_keys : List PendingKey
  pub help : Help
  pub chain : List Ring

unfoldable pub measure :
    Secrets
    → (scoped : List String) → HelpSources
    → Help
    → List Ring
    → (managed direct : List LlmConfig) → Measured
measure secrets scoped sources h chain managed direct =
    let (shared, chain') = payable secrets chain (map (λ c. c.api_key_ref) managed) in
    let r = count_refs (held shared scoped) managed no_refs in
    let (direct_held, chain'') = direct_without_keys secrets scoped direct [] chain' in
    let back = held_back r in
    let help' =
      if is_empty back && is_empty direct_held
      then h
      else read_key_help sources (keys back ++ keys direct_held) h in
    record {
      payable_refs = r.usable;
      health = record {
        providers_usable = length r.usable;
        providers_total = length r.total;
        missing_keys = pending help' back;
      };
      direct_missing_keys = pending help' direct_held;
      help = help';
      chain = chain'';
    }
