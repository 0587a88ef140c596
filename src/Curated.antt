-- ===== src/Curated.antt =====
-- src/llmbroker/broker/curated.py: the providers and the models of the parsed paid catalog.
use Prim.Native.String.{◌++◌ as str_append}
use llmbroker.Base.{
  String, false, Option, none, some, List, [], ◌∷◌, ◌++◌, Dict, lookup, if◌then◌else◌,
}
use llmbroker.Models.{Double, LlmConfig, Value, table}
use llmbroker.Metadata.{dict_of_fields, is_reserved_param}
use llmbroker.Values.{Python, is_truthy, str_or_empty, iterate}

pub record CuratedProvider : Type 0 where
  pub id : String
  pub base_url : String
  pub api_key_ref : String
  pub key_help : String
  pub label : String

pub record CuratedModel : Type 0 where
  pub provider : CuratedProvider
  pub model : String
  pub alias : Option String
  pub label : String
  pub tool_params : Dict Value

-- What reading a catalog raises: a ValueError, or the TypeError of a value that is no list.
pub data Fault : Type 0 where
  invalid broken : Fault

pub data Rows : Type 0 where
  rows : List CuratedModel → Rows
  refused : Fault → Rows

abbrev pub provider_model_name : CuratedProvider → String → String
provider_model_name p model = str_append p.id (str_append "-" model)

-- The default weight of a config is a float, which is the caller's here.
module _ (default_weight : Double) where
  -- A declaration of any model of a provider.
  unfoldable pub declare_provider : CuratedProvider → String → LlmConfig
  declare_provider p model = record {
    name = provider_model_name p model;
    base_url = p.base_url;
    model = model;
    api_key_ref = p.api_key_ref;
    parallel = none;
    from_preset = false;
    alias = none;
    weight = default_weight;
    tool_params = [];
  }

  -- A declaration of one row, which keeps the alias it came from. It checks its parameters, as every
  -- config does: `models_from` has refused a row whose parameters would not pass.
  unfoldable pub declare_model : CuratedModel → LlmConfig
  declare_model m = record (declare_provider m.provider m.model) {
    alias = m.alias;
    tool_params = m.tool_params;
  }

module _ (py : Python) where
  unfoldable pub provider_from : Dict Value → CuratedProvider
  provider_from entry = record {
    id = str_or_empty py (lookup "id" entry);
    base_url = str_or_empty py (lookup "base_url" entry);
    api_key_ref = str_or_empty py (lookup "api_key_ref" entry);
    key_help = str_or_empty py (lookup "key_help" entry);
    label = str_or_empty py (lookup "label" entry);
  }

  unfoldable pub tool_params_from : Option Value → Option (Dict Value)
  tool_params_from none = some []
  tool_params_from (some (table fields)) =
      if is_reserved_param (dict_of_fields fields) then none else some (dict_of_fields fields)
  tool_params_from (some _) = none

  -- `value.get(key, [])`, gone through.
  abbrev pub listed : Option Value → Option (List Value)
  listed none = some []
  listed (some v) = iterate v

  unfoldable pub providers_in : List Value → List CuratedProvider
  providers_in [] = []
  providers_in (table fields ∷ entries) =
      provider_from (dict_of_fields fields) ∷ providers_in entries
  providers_in (_ ∷ entries) = providers_in entries

  -- `none` is the TypeError.
  unfoldable pub providers_from : Dict Value → Option (List CuratedProvider)
  providers_from catalog = elim (listed (lookup "provider" catalog)) [
    | none ↦ none
    | some entries ↦ some (providers_in entries)
  ]

  -- `str(row["alias"]) if row.get("alias") else None`.
  abbrev pub named_alias : Option Value → Option String
  named_alias none = none
  named_alias (some v) = if is_truthy py v then some (py.str v) else none

  abbrev pub with_row : CuratedModel → Rows → Rows
  with_row m (rows ms) = rows (m ∷ ms)
  with_row m (refused fault) = refused fault

  abbrev pub checked_row :
      CuratedProvider → Dict Value → Option (Dict Value) → Rows → (model : String) → Rows
  checked_row provider row none rest model = refused invalid
  checked_row provider row (some tool_params) rest model =
      with_row
        (record {
          provider = provider;
          model = model;
          alias = named_alias (lookup "alias" row);
          label = str_or_empty py (lookup "label" row);
          tool_params = tool_params;
        })
        rest

  -- A row without a model id is none; one whose parameters no request could carry raises.
  abbrev pub row_model : CuratedProvider → Dict Value → Option Value → Rows → Rows
  row_model provider row none rest = rest
  row_model provider row (some id) rest =
      if is_truthy py id
      then checked_row provider row (tool_params_from (lookup "tool_params" row)) rest (py.str id)
      else rest

  unfoldable pub rows_in : CuratedProvider → List Value → Rows
  rows_in provider [] = rows []
  rows_in provider (table fields ∷ later) =
      let row = dict_of_fields fields in
      row_model provider row (lookup "model" row) (rows_in provider later)
  rows_in provider (_ ∷ later) = rows_in provider later

  -- What is read first raises first.
  abbrev pub both : Rows → Rows → Rows
  both (rows xs) (rows ys) = rows (xs ++ ys)
  both (rows xs) (refused fault) = refused fault
  both (refused fault) later = refused fault

  abbrev pub rows_of : CuratedProvider → Option (List Value) → Rows
  rows_of provider none = refused broken
  rows_of provider (some held) = rows_in provider held

  unfoldable pub models_in : List Value → Rows
  models_in [] = rows []
  models_in (table fields ∷ entries) =
      let entry = dict_of_fields fields in
      both (rows_of (provider_from entry) (listed (lookup "models" entry))) (models_in entries)
  models_in (_ ∷ entries) = models_in entries

  unfoldable pub models_from : Dict Value → Rows
  models_from catalog = elim (listed (lookup "provider" catalog)) [
    | none ↦ refused broken
    | some entries ↦ models_in entries
  ]
