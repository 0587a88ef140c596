-- ===== src/Metadata.antt =====
-- The optional fields of `LLMConfig` in src/llmbroker/models.py, written to a registry's JSON column
-- and read back. The log messages are left out.
pub mod Roundtrip
use llmbroker.Base.{
  ℕ, String, Bool, true, false, not, Option, none, some, List, [], ◌∷◌, Dict, lookup, insert, mem,
  filter, keys, any, or_else, if◌then◌else◌, is_empty, ℤ, pos, negsuc,
}
use llmbroker.Models.{
  Double, LlmConfig, Value, null, boolean, integer, real, text, table, array, Fields, no_fields,
  with_field,
}
use llmbroker.Optimizer.Floats.{FloatOps}

-- RESERVED_BODY_KEYS.
abbrev pub reserved_body_keys : List String
reserved_body_keys = "model" ∷ "messages" ∷ "stream" ∷ "stream_options" ∷ "tools" ∷ []

-- `check_request_params`, which the construction of a config runs: whether it raises.
unfoldable pub is_reserved_param : Dict Value → Bool
is_reserved_param params = any (λ k. mem k reserved_body_keys) (keys params)

unfoldable pub fields_of_dict : Dict Value → Fields
fields_of_dict [] = no_fields
fields_of_dict ((k, v) ∷ d) = with_field k v (fields_of_dict d)

unfoldable pub dict_of_fields : Fields → Dict Value
dict_of_fields no_fields = []
dict_of_fields (with_field k v others) = (k, v) ∷ dict_of_fields others

-- A conditional `metadata[key] = value`.
unfoldable pub put : Option Value → String → Dict Value → Dict Value
put none key metadata = metadata
put (some v) key metadata = insert key v metadata

abbrev pub parallel_value : Option ℕ → Option Value
parallel_value none = none
parallel_value (some cap) = some (integer (pos cap))

abbrev pub preset_value : Bool → Option Value
preset_value from_preset = if from_preset then some (boolean true) else none

abbrev pub alias_value : Option String → Option Value
alias_value none = none
alias_value (some alias) = some (text alias)

abbrev pub params_value : Dict Value → Option Value
params_value params = if is_empty params then none else some (table (fields_of_dict params))

-- A cap below 0 admits no call, as 0 does; Python's `True` is the number 1.
unfoldable pub parallel_from : Option Value → Option ℕ
parallel_from (some (integer (pos n))) = some n
parallel_from (some (integer (negsuc n))) = some 0
parallel_from (some (boolean true)) = some 1
parallel_from (some (boolean false)) = some 0
parallel_from _ = none

unfoldable pub preset_from : Option Value → Bool
preset_from (some (boolean b)) = b
preset_from _ = false

unfoldable pub alias_from : Option Value → Option String
alias_from (some (text alias)) = some alias
alias_from _ = none

-- `_tool_params_from_metadata`.
unfoldable pub tool_params_from_metadata : Option Value → Dict Value
tool_params_from_metadata (some (table fields)) =
    filter (λ e. not (mem e.0 reserved_body_keys)) (dict_of_fields fields)
tool_params_from_metadata _ = []

-- `float(n)` of an integer is a parameter.
module _ (fl : FloatOps) (float_of : ℤ → Double) where
  open fl use {of_ℕ, lt, is_zero}

  abbrev pub weight_value : Double → Option Value
  weight_value weight = if is_zero weight then none else some (real weight)

  -- `min(1.0, max(0.0, x))`.
  unfoldable pub clamped : Double → Double
  clamped x =
      let low = if lt (of_ℕ 0) x then x else of_ℕ 0 in if lt low (of_ℕ 1) then low else of_ℕ 1

  -- `_weight_from_metadata`.
  unfoldable pub weight_from_metadata : Option Value → Double
  weight_from_metadata (some (real x)) = clamped x
  weight_from_metadata (some (integer n)) = clamped (float_of n)
  weight_from_metadata _ = of_ℕ 0

  unfoldable pub to_metadata : LlmConfig → Dict Value
  to_metadata c = put (params_value c.tool_params) "tool_params" (
      put (weight_value c.weight) "weight" (
        put (alias_value c.alias) "alias" (
          put (preset_value c.from_preset) "from_preset"
            (put (parallel_value c.parallel) "parallel" []))))

  unfoldable pub from_metadata :
      (name base_url model api_key_ref : String) → Option (Dict Value) → LlmConfig
  from_metadata name base_url model api_key_ref blob =
      let metadata = or_else blob [] in
      record {
        name = name;
        base_url = base_url;
        model = model;
        api_key_ref = api_key_ref;
        parallel = parallel_from (lookup "parallel" metadata);
        from_preset = preset_from (lookup "from_preset" metadata);
        alias = alias_from (lookup "alias" metadata);
        weight = weight_from_metadata (lookup "weight" metadata);
        tool_params = tool_params_from_metadata (lookup "tool_params" metadata);
      }
