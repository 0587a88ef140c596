-- ===== src/Values.antt =====
-- How src/llmbroker reads a value of a JSON body or of a TOML table the way Python does: its truth,
-- its text, the keys of a table and the elements of an array.
use text.Mathlib.Text.{◌==◌ as str_eq}
use llmbroker.Base.{
  String, Bool, true, false, not, Option, none, some, List, [], ◌∷◌, ◌==◌, lookup, map, keys,
  if◌then◌else◌, pos, negsuc,
}
use llmbroker.Models.{
  Double, Value, null, boolean, integer, real, table, array, Elements, no_elements, with_element,
  no_fields, with_field,
}
use llmbroker.Metadata.{dict_of_fields}

-- Python's `str` of a value, and the test of a float against 0.
pub record Python : Type 0 where
  pub str : Value → String
  pub is_zero : Double → Bool

unfoldable pub elements : Elements → List Value
elements no_elements = []
elements (with_element v others) = v ∷ elements others

-- `value.get(key)`: the inner `none` is a key that is missing, the outer one a value with no `get`.
unfoldable pub get : String → Value → Option (Option Value)
get key (table fields) = some (lookup key (dict_of_fields fields))
get key _ = none

-- `for x in value`: a table gives its keys; the characters of a text, which are no tables and which
-- every reader of a list of tables skips, are left out. `none` is the TypeError.
unfoldable pub iterate : Value → Option (List Value)
iterate (array held) = some (elements held)
iterate (table fields) = some (map Value.text (keys (dict_of_fields fields)))
iterate (Value.text s) = some []
iterate _ = none

module _ (py : Python) where
  -- Python's truth of a value.
  unfoldable pub is_truthy : Value → Bool
  is_truthy null = false
  is_truthy (boolean b) = b
  is_truthy (integer (pos n)) = not (n == 0)
  is_truthy (integer (negsuc n)) = true
  is_truthy (real x) = not (py.is_zero x)
  is_truthy (Value.text s) = not (str_eq s "")
  is_truthy (table no_fields) = false
  is_truthy (table (with_field k v others)) = true
  is_truthy (array no_elements) = false
  is_truthy (array (with_element v others)) = true

  -- `str(value or "")`.
  abbrev pub str_or_empty : Option Value → String
  str_or_empty none = ""
  str_or_empty (some v) = if is_truthy v then py.str v else ""
