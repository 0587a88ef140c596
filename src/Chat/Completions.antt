-- ===== src/Chat/Completions.antt =====
-- src/llmbroker/chat.py: what a decoded body comes to, whole (`_parse_completion`) and by chunks
-- (`parse_stream_chunk`). A value that the code cannot go through, where Python raises one of the
-- errors that it catches, is `none`.
pub mod Answers
use llmbroker.Base.{
  ℕ, zero, String, Bool, true, false, not, ◌&&◌, Option, none, some, List, [], ◌∷◌, ◌==◌, Dict,
  lookup, if◌then◌else◌, is_some, or_else, ℤ, pos, negsuc,
}
use text.Mathlib.Text.{◌==◌ as str_eq}
use llmbroker.Models.{
  Double, Value, null, boolean, integer, real, table, array, Elements, no_elements, with_element,
  no_fields, with_field, Usage,
}
use llmbroker.Metadata.{dict_of_fields}
use llmbroker.Values.{Python, is_truthy, str_or_empty, get}
use llmbroker.Chat.{parse_usage}

-- `value[key]` and `value[0]`; a text's first character is no object, and is not gone through.
unfoldable pub field : String → Value → Option Value
field key (table fields) = lookup key (dict_of_fields fields)
field key _ = none

unfoldable pub first : Value → Option Value
first (array (with_element v others)) = some v
first _ = none

abbrev pub bind : Option Value → (Value → Option Value) → Option Value
bind none f = none
bind (some v) f = f v

unfoldable pub message_from_response : Value → Option Value
message_from_response body = bind (bind (field "choices" body) first) (field "message")

module _ (py : Python) (whole : Double → Option ℤ) where
  -- `parse_tool_calls`, of the value at the key.
  unfoldable pub tool_calls_in : Option Value → Option Value
  tool_calls_in none = none
  tool_calls_in (some v) = if is_truthy py v then some v else none

  pub record Completion : Type 0 where
    pub content : String
    pub tool_calls : Option Value
    pub usage : Option Usage

  -- InvalidProviderResponseError in its two uses.
  pub data Parsed : Type 0 where
    parsed : Completion → Parsed
    invalid_body empty_answer : Parsed

  unfoldable pub parts_of : Dict Value → Option (Option Value) → Option (Option Value) → Parsed
  parts_of body (some content) (some calls) =
      let c : Completion = record {
        content = str_or_empty py content;
        tool_calls = tool_calls_in calls;
        usage = parse_usage whole body;
      } in
      if str_eq c.content "" && not (is_some c.tool_calls) then empty_answer else parsed c
  parts_of body _ _ = invalid_body

  abbrev entries : Value → Dict Value
  entries (table fields) = dict_of_fields fields
  entries _ = []

  unfoldable pub parse_message : Dict Value → Option Value → Parsed
  parse_message body none = invalid_body
  parse_message body (some message) =
      parts_of body (get "content" message) (get "tool_calls" message)

  -- `_parse_completion`.
  unfoldable pub parse_completion : Value → Parsed
  parse_completion body = parse_message (entries body) (message_from_response body)

  -- `_stream_delta`, of the value at "choices": a chunk without choices carries nothing.
  unfoldable pub delta_in : Option Value → Option String
  delta_in none = some ""
  delta_in (some choices) =
      if is_truthy py choices
      then elim (bind (first choices) (λ choice. elim (get "delta" choice) [
        | none ↦ none
        | some found ↦ some (or_else found (table no_fields))
      ])) [
        | none ↦ none
        | some delta ↦ elim (get "content" delta) [
          | none ↦ none
          | some content ↦ some (str_or_empty py content)
        ]
      ]
      else some ""

  -- `parse_stream_chunk`: `none` is the error of a body that is no stream.
  unfoldable pub parse_stream_chunk : Dict Value → Option (String × Option Usage)
  parse_stream_chunk chunk = elim (delta_in (lookup "choices" chunk)) [
    | none ↦ none
    | some delta ↦ some (delta, parse_usage whole chunk)
  ]
