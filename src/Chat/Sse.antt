-- ===== src/Chat/Sse.antt =====
-- src/llmbroker/chat.py: the chunks of an SSE stream, read line by line. `strip` is Python's
-- `str.strip`, and `loads` what `json.loads` makes of a text, `none` where it raises.
pub mod Lines
use Prim.Native.String.{◌++◌ as str_append}
use Prim.Native.Char.{Char}
use text.Mathlib.Text.{◌==◌ as str_eq}
use llmbroker.Base.{
  ℕ, zero, suc, String, Bool, true, false, not, Option, none, some, List, [], ◌∷◌, Dict, has_key,
  any, if◌then◌else◌,
}
use llmbroker.Models.{Value, table}
use llmbroker.Metadata.{dict_of_fields}

-- What follows a prefix, where the text starts with it.
unfoldable pub after_prefix : String → String → Option String
after_prefix String.[] s = some s
after_prefix (String.◌∷◌ c p) String.[] = none
after_prefix (String.◌∷◌ c p) (String.◌∷◌ d s) =
    if str_eq (String.◌∷◌ c String.[]) (String.◌∷◌ d String.[]) then after_prefix p s else none

pub record Reading : Type 0 where
  pub strip : String → String
  pub loads : String → Option Value

module _ (rd : Reading) where
  -- `_sse_payload`.
  unfoldable pub sse_payload : String → Option String
  sse_payload raw = elim (after_prefix "data:" (rd.strip raw)) [
    | none ↦ none
    | some rest ↦ some (rd.strip rest)
  ]

  abbrev pub object_of : Option Value → Option (Dict Value)
  object_of (some (table fields)) = some (dict_of_fields fields)
  object_of _ = none

  -- `_sse_object`.
  unfoldable pub sse_object : String → Option (Dict Value)
  sse_object payload = object_of (rd.loads payload)

  -- What one line is to the reader of the stream.
  pub data Line : Type 0 where
    ends skipped : Line
    carries : Dict Value → Line

  unfoldable pub line_of : String → Line
  line_of raw = elim (sse_payload raw) [
    | none ↦ skipped
    | some payload ↦
        if str_eq payload "[DONE]"
        then ends
        else elim (sse_object payload) [ none ↦ skipped | some chunk ↦ carries chunk ]
  ]

  -- What a line puts before the chunks of the lines after it.
  unfoldable pub put_before : Line → List (Dict Value) → List (Dict Value)
  put_before ends rest = []
  put_before skipped rest = rest
  put_before (carries chunk) rest = chunk ∷ rest

  -- `aiter_sse_chunks`.
  unfoldable pub sse_chunks : List String → List (Dict Value)
  sse_chunks [] = []
  sse_chunks (raw ∷ lines) = put_before (line_of raw) (sse_chunks lines)

  -- `aiter_chat_chunks`: the chunks, and whether its end raises, no chunk having had choices.
  unfoldable pub chat_chunks : List String → List (Dict Value) × Bool
  chat_chunks lines =
      let chunks = sse_chunks lines in (chunks, not (any (has_key "choices") chunks))
