-- ===== src/Chat/Requests.antt =====
-- src/llmbroker/chat.py: `build_chat_request`, the url, the headers and the body of a request.
pub mod Bodies
use Prim.Native.String.{◌++◌ as str_append}
use llmbroker.Base.{
  String, Bool, true, false, ◌||◌, Option, none, some, List, [], ◌∷◌, ◌++◌, Dict, insert,
  if◌then◌else◌,
}
use llmbroker.Models.{
  Value, boolean, text, table, array, Elements, no_elements, with_element, no_fields, with_field,
}
use llmbroker.Metadata.{is_reserved_param}

pub record ChatRequest : Type 0 where
  pub url : String
  pub headers : Dict String
  pub body : Dict Value

-- `body.update(params)`.
unfoldable pub merged : Dict Value → Dict Value → Dict Value
merged body [] = body
merged body ((k, v) ∷ params) = merged (insert k v body) params

-- What a call asks for. No tools and an empty list of tools are the same.
pub record Asked : Type 0 where
  pub base_url : String
  pub model : String
  pub api_key : String
  pub messages : Elements
  pub tools : Elements
  pub stream : Bool
  pub params : Dict Value
  pub tool_params : Dict Value

abbrev pub has_tools : Elements → Bool
has_tools no_elements = false
has_tools (with_element first others) = true

-- The keys that the builder writes itself.
unfoldable pub own_fields : Asked → Dict Value
own_fields a =
    (("model", text a.model) ∷ ("messages", array a.messages) ∷ [])
    ++ ((if has_tools a.tools
          then ("tools", array a.tools) ∷ ("tool_choice", text "auto") ∷ []
          else [])
        ++ (if a.stream
            then ("stream", boolean true)
              ∷ ("stream_options", table (with_field "include_usage" (boolean true) no_fields))
              ∷ []
            else []))

-- What goes into the body over those keys; what the model needs with tools goes with tools alone.
unfoldable pub with_params : Asked → Dict Value → Dict Value
with_params a body = merged (if has_tools a.tools then merged body a.tool_params else body) a.params

-- `none` is the ValueError that refuses a parameter.
unfoldable pub build_chat_request : Asked → Option ChatRequest
build_chat_request a =
    if is_reserved_param a.tool_params || is_reserved_param a.params
    then none
    else some (record {
      url = str_append a.base_url "/chat/completions";
      headers = ("Authorization", str_append "Bearer " a.api_key) ∷ [];
      body = with_params a (own_fields a);
    })
