-- ===== src/ToolLoop.antt =====
-- src/llmbroker/tool_loop.py: a chat driven until it asks for no tools. The blocking loop and the
-- asynchronous one take the same steps.
pub mod Rounds
use Prim.Native.String.{◌++◌ as str_append}
use llmbroker.Base.{
  ℕ, zero, suc, String, Bool, true, false, Option, none, some, List, [], ◌∷◌, ◌++◌, or_else,
  if◌then◌else◌, is_empty,
}
use llmbroker.Models.{Value, text, table, Fields, no_fields}
use llmbroker.KeyRing.{is_empty_text}

-- `call["function"]["name"]`, its arguments as they were sent, and the call's id.
pub record ToolCall : Type 0 where
  pub name : String
  pub arguments : Option String
  pub id : Option String

pub record ToolReply : Type 0 where
  pub content : String
  pub tool_calls : List ToolCall

pub data Message : Type 0 where
  given : Value → Message
  assistant : (content : Option String) (tool_calls : List ToolCall) → Message
  tool_result : (tool_call_id : Option String) (content : String) → Message

-- What a tool comes to: its output as text, or the text of what it raises.
pub data ToolOutput : Type 0 where
  returned failed : String → ToolOutput

-- `json.loads`, `none` where it raises, and the mapping from names to tools.
pub record Host : Type 0 where
  pub load_json : String → Option Value
  pub dispatch : String → Option (Fields → ToolOutput)

abbrev pub fields_of : Option Value → Fields
fields_of (some (table fields)) = fields
fields_of _ = no_fields

-- `arguments or "{}"`.
abbrev pub sent_arguments : Option String → String
sent_arguments none = "{}"
sent_arguments (some arguments) = if is_empty_text arguments then "{}" else arguments

abbrev pub output_text : String → ToolOutput → String
output_text name (returned output) = output
output_text name (failed problem) =
    str_append "Tool " (str_append name (str_append " failed: " problem))

module _ (host : Host) where
  unfoldable pub run_tool : ToolCall → String
  run_tool call =
      let args = fields_of (host.load_json (sent_arguments call.arguments)) in
      elim (host.dispatch call.name) [
        | none ↦ str_append "Unknown tool " call.name
        | some fn ↦ output_text call.name (fn args)
      ]

  unfoldable pub execute_tool_calls : List ToolCall → List Message
  execute_tool_calls [] = []
  execute_tool_calls (call ∷ calls) = tool_result call.id (run_tool call) ∷ execute_tool_calls calls

  -- The conversation after a reply, and whether the reply is final.
  unfoldable pub advance_tool_loop : List Message → ToolReply → List Message × Bool
  advance_tool_loop convo result = if is_empty result.tool_calls then (convo, true) else (
    (convo
          ++ assistant (if is_empty_text result.content then none else some result.content)
              result.tool_calls
            ∷ [])
        ++ execute_tool_calls result.tool_calls,
    false,
  )

  -- The loop over what is left of `max_steps`; `round` counts the rounds, since a chat need not
  -- answer the same conversation twice alike. `none` is the ToolLoopLimitError.
  unfoldable pub run_rounds :
      (ℕ → List Message → ToolReply) → ℕ → ℕ → List Message → Option ToolReply
  run_rounds chat zero round convo = none
  run_rounds chat (suc steps) round convo =
      let result = chat round convo in
      let (convo', final) = advance_tool_loop convo result in
      let rest = run_rounds chat steps (suc round) convo' in if final then some result else rest

  unfoldable pub run_tool_loop :
      (ℕ → List Message → ToolReply) → List Message → ℕ → Option ToolReply
  run_tool_loop chat messages max_steps = run_rounds chat max_steps 0 messages
