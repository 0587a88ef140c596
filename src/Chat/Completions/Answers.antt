-- ===== src/Chat/Completions/Answers.antt =====
-- What a body that answers says.
use text.Mathlib.Text.{◌==◌ as str_eq}
use llmbroker.Base.{
  ◌≡◌, subst, Bool, false, not, ◌&&◌, Option, none, some, ℤ, Dict, Bool-cases, inl, inr, is_some,
}
use llmbroker.Models.{Double, Value}
use llmbroker.Values.{Python, get, str_or_empty}
use llmbroker.Chat.Completions.{
  Completion, Parsed, parsed, parts_of, parse_message, parse_completion, message_from_response,
  tool_calls_in,
}

module _ (py : Python) (whole : Double → Option ℤ) where
  abbrev pub says_nothing : Completion py whole → Bool
  says_nothing c = str_eq c.content "" && not (is_some c.tool_calls)

  Speaks : Parsed py whole → Type 0
  Speaks (parsed c) = says_nothing c ≡ false
  Speaks _ = Unit {0}

  parts_of-Speaks :
      (body : Dict Value) (content calls : Option (Option Value))
      → Speaks (parts_of py whole body content calls)
  unfolding parts_of Speaks
  parts_of-Speaks body none calls = tt
  parts_of-Speaks body (some content) none = tt
  parts_of-Speaks body (some content) (some calls) =
      elim (Bool-cases
        (str_eq (str_or_empty py content) "" && not (is_some (tool_calls_in py whole calls)))) [
          | inl b ↦ rw b tt
          | inr b ↦ rw b b
        ]

  parse_message-Speaks :
      (body : Dict Value) (message : Option Value) → Speaks (parse_message py whole body message)
  unfolding parse_message Speaks
  parse_message-Speaks body none = tt
  parse_message-Speaks body (some message) =
      parts_of-Speaks body (get "content" message) (get "tool_calls" message)

  -- A body that is taken for an answer carries a text or tool calls.
  pub parse_completion-speaks :
      (body : Value) (c : Completion py whole)
      → parse_completion py whole body ≡ parsed c
      → (str_eq c.content "" && not (is_some c.tool_calls)) ≡ false
  unfolding Speaks parse_completion
  parse_completion-speaks body c e =
      subst Speaks e (parse_message-Speaks _ (message_from_response body))
