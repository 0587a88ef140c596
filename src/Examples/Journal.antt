-- ===== src/Examples/Journal.antt =====
-- The theorems on the journal's tail, on token counts and on the tool loop, on examples.
use llmbroker.Base.{
  refl, Option, ℕ, ◌==◌, true, false, none, some, List, [], ◌∷◌, lookup, Dict, ℤ, pos,
}
use llmbroker.Models.{Call, ok, error, Value, Double, integer, table, with_field, no_fields}
use llmbroker.Metadata.{dict_of_fields}
use llmbroker.Chat.{usage_of, usage_in, parse_usage}
use llmbroker.Chat.Counts.{IsStorableUsage, parse_usage-IsStorable}
use llmbroker.Learning.{stats_from_calls, budget_bounds_from_calls}
use llmbroker.Learning.Stats.{Describes, own_rows, stats_from_calls-Describes}
use llmbroker.Learning.Misses.{IsLargest, misses, budget_bounds_from_calls-IsLargest}
use llmbroker.ToolLoop.{ToolReply, Message, Host, returned, run_tool_loop}
use llmbroker.ToolLoop.Rounds.{Ends, run_tool_loop-Ends}

abbrev missed : Call
missed = record {
  id = "c1";
  llm_name = "alpha";
  operation = none;
  trace_id = none;
  status = some error;
  ts = some 900;
  http_status = none;
  latency_ms = some 5;
  error_detail = none;
  usage = none;
  score = none;
  scope = none;
  cooldown_until = none;
  budget_ms = some 30;
}

-- Newest first: two misses since the answer before them.
abbrev tail : List Call
tail =
    missed
    ∷ record missed { id = "c2"; budget_ms = some 50; ts = some 800 }
    ∷ record missed { id = "c3"; status = some ok; budget_ms = none; ts = some 700 }
    ∷ []

stats_from_calls-Describes_example :
    Describes (lookup "alpha" (stats_from_calls tail)) (own_rows "alpha" tail)
stats_from_calls-Describes_example = stats_from_calls-Describes tail "alpha"

budget_bounds_from_calls-IsLargest_example :
    IsLargest (lookup "alpha" (budget_bounds_from_calls 100 tail)) (misses 100 "alpha" tail)
budget_bounds_from_calls-IsLargest_example = budget_bounds_from_calls-IsLargest 100 tail "alpha"

abbrev host : Host
host = record { load_json = λ s. none; dispatch = λ name. some (λ fields. returned "sunny") }

-- Asks for the weather once, and then answers.
abbrev chat : ℕ → List Message → ToolReply
chat round convo = record {
  content = "It is sunny.";
  tool_calls = elim (round == 0) [
    | true ↦ record { name = "weather"; arguments = none; id = some "t1" } ∷ []
    | false ↦ []
  ];
}

run_tool_loop-Ends_example : Ends host chat 8 [] 0 (run_tool_loop host chat [] 8)
run_tool_loop-Ends_example = run_tool_loop-Ends host chat [] 8

abbrev whole : Double → Option ℤ
whole x = some (pos x)

abbrev body : Dict Value
body =
    (
      "usage",
      table (
          with_field "total_tokens" (integer (pos 12)) (
            with_field "cached" (integer (pos 9_223_372_036_854_775_808))
              (with_field "audio" (integer (pos 3)) no_fields))),
    )
    ∷ []

parse_usage-IsStorable_example : IsStorableUsage (
    usage_of whole (
      ("total_tokens", integer (pos 12))
      ∷ ("cached", integer (pos 9_223_372_036_854_775_808))
      ∷ ("audio", integer (pos 3))
      ∷ []))
unfolding lookup usage_in dict_of_fields parse_usage
parse_usage-IsStorable_example = parse_usage-IsStorable whole body _ refl
