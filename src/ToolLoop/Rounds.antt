-- ===== src/ToolLoop/Rounds.antt =====
-- How the tool loop ends, and what each round adds to the conversation.
use llmbroker.ToolLoop.{assistant}
use text.Mathlib.Text.{◌==◌ as str_eq}
use llmbroker.Base.{[], ◌++◌}
use llmbroker.Base.{ap}
use llmbroker.Base.{◌∷◌}
use llmbroker.ToolLoop.{run_tool}
use llmbroker.ToolLoop.{tool_result}
use llmbroker.Base.{map}
use llmbroker.ToolLoop.{ToolCall}
use llmbroker.ToolLoop.{execute_tool_calls}
use llmbroker.Base.{
  ℕ, zero, suc, ◌<◌, ◌≡◌, inl, inr, refl, sym, subst, not, Bool, true, false, Option, none, some,
  List, arith, if◌then◌else◌, is_empty, Bool-cases,
}
use llmbroker.ToolLoop.{ToolReply, Message, Host, advance_tool_loop, run_rounds, run_tool_loop}

abbrev pub all_below : (ℕ → Bool) → ℕ → Bool
all_below p zero = true
all_below p (suc n) = if p 0 then all_below (λ k. p (suc k)) n else false

is_final-advance :
    (host : Host) (convo : List Message) (r : ToolReply)
    → is_empty r.tool_calls ≡ (advance_tool_loop host convo r).1
unfolding advance_tool_loop
is_final-advance host convo r = elim (Bool-cases (is_empty r.tool_calls)) [
  | inl e ↦ rw e refl
  | inr e ↦ rw e refl
]

-- The conversation after a round: what it was, then the assistant's message, then the outcome of
-- each of its tool calls, in their order.
abbrev pub extended : Host → List Message → ToolReply → List Message
extended host convo r =
    (convo ++ assistant (if str_eq r.content "" then none else some r.content) r.tool_calls ∷ [])
    ++ map (λ call. tool_result call.id (run_tool host call)) r.tool_calls

execute_tool_calls-map :
    (host : Host) (calls : List ToolCall)
    → execute_tool_calls host calls ≡ map (λ call. tool_result call.id (run_tool host call)) calls
unfolding execute_tool_calls
execute_tool_calls-map host [] = refl
execute_tool_calls-map host (call ∷ calls) =
    ap (λ ms. tool_result call.id (run_tool host call) ∷ ms) (execute_tool_calls-map host calls)

advance_tool_loop-extended :
    (host : Host) (convo : List Message) (r : ToolReply)
    → is_empty r.tool_calls ≡ false
    → (advance_tool_loop host convo r).0 ≡ extended host convo r
unfolding advance_tool_loop
advance_tool_loop-extended host convo r asks =
    rw (asks, execute_tool_calls-map host r.tool_calls) refl

module _ (host : Host) (chat : ℕ → List Message → ToolReply) where
  -- The reply of a round, each asked with the conversation that the ones before it extended.
  abbrev pub reply_at : List Message → ℕ → ℕ → ToolReply
  reply_at convo round zero = chat round convo
  reply_at convo round (suc n) = reply_at (extended host convo (chat round convo)) (suc round) n

  abbrev pub is_final_at : List Message → ℕ → ℕ → Bool
  is_final_at convo round n = is_empty (reply_at convo round n).tool_calls

  abbrev pub asks_at : List Message → ℕ → ℕ → Bool
  asks_at convo round n = not (is_final_at convo round n)

  -- Every one of the rounds asks for tools, or the reply is the first that does not.
  abbrev pub Ends : ℕ → List Message → ℕ → Option ToolReply → Type 0
  Ends steps convo round none = all_below (asks_at convo round) steps ≡ true
  Ends steps convo round (some r) =
      (n : ℕ) × (n < steps)
      × (r ≡ reply_at convo round n)
      × (is_final_at convo round n ≡ true)
      × (all_below (asks_at convo round) n ≡ true)

  Ends-later :
      (steps : ℕ) (convo : List Message) (round : ℕ) (o : Option ToolReply)
      → is_final_at convo round 0 ≡ false
      → Ends steps (extended host convo (chat round convo)) (suc round) o
      → Ends (suc steps) convo round o
  Ends-later steps convo round none asks h = rw asks h
  Ends-later steps convo round (some r) asks (n, less, same, final, before) =
      (suc n, omega (arith, less), same, final, rw asks before)

  run_rounds-Ends :
      (steps : ℕ) (convo : List Message) (round : ℕ)
      → Ends steps convo round (run_rounds host chat steps round convo)
  unfolding run_rounds
  run_rounds-Ends zero convo round = refl
  run_rounds-Ends (suc steps) convo round = elim (Bool-cases (is_final_at convo round 0)) [
    | inl final ↦
        subst (Ends (suc steps) convo round) (sym (stops final)) (0, omega arith, refl, final, refl)
    | inr asks ↦ subst (Ends (suc steps) convo round) (sym (goes_on asks)) (
        Ends-later steps convo round later asks (
          subst (λ ms. Ends steps ms (suc round) later)
            (advance_tool_loop-extended host convo (chat round convo) asks)
            (run_rounds-Ends steps (advance_tool_loop host convo (chat round convo)).0
              (suc round))))
  ]
    where
      later : Option ToolReply
      later =
          run_rounds host chat steps (suc round) (advance_tool_loop host convo (chat round convo)).0

      ends : is_final_at convo round 0 ≡ (advance_tool_loop host convo (chat round convo)).1
      ends = is_final-advance host convo (chat round convo)

      stops :
          is_final_at convo round 0 ≡ true
          → (if (advance_tool_loop host convo (chat round convo)).1
              then some (chat round convo)
              else later)
            ≡ some (chat round convo)
      stops e = ground (arith, e, ends)

      goes_on :
          is_final_at convo round 0 ≡ false
          → (if (advance_tool_loop host convo (chat round convo)).1
              then some (chat round convo)
              else later)
            ≡ later
      goes_on e = ground (arith, e, ends)

  -- The loop returns the first reply that asks for no tools, each reply asked with the messages
  -- given, and after them, for each round before it, the assistant's message and one result for each
  -- tool call; and it takes at most `max_steps` rounds; it fails exactly where every
  -- one of those rounds asks for tools.
  pub run_tool_loop-Ends :
      (messages : List Message) (max_steps : ℕ)
      → Ends max_steps messages 0 (run_tool_loop host chat messages max_steps)
  unfolding run_tool_loop
  run_tool_loop-Ends messages max_steps = run_rounds-Ends max_steps messages 0
