-- ===== src/Chat/Requests/Bodies.antt =====
-- What stands in the body of a request.
use text.Mathlib.Text.{◌==◌ as str_eq}
use llmbroker.Base.{
  String, ◌≡◌, refl, ◌∙◌, ap, true, false, ◌||◌, Option, none, some, [], ◌∷◌, arith, Dict, insert,
  lookup, lookup-insert, keys, mem, no_repeats, if◌then◌else◌, eq_iff, Bool-cases, inl, inr,
}
use llmbroker.Models.{Value}
use llmbroker.Metadata.{is_reserved_param}
use llmbroker.Chat.Requests.{
  ChatRequest, merged, Asked, has_tools, own_fields, with_params, build_chat_request,
}

abbrev pub first_of : Option Value → Option Value → Option Value
first_of none later = later
first_of (some v) later = some v

absent :
    (j k : String) (params : Dict Value)
    → str_eq j k ≡ true
    → mem j (keys params) ≡ false
    → lookup k params ≡ none
unfolding lookup
absent j k [] hit h = refl
absent j k ((i, v) ∷ params) hit h =
    let rest = absent j k params hit (ground (arith, h)) in
    ground (arith, rest, h, eq_iff i j, eq_iff j i, eq_iff i k, eq_iff j k)

lookup-merged :
    (k : String) (body params : Dict Value)
    → no_repeats (keys params) ≡ true
    → lookup k (merged body params) ≡ first_of (lookup k params) (lookup k body)
unfolding merged lookup
lookup-merged k body [] h = refl
lookup-merged k body ((j, v) ∷ params) h =
    lookup-merged k (insert j v body) params (ground (arith, h))
    ∙ rw (lookup-insert j k v body) (elim (Bool-cases (str_eq j k)) [
      | inl hit ↦
          let gone : lookup k params ≡ none = absent j k params hit (ground (arith, h)) in
          rw (hit, gone) refl
      | inr miss ↦ rw miss refl
    ])

-- What a call's parameters put at a key.
abbrev pub tool_params_of : Asked → Dict Value
tool_params_of a = if has_tools a.tools then a.tool_params else []

with_params-lookup :
    (a : Asked) (body : Dict Value) (k : String)
    → no_repeats (keys a.params) ≡ true
    → no_repeats (keys a.tool_params) ≡ true
    → lookup k (with_params a body)
      ≡ first_of (lookup k a.params) (first_of (lookup k (tool_params_of a)) (lookup k body))
unfolding with_params lookup
with_params-lookup a body k u u' = elim (Bool-cases (has_tools a.tools)) [
  | inl with_them ↦ rw with_them (
      lookup-merged k (merged body a.tool_params) a.params u
      ∙ ap (first_of (lookup k a.params)) (lookup-merged k body a.tool_params u'))
  | inr without ↦ rw (without, lookup) (lookup-merged k body a.params u)
]

-- The body of a request that is built.
body_of : Option ChatRequest → Dict Value
body_of none = []
body_of (some r) = r.body

built-body :
    (a : Asked) (r : ChatRequest)
    → build_chat_request a ≡ some r
    → (is_reserved_param a.params ≡ false) × (with_params a (own_fields a) ≡ r.body)
unfolding build_chat_request body_of
built-body a r e =
    elim (Bool-cases (is_reserved_param a.tool_params || is_reserved_param a.params)) [
      | inl refused ↦ absurd (ground (arith, e, refused))
      | inr fine ↦ (ground (arith, fine), rw fine at (ap body_of e))
    ]

-- Where a request is built and no parameter is given twice, at every key of its body stands the
-- call's own parameter; else, with tools, what the model needs with tools; else what the builder
-- wrote.
pub build-lookup :
    (a : Asked) (r : ChatRequest) (k : String)
    → no_repeats (keys a.params) ≡ true
    → no_repeats (keys a.tool_params) ≡ true
    → build_chat_request a ≡ some r
    → lookup k r.body
      ≡ first_of
          (lookup k a.params)
          (first_of (lookup k (tool_params_of a)) (lookup k (own_fields a)))
build-lookup a r k u u' e = rw (← (built-body a r e).1) (with_params-lookup a (own_fields a) k u u')
