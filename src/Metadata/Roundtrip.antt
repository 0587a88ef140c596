-- ===== src/Metadata/Roundtrip.antt =====
-- A config that is written to a registry is read back as it was.
use package.text.Mathlib.Text.{◌==◌ as str_eq}
use llmbroker.Base.{
  ℕ, String, ◌≡◌, refl, sym, ◌∙◌, ap, Bool, true, false, not, Option, none, some, [], ◌∷◌, arith,
  Dict, lookup, lookup-insert, mem, filter, if◌then◌else◌, ℤ, Bool-cases, inl, inr,
}
use llmbroker.Models.{Double, LlmConfig, Value, text}
use llmbroker.Optimizer.Floats.{FloatOps}
use llmbroker.Metadata.{
  reserved_body_keys, is_reserved_param, fields_of_dict, dict_of_fields, put, parallel_value,
  preset_value, alias_value, params_value, parallel_from, preset_from, alias_from,
  tool_params_from_metadata, weight_value, clamped, weight_from_metadata, to_metadata,
  from_metadata,
}

abbrev got : Option Value → Option Value → Option Value
got none e = e
got (some v) e = some v

lookup-put :
    (k j : String) (o : Option Value) (d : Dict Value)
    → lookup k (put o j d) ≡ (if str_eq j k then got o (lookup k d) else lookup k d)
unfolding put
lookup-put k j none d = ground arith
lookup-put k j (some v) d = lookup-insert j k v d

got-none : (o : Option Value) → got o none ≡ o
got-none none = refl
got-none (some v) = refl

dict_of_fields-fields_of_dict : (d : Dict Value) → dict_of_fields (fields_of_dict d) ≡ d
unfolding dict_of_fields fields_of_dict
dict_of_fields-fields_of_dict [] = refl
dict_of_fields-fields_of_dict ((k, v) ∷ d) = ap (λ e. (k, v) ∷ e) (dict_of_fields-fields_of_dict d)

filter-unreserved :
    (d : Dict Value)
    → is_reserved_param d ≡ false
    → filter (λ e. not (mem e.0 reserved_body_keys)) d ≡ d
unfolding is_reserved_param
filter-unreserved [] h = refl
filter-unreserved (e ∷ d) h = elim (Bool-cases (mem e.0 reserved_body_keys)) [
  | inl hit ↦ absurd (ground (arith, hit))
  | inr miss ↦ rw miss (ap (λ rest. e ∷ rest) (filter-unreserved d (ground (arith, miss))))
]

parallel_from-parallel_value : (o : Option ℕ) → parallel_from (parallel_value o) ≡ o
unfolding parallel_from
parallel_from-parallel_value none = refl
parallel_from-parallel_value (some n) = refl

preset_from-preset_value : (b : Bool) → preset_from (preset_value b) ≡ b
unfolding preset_from
preset_from-preset_value true = refl
preset_from-preset_value false = refl

alias_from-alias_value : (o : Option String) → alias_from (alias_value o) ≡ o
unfolding alias_from
alias_from-alias_value none = refl
alias_from-alias_value (some a) = refl

tool_params-params_value :
    (d : Dict Value) → is_reserved_param d ≡ false → tool_params_from_metadata (params_value d) ≡ d
unfolding tool_params_from_metadata
tool_params-params_value [] h = refl
tool_params-params_value (e ∷ d) h =
    ap (filter (λ f. not (mem f.0 reserved_body_keys))) (dict_of_fields-fields_of_dict (e ∷ d))
    ∙ filter-unreserved (e ∷ d) h

lookup-nil : (k : String) → lookup {V = Value} k [] ≡ none
unfolding lookup
lookup-nil k = refl

-- What stands at each key of the blob.
module _ (o1 o2 o3 o4 o5 : Option Value) where
  abbrev d1 : Dict Value
  d1 = put o1 "parallel" []

  abbrev d2 : Dict Value
  d2 = put o2 "from_preset" d1

  abbrev d3 : Dict Value
  d3 = put o3 "alias" d2

  abbrev d4 : Dict Value
  d4 = put o4 "weight" d3

  abbrev d5 : Dict Value
  d5 = put o5 "tool_params" d4

  lookup-parallel : lookup "parallel" d5 ≡ o1
  lookup-parallel =
      lookup-put "parallel" "tool_params" o5 d4
      ∙ (lookup-put "parallel" "weight" o4 d3
          ∙ (lookup-put "parallel" "alias" o3 d2
              ∙ (lookup-put "parallel" "from_preset" o2 d1
                  ∙ (lookup-put "parallel" "parallel" o1 []
                      ∙ (ap (got o1) (lookup-nil "parallel") ∙ got-none o1)))))

  lookup-preset : lookup "from_preset" d5 ≡ o2
  lookup-preset =
      lookup-put "from_preset" "tool_params" o5 d4
      ∙ (lookup-put "from_preset" "weight" o4 d3
          ∙ (lookup-put "from_preset" "alias" o3 d2
              ∙ (lookup-put "from_preset" "from_preset" o2 d1
                  ∙ (ap (got o2)
                        (lookup-put "from_preset" "parallel" o1 [] ∙ lookup-nil "from_preset")
                      ∙ got-none o2))))

  lookup-alias : lookup "alias" d5 ≡ o3
  lookup-alias =
      lookup-put "alias" "tool_params" o5 d4
      ∙ (lookup-put "alias" "weight" o4 d3
          ∙ (lookup-put "alias" "alias" o3 d2
              ∙ (ap (got o3) (
                    lookup-put "alias" "from_preset" o2 d1
                    ∙ (lookup-put "alias" "parallel" o1 [] ∙ lookup-nil "alias"))
                  ∙ got-none o3)))

  lookup-weight : lookup "weight" d5 ≡ o4
  lookup-weight =
      lookup-put "weight" "tool_params" o5 d4
      ∙ (lookup-put "weight" "weight" o4 d3
          ∙ (ap (got o4) (
                lookup-put "weight" "alias" o3 d2
                ∙ (lookup-put "weight" "from_preset" o2 d1
                    ∙ (lookup-put "weight" "parallel" o1 [] ∙ lookup-nil "weight")))
              ∙ got-none o4))

  lookup-tool_params : lookup "tool_params" d5 ≡ o5
  lookup-tool_params =
      lookup-put "tool_params" "tool_params" o5 d4
      ∙ (ap (got o5) (
            lookup-put "tool_params" "weight" o4 d3
            ∙ (lookup-put "tool_params" "alias" o3 d2
                ∙ (lookup-put "tool_params" "from_preset" o2 d1
                    ∙ (lookup-put "tool_params" "parallel" o1 [] ∙ lookup-nil "tool_params"))))
          ∙ got-none o5)

-- A config is the sum of its fields.
rebuilt :
    (c : LlmConfig) (parallel : Option ℕ) (preset : Bool) (alias : Option String) (weight : Double)
    (params : Dict Value)
    → parallel ≡ c.parallel
    → preset ≡ c.from_preset
    → alias ≡ c.alias
    → weight ≡ c.weight
    → params ≡ c.tool_params
    → record c {
      parallel = parallel;
      from_preset = preset;
      alias = alias;
      weight = weight;
      tool_params = params;
    }
      ≡ c
rebuilt c parallel preset alias weight params p q r s t = rw (p, q, r, s, t) refl

module _ (fl : FloatOps) (float_of : ℤ → Double) where
  weight-weight_value :
      (w : Double)
      → clamped fl float_of w ≡ w
      → (fl.is_zero w ≡ true → w ≡ fl.of_ℕ 0)
      → weight_from_metadata fl float_of (weight_value fl float_of w) ≡ w
  unfolding weight_from_metadata
  weight-weight_value w kept zero = elim (Bool-cases (fl.is_zero w)) [
    | inl e ↦ rw e (sym (zero e))
    | inr e ↦ rw e kept
  ]

  -- Where its weight is one that reading does not clamp, and none of its tool parameters is a key
  -- that the request body reserves, a config that is written to a registry, as its core columns and
  -- its metadata, is read back as it was.
  pub from_metadata-to_metadata :
      (c : LlmConfig)
      → clamped fl float_of c.weight ≡ c.weight
      → (fl.is_zero c.weight ≡ true → c.weight ≡ fl.of_ℕ 0)
      → is_reserved_param c.tool_params ≡ false
      → from_metadata fl float_of c.name c.base_url c.model c.api_key_ref
          (some (to_metadata fl float_of c))
        ≡ c
  unfolding from_metadata to_metadata
  from_metadata-to_metadata c kept zero open_params =
      rebuilt c _ _ _ _ _
        (ap parallel_from (lookup-parallel o1 o2 o3 o4 o5)
          ∙ parallel_from-parallel_value c.parallel)
        (ap preset_from (lookup-preset o1 o2 o3 o4 o5) ∙ preset_from-preset_value c.from_preset)
        (ap alias_from (lookup-alias o1 o2 o3 o4 o5) ∙ alias_from-alias_value c.alias)
        (ap (weight_from_metadata fl float_of) (lookup-weight o1 o2 o3 o4 o5)
          ∙ weight-weight_value c.weight kept zero)
        (ap tool_params_from_metadata (lookup-tool_params o1 o2 o3 o4 o5)
          ∙ tool_params-params_value c.tool_params open_params)
    where
      o1 : Option Value
      o1 = parallel_value c.parallel

      o2 : Option Value
      o2 = preset_value c.from_preset

      o3 : Option Value
      o3 = alias_value c.alias

      o4 : Option Value
      o4 = weight_value fl float_of c.weight

      o5 : Option Value
      o5 = params_value c.tool_params
