-- ===== src/Examples/Catalogs.antt =====
-- The theorems on the catalog, on declared models and on requests, on example lists.
use Prim.Native.String.{◌++◌ as str_append}
use text.Mathlib.Text.{◌==◌ as str_eq}
use llmbroker.Base.{
  String, Option, Bool, some, none, ◌≡◌, ◌↔◌, refl, true, none, some, [], ◌∷◌, lookup, any, pos,
  if◌then◌else◌,
}
use llmbroker.Models.{LlmConfig, integer, no_elements}
use llmbroker.Catalog.Overlay.{check_overlay, aliases}
use llmbroker.Merge.{names}
use llmbroker.Catalog.Overlay.Handles.{are_free, check_overlay-are_free}
use llmbroker.Catalog.Membership.{reconcile}
use llmbroker.Catalog.Membership.Mirrors.{mirrored, entry_at, reconcile-mirrored}
use llmbroker.Catalog.Seeding.{seed_secrets}
use llmbroker.Catalog.Seeding.Preserves.{seeded, resolved, seed_secrets-seeded}
use llmbroker.Aliases.{DeclaredModels}
use llmbroker.Chat.Requests.{Asked, ChatRequest, own_fields, with_params, build_chat_request}
use llmbroker.Chat.Requests.Bodies.{first_of, tool_params_of, build-lookup}
use llmbroker.Metadata.{is_reserved_param}
use llmbroker.Examples.Samples.{alpha, beta, fleet}

abbrev opus : LlmConfig
opus = record beta { name = "opus-entry"; alias = some "opus" }

check_overlay-are_free_example :
    (check_overlay (alpha ∷ []) (opus ∷ []) ≡ none)
    ↔ (are_free (names (alpha ∷ [])) (aliases (alpha ∷ [])) (opus ∷ []) ≡ true)
check_overlay-are_free_example = check_overlay-are_free (alpha ∷ []) (opus ∷ [])

reconcile-mirrored_example :
    lookup "beta" (reconcile (beta ∷ opus ∷ []) fleet).slots
    ≡ mirrored (entry_at 0 "beta" (beta ∷ opus ∷ [])) (lookup "beta" fleet.slots) none
reconcile-mirrored_example = reconcile-mirrored (beta ∷ opus ∷ []) fleet "beta" refl

-- An environment that holds one key, and a backend that holds another.
abbrev exported : String → Option String
exported ref = if str_eq ref "KEY_A" then some "a-1" else none

abbrev is_blank_text : String → Bool
is_blank_text s = str_eq s " "

seed_secrets-seeded_example :
    resolved exported is_blank_text
      (seed_secrets exported is_blank_text (alpha ∷ beta ∷ []) (("KEY_B", "b-1") ∷ []))
      "KEY_A"
    ≡ seeded exported is_blank_text
        (any (λ c. str_eq c.api_key_ref "KEY_A") (alpha ∷ beta ∷ []))
        (("KEY_B", "b-1") ∷ [])
        "KEY_A"
seed_secrets-seeded_example =
    seed_secrets-seeded exported is_blank_text (alpha ∷ beta ∷ []) (("KEY_B", "b-1") ∷ []) "KEY_A"

-- What the last resolution served: one alias, which the catalog has since dropped.
abbrev served : DeclaredModels
served = record { configs = opus ∷ []; key_help = []; unresolved = [] }

abbrev asked : Asked
asked = record {
  base_url = "https://alpha.example/v1";
  model = "large";
  api_key = "secret";
  messages = no_elements;
  tools = no_elements;
  stream = true;
  params = ("temperature", integer (pos 0)) ∷ [];
  tool_params = [];
}

abbrev built : ChatRequest
built = record {
  url = str_append asked.base_url "/chat/completions";
  headers = ("Authorization", str_append "Bearer " asked.api_key) ∷ [];
  body = with_params asked (own_fields asked);
}

asked_is_built : build_chat_request asked ≡ some built
unfolding build_chat_request is_reserved_param
asked_is_built = refl

build-lookup_example :
    lookup "temperature" built.body
    ≡ first_of (lookup "temperature" asked.params) (
        first_of
          (lookup "temperature" (tool_params_of asked))
          (lookup "temperature" (own_fields asked)))
build-lookup_example = build-lookup asked built "temperature" refl refl asked_is_built
