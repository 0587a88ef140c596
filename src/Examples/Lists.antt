-- ===== src/Examples/Lists.antt =====
-- The theorems on merging and on stored configs, on examples.
use llmbroker.Base.{
  some, ◌≡◌, refl, Bool, true, false, ◌&&◌, [], ◌∷◌, ℤ, pos, negsuc, arith, All, lookup, insert,
  has_key, filter, no_repeats, eq_iff,
}
use package.text.Mathlib.Text.{◌==◌ as str_eq}
use llmbroker.Models.{LlmConfig, Double, text, ModelList, SyncReport}
use llmbroker.Merge.{
  ok, by_name_onto, by_name, keeps_model, check_model_identity, check_name_clash, keep_help,
  is_curated, is_owned, names, active, check_not_emptying, report_of, merge_upstream,
  merge_model_list,
}
use llmbroker.Merge.Entries.{KeepsModel, merge_upstream-entries}
use llmbroker.Merge.Idempotence.{merge_upstream_again}
use llmbroker.Metadata.{clamped, is_reserved_param, to_metadata, from_metadata}
use llmbroker.Metadata.Roundtrip.{from_metadata-to_metadata}
use llmbroker.Examples.Samples.{alpha, beta, floats}

-- Equality of the fields that the examples change.
abbrev same : LlmConfig → LlmConfig → Bool
same c d = str_eq c.name d.name && str_eq c.base_url d.base_url

same_refl : (c : LlmConfig) → same c c ≡ true
same_refl c = ground (arith, eq_iff c.name c.name, eq_iff c.base_url c.base_url)

abbrev own : LlmConfig
own = record beta { from_preset = false }

abbrev gamma : LlmConfig
gamma = record beta { name = "gamma" }

-- The installation follows `alpha` and has an entry of its own.
abbrev installed : ModelList
installed = record { configs = alpha ∷ own ∷ []; keys = [] }

abbrev arriving : ModelList
arriving = record {
  configs = record alpha { base_url = "https://alpha.example/v2" } ∷ gamma ∷ [];
  keys = [];
}

abbrev merged : ModelList
merged = record {
  configs = record alpha { base_url = "https://alpha.example/v2" } ∷ gamma ∷ own ∷ [];
  keys = keep_help [] [] (own ∷ []);
}

abbrev report : SyncReport
report = report_of same "preset" arriving installed merged.keys ("KEY_A" ∷ [])

merges : merge_upstream same arriving installed ("KEY_A" ∷ []) "preset" ≡ ok (merged, report)
unfolding lookup insert has_key by_name_onto keeps_model check_model_identity check_name_clash
    merge_upstream
merges = refl

merge_upstream-entries_example :
    (filter is_curated merged.configs ≡ filter is_curated arriving.configs)
    × (filter is_owned merged.configs ≡ filter is_owned installed.configs)
    × (no_repeats (names merged.configs) ≡ true)
    × All
        (KeepsModel (by_name (filter is_curated installed.configs)))
        (filter is_curated arriving.configs)
merge_upstream-entries_example =
    merge_upstream-entries same arriving installed ("KEY_A" ∷ []) "preset" merged report merges

merge_upstream_again_example :
    (m' : ModelList) × (r' : SyncReport) × (merge_upstream same arriving merged
        ("KEY_A" ∷ [])
        "preset"
      ≡ ok (m', r'))
    × (m'.configs ≡ merged.configs)
    × (r'.added ≡ [])
    × (r'.updated ≡ [])
    × (r'.removed ≡ [])
merge_upstream_again_example =
    merge_upstream_again same arriving installed ("KEY_A" ∷ []) "preset" merged report same_refl
      merges

abbrev nothing : ModelList
nothing = record { configs = []; keys = [] }

merges_nothing :
    merge_model_list same "preset" nothing nothing []
    ≡ ok (
      record { configs = []; keys = keep_help [] [] [] },
      report_of same "preset" nothing nothing (keep_help [] [] []) [],
    )
unfolding lookup by_name_onto check_model_identity check_name_clash check_not_emptying active
    merge_upstream merge_model_list
merges_nothing = refl

abbrev configured : LlmConfig
configured = record beta {
  alias = some "fast";
  tool_params = ("reasoning_effort", text "none") ∷ [];
}

abbrev float_of : ℤ → Double
float_of (pos n) = n
float_of (negsuc n) = 0

from_metadata-to_metadata_example :
    from_metadata floats float_of "beta" configured.base_url "large" "KEY_B"
      (some (to_metadata floats float_of configured))
    ≡ configured
unfolding clamped is_reserved_param
from_metadata-to_metadata_example =
    from_metadata-to_metadata floats float_of configured refl (λ h. cc) refl
