-- ===== src/Store/Rows.antt =====
-- A call survives its row.
use llmbroker.Base.{◌≡◌, ◌⊎◌, inl, inr, refl, ap, true, Option, none, some}
use llmbroker.Models.{Call, Usage, Double}
use llmbroker.Store.{usage_columns, has_counts, usage_from, call_to_row, row_to_call}

-- A usage that says something.
abbrev pub IsCounted : Option Usage → Type 0
IsCounted u = (u ≡ none) ⊎ (has_counts (usage_columns u) ≡ true)

usage_from-columns : (u : Option Usage) → IsCounted u → usage_from (usage_columns u) ≡ u
unfolding usage_from usage_columns
usage_from-columns none h = refl
usage_from-columns (some u) (inl h) = absurd cc
usage_from-columns (some u) (inr h) = rw h refl

-- What the journal holds of a call is all of it: a call whose usage, where it has one, counts
-- anything, read back from its row with a score folded on, is the call with that score.
pub row_to_call-call_to_row :
    (c : Call) (score : Option Double)
    → (c.usage ≡ none) ⊎ (has_counts (usage_columns c.usage) ≡ true)
    → row_to_call (record (call_to_row c) { score = score }) ≡ record c { score = score }
unfolding row_to_call call_to_row
row_to_call-call_to_row c score h =
    ap (λ (u : Option Usage). record c { usage = u; score = score }) (usage_from-columns c.usage h)
