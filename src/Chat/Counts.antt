-- ===== src/Chat/Counts.antt =====
-- Every token count that reaches the journal fits its 64-bit column.
use llmbroker.Base.{
  String, ◌≡◌, refl, subst, false, not, ◌&&◌, Option, none, some, [], ◌∷◌, arith, Dict, lookup, mem,
  All, if◌then◌else◌, is_empty, ℤ, pos, negsuc, ltb_ℤ, ◌≤ℤ◌, Bool-cases, inl, inr,
}
use llmbroker.Models.{Double, Value, null, boolean, integer, real, text, array, table, Usage}
use llmbroker.Metadata.{dict_of_fields}
use llmbroker.Chat.{
  max_int64, stored_count, stored_whole, known_counts, token_count, reported, extra_counts,
  usage_of, usage_in, parse_usage,
}

-- Within the range of a signed 64-bit number.
abbrev pub IsStorable : ℤ → Type 0
IsStorable n = (negsuc max_int64 ≤ℤ n) × (n ≤ℤ pos max_int64)

abbrev pub IsStorableCount : Option ℤ → Type 0
IsStorableCount none = Unit {0}
IsStorableCount (some n) = IsStorable n

-- A count of its own name, beside the three known ones.
abbrev pub IsExtra : String × ℤ → Type 0
IsExtra e = IsStorable e.1 × (mem e.0 known_counts ≡ false)

abbrev pub AreExtras : Option (Dict ℤ) → Type 0
AreExtras none = Unit {0}
AreExtras (some extra) = All IsExtra extra × (is_empty extra ≡ false)

abbrev pub IsStorableUsage : Usage → Type 0
IsStorableUsage u =
    IsStorableCount u.prompt_tokens
    × IsStorableCount u.completion_tokens
    × IsStorableCount u.total_tokens
    × AreExtras u.extra

some-inj : {u v : Usage} → some u ≡ some v → u ≡ v
some-inj e = cc

stored_count-IsStorable : (n : ℤ) → IsStorableCount (stored_count n)
unfolding stored_count
stored_count-IsStorable n =
    elim (Bool-cases (not (ltb_ℤ n (negsuc max_int64)) && not (ltb_ℤ (pos max_int64) n))) [
      | inl e ↦ rw e (ground (arith, e), ground (arith, e))
      | inr e ↦ rw e tt
    ]

counted-All :
    (k : String) (rest : Dict ℤ) (o : Option ℤ)
    → IsStorableCount o
    → mem k known_counts ≡ false
    → All IsExtra rest
    → All IsExtra (elim o [ none ↦ rest | some count ↦ (k, count) ∷ rest ])
counted-All k rest none h other hs = hs
counted-All k rest (some n) h other hs = ((h, other), hs)

module _ (whole : Double → Option ℤ) where
  stored_whole-IsStorable : (o : Option ℤ) → IsStorableCount (stored_whole o)
  stored_whole-IsStorable none = tt
  stored_whole-IsStorable (some n) = stored_count-IsStorable n

  token_count-IsStorable : (v : Value) → IsStorableCount (token_count whole v)
  unfolding token_count
  token_count-IsStorable null = tt
  token_count-IsStorable (boolean b) = tt
  token_count-IsStorable (integer n) = stored_count-IsStorable n
  token_count-IsStorable (real x) = stored_whole-IsStorable (whole x)
  token_count-IsStorable (text s) = tt
  token_count-IsStorable (table f) = tt
  token_count-IsStorable (array e) = tt

  reported-IsStorable : (o : Option Value) → IsStorableCount (reported whole o)
  reported-IsStorable none = tt
  reported-IsStorable (some v) = token_count-IsStorable v

  All-extra_counts : (raw : Dict Value) → All IsExtra (extra_counts whole raw)
  unfolding extra_counts
  All-extra_counts [] = tt
  All-extra_counts ((k, v) ∷ raw) = elim (Bool-cases (mem k known_counts)) [
    | inl known ↦ rw known (All-extra_counts raw)
    | inr other ↦ rw other (
        counted-All k (extra_counts whole raw) (token_count whole v) (token_count-IsStorable v)
          other (All-extra_counts raw))
  ]

  AreExtras-extra :
      (extra : Dict ℤ) → All IsExtra extra → AreExtras (if is_empty extra then none else some extra)
  AreExtras-extra [] h = tt
  AreExtras-extra (e ∷ extra) h = (h, refl)

  usage_of-IsStorable : (raw : Dict Value) → IsStorableUsage (usage_of whole raw)
  unfolding usage_of
  usage_of-IsStorable raw = (
    reported-IsStorable (lookup "prompt_tokens" raw),
    reported-IsStorable (lookup "completion_tokens" raw),
    reported-IsStorable (lookup "total_tokens" raw),
    AreExtras-extra (extra_counts whole raw) (All-extra_counts raw),
  )

  -- What is parsed of a response's usage can be stored: each of its counts is absent or within the
  -- range of a signed 64-bit number, and the extra counts, where there are any, are at least one,
  -- none of them under one of the three known names.
  pub parse_usage-IsStorable :
      (body : Dict Value) (u : Usage) → parse_usage whole body ≡ some u → IsStorableUsage u
  unfolding parse_usage usage_in
  parse_usage-IsStorable body u e = go (lookup "usage" body) e
    where
      go : (o : Option Value) → usage_in whole o ≡ some u → IsStorableUsage u
      go none e = absurd (ground arith)
      go (some (table raw)) e =
          subst IsStorableUsage (some-inj e) (usage_of-IsStorable (dict_of_fields raw))
      go (some null) e = absurd (ground arith)
      go (some (boolean b)) e = absurd (ground arith)
      go (some (integer n)) e = absurd (ground arith)
      go (some (real x)) e = absurd (ground arith)
      go (some (text s)) e = absurd (ground arith)
      go (some (array a)) e = absurd (ground arith)
