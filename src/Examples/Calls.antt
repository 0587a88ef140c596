-- ===== src/Examples/Calls.antt =====
-- The theorems on attempts, keys and ratings, on example calls.
use llmbroker.Router.{delay_of}
use llmbroker.Http.Verdict.{Parsers, Response, classify_status}
use llmbroker.Http.{is_rate_limit}
use llmbroker.Pool.{Pool}
use llmbroker.Models.{Instant}
use llmbroker.Base.{if◌then◌else◌, ℤ, ◌<◌}
use llmbroker.Base.{
  ◌≡◌, ◌≢◌, refl, ap, none, some, [], ◌∷◌, arith, lookup, negsuc, has_key, if◌then◌else◌,
}
use text.Mathlib.Text.{◌==◌ as str_eq}
use llmbroker.Optimizer.{record_quality}
use llmbroker.Optimizer.Windows.{Bucket, window_of}
use llmbroker.Optimizer.Ratings.{IsBounded, record_quality-IsBounded}
use llmbroker.Pool
use llmbroker.Pool.Slots.{Slot, new_slot, is_free, has_capacity}
use llmbroker.KeyRing.{Ring, new_ring, resolve_ref, read, own_ref, resolve_own, resolve, forget}
use llmbroker.KeyRing.Rejections.{forget-resolve}
use llmbroker.Router.{Attempt, new_attempt}
use llmbroker.Router.Settlements.{negative_delay_is_free}
use llmbroker.Examples.Samples.{vault, ring, learner, moment, limits, alpha, fleet}

abbrev attempted : Attempt
attempted = new_attempt alpha limits moment

-- The provider asks for five seconds less than none.
abbrev backwards : Response
backwards = record { status_code = 429; text = "slow down"; retry_after = some "-5" }

abbrev reads_five : Parsers
reads_five = record {
  parse_int = λ raw. if str_eq raw "-5" then some (negsuc 4) else none;
  parse_date = λ raw. none;
}

negative_delay_is_free_example :
    (delay : ℤ) × (p' : Pool) × (s' : Slot) × (until : Instant) × (delay_of
        (some learner)
        (classify_status reads_five 100 backwards)
        8
      ≡ some (some delay))
    × (Pool.cool_down 50_000_000 alpha delay fleet ≡ some p')
    × (lookup "alpha" p'.slots ≡ some s')
    × (s'.cooldown_until ≡ some until)
    × (until < 50_000_000)
    × (is_free 50_000_000 s' ≡ has_capacity s')
unfolding lookup is_rate_limit
negative_delay_is_free_example =
    negative_delay_is_free reads_five 100 50_000_000 backwards "-5" 4 8 learner alpha fleet
      (new_slot alpha 0) refl refl refl (omega arith) (omega arith) (omega arith) refl

beta-ne-alpha : ◌≢◌ {A = Bucket} ("beta", none) ("alpha", none)
beta-ne-alpha h = ground (arith, ap (λ (b : Bucket). str_eq b.0 "alpha") h)

record_quality-IsBounded_example :
    let opt' = record_quality learner "alpha" none "c3" 70 in
    IsBounded opt'
    × (window_of ("beta", none) opt'.scores ≡ window_of ("beta", none) learner.scores)
record_quality-IsBounded_example =
    record_quality-IsBounded learner "alpha" none "c3" 70 ("beta", none) beta-ne-alpha
      ((omega arith, refl), ((omega arith, refl), tt))

forget-resolve_example :
    (resolve vault (forget (resolve vault (ring ∷ []) "KEY_A").1 "KEY_A") "KEY_A").0 ≡ none
unfolding resolve resolve_own read resolve_ref own_ref lookup has_key new_ring
forget-resolve_example = forget-resolve vault vault (ring ∷ []) "KEY_A" refl

abbrev dropped : Ring
dropped = record ring { rejected = ("KEY_A", "stale") ∷ [] }
