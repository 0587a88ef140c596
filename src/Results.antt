-- ===== src/Results.antt =====
-- src/llmbroker/broker/result.py: the rating of a routed call, and the life of a stream's handle;
-- with `Router._publish` and the checks of `_check_lanes` in src/llmbroker/broker/router.py, and of
-- scores, weights and limits in src/llmbroker/models.py.
pub mod Handles
use llmbroker.Base.{
  ℕ, String, Bool, true, false, not, ◌&&◌, ◌||◌, Option, none, some, List, [], ◌∷◌, if◌then◌else◌,
  is_some, ◌++◌, leb,
}
use llmbroker.Models.{Double, Usage}
use llmbroker.Optimizer.Floats.{FloatOps}
use llmbroker.Streaming.{Receipt}

-- The context of a handle: its receipt, its operation and its scope.
pub record RoutedCall : Type 0 where
  pub receipt : Receipt
  pub operation : Option String
  pub scope : Option String
  pub observes : Bool

-- What a rating does, in order: a row of the store, then the learner's window.
pub data Effect : Type 0 where
  stored : (call_id : String) (score : Double) (scope : Option String) → Effect
  observed :
      (llm_name : String) (operation : Option String) (call_id : String) (score : Double) → Effect

pub data Rated : Type 0 where
  -- `ValueError`: the score is out of range, or the call is not in the journal yet.
  bad_score unrateable : Rated
  rated : List Effect → Rated

-- `check_score` and `check_weight`; `le` is the order of floats, which no NaN stands in.
unfoldable pub is_unit : FloatOps → (Double → Double → Bool) → Double → Bool
is_unit fl le x = le (fl.of_ℕ 0) x && le x (fl.of_ℕ 1)

abbrev pub effects_of : RoutedCall → Option String → Option String → Double → Rated
effects_of c (some llm_name) (some call_id) score = rated (
    stored call_id score c.scope
    ∷ (if c.observes then observed llm_name c.operation call_id score ∷ [] else []))
effects_of c _ _ score = unrateable

-- `RoutedCall.record_quality`.
unfoldable pub record_quality : FloatOps → (Double → Double → Bool) → RoutedCall → Double → Rated
record_quality fl le c score =
    if not (is_unit fl le score)
    then bad_score
    else if not c.receipt.settled
    then unrateable
    else effects_of c c.receipt.llm_name c.receipt.call_id score

-- `AsyncResult`: a call that has answered.
unfoldable pub answered_call :
    Option Usage → String → String → Option String → Option String → Bool → RoutedCall
answered_call usage call_id llm_name operation scope observes = record {
  receipt = record {
    llm_name = some llm_name;
    call_id = some call_id;
    usage = usage;
    settled = true;
  };
  operation = operation;
  scope = scope;
  observes = observes;
}
