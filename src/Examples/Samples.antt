-- ===== src/Examples/Samples.antt =====
-- The pool, the keys and the lists that the examples share.
use llmbroker.Base.{
  ℕ, ◌+◌, ◌-◌, ◌*◌, String, ◌≡◌, refl, true, false, none, some, [], ◌∷◌, arith, ltb, ◌==◌, eq_iff,
}
use text.Mathlib.Text.{◌==◌ as str_eq}
use llmbroker.Models.{LlmConfig}
use llmbroker.Base.Counting.{count_if}
use llmbroker.Optimizer.Floats.{FloatOps}
use llmbroker.Pool.{Pool}
use llmbroker.Pool.Slots.{Slot, new_slot}
use llmbroker.Pool.Reserve.{Boundary, Context}
use llmbroker.Pool.Reserve.Effects.{IsUnique}
use llmbroker.Pool.Acquire.{Request, Clocks}
use llmbroker.Pool.Invariant.{IsValid}
use llmbroker.Optimizer.{Optimizer}
use llmbroker.Http.Verdict.{Parsers, Response, http_status_error}
use llmbroker.KeyRing.{value, Secrets, Ring, new_ring}
use llmbroker.Router.{World, completed, raised, Moment, Limits}

-- Scores as whole numbers: enough to run the code.
abbrev pub floats : FloatOps
floats = record {
  of_ℕ = λ n. n;
  fadd = λ x y. x + y;
  fsub = λ x y. x - y;
  fmul = λ x y. x * y;
  fdiv = λ x y. x - y;
  sqrt = λ x. x;
  neg = λ x. 1000 - x;
  lt = ltb;
  is_zero = λ x. x == 0;
  inv_cdf = λ x. x;
}

abbrev pub alpha : LlmConfig
alpha = record {
  name = "alpha";
  base_url = "https://alpha.example/v1";
  model = "large";
  api_key_ref = "KEY_A";
  parallel = some 3;
  from_preset = true;
  alias = none;
  weight = 3;
  tool_params = [];
}

abbrev pub beta : LlmConfig
beta = record alpha { name = "beta"; api_key_ref = "KEY_B"; parallel = none; weight = 1 }

-- A recovery attempt is in flight on it, beside an earlier call.
abbrev pub recovering : Slot
recovering = record (new_slot alpha 0) {
  in_flight = 2;
  cooldown_until = some 50;
  recovery_due = true;
  recovery_claimed = true;
}

abbrev pub cooling_slot : Slot
cooling_slot = record (new_slot beta 1) { cooldown_until = some 500; recovery_due = true }

-- Two models, both free.
abbrev pub fleet : Pool
fleet = record {
  slots = ("alpha", new_slot alpha 0) ∷ ("beta", new_slot beta 1) ∷ [];
  next_order = 2;
  budget_bounds = [];
}

-- One whose recovery is under way, and one that is cooling.
abbrev pub troubled : Pool
troubled = record fleet { slots = ("alpha", recovering) ∷ ("beta", cooling_slot) ∷ [] }

two-IsUnique : (a b : String) (s t : Slot) → str_eq a b ≡ false → IsUnique ((a, s) ∷ (b, t) ∷ [])
unfolding count_if
two-IsUnique a b s t h k = ground (arith, eq_iff a b, eq_iff a k, eq_iff b k)

pub fleet-IsUnique : IsUnique fleet.slots
fleet-IsUnique = two-IsUnique "alpha" "beta" _ _ refl

pub troubled-IsUnique : IsUnique troubled.slots
troubled-IsUnique = two-IsUnique "alpha" "beta" _ _ refl

abbrev pub everyone : Boundary
everyone = record { payable = "KEY_A" ∷ "KEY_B" ∷ []; exclude = []; eligible_names = none }

abbrev pub single : Context
single = record { width = 1; recovery_width = 2; remaining = none; now = 100; operation = none }

abbrev pub request : Request
request = record {
  boundary = everyone;
  width = 1;
  recovery_width = 2;
  operation = none;
  queue_deadline = some 40;
  answer_deadline = none;
}

-- The readings of a round.
abbrev pub at_reading : ℕ → Clocks
at_reading t = record { now = t; asked = t; checked = t; waited = t }

abbrev pub parsers : Parsers
parsers = record { parse_int = λ s. none; parse_date = λ s. none }

-- A backend that answers every ref.
abbrev pub vault : Secrets
vault = record { ask = λ ref. value "secret"; is_blank = λ s. false }

abbrev pub ring : Ring
ring = new_ring none none

abbrev pub learner : Optimizer
learner = record {
  max_delay = 3_600_000_000;
  backoff_factor = 2;
  quality_floor = 50;
  quality_confidence = 90;
  quality_window = 2;
  quality_min_count = 2;
  prior_strength = 5;
  rl_fail_counts = ("alpha", 3) ∷ [];
  scores = ((("alpha", none), ("c1", 80) ∷ ("c2", 90) ∷ []) ∷ (("beta", none), []) ∷ []);
}

abbrev pub world : World
world = record { pool = fleet; rings = ring ∷ []; opt = some learner; journal = [] }

abbrev pub throttled : Response
throttled = record { status_code = 429; text = "slow down"; retry_after = none }

abbrev pub moment : Moment
moment = record {
  secrets = vault;
  call_id = "c9";
  t0 = 10;
  asked = 20;
  ended = 9_000;
  classified_at = 100;
  bounded_at = 100;
  cooled_at = 100;
  until_at = 100;
  recorded_at = 101;
  reply = raised (http_status_error throttled);
  superseded = false;
  stored = true;
}

abbrev pub limits : Limits
limits = record { answer_deadline = none; operation = none; trace_id = none; scope = none }

-- The provider answers.
abbrev pub answering : Moment
answering = record moment { reply = completed "hello" none }

pub fleet-IsValid : IsValid fleet
fleet-IsValid = record {
  unique = fleet-IsUnique;
  sound = (
    record {
      named = refl;
      due_cooled = refl;
      claimed_due = λ e. cc;
      claimed_busy = λ e. cc;
      ordered = omega arith;
    },
    (
      record {
        named = refl;
        due_cooled = refl;
        claimed_due = λ e. cc;
        claimed_busy = λ e. cc;
        ordered = omega arith;
      },
      tt,
    ),
  );
}
