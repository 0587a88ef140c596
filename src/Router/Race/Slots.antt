-- ===== src/Router/Race/Slots.antt =====
-- A race hands every slot back: how many calls are in flight on a slot is, at every point, the
-- number there was before, with one more for each lane that has not yet settled.
use text.Mathlib.Text.{◌==◌ as str_eq}
use llmbroker.Base.{
  ℕ, zero, suc, ◌+◌, ◌≤◌, String, ◌≡◌, refl, Bool, true, false, ◌&&◌, if_ind, Option, none, some,
  List, [], ◌∷◌, arith, Dict, Bool-cases, inl, inr, ap,
}
use llmbroker.Base.Counting.{count_if}
use llmbroker.Models.{LlmConfig}
use llmbroker.Http.Verdict.{Parsers}
use llmbroker.Optimizer.Floats.{FloatOps}
use llmbroker.Pool.Invariant.{IsValid}
use llmbroker.Pool
use llmbroker.Pool.Slots.{Slot}
use llmbroker.Pool.Handing.{HandsBack, release-HandsBack}
use llmbroker.KeyRing.{Ring, Secrets, resolve}
use llmbroker.Router.{still_holds, World, Limits, Moment, opened, new_attempt}
use llmbroker.Router.Attempts.{Handed, opened-Leaves}
use llmbroker.Router.Validity.{Keeps, opened-Keeps, release-IsValid}
use llmbroker.Router.Race.{
  Task, fresh, holding, settling, done, Standing, Lane, Move, begins, settles, ends, cuts_short,
  begun, settled, move, move_at, is_live, is_overtaken,
}
use llmbroker.Router.Race.Collecting.{owes, owes_name, owing}
use llmbroker.Router.Race.Pools.{flights, one_if, HandsBack-flights}

-- From one lane and world to the next, what the lane owes is what it has handed back.
pub record Settles (k : String) (lane lane' : Lane) (w w' : World) : Type 0 where
  pub same_config : lane'.config ≡ lane.config
  pub same_standing : lane'.standing ≡ lane.standing
  pub balanced :
      one_if (owes_name k lane) ≤ flights k w.pool.slots
      → flights k w'.pool.slots + one_if (owes_name k lane)
        ≡ flights k w.pool.slots + one_if (owes_name k lane')
  pub keeps : Keeps w w'

unmoved : (k : String) (lane : Lane) (w : World) → Settles k lane lane w w
unmoved k lane w = record {
  same_config = refl;
  same_standing = refl;
  balanced = λ h. refl;
  keeps = λ h. h;
}

balance :
    (k name : String) (d d' : Dict Slot) (before after : Bool)
    → HandsBack name d d'
    → before ≡ true
    → after ≡ false
    → one_if (str_eq name k && before) ≤ flights k d
    → flights k d' + one_if (str_eq name k && before)
      ≡ flights k d + one_if (str_eq name k && after)
balance k name d d' before after hands e e' h = elim (Bool-cases (str_eq name k)) [
  | inl hit ↦ ground (arith, HandsBack-flights name k d d' hands (ground arith))
  | inr miss ↦ ground (arith, HandsBack-flights name k d d' hands (ground arith))
]

balance_of :
    (k name : String) (d d' : Dict Slot) (before after : Bool)
    → Handed name after d d'
    → before ≡ true
    → one_if (str_eq name k && before) ≤ flights k d
    → flights k d' + one_if (str_eq name k && before)
      ≡ flights k d + one_if (str_eq name k && after)
balance_of k name d d' before true same e h = rw (same, e) refl
balance_of k name d d' before false hands e h = balance k name d d' before false hands e refl h

module _ (py : Parsers) (fl : FloatOps) (k : String) where
  begun-Settles :
      (key : Option String) (lane : Lane) (w : World) (rings : List Ring)
      → lane.task ≡ fresh
      → let (lane', w') = begun py fl key lane (record w { rings = rings }) in
        Settles k lane lane' w w'
  unfolding begun
  begun-Settles none lane w rings e = record {
    same_config = refl;
    same_standing = refl;
    balanced =
        balance k lane.config.name w.pool.slots (Pool.release lane.config w.pool).slots
          (owes lane.task) false (release-HandsBack lane.config w.pool) (ap owes e) refl;
    keeps = release-IsValid fl none lane.config w.pool;
  }
  begun-Settles (some key) lane w rings e = record {
    same_config = refl;
    same_standing = refl;
    balanced = λ h. rw e refl;
    keeps = λ h. h;
  }

  settled-Settles :
      (limits : Limits) (m : Moment) (lane : Lane) (w : World)
      → lane.task ≡ holding
      → Settles k lane (settled py fl limits m lane w).0 w (settled py fl limits m lane w).1
  unfolding settled
  settled-Settles limits m lane w e =
      let a = new_attempt lane.config limits m in
      let now = record m { superseded = is_overtaken lane.standing } in
      record {
        same_config = refl;
        same_standing = refl;
        balanced =
            balance_of k lane.config.name w.pool.slots (opened py a limits now w).1.pool.slots
              (owes lane.task) (still_holds (opened py a limits now w).0)
              (opened-Leaves py a limits now w) (ap owes e);
        keeps = opened-Keeps fl none py a limits now w;
      }

  abbrev pub Fits : Limits → Move → Lane → World → Type 0
  Fits limits m lane w =
      Settles k lane (move py fl limits m lane w).0 w (move py fl limits m lane w).1

  module _ (limits : Limits) (config : LlmConfig) (standing : Standing) (w : World) where
    abbrev with_task : Task → Lane
    with_task task = record { config = config; task = task; standing = standing }

    begins-Fits :
        (secrets : Secrets) (task : Task) → Fits limits (begins secrets) (with_task task) w
    unfolding move
    begins-Fits secrets fresh =
        let (key, rings) = resolve secrets w.rings config.api_key_ref in
        if_ind (λ (r : Lane × World). Settles k (with_task fresh) r.0 w r.1)
          (is_live (with_task fresh)) (begun-Settles key (with_task fresh) w rings refl)
          (unmoved k (with_task fresh) w)
    begins-Fits secrets holding = unmoved k (with_task holding) w
    begins-Fits secrets (settling e) = unmoved k (with_task (settling e)) w
    begins-Fits secrets (done e) = unmoved k (with_task (done e)) w

    settles-Fits : (m : Moment) (task : Task) → Fits limits (settles m) (with_task task) w
    unfolding move
    settles-Fits m fresh = unmoved k (with_task fresh) w
    settles-Fits m holding = settled-Settles limits m (with_task holding) w refl
    settles-Fits m (settling e) = unmoved k (with_task (settling e)) w
    settles-Fits m (done e) = unmoved k (with_task (done e)) w

    ends-Fits : (task : Task) → Fits limits ends (with_task task) w
    unfolding move
    ends-Fits fresh = unmoved k (with_task fresh) w
    ends-Fits holding = unmoved k (with_task holding) w
    ends-Fits (settling e) = record {
      same_config = refl;
      same_standing = refl;
      balanced = λ h. refl;
      keeps = λ h. h;
    }
    ends-Fits (done e) = unmoved k (with_task (done e)) w

    cuts-Fits : (task : Task) → Fits limits cuts_short (with_task task) w
    unfolding move
    cuts-Fits fresh =
        if_ind (λ (r : Lane × World). Settles k (with_task fresh) r.0 w r.1)
          (is_live (with_task fresh)) (unmoved k (with_task fresh) w)
          (record {
            same_config = refl;
            same_standing = refl;
            balanced =
                balance k config.name w.pool.slots (Pool.release config w.pool).slots true false
                  (release-HandsBack config w.pool) refl refl;
            keeps = release-IsValid fl none config w.pool;
          })
    cuts-Fits holding = unmoved k (with_task holding) w
    cuts-Fits (settling e) = unmoved k (with_task (settling e)) w
    cuts-Fits (done e) = unmoved k (with_task (done e)) w

  pub move-Fits : (limits : Limits) (m : Move) (lane : Lane) (w : World) → Fits limits m lane w
  move-Fits limits (begins secrets) lane w =
      begins-Fits limits lane.config lane.standing w secrets lane.task
  move-Fits limits (settles m) lane w = settles-Fits limits lane.config lane.standing w m lane.task
  move-Fits limits ends lane w = ends-Fits limits lane.config lane.standing w lane.task
  move-Fits limits cuts_short lane w = cuts-Fits limits lane.config lane.standing w lane.task

  -- The whole field, before and after one move.
  pub record Balanced (base : ℕ) (lanes : List Lane) (w : World) : Type 0 where
    pub owed : flights k w.pool.slots ≡ base + owing k lanes
    pub valid : IsValid w.pool

  pub move_at-Balanced :
      (limits : Limits) (n : ℕ) (m : Move) (base : ℕ) (lanes : List Lane) (w : World)
      → Balanced base lanes w
      → Balanced base (move_at py fl limits n m lanes w).0 (move_at py fl limits n m lanes w).1
  unfolding move_at count_if
  move_at-Balanced limits n m base [] w h = h
  move_at-Balanced limits zero m base (lane ∷ lanes) w h =
      let fits = move-Fits limits m lane w in
      record {
        owed = omega (arith, h.owed, fits.balanced (omega (arith, h.owed)));
        valid = fits.keeps h.valid;
      }
  move_at-Balanced limits (suc n) m base (lane ∷ lanes) w h =
      let rest =
        move_at-Balanced limits n m (base + one_if (owes_name k lane)) lanes w
          (record { owed = omega (arith, h.owed); valid = h.valid }) in
      record { owed = omega (arith, rest.owed); valid = rest.valid }
