-- ===== src/Router/Race/Collecting.antt =====
-- What the driver of a race does to its lanes: it changes their standing, and no task.
use text.Mathlib.Text.{◌==◌ as str_eq}
use llmbroker.Base.{
  ℕ, ◌+◌, String, ◌≡◌, refl, Bool, true, ◌&&◌, if_ind, List, [], ◌∷◌, arith, map, ap,
}
use llmbroker.Base.Counting.{count_if}
use llmbroker.Models.{LlmConfig}
use llmbroker.Router.{Ended, answered, gave_up, crashed, overflowed, still_holds}
use llmbroker.Router.Calls.{RouteCall}
use llmbroker.Router.Race.{
  Task, fresh, holding, settling, done, Standing, Lane, open_lane, Phase, racing, lost, won, broke,
  set_standing, collect_ended, collect_one, collect, is_live,
}
use llmbroker.Router.Race.Pools.{one_if}

-- A task that has not settled owes its slot, and so does one that has settled by an OverflowError
-- and left it in flight.
abbrev pub owes : Task → Bool
owes fresh = true
owes holding = true
owes (settling e) = still_holds e
owes (done e) = still_holds e

abbrev pub owes_name : String → Lane → Bool
owes_name k lane = str_eq lane.config.name k && owes lane.task

abbrev pub owing : String → List Lane → ℕ
owing k lanes = count_if (owes_name k) lanes

-- What the driver does to a lane changes its standing alone.
abbrev pub Same : Lane → Lane → Type 0
Same lane lane' = (lane'.config ≡ lane.config) × (lane'.task ≡ lane.task)

collect_ended-Same :
    (e : Ended) (lane : Lane) (call : RouteCall) (phase : Phase)
    → Same lane (collect_ended e lane call phase).0
unfolding collect_ended
collect_ended-Same e lane call (broke x) = (refl, refl)
collect_ended-Same (gave_up verdict) lane call racing = (refl, refl)
collect_ended-Same (gave_up verdict) lane call lost = (refl, refl)
collect_ended-Same (gave_up verdict) lane call (won c t u) = (refl, refl)
collect_ended-Same (crashed x) lane call racing = (refl, refl)
collect_ended-Same (crashed x) lane call lost = (refl, refl)
collect_ended-Same (crashed x) lane call (won c t u) = (refl, refl)
collect_ended-Same (overflowed holds_slot) lane call racing = (refl, refl)
collect_ended-Same (overflowed holds_slot) lane call lost = (refl, refl)
collect_ended-Same (overflowed holds_slot) lane call (won c t u) = (refl, refl)
collect_ended-Same (answered content usage) lane call racing = (refl, refl)
collect_ended-Same (answered content usage) lane call lost = (refl, refl)
collect_ended-Same (answered content usage) lane call (won c t u) = (refl, refl)

pub collect_one-Same :
    (lane : Lane) (call : RouteCall) (phase : Phase) → Same lane (collect_one lane call phase).0
unfolding collect_one
collect_one-Same lane call phase = of_task lane.config lane.task lane.standing
  where
    of_task :
        (config : LlmConfig) (task : Task) (standing : Standing)
        → let lane' : Lane = record { config = config; task = task; standing = standing } in
          Same lane' (collect_one lane' call phase).0
    of_task config fresh standing = (refl, refl)
    of_task config holding standing = (refl, refl)
    of_task config (settling e) standing = (refl, refl)
    of_task config (done e) standing =
        let lane' : Lane = record { config = config; task = done e; standing = standing } in
        if_ind (λ (r : Lane × RouteCall × Phase). Same lane' r.0) (is_live lane')
          (collect_ended-Same e lane' call phase) (refl, refl)

owes-Same :
    (k : String) (lane lane' : Lane) → Same lane lane' → owes_name k lane' ≡ owes_name k lane
owes-Same k lane lane' (e, e') = rw (e, e') refl

pub owing-collect :
    (k : String) (lanes : List Lane) (call : RouteCall) (phase : Phase)
    → owing k (collect lanes call phase).0 ≡ owing k lanes
unfolding collect count_if
owing-collect k [] call phase = refl
owing-collect k (lane ∷ lanes) call phase =
    let (lane', call', phase') = collect_one lane call phase in
    rw (owes-Same k lane lane' (collect_one-Same lane call phase))
      (ap (λ n. one_if (owes_name k lane) + n) (owing-collect k lanes call' phase'))

pub owing-set_standing :
    (k : String) (standing : Standing) (lanes : List Lane)
    → owing k (map (set_standing standing) lanes) ≡ owing k lanes
unfolding count_if
owing-set_standing k standing [] = refl
owing-set_standing k standing (lane ∷ lanes) =
    rw
      (owes-Same k lane (set_standing standing lane)
        (if_ind (λ l. Same lane l) (is_live lane) (refl, refl) (refl, refl)))
      (ap (λ n. one_if (owes_name k lane) + n) (owing-set_standing k standing lanes))

pub owing-open_lane :
    (k : String) (configs : List LlmConfig)
    → owing k (map open_lane configs) ≡ count_if (λ c. str_eq c.name k) configs
unfolding count_if
owing-open_lane k [] = refl
owing-open_lane k (c ∷ configs) = ground (arith, owing-open_lane k configs)
