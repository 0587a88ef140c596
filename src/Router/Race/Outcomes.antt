-- ===== src/Router/Race/Outcomes.antt =====
-- What a waking driver decides: who has won, what breaks the race off, and that it never stands
-- still.
use llmbroker.Base.{
  ◌≡◌, refl, ◌∙◌, ap, sym, inl, inr, Bool, true, false, not, ◌||◌, if◌then◌else◌, Bool-cases,
  Option, none, some, List, [], ◌∷◌, arith, any, all,
}
use llmbroker.Models.{LlmConfig}
use llmbroker.Http.Verdict.{Exc}
use llmbroker.Router.{Ended, answered, gave_up, crashed, overflowed, overflow_error}
use llmbroker.Router.Calls.{RouteCall}
use llmbroker.Router.Race.{
  Task, fresh, holding, settling, done, Standing, live, overtaken, abandoned, handled, Lane,
  is_live, is_done, Phase, racing, lost, won, broke, collect_ended, collect_one, collect,
}

-- How a lane that is still in the race has ended.
abbrev pub settled_as : Lane → Option Ended
settled_as lane = elim lane.task [
  | fresh ↦ none
  | holding ↦ none
  | settling e ↦ none
  | done e ↦ if is_live lane then some e else none
]

abbrev crash_or : Option Ended → Option Exc → Option Exc
crash_or (some (crashed x)) later = some x
crash_or (some (overflowed holds_slot)) later = some overflow_error
crash_or _ later = later

abbrev answer_or : Option Ended → LlmConfig → Option Phase → Option Phase
answer_or (some (answered content usage)) config later = some (won config content usage)
answer_or _ config later = later

-- The first lane that crashed, and the first that answered.
unfoldable pub first_crash : List Lane → Option Exc
first_crash [] = none
first_crash (lane ∷ lanes) = crash_or (settled_as lane) (first_crash lanes)

unfoldable pub first_answer : List Lane → Option Phase
first_answer [] = none
first_answer (lane ∷ lanes) = answer_or (settled_as lane) lane.config (first_answer lanes)

-- What the settled lanes decide of a race in this phase.
abbrev pub decided : Option Exc → Option Phase → Phase → Phase
decided crash answer (broke x) = broke x
decided none answer (won config content usage) = won config content usage
decided (some x) answer (won config content usage) = broke x
decided (some x) answer _ = broke x
decided none (some winner) _ = winner
decided none none phase = phase

abbrev phase_of : List Lane × RouteCall × Phase → Phase
phase_of r = r.2

-- One lane settled, and what the others decide after it.
decided-ended :
    (e : Ended) (lane : Lane) (call : RouteCall) (phase : Phase) (crash : Option Exc)
    (answer : Option Phase)
    → decided crash answer (collect_ended e lane call phase).2
      ≡ decided (crash_or (some e) crash) (answer_or (some e) lane.config answer) phase
unfolding collect_ended
decided-ended e lane call (broke x) crash answer = refl
decided-ended (gave_up verdict) lane call racing crash answer = refl
decided-ended (gave_up verdict) lane call lost crash answer = refl
decided-ended (gave_up verdict) lane call (won c t u) crash answer = refl
decided-ended (crashed x) lane call racing crash answer = refl
decided-ended (crashed x) lane call lost crash answer = refl
decided-ended (crashed x) lane call (won c t u) crash answer = refl
decided-ended (overflowed holds_slot) lane call racing crash answer = refl
decided-ended (overflowed holds_slot) lane call lost crash answer = refl
decided-ended (overflowed holds_slot) lane call (won c t u) crash answer = refl
decided-ended (answered content usage) lane call racing none answer = refl
decided-ended (answered content usage) lane call racing (some x) answer = refl
decided-ended (answered content usage) lane call lost none answer = refl
decided-ended (answered content usage) lane call lost (some x) answer = refl
decided-ended (answered content usage) lane call (won c t u) none answer = refl
decided-ended (answered content usage) lane call (won c t u) (some x) answer = refl

decided-one :
    (lane : Lane) (call : RouteCall) (phase : Phase) (crash : Option Exc) (answer : Option Phase)
    → decided crash answer (collect_one lane call phase).2
      ≡ decided
          (crash_or (settled_as lane) crash)
          (answer_or (settled_as lane) lane.config answer)
          phase
unfolding collect_one
decided-one lane call phase crash answer = of_task lane.config lane.task lane.standing
  where
    of_task :
        (config : LlmConfig) (task : Task) (standing : Standing)
        → let lane' : Lane = record { config = config; task = task; standing = standing } in
          decided crash answer (collect_one lane' call phase).2
          ≡ decided
              (crash_or (settled_as lane') crash)
              (answer_or (settled_as lane') lane'.config answer)
              phase
    of_task config fresh standing = refl
    of_task config holding standing = refl
    of_task config (settling e) standing = refl
    of_task config (done e) live =
        let lane' : Lane = record { config = config; task = done e; standing = live } in
        decided-ended e lane' call phase crash answer
    of_task config (done e) overtaken = refl
    of_task config (done e) abandoned = refl
    of_task config (done e) handled = refl

decided_nothing : (phase : Phase) → decided none none phase ≡ phase
decided_nothing racing = refl
decided_nothing lost = refl
decided_nothing (won c t u) = refl
decided_nothing (broke x) = refl

-- The driver's loop over the settled lanes decides the race as their list says: where any of them
-- crashed, the first crash breaks the race off, even where another has answered; else the first
-- answer wins; else it goes on. A race that is decided already keeps its decision, but for a winner
-- beside whom a lane crashed.
pub collect-decided :
    (lanes : List Lane) (call : RouteCall) (phase : Phase)
    → (collect lanes call phase).2 ≡ decided (first_crash lanes) (first_answer lanes) phase
unfolding collect first_crash first_answer
collect-decided [] call phase = sym (decided_nothing phase)
collect-decided (lane ∷ lanes) call phase =
    let (lane', call', phase') = collect_one lane call phase in
    collect-decided lanes call' phase'
    ∙ decided-one lane call phase (first_crash lanes) (first_answer lanes)

abbrev pub is_broke : Phase → Bool
is_broke (broke x) = true
is_broke _ = false

collect_broke :
    (lanes : List Lane) (call : RouteCall) (phase : Phase)
    → is_broke phase ≡ true
    → is_broke (collect lanes call phase).2 ≡ true
collect_broke lanes call (broke x) h = ap is_broke (collect-decided lanes call (broke x))
collect_broke lanes call racing h = cc
collect_broke lanes call lost h = cc
collect_broke lanes call (won c t u) h = cc

-- A lane that no longer runs in the race, or has not ended.
abbrev pub has_ended : Lane → Bool
has_ended lane = not (is_live lane) || is_done lane.task

one_ended :
    (lane : Lane) (call : RouteCall) (phase : Phase)
    → has_ended lane ≡ true
    → (is_broke (collect_one lane call phase).2 || not (is_live (collect_one lane call phase).0))
      ≡ true
unfolding collect_one collect_ended
one_ended lane call phase = of_task lane.config lane.task lane.standing phase
  where
    of_ended :
        (e : Ended) (config : LlmConfig) (phase : Phase)
        → let lane' : Lane = record { config = config; task = done e; standing = live } in
          (is_broke (collect_ended e lane' call phase).2
            || not (is_live (collect_ended e lane' call phase).0))
          ≡ true
    of_ended e config (broke x) = refl
    of_ended (gave_up verdict) config racing = refl
    of_ended (gave_up verdict) config lost = refl
    of_ended (gave_up verdict) config (won c t u) = refl
    of_ended (crashed x) config racing = refl
    of_ended (crashed x) config lost = refl
    of_ended (crashed x) config (won c t u) = refl
    of_ended (overflowed holds_slot) config racing = refl
    of_ended (overflowed holds_slot) config lost = refl
    of_ended (overflowed holds_slot) config (won c t u) = refl
    of_ended (answered content usage) config racing = refl
    of_ended (answered content usage) config lost = refl
    of_ended (answered content usage) config (won c t u) = refl

    of_task :
        (config : LlmConfig) (task : Task) (standing : Standing) (phase : Phase)
        → let lane' : Lane = record { config = config; task = task; standing = standing } in
          has_ended lane' ≡ true
          → (is_broke (collect_one lane' call phase).2
              || not (is_live (collect_one lane' call phase).0))
            ≡ true
    of_task config fresh standing phase h = ground (arith, h)
    of_task config holding standing phase h = ground (arith, h)
    of_task config (settling e) standing phase h = ground (arith, h)
    of_task config (done e) live phase h = of_ended e config phase
    of_task config (done e) overtaken phase h = ground arith
    of_task config (done e) abandoned phase h = ground arith
    of_task config (done e) handled phase h = ground arith

pub all_ended :
    (lanes : List Lane) (call : RouteCall) (phase : Phase)
    → all has_ended lanes ≡ true
    → (is_broke (collect lanes call phase).2 || not (any is_live (collect lanes call phase).0))
      ≡ true
unfolding collect
all_ended [] call phase h = ground arith
all_ended (lane ∷ lanes) call phase h =
    let (lane', call', phase') = collect_one lane call phase in
    let rest = all_ended lanes call' phase' (ground (arith, h)) in
    let one = one_ended lane call phase (ground (arith, h)) in
    elim (Bool-cases (is_broke phase')) [
      | inl b ↦ let kept = collect_broke lanes call' phase' b in ground (arith, kept)
      | inr b ↦ ground (arith, rest, one, b)
    ]
