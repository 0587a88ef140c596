-- ===== src/Router/Route/Excludes.antt =====
-- What a routed call is handed: only what its caller can pay for, and nothing that it refuses.
use llmbroker.Base.{some, none, mem-append}
use llmbroker.Base.{◌||◌}
use llmbroker.Base.{is_some}
use llmbroker.Base.{
  ℕ, String, ◌≡◌, refl, Bool, true, not, ◌&&◌, if_ind, Option, List, [], ◌∷◌, arith, map, all,
  all_some, is_empty, any_some, leb, mem, All, filter, subst, Bool-cases, inl, inr,
}
use llmbroker.Models.{LlmConfig}
use llmbroker.Optimizer.Floats.{FloatOps}
use llmbroker.Optimizer.{Optimizer}
use llmbroker.Pool.{Pool}
use llmbroker.Pool.Slots.{is_free}
use llmbroker.Pool.Reserve.{Entry, Boundary, Context, is_candidate, candidates, chosen, reserve}
use llmbroker.Pool.Reserve.Counts.{All-chosen, All-filter}
use llmbroker.Pool.Acquire.{
  Clocks, Request, context, acquire_round, refused, acquire_many, Acquired, taken, raised, waits,
  timeout, earliest_return, wake_timeout,
}
use llmbroker.Router.Calls.{RouteCall, acquire, request_of, acquired, excluded_names, acquisition}

-- What a boundary lets a call be handed.
abbrev pub is_within : Boundary → LlmConfig → Bool
is_within b cfg =
    all_some (mem cfg.name) b.eligible_names
    && (mem cfg.api_key_ref b.payable && not (mem cfg.name b.exclude))

module _ (b : Boundary) where
  candidate-within : (e : Entry) → is_candidate b e ≡ true → is_within b e.1.config ≡ true
  unfolding is_candidate
  candidate-within (key, s) h = ground (arith, h)

  candidates-within :
      (es : List Entry) → All (λ e. is_within b e.1.config ≡ true) (filter (is_candidate b) es)
  candidates-within [] = tt
  candidates-within (e ∷ es) = elim (Bool-cases (is_candidate b e)) [
    | inl h ↦ rw h (candidate-within e h, candidates-within es)
    | inr h ↦ rw h (candidates-within es)
  ]

  all_configs :
      (es : List Entry)
      → All (λ e. is_within b e.1.config ≡ true) es
      → all (is_within b) (map (λ e. e.1.config) es) ≡ true
  all_configs [] h = refl
  all_configs (e ∷ es) h = let rest = all_configs es h.1 in ground (arith, rest, h.0)

module _ (fl : FloatOps) (opt : Option Optimizer) (r : Request) where
  reserve-within :
      (c : Context) (p : Pool)
      → all (is_within r.boundary) (reserve fl opt p c (candidates r.boundary p)).0 ≡ true
  unfolding reserve candidates
  reserve-within c p = all_configs r.boundary (chosen fl opt p c (candidates r.boundary p)) (
      All-chosen fl opt p c (λ e. is_within r.boundary e.1.config ≡ true) (candidates r.boundary p)
        (All-filter (λ e. is_within r.boundary e.1.config ≡ true) (λ e. is_free c.now e.1)
          (candidates r.boundary p) (candidates-within r.boundary p.slots)))

  Within : Acquired → Type 0
  Within (taken configs p) = all (is_within r.boundary) configs ≡ true
  Within _ = Unit {0}

  refused-Within : (t : Clocks) (p : Pool) → Within (refused r t p)
  unfolding refused Within
  refused-Within t p = if_ind Within (is_empty (candidates r.boundary p)) tt (
      if_ind Within (any_some (λ deadline. leb deadline t.checked) r.queue_deadline)
        {x = raised
          (record { reason = timeout; retry_at = earliest_return (candidates r.boundary p) t.now })}
        {y = waits (wake_timeout t.now r.queue_deadline t.waited (candidates r.boundary p))} tt tt)

  acquire_round-Within : (t : Clocks) (p : Pool) → Within (acquire_round fl opt r t p)
  unfolding acquire_round Within
  acquire_round-Within t p =
      let handed = reserve fl opt p (context r t) (candidates r.boundary p) in
      if_ind Within (is_empty handed.0) {y = taken handed.0 handed.1} (refused-Within t p)
        (reserve-within (context r t) p)

  acquire_many-Within :
      (t : Clocks) (p : Pool) (later : List (Clocks × Pool))
      → Within (acquire_many fl opt r t p later)
  unfolding acquire_many Within
  acquire_many-Within t p [] = acquire_round-Within t p
  acquire_many-Within t p ((t', p') ∷ later) =
      after_round (acquire_round fl opt r t p) (acquire_round-Within t p)
        (acquire_many-Within t' p' later)
    where
      after_round :
          (a : Acquired)
          → Within a
          → Within (acquire_many fl opt r t' p' later)
          → Within (elim a [
            | taken configs after ↦ taken configs after
            | raised e ↦ raised e
            | waits span ↦ acquire_many fl opt r t' p' later
          ])
      after_round (taken configs after) h next = h
      after_round (raised e) h next = tt
      after_round (waits span) h next = next

mem-excluded_names :
    (name : String) (eligible_names : Option (List String)) (call : RouteCall)
    → mem name (excluded_names eligible_names call)
      ≡ (mem name call.client_failed || (is_some eligible_names && mem name call.attempted))
unfolding excluded_names
mem-excluded_names name none call = ground arith
mem-excluded_names name (some names) call = mem-append name call.client_failed call.attempted

all-same :
    (q r : LlmConfig → Bool)
    → ((c : LlmConfig) → q c ≡ r c)
    → (configs : List LlmConfig) → all q configs ≡ true
    → all r configs ≡ true
all-same q r same [] h = refl
all-same q r same (c ∷ configs) h =
    let rest = all-same q r same configs (ground arith) in ground (arith, rest, same c, h)

-- However long it waited, a call is handed only models that its caller can pay for, that it has not
-- found refusing its request, and, where it names its models, that are among those and that it has
-- not attempted before.
pub acquire-within :
    (fl : FloatOps) (opt : Option Optimizer) (eligible_names : Option (List String))
    (payable : List String) (queue_deadline : Option ℕ) (call : RouteCall) (t : Clocks) (p : Pool)
    (later : List (Clocks × Pool)) (configs : List LlmConfig) (call' : RouteCall) (p' : Pool)
    → acquire fl opt eligible_names payable queue_deadline call t p later
      ≡ acquired configs call' p'
    → all
        (λ c.
          all_some (mem c.name) eligible_names
          && (mem c.api_key_ref payable
              && (not (mem c.name call.client_failed)
                  && (not (is_some eligible_names) || not (mem c.name call.attempted)))))
        configs
      ≡ true
unfolding acquire acquisition Within
acquire-within fl opt eligible_names payable queue_deadline call t p later configs call' p' e =
    all-same (is_within q.boundary) _ is_within-excluded configs
      (of_round (acquire_many fl opt q t p later) (acquire_many-Within fl opt q t p later) e)
  where
    q : Request
    q = request_of eligible_names payable queue_deadline call

    is_within-excluded :
        (c : LlmConfig)
        → is_within q.boundary c ≡ (
            all_some (mem c.name) eligible_names
            && (mem c.api_key_ref payable
                && (not (mem c.name call.client_failed)
                    && (not (is_some eligible_names) || not (mem c.name call.attempted)))))
    is_within-excluded c = ground (arith, mem-excluded_names c.name eligible_names call)

    of_round :
        (a : Acquired)
        → Within fl opt q a
        → acquisition eligible_names call a ≡ acquired configs call' p'
        → all (is_within q.boundary) configs ≡ true
    of_round (taken cs after) h e =
        let same : cs ≡ configs = ground (arith, e) in
        subst (λ xs. all (is_within q.boundary) xs ≡ true) same h
    of_round (raised x) h e = absurd (ground (arith, e))
    of_round (waits span) h e = absurd (ground (arith, e))
