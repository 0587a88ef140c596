-- ===== src/Pool/Reserve/Recovery.antt =====
-- One slot owes at most one recovery attempt at a time, and when that stops being so.
use llmbroker.Base.{ap}
use mathlib.Core.Option
use llmbroker.Base.{
  ℕ, ◌+◌, ◌≤◌, ◌<◌, String, ◌≡◌, refl, ◌≢◌, inl, inr, true, false, ◌&&◌, Option, some, arith,
  lookup, all_some, leb, shift, last_instant, lookup-update_self, pos,
}
use llmbroker.Models.{Instant, LlmConfig}
use llmbroker.Optimizer.Floats.{FloatOps}
use llmbroker.Optimizer.{Optimizer}
use llmbroker.Pool
use llmbroker.Pool.{Pool, released, cooled}
use llmbroker.Pool.Slots.{Slot, has_capacity, is_free}
use llmbroker.Pool.Reserve.{Boundary, Context, candidates, reserved, reserve}
use llmbroker.Pool.Reserve.Counts.{count}
use llmbroker.Pool.Reserve.Effects.{IsUnique, taken, reserve-Effect}

module _ (fl : FloatOps) (opt : Option Optimizer) (p : Pool) (c : Context) (b : Boundary) where
  -- In a pool of unique names, no call takes a slot whose recovery another call has claimed,
  -- whatever its capacity and its clock.
  pub claimed_not_taken :
      IsUnique p.slots
      → (k : String) (s : Slot) → lookup k p.slots ≡ some s
      → s.recovery_claimed ≡ true
      → count k (taken fl opt p c b) ≡ 0
  unfolding is_free
  claimed_not_taken u k s e claimed = elim (reserve-Effect fl opt p c b u k) [
    | inl (out, _) ↦ out
    | inr (s', hit, e', cand, free, after) ↦ absurd (ground arith)
  ]

  -- In a pool of unique names, a slot that is cooling is taken by no call before the cooldown
  -- ends.
  pub cooling_not_taken :
      IsUnique p.slots
      → (k : String) (s : Slot) (until : Instant) → lookup k p.slots ≡ some s
      → s.cooldown_until ≡ some until
      → c.now < until
      → count k (taken fl opt p c b) ≡ 0
  unfolding is_free
  cooling_not_taken u k s until e cooling h = elim (reserve-Effect fl opt p c b u k) [
    | inl (out, _) ↦ out
    | inr (s', hit, e', cand, free, after) ↦ absurd (ground arith)
  ]

  -- In a pool of unique names, a slot that a call takes stays within its parallel cap, and its
  -- recovery is claimed exactly when one was due.
  pub reserve-has_room :
      IsUnique p.slots
      → (k : String) → count k (taken fl opt p c b) ≢ 0
      → (s : Slot) × (lookup k (reserve fl opt p c (candidates b p)).1.slots ≡ some s)
        × (all_some (λ cap. leb s.in_flight cap) s.config.parallel ≡ true)
        × (s.recovery_claimed ≡ s.recovery_due)
  unfolding is_free reserved
  reserve-has_room u k h = elim (reserve-Effect fl opt p c b u k) [
    | inl (out, _) ↦ absurd (h out)
    | inr (s', hit, e', cand, free, after) ↦ (reserved s', after, ground arith, refl)
  ]

shift-pos : (t d : ℕ) → t + d ≤ last_instant → shift t (pos d) ≡ some (t + d)
unfolding shift
shift-pos t d h = ground arith

-- After `cool_down` by a positive delay that ends in range the slot's recovery is due and unclaimed, and it is free at a
-- later reading exactly where the delay has run and it has capacity: to the first recovery attempt.
pub cool_down-recovers :
    (now delay : ℕ) (cfg : LlmConfig) (p : Pool) (s : Slot) (t : Instant)
    → lookup cfg.name p.slots ≡ some s
    → now + delay ≤ last_instant
    → (p' : Pool) × (s' : Slot) × (Pool.cool_down now cfg (pos delay) p ≡ some p')
      × (lookup cfg.name p'.slots ≡ some s')
      × (s'.recovery_due ≡ true)
      × (s'.recovery_claimed ≡ false)
      × (is_free t s' ≡ (leb (now + delay) t && has_capacity s'))
unfolding Pool.cool_down is_free
cool_down-recovers now delay cfg p s t e in_range = (
  Pool.on_slot cfg.name (cooled (now + delay)) p,
  cooled (now + delay) s,
  ap (Option.map (λ until. Pool.on_slot cfg.name (cooled until) p)) (shift-pos now delay in_range),
  lookup-update_self cfg.name (cooled (now + delay)) p.slots s e,
  refl,
  refl,
  ground arith,
)

-- The claim belongs to the slot and not to the call that made it: whoever hands a slot back drops
-- it. So while a recovery attempt is in flight, any other call of the same slot that is released
-- makes the slot free again, still due, once the cooldown has run and capacity is left.
pub release_drops_claim :
    (p : Pool) (cfg : LlmConfig) (s : Slot) (now : Instant)
    → lookup cfg.name p.slots ≡ some s
    → s.recovery_due ≡ true
    → s.recovery_claimed ≡ true
    → 2 ≤ s.in_flight
    → has_capacity s ≡ true
    → all_some (λ until. leb until now) s.cooldown_until ≡ true
    → (s' : Slot) × (is_free now s ≡ false)
      × (lookup cfg.name (Pool.release cfg p).slots ≡ some s')
      × (1 ≤ s'.in_flight)
      × (s'.recovery_due ≡ true)
      × (is_free now s' ≡ true)
unfolding Pool.release is_free
release_drops_claim p cfg s now e due claimed busy room over = (
  released s,
  ground arith,
  lookup-update_self cfg.name released p.slots s e,
  omega arith,
  due,
  ground arith,
)
