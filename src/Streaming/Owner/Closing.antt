-- ===== src/Streaming/Owner/Closing.antt =====
-- src/llmbroker/broker/stream_owner.py: `_close`, up to the stops that it waits for, and after them.
use llmbroker.Base.{
  ℕ, ◌≡◌, refl, Bool, true, false, not, ◌&&◌, ◌||◌, Option, none, some, List, [], ◌∷◌, arith, map,
  if◌then◌else◌, is_some, All, Bool-cases, inl, inr,
}
use llmbroker.Streaming.{Receipt}
use llmbroker.Streaming.Lanes.{StreamLane, winner, is_exposed}
use llmbroker.Streaming.Owner.{Owner, with_lanes, lane_at, publish}

-- `completed or self._authoritative or race.exposed`, by opening order.
abbrev pub order_of : Option StreamLane → Option ℕ
order_of none = none
order_of (some lane) = some lane.opening_order

abbrev pub first_of : Option ℕ → Option ℕ → Option ℕ
first_of none other = other
first_of (some order) other = some order

unfoldable pub settled_order : Owner → Option ℕ
settled_order o = first_of (order_of (winner o.race)) (first_of o.authoritative o.race.exposed)

-- A lane still working is taken off its provider: the one shown as stopped, where nothing has
-- completed, and every other as superseded.
unfoldable pub retire : Bool → Option ℕ → StreamLane → StreamLane
retire may_stop settled lane =
    let stop = may_stop && is_exposed settled lane in
    if lane.retired
    then lane
    else if lane.finished
    then record lane { retired = true }
    else record lane {
      retired = true;
      outcome = record lane.outcome {
        stopped = stop || lane.outcome.stopped;
        superseded = not stop || lane.outcome.superseded;
      };
    }

abbrev pub may_stop : Owner → Bool
may_stop o = not o.initial_complete && not (is_some (winner o.race))

unfoldable pub retire_lanes : Owner → Owner
retire_lanes o = with_lanes (map (retire (may_stop o) (settled_order o)) o.race.lanes) o

-- After the stops: what the receipt of the handle shows.
abbrev pub publish_settled : Option StreamLane → Receipt → Receipt
publish_settled none receipt = receipt
publish_settled (some lane) receipt = publish lane receipt

unfoldable pub close_receipt : Option ℕ → Owner → Receipt
close_receipt settled o =
    if o.initial_complete
    then o.receipt
    else publish_settled (lane_at settled o.race.lanes) o.receipt

-- A lane that no close has touched.
abbrev pub IsUntouched : StreamLane → Type 0
IsUntouched lane =
    (lane.retired ≡ false) × (lane.outcome.stopped ≡ false) × (lane.outcome.superseded ≡ false)

-- How a lane stands once its stream has begun to close: one that had finished bears no mark, one
-- that had not bears exactly one, and `stopped` is for the lane shown, where nothing had completed.
abbrev pub IsRetired : Owner → StreamLane → Type 0
IsRetired o lane =
    (lane.retired ≡ true)
    × (lane.finished ≡ true → (lane.outcome.stopped ≡ false) × (lane.outcome.superseded ≡ false))
    × (lane.finished ≡ false → lane.outcome.superseded ≡ not lane.outcome.stopped)
    × (lane.outcome.stopped ≡ true
        → (may_stop o ≡ true) × (is_exposed (settled_order o) lane ≡ true))

retire-IsRetired :
    (o : Owner) (lane : StreamLane)
    → IsUntouched lane
    → IsRetired o (retire (may_stop o) (settled_order o) lane)
unfolding retire
retire-IsRetired o lane (r, s, u) = elim (Bool-cases lane.finished) [
  | inl f ↦ rw (r, f) (refl, λ g. (s, u), λ g. absurd cc, λ g. absurd (ground arith))
  | inr f ↦
      rw (r, f, s, u) (refl, λ g. absurd cc, λ g. ground arith, λ g. (ground arith, ground arith))
]

map-All :
    (P Q : StreamLane → Type 0) (f : StreamLane → StreamLane) (lanes : List StreamLane)
    → ((lane : StreamLane) → P lane → Q (f lane))
    → All P lanes
    → All Q (map f lanes)
map-All P Q f [] h hs = tt
map-All P Q f (x ∷ xs) h (p, ps) = (h x p, map-All P Q f xs h ps)

-- A stream that closes while its lanes are untouched retires every one of them. A lane that had
-- finished keeps its own settlement; one still working is marked in exactly one way, and as stopped
-- by its reader only where no lane had completed, the initial answer was not, and it is the lane
-- that was shown.
pub retire_lanes-IsRetired :
    (o : Owner) → All IsUntouched o.race.lanes → All (IsRetired o) (retire_lanes o).race.lanes
unfolding retire_lanes
retire_lanes-IsRetired o h =
    map-All IsUntouched (IsRetired o) (retire (may_stop o) (settled_order o)) o.race.lanes
      (retire-IsRetired o) h
