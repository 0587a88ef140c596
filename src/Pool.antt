-- ===== src/Pool.antt =====
-- src/llmbroker/broker/pool.py: membership, the admin verdict, and the cooldown state of the pool.
pub mod Slots
pub mod Ranking
pub mod Reserve
pub mod Acquire
pub mod Handing
pub mod Entries
pub mod Invariant
use mathlib.Core.Option
use text.Mathlib.Text.{◌==◌ as str_eq}
use llmbroker.Base.{
  ℕ, suc, ◌+◌, ◌-◌, String, Bool, true, false, not, ◌&&◌, ◌||◌, Option, none, some, List, [], ◌∷◌,
  ◌++◌, map, Dict, lookup, insert, remove, update, has_key, is_some, any_some, or_else,
  if◌then◌else◌, ltb, leb, ℤ, shift, mem, keys, length, any,
}
use llmbroker.Models.{Instant, LlmConfig, LlmState, available, cooling, default_state}
use Slots.{Slot, Bound, new_slot}

pub record Pool : Type 0 where
  pub slots : Dict Slot
  pub next_order : ℕ
  pub budget_bounds : Dict Bound

abbrev pub empty_pool : Pool
empty_pool = record { slots = []; next_order = 0; budget_bounds = [] }

-- How long one observed miss keeps its weight: 600 seconds.
abbrev pub budget_bound_window : ℕ
budget_bound_window = 600_000_000

unfoldable pub contains : Pool → String → Bool
contains p name = has_key name p.slots

unfoldable pub configs : Pool → Dict LlmConfig
configs p = map (λ e. (e.0, e.1.config)) p.slots

unfoldable pub config_of : Pool → String → Option LlmConfig
config_of p name = elim (lookup name p.slots) [ none ↦ none | some slot ↦ some slot.config ]

-- A change of one slot; a missing name is legal, and changes nothing.
abbrev pub on_slot : String → (Slot → Slot) → Pool → Pool
on_slot name f p = record p { slots = update name f p.slots }

-- Python's `max(a, b)`.
abbrev pub max_ℕ : ℕ → ℕ → ℕ
max_ℕ a b = if ltb a b then b else a

abbrev pub refreshed : LlmConfig → ℕ → Slot → Slot
refreshed cfg order s = record s { config = cfg; order = order }

unfoldable pub add : LlmConfig → Option ℕ → Pool → Pool
add cfg order p =
    let resolved = or_else order p.next_order in
    record p {
      next_order = max_ℕ p.next_order (resolved + 1);
      slots =
          if has_key cfg.name p.slots
          then update cfg.name (refreshed cfg resolved) p.slots
          else insert cfg.name (new_slot cfg resolved) p.slots;
    }

unfoldable pub drop : String → Pool → Pool
drop name p = record p { slots = remove name p.slots; budget_bounds = remove name p.budget_bounds }

unfoldable pub set_disabled : String → Pool → Pool
set_disabled name = on_slot name (λ s. record s { disabled = true })

unfoldable pub clear_disabled : String → Pool → Pool
clear_disabled name = on_slot name (λ s. record s { disabled = false })

unfoldable pub is_disabled : Pool → String → Bool
is_disabled p name = any_some (λ s. s.disabled) (lookup name p.slots)

-- The slot handed back. `in_flight - 1` stops at 0, as the code's `max` does.
abbrev pub released : Slot → Slot
released s = record s { in_flight = s.in_flight - 1; recovery_claimed = false }

unfoldable pub release : LlmConfig → Pool → Pool
release cfg = on_slot cfg.name released

abbrev pub settled : Slot → Slot
settled s = record s { cooldown_until = none; recovery_due = false; recovery_claimed = false }

unfoldable pub clear_cooling : String → Pool → Pool
clear_cooling name = on_slot name settled

abbrev pub cooled : Instant → Slot → Slot
cooled until s = record s {
  cooldown_until = some until;
  fail_count = s.fail_count + 1;
  in_flight = s.in_flight - 1;
  recovery_due = true;
  recovery_claimed = false;
}

-- `delay` in microseconds.
-- None is the OverflowError of an end that no `datetime` can hold, which leaves the pool as it is.
unfoldable pub cool_down : Instant → LlmConfig → ℤ → Pool → Option Pool
cool_down now cfg delay p =
    Option.map (λ until. on_slot cfg.name (cooled until) p) (shift now delay)

unfoldable pub apply_budget_bounds : Dict (ℕ × Instant) → Pool → Pool
apply_budget_bounds observed p = record p {
  budget_bounds =
      map (λ e. (e.0, record { seconds = e.1.0; until = e.1.1 + budget_bound_window })) observed;
}

-- The evidence that still counts: a lapsed bound is worth 0.
abbrev pub standing : Instant → Option Bound → ℕ
standing now none = 0
standing now (some b) = if ltb now b.until then b.seconds else 0

unfoldable pub raise_budget_bound : String → ℕ → Instant → Pool → Pool
raise_budget_bound name budget observed_at p =
    let previous = standing observed_at (lookup name p.budget_bounds) in
    record p {
      budget_bounds =
          insert name
            (record { seconds = max_ℕ previous budget; until = observed_at + budget_bound_window })
            p.budget_bounds;
    }

unfoldable pub clear_budget_bound : String → Pool → Pool
clear_budget_bound name p = record p { budget_bounds = remove name p.budget_bounds }

abbrev state_of : Instant → Slot → LlmState
state_of now s =
    if any_some (λ until. ltb now until) s.cooldown_until
    then record { phase = cooling; cooldown_until = s.cooldown_until; fail_count = s.fail_count }
    else record { phase = available; cooldown_until = none; fail_count = s.fail_count }

unfoldable pub state : Instant → Pool → String → LlmState
state now p name = elim (lookup name p.slots) [ none ↦ default_state | some s ↦ state_of now s ]
