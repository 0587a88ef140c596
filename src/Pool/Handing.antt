-- ===== src/Pool/Handing.antt =====
-- A slot handed back: what that does to one name of a pool, and to no other.
use llmbroker.Base.Least.{some_inj}
use llmbroker.Base.{subst, Option, none, shift}
use mathlib.Core.Option
use text.Mathlib.Text.{◌==◌ as str_eq}
use llmbroker.Base.{
  ◌-◌, String, ◌≡◌, refl, ◌∙◌, false, some, Dict, lookup, update, lookup-update_self,
  lookup-update_ne, ℤ,
}
use llmbroker.Models.{Instant, LlmConfig}
use llmbroker.Pool
use llmbroker.Pool.{Pool}
use llmbroker.Pool.Slots.{Slot}

-- From one dict of slots to another only the slot of this name differs.
abbrev pub KeepsOthers : String → Dict Slot → Dict Slot → Type 0
KeepsOthers name d d' = (k : String) → str_eq name k ≡ false → lookup k d' ≡ lookup k d

-- The slot of this name has one call less in flight, and no recovery claimed.
pub record IsHanded (s s' : Slot) : Type 0 where
  pub config_kept : s'.config ≡ s.config
  pub disabled_kept : s'.disabled ≡ s.disabled
  pub one_less : s'.in_flight ≡ s.in_flight - 1
  pub unclaimed : s'.recovery_claimed ≡ false

abbrev pub HandsBack : String → Dict Slot → Dict Slot → Type 0
HandsBack name d d' =
    KeepsOthers name d d'
    × ((s : Slot)
        → lookup name d ≡ some s
        → (s' : Slot) × (lookup name d' ≡ some s') × IsHanded s s')

update-HandsBack :
    (name : String) (f : Slot → Slot) (d : Dict Slot)
    → ((s : Slot) → IsHanded s (f s))
    → HandsBack name d (update name f d)
update-HandsBack name f d h =
    (λ k miss. lookup-update_ne name k f d miss, λ s e. (f s, lookup-update_self name f d s e, h s))

pub release-HandsBack :
    (cfg : LlmConfig) (p : Pool) → HandsBack cfg.name p.slots (Pool.release cfg p).slots
unfolding Pool.release
release-HandsBack cfg p =
    update-HandsBack cfg.name Pool.released p.slots
      λ s. record { config_kept = refl; disabled_kept = refl; one_less = refl; unclaimed = refl }

pub cool_down-HandsBack :
    (now : Instant) (cfg : LlmConfig) (delay : ℤ) (p p' : Pool)
    → Pool.cool_down now cfg delay p ≡ some p'
    → HandsBack cfg.name p.slots p'.slots
unfolding Pool.cool_down
cool_down-HandsBack now cfg delay p p' = of_end (shift now delay)
  where
    of_end :
        (o : Option Instant)
        → Option.map (λ until. Pool.on_slot cfg.name (Pool.cooled until) p) o ≡ some p'
        → HandsBack cfg.name p.slots p'.slots
    of_end none e = absurd cc
    of_end (some until) e =
        subst (λ (q : Pool). HandsBack cfg.name p.slots q.slots) (some_inj e)
          (update-HandsBack cfg.name (Pool.cooled until) p.slots λ s. record {
            config_kept = refl;
            disabled_kept = refl;
            one_less = refl;
            unclaimed = refl;
          })

-- A later change of the same slot that keeps what was handed back.
pub HandsBack-then :
    (name : String) (f : Slot → Slot) (d d' : Dict Slot)
    → ((s s' : Slot) → IsHanded s s' → IsHanded s (f s'))
    → HandsBack name d d'
    → HandsBack name d (update name f d')
HandsBack-then name f d d' keep (others, own) = (
  λ k miss. lookup-update_ne name k f d' miss ∙ others k miss,
  λ s e. let (s', e', h) = own s e in (f s', lookup-update_self name f d' s' e', keep s s' h),
)
