-- ===== src/Refresher/Clock.antt =====
-- How often the model list is looked for.
use llmbroker.Base.{
  ℕ, ◌+◌, ◌≤◌, ◌≡◌, ◌≢◌, refl, sym, ◌∙◌, String, Bool, true, false, ◌||◌, Option, none, some, List,
  [], ◌∷◌, arith, if_ind, if_cases, is_some, ltb,
}
use llmbroker.Base.Least.{some_inj}
use llmbroker.Refresher.{
  Declared, Setup, Refresher, new_refresher, follows_alias, arm, Action, quiet, fills, starts,
  schedule, tick, provision_with, before_provision, fill_ends, refresh_ends, close, Step,
  provisions, ticks, schedules, fill_done, refresh_done, closes, step, time_of, started,
  start_times,
}

-- An installation that looks upstream at an interval.
abbrev pub setup : ℕ → Option String → List Declared → Setup
setup interval source declared = record {
  interval = some interval;
  source = source;
  declared = declared;
}

-- The readings of a run do not go back.
abbrev pub IsTimed : ℕ → List Step → Type 0
IsTimed t [] = Unit
IsTimed t (x ∷ xs) = (t ≤ time_of x) × IsTimed (time_of x) xs

-- Each start is at least an interval after the one before.
abbrev pub Spaced : ℕ → Option ℕ → List ℕ → Type 0
Spaced i last [] = Unit
Spaced i none (t ∷ ts) = Spaced i (some t) ts
Spaced i (some l) (t ∷ ts) = (l + i ≤ t) × Spaced i (some t) ts

-- A deadline, a fill and a refresh are all of an armed clock.
abbrev IsSound : Refresher → Type 0
IsSound r =
    (is_some r.next_refresh ≡ true → r.armed ≡ true)
    × (r.filling ≡ true → r.armed ≡ true)
    × (r.running ≡ true → r.armed ≡ true)

-- After a start the deadline is an interval off at least.
abbrev Held : ℕ → Option ℕ → Refresher → Type 0
Held i none r = Unit
Held i (some l) r = (r.armed ≡ true) × ((n : ℕ) × (r.next_refresh ≡ some n) × (l + i ≤ n))

abbrev Late : ℕ → Option ℕ → ℕ → Type 0
Late i none t = Unit
Late i (some l) t = l + i ≤ t

abbrev IsBefore : Option ℕ → ℕ → Type 0
IsBefore none t = Unit
IsBefore (some l) t = l ≤ t

true-ne-false : true ≢ false
true-ne-false h = cc

-- What a step at a reading leaves, by its action.
abbrev Leaves : ℕ → Option ℕ → ℕ → Action × Refresher → Type 0
Leaves i last t (quiet, r) = IsSound r × Held i last r
Leaves i last t (fills, r) = IsSound r × Held i last r
Leaves i last t (starts, r) = IsSound r × (Late i last t × Held i (some t) r)

module _ (i : ℕ) (source : Option String) (declared : List Declared) where
  schedule-Leaves :
      (last : Option ℕ) (now : ℕ) (r : Refresher)
      → IsSound r
      → Held i last r
      → Leaves i last now (schedule (setup i source declared) now r)
  unfolding schedule
  schedule-Leaves last now r = go r.next_refresh
    where
      late :
          (last : Option ℕ) (n : ℕ)
          → n ≤ now
          → Held i last (record r { next_refresh = some n })
          → Late i last now
      late none n h held = tt
      late (some l) n h (armed, (n', e, far)) = omega (arith, h, far, some_inj e)

      go :
          (next : Option ℕ)
          → let r' : Refresher = record r { next_refresh = next } in
            IsSound r'
            → Held i last r'
            → Leaves i last now (schedule (setup i source declared) now r')
      go none sound held = (sound, held)
      go (some n) sound held =
          if_cases (Leaves i last now) (ltb now n || r.running)
            {x = (quiet, record r { next_refresh = some n })} (λ h. (sound, held))
            λ h.
              let armed = sound.0 refl in
              (
                (λ e. armed, λ e. armed, λ e. armed),
                (late last n (ground (arith, h)) held, (armed, (now + i, refl, omega arith))),
              )

  arm-Leaves :
      (last : Option ℕ) (now : ℕ) (age : Option ℕ) (r : Refresher)
      → IsSound r
      → Held i last r
      → let r' = arm (setup i source declared) now age r in IsSound r' × Held i last r'
  unfolding arm
  arm-Leaves none now age r sound held =
      (if_ind IsSound r.armed sound (λ e. refl, λ e. refl, λ e. refl), tt)
  arm-Leaves (some l) now age r sound held =
      if_cases (λ r'. IsSound r' × Held i (some l) r') r.armed (λ e. (sound, held))
        (λ e. absurd (true-ne-false (sym held.0 ∙ e)))

  tick-Leaves :
      (last : Option ℕ) (now : ℕ) (age : Option ℕ) (r : Refresher)
      → IsSound r
      → Held i last r
      → Leaves i last now (tick (setup i source declared) now age r)
  unfolding tick
  tick-Leaves last now age r sound held =
      let armed = arm-Leaves last now age r sound held in
      if_ind (λ r'. Leaves i last now (schedule (setup i source declared) now r')) _
        (schedule-Leaves last now (arm (setup i source declared) now age r) armed.0 armed.1)
        (schedule-Leaves last now r sound held)

  filled :
      (last : Option ℕ) (r : Refresher)
      → Held i last r
      → Held i last (record r { armed = true; filling = true })
  filled none r held = tt
  filled (some l) r (armed, far) = (refl, far)

  attempted :
      (last : Option ℕ) (r : Refresher)
      → Held i last r
      → Held i last (record r { attempted = true })
  attempted none r held = tt
  attempted (some l) r held = held

  provision-Leaves :
      (last : Option ℕ) (now : ℕ) (age : Option ℕ) (empty : Bool) (source' : Option String)
      (r : Refresher)
      → IsSound r
      → Held i last r
      → Leaves i last now
          (provision_with (setup i source declared) now age empty (some i) source' r)
  unfolding provision_with
  provision-Leaves last now age empty none r sound held =
      if_ind (λ r'. IsSound r' × Held i last r') (follows_alias (setup i source declared))
        (arm-Leaves last now age r sound held) (sound, held)
  provision-Leaves last now age empty (some p) r sound held =
      if_ind (Leaves i last now) empty {x = (fills, record r { armed = true; filling = true })}
        ((λ e. refl, λ e. refl, λ e. refl), filled last r held)
        (arm-Leaves last now age r sound held)

  before-Leaves :
      (last : Option ℕ) (now : ℕ) (age : Option ℕ) (empty : Bool) (r : Refresher)
      → IsSound r
      → Held i last r
      → Leaves i last now (before_provision (setup i source declared) now age empty r)
  unfolding before_provision
  before-Leaves last now age empty r sound held =
      if_ind (Leaves i last now) r.attempted {x = (quiet, r)} (sound, held)
        (provision-Leaves last now age empty source (record r { attempted = true }) sound
          (attempted last r held))

  -- The end of an attempt sets the deadline an interval off.
  ended :
      (last : Option ℕ) (now : ℕ) (fill run : Bool) (r : Refresher)
      → r.armed ≡ true
      → IsBefore last now
      → let r' : Refresher = record r {
        filling = fill;
        running = run;
        next_refresh = some (now + i);
      } in
        IsSound r' × Held i last r'
  ended none now fill run r armed h = ((λ e. armed, λ e. armed, λ e. armed), tt)
  ended (some l) now fill run r armed h =
      ((λ e. armed, λ e. armed, λ e. armed), (armed, (now + i, refl, omega (arith, h))))

  step-Leaves :
      (last : Option ℕ) (x : Step) (r : Refresher)
      → IsSound r
      → Held i last r
      → IsBefore last (time_of x)
      → Leaves i last (time_of x) (step (setup i source declared) x r)
  unfolding step fill_ends refresh_ends close
  step-Leaves last (provisions now age empty) r sound held h =
      before-Leaves last now age empty r sound held
  step-Leaves last (ticks now age) r sound held h = tick-Leaves last now age r sound held
  step-Leaves last (schedules now) r sound held h = schedule-Leaves last now r sound held
  step-Leaves last (fill_done now) r sound held h =
      if_cases (λ r'. IsSound r' × Held i last r') r.filling
        (λ e. ended last now false r.running r (sound.1 e) h) (λ e. (sound, held))
  step-Leaves last (refresh_done now) r sound held h =
      if_cases (λ r'. IsSound r' × Held i last r') r.running
        (λ e. ended last now r.filling false r (sound.2 e) h) (λ e. (sound, held))
  step-Leaves last (closes now) r sound held h =
      if_cases (λ r'. IsSound r' × Held i last r') r.running
        (λ e. ended last now r.filling false r (sound.2 e) h) (λ e. (sound, held))

  IsBefore-later :
      (last : Option ℕ) (t : ℕ) (x : Step) (xs : List Step)
      → IsBefore last t
      → IsTimed t (x ∷ xs)
      → IsBefore last (time_of x)
  IsBefore-later none t x xs h timed = tt
  IsBefore-later (some l) t x xs h timed = omega (arith, h, timed.0)

  started-Spaced :
      (last : Option ℕ) (t : ℕ) (a : Action) (r : Refresher) (later : List ℕ)
      → Leaves i last t (a, r)
      → ((last' : Option ℕ) → IsBefore last' t → Held i last' r → Spaced i last' later)
      → IsBefore last t
      → Spaced i last (started a t later)
  started-Spaced last t quiet r later h rest b = rest last b h.1
  started-Spaced last t fills r later h rest b = rest last b h.1
  started-Spaced none t starts r later h rest b = rest (some t) (omega arith) h.1.1
  started-Spaced (some l) t starts r later h rest b = (h.1.0, rest (some t) (omega arith) h.1.1)

  leaves-IsSound :
      (last : Option ℕ) (t : ℕ) (a : Action) (r : Refresher) → Leaves i last t (a, r) → IsSound r
  leaves-IsSound last t quiet r h = h.0
  leaves-IsSound last t fills r h = h.0
  leaves-IsSound last t starts r h = h.0

  start_times-from :
      (xs : List Step) (last : Option ℕ) (t : ℕ) (r : Refresher)
      → IsSound r
      → Held i last r
      → IsBefore last t
      → IsTimed t xs
      → Spaced i last (start_times (setup i source declared) xs r)
  unfolding start_times
  start_times-from [] last t r sound held b timed = tt
  start_times-from (x ∷ xs) last t r sound held b timed =
      let b' = IsBefore-later last t x xs b timed in
      let (a, r') = step (setup i source declared) x r in
      let leaves = step-Leaves last x r sound held b' in
      started-Spaced last (time_of x) a r' _ leaves
        (λ last' c held'.
          start_times-from xs last' (time_of x) r' (leaves-IsSound last (time_of x) a r' leaves)
            held' c timed.1)
        b'

  -- An upstream is not looked at more often than the interval allows: whatever calls provision the
  -- pool, tick the clock or make requests, and however the refreshes end, the background refreshes
  -- of a new refresher begin at least an interval apart, where the clock does not go back.
  pub start_times-Spaced :
      (xs : List Step)
      → IsTimed 0 xs
      → Spaced i none (start_times (setup i source declared) xs new_refresher)
  start_times-Spaced xs timed =
      start_times-from xs none 0 new_refresher (λ e. absurd cc, λ e. absurd cc, λ e. absurd cc) tt
        tt timed
