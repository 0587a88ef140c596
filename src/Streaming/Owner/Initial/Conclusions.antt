-- ===== src/Streaming/Owner/Initial/Conclusions.antt =====
-- How an explicit streamed race may end: with the answer that was shown, or with its replacement.
use llmbroker.Base.{
  ℕ, String, ◌≡◌, refl, ap, ◌∙◌, Bool, true, false, Option, none, some, ◌==◌, arith, if_ind,
  if_cases, drop, is_empty, Bool-cases, inl, inr,
}
use llmbroker.Models.{Instant}
use llmbroker.Optimizer.{Optimizer}
use llmbroker.Optimizer.Floats.{FloatOps}
use llmbroker.Pool.{Pool}
use llmbroker.Streaming.Lanes.{StreamLane, StreamRace, winner, show_next, live}
use llmbroker.Streaming.Owner.{Owner, absorb_finished, complete_initial}
use llmbroker.Streaming.Owner.Initial.{
  Turn, shows, goes_on, pauses, completes, replaces, fails, Reading, Acquiring, obtained, again,
  declined, waiting, acquire_stream, opened_wave, expired_turn, finish_explicit, next_shown,
  shown_turn, set_window, or_refill, explicit_open, after_winner, explicit_turn,
}

-- What a turn's end says of the race: the winner is finished, the handle's receipt is the winner's,
-- and either the winner's text is the text shown, all of it, or another lane's was shown and the
-- winner replaces it.
abbrev pub Concludes : StreamRace → Turn → Type 0
Concludes race (completes rest o) =
    (w : StreamLane) × (winner race ≡ some w)
    × (w.finished ≡ true)
    × (o.receipt ≡ w.outcome.receipt)
    × (o.race.exposed ≡ some w.opening_order)
    × (rest ≡ drop w.sent w.deltas)
Concludes race (replaces w shown o) =
    (winner race ≡ some w)
    × (w.finished ≡ true)
    × (o.receipt ≡ w.outcome.receipt)
    × (race.exposed ≡ some shown)
    × ((shown == w.opening_order) ≡ false)
Concludes race _ = Unit

finish_explicit-Concludes :
    (o : Owner) (w : StreamLane) (exposed : Option ℕ)
    → o.race.exposed ≡ exposed
    → winner o.race ≡ some w
    → w.finished ≡ true
    → Concludes o.race (finish_explicit w exposed o)
unfolding finish_explicit complete_initial
finish_explicit-Concludes o w none e h f = (w, h, f, refl, refl, refl)
finish_explicit-Concludes o w (some order) e h f = elim (Bool-cases (order == w.opening_order)) [
  | inl b ↦
      let same : order ≡ w.opening_order = ground (arith, b) in
      rw b (w, h, f, refl, e ∙ ap some same, refl)
  | inr b ↦ rw b (h, f, refl, e, b)
]

module _ (fl : FloatOps) (opt : Option Optimizer) (race : StreamRace) where
  abbrev Goes : Turn × Pool → Type 0
  Goes (t, p) = Concludes race t

  set_window-Goes :
      (now window : ℕ) (t : Turn) (p : Pool) → Goes (t, p) → Goes (set_window now window (t, p))
  set_window-Goes now window (shows d o) p h = tt
  set_window-Goes now window (goes_on o) p h = tt
  set_window-Goes now window (pauses o) p h = tt
  set_window-Goes now window (completes ds o) p h = h
  set_window-Goes now window (replaces w s o) p h = h
  set_window-Goes now window (fails e o) p h = tt

  opened_wave-Goes :
      (now window : ℕ) (hold : Bool) (back : Option Instant) (o : Owner) (p : Pool) (a : Acquiring)
      → Goes (set_window now window (opened_wave hold back o p a))
  unfolding opened_wave
  opened_wave-Goes now window hold back o p (obtained configs o' p') = tt
  opened_wave-Goes now window hold back o p (again o') = tt
  opened_wave-Goes now window hold back o p (declined e) = tt
  opened_wave-Goes now window hold back o p waiting = tt

  or_refill-Goes :
      (s : Option (String × StreamLane)) (r : Reading) (o : Owner) (p : Pool)
      → Goes (or_refill fl opt (shown_turn s o) r o p)
  or_refill-Goes none r o p = tt
  or_refill-Goes (some (d, lane)) r o p = tt

  shown-Goes :
      (lane : Option StreamLane) (r : Reading) (o : Owner) (p : Pool)
      → Goes (or_refill fl opt (next_shown lane o) r o p)
  shown-Goes none r o p = tt
  shown-Goes (some lane) r o p = or_refill-Goes (show_next lane) r o p

  explicit_open-Goes :
      (window : ℕ) (r : Reading) (o : Owner) (p : Pool) → Goes (explicit_open fl opt window r o p)
  unfolding explicit_open expired_turn
  explicit_open-Goes window r o p =
      if_ind Goes (is_empty (live o.race))
        (if_ind Goes o.call.expired {x = (expired_turn r.back o, p)} tt
          (opened_wave-Goes r.now window false r.back o p (acquire_stream r o)))
        (shown-Goes _ r _ p)

module _ (fl : FloatOps) (opt : Option Optimizer) where
  after_winner-Concludes :
      (window : ℕ) (r : Reading) (o : Owner) (p : Pool) (w : Option StreamLane)
      → winner o.race ≡ w
      → Concludes o.race (after_winner fl opt w window r o p).0
  after_winner-Concludes window r o p none e = explicit_open-Goes fl opt o.race window r o p
  after_winner-Concludes window r o p (some w) e =
      if_cases (λ (t : Turn × Pool). Concludes o.race t.0) w.finished
        {x = (finish_explicit w o.race.exposed o, p)}
        (λ f. finish_explicit-Concludes o w o.race.exposed refl e f)
        (λ f. explicit_open-Goes fl opt o.race window r o p)

  -- An explicit race ends only with its winner, finished: the handle's receipt is the winner's own,
  -- and where it ends as complete, the lane shown is the winner and what is left of its text is
  -- shown; where the text of another lane had been shown, the turn raises the replacement instead.
  pub explicit_turn-Concludes :
      (window : ℕ) (r : Reading) (o : Owner) (p : Pool)
      → Concludes (absorb_finished o).race (explicit_turn fl opt window r o p).0
  unfolding explicit_turn
  explicit_turn-Concludes window r o p =
      after_winner-Concludes window r (absorb_finished o) p _ refl
