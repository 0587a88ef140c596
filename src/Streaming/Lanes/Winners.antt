-- ===== src/Streaming/Lanes/Winners.antt =====
-- Which lane of a streamed race wins, and which is shown first.
use llmbroker.Base.{
  All-imp, if_yes, if_no, ℕ, ◌≡◌, ◌≤◌, ◌≢◌, ◌⊎◌, any_some, refl, sym, ap, subst, ◌∙◌, Bool, true,
  false, not, ◌&&◌, Option, none, some, List, ◌∷◌, arith, ltb, All, Bool-cases, inl, inr,
}
use llmbroker.Base.Least.{least_from, least-IsLeast, some_inj}
use llmbroker.Base.Sorting.{IsOrder}
use llmbroker.Streaming.Lanes.{
  StreamLane, StreamRace, is_exposed, WinnerKey, winner_key, winner_key_at, entry_of, winner_lt,
  winner, earliest, select_from,
}

winner_lt-IsOrder : IsOrder winner_lt
unfolding winner_lt
winner_lt-IsOrder = record { asym = λ a b h. ground arith; cotrans = λ a b c h. ground arith }

-- A lane that completed did so no earlier than the winner, and where at the same reading, it is not
-- the one shown unless the winner is.
abbrev pub IsBehind : Option ℕ → StreamLane → StreamLane → Type 0
IsBehind exposed w lane =
    (t' : ℕ)
    → lane.outcome.completed_at ≡ some t'
    → (t : ℕ) × (w.outcome.completed_at ≡ some t)
      × (t ≤ t')
      × (t ≡ t' → is_exposed exposed lane ≡ true → is_exposed exposed w ≡ true)

key_at-time :
    (exposed : Option ℕ) (lane : StreamLane) (at : Option ℕ) (k : WinnerKey)
    → winner_key_at exposed lane at ≡ some k
    → (at ≡ some k.0) × (k.1 ≡ not (is_exposed exposed lane))
key_at-time exposed lane none k e = absurd cc
key_at-time exposed lane (some at) k e = (
  ap some (ap (λ (k : WinnerKey). k.0) (some_inj e)),
  sym (ap (λ (k : WinnerKey). k.1) (some_inj e)),
)

winner_lt-late :
    (s t : ℕ) (x y : Bool) (i j : ℕ)
    → winner_lt (s, x, i) (t, y, j) ≡ false
    → (t ≤ s) × (t ≡ s → x ≡ false → y ≡ false)
unfolding winner_lt
winner_lt-late s t x y i j h = (ground arith, λ e g. ground arith)

behind :
    (exposed : Option ℕ) (k : WinnerKey) (w lane : StreamLane)
    → winner_key exposed w ≡ some k
    → ((l : WinnerKey) → winner_key exposed lane ≡ some l → winner_lt l k ≡ false)
    → IsBehind exposed w lane
unfolding winner_key
behind exposed (t, y, j) w lane e h t' e' =
    let (time, shown) = key_at-time exposed w w.outcome.completed_at (t, y, j) e in
    let (late, tie) = winner_lt-late t' t _ _ _ _ (
      h (t', not (is_exposed exposed lane), lane.opening_order)
        (ap (winner_key_at exposed lane) e')) in
    (t, time, late, λ same seen. ground (arith, tie, shown))

-- The winner of a streamed race is the lane whose answer was complete first, and where the clock
-- cannot split two lanes, the one whose text the reader has seen: every lane of the race that has
-- completed did so no earlier, and if at the winner's own reading, then it is the lane that is shown
-- only where the winner is too.
pub winner-IsFirst :
    (race : StreamRace) (w : StreamLane)
    → winner race ≡ some w
    → All (IsBehind race.exposed w) race.lanes
unfolding winner
winner-IsFirst race w = go (least_from winner_lt (winner_key race.exposed) none race.lanes) refl
  where
    go :
        (b : Option (StreamLane × WinnerKey))
        → least_from winner_lt (winner_key race.exposed) none race.lanes ≡ b
        → entry_of b ≡ some w
        → All (IsBehind race.exposed w) race.lanes
    go none e e' = absurd cc
    go (some (w', k)) e e' =
        let (own, rest) =
          least-IsLeast winner_lt (winner_key race.exposed) winner_lt-IsOrder race.lanes (w', k)
            e in
        All-imp race.lanes
          (λ lane h.
            behind race.exposed k w lane
              (subst (λ l. winner_key race.exposed l ≡ some k) (some_inj e') own) h)
          rest

none-ne-some {ℓ} : {A : Type ℓ} {x : A} → none ≢ some x
none-ne-some h = cc

ltb_order : IsOrder ltb
ltb_order = record { asym = λ a b h. ground arith; cotrans = λ a b c h. ground arith }

-- No lane's text began before that of the lane that is found.
earliest-All :
    (lanes : List StreamLane) (w : StreamLane)
    → earliest lanes ≡ some w
    → (t : ℕ) × (w.first_delta_at ≡ some t)
      × All (λ lane. (t' : ℕ) → lane.first_delta_at ≡ some t' → t ≤ t') lanes
unfolding earliest
earliest-All lanes w = go (least_from ltb (λ lane. lane.first_delta_at) none lanes) refl
  where
    go :
        (b : Option (StreamLane × ℕ))
        → least_from ltb (λ (lane : StreamLane). lane.first_delta_at) none lanes ≡ b
        → entry_of b ≡ some w
        → (t : ℕ) × (w.first_delta_at ≡ some t)
          × All (λ lane. (t' : ℕ) → lane.first_delta_at ≡ some t' → t ≤ t') lanes
    go none e e' = absurd cc
    go (some (w', k)) e e' =
        let (own, rest) =
          least-IsLeast ltb (λ (lane : StreamLane). lane.first_delta_at) ltb_order lanes (w', k)
            e in
        (
          k,
          subst (λ (l : StreamLane). l.first_delta_at ≡ some k) (some_inj e') own,
          All-imp lanes (λ lane h t' f. let low = h t' f in ground arith) rest,
        )

-- Which lane is shown: the preferred one, the first of the race, as soon as its text began before
-- the window closed; while it is still working inside the window, no other; and after that, the
-- lane whose text began first of all.
pub select_from-Means :
    (now deadline : ℕ) (preferred : StreamLane) (lanes : List StreamLane) (w : StreamLane)
    → select_from now deadline (preferred ∷ lanes) ≡ some w
    → (w ≡ preferred)
      ⊎ (((preferred.finished ≡ true) ⊎ (deadline ≤ now))
          × ((t : ℕ) × (w.first_delta_at ≡ some t)
              × All
                  (λ lane. (t' : ℕ) → lane.first_delta_at ≡ some t' → t ≤ t')
                  (preferred ∷ lanes)))
unfolding select_from
select_from-Means now deadline preferred lanes w e = elim (Bool-cases soon) [
  | inl h ↦ inl (sym (some_inj (sym (if_yes _ _ h) ∙ e)))
  | inr h ↦ elim (Bool-cases inside) [
    | inl g ↦ absurd (none-ne-some (sym (if_yes _ _ g) ∙ sym (if_no _ _ h) ∙ e))
    | inr g ↦
        inr
          (passed g, earliest-All (preferred ∷ lanes) w (sym (if_no _ _ g) ∙ sym (if_no _ _ h) ∙ e))
  ]
]
  where
    soon : Bool
    soon = any_some (λ at. ltb at deadline) preferred.first_delta_at

    inside : Bool
    inside = not preferred.finished && ltb now deadline

    passed : inside ≡ false → (preferred.finished ≡ true) ⊎ (deadline ≤ now)
    passed g = ground arith
