-- ===== src/Callers/Retries.antt =====
-- How often a caller's question reaches the pool.
use llmbroker.Base.{ℕ, ◌≡◌, ◌⊎◌, inl, inr, refl, sym, ap, Bool, true, false, Option, some, if_cases}
use llmbroker.Pool.Acquire.{NoLlmAvailable}
use llmbroker.Router.Calls.{rejected, unavailable}
use llmbroker.Callers.{Reply, replied, refused, after_first, chat}

module _ {A : Type 0} {W : Type 0} (route : Option ℕ → W → Reply A × W)
    (on_exhausted : NoLlmAvailable → W → Bool × W) (wait : Option ℕ) (w : W) where
  -- The whole of a chat in terms of the routed call: its answer or its error as they are; or, where
  -- the pool had none and the broker has re-read its ports, one routed call more, on no wait.
  abbrev IsChat : Reply A × W → Type 0
  IsChat r =
      (r ≡ route wait w)
      ⊎ ((e : NoLlmAvailable) × ((route wait w).0 ≡ refused (unavailable e))
          × ((((on_exhausted e (route wait w).1).0 ≡ true)
                × (r ≡ route (some 0) (on_exhausted e (route wait w).1).1))
              ⊎ (((on_exhausted e (route wait w).1).0 ≡ false)
                  × (r ≡ (refused (unavailable e), (on_exhausted e (route wait w).1).1)))))

  after_first-IsChat :
      (first : Reply A)
      → (route wait w).0 ≡ first
      → IsChat (after_first route on_exhausted first (route wait w).1)
  unfolding after_first
  after_first-IsChat (replied x) h = inl (ap (λ r. (r, (route wait w).1)) (sym h))
  after_first-IsChat (refused (rejected e)) h = inl (ap (λ r. (r, (route wait w).1)) (sym h))
  after_first-IsChat (refused (unavailable e)) h = inr (
    e,
    h,
    if_cases
        (λ r.
          (((on_exhausted e (route wait w).1).0 ≡ true)
            × (r ≡ route (some 0) (on_exhausted e (route wait w).1).1))
          ⊎ (((on_exhausted e (route wait w).1).0 ≡ false)
              × (r ≡ (refused (unavailable e), (on_exhausted e (route wait w).1).1))))
        (on_exhausted e (route wait w).1).0 (λ b. inl (b, refl)) (λ b. inr (b, refl)),
  )

  pub chat-IsChat : IsChat (chat route on_exhausted wait w)
  unfolding chat
  chat-IsChat = after_first-IsChat (route wait w).0 refl
