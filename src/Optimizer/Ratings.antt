-- ===== src/Optimizer/Ratings.antt =====
-- The windows of optimizer.py under `record_quality`: their size, and what they count.
use llmbroker.Base.{
  ℕ, zero, suc, ◌-◌, ◌≤◌, String, ◌≡◌, ◌≢◌, refl, sym, ap, ◌∙◌, subst, Bool, true, false, Option,
  some, List, [], ◌∷◌, ◌++◌, arith, length, length-last_n-le, drop, mem, mem-append, no_repeats,
  if◌then◌else◌, if_ind, eq_iff, All, or_else, Bool-cases, inl, inr,
}
use llmbroker.Models.{Double}
use llmbroker.Optimizer.{Optimizer, record_quality}
use llmbroker.Optimizer.Windows.{
  Bucket, Window, bucket_eq, window_of, put_window, replace_rating, rate, rated_calls,
  window_of-put_window, bucket_eq_iff,
}

mem-drop : (k : String) (n : ℕ) (ks : List String) → mem k ks ≡ false → mem k (drop n ks) ≡ false
mem-drop k zero ks h = h
mem-drop k (suc n) [] h = h
mem-drop k (suc n) (j ∷ ks) h = mem-drop k n ks (ground arith)

no_repeats-drop : (n : ℕ) (ks : List String) → no_repeats ks ≡ true → no_repeats (drop n ks) ≡ true
no_repeats-drop zero ks h = h
no_repeats-drop (suc n) [] h = h
no_repeats-drop (suc n) (k ∷ ks) h = no_repeats-drop n ks (ground arith)

no_repeats-append :
    (k : String) (ks : List String)
    → no_repeats ks ≡ true
    → mem k ks ≡ false
    → no_repeats (ks ++ k ∷ []) ≡ true
no_repeats-append k [] h m = refl
no_repeats-append k (j ∷ ks) h m =
    ground (arith, no_repeats-append k ks, mem-append j ks (k ∷ []), eq_iff k j, eq_iff j k)

rated_calls-drop : (n : ℕ) (w : Window) → rated_calls (drop n w) ≡ drop n (rated_calls w)
rated_calls-drop zero w = refl
rated_calls-drop (suc n) [] = refl
rated_calls-drop (suc n) (e ∷ w) = rated_calls-drop n w

rated_calls-append :
    (w : Window) (e : String × Double) → rated_calls (w ++ e ∷ []) ≡ (rated_calls w ++ e.0 ∷ [])
rated_calls-append [] e = refl
rated_calls-append (f ∷ w) e = ap (λ ks. f.0 ∷ ks) (rated_calls-append w e)

rated_calls-replace_rating :
    (k : String) (x : Double) (w : Window) → rated_calls (replace_rating k x w) ≡ rated_calls w
unfolding replace_rating
rated_calls-replace_rating k x [] = refl
rated_calls-replace_rating k x ((j, y) ∷ w) =
    ground (arith, eq_iff j k, rated_calls-replace_rating k x w)

length-replace_rating :
    (k : String) (x : Double) (w : Window) → length (replace_rating k x w) ≡ length w
unfolding replace_rating
length-replace_rating k x [] = refl
length-replace_rating k x ((j, y) ∷ w) = ground (arith, length-replace_rating k x w)

-- At most `m` ratings, of as many calls.
abbrev pub IsWindow : ℕ → Window → Type 0
IsWindow m w = (length w ≤ m) × (no_repeats (rated_calls w) ≡ true)

pub rate-IsWindow :
    (m : ℕ) (k : String) (x : Double) (w : Window) → IsWindow m w → IsWindow m (rate m k x w)
unfolding rate
rate-IsWindow m k x w (small, once) = elim (Bool-cases (mem k (rated_calls w))) [
  | inl seen ↦ rw seen (
    subst (λ n. n ≤ m) (sym (length-replace_rating k x w)) small,
    subst (λ ks. no_repeats ks ≡ true) (sym (rated_calls-replace_rating k x w)) once,
  )
  | inr new ↦ rw new (
    length-last_n-le m (w ++ (k, x) ∷ []),
    subst (λ ks. no_repeats ks ≡ true)
        (sym (rated_calls-drop _ (w ++ (k, x) ∷ []) ∙ ap (drop _) (rated_calls-append w (k, x))))
        (no_repeats-drop (length (w ++ (k, x) ∷ []) - m) (rated_calls w ++ k ∷ [])
          (no_repeats-append k (rated_calls w) once new)),
  )
]

window_of-IsWindow :
    (m : ℕ) (b : Bucket) (s : List (Bucket × Window))
    → All (λ e. IsWindow m e.1) s
    → IsWindow m (or_else (window_of b s) [])
unfolding window_of
window_of-IsWindow m b [] h = (omega arith, refl)
window_of-IsWindow m b ((c, w) ∷ s) (h, hs) =
    if_ind (λ (o : Option Window). IsWindow m (or_else o [])) (bucket_eq c b) h
      (window_of-IsWindow m b s hs)

put_window-IsWindow :
    (m : ℕ) (b : Bucket) (w : Window) (s : List (Bucket × Window))
    → IsWindow m w
    → All (λ e. IsWindow m e.1) s
    → All (λ e. IsWindow m e.1) (put_window b w s)
unfolding put_window
put_window-IsWindow m b w [] h hs = (h, tt)
put_window-IsWindow m b w ((c, v) ∷ s) h (hv, hs) =
    if_ind (All (λ e. IsWindow m e.1)) (bucket_eq c b) (h, hs)
      (hv, put_window-IsWindow m b w s h hs)

-- Every window holds at most `quality_window` ratings, no two of them of one call.
abbrev pub IsBounded : Optimizer → Type 0
IsBounded opt = All (λ e. IsWindow opt.quality_window e.1) opt.scores

put_window-untouched :
    (b c : Bucket) (w : Window) (s : List (Bucket × Window))
    → c ≢ b
    → window_of c (put_window b w s) ≡ window_of c s
put_window-untouched b c w s other = elim (Bool-cases (bucket_eq b c)) [
  | inl e ↦ absurd (other (sym ((bucket_eq_iff b c).0 e)))
  | inr e ↦ window_of-put_window b c w s ∙ if_false (some w) e
]
  where
    if_false :
        {q : Bool} (x : Option Window) {y : Option Window} → q ≡ false → (if q then x else y) ≡ y
    if_false x e = ground arith

-- Rating a call keeps every window within `quality_window` ratings, one for each call it counts,
-- whether the call is new or rated again; and the window of any other model or operation stays as
-- it was.
pub record_quality-IsBounded :
    (opt : Optimizer) (llm_name : String) (operation : Option String) (call_id : String)
    (score : Double) (b : Bucket)
    → b ≢ (llm_name, operation)
    → IsBounded opt
    → let opt' = record_quality opt llm_name operation call_id score in
      IsBounded opt' × (window_of b opt'.scores ≡ window_of b opt.scores)
unfolding record_quality
record_quality-IsBounded opt llm_name operation call_id score b other h = (
  put_window-IsWindow _ (llm_name, operation) _ opt.scores
      (rate-IsWindow _ call_id score _ (window_of-IsWindow _ (llm_name, operation) opt.scores h)) h,
  put_window-untouched (llm_name, operation) b _ opt.scores other,
)
