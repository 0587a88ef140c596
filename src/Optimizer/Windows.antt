-- ===== src/Optimizer/Windows.antt =====
-- The sliding windows of optimizer.py: one for each model and operation, oldest rating first, one
-- entry for each rated call.
use text.Mathlib.Text.{◌==◌ as str_eq}
use llmbroker.Base.{
  ℕ, String, ◌≡◌, refl, ◌↔◌, Bool, true, false, ◌&&◌, Option, none, some, List, [], ◌∷◌, ◌++◌, map,
  arith, last_n, mem, if◌then◌else◌, eq_iff,
}
use llmbroker.Models.{Double}

-- A model and an operation; `none` is the bucket of calls made with no operation.
abbrev pub Bucket : Type 0
Bucket = String × Option String

abbrev pub Window : Type 0
Window = List (String × Double)

abbrev pub operation_eq : Option String → Option String → Bool
operation_eq none none = true
operation_eq (some a) (some b) = str_eq a b
operation_eq none (some b) = false
operation_eq (some a) none = false

unfoldable pub bucket_eq : Bucket → Bucket → Bool
bucket_eq b c = str_eq b.0 c.0 && operation_eq b.1 c.1

unfoldable pub window_of : Bucket → List (Bucket × Window) → Option Window
window_of b [] = none
window_of b ((c, w) ∷ rest) = if bucket_eq c b then some w else window_of b rest

unfoldable pub put_window : Bucket → Window → List (Bucket × Window) → List (Bucket × Window)
put_window b w [] = (b, w) ∷ []
put_window b w ((c, v) ∷ rest) =
    if bucket_eq c b then (c, w) ∷ rest else (c, v) ∷ put_window b w rest

-- A call that the window holds takes the new value in its place.
unfoldable pub replace_rating : String → Double → Window → Window
replace_rating call_id score [] = []
replace_rating call_id score ((rated, old) ∷ w) =
    if str_eq rated call_id
    then (call_id, score) ∷ w
    else (rated, old) ∷ replace_rating call_id score w

abbrev pub rated_calls : Window → List String
rated_calls w = map (λ e. e.0) w

-- The loop of `record_quality` over a `deque` of maximal length `maxlen`.
unfoldable pub rate : ℕ → String → Double → Window → Window
unfolding replace_rating
rate maxlen call_id score w =
    if mem call_id (rated_calls w)
    then replace_rating call_id score w
    else last_n maxlen (w ++ (call_id, score) ∷ [])

pub operation_eq_iff : (a b : Option String) → (operation_eq a b ≡ true) ↔ (a ≡ b)
operation_eq_iff none none = ground arith
operation_eq_iff (some a) (some b) = ground (arith, eq_iff a b)
operation_eq_iff none (some b) = ground arith
operation_eq_iff (some a) none = ground arith

pub bucket_eq_iff : (b c : Bucket) → (bucket_eq b c ≡ true) ↔ (b ≡ c)
unfolding bucket_eq
bucket_eq_iff (a, o) (b, p) = ground (arith, eq_iff a b, operation_eq_iff o p)

pub window_of-put_window :
    (b c : Bucket) (w : Window) (s : List (Bucket × Window))
    → window_of c (put_window b w s) ≡ (if bucket_eq b c then some w else window_of c s)
unfolding window_of put_window
window_of-put_window b c w [] = refl
window_of-put_window b c w ((i, v) ∷ s) =
    ground
      (arith, bucket_eq_iff b c, bucket_eq_iff i b, bucket_eq_iff i c, window_of-put_window b c w s)
