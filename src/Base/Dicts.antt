-- ===== src/Base/Dicts.antt =====
-- A Python `dict` with text keys: an association list in insertion order, which the operations
-- below keep free of repeated keys.
use Prim.Native.String.{String}
use text.Mathlib.Text.{◌==◌ as str_eq}
use text.Mathlib.TextEquality.{eq_iff}
use mathlib.Core.Path.{◌≡◌, refl}
use mathlib.Core.Bool.{Bool, false}
use mathlib.Core.List.{List, [], ◌∷◌, map}
use mathlib.Core.Option
use mathlib.Core.Option.{Option, none, some}
use native.Mathlib.Omega.{arith}
use llmbroker.Base.Tests.{if◌then◌else◌, is_some}
use llmbroker.Base.Lists.{mem}

abbrev pub Dict {ℓ} : Type ℓ → Type ℓ
Dict V = List (String × V)

module _ {ℓ} {V : Type ℓ} where
  -- `d.get(key)`.
  unfoldable pub lookup : (key : String) (entries : Dict V) → Option V
  lookup key [] = none
  lookup key ((other, x) ∷ entries) = if str_eq other key then some x else lookup key entries

  -- `d[k] = v`: a known key keeps its place, a new one goes to the end.
  unfoldable pub insert : (key : String) (x : V) (entries : Dict V) → Dict V
  insert key x [] = (key, x) ∷ []
  insert key x ((other, y) ∷ entries) =
      if str_eq other key then (other, x) ∷ entries else (other, y) ∷ insert key x entries

  -- `d.pop(k, None)`.
  unfoldable pub remove : String → Dict V → Dict V
  remove k [] = []
  remove k ((j, w) ∷ d) = let rest = remove k d in if str_eq j k then rest else (j, w) ∷ rest

  -- A change of the value at a key, where there is one.
  unfoldable pub update : String → (V → V) → Dict V → Dict V
  update k f [] = []
  update k f ((j, w) ∷ d) = if str_eq j k then (j, f w) ∷ d else (j, w) ∷ update k f d

  abbrev pub keys : Dict V → List String
  keys d = map (λ e. e.0) d

  abbrev pub values : Dict V → List V
  values d = map (λ e. e.1) d

  unfoldable pub has_key : String → Dict V → Bool
  unfolding lookup
  has_key k d = is_some (lookup k d)

  pub lookup-insert :
      (k j : String) (v : V) (d : Dict V)
      → lookup j (insert k v d) ≡ (if str_eq k j then some v else lookup j d)
  unfolding lookup insert
  lookup-insert k j v [] = refl
  lookup-insert k j v ((i, w) ∷ d) =
      ground (arith, eq_iff k j, eq_iff i k, eq_iff i j, lookup-insert k j v d)

  pub lookup-remove :
      (k j : String) (d : Dict V)
      → lookup j (remove k d) ≡ (if str_eq k j then none else lookup j d)
  unfolding lookup remove
  lookup-remove k j [] = ground arith
  lookup-remove k j ((i, w) ∷ d) =
      ground (arith, lookup-remove k j d, eq_iff i k, eq_iff i j, eq_iff k j)

  pub lookup-insert_self :
      (key : String) (x : V) (entries : Dict V) → lookup key (insert key x entries) ≡ some x
  lookup-insert_self key x entries = ground (arith, lookup-insert key key x entries, eq_iff key key)

  pub lookup-remove_self : (k : String) (d : Dict V) → lookup k (remove k d) ≡ none
  lookup-remove_self k d = ground (arith, lookup-remove k k d, eq_iff k k)

  pub lookup-update_self :
      (k : String) (f : V → V) (d : Dict V) (v : V)
      → lookup k d ≡ some v
      → lookup k (update k f d) ≡ some (f v)
  unfolding lookup update
  lookup-update_self k f [] v h = ground arith
  lookup-update_self k f ((i, w) ∷ d) v h = ground (arith, eq_iff i k, lookup-update_self k f d v)

  pub lookup-update_ne :
      (k j : String) (f : V → V) (d : Dict V)
      → str_eq k j ≡ false
      → lookup j (update k f d) ≡ lookup j d
  unfolding lookup update
  lookup-update_ne k j f [] h = refl
  lookup-update_ne k j f ((i, w) ∷ d) h =
      ground (arith, eq_iff i k, eq_iff i j, eq_iff k j, lookup-update_ne k j f d h)

  pub lookup-update :
      (k j : String) (f : V → V) (d : Dict V)
      → lookup j (update k f d) ≡ (if str_eq k j then Option.map f (lookup j d) else lookup j d)
  unfolding lookup update
  lookup-update k j f [] = ground arith
  lookup-update k j f ((i, w) ∷ d) =
      ground (arith, eq_iff i k, eq_iff i j, eq_iff k j, lookup-update k j f d)

  pub keys-update : (k : String) (f : V → V) (d : Dict V) → keys (update k f d) ≡ keys d
  unfolding update
  keys-update k f [] = refl
  keys-update k f ((i, w) ∷ d) = ground (arith, keys-update k f d)

  pub mem-keys : (k : String) (d : Dict V) → mem k (keys d) ≡ is_some (lookup k d)
  unfolding lookup
  mem-keys k [] = refl
  mem-keys k ((i, w) ∷ d) = ground (arith, mem-keys k d)
