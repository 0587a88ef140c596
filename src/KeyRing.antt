-- ===== src/KeyRing.antt =====
-- src/llmbroker/broker/keyring.py: the keys one caller may pay with. A ring with the shared ring
-- that it falls back on is a chain: the caller's own ring first. The secrets backend is a
-- parameter, given anew to each call, since what it holds may change between calls.
pub mod Holds
pub mod Rejections
use Prim.Native.String.{◌++◌ as str_append}
use text.Mathlib.Text.{◌==◌ as str_eq}
use llmbroker.Base.{
  ℕ, String, Bool, true, false, not, ◌&&◌, ◌||◌, Option, none, some, List, [], ◌∷◌, map, Dict,
  lookup, insert, remove, has_key, is_some, any_some, if◌then◌else◌, mem, distinct, filter,
}

-- What a lookup of the backend comes to; `missing` is a KeyError, `unreadable` any other exception.
pub data Answer : Type 0 where
  value : String → Answer
  missing unreadable : Answer

-- A secrets backend, and Python's test of a blank text (`not value.strip()`).
pub record Secrets : Type 0 where
  pub ask : String → Answer
  pub is_blank : String → Bool

pub record Ring : Type 0 where
  pub scope : Option String
  pub values : Dict String
  pub absent : List String
  pub rejected : Dict String
  pub known : Option (List String)

unfoldable pub new_ring : Option String → Option (List String) → Ring
new_ring scope known = record {
  scope = scope;
  values = [];
  absent = [];
  rejected = [];
  known = known;
}

abbrev pub is_empty_text : String → Bool
is_empty_text s = str_eq s ""

-- What a lookup of a ref comes to: a key or none, or the exception of the backend.
pub data Lookup : Type 0 where
  found : Option String → Lookup
  fails : Lookup

unfoldable pub resolve_ref : Secrets → String → Lookup
resolve_ref secrets ref = if is_empty_text ref then found none else elim (secrets.ask ref) [
  | value v ↦ found (if secrets.is_blank v then none else some v)
  | missing ↦ found none
  | unreadable ↦ fails
]

-- A key that cannot be read taken for none.
abbrev pub or_unset : Lookup → Option String
or_unset (found o) = o
or_unset fails = none

-- `_read`: whatever the backend raises is read as unset.
unfoldable pub read : Secrets → Ring → String → Option String
read secrets ring ref =
    if is_empty_text ref || any_some (λ refs. not (mem ref refs)) ring.known
    then none
    else or_unset (resolve_ref secrets ref)

unfoldable pub own_ref : Ring → String → String
own_ref ring ref = elim ring.scope [
  | none ↦ ref
  | some scope ↦ str_append scope (str_append "/" ref)
]

-- What the own ring settles: an answer, or that the shared ring is to be asked.
pub data Own : Type 0 where
  answered : Option String → Ring → Own
  asks_shared : Ring → Own

unfoldable pub resolve_own : Secrets → Ring → String → Own
resolve_own secrets ring ref =
    let own = read secrets ring (own_ref ring ref) in
    if has_key ref ring.rejected then answered none ring else elim (lookup ref ring.values) [
      | some v ↦ answered (some v) ring
      | none ↦ if is_empty_text ref || mem ref ring.absent then asks_shared ring else elim own [
        | some v ↦ answered (some v) (record ring { values = insert ref v ring.values })
        | none ↦ asks_shared (record ring { absent = ref ∷ ring.absent })
      ]
    ]

unfoldable pub resolve : Secrets → List Ring → String → Option String × List Ring
resolve secrets [] ref = (none, [])
resolve secrets (ring ∷ shared) ref =
    let rest = resolve secrets shared ref in
    elim (resolve_own secrets ring ref) [
      | answered answer ring' ↦ (answer, ring' ∷ shared)
      | asks_shared ring' ↦ (rest.0, ring' ∷ rest.1)
    ]

unfoldable pub payable_from : Secrets → List Ring → List String → List String × List Ring
payable_from secrets chain [] = ([], chain)
payable_from secrets chain (ref ∷ refs) =
    let (answer, chain') = resolve secrets chain ref in
    let (rest, chain'') = payable_from secrets chain' refs in
    (if is_some answer then ref ∷ rest else rest, chain'')

unfoldable pub payable : Secrets → List Ring → List String → List String × List Ring
payable secrets chain refs = payable_from secrets chain (distinct refs)

unfoldable pub forget : List Ring → String → List Ring
forget [] ref = []
forget (ring ∷ shared) ref =
    let rest = forget shared ref in
    elim (lookup ref ring.values) [
      | none ↦ ring ∷ rest
      | some v ↦
          record ring {
            values = remove ref ring.values;
            absent = filter (λ r. not (str_eq r ref)) ring.absent;
            rejected = insert ref v ring.rejected;
          }
          ∷ shared
    ]

-- The rejections whose value the backend still holds.
unfoldable pub still_rejected : Secrets → Ring → Dict String → Dict String
still_rejected secrets ring [] = []
still_rejected secrets ring ((ref, v) ∷ rejected) =
    let rest = still_rejected secrets ring rejected in
    if any_some (λ w. str_eq w v) (read secrets ring (own_ref ring ref))
    then (ref, v) ∷ rest
    else rest

abbrev pub cleared : Option (List String) → Ring → Ring
cleared known ring = record ring { values = []; absent = []; known = known }

unfoldable pub refresh : Secrets → Option (List String) → Ring → Ring
refresh secrets known ring = record (cleared known ring) {
  rejected = still_rejected secrets (cleared known ring) ring.rejected;
}
