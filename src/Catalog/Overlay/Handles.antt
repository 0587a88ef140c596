-- ===== src/Catalog/Overlay/Handles.antt =====
-- What the handles of the declared models promise.
use text.Mathlib.Text.{◌==◌ as str_eq}
use llmbroker.Base.{
  String, ◌≡◌, refl, sym, ◌∙◌, ◌↔◌, Bool, true, false, not, ◌&&◌, Option, none, some, List, [], ◌∷◌,
  ◌++◌, arith, mem, any_some, is_some, no_repeats, find?, eq_iff, mem-append, All, map, Dict,
}
use llmbroker.Models.{LlmConfig}
use llmbroker.Merge.{names}
use llmbroker.Catalog.Overlay.{
  OverlayError, alias_list, aliases, is_alias, is_name, overlay_error, check_declared,
  check_overlay, by_alias, by_name, found, find_declared,
}

-- No entry of the first list stands in the second.
abbrev pub disjoint : List String → List String → Bool
disjoint [] ks = true
disjoint (j ∷ js) ks = not (mem j ks) && disjoint js ks

-- The handles that a list of declared models must have: no name and no alias twice, and none that
-- is taken.
abbrev pub are_free : (taken_names taken_aliases : List String) → List LlmConfig → Bool
are_free taken_names taken_aliases declared =
    (no_repeats (names declared) && no_repeats (aliases declared))
    && (disjoint (names declared) taken_names && disjoint (aliases declared) taken_aliases)

accepts : (stored : List LlmConfig) (seen_names seen_aliases : List String) (c : LlmConfig) → Bool
accepts stored seen_names seen_aliases c =
    (not (any_some (λ a. mem a seen_aliases) c.alias) && not (mem c.name seen_names))
    && (not (mem c.name (names stored)) && not (any_some (λ a. mem a (aliases stored)) c.alias))

overlay_error-accepts :
    (stored : List LlmConfig) (sn sa : List String) (c : LlmConfig)
    → not (is_some (overlay_error stored sn sa c)) ≡ accepts stored sn sa c
unfolding overlay_error accepts
overlay_error-accepts stored sn sa c = ground arith

disjoint-cons :
    (k : String) (js ks : List String) → disjoint js (k ∷ ks) ≡ (not (mem k js) && disjoint js ks)
disjoint-cons k [] ks = refl
disjoint-cons k (j ∷ js) ks = ground (arith, disjoint-cons k js ks, eq_iff j k, eq_iff k j)

module _ (n : String) (ns bs sn sa tn ta : List String) where
  -- One entry's handles apart from the others': its name, and its alias where it has one.
  handles_free-cons :
      (alias : Option String)
      → ((no_repeats (n ∷ ns) && no_repeats (alias_list alias ++ bs))
          && (disjoint (n ∷ ns) tn && disjoint (alias_list alias ++ bs) ta)
          && (disjoint (n ∷ ns) sn && disjoint (alias_list alias ++ bs) sa))
        ≡ (((not (any_some (λ a. mem a sa) alias) && not (mem n sn))
              && (not (mem n tn) && not (any_some (λ a. mem a ta) alias)))
            && ((no_repeats ns && no_repeats bs)
                && (disjoint ns tn && disjoint bs ta)
                && (disjoint ns (n ∷ sn) && disjoint bs (alias_list alias ++ sa))))
  handles_free-cons none = ground (arith, disjoint-cons n ns sn)
  handles_free-cons (some a) = ground (arith, disjoint-cons n ns sn, disjoint-cons a bs sa)

disjoint-nil : (ks : List String) → disjoint ks [] ≡ true
disjoint-nil [] = refl
disjoint-nil (k ∷ ks) = disjoint-nil ks

module _ (stored : List LlmConfig) where
  -- Free of what is taken, and of what stands ahead of them in the list.
  all_free : (sn sa : List String) → List LlmConfig → Bool
  all_free sn sa declared =
      are_free (names stored) (aliases stored) declared
      && (disjoint (names declared) sn && disjoint (aliases declared) sa)

  check_declared-all_free :
      (sn sa : List String) (declared : List LlmConfig)
      → not (is_some (check_declared stored sn sa declared)) ≡ all_free sn sa declared
  unfolding check_declared all_free accepts
  check_declared-all_free sn sa [] = refl
  check_declared-all_free sn sa (c ∷ cs) =
      step (overlay_error stored sn sa c)
      ∙ ((λ i.
            overlay_error-accepts stored sn sa c i
            && check_declared-all_free (c.name ∷ sn) (alias_list c.alias ++ sa) cs i)
          ∙ sym (
              handles_free-cons c.name (names cs) (aliases cs) sn sa (names stored) (aliases stored)
                c.alias))
    where
      rest : Option OverlayError
      rest = check_declared stored (c.name ∷ sn) (alias_list c.alias ++ sa) cs

      step :
          (o : Option OverlayError)
          → not (is_some (elim o [ some e ↦ some e | none ↦ rest ]))
            ≡ (not (is_some o) && not (is_some rest))
      step none = refl
      step (some e) = refl

  -- The declared models pass exactly where their handles are free: no two of them have one name or
  -- one alias, and none has a name or an alias of a stored entry.
  pub check_overlay-are_free :
      (declared : List LlmConfig)
      → (check_overlay stored declared ≡ none)
        ↔ (are_free (names stored) (aliases stored) declared ≡ true)
  unfolding check_overlay all_free
  check_overlay-are_free declared = ground (
    arith,
    check_declared-all_free [] [] declared,
    disjoint-nil (names declared),
    disjoint-nil (aliases declared),
  )

mem-names : (xs ys : List LlmConfig) (c : LlmConfig) → mem c.name (names (xs ++ c ∷ ys)) ≡ true
mem-names [] ys c = ground (arith, eq_iff c.name c.name)
mem-names (x ∷ xs) ys c = ground (arith, mem-names xs ys c)

module _ (a : String) where
  mem-alias_list :
      (o : Option String)
      → o ≡ some a
      → (mem a (alias_list o) ≡ true) × (any_some (λ b. str_eq b a) o ≡ true)
  mem-alias_list none e = cc
  mem-alias_list (some b) e = ground (arith, eq_iff b a)

  -- An alias that stands further on in a list with no repeats is not the first entry's.
  later_alias :
      (o : Option String) (rest : List String)
      → no_repeats (alias_list o ++ rest) ≡ true
      → mem a rest ≡ true
      → (any_some (λ b. str_eq b a) o ≡ false) × (no_repeats rest ≡ true)
  later_alias none rest h m = (refl, h)
  later_alias (some b) rest h m = ground (arith, eq_iff b a)

  module _ (c : LlmConfig) (e : c.alias ≡ some a) (ys : List LlmConfig) where
    mem-aliases : (xs : List LlmConfig) → mem a (aliases (xs ++ c ∷ ys)) ≡ true
    mem-aliases [] =
        ground (arith, mem-append a (alias_list c.alias) (aliases ys), mem-alias_list c.alias)
    mem-aliases (x ∷ xs) =
        ground (arith, mem-append a (alias_list x.alias) (aliases (xs ++ c ∷ ys)), mem-aliases xs)

    find-alias :
        (xs : List LlmConfig)
        → no_repeats (aliases (xs ++ c ∷ ys)) ≡ true
        → find? (is_alias a) (xs ++ c ∷ ys) ≡ some c
    find-alias [] h = rw (mem-alias_list c.alias e).1
    find-alias (x ∷ xs) h =
        let (not_it, rest) = later_alias x.alias (aliases (xs ++ c ∷ ys)) h (mem-aliases xs) in
        rw not_it (find-alias xs rest)

find-name :
    (xs ys : List LlmConfig) (c : LlmConfig)
    → no_repeats (names (xs ++ c ∷ ys)) ≡ true
    → find? (is_name c.name) (xs ++ c ∷ ys) ≡ some c
find-name [] ys c h = ground (arith, eq_iff c.name c.name)
find-name (x ∷ xs) ys c h =
    ground (arith, find-name xs ys c, mem-names xs ys c, eq_iff x.name c.name)

-- Where the declared models pass the check, each of them is what its handles find: its name does,
-- and its alias where it has one, whatever the pool holds and the paid catalog could not resolve.
pub find_declared-check_overlay :
    (stored xs ys : List LlmConfig) (c : LlmConfig) (unresolved : Dict String)
    → check_overlay stored (xs ++ c ∷ ys) ≡ none
    → All
        (λ h. find_declared stored (xs ++ c ∷ ys) unresolved h ≡ found c)
        (by_name c.name ∷ map by_alias (alias_list c.alias))
unfolding find_declared
find_declared-check_overlay stored xs ys c unresolved ok =
    (rw (find-name xs ys c (ground (arith, free)), find_declared) refl, reached c.alias refl)
  where
    free : are_free (names stored) (aliases stored) (xs ++ c ∷ ys) ≡ true
    free = (check_overlay-are_free stored (xs ++ c ∷ ys)).0 ok

    reached :
        (o : Option String)
        → c.alias ≡ o
        → All
            (λ h. find_declared stored (xs ++ c ∷ ys) unresolved h ≡ found c)
            (map by_alias (alias_list o))
    reached none e = tt
    reached (some a) e =
        (rw (find-alias a c e ys xs (ground (arith, free)), find_declared) refl, tt)
