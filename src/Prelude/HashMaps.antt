-- ===== src/Prelude/HashMaps.antt =====
-- `HashMap<RepoId, V>` of the standard library: an association list whose keys are distinct.
-- The source fixes no iteration order; the list's order stands for the one that the map happens
-- to have.
use mathlib.Core.Path.{◌≡◌, refl, subst}
use mathlib.Core.Logic.{◌≢◌, inl, inr}
use mathlib.Core.Bool.{true, false}
use mathlib.Core.Option.{Option, none, some}
use mathlib.Core.List.{List, [], ◌∷◌}
use native.Mathlib.Omega.{arith}
use merge_ready.Prelude.Tests.{if◌then◌else◌, Bool-cases}
use merge_ready.Prelude.Texts.{Text, eqb, eqb_iff}

abbrev pub HashMap : Type 0 → Type 0
HashMap V = List (Text × V)

module _ {V : Type 0} where
  unfoldable pub get : Text → HashMap V → Option V
  get k [] = none
  get k ((j, v) ∷ m) = if eqb j k then some v else get k m

  unfoldable pub insert : Text → V → HashMap V → HashMap V
  insert k v [] = (k, v) ∷ []
  insert k v ((j, w) ∷ m) = if eqb j k then (j, v) ∷ m else (j, w) ∷ insert k v m

  abbrev pub values : HashMap V → List V
  values [] = []
  values ((_, v) ∷ m) = v ∷ values m

  abbrev pub HasDistinctKeys : HashMap V → Type 0
  HasDistinctKeys [] = Unit
  HasDistinctKeys ((k, _) ∷ m) = (get k m ≡ none) × HasDistinctKeys m

  -- A predicate on every value.
  abbrev pub AllValues : (V → Type 0) → HashMap V → Type 0
  AllValues P [] = Unit
  AllValues P ((_, v) ∷ m) = P v × AllValues P m

  pub get-insert :
      (k j : Text) (v : V) (m : HashMap V)
      → get j (insert k v m) ≡ (if eqb k j then some v else get j m)
  unfolding get insert
  get-insert k j v [] = refl
  get-insert k j v ((i, w) ∷ m) =
      ground (arith, eqb_iff k j, eqb_iff i k, eqb_iff i j, get-insert k j v m)

  pub get-insert_self : (k : Text) (v : V) (m : HashMap V) → get k (insert k v m) ≡ some v
  get-insert_self k v m = ground (arith, get-insert k k v m, eqb_iff k k)

  pub get-insert_ne : (k j : Text) (v : V) (m : HashMap V) → k ≢ j → get j (insert k v m) ≡ get j m
  get-insert_ne k j v m h = ground (arith, get-insert k j v m, eqb_iff k j)

  pub insert-HasDistinctKeys :
      (k : Text) (v : V) (m : HashMap V) → HasDistinctKeys m → HasDistinctKeys (insert k v m)
  unfolding get insert
  insert-HasDistinctKeys k v [] h = (refl, tt)
  insert-HasDistinctKeys k v ((j, w) ∷ m) h =
      ground (arith, insert-HasDistinctKeys k v m, get-insert k j v m, eqb_iff j k, eqb_iff k j)

  pub insert-AllValues :
      (P : V → Type 0) (k : Text) (v : V) (m : HashMap V)
      → AllValues P m
      → P v
      → AllValues P (insert k v m)
  unfolding insert
  insert-AllValues P k v [] h p = (p, tt)
  insert-AllValues P k v ((j, w) ∷ m) h p =
      elim (eqb j k) as (λ b. AllValues P (if b then (j, v) ∷ m else (j, w) ∷ insert k v m)) [
        | true ↦ (p, h.1)
        | false ↦ (h.0, insert-AllValues P k v m h.1 p)
      ]

  pub AllValues-get :
      (P : V → Type 0) (k : Text) (m : HashMap V) {v : V} → AllValues P m → get k m ≡ some v → P v
  unfolding get
  AllValues-get P k [] h e = cc
  AllValues-get P k ((j, w) ∷ m) {v} h e = elim (Bool-cases (eqb j k)) [
    | inl here ↦ let same : w ≡ v = ground arith in subst P same h.0
    | inr there ↦ AllValues-get P k m h.1 (ground arith)
  ]
