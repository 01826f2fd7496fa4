-- ===== src/Prelude/Sorting.antt =====
-- `sort_by_key` of the standard library, a stable sort, as insertion sort; its result depends on
-- the order of its input only where two keys are equal.
use Prim.Native.Nat.{ℕ, ◌≤◌}
use mathlib.Core.Path.{◌≡◌, refl, sym, ap, subst, ◌∙◌}
use mathlib.Core.Logic.{◌≢◌}
use mathlib.Core.Bool.{Bool, true, false, ◌||◌}
use mathlib.Core.List.{List, [], ◌∷◌, Permᴰ}
use native.Mathlib.Omega.{arith}
use merge_ready.Prelude.Tests.{leb, if◌then◌else◌}
use merge_ready.Prelude.Lists.{All, any}

module _ {A : Type 0} (key : A → ℕ) where
  unfoldable pub insert_by_key : A → List A → List A
  insert_by_key a [] = a ∷ []
  insert_by_key a (b ∷ l) = if leb (key a) (key b) then a ∷ b ∷ l else b ∷ insert_by_key a l

  unfoldable pub sort_by_key : List A → List A
  sort_by_key [] = []
  sort_by_key (a ∷ l) = insert_by_key a (sort_by_key l)

  -- No element has the key of `a`.
  abbrev pub IsFresh : A → List A → Type 0
  IsFresh a l = All (λ b. key a ≢ key b) l

  abbrev pub HasDistinctIds : List A → Type 0
  HasDistinctIds [] = Unit
  HasDistinctIds (a ∷ l) = IsFresh a l × HasDistinctIds l

  abbrev pub IsSorted : List A → Type 0
  IsSorted [] = Unit
  IsSorted (a ∷ l) = All (λ b. key a ≤ key b) l × IsSorted l

  insert_comm :
      (a b : A) (l : List A)
      → key a ≢ key b
      → insert_by_key a (insert_by_key b l) ≡ insert_by_key b (insert_by_key a l)
  unfolding insert_by_key
  insert_comm a b [] h = ground arith
  insert_comm a b (c ∷ l) h = ground (arith, insert_comm a b l h)

  IsFresh-perm : (a : A) {l m : List A} → Permᴰ l m → IsFresh a l → IsFresh a m
  IsFresh-perm a Permᴰ.nil h = h
  IsFresh-perm a (Permᴰ.cons e p) h = (subst (λ x. key a ≢ key x) e h.0, IsFresh-perm a p h.1)
  IsFresh-perm a (Permᴰ.swap e f) h =
      (subst (λ x. key a ≢ key x) f h.1.0, (subst (λ x. key a ≢ key x) e h.0, h.1.1))
  IsFresh-perm a (Permᴰ.trans p q) h = IsFresh-perm a q (IsFresh-perm a p h)

  swap_distinct : (a b : A) (l : List A) → HasDistinctIds (a ∷ b ∷ l) → HasDistinctIds (b ∷ a ∷ l)
  swap_distinct a b l h = ((λ e. h.0.0 (sym e), h.1.0), (h.0.1, h.1.1))

  HasDistinctIds-perm : {l m : List A} → Permᴰ l m → HasDistinctIds l → HasDistinctIds m
  HasDistinctIds-perm Permᴰ.nil h = h
  HasDistinctIds-perm (Permᴰ.cons {a = a} {l₂ = m} e p) h =
      (subst (λ x. IsFresh x m) e (IsFresh-perm a p h.0), HasDistinctIds-perm p h.1)
  HasDistinctIds-perm (Permᴰ.swap {a = a} {b = b} {b' = b'} {l = l} e f) h =
      subst (λ x. HasDistinctIds (x ∷ b' ∷ l)) f
        (subst (λ y. HasDistinctIds (b ∷ y ∷ l)) e (swap_distinct a b l h))
  HasDistinctIds-perm (Permᴰ.trans p q) h = HasDistinctIds-perm q (HasDistinctIds-perm p h)

  pub sort-perm : {l m : List A} → Permᴰ l m → HasDistinctIds l → sort_by_key l ≡ sort_by_key m
  unfolding sort_by_key
  sort-perm Permᴰ.nil h = refl
  sort-perm (Permᴰ.cons e p) h = λ i. insert_by_key (e i) (sort-perm p h.1 i)
  sort-perm (Permᴰ.swap {a = a} {b = b} {l = l} e f) h =
      insert_comm a b (sort_by_key l) h.0.0
      ∙ (λ i. insert_by_key (f i) (insert_by_key (e i) (sort_by_key l)))
  sort-perm (Permᴰ.trans p q) h = sort-perm p h ∙ sort-perm q (HasDistinctIds-perm p h)

  insert_of_sorted : (a : A) (l : List A) → All (λ b. key a ≤ key b) l → insert_by_key a l ≡ a ∷ l
  unfolding insert_by_key
  insert_of_sorted a [] h = refl
  insert_of_sorted a (b ∷ l) h = ground arith

  pub sort_of_sorted : (l : List A) → IsSorted l → sort_by_key l ≡ l
  unfolding sort_by_key
  sort_of_sorted [] h = refl
  sort_of_sorted (a ∷ l) h = ap (insert_by_key a) (sort_of_sorted l h.1) ∙ insert_of_sorted a l h.0

  insert-All : (P : A → Type 0) (a : A) (l : List A) → P a → All P l → All P (insert_by_key a l)
  unfolding insert_by_key
  insert-All P a [] p h = (p, tt)
  insert-All P a (b ∷ l) p h =
      elim (leb (key a) (key b)) as (λ t. All P (if t then a ∷ b ∷ l else b ∷ insert_by_key a l)) [
        | true ↦ (p, h)
        | false ↦ (h.0, insert-All P a l p h.1)
      ]

  any-insert : (p : A → Bool) (a : A) (l : List A) → any p (insert_by_key a l) ≡ (p a || any p l)
  unfolding insert_by_key
  any-insert p a [] = refl
  any-insert p a (b ∷ l) = ground (arith, any-insert p a l)

  pub any-sort : (p : A → Bool) (l : List A) → any p (sort_by_key l) ≡ any p l
  unfolding sort_by_key
  any-sort p [] = refl
  any-sort p (a ∷ l) = any-insert p a (sort_by_key l) ∙ ap (λ t. p a || t) (any-sort p l)
