-- ===== src/Evaluation/Gh/Newest.antt =====
-- src/contexts/evaluation/infrastructure/gh.rs, ci_from_node: of the runs of one name, the newest
-- is kept.
use merge_ready.Prelude.{
  Text, eqb, eqb_iff, Bool, true, false, not, ◌||◌, Option, none, some, List, [], ◌∷◌, ◌++◌,
  All-append, Member-append_left, if◌then◌else◌, HashMap, get, get-insert, ◌≡◌, refl, sym, ap, ◌∙◌,
  arith, All, Member, inl, inr, is_some_and, subst, Bool-cases, Option-cases,
}
use mathlib.Core.List.{append_assoc, append-nil}
use merge_ready.Evaluation.Gh.{
  CheckContext, name, recency, text_leb, keep_newest, keep_named, latest_runs,
}

text_leb_refl : (s : Text) → text_leb s s ≡ true
unfolding text_leb
text_leb_refl [] = refl
text_leb_refl (a ∷ s) = ground (arith, text_leb_refl s)

text_leb_total : (s t : Text) → (text_leb s t || text_leb t s) ≡ true
unfolding text_leb
text_leb_total [] t = refl
text_leb_total (a ∷ s) [] = refl
text_leb_total (a ∷ s) (b ∷ t) = ground (arith, text_leb_total s t)

text_leb_trans : (s t u : Text) → text_leb s t ≡ true → text_leb t u ≡ true → text_leb s u ≡ true
unfolding text_leb
text_leb_trans [] t u h k = refl
text_leb_trans (a ∷ s) [] u h k = cc
text_leb_trans (a ∷ s) (b ∷ t) [] h k = cc
text_leb_trans (a ∷ s) (b ∷ t) (c ∷ u) h k = ground (arith, text_leb_trans s t u)

-- Whether a run has a name.
pub is_named : Text → CheckContext → Bool
is_named n ctx = is_some_and (name ctx) (λ m. eqb m n)

-- The choice between the run kept and the next one.
pick : Text → Option CheckContext → CheckContext → Option CheckContext
pick n kept ctx =
    if is_named n ctx
    then if is_some_and kept (λ prev. text_leb (recency ctx) (recency prev)) then kept else some ctx
    else kept

fold : Text → Option CheckContext → List CheckContext → Option CheckContext
fold n kept [] = kept
fold n kept (ctx ∷ rest) = fold n (pick n kept ctx) rest

get-keep_named :
    (n : Text) (ctx : CheckContext) (latest : HashMap CheckContext)
    → get n (keep_named ctx (name ctx) latest) ≡ pick n (get n latest) ctx
unfolding keep_named keep_newest pick is_named
get-keep_named n ctx latest = elim (Option-cases (name ctx)) [
  | inl e ↦ ground arith
  | inr (m, e) ↦ ground (arith, eqb_iff m n, get-insert m n ctx latest)
]

get-latest_runs :
    (n : Text) (latest : HashMap CheckContext) (contexts : List CheckContext)
    → get n (latest_runs latest contexts) ≡ fold n (get n latest) contexts
unfolding latest_runs fold
get-latest_runs n latest [] = refl
get-latest_runs n latest (ctx ∷ rest) =
    get-latest_runs n (keep_named ctx (name ctx) latest) rest
    ∙ ap (λ kept. fold n kept rest) (get-keep_named n ctx latest)

-- That no run of a list with a name is newer than `r`.
abbrev pub IsUpperBound : Text → CheckContext → List CheckContext → Type 0
IsUpperBound n r = All (λ c. (not (is_named n c) || text_leb (recency c) (recency r)) ≡ true)

-- What it is to be the newest run of a name: without a run, there is none of the name.
abbrev pub IsNewest : Text → List CheckContext → Option CheckContext → Type 0
IsNewest n contexts none = All (λ c. is_named n c ≡ false) contexts
IsNewest n contexts (some r) =
    Member r contexts × ((is_named n r ≡ true) × IsUpperBound n r contexts)

unnamed-IsUpperBound :
    (n : Text) (r : CheckContext) (seen : List CheckContext)
    → All (λ c. is_named n c ≡ false) seen
    → IsUpperBound n r seen
unnamed-IsUpperBound n r [] h = tt
unnamed-IsUpperBound n r (c ∷ seen) h = (ground (arith, h.0), unnamed-IsUpperBound n r seen h.1)

IsUpperBound-trans :
    (n : Text) (r q : CheckContext) (seen : List CheckContext)
    → text_leb (recency r) (recency q) ≡ true
    → IsUpperBound n r seen
    → IsUpperBound n q seen
IsUpperBound-trans n r q [] e h = tt
IsUpperBound-trans n r q (c ∷ seen) e h = (
  ground (arith, h.0, text_leb_trans (recency c) (recency r) (recency q)),
  IsUpperBound-trans n r q seen e h.1,
)

Member-push : (r : CheckContext) (seen : List CheckContext) → Member r (seen ++ r ∷ [])
Member-push r [] = inl refl
Member-push r (c ∷ seen) = inr (Member-push r seen)

-- A run that is not of the name, or not newer than the one kept, changes nothing.
keep-IsNewest :
    (n : Text) (seen : List CheckContext) (r ctx : CheckContext)
    → IsNewest n seen (some r)
    → (not (is_named n ctx) || text_leb (recency ctx) (recency r)) ≡ true
    → IsNewest n (seen ++ ctx ∷ []) (some r)
keep-IsNewest n seen r ctx h e =
    (Member-append_left r seen (ctx ∷ []) h.0, (h.1.0, All-append _ seen (ctx ∷ []) h.1.1 (e, tt)))

take-IsNewest :
    (n : Text) (seen : List CheckContext) (ctx : CheckContext)
    → IsUpperBound n ctx seen
    → is_named n ctx ≡ true
    → IsNewest n (seen ++ ctx ∷ []) (some ctx)
take-IsNewest n seen ctx h e = (
  Member-push ctx seen,
  (e, All-append _ seen (ctx ∷ []) h (ground (arith, text_leb_refl (recency ctx)), tt)),
)

pick_first-IsNewest :
    (n : Text) (seen : List CheckContext) (ctx : CheckContext)
    → IsNewest n seen none
    → IsNewest n (seen ++ ctx ∷ []) (pick n none ctx)
unfolding pick
pick_first-IsNewest n seen ctx h = elim (Bool-cases (is_named n ctx)) [
  | inl e ↦ rw e (take-IsNewest n seen ctx (unnamed-IsUpperBound n ctx seen h) e)
  | inr e ↦ rw e (All-append _ seen (ctx ∷ []) h (e, tt))
]

pick_next-IsNewest :
    (n : Text) (seen : List CheckContext) (r ctx : CheckContext)
    → IsNewest n seen (some r)
    → IsNewest n (seen ++ ctx ∷ []) (pick n (some r) ctx)
unfolding pick
pick_next-IsNewest n seen r ctx h = elim (Bool-cases (is_named n ctx)) [
  | inr e ↦ rw e (keep-IsNewest n seen r ctx h (ground arith))
  | inl e ↦ elim (Bool-cases (text_leb (recency ctx) (recency r))) [
    | inl older ↦ rw (e, older) (keep-IsNewest n seen r ctx h (ground arith))
    | inr newer ↦ rw (e, newer) (take-IsNewest n seen ctx (newer_bound newer) e)
  ]
]
  where
    newer_bound : text_leb (recency ctx) (recency r) ≡ false → IsUpperBound n ctx seen
    newer_bound newer =
        IsUpperBound-trans n r ctx seen (ground (arith, text_leb_total (recency ctx) (recency r)))
          h.1.1

pick-IsNewest :
    (n : Text) (seen : List CheckContext) (kept : Option CheckContext) (ctx : CheckContext)
    → IsNewest n seen kept
    → IsNewest n (seen ++ ctx ∷ []) (pick n kept ctx)
pick-IsNewest n seen none ctx h = pick_first-IsNewest n seen ctx h
pick-IsNewest n seen (some r) ctx h = pick_next-IsNewest n seen r ctx h

fold-IsNewest :
    (n : Text) (seen rest : List CheckContext) (kept : Option CheckContext)
    → IsNewest n seen kept
    → IsNewest n (seen ++ rest) (fold n kept rest)
unfolding fold
fold-IsNewest n seen [] kept h = subst (λ l. IsNewest n l kept) (sym (append-nil seen)) h
fold-IsNewest n seen (ctx ∷ rest) kept h =
    subst (λ l. IsNewest n l (fold n (pick n kept ctx) rest)) (append_assoc seen (ctx ∷ []) rest)
      (fold-IsNewest n (seen ++ ctx ∷ []) rest (pick n kept ctx) (pick-IsNewest n seen kept ctx h))

-- For every name, the map of the newest runs holds a run of the list that has the name and that no
-- run of the name is newer than; it holds none exactly where no run of the list has the name.
pub latest_runs-IsNewest :
    (contexts : List CheckContext) (n : Text)
    → IsNewest n contexts (get n (latest_runs [] contexts))
unfolding get
latest_runs-IsNewest contexts n =
    subst (IsNewest n contexts) (sym (get-latest_runs n [] contexts))
      (fold-IsNewest n [] contexts none tt)
