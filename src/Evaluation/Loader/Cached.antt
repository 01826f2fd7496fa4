-- ===== src/Evaluation/Loader/Cached.antt =====
-- `load_compiled_display_config`: the cache never gives another configuration than the file's.
use merge_ready.Prelude.{
  ℕ, Text, true, Option, none, some, List, [], ◌∷◌, Result, ok, err, Panic, ◌≡◌, refl, sym, ap, ◌∙◌,
  arith, Bool-cases, inl, inr, Member, All,
}
use merge_ready.Evaluation.Config.{CompiledDisplayConfig, compile}
use merge_ready.Evaluation.Loader.{
  CachedConfig, Libraries, fingerprint, parse_display_config, same_fingerprint, lookup,
  store_compiled, load_or, load_compiled_display_config, load_all,
}

-- Two contents of a list with one fingerprint are the same.
abbrev pub IsTelling : Libraries → List (Option Text) → Type 0
IsTelling libs contents =
    (s t : Option Text)
    → Member s contents
    → Member t contents
    → fingerprint libs s ≡ fingerprint libs t
    → s ≡ t

same_fingerprint_eq : (a b : Option ℕ) → same_fingerprint a b ≡ true → a ≡ b
same_fingerprint_eq none none h = refl
same_fingerprint_eq none (some b) h = cc
same_fingerprint_eq (some a) none h = cc
same_fingerprint_eq (some a) (some b) h = ap some (ground arith)

abbrev fresh : Libraries → Option Text → Result Panic CompiledDisplayConfig
fresh libs content = compile (parse_display_config libs content)

module _ (libs : Libraries) (all : List (Option Text)) (telling : IsTelling libs all) where
  -- The cache holds the configuration of a content of the list, with its fingerprint.
  abbrev IsHonest : Option CachedConfig → Type 0
  IsHonest none = Unit
  IsHonest (some cached) =
      (content : Option Text) × Member content all
      × (fingerprint libs content ≡ cached.fingerprint)
      × (fresh libs content ≡ ok cached.config)

  stored :
      (cache : Option CachedConfig) (content : Option Text) (r : Result Panic CompiledDisplayConfig)
      → fresh libs content ≡ r
      → Member content all
      → IsHonest cache
      → (IsHonest (store_compiled cache (fingerprint libs content) r).0)
        × ((store_compiled cache (fingerprint libs content) r).1 ≡ fresh libs content)
  unfolding store_compiled
  stored cache content (ok c) e m h = ((content, m, refl, e), sym e)
  stored cache content (err p) e m h = (h, sym e)

  hit_is_fresh :
      (cached : CachedConfig) (content : Option Text)
      → Member content all
      → IsHonest (some cached)
      → same_fingerprint cached.fingerprint (fingerprint libs content) ≡ true
      → ok cached.config ≡ fresh libs content
  hit_is_fresh cached content m (old, member, print, config) same =
      sym config
      ∙ ap (fresh libs) (telling old content member m (print ∙ same_fingerprint_eq _ _ same))

  load-IsHonest :
      (cache : Option CachedConfig) (content : Option Text)
      → Member content all
      → IsHonest cache
      → (IsHonest (load_compiled_display_config libs cache content).0)
        × ((load_compiled_display_config libs cache content).1 ≡ fresh libs content)
  unfolding load_compiled_display_config load_or lookup
  load-IsHonest none content m h = stored none content (fresh libs content) refl m h
  load-IsHonest (some cached) content m h =
      elim (Bool-cases (same_fingerprint cached.fingerprint (fingerprint libs content))) [
        | inl same ↦ rw same (h, hit_is_fresh cached content m h same)
        | inr other ↦ rw other (stored (some cached) content (fresh libs content) refl m h)
      ]

  load_all-IsHonest :
      (cache : Option CachedConfig) (contents : List (Option Text))
      → All (λ c. Member c all) contents
      → IsHonest cache
      → IsHonest (load_all libs cache contents)
  unfolding load_all
  load_all-IsHonest cache [] m h = h
  load_all-IsHonest cache (content ∷ rest) m h =
      load_all-IsHonest (load_compiled_display_config libs cache content).0 rest m.1
        (load-IsHonest cache content m.0 h).0

All-weaken :
    (c : Option Text) (l m : List (Option Text))
    → All (λ x. Member x m) l
    → All (λ x. Member x (c ∷ m)) l
All-weaken c [] m h = tt
All-weaken c (x ∷ l) m h = (inr h.0, All-weaken c l m h.1)

members : (contents : List (Option Text)) → All (λ c. Member c contents) contents
members [] = tt
members (c ∷ contents) = (inl refl, All-weaken c contents contents (members contents))

-- If the hash tells the contents of the file apart that the loads meet, then after any loads a load
-- gives what the present content compiles to, cached or not, a panic included.
pub load-load_all :
    (libs : Libraries) (contents : List (Option Text)) (content : Option Text)
    → IsTelling libs (content ∷ contents)
    → (load_compiled_display_config libs (load_all libs none contents) content).1
      ≡ compile (parse_display_config libs content)
load-load_all libs contents content telling =
    (load-IsHonest libs (content ∷ contents) telling (load_all libs none contents) content
      (inl refl)
      (load_all-IsHonest libs (content ∷ contents) telling none contents
        (All-weaken content contents contents (members contents)) tt)).1
