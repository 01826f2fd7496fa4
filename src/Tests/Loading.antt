-- ===== src/Tests/Loading.antt =====
-- Runs of the loader of the display configuration.
use merge_ready.Prelude.{
  ℕ, Text, codes, Option, none, some, [], ◌∷◌, length, ◌≡◌, refl, sym, ◌∙◌, ap, inl, inr,
}
use merge_ready.Evaluation.Config.{compile}
use merge_ready.Evaluation.Loader.{
  Libraries, no_config, default_config, merge_token, merge_error, merge_with_defaults,
  parse_display_config, load_compiled_display_config, load_all, fingerprint,
}
use merge_ready.Evaluation.Loader.Cached.{IsTelling, load-load_all}

nothing_given : merge_with_defaults no_config ≡ default_config
unfolding merge_with_defaults merge_token merge_error default_config
nothing_given = refl

-- A hash by the length, and a file that is no TOML.
abbrev libs : Libraries
libs = record { xx_hash = length; decode = λ bytes. some no_config }

abbrev file : Option Text
file = some (codes "a")

some_not_none : (n : ℕ) → ◌≡◌ {A = Option ℕ} (some n) none → ⊥
some_not_none n e = cc

differ : (s t : Option Text) → s ≡ file → t ≡ none → fingerprint libs s ≡ fingerprint libs t → ⊥
differ s t e f same =
    some_not_none 1 (sym (ap (fingerprint libs) e) ∙ same ∙ ap (fingerprint libs) f)

telling : IsTelling libs (file ∷ none ∷ [])
telling s t (inl e) (inl f) same = e ∙ sym f
telling s t (inl e) (inr (inl f)) same = absurd (differ s t e f same)
telling s t (inl e) (inr (inr n)) same = absurd n
telling s t (inr (inl e)) (inl f) same = absurd (differ t s f e (sym same))
telling s t (inr (inl e)) (inr (inl f)) same = e ∙ sym f
telling s t (inr (inl e)) (inr (inr n)) same = absurd n
telling s t (inr (inr n)) m same = absurd n

load-load_all_example :
    (load_compiled_display_config libs (load_all libs none (none ∷ [])) file).1
    ≡ compile (parse_display_config libs file)
load-load_all_example = load-load_all libs (none ∷ []) file telling
