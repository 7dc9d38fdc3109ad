-- ===== src/Paths/Aliases.antt =====
-- What holds of the components of a path holds of those of its canonical form.
use steward_public.Base.{
  ◌≡◌, subst, some-injective, inl, inr, some, [], ◌∷◌, ◌==◌, nat_eq, list_eq, if_rule, All,
  All-append, arith, Option-cases,
}
use steward_public.Base.Dict.{Dict}
use steward_public.Base.Text.{Text, text}
use steward_public.Models.Config.{FilePath}
use steward_public.Paths.{
  relative_to, resolve_alias, system_aliases, canonicalize_host_absolute_path,
}

module _ (P : Text → Type 0) where
  pub relative_to-All :
      (parent child rest : FilePath)
      → relative_to parent child ≡ some rest
      → All P child
      → All P rest
  unfolding relative_to
  relative_to-All [] child rest h all = subst (All P) (some-injective child rest h) all
  relative_to-All (p ∷ ps) [] rest h all = cc
  relative_to-All (p ∷ ps) (c ∷ cs) rest h all = relative_to-All ps cs rest (ground arith) all.1

  resolve_alias-All :
      (aliases : Dict FilePath FilePath) (candidate : FilePath)
      → All (λ (a : FilePath × FilePath). All P a.1) aliases
      → All P candidate
      → All P (resolve_alias aliases candidate)
  unfolding resolve_alias
  resolve_alias-All [] candidate targets all = all
  resolve_alias-All ((alias, target) ∷ rest) candidate targets all =
      elim (Option-cases (relative_to alias candidate)) [
        | inl e ↦ rw (e, resolve_alias) (resolve_alias-All rest candidate targets.1 all)
        | inr (relative, e) ↦
            rw (e, resolve_alias)
              (All-append P target relative targets.0
                (relative_to-All alias candidate relative e all))
      ]

  pub canonicalize-All :
      All (λ (a : FilePath × FilePath). All P a.1) system_aliases
      → (platform : Text) (candidate : FilePath) → All P candidate
      → All P (canonicalize_host_absolute_path platform candidate)
  unfolding canonicalize_host_absolute_path
  canonicalize-All targets platform candidate all =
      if_rule (All P) (platform == text "darwin") (resolve_alias system_aliases candidate) candidate
        (λ _. resolve_alias-All system_aliases candidate targets all) (λ _. all)
