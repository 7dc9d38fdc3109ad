-- ===== src/Session/Splitting.antt =====
-- Splitting a path at its slashes, and joining the parts.
use steward_public.Base.{
  ℕ, ◌≡◌, refl, ap, ◌∙◌, false, List, [], ◌∷◌, ◌++◌, ◌==◌, nat_eq, list_eq, if_rule, contains, All,
  All-filter, arith,
}
use steward_public.Base.Text.{Text}
use steward_public.Models.Config.{FilePath}
use steward_public.Paths.{system_aliases}
use steward_public.Paths.Aliases.{canonicalize-All}
use steward_public.Scan.Host.{as_posix}
use steward_public.Session.PathInput.{split_path, onto_first, absolute_parts, canonical}

-- A component has no slash in it.
abbrev pub IsComponent : Text → Type 0
IsComponent part = contains part b'/' ≡ false

onto_first-All :
    (c : ℕ) (parts : List Text)
    → (c == b'/') ≡ false
    → All IsComponent parts
    → All IsComponent (onto_first c parts)
onto_first-All c [] h parts = (ground arith, tt)
onto_first-All c (part ∷ rest) h parts = (ground arith, parts.1)

pub split_path-All : (s : Text) → All IsComponent (split_path s)
unfolding split_path
split_path-All [] = (refl, tt)
split_path-All (c ∷ s) =
    if_rule (All IsComponent) (c == b'/') ([] ∷ split_path s) (onto_first c (split_path s))
      (λ _. (refl, split_path-All s)) (λ e. onto_first-All c (split_path s) e (split_path-All s))

split_path-one : (part : Text) → IsComponent part → split_path part ≡ part ∷ []
unfolding split_path
split_path-one [] h = refl
split_path-one (c ∷ part) h = ground (arith, split_path-one part)

split_path-append :
    (part s : Text) → IsComponent part → split_path (part ++ b'/' ∷ s) ≡ part ∷ split_path s
unfolding split_path
split_path-append [] s h = ground arith
split_path-append (c ∷ part) s h = ground (arith, split_path-append part s)

-- Joined components are split again.
pub split-as_posix :
    (part : Text) (rest : FilePath)
    → All IsComponent (part ∷ rest)
    → split_path (as_posix (part ∷ rest)) ≡ part ∷ rest
unfolding as_posix
split-as_posix part [] h = split_path-one part h.0
split-as_posix part (next ∷ rest) h =
    split_path-append part (as_posix (next ∷ rest)) h.0
    ∙ ap (◌∷◌ part) (split-as_posix next rest h.1)

-- The components of a canonical path.
pub canonical-All : (platform path : Text) → All IsComponent (canonical platform path)
unfolding canonical absolute_parts system_aliases nat_eq
canonical-All platform path =
    canonicalize-All IsComponent aliased platform (absolute_parts path)
      (All-filter IsComponent _ (split_path path) (split_path-All path))
  where
    aliased : All (λ (a : FilePath × FilePath). All IsComponent a.1) system_aliases
    aliased = ((refl, (refl, tt)), ((refl, (refl, tt)), ((refl, (refl, tt)), tt)))
