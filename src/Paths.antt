-- ===== src/Paths.antt =====
-- paths.py: containment of absolute paths, and the fixed root aliases of macOS.
pub mod Containment
pub mod Aliases
use steward_public.Base.{
  Bool, true, false, ◌||◌, Option, none, some, List, [], ◌∷◌, ◌++◌, ◌==◌, nat_eq, list_eq,
  if◌then◌else◌,
}
use steward_public.Base.Dict.{Dict}
use steward_public.Base.Text.{Text, text}
use steward_public.Models.Config.{FilePath}

-- `child.relative_to(parent)`: the components below, or a ValueError
unfoldable pub relative_to : FilePath → FilePath → Option FilePath
relative_to [] child = some child
relative_to (p ∷ ps) [] = none
relative_to (p ∷ ps) (c ∷ cs) = let rest = relative_to ps cs in if p == c then rest else none

abbrev is_there : Option FilePath → Bool
is_there none = false
is_there (some _) = true

unfoldable pub contains_path : FilePath → FilePath → Bool
unfolding relative_to
contains_path parent child = is_there (relative_to parent child)

unfoldable pub overlaps : FilePath → FilePath → Bool
unfolding contains_path
overlaps first second = contains_path first second || contains_path second first

-- `_MACOS_SYSTEM_PATH_ALIASES`
unfoldable pub system_aliases : Dict FilePath FilePath
system_aliases =
    (text "tmp" ∷ [], text "private" ∷ text "tmp" ∷ [])
    ∷ (text "var" ∷ [], text "private" ∷ text "var" ∷ [])
    ∷ (text "etc" ∷ [], text "private" ∷ text "etc" ∷ [])
    ∷ []

-- the loop over the aliases
resolve_alias : Dict FilePath FilePath → FilePath → FilePath
resolve_alias [] candidate = candidate
resolve_alias ((alias, target) ∷ rest) candidate = elim (relative_to alias candidate) [
  | none ↦ resolve_alias rest candidate
  | some relative ↦ target ++ relative
]

-- `platform` is `platform_name or sys.platform`
unfoldable pub canonicalize_host_absolute_path : Text → FilePath → FilePath
unfolding resolve_alias system_aliases relative_to nat_eq list_eq
canonicalize_host_absolute_path platform candidate =
    if platform == text "darwin" then resolve_alias system_aliases candidate else candidate
