-- ===== src/Paths/Containment.antt =====
-- Containment is the prefix order of the components.
use steward_public.Base.{
  ◌≡◌, refl, Bool-cases, Option-cases, true, ◌↔◌, ◌⊎◌, inl, inr, some, [], ◌∷◌, ◌++◌, arith, nat_eq,
  list_eq,
}
use steward_public.Models.Config.{FilePath}
use steward_public.Paths.{relative_to, contains_path, overlaps}

-- `child` stands at `parent` or below it.
abbrev pub IsInside : FilePath → FilePath → Type 0
IsInside parent child = (rest : FilePath) × (child ≡ parent ++ rest)

pub relative_to-append : (parent rest : FilePath) → relative_to parent (parent ++ rest) ≡ some rest
unfolding relative_to
relative_to-append [] rest = refl
relative_to-append (p ∷ ps) rest = ground (arith, relative_to-append ps rest)

pub relative_to-some :
    (parent child rest : FilePath) → relative_to parent child ≡ some rest → child ≡ parent ++ rest
unfolding relative_to
relative_to-some [] child rest h = ground arith
relative_to-some (p ∷ ps) [] rest h = cc
relative_to-some (p ∷ ps) (c ∷ cs) rest h = ground (arith, relative_to-some ps cs rest)

contains_path-IsInside :
    (parent child : FilePath) → contains_path parent child ≡ true → IsInside parent child
unfolding contains_path
contains_path-IsInside parent child h = elim (Option-cases (relative_to parent child)) [
  | inl e ↦ absurd (ground (arith))
  | inr (rest, e) ↦ (rest, relative_to-some parent child rest e)
]

IsInside-contains_path :
    (parent child : FilePath) → IsInside parent child → contains_path parent child ≡ true
unfolding contains_path
IsInside-contains_path parent child (rest, e) = rw (e, relative_to-append parent rest) refl

pub contains_path_iff :
    (parent child : FilePath) → (contains_path parent child ≡ true) ↔ IsInside parent child
contains_path_iff parent child =
    (contains_path-IsInside parent child, IsInside-contains_path parent child)

pub overlaps-IsInside : (a b : FilePath) → overlaps a b ≡ true → IsInside a b ⊎ IsInside b a
unfolding overlaps
overlaps-IsInside a b h = elim (Bool-cases (contains_path a b)) [
  | inl e ↦ inl (contains_path-IsInside a b e)
  | inr e ↦ inr (contains_path-IsInside b a (ground arith))
]

IsInside-overlaps : (a b : FilePath) → IsInside a b ⊎ IsInside b a → overlaps a b ≡ true
unfolding overlaps
IsInside-overlaps a b (inl h) = ground (arith, IsInside-contains_path a b h)
IsInside-overlaps a b (inr h) = ground (arith, IsInside-contains_path b a h)

-- Two paths overlap exactly when one stands at or below the other.
pub overlaps_iff : (a b : FilePath) → (overlaps a b ≡ true) ↔ (IsInside a b ⊎ IsInside b a)
overlaps_iff a b = (overlaps-IsInside a b, IsInside-overlaps a b)
