-- ===== src/Authority/Grants.antt =====
-- Which requests one admission of an authority context grants.
use steward_public.Base.{
  ◌≡◌, refl, ◌⊎◌, inl, inr, Eq, true, false, Option, none, some, List, [], ◌∷◌, nat_eq, list_eq,
  length, contains, All, arith, ◌<◌,
}
use steward_public.Base.Among.{Among, contains_iff}
use steward_public.Base.Text.{Text}
use steward_public.Models.Authority.{risk_class_eq, authority_path_eq, AuthorityAdmission}
use steward_public.Authority.{
  AuthorityRequest, is_missing, is_subset, snapshots_refused, is_admitted_by,
}

-- A value, where one is given, is one of the admitted ones.
abbrev pub Admitted : {A : Type 0} → Option A → List A → Type 0
Admitted none admitted = Unit
Admitted (some value) admitted = Among value admitted

-- An admission without Snapshots admits all of them; one with Snapshots admits requests that name
-- some, all among its own.
abbrev pub AdmittedSnapshots : List Text → List Text → Type 0
AdmittedSnapshots wanted admitted =
    (admitted ≡ []) ⊎ ((0 < length wanted) × All (λ snapshot_id. Among snapshot_id admitted) wanted)

abbrev pub Grants : AuthorityRequest → AuthorityAdmission → Type 0
Grants r a =
    (a.risk_class ≡ r.risk_class)
    × Among r.operation a.operations
    × Admitted r.scope_id a.scope_ids
    × AdmittedSnapshots r.snapshot_ids a.snapshot_ids
    × Admitted r.run_id a.run_ids
    × Admitted r.path a.paths
    × Admitted r.external_destination a.external_destinations
    × Admitted r.user_file_id a.user_file_ids

module _ {A : Type 0} ⦃e : Eq A⦄ where
  is_missing-Admitted :
      (o : Option A) (admitted : List A) → is_missing o admitted ≡ false → Admitted o admitted
  unfolding is_missing
  is_missing-Admitted none admitted h = tt
  is_missing-Admitted (some value) admitted h = (contains_iff admitted value).0 (ground arith)

  Admitted-is_missing :
      (o : Option A) (admitted : List A) → Admitted o admitted → is_missing o admitted ≡ false
  unfolding is_missing
  Admitted-is_missing none admitted h = refl
  Admitted-is_missing (some value) admitted h = rw ((contains_iff admitted value).1 h)

is_subset-All :
    (wanted admitted : List Text)
    → is_subset wanted admitted ≡ true
    → All (λ x. Among x admitted) wanted
unfolding is_subset
is_subset-All [] admitted h = tt
is_subset-All (x ∷ wanted) admitted h =
    ((contains_iff admitted x).0 (ground arith), is_subset-All wanted admitted (ground arith))

All-is_subset :
    (wanted admitted : List Text)
    → All (λ x. Among x admitted) wanted
    → is_subset wanted admitted ≡ true
unfolding is_subset
All-is_subset [] admitted h = refl
All-is_subset (x ∷ wanted) admitted h =
    rw ((contains_iff admitted x).1 h.0) (All-is_subset wanted admitted h.1)

snapshots-Admitted :
    (wanted admitted : List Text)
    → snapshots_refused wanted admitted ≡ false
    → AdmittedSnapshots wanted admitted
unfolding snapshots_refused
snapshots-Admitted wanted [] h = inl refl
snapshots-Admitted [] (x ∷ admitted) h = cc
snapshots-Admitted (w ∷ wanted) (x ∷ admitted) h =
    inr (omega arith, is_subset-All (w ∷ wanted) (x ∷ admitted) (ground arith))

Admitted-snapshots :
    (wanted admitted : List Text)
    → AdmittedSnapshots wanted admitted
    → snapshots_refused wanted admitted ≡ false
unfolding snapshots_refused
Admitted-snapshots wanted [] h = refl
Admitted-snapshots [] (x ∷ admitted) (inl e) = cc
Admitted-snapshots [] (x ∷ admitted) (inr (n, h)) = absurd (omega arith)
Admitted-snapshots (w ∷ wanted) (x ∷ admitted) (inl e) = cc
Admitted-snapshots (w ∷ wanted) (x ∷ admitted) (inr (n, h)) =
    rw (All-is_subset (w ∷ wanted) (x ∷ admitted) h)

-- The tests of the loop's body, apart.
abbrev Passes : AuthorityRequest → AuthorityAdmission → Type 0
Passes r a =
    (a.risk_class ≡ r.risk_class)
    × (contains a.operations r.operation ≡ true)
    × (is_missing r.scope_id a.scope_ids ≡ false)
    × (snapshots_refused r.snapshot_ids a.snapshot_ids ≡ false)
    × (is_missing r.run_id a.run_ids ≡ false)
    × (is_missing r.path a.paths ≡ false)
    × (is_missing r.external_destination a.external_destinations ≡ false)
    × (is_missing r.user_file_id a.user_file_ids ≡ false)

admitted-Passes :
    (r : AuthorityRequest) (a : AuthorityAdmission) → is_admitted_by r a ≡ true → Passes r a
unfolding is_admitted_by
admitted-Passes r a h = ground arith

Passes-admitted :
    (r : AuthorityRequest) (a : AuthorityAdmission) → Passes r a → is_admitted_by r a ≡ true
unfolding is_admitted_by
Passes-admitted r a h = ground arith

pub admitted-Grants :
    (r : AuthorityRequest) (a : AuthorityAdmission) → is_admitted_by r a ≡ true → Grants r a
admitted-Grants r a h =
    let p = admitted-Passes r a h in
    (
      p.0,
      (contains_iff a.operations r.operation).0 p.1,
      is_missing-Admitted r.scope_id a.scope_ids p.2,
      snapshots-Admitted r.snapshot_ids a.snapshot_ids p.3,
      is_missing-Admitted r.run_id a.run_ids p.4,
      is_missing-Admitted r.path a.paths p.5,
      is_missing-Admitted r.external_destination a.external_destinations p.6,
      is_missing-Admitted r.user_file_id a.user_file_ids p.7,
    )

pub Grants-admitted :
    (r : AuthorityRequest) (a : AuthorityAdmission) → Grants r a → is_admitted_by r a ≡ true
Grants-admitted r a g = Passes-admitted r a (
  g.0,
  (contains_iff a.operations r.operation).1 g.1,
  Admitted-is_missing r.scope_id a.scope_ids g.2,
  Admitted-snapshots r.snapshot_ids a.snapshot_ids g.3,
  Admitted-is_missing r.run_id a.run_ids g.4,
  Admitted-is_missing r.path a.paths g.5,
  Admitted-is_missing r.external_destination a.external_destinations g.6,
  Admitted-is_missing r.user_file_id a.user_file_ids g.7,
)
