-- ===== src/Session/Selecting.antt =====
-- What each selection policy selects.
use steward_public.Base.{
  ℕ, suc, ◌≡◌, refl, sym, ap, subst, ◌∙◌, ◌⊎◌, inl, inr, true, false, not, Option, none, some, List,
  [], ◌∷◌, nat_eq, list_eq, if_rule, Bool-cases, length, take, filter, ok, >>=-ok, if_ok,
  ok-injective, raise_if, raise_if-ok, All, arith, ltb,
}
use steward_public.Base.Among.{Among, contains_iff, Among-filter, filter-Among, All-Among}
use steward_public.Base.Order.{Order, nat_order, list_order, not_lt_trans, lt_asymm}
use steward_public.Base.Text.{Text}
use steward_public.Models.Session.{SelectionPolicy, exact_id, SnapshotSummary}
use steward_public.Session.{
  SessionError, Verification, is_valid, SnapshotStore, ResolvedSnapshot, Candidates, exact_detail,
  exact_valid_snapshot, is_uuid, identity_invalid, snapshot_not_valid, max_resolution_candidates,
  task_object_reference_eq, is_candidate, valid_candidates, single_candidate, newest_time,
  newest_candidate, is_created_at, sole_newest, resolved, fits_scope, resource_exceeded, with_scope,
}

abbrev pub FitsScope : Option Text → List Text → Type 0
FitsScope none scope_ids = Unit
FitsScope (some scope_id) scope_ids = Among scope_id scope_ids

abbrev pub IsCompatible : SnapshotStore → Option Text → SnapshotSummary × Verification → Type 0
IsCompatible store scope_id c =
    Among c store.inventory × (is_valid c.1 ≡ true) × FitsScope scope_id c.0.scope_ids

-- The candidates that a policy chooses from, where it needs an order: one is newer than the rest.
abbrev pub IsNewest :
    (SnapshotSummary × Verification → Type 0) → SnapshotSummary × Verification → Type 0
IsNewest P c =
    P c
    × ((d : SnapshotSummary × Verification)
        → P d
        → (d ≡ c) ⊎ (list_order.lt d.0.created_at c.0.created_at ≡ true))

pub fits-FitsScope :
    (scope_id : Option Text) (scope_ids : List Text)
    → fits_scope scope_id scope_ids ≡ true
    → FitsScope scope_id scope_ids
unfolding fits_scope
fits-FitsScope none scope_ids h = tt
fits-FitsScope (some scope_id) scope_ids h = (contains_iff scope_ids scope_id).0 h

FitsScope-fits :
    (scope_id : Option Text) (scope_ids : List Text)
    → FitsScope scope_id scope_ids
    → fits_scope scope_id scope_ids ≡ true
unfolding fits_scope
FitsScope-fits none scope_ids h = refl
FitsScope-fits (some scope_id) scope_ids h = (contains_iff scope_ids scope_id).1 h

take_all :
    {A : Type 0} (n : ℕ) (xs : List A)
    → ltb n (length (take (suc n) xs)) ≡ false
    → take (suc n) xs ≡ xs
take_all n [] h = refl
take_all Prim.Native.Nat.zero (x ∷ xs) h = absurd (ground arith)
take_all (suc n) (x ∷ xs) h = ap (◌∷◌ x) (take_all n xs (ground arith))

-- The candidates are the compatible Snapshots of the inventory.
pub valid_candidates-filter :
    (store : SnapshotStore) (scope_id : Option Text) (candidates : Candidates)
    → valid_candidates store scope_id ≡ ok candidates
    → candidates ≡ filter (is_candidate store scope_id) store.inventory
unfolding valid_candidates
valid_candidates-filter store scope_id candidates h =
    let rows = take (suc max_resolution_candidates) store.inventory in
    let (_, small, h1) =
      >>=-ok (raise_if (ltb max_resolution_candidates (length rows)) resource_exceeded) _ h in
    sym (ok-injective h1)
    ∙ ap (filter (is_candidate store scope_id)) (
        take_all max_resolution_candidates store.inventory
          (raise_if-ok (ltb max_resolution_candidates (length rows)) resource_exceeded small))

pub Among-IsCompatible :
    (store : SnapshotStore) (scope_id : Option Text) (c : SnapshotSummary × Verification)
    → Among c (filter (is_candidate store scope_id) store.inventory)
    → IsCompatible store scope_id c
Among-IsCompatible store scope_id c m =
    let (there, passes) = Among-filter (is_candidate store scope_id) c store.inventory m in
    (there, ground arith, fits-FitsScope scope_id c.0.scope_ids (ground arith))

pub IsCompatible-Among :
    (store : SnapshotStore) (scope_id : Option Text) (c : SnapshotSummary × Verification)
    → IsCompatible store scope_id c
    → Among c (filter (is_candidate store scope_id) store.inventory)
IsCompatible-Among store scope_id c (there, valid, fits) =
    filter-Among (is_candidate store scope_id) c store.inventory there
      (rw (valid, FitsScope-fits scope_id c.0.scope_ids fits) refl)

-- The newest time is not below any other.
newest_time-first :
    (time : Text) (cs : Candidates) → list_order.lt (newest_time time cs) time ≡ false
unfolding newest_time
newest_time-first time [] = list_order.irrefl time
newest_time-first time ((summary, v) ∷ rest) =
    let o : Order Text = list_order in
    if_rule (λ t. o.lt (newest_time t rest) time ≡ false) (o.lt time summary.created_at)
      summary.created_at time
      (λ e.
        not_lt_trans o time summary.created_at (newest_time summary.created_at rest)
          (lt_asymm o time summary.created_at e) (newest_time-first summary.created_at rest))
      (λ _. newest_time-first time rest)

newest_time-All :
    (time : Text) (cs : Candidates)
    → All (λ c. list_order.lt (newest_time time cs) c.0.created_at ≡ false) cs
unfolding newest_time
newest_time-All time [] = tt
newest_time-All time ((summary, v) ∷ rest) =
    let o : Order Text = list_order in
    if_rule
      (λ t.
        (o.lt (newest_time t rest) summary.created_at ≡ false)
        × All (λ c. o.lt (newest_time t rest) c.0.created_at ≡ false) rest)
      (o.lt time summary.created_at) summary.created_at time
      (λ _. (newest_time-first summary.created_at rest, newest_time-All summary.created_at rest))
      (λ e. (
        not_lt_trans o summary.created_at time (newest_time time rest) e
            (newest_time-first time rest),
        newest_time-All time rest,
      ))

sole_newest-one :
    (policy : SelectionPolicy) (scope_id : Option Text) (cs : Candidates) (r : ResolvedSnapshot)
    → sole_newest policy scope_id cs ≡ ok r
    → (c : SnapshotSummary × Verification) × (cs ≡ c ∷ []) × (resolved policy scope_id c ≡ r)
unfolding sole_newest
sole_newest-one policy scope_id [] r h = cc
sole_newest-one policy scope_id (c ∷ []) r h = (c, refl, ok-injective h)
sole_newest-one policy scope_id (c ∷ d ∷ rest) r h = cc

pub sole_member : (d c : SnapshotSummary × Verification) → Among d (c ∷ []) → d ≡ c
sole_member d c (inl e) = e
sole_member d c (inr m) = elim m [ ]

-- A time that is not the newest and not above it is below it.
below :
    (d : SnapshotSummary × Verification) (newest : Text)
    → list_order.lt newest d.0.created_at ≡ false
    → is_created_at newest d ≡ false
    → list_order.lt d.0.created_at newest ≡ true
below d newest h differ = elim (Bool-cases (list_order.lt d.0.created_at newest)) [
  | inl e ↦ e
  | inr e ↦ let same = list_order.connected d.0.created_at newest e h in ground arith
]

-- What a choice of the newest of some candidates returns, for what the candidates are.
pub newest_candidate-IsNewest :
    (P : SnapshotSummary × Verification → Type 0) (policy : SelectionPolicy)
    (scope_id : Option Text) (cs : Candidates) (r : ResolvedSnapshot)
    → ((c : SnapshotSummary × Verification) → Among c cs → P c)
    → ((c : SnapshotSummary × Verification) → P c → Among c cs)
    → newest_candidate policy scope_id cs ≡ ok r
    → (c : SnapshotSummary × Verification) × IsNewest P c × (resolved policy scope_id c ≡ r)
unfolding newest_candidate
newest_candidate-IsNewest P policy scope_id [] r sound complete h = cc
newest_candidate-IsNewest P policy scope_id ((summary, v) ∷ rest) r sound complete h =
    let cs : Candidates = (summary, v) ∷ rest in
    let newest = newest_time summary.created_at rest in
    let (c, sole, same) = sole_newest-one policy scope_id (filter (is_created_at newest) cs) r h in
    let (there, at_newest) =
      Among-filter (is_created_at newest) c cs (subst (Among c) (sym sole) (inl refl)) in
    (c, (sound c there, λ d m. newer c (complete d m) sole (ground arith)), same)
  where
    cs : Candidates
    cs = (summary, v) ∷ rest

    newest : Text
    newest = newest_time summary.created_at rest

    bound :
        All (λ (d : SnapshotSummary × Verification). list_order.lt newest d.0.created_at ≡ false) cs
    bound = (newest_time-first summary.created_at rest, newest_time-All summary.created_at rest)

    newer :
        (c : SnapshotSummary × Verification) {d : SnapshotSummary × Verification}
        → Among d cs
        → filter (is_created_at newest) cs ≡ c ∷ []
        → c.0.created_at ≡ newest
        → (d ≡ c) ⊎ (list_order.lt d.0.created_at c.0.created_at ≡ true)
    newer c {d} m sole e = elim (Bool-cases (is_created_at newest d)) [
      | inl same ↦
          inl (
            sole_member d c
              (subst (Among d) sole (filter-Among (is_created_at newest) d cs m same)))
      | inr differ ↦ inr (
          subst (λ t. list_order.lt d.0.created_at t ≡ true) (sym e)
            (below d newest (All-Among _ d cs bound m) differ))
    ]

pub single_candidate-one :
    (policy : SelectionPolicy) (scope_id : Option Text) (cs : Candidates) (r : ResolvedSnapshot)
    → single_candidate policy scope_id cs ≡ ok r
    → (c : SnapshotSummary × Verification) × (cs ≡ c ∷ []) × (resolved policy scope_id c ≡ r)
unfolding single_candidate
single_candidate-one policy scope_id [] r h = cc
single_candidate-one policy scope_id (c ∷ []) r h = (c, refl, ok-injective h)
single_candidate-one policy scope_id (c ∷ d ∷ rest) r h = cc

exact_detail-found :
    (store : SnapshotStore) (detail : Option (Verification × SnapshotSummary))
    (r : ResolvedSnapshot)
    → exact_detail store detail ≡ ok r
    → (detail ≡ some (r.verification, r.snapshot)) × (is_valid r.verification ≡ true)
unfolding exact_detail
exact_detail-found store none r h = cc
exact_detail-found store (some (v, s)) r h =
    let (valid, same) =
      if_ok (is_valid v)
        (record { policy = exact_id; snapshot = s; verification = v; compatible_scope_id = none }) r
        snapshot_not_valid h in
    (
      subst
          (λ (q : ResolvedSnapshot).
            ◌≡◌ {A = Option (Verification × SnapshotSummary)} (some (v, s))
              (some (q.verification, q.snapshot)))
          same refl,
      subst (λ (q : ResolvedSnapshot). is_valid q.verification ≡ true) same valid,
    )

-- The Snapshot that the exact selection of an identity returns.
pub exact_valid_snapshot-detail :
    (store : SnapshotStore) (snapshot_id : Text) (r : ResolvedSnapshot)
    → exact_valid_snapshot store snapshot_id ≡ ok r
    → (store.detail snapshot_id ≡ some (r.verification, r.snapshot))
      × (is_valid r.verification ≡ true)
unfolding exact_valid_snapshot
exact_valid_snapshot-detail store snapshot_id r h =
    let (_, _, h1) = >>=-ok (raise_if (not (is_uuid snapshot_id)) identity_invalid) _ h in
    exact_detail-found store (store.detail snapshot_id) r h1

pub with_scope-FitsScope :
    (policy : SelectionPolicy) (scope_id : Option Text) (error : SessionError)
    (found r : ResolvedSnapshot)
    → with_scope policy scope_id error found ≡ ok r
    → FitsScope scope_id found.snapshot.scope_ids
      × (◌≡◌ {A = ResolvedSnapshot}
          (record found { policy = policy; compatible_scope_id = scope_id })
          r)
unfolding with_scope
with_scope-FitsScope policy scope_id error found r h =
    (fits-FitsScope scope_id found.snapshot.scope_ids (ground arith), ground arith)
