-- ===== src/Session/Promises.antt =====
-- What each selection policy promises of the Snapshot that it selects.
use steward_public.Base.{◌≡◌, refl, subst, true, false, Option, some, nat_eq, list_eq, ok, ◌⊎◌, ◌≢◌}
use steward_public.Base.Order.{nat_order, list_order}
use steward_public.Base.Text.{Text}
use steward_public.Models.Session.{
  SelectionPolicy, exact_id, task_created, only_compatible, latest_valid, previous_valid,
  TaskObjectKind, TaskObjectReference, SnapshotSummary, SnapshotSelectionRequest,
}
use steward_public.Session.{
  Verification, is_valid, SnapshotStore, ResolvedSnapshot, TaskObjectMemory, resolved, is_none,
  exact_valid_snapshot, with_scope, incompatible_scope,
}
use steward_public.Session.Recorded.{IsRecorded}
use steward_public.Session.Selecting.{
  FitsScope, IsCompatible, IsNewest, exact_valid_snapshot-detail, with_scope-FitsScope,
}

abbrev pub IsDetail : SnapshotStore → Text → ResolvedSnapshot → Type 0
IsDetail store snapshot_id r = store.detail snapshot_id ≡ some (r.verification, r.snapshot)

abbrev pub IsChoice : ResolvedSnapshot → SnapshotSummary × Verification → Type 0
IsChoice r c = (c.0 ≡ r.snapshot) × (c.1 ≡ r.verification)

-- The Snapshots before an anchor: of its scopes, where the request names none.
abbrev pub IsBefore :
    SnapshotStore → Option Text → SnapshotSummary → SnapshotSummary × Verification → Type 0
IsBefore store scope_id anchor c =
    IsCompatible store scope_id c
    × (c.0.snapshot_id ≢ anchor.snapshot_id)
    × (list_order.lt c.0.created_at anchor.created_at ≡ true)
    × ((is_none scope_id ≡ false) ⊎ (c.0.scope_ids ≡ anchor.scope_ids))

-- What a policy promises of the Snapshot that it selects.
abbrev pub Promise :
    SelectionPolicy
    → SnapshotStore
    → SnapshotSelectionRequest
    → Option TaskObjectMemory
    → ResolvedSnapshot
    → Type 0
Promise exact_id store request memory r =
    (snapshot_id : Text) × (request.exact_snapshot_id ≡ some snapshot_id)
    × IsDetail store snapshot_id r
Promise task_created store request memory r =
    (m : TaskObjectMemory) × (reference : TaskObjectReference) × (memory ≡ some m)
    × (request.task_reference ≡ some reference)
    × IsRecorded m TaskObjectKind.snapshot reference
    × IsDetail store reference.object_id r
Promise only_compatible store request memory r =
    (c : SnapshotSummary × Verification) × IsCompatible store request.scope_id c
    × ((d : SnapshotSummary × Verification) → IsCompatible store request.scope_id d → d ≡ c)
    × IsChoice r c
Promise latest_valid store request memory r =
    (c : SnapshotSummary × Verification) × IsNewest (IsCompatible store request.scope_id) c
    × IsChoice r c
Promise previous_valid store request memory r =
    (anchor_id : Text) × (anchor : ResolvedSnapshot) × (request.anchor_snapshot_id ≡ some anchor_id)
    × IsDetail store anchor_id anchor
    × (is_valid anchor.verification ≡ true)
    × FitsScope request.scope_id anchor.snapshot.scope_ids
    × (c : SnapshotSummary × Verification) × IsNewest
        (IsBefore store request.scope_id anchor.snapshot) c
    × IsChoice r c

-- What every policy promises.
abbrev pub IsFit : SelectionPolicy → SnapshotSelectionRequest → ResolvedSnapshot → Type 0
IsFit policy request r =
    (is_valid r.verification ≡ true)
    × FitsScope request.scope_id r.snapshot.scope_ids
    × (r.policy ≡ policy)
    × (r.compatible_scope_id ≡ request.scope_id)

module _ (store : SnapshotStore) (request : SnapshotSelectionRequest) where
  pub scoped-IsFit :
      (policy : SelectionPolicy) (snapshot_id : Text) (found r : ResolvedSnapshot)
      → exact_valid_snapshot store snapshot_id ≡ ok found
      → with_scope policy request.scope_id incompatible_scope found ≡ ok r
      → IsFit policy request r × IsDetail store snapshot_id r
  scoped-IsFit policy snapshot_id found r h k =
      let (detail, valid) = exact_valid_snapshot-detail store snapshot_id found h in
      let (fits, same) =
        with_scope-FitsScope policy request.scope_id incompatible_scope found r k in
      subst (λ (q : ResolvedSnapshot). IsFit policy request q × IsDetail store snapshot_id q) same
        ((valid, fits, refl, refl), detail)

  pub chosen-IsFit :
      (policy : SelectionPolicy) (c : SnapshotSummary × Verification) (r : ResolvedSnapshot)
      → IsCompatible store request.scope_id c
      → resolved policy request.scope_id c ≡ r
      → IsFit policy request r × IsChoice r c
  chosen-IsFit policy c r compatible same =
      subst (λ (q : ResolvedSnapshot). IsFit policy request q × IsChoice q c) same
        ((compatible.1, compatible.2, refl, refl), (refl, refl))
