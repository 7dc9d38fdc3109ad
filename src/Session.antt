-- ===== src/Session.antt =====
-- agent_session/service.py: how a session selects a Snapshot or a Scope, and the references that a
-- task has recorded. The verified Snapshot repository is the parameter `store`.
pub mod Selecting
pub mod Recorded
pub mod Promises
pub mod Policies
pub mod PathInput
pub mod Splitting
pub mod Mapping
pub mod Admission
pub mod Memory
pub mod Remembering
pub mod Lasting
use steward_public.Base.{
  ℕ, zero, suc, Eq, Bool, true, false, not, ◌&&◌, ◌||◌, Option, none, some, List, [], ◌∷◌, ◌==◌,
  ◌!=◌, nat_eq, list_eq, option_eq, if◌then◌else◌, length, take, filter, contains, Result, ok, err,
  ◌>>=◌, ◌>>◌, raise_if, ltb, leb,
}
use steward_public.Base.Dict
use steward_public.Base.Dict.{Dict}
use steward_public.Base.Order.{Order, nat_order, list_order}
use steward_public.Base.Text.{Text, text}
use steward_public.Models.Status.{managed_root, reference_root, scope_role_eq}
use steward_public.Models.Config.{ScopeConfig}
use steward_public.Models.Session.{
  SelectionPolicy, exact_id, task_created, only_compatible, latest_valid, previous_valid,
  TaskObjectKind, task_object_kind_eq, StewardSession, TaskObjectReference, SnapshotSummary,
  SnapshotSelectionRequest, ScopeSelectionRequest, ResolvedScope,
}

pub data SessionError : Type 0 where
  identity_invalid snapshot_missing snapshot_not_valid resource_exceeded : SessionError
  none_compatible ambiguous newest_tied exact_arguments task_arguments : SessionError
  identity_not_accepted anchor_arguments incompatible_scope policy_unsupported : SessionError
  scope_missing reference_wrong_type other_domain not_recorded : SessionError
  reference_incomplete reference_identity_invalid entry_snapshot_not_valid entry_missing :
      SessionError
  path_invalid scope_not_path_safe path_excluded path_unsafe path_crosses_mount : SessionError
  path_unavailable path_outside path_ambiguous path_is_scope_root : SessionError
  task_identity_invalid scope_path_invalid scope_root_missing scope_root_ambiguous : SessionError

-- the part of a SnapshotVerificationResult that is read
pub record Verification : Type 0 where
  pub status : Text

abbrev pub is_valid : Verification → Bool
is_valid v = v.status == text "VALID"

-- A scope and a path of an entry.
abbrev pub EntryKey : Type 0
EntryKey = Text × Text

-- The verified repository: one Snapshot (`none`: SnapshotNotFoundError), all of them in the order of
-- the inventory, and the first entry of a scope at or below a path.
pub record SnapshotStore : Type 0 where
  pub detail : Text → Option (Verification × SnapshotSummary)
  pub inventory : List (SnapshotSummary × Verification)
  pub first_entry : Text → Text → Text → Option (Verification × (SnapshotSummary × Option EntryKey))

pub record ResolvedSnapshot : Type 0 where
  pub policy : SelectionPolicy
  pub snapshot : SnapshotSummary
  pub verification : Verification
  pub compatible_scope_id : Option Text

abbrev pub Candidates : Type 0
Candidates = List (SnapshotSummary × Verification)

abbrev pub max_resolution_candidates : ℕ
max_resolution_candidates = 10000

is_hex : ℕ → Bool
is_hex c = leb b'0' c && leb c b'9' || leb b'a' c && leb c b'f'

uuid_from : ℕ → Text → Bool
unfolding is_hex
uuid_from position [] = position == 36
uuid_from position (c ∷ s) =
    (if contains (8 ∷ 13 ∷ 18 ∷ 23 ∷ []) position then c == b'-' else is_hex c)
    && uuid_from (suc position) s

-- `str(UUID(value)) == value`: the canonical spelling
unfoldable pub is_uuid : Text → Bool
unfolding uuid_from nat_eq
is_uuid value = uuid_from 0 value

-- `scope_id is None or scope_id in scope_ids`
unfoldable pub fits_scope : Option Text → List Text → Bool
fits_scope none scope_ids = true
fits_scope (some scope_id) scope_ids = contains scope_ids scope_id

abbrev pub is_none {ℓ} : {A : Type ℓ} → Option A → Bool
is_none none = true
is_none (some _) = false

-- What a task remembers: its session's domain, its digest, and the references by their identity.
pub record TaskObjectMemory : Type 0 where
  pub authority_domain_digest : Text
  pub task_digest : Text
  pub references : Dict Text TaskObjectReference

task_object_reference_dec : Discrete TaskObjectReference
task_object_reference_dec =
    hlevel ((list_eq {A = ℕ}).dec, (option_eq {A = Text}).dec, task_object_kind_eq.dec)

instance unfoldable pub task_object_reference_eq : Eq TaskObjectReference
unfolding task_object_reference_dec
task_object_reference_eq = record { dec = task_object_reference_dec }

same_reference :
    TaskObjectReference → Option TaskObjectReference → Result SessionError TaskObjectReference
same_reference reference none = err not_recorded
same_reference reference (some recorded) =
    if recorded != reference then err not_recorded else ok recorded

-- `TaskObjectMemory.require`
unfoldable pub require :
    TaskObjectMemory
    → TaskObjectReference
    → TaskObjectKind
    → Result SessionError TaskObjectReference
unfolding same_reference
require memory reference kind = do
  raise_if (reference.kind != kind) reference_wrong_type
  raise_if (reference.authority_domain_digest != memory.authority_domain_digest) other_domain
  same_reference reference (Dict.lookup reference.reference_id memory.references)

-- `TaskObjectMemory.reference`
unfoldable pub reference :
    TaskObjectMemory → Text → TaskObjectKind → Result SessionError TaskObjectReference
reference memory [] kind = err reference_identity_invalid
reference memory (c ∷ reference_id) kind = elim (Dict.lookup (c ∷ reference_id) memory.references) [
  | none ↦ err not_recorded
  | some recorded ↦ require memory recorded kind
]

module _ (store : SnapshotStore) where
  exact_detail : Option (Verification × SnapshotSummary) → Result SessionError ResolvedSnapshot
  exact_detail none = err snapshot_missing
  exact_detail (some (verification, snapshot)) =
      if is_valid verification
      then ok (record {
        policy = exact_id;
        snapshot = snapshot;
        verification = verification;
        compatible_scope_id = none;
      })
      else err snapshot_not_valid

  -- `_exact_valid_snapshot`
  unfoldable pub exact_valid_snapshot : Text → Result SessionError ResolvedSnapshot
  unfolding exact_detail
  exact_valid_snapshot snapshot_id = do
    raise_if (not (is_uuid snapshot_id)) identity_invalid
    exact_detail (store.detail snapshot_id)

  abbrev pub is_candidate : Option Text → SnapshotSummary × Verification → Bool
  is_candidate scope_id (summary, verification) =
      is_valid verification && fits_scope scope_id summary.scope_ids

  -- `_valid_candidates`
  unfoldable pub valid_candidates : Option Text → Result SessionError Candidates
  valid_candidates scope_id = do
    let rows = take (suc max_resolution_candidates) store.inventory
    raise_if (ltb max_resolution_candidates (length rows)) resource_exceeded
    ok (filter (is_candidate scope_id) rows)

-- the result of a selection among candidates
abbrev pub resolved :
    SelectionPolicy → Option Text → SnapshotSummary × Verification → ResolvedSnapshot
resolved policy scope_id (summary, verification) = record {
  policy = policy;
  snapshot = summary;
  verification = verification;
  compatible_scope_id = scope_id;
}

-- `_single_candidate`
unfoldable pub single_candidate :
    SelectionPolicy → Option Text → Candidates → Result SessionError ResolvedSnapshot
single_candidate policy scope_id [] = err none_compatible
single_candidate policy scope_id (c ∷ []) = ok (resolved policy scope_id c)
single_candidate policy scope_id (c ∷ d ∷ rest) = err ambiguous

-- `max` of the times, from a first one
unfoldable pub newest_time : Text → Candidates → Text
newest_time time [] = time
newest_time time ((summary, _) ∷ rest) =
    newest_time (if list_order.lt time summary.created_at then summary.created_at else time) rest

abbrev pub is_created_at : Text → SnapshotSummary × Verification → Bool
is_created_at time (summary, _) = summary.created_at == time

sole_newest : SelectionPolicy → Option Text → Candidates → Result SessionError ResolvedSnapshot
sole_newest policy scope_id (c ∷ []) = ok (resolved policy scope_id c)
sole_newest policy scope_id other = err newest_tied

-- `_newest_candidate`
unfoldable pub newest_candidate :
    SelectionPolicy → Option Text → Candidates → Result SessionError ResolvedSnapshot
unfolding sole_newest
newest_candidate policy scope_id [] = err none_compatible
newest_candidate policy scope_id ((summary, v) ∷ rest) =
    sole_newest policy scope_id
      (filter (is_created_at (newest_time summary.created_at rest)) ((summary, v) ∷ rest))

-- the check of the requested scope after one Snapshot was found
unfoldable pub with_scope :
    SelectionPolicy
    → Option Text
    → SessionError
    → ResolvedSnapshot
    → Result SessionError ResolvedSnapshot
with_scope policy scope_id error found =
    if fits_scope scope_id found.snapshot.scope_ids
    then ok (record found { policy = policy; compatible_scope_id = scope_id })
    else err error

-- the candidates of PREVIOUS_VALID
abbrev pub is_previous : SnapshotSummary → Option Text → SnapshotSummary × Verification → Bool
is_previous anchor scope_id (summary, _) =
    (summary.snapshot_id != anchor.snapshot_id
      && list_order.lt summary.created_at anchor.created_at)
    && (not (is_none scope_id) || summary.scope_ids == anchor.scope_ids)

module _ (store : SnapshotStore) where
  resolve_exact : SnapshotSelectionRequest → Option Text → Result SessionError ResolvedSnapshot
  resolve_exact request none = err exact_arguments
  resolve_exact request (some snapshot_id) = do
    raise_if (not (is_none request.task_reference) || not (is_none request.anchor_snapshot_id))
        exact_arguments
    found ← exact_valid_snapshot store snapshot_id
    with_scope exact_id request.scope_id incompatible_scope found

  resolve_task :
      SnapshotSelectionRequest
      → Option TaskObjectMemory
      → Option TaskObjectReference
      → Result SessionError ResolvedSnapshot
  resolve_task request (some memory) (some reference) = do
    raise_if (not (is_none request.exact_snapshot_id) || not (is_none request.anchor_snapshot_id))
        task_arguments
    recorded ← require memory reference TaskObjectKind.snapshot
    found ← exact_valid_snapshot store recorded.object_id
    with_scope task_created request.scope_id incompatible_scope found
  resolve_task request none reference = err task_arguments
  resolve_task request (some memory) none = err task_arguments

  names_no_object : SnapshotSelectionRequest → Bool
  names_no_object request =
      (is_none request.exact_snapshot_id && is_none request.task_reference)
      && is_none request.anchor_snapshot_id

  resolve_only : SnapshotSelectionRequest → Result SessionError ResolvedSnapshot
  unfolding names_no_object
  resolve_only request = do
    raise_if (not (names_no_object request)) identity_not_accepted
    candidates ← valid_candidates store request.scope_id
    single_candidate only_compatible request.scope_id candidates

  resolve_latest : SnapshotSelectionRequest → Result SessionError ResolvedSnapshot
  unfolding names_no_object
  resolve_latest request = do
    raise_if (not (names_no_object request)) identity_not_accepted
    candidates ← valid_candidates store request.scope_id
    newest_candidate latest_valid request.scope_id candidates

  resolve_previous : SnapshotSelectionRequest → Option Text → Result SessionError ResolvedSnapshot
  resolve_previous request none = err anchor_arguments
  resolve_previous request (some anchor_id) = do
    raise_if (not (is_none request.exact_snapshot_id) || not (is_none request.task_reference))
        anchor_arguments
    anchor ← exact_valid_snapshot store anchor_id
    raise_if (not (fits_scope request.scope_id anchor.snapshot.scope_ids)) incompatible_scope
    candidates ← valid_candidates store request.scope_id
    newest_candidate previous_valid request.scope_id
        (filter (is_previous anchor.snapshot request.scope_id) candidates)

  by_policy :
      SelectionPolicy
      → SnapshotSelectionRequest
      → Option TaskObjectMemory
      → Result SessionError ResolvedSnapshot
  unfolding resolve_exact resolve_task resolve_only resolve_latest resolve_previous
  by_policy exact_id request memory = resolve_exact request request.exact_snapshot_id
  by_policy task_created request memory = resolve_task request memory request.task_reference
  by_policy only_compatible request memory = resolve_only request
  by_policy latest_valid request memory = resolve_latest request
  by_policy previous_valid request memory = resolve_previous request request.anchor_snapshot_id

  unfoldable pub resolve_snapshot :
      SnapshotSelectionRequest → Option TaskObjectMemory → Result SessionError ResolvedSnapshot
  unfolding by_policy
  resolve_snapshot request memory = by_policy request.policy request memory

abbrev pub is_actionable_scope : ScopeConfig → Bool
is_actionable_scope scope =
    scope.enabled && contains (managed_root ∷ reference_root ∷ []) scope.role

-- `_actionable_scopes`
unfoldable pub actionable_scopes : StewardSession → List ScopeConfig
actionable_scopes session = filter is_actionable_scope session.config.scopes

first_scope : List ScopeConfig → Result SessionError ScopeConfig
first_scope [] = err scope_missing
first_scope (scope ∷ rest) = ok scope

-- `_scope_by_id`
unfoldable pub scope_by_id : StewardSession → Text → Result SessionError ScopeConfig
unfolding first_scope
scope_by_id session scope_id =
    first_scope (filter (λ (s : ScopeConfig). s.scope_id == scope_id) (actionable_scopes session))

abbrev resolved_scope : SelectionPolicy → ScopeConfig → ResolvedScope
resolved_scope policy scope = record { policy = policy; scope = scope }

scope_exact :
    StewardSession → ScopeSelectionRequest → Option Text → Result SessionError ResolvedScope
scope_exact session request none = err exact_arguments
scope_exact session request (some scope_id) = do
  raise_if (not (is_none request.task_reference)) exact_arguments
  scope ← scope_by_id session scope_id
  ok (resolved_scope request.policy scope)

scope_task :
    StewardSession
    → ScopeSelectionRequest
    → Option TaskObjectMemory
    → Option TaskObjectReference
    → Result SessionError ResolvedScope
scope_task session request (some memory) (some reference) = do
  raise_if (not (is_none request.exact_scope_id)) task_arguments
  recorded ← require memory reference TaskObjectKind.scope
  scope ← scope_by_id session recorded.object_id
  ok (resolved_scope request.policy scope)
scope_task session request none reference = err task_arguments
scope_task session request (some memory) none = err task_arguments

only_scope : SelectionPolicy → List ScopeConfig → Result SessionError ResolvedScope
only_scope policy [] = err none_compatible
only_scope policy (scope ∷ []) = ok (resolved_scope policy scope)
only_scope policy (scope ∷ other ∷ rest) = err ambiguous

scope_only : StewardSession → ScopeSelectionRequest → Result SessionError ResolvedScope
unfolding only_scope
scope_only session request = do
  raise_if (not (is_none request.exact_scope_id) || not (is_none request.task_reference))
      identity_not_accepted
  only_scope request.policy (actionable_scopes session)

scope_by_policy :
    SelectionPolicy
    → StewardSession
    → ScopeSelectionRequest
    → Option TaskObjectMemory
    → Result SessionError ResolvedScope
unfolding scope_exact scope_task scope_only
scope_by_policy exact_id session request memory = scope_exact session request request.exact_scope_id
scope_by_policy task_created session request memory =
    scope_task session request memory request.task_reference
scope_by_policy only_compatible session request memory = scope_only session request
scope_by_policy latest_valid session request memory = err policy_unsupported
scope_by_policy previous_valid session request memory = err policy_unsupported

unfoldable pub resolve_scope :
    StewardSession
    → ScopeSelectionRequest
    → Option TaskObjectMemory
    → Result SessionError ResolvedScope
unfolding scope_by_policy
resolve_scope session request memory = scope_by_policy request.policy session request memory
