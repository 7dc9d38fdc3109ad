-- ===== src/Duplicates.antt =====
-- duplicate_analysis.py: compute_snapshot_duplicate_analysis.
pub mod Payload
pub mod Conflicts
pub mod Grouping
pub mod Coverage
pub mod Membership
use steward_public.Base.{
  ℕ, zero, suc, ◌+◌, ◌-◌, Bool, true, false, not, ◌&&◌, ◌||◌, Option, none, some, List, [], ◌∷◌,
  ◌++◌, map, ◌==◌, ◌!=◌, nat_eq, list_eq, option_eq, pair_eq, if◌then◌else◌, filter, any, contains,
  count_if, length, sum_map, Result, ok, err, ◌>>=◌, ◌>>◌,
}
use steward_public.Base.Dict
use steward_public.Base.Dict.{Dict}
use steward_public.Base.Group.{group_by, distinct, tally}
use steward_public.Base.Int.{ℤ, pos, int_eq, int_order, ◌+ℤ◌, sum_ℤ}
use steward_public.Base.Order.{nat_order, list_order, pair_order}
use steward_public.Base.Sort.{sort_on}
use steward_public.Base.Text.{Text, text}
use steward_public.Models.Status.{regular_file, object_type_eq}
use steward_public.Models.Entry.{FilesystemEntry, FilesystemSnapshot}
use steward_public.Models.Relation.{SnapshotEntryReference}
use steward_public.Models.Duplicate.{
  DuplicateStorageKnowledgeStatus, PayloadUnknownReasonCount, HardLinkAliasSet,
  PayloadEqualityGroup, CoverageSummary, PhysicalStorageSummary, IntegrityConflict,
  DuplicateAnalysisResult, reference_eq,
}
use steward_public.Diff.{Location, location_key}
use steward_public.Relations.Items.{ReferenceKey, reference_sort_key}
use steward_public.Relations.Payload.{ObjectHint, object_hint, is_some}
use steward_public.Duplicates.Payload.{
  PayloadKey, payload_key, observed_regular, unknown_reason, payload_status, allocation_of,
}
use steward_public.Duplicates.Conflicts.{
  Document, analysis_document, Groups, present, hints_in_order, alias_sets, object_conflicts,
  conflicted_hints, by_digest, size_conflicts, conflict_entries,
}
use steward_public.Duplicates.Grouping.{alias_dict, groupable_key, equality_groups}

pub data DuplicateAnalysisError : Type 0 where
  entry_of_other_snapshot duplicate_location : DuplicateAnalysisError

-- the loop of `_entry_maps`
entry_maps : Text → List Location → List FilesystemEntry → Result DuplicateAnalysisError (Unit {0})
entry_maps snapshot_id references [] = ok tt
entry_maps snapshot_id references (entry ∷ rest) =
    let next = entry_maps snapshot_id (location_key entry ∷ references) rest in
    if entry.snapshot_id != snapshot_id
    then err entry_of_other_snapshot
    else if contains references (location_key entry)
    then err duplicate_location
    else next

abbrev pub is_regular : FilesystemEntry → Bool
is_regular entry = entry.object_type == regular_file

abbrev pub is_analyzable : Bool → FilesystemEntry → Bool
is_analyzable reused entry = is_some (payload_key reused entry)

-- `entry.size_bytes or 0`
abbrev pub size_or_zero : FilesystemEntry → ℤ
size_or_zero entry = elim entry.size_bytes [ none ↦ pos 0 | some size ↦ size ]

abbrev counts_of : Dict Text ℕ → List PayloadUnknownReasonCount
counts_of [] = []
counts_of ((code, count) ∷ rest) = record { code = code; count = count } ∷ counts_of rest

-- `sorted(counter.items())`: no code stands twice.
unfoldable pub code_counts : List Text → List PayloadUnknownReasonCount
code_counts codes = counts_of (sort_on (λ (p : Text × ℕ). p.0) (tally codes))

-- the allocation of one object, as the physical summary counts it
abbrev only_allocation : List FilesystemEntry → List ℤ → Option ℤ
only_allocation members (value ∷ []) = if 1 == length members then some value else none
only_allocation members _ = none

unfoldable pub unit_allocations : List ObjectHint → Groups → List (Option ℤ)
unit_allocations conflicted [] = []
unit_allocations conflicted ((hint, members) ∷ rest) =
    let later = unit_allocations conflicted rest in
    (if contains conflicted hint
      then none
      else only_allocation members (distinct (present (map allocation_of members))))
    ∷ later

abbrev pub repeat_none : ℕ → List (Option ℤ)
repeat_none zero = []
repeat_none (suc n) = none ∷ repeat_none n

abbrev pub is_none : Option ℤ → Bool
is_none none = true
is_none (some _) = false

unfoldable pub physical_summary : List (Option ℤ) → PhysicalStorageSummary
physical_summary allocations = record {
  allocated_size_bytes_known_sum = sum_ℤ (λ n. n) (present allocations);
  allocated_size_known_unit_count = count_if is_some allocations;
  allocated_size_unknown_unit_count = count_if is_none allocations;
  allocation_status = DuplicateStorageKnowledgeStatus.unknown;
  physical_block_sharing_status = DuplicateStorageKnowledgeStatus.unknown;
  reclaimable_status = DuplicateStorageKnowledgeStatus.unknown;
}

abbrev pub lacks_hint : FilesystemEntry → Bool
lacks_hint entry = not (is_some (object_hint entry))

unfoldable pub coverage_of :
    Bool → List FilesystemEntry → List HardLinkAliasSet → Groups → ℕ → CoverageSummary
coverage_of reused entries aliases units unknown_memberships =
    let regular = filter is_regular entries in
    let analyzable = filter (is_analyzable reused) regular in
    let unknown = filter (λ e. not (is_analyzable reused e)) regular in
    record {
      total_entry_count = length entries;
      total_regular_entry_count = length regular;
      payload_analyzable_regular_entry_count = length analyzable;
      payload_unknown_regular_entry_count = length regular - length analyzable;
      analyzable_logical_bytes = sum_ℤ size_or_zero analyzable;
      unknown_logical_bytes = sum_ℤ size_or_zero unknown;
      payload_status_counts = code_counts (map payload_status regular);
      payload_unknown_reason_counts = code_counts (map (unknown_reason reused) unknown);
      alias_path_count = sum_map (λ (a : HardLinkAliasSet). length a.member_entries) aliases;
      known_storage_unit_count = length units;
      unknown_storage_unit_membership_count = unknown_memberships;
    }

abbrev pub GroupKey : Type 0
GroupKey = Text × (ℤ × (Text × (ℤ × List ReferenceKey)))

unfoldable pub group_sort_key : PayloadEqualityGroup → GroupKey
group_sort_key g = (
  g.algorithm,
  (
    g.algorithm_version,
    (g.digest, (g.logical_size_bytes, map reference_sort_key g.member_entries)),
  ),
)

unfoldable pub alias_sort_key : HardLinkAliasSet → ℤ × (ℤ × List ReferenceKey)
alias_sort_key a = (a.device_id, (a.inode, map reference_sort_key a.member_entries))

unfoldable pub conflict_sort_key : IntegrityConflict → Text × List ReferenceKey
conflict_sort_key c = (c.code, map reference_sort_key c.entries)

unfoldable pub analysis_algorithm : Text
analysis_algorithm = text "exact_payload_duplicate_storage"

-- the loop over the digests
unfoldable pub payload_size_conflicts : Bool → List FilesystemEntry → List IntegrityConflict
payload_size_conflicts reused analyzable =
    size_conflicts reused (sort_on (λ g. g.0) (by_digest reused analyzable))

abbrev pub analyzable_entries : Bool → List FilesystemEntry → List FilesystemEntry
analyzable_entries reused entries = filter (is_analyzable reused) (filter is_regular entries)

module _ (hash : Document → Text) where
  -- `_analysis_result`
  unfoldable pub analysis_result :
      Text
      → List PayloadEqualityGroup
      → List HardLinkAliasSet
      → CoverageSummary
      → PhysicalStorageSummary
      → List IntegrityConflict
      → DuplicateAnalysisResult
  analysis_result snapshot_id groups aliases coverage physical conflicts =
      let ordered_groups = sort_on group_sort_key groups in
      let ordered_aliases = sort_on alias_sort_key aliases in
      let ordered_conflicts = sort_on conflict_sort_key conflicts in
      record {
        analysis_schema_version = 1;
        algorithm = analysis_algorithm;
        algorithm_version = 1;
        snapshot_id = snapshot_id;
        payload_equality_groups = ordered_groups;
        hard_link_alias_sets = ordered_aliases;
        coverage = coverage;
        physical_storage = physical;
        integrity_conflicts = ordered_conflicts;
        analysis_digest = hash (
            analysis_document snapshot_id ordered_groups ordered_aliases coverage physical
              ordered_conflicts);
      }

  -- the analysis of entries whose locations are distinct: the payload key of a reference is then
  -- that of its entry
  unfoldable pub analyse : Bool → Text → List FilesystemEntry → DuplicateAnalysisResult
  analyse reused snapshot_id entries =
      let regular = filter is_regular entries in
      let observed =
        filter (λ (e : FilesystemEntry). observed_regular e && not e.excluded) regular in
      let analyzable = analyzable_entries reused entries in
      let by_hint = group_by object_hint observed in
      let aliases = alias_sets hash by_hint in
      let in_order = hints_in_order by_hint in
      let conflicted = conflicted_hints reused in_order in
      let sizes = payload_size_conflicts reused analyzable in
      let by_payload = group_by (groupable_key reused (conflict_entries sizes)) analyzable in
      let unknown_memberships = count_if lacks_hint observed in
      analysis_result snapshot_id (equality_groups hash (alias_dict aliases) conflicted by_payload)
        aliases (coverage_of reused entries aliases by_hint unknown_memberships)
        (physical_summary (unit_allocations conflicted by_hint ++ repeat_none unknown_memberships))
        (object_conflicts reused in_order ++ sizes)

  unfoldable pub compute_snapshot_duplicate_analysis :
      Bool → FilesystemSnapshot → Result DuplicateAnalysisError DuplicateAnalysisResult
  unfolding entry_maps
  compute_snapshot_duplicate_analysis reused_payloads_verified snapshot = do
    entry_maps snapshot.snapshot_id [] snapshot.entries
    ok (analyse reused_payloads_verified snapshot.snapshot_id snapshot.entries)
