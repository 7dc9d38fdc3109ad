-- ===== src/Tests/DuplicateExamples.antt =====
-- duplicate_analysis.py and the two query modules at concrete data.
use steward_public.Base.{
  true, false, ◌≡◌, ◌≤◌, refl, some, [], ◌∷◌, ok, list_eq, nat_eq, pair_eq, option_eq, All, filter,
  arith, length, length-filter, length-map, map, ap, bool_eq, ℕ_discrete,
}
use steward_public.Base.Dict
use steward_public.Base.Group.{group_by, distinct}
use steward_public.Base.Sort.{sort_on}
use steward_public.Base.Order.{nat_order, list_order, pair_order}
use steward_public.Base.Int.{pos, int_eq, int_order, ◌*ℤ◌}
use steward_public.Base.Text.{Text, text, encode}
use steward_public.Models.Status.{
  object_type_eq, observation_status_eq, payload_status_eq, provenance_eq,
}
use steward_public.Models.Entry.{FilesystemSnapshot}
use steward_public.Models.Relation.{rename_candidate, relation_kind_eq}
use steward_public.Models.Duplicate.{DuplicateAnalysisResult, PayloadEqualityGroup, reference_eq}
use steward_public.Duplicates.{
  compute_snapshot_duplicate_analysis, payload_size_conflicts, analyzable_entries, analyse,
  analysis_result, group_sort_key,
}
use steward_public.Duplicates.Payload.{payload_key, sha256_name}
use steward_public.Relations.Payload.{is_trusted, object_hint}
use steward_public.Relations.Items.{ordered_references, reference_sort_key}
use steward_public.Duplicates.Conflicts.{
  Document, conflict_entries, hints_in_order, alias_sets, hint_conflicts, conflicted_hints,
  by_digest, has_size_conflict, size_conflicts,
}
use steward_public.Duplicates.Grouping.{
  alias_dict, unit_sort_key, entry_reference_key, storage_units, alias_ids, group_content,
  groupable_key, equality_groups,
}
use steward_public.Duplicates.Coverage.{AddsUp, analysis-AddsUp}
use steward_public.Duplicates.Membership.{IsPayloadGroup, groups-IsPayloadGroup}
use steward_public.Queries.{passes_kind, passes_exact}
use steward_public.Queries.Pages.{
  read_relations, read_relations-filter, read_duplicates, read_duplicates-filter,
}
use steward_public.Tests.SnapshotExamples.{entry, snapshot, relations, kind_of, kinds}

abbrev hash : Document → Text
hash _ = []

abbrev copies : FilesystemSnapshot
copies =
    snapshot (text "b") (text "1") (text "2")
      (entry (text "b") (text "one") 7 3 ∷ entry (text "b") (text "two") 8 3 ∷ [])

analysis : DuplicateAnalysisResult
unfolding analyse
analysis = analyse hash false (text "b") copies.entries

analysed : compute_snapshot_duplicate_analysis hash false copies ≡ ok analysis
unfolding analysis compute_snapshot_duplicate_analysis list_eq nat_eq pair_eq
analysed = refl

analysis-AddsUp_example : AddsUp copies.entries analysis.coverage analysis.physical_storage
analysis-AddsUp_example = analysis-AddsUp hash false copies analysis analysed

groups-IsPayloadGroup_example :
    let analyzable = analyzable_entries false copies.entries in
    let conflicts = conflict_entries (payload_size_conflicts false analyzable) in
    All
      (λ (g : PayloadEqualityGroup).
        IsPayloadGroup (groupable_key false conflicts) analyzable g.content)
      analysis.payload_equality_groups
groups-IsPayloadGroup_example = groups-IsPayloadGroup hash false copies analysis analysed

-- Both copies are one group, and none of its bytes is unknown.
one_group :
    map (λ (g : PayloadEqualityGroup). g.logical_redundant_bytes) analysis.payload_equality_groups
    ≡ some (pos 3) ∷ []
unfolding sort_on list_eq nat_eq pair_eq int_eq option_eq bool_eq object_type_eq
    observation_status_eq payload_status_eq provenance_eq list_order nat_order pair_order int_order
    Dict.has_key Dict.keys Dict.lookup Dict.append_at ℕ_discrete group_by distinct payload_key
    is_trusted object_hint ordered_references reference_sort_key encode sha256_name hints_in_order
    alias_sets hint_conflicts conflicted_hints by_digest has_size_conflict size_conflicts
    conflict_entries alias_dict unit_sort_key entry_reference_key storage_units alias_ids
    group_content groupable_key equality_groups payload_size_conflicts analysis_result
    group_sort_key analysis reference_eq ◌*ℤ◌
one_group = refl

few_groups : length (filter (passes_exact true) analysis.payload_equality_groups) ≤ 1
few_groups = omega (
  arith,
  length-filter (passes_exact true) analysis.payload_equality_groups,
  length-map (λ (g : PayloadEqualityGroup). g.logical_redundant_bytes)
      analysis.payload_equality_groups,
  ap length one_group,
)

few_relations : length (filter (passes_kind (some rename_candidate)) relations.relations) ≤ 2
few_relations = omega (
  arith,
  length-filter (passes_kind (some rename_candidate)) relations.relations,
  length-map kind_of relations.relations,
  ap length kinds,
)

read_relations-filter_example :
    read_relations 5 relations (some rename_candidate) 1 0
    ≡ filter (passes_kind (some rename_candidate)) relations.relations
read_relations-filter_example =
    read_relations-filter 5 relations (some rename_candidate) 1 (omega arith) (omega arith)
      (omega (arith, few_relations))

read_duplicates-filter_example :
    read_duplicates 5 analysis true 1 0
    ≡ filter (passes_exact true) analysis.payload_equality_groups
read_duplicates-filter_example =
    read_duplicates-filter 5 analysis true 1 (omega arith) (omega arith) (omega (arith, few_groups))
