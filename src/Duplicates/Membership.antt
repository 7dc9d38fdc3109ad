-- ===== src/Duplicates/Membership.antt =====
-- Which entries a group of equal payloads holds, and how its storage units are counted.
use steward_public.Base.{
  ◌+◌, ◌≤◌, ◌≡◌, sym, ap, ◌∙◌, subst, Bool, true, List, [], ◌∷◌, ◌++◌, map, Option, ok, arith,
  filter, length, length-append, length-map, count_if, count_if-append, count_if-map, All, All-map,
  All-map_intro, All-filter-true, leb, >>=-ok, ok-injective, list_eq, nat_eq, pair_eq, option_eq,
}
use steward_public.Base.Dict.{Dict}
use steward_public.Base.Group.{group_by, has_group_key}
use steward_public.Base.Grouped.{group_by-exact, length-group_by}
use steward_public.Base.Int.{ℤ, int_eq, int_order}
use steward_public.Base.Order.{nat_order, list_order, pair_order}
use steward_public.Base.Sort.{sort_on, sort_on-All, count_if-sort_on, length-sort_on}
use steward_public.Base.Text.{Text}
use steward_public.Models.Entry.{FilesystemEntry, FilesystemSnapshot}
use steward_public.Models.Relation.{SnapshotEntryReference}
use steward_public.Models.Duplicate.{
  HardLinkAliasSet, StorageUnit, GroupContent, PayloadEqualityGroup, DuplicateAnalysisResult,
  reference_eq,
}
use steward_public.Relations.Items.{reference, reference_sort_key, ordered_references}
use steward_public.Relations.Payload.{ObjectHint, object_hint}
use steward_public.Duplicates.Payload.{PayloadKey}
use steward_public.Duplicates.Conflicts.{Document, hints_in_order, conflict_entries}
use steward_public.Duplicates.Grouping.{
  known_unit, unknown_unit, unit_sort_key, entry_reference_key, has_no_hint, storage_units,
  is_known_unit, is_unknown_unit, is_conflicted_unit, group_content, is_group, groupable_key,
  equality_group, equality_groups,
}
use steward_public.Duplicates.{
  entry_maps, payload_size_conflicts, analyzable_entries, group_sort_key, analysis_result, analyse,
  compute_snapshot_duplicate_analysis,
}

abbrev pub key_of_group : GroupContent → PayloadKey
key_of_group g = (g.algorithm, (g.algorithm_version, (g.digest, g.logical_size_bytes)))

-- The content of a group, against the entries that have a payload key.
pub record IsPayloadGroup (key : FilesystemEntry → Option PayloadKey)
    (entries : List FilesystemEntry) (g : GroupContent) : Type 0 where
  pub members :
      (p : SnapshotEntryReference → Bool)
      → count_if p g.member_entries
        ≡ count_if (λ e. p (reference e)) (filter (has_group_key key (key_of_group g)) entries)
  pub several : 2 ≤ length g.member_entries
  pub units :
      g.known_storage_unit_count
        + g.unknown_storage_unit_count
        + count_if is_conflicted_unit g.storage_units
      ≡ length g.storage_units
  pub few_units : length g.storage_units ≤ length g.member_entries

count-known :
    (aliases : Dict ObjectHint HardLinkAliasSet) (conflicted : List ObjectHint) (size : ℤ)
    (d : Dict ObjectHint (List FilesystemEntry))
    → let us = map (known_unit aliases conflicted size) d in
      count_if is_known_unit us + count_if is_unknown_unit us + count_if is_conflicted_unit us
      ≡ length d
count-known aliases conflicted size [] = omega arith
count-known aliases conflicted size ((hint, members) ∷ d) =
    ground (arith, count-known aliases conflicted size d)

count-unknown :
    (size : ℤ) (es : List FilesystemEntry)
    → let us = map (unknown_unit size) es in
      count_if is_known_unit us + count_if is_unknown_unit us + count_if is_conflicted_unit us
      ≡ length es
count-unknown size [] = omega arith
count-unknown size (e ∷ es) = omega (arith, count-unknown size es)

module _ (aliases : Dict ObjectHint HardLinkAliasSet) (conflicted : List ObjectHint) (size : ℤ)
    (members : List FilesystemEntry) where
  abbrev known : List StorageUnit
  known = map (known_unit aliases conflicted size) (hints_in_order (group_by object_hint members))

  abbrev others : List StorageUnit
  others = map (unknown_unit size) (sort_on entry_reference_key (filter has_no_hint members))

  length-units :
      length (storage_units aliases conflicted size members)
      ≡ length (group_by object_hint members) + length (filter has_no_hint members)
  unfolding storage_units hints_in_order
  length-units = omega (
    arith,
    length-sort_on unit_sort_key (known ++ others),
    length-append known others,
    length-map (known_unit aliases conflicted size) (hints_in_order (group_by object_hint members)),
    length-map (unknown_unit size) (sort_on entry_reference_key (filter has_no_hint members)),
    length-sort_on entry_reference_key (filter has_no_hint members),
    length-sort_on (λ (group : ObjectHint × List FilesystemEntry). group.0)
        (group_by object_hint members),
  )

  count-units :
      (p : StorageUnit → Bool)
      → count_if p (storage_units aliases conflicted size members)
        ≡ count_if p known + count_if p others
  unfolding storage_units
  count-units p =
      count_if-sort_on unit_sort_key p (known ++ others) ∙ count_if-append p known others

  units-add_up :
      let us = storage_units aliases conflicted size members in
      count_if is_known_unit us + count_if is_unknown_unit us + count_if is_conflicted_unit us
      ≡ length us
  unfolding hints_in_order
  units-add_up = omega (
    arith,
    count-units is_known_unit,
    count-units is_unknown_unit,
    count-units is_conflicted_unit,
    count-known aliases conflicted size (hints_in_order (group_by object_hint members)),
    count-unknown size (sort_on entry_reference_key (filter has_no_hint members)),
    length-units,
    length-sort_on entry_reference_key (filter has_no_hint members),
    length-sort_on (λ (group : ObjectHint × List FilesystemEntry). group.0)
        (group_by object_hint members),
  )

length-ordered :
    (es : List FilesystemEntry)
    → length (ordered_references (sort_on entry_reference_key es)) ≡ length es
unfolding ordered_references
length-ordered es =
    length-sort_on reference_sort_key (map reference (sort_on entry_reference_key es))
    ∙ length-map reference (sort_on entry_reference_key es)
    ∙ length-sort_on entry_reference_key es

count-ordered :
    (p : SnapshotEntryReference → Bool) (es : List FilesystemEntry)
    → count_if p (ordered_references (sort_on entry_reference_key es))
      ≡ count_if (λ e. p (reference e)) es
unfolding ordered_references
count-ordered p es =
    count_if-sort_on reference_sort_key p (map reference (sort_on entry_reference_key es))
    ∙ count_if-map p reference (sort_on entry_reference_key es)
    ∙ count_if-sort_on entry_reference_key (λ e. p (reference e)) es

group_content-IsPayloadGroup :
    (aliases : Dict ObjectHint HardLinkAliasSet) (conflicted : List ObjectHint)
    (key : FilesystemEntry → Option PayloadKey) (entries : List FilesystemEntry) (k : PayloadKey)
    (group : List FilesystemEntry)
    → group ≡ filter (has_group_key key k) entries
    → leb 2 (length group) ≡ true
    → IsPayloadGroup key entries (group_content aliases conflicted (k, group))
unfolding group_content
group_content-IsPayloadGroup aliases conflicted key entries (algorithm, (version, (digest, size)))
      group exact two =
    let members = sort_on entry_reference_key group in
    let same = length-sort_on entry_reference_key group in
    record {
      members = λ p. count-ordered p group ∙ ap (count_if (λ e. p (reference e))) exact;
      several = subst (λ n. 2 ≤ n) (sym (length-ordered group)) (ground arith);
      units = units-add_up aliases conflicted size members;
      few_units = omega (
        arith,
        length-units aliases conflicted size members,
        length-group_by object_hint members,
        same,
        length-ordered group,
      );
    }

module _ (hash : Document → Text) where
  equality_groups-IsPayloadGroup :
      (aliases : Dict ObjectHint HardLinkAliasSet) (conflicted : List ObjectHint)
      (key : FilesystemEntry → Option PayloadKey) (entries : List FilesystemEntry)
      → All
          (λ (g : PayloadEqualityGroup). IsPayloadGroup key entries g.content)
          (equality_groups hash aliases conflicted (group_by key entries))
  unfolding equality_groups
  equality_groups-IsPayloadGroup aliases conflicted key entries =
      let in_order =
        sort_on (λ (group : PayloadKey × List FilesystemEntry). group.0) (group_by key entries) in
      All-map_intro (λ (g : PayloadEqualityGroup). IsPayloadGroup key entries g.content)
        (λ group. equality_group hash (group_content aliases conflicted group))
        (filter is_group in_order)
        (All-map _ _
          (λ group h.
            group_content-IsPayloadGroup aliases conflicted key entries group.0 group.1 h.0 h.1)
          (filter is_group in_order)
          (All-filter-true (λ group. group.1 ≡ filter (has_group_key key group.0) entries) is_group
            in_order
            (sort_on-All (λ (group : PayloadKey × List FilesystemEntry). group.0)
              (λ group. group.1 ≡ filter (has_group_key key group.0) entries) (group_by key entries)
              (group_by-exact key entries))))

  -- Every group of an analysis that is computed has two members at least, and they are, each as often,
  -- the analysable entries with the group's algorithm, version, digest and size that are in no
  -- size conflict. Its units are no more than its members, and each is counted once, as known,
  -- as unknown, or as one whose facts contradict each other.
  pub groups-IsPayloadGroup :
      (reused : Bool) (snapshot : FilesystemSnapshot) (r : DuplicateAnalysisResult)
      → compute_snapshot_duplicate_analysis hash reused snapshot ≡ ok r
      → let analyzable = analyzable_entries reused snapshot.entries in
        let conflicts = conflict_entries (payload_size_conflicts reused analyzable) in
        All
          (λ (g : PayloadEqualityGroup).
            IsPayloadGroup (groupable_key reused conflicts) analyzable g.content)
          r.payload_equality_groups
  unfolding compute_snapshot_duplicate_analysis analyse analysis_result
  groups-IsPayloadGroup reused snapshot r h =
      let (_, _, same) = >>=-ok (entry_maps snapshot.snapshot_id [] snapshot.entries) _ h in
      let analyzable = analyzable_entries reused snapshot.entries in
      let conflicts = conflict_entries (payload_size_conflicts reused analyzable) in
      subst
        (λ (q : DuplicateAnalysisResult).
          All
            (λ (g : PayloadEqualityGroup).
              IsPayloadGroup (groupable_key reused conflicts) analyzable g.content)
            q.payload_equality_groups)
        (ok-injective same)
        (sort_on-All group_sort_key _ _
          (equality_groups-IsPayloadGroup _ _ (groupable_key reused conflicts) analyzable))
