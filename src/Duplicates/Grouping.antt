-- ===== src/Duplicates/Grouping.antt =====
-- duplicate_analysis.py: the groups of entries with one payload, and their storage units.
use steward_public.Base.{
  ℕ, ◌-◌, Bool, true, false, not, ◌&&◌, Option, none, some, List, [], ◌∷◌, ◌++◌, map, ◌==◌, nat_eq,
  list_eq, option_eq, pair_eq, if◌then◌else◌, filter, any, contains, count_if, length, leb,
}
use steward_public.Base.Dict
use steward_public.Base.Dict.{Dict}
use steward_public.Base.Group.{group_by, distinct}
use steward_public.Base.Int.{ℤ, pos, negsuc, int_eq, int_order, ◌*ℤ◌}
use steward_public.Base.Order.{nat_order, list_order, pair_order}
use steward_public.Base.Sort.{sort_on}
use steward_public.Base.Text.{Text}
use steward_public.Models.Entry.{FilesystemEntry}
use steward_public.Models.Relation.{SnapshotEntryReference}
use steward_public.Models.Duplicate.{
  HardLinkAliasSet, StorageUnit, GroupContent, PayloadEqualityGroup, reference_eq,
}
use steward_public.Relations.Items.{ReferenceKey, reference, reference_sort_key, ordered_references}
use steward_public.Relations.Payload.{ObjectHint, object_hint}
use steward_public.Duplicates.Payload.{PayloadKey, payload_key, allocation_of}
use steward_public.Duplicates.Conflicts.{Document, group_document, present, hints_in_order, Groups}

-- `aliases_by_hint`
unfoldable pub alias_dict : List HardLinkAliasSet → Dict ObjectHint HardLinkAliasSet
alias_dict [] = []
alias_dict (alias ∷ rest) = ((alias.device_id, alias.inode), alias) ∷ alias_dict rest

abbrev unit_references :
    Option HardLinkAliasSet → List FilesystemEntry → List SnapshotEntryReference
unit_references none members = ordered_references members
unit_references (some alias) members = alias.member_entries

abbrev only_value : Bool → List ℤ → Option ℤ
only_value true (value ∷ []) = some value
only_value _ _ = none

-- the unit of an object, with the entries of the group that name it
abbrev pub known_unit :
    Dict ObjectHint HardLinkAliasSet
    → List ObjectHint
    → ℤ
    → ObjectHint × List FilesystemEntry
    → StorageUnit
known_unit aliases conflicted size (hint, members) =
    let references = unit_references (Dict.lookup hint aliases) members in
    record {
      device_id = some hint.0;
      inode = some hint.1;
      member_entries = references;
      membership_known = true;
      integrity_conflicted = contains conflicted hint;
      logical_size_bytes = some size;
      allocated_size_bytes =
          only_value (length members == length references)
            (distinct (present (map allocation_of members)));
    }

-- the unit of an entry without an object hint
abbrev pub unknown_unit : ℤ → FilesystemEntry → StorageUnit
unknown_unit size entry = record {
  device_id = none;
  inode = none;
  member_entries = reference entry ∷ [];
  membership_known = false;
  integrity_conflicted = false;
  logical_size_bytes = some size;
  allocated_size_bytes = none;
}

abbrev or_minus_one : Option ℤ → ℤ
or_minus_one none = negsuc 0
or_minus_one (some n) = n

-- `not membership_known` is 0 or 1.
unfoldable pub unit_sort_key : StorageUnit → ℕ × (ℤ × (ℤ × List ReferenceKey))
unit_sort_key unit = (
  if unit.membership_known then 0 else 1,
  (
    or_minus_one unit.device_id,
    (or_minus_one unit.inode, map reference_sort_key unit.member_entries),
  ),
)

unfoldable pub entry_reference_key : FilesystemEntry → ReferenceKey
entry_reference_key entry = reference_sort_key (reference entry)

abbrev pub has_no_hint : FilesystemEntry → Bool
has_no_hint entry = object_hint entry == none

unfoldable pub storage_units :
    Dict ObjectHint HardLinkAliasSet → List ObjectHint → ℤ → List FilesystemEntry → List StorageUnit
storage_units aliases conflicted size members = sort_on unit_sort_key (
    map (known_unit aliases conflicted size) (hints_in_order (group_by object_hint members))
    ++ map (unknown_unit size) (sort_on entry_reference_key (filter has_no_hint members)))

abbrev id_of_alias : Option HardLinkAliasSet → List Text
id_of_alias none = []
id_of_alias (some alias) = alias.alias_set_id ∷ []

unfoldable pub alias_ids : Dict ObjectHint HardLinkAliasSet → Groups → List Text
alias_ids aliases [] = []
alias_ids aliases ((hint, members) ∷ rest) =
    id_of_alias (Dict.lookup hint aliases) ++ alias_ids aliases rest

abbrev pub is_known_unit : StorageUnit → Bool
is_known_unit unit = unit.membership_known && not unit.integrity_conflicted

abbrev pub is_unknown_unit : StorageUnit → Bool
is_unknown_unit unit = not unit.membership_known

abbrev pub is_conflicted_unit : StorageUnit → Bool
is_conflicted_unit unit = unit.integrity_conflicted

-- `group_without_id`
unfoldable pub group_content :
    Dict ObjectHint HardLinkAliasSet
    → List ObjectHint
    → PayloadKey × List FilesystemEntry
    → GroupContent
group_content aliases conflicted ((algorithm, (version, (digest, size))), group) =
    let members = sort_on entry_reference_key group in
    let units = storage_units aliases conflicted size members in
    let known = count_if is_known_unit units in
    let unknown = count_if is_unknown_unit units in
    record {
      algorithm = algorithm;
      algorithm_version = version;
      digest = digest;
      logical_size_bytes = size;
      member_entries = ordered_references members;
      alias_set_ids =
          sort_on (λ (id : Text). id) (distinct (alias_ids aliases (group_by object_hint members)));
      storage_units = units;
      known_storage_unit_count = known;
      unknown_storage_unit_count = unknown;
      is_exact_duplicate = leb 2 known;
      path_logical_bytes = size *ℤ pos (length members);
      known_unit_logical_bytes = size *ℤ pos known;
      logical_redundant_bytes =
          if leb 2 known && (unknown == 0 && not (any is_conflicted_unit units))
          then some (size *ℤ pos (known - 1))
          else none;
    }

abbrev pub is_group : PayloadKey × List FilesystemEntry → Bool
is_group (key, members) = leb 2 (length members)

-- `by_payload`: the entries that have a key and are in no size conflict
unfoldable pub groupable_key :
    Bool → List SnapshotEntryReference → FilesystemEntry → Option PayloadKey
groupable_key reused conflicts entry =
    if contains conflicts (reference entry) then none else payload_key reused entry

module _ (hash : Document → Text) where
  abbrev pub equality_group : GroupContent → PayloadEqualityGroup
  equality_group content = record {
    payload_group_id = hash (group_document content);
    content = content;
  }

  unfoldable pub equality_groups :
      Dict ObjectHint HardLinkAliasSet
      → List ObjectHint
      → Dict PayloadKey (List FilesystemEntry)
      → List PayloadEqualityGroup
  equality_groups aliases conflicted by_payload =
      map (λ group. equality_group (group_content aliases conflicted group))
        (filter is_group
          (sort_on (λ (group : PayloadKey × List FilesystemEntry). group.0) by_payload))
