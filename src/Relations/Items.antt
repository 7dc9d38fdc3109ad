-- ===== src/Relations/Items.antt =====
-- snapshot_relations.py: references, relation items, and the canonical form of a relation set.
-- `hash` is the SHA-256 of the canonical JSON of a document.
use steward_public.Base.{ℕ, Option, none, some, List, [], ◌∷◌, map}
use steward_public.Base.Order.{nat_order, list_order, pair_order}
use steward_public.Base.Sort.{sort_on}
use steward_public.Base.Text.{Text, text, encode}
use steward_public.Models.Entry.{FilesystemEntry}
use steward_public.Models.Relation.{
  SnapshotEntryReference, RelationKind, relation_kind_value, RelationCertainty,
  relation_certainty_value, RelationAmbiguityGroup, RelationItem, RelationSet,
}

abbrev pub ReferenceKey : Type 0
ReferenceKey = Text × (Text × List ℕ)

unfoldable pub reference_sort_key : SnapshotEntryReference → ReferenceKey
reference_sort_key r = (r.snapshot_id, (r.scope_id, encode r.relative_path))

unfoldable pub entry_sort_key : FilesystemEntry → Text × List ℕ
entry_sort_key entry = (entry.scope_id, encode entry.relative_path)

abbrev pub reference : FilesystemEntry → SnapshotEntryReference
reference entry = record {
  snapshot_id = entry.snapshot_id;
  scope_id = entry.scope_id;
  relative_path = entry.relative_path;
}

unfoldable pub ordered_references : List FilesystemEntry → List SnapshotEntryReference
ordered_references entries = sort_on reference_sort_key (map reference entries)

-- `_item_content`
pub record ItemContent : Type 0 where
  pub kind : Text
  pub certainty : Text
  pub reason_codes : List Text
  pub ambiguity_group_id : Option Text
  pub source_entries : List SnapshotEntryReference
  pub target_entries : List SnapshotEntryReference

abbrev pub item_content :
    RelationKind
    → RelationCertainty
    → List Text
    → Option Text
    → List SnapshotEntryReference
    → List SnapshotEntryReference
    → ItemContent
item_content kind certainty reasons group sources targets = record {
  kind = relation_kind_value kind;
  certainty = relation_certainty_value certainty;
  reason_codes = reasons;
  ambiguity_group_id = group;
  source_entries = sources;
  target_entries = targets;
}

-- The dict that `canonical_relation_set` writes, without the digest.
pub record SetContent : Type 0 where
  pub domain : Text
  pub relation_schema_version : ℕ
  pub algorithm : Text
  pub algorithm_version : ℕ
  pub base_snapshot_id : Text
  pub target_snapshot_id : Text
  pub relations : List (Text × ItemContent)
  pub ambiguity_groups : List RelationAmbiguityGroup

-- What is written as canonical JSON and hashed.
pub data Document : Type 0 where
  item_document : ItemContent → Document
  group_document : List SnapshotEntryReference → List SnapshotEntryReference → Document
  set_document : SetContent → Document

-- `RELATION_DIGEST_DOMAIN`
unfoldable pub relation_digest_domain : Text
relation_digest_domain = text "local_steward.cross_snapshot_relation.v1"

unfoldable pub relation_algorithm : Text
relation_algorithm = text "cross_snapshot_relation"

abbrev pub content_of_item : RelationItem → Text × ItemContent
content_of_item item = (
  item.relation_id,
  item_content item.kind item.certainty item.reason_codes item.ambiguity_group_id
      item.source_entries item.target_entries,
)

unfoldable pub canonical_relation_set : RelationSet → Document
unfolding relation_digest_domain
canonical_relation_set s = set_document record {
  domain = relation_digest_domain;
  relation_schema_version = s.relation_schema_version;
  algorithm = s.algorithm;
  algorithm_version = s.algorithm_version;
  base_snapshot_id = s.base_snapshot_id;
  target_snapshot_id = s.target_snapshot_id;
  relations = map content_of_item s.relations;
  ambiguity_groups = s.ambiguity_groups;
}

-- `item.ambiguity_group_id or ""`
abbrev pub or_empty : Option Text → Text
or_empty none = []
or_empty (some t) = t

unfoldable pub item_sort_key :
    RelationItem → Text × (Text × (List ReferenceKey × (List ReferenceKey × Text)))
item_sort_key item = (
  relation_kind_value item.kind,
  (
    relation_certainty_value item.certainty,
    (
      map reference_sort_key item.source_entries,
      (map reference_sort_key item.target_entries, or_empty item.ambiguity_group_id),
    ),
  ),
)

unfoldable pub group_sort_key :
    RelationAmbiguityGroup → List ReferenceKey × (List ReferenceKey × Text)
group_sort_key group = (
  map reference_sort_key group.source_entries,
  (map reference_sort_key group.target_entries, group.ambiguity_group_id),
)

abbrev set_with : Text → Text → List RelationItem → List RelationAmbiguityGroup → Text → RelationSet
set_with base_id target_id relations groups digest = record {
  relation_schema_version = 1;
  algorithm = relation_algorithm;
  algorithm_version = 1;
  base_snapshot_id = base_id;
  target_snapshot_id = target_id;
  relations = sort_on item_sort_key relations;
  ambiguity_groups = sort_on group_sort_key groups;
  relation_set_digest = digest;
}

module _ (hash : Document → Text) where
  abbrev pub ambiguity_group_id : List SnapshotEntryReference → List SnapshotEntryReference → Text
  ambiguity_group_id sources targets = hash (group_document sources targets)

  abbrev pub relation_item :
      RelationKind
      → RelationCertainty
      → List SnapshotEntryReference
      → List SnapshotEntryReference
      → Option Text
      → RelationItem
  relation_item kind certainty sources targets group = record {
    relation_id = hash (
        item_document
          (item_content kind certainty (relation_kind_value kind ∷ []) group sources targets));
    kind = kind;
    certainty = certainty;
    reason_codes = relation_kind_value kind ∷ [];
    ambiguity_group_id = group;
    source_entries = sources;
    target_entries = targets;
  }

  -- `_relation_set`: the digest is that of the set with an empty digest.
  unfoldable pub relation_set :
      Text → Text → List RelationItem → List RelationAmbiguityGroup → RelationSet
  relation_set base_id target_id relations groups =
      set_with base_id target_id relations groups
        (hash (canonical_relation_set (set_with base_id target_id relations groups [])))
