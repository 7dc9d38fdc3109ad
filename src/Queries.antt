-- ===== src/Queries.antt =====
-- snapshot_relation_query.py and snapshot_duplicate_query.py: one page of a complete result. The
-- complete result is the argument: the repository that it is computed from is not modelled.
pub mod Pages
use steward_public.Base.{
  ℕ, ◌+◌, Bool, true, false, not, ◌||◌, Option, none, some, List, [], ◌∷◌, ◌==◌, nat_eq, list_eq,
  if◌then◌else◌, filter, contains, length, take, drop, ltb, Result, ok, err, ◌>>=◌, ◌>>◌, raise_if,
  map,
}
use steward_public.Base.Int.{ℤ, pos, negsuc, pos_part, ltb_ℤ, leb_ℤ}
use steward_public.Base.Text.{Text}
use steward_public.Models.Relation.{
  RelationKind, relation_kind_eq, RelationAmbiguityGroup, RelationItem, RelationSet,
}
use steward_public.Models.Duplicate.{
  HardLinkAliasSet, PayloadEqualityGroup, CoverageSummary, PhysicalStorageSummary,
  IntegrityConflict, DuplicateAnalysisResult,
}

-- `items[offset : offset + limit]`
abbrev pub page_of : {A : Type 0} → ℕ → ℕ → List A → List A
page_of limit offset items = take limit (drop offset items)

abbrev pub has_more_after : {A : Type 0} → ℕ → List A → List A → Bool
has_more_after offset page selected = ltb (offset + length page) (length selected)

abbrev pub next_after : {A : Type 0} → ℕ → List A → List A → Option ℕ
next_after offset page selected =
    if has_more_after offset page selected then some (offset + length page) else none

pub data QueryError : Type 0 where
  bad_limit bad_offset : QueryError

-- `_validate_page`, of integers
unfoldable pub validate_page : ℤ → ℤ → Result QueryError (Unit {0})
validate_page limit offset =
    raise_if (not (leb_ℤ (pos 1) limit) || not (leb_ℤ limit (pos 1000))) bad_limit
    >> raise_if (ltb_ℤ offset (pos 0)) bad_offset

pub record RelationQueryResult : Type 0 where
  pub relation_schema_version : ℕ
  pub algorithm : Text
  pub algorithm_version : ℕ
  pub base_snapshot_id : Text
  pub target_snapshot_id : Text
  pub relation_set_digest : Text
  pub relation_item_count : ℕ
  pub filtered_relation_item_count : ℕ
  pub returned_relation_item_count : ℕ
  pub kind_filter : Option RelationKind
  pub relation_items : List RelationItem
  pub ambiguity_groups : List RelationAmbiguityGroup
  pub limit : ℤ
  pub offset : ℤ
  pub has_more : Bool
  pub next_offset : Option ℕ

abbrev pub passes_kind : Option RelationKind → RelationItem → Bool
passes_kind none item = true
passes_kind (some kind) item = item.kind == kind

-- `group_ids`
abbrev pub group_ids : List RelationItem → List Text
group_ids [] = []
group_ids (item ∷ rest) = elim item.ambiguity_group_id [
  | none ↦ group_ids rest
  | some id ↦ id ∷ group_ids rest
]

unfoldable pub relation_page : RelationSet → Option RelationKind → ℤ → ℤ → RelationQueryResult
relation_page s kind limit offset =
    let selected = filter (passes_kind kind) s.relations in
    let page = page_of (pos_part limit) (pos_part offset) selected in
    record {
      relation_schema_version = s.relation_schema_version;
      algorithm = s.algorithm;
      algorithm_version = s.algorithm_version;
      base_snapshot_id = s.base_snapshot_id;
      target_snapshot_id = s.target_snapshot_id;
      relation_set_digest = s.relation_set_digest;
      relation_item_count = length s.relations;
      filtered_relation_item_count = length selected;
      returned_relation_item_count = length page;
      kind_filter = kind;
      relation_items = page;
      ambiguity_groups =
          filter (λ (g : RelationAmbiguityGroup). contains (group_ids page) g.ambiguity_group_id)
            s.ambiguity_groups;
      limit = limit;
      offset = offset;
      has_more = has_more_after (pos_part offset) page selected;
      next_offset = next_after (pos_part offset) page selected;
    }

-- `query_verified_snapshot_relations` on the complete relation set
unfoldable pub query_relations :
    RelationSet → Option RelationKind → ℤ → ℤ → Result QueryError RelationQueryResult
query_relations s kind limit offset = do
  validate_page limit offset
  ok (relation_page s kind limit offset)

pub record DuplicateAnalysisQueryResult : Type 0 where
  pub analysis_schema_version : ℕ
  pub algorithm : Text
  pub algorithm_version : ℕ
  pub snapshot_id : Text
  pub analysis_digest : Text
  pub payload_equality_group_count : ℕ
  pub filtered_payload_equality_group_count : ℕ
  pub returned_payload_equality_group_count : ℕ
  pub only_exact : Bool
  pub payload_equality_groups : List PayloadEqualityGroup
  pub hard_link_alias_sets : List HardLinkAliasSet
  pub coverage : CoverageSummary
  pub physical_storage : PhysicalStorageSummary
  pub integrity_conflicts : List IntegrityConflict
  pub limit : ℤ
  pub offset : ℤ
  pub has_more : Bool
  pub next_offset : Option ℕ

abbrev pub passes_exact : Bool → PayloadEqualityGroup → Bool
passes_exact only_exact group = not only_exact || group.is_exact_duplicate

unfoldable pub duplicate_page :
    DuplicateAnalysisResult → Bool → ℤ → ℤ → DuplicateAnalysisQueryResult
duplicate_page a only_exact limit offset =
    let selected = filter (passes_exact only_exact) a.payload_equality_groups in
    let page = page_of (pos_part limit) (pos_part offset) selected in
    record {
      analysis_schema_version = a.analysis_schema_version;
      algorithm = a.algorithm;
      algorithm_version = a.algorithm_version;
      snapshot_id = a.snapshot_id;
      analysis_digest = a.analysis_digest;
      payload_equality_group_count = length a.payload_equality_groups;
      filtered_payload_equality_group_count = length selected;
      returned_payload_equality_group_count = length page;
      only_exact = only_exact;
      payload_equality_groups = page;
      hard_link_alias_sets = a.hard_link_alias_sets;
      coverage = a.coverage;
      physical_storage = a.physical_storage;
      integrity_conflicts = a.integrity_conflicts;
      limit = limit;
      offset = offset;
      has_more = has_more_after (pos_part offset) page selected;
      next_offset = next_after (pos_part offset) page selected;
    }

-- `query_verified_snapshot_duplicates` on the complete analysis
unfoldable pub query_duplicates :
    DuplicateAnalysisResult → Bool → ℤ → ℤ → Result QueryError DuplicateAnalysisQueryResult
query_duplicates a only_exact limit offset = do
  validate_page limit offset
  ok (duplicate_page a only_exact limit offset)
