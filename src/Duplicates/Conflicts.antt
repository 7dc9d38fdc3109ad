-- ===== src/Duplicates/Conflicts.antt =====
-- duplicate_analysis.py: hard links, and the facts about one object that contradict each other.
-- `hash` is the SHA-256 of the canonical JSON of a document.
use steward_public.Base.{
  Bool, true, false, Option, none, some, List, [], ◌∷◌, ◌++◌, map, nat_eq, list_eq, option_eq,
  pair_eq, if◌then◌else◌, filter, any, length, ltb, leb,
}
use steward_public.Base.Dict.{Dict}
use steward_public.Base.Group.{group_by, distinct}
use steward_public.Base.Int.{ℤ, pos, int_eq, int_order, ltb_ℤ}
use steward_public.Base.Order.{nat_order, list_order, pair_order}
use steward_public.Base.Sort.{sort_on}
use steward_public.Base.Text.{Text, text}
use steward_public.Models.Entry.{FilesystemEntry}
use steward_public.Models.Relation.{SnapshotEntryReference}
use steward_public.Models.Duplicate.{
  HardLinkAliasSet, IntegrityConflict, PayloadEqualityGroup, GroupContent, CoverageSummary,
  PhysicalStorageSummary, reference_eq,
}
use steward_public.Relations.Items.{ordered_references}
use steward_public.Relations.Payload.{ObjectHint}
use steward_public.Duplicates.Payload.{PayloadKey, payload_key, allocation_of}

-- What is written as canonical JSON and hashed, less the fields that are constant.
pub data Document : Type 0 where
  alias_document : ℤ → ℤ → List SnapshotEntryReference → Document
  group_document : GroupContent → Document
  analysis_document :
      Text
      → List PayloadEqualityGroup
      → List HardLinkAliasSet
      → CoverageSummary
      → PhysicalStorageSummary
      → List IntegrityConflict
      → Document

-- `sorted(groups.items())`: no key stands twice, so the members are not compared.
unfoldable pub hints_in_order :
    Dict ObjectHint (List FilesystemEntry) → Dict ObjectHint (List FilesystemEntry)
hints_in_order = sort_on (λ group. group.0)

-- the values that are there
abbrev pub present {ℓ} : {A : Type ℓ} → List (Option A) → List A
present [] = []
present (none ∷ xs) = present xs
present (some x ∷ xs) = x ∷ present xs

abbrev pub is_shared : ObjectHint × List FilesystemEntry → Bool
is_shared (hint, members) = leb 2 (length members)

module _ (hash : Document → Text) where
  abbrev pub alias_set : ObjectHint × List FilesystemEntry → HardLinkAliasSet
  alias_set ((device_id, inode), members) = record {
    alias_set_id = hash (alias_document device_id inode (ordered_references members));
    device_id = device_id;
    inode = inode;
    member_entries = ordered_references members;
  }

  unfoldable pub alias_sets : Dict ObjectHint (List FilesystemEntry) → List HardLinkAliasSet
  alias_sets by_hint = map alias_set (filter is_shared (hints_in_order by_hint))

abbrev conflict_if : Bool → Text → List SnapshotEntryReference → List IntegrityConflict
conflict_if true code entries = record { code = code; entries = entries } ∷ []
conflict_if false code entries = []

-- the body of the loop over the objects: the conflicts of one object
unfoldable pub hint_conflicts : Bool → List FilesystemEntry → List IntegrityConflict
hint_conflicts reused members =
    let references = ordered_references members in
    if ltb (length members) 2
    then []
    else conflict_if (ltb 1 (length (distinct (present (map (payload_key reused) members)))))
        (text "OBJECT_HINT_PAYLOAD_CONFLICT") references
      ++ conflict_if (ltb 1 (length (distinct (present (map (λ e. e.size_bytes) members)))))
          (text "OBJECT_HINT_SIZE_CONFLICT") references
      ++ conflict_if
          (any (λ count. ltb_ℤ count (pos (length members)))
            (present (map (λ e. e.link_count) members)))
          (text "LINK_COUNT_CONFLICT") references
      ++ conflict_if (ltb 1 (length (distinct (present (map allocation_of members)))))
          (text "ALLOCATED_SIZE_CONFLICT") references

abbrev is_nonempty {ℓ} : {A : Type ℓ} → List A → Bool
is_nonempty [] = false
is_nonempty (_ ∷ _) = true

abbrev pub Groups : Type 0
Groups = Dict ObjectHint (List FilesystemEntry)

unfoldable pub object_conflicts : Bool → Groups → List IntegrityConflict
object_conflicts reused [] = []
object_conflicts reused ((hint, members) ∷ rest) =
    hint_conflicts reused members ++ object_conflicts reused rest

unfoldable pub conflicted_hints : Bool → Groups → List ObjectHint
conflicted_hints reused [] = []
conflicted_hints reused ((hint, members) ∷ rest) =
    let later = conflicted_hints reused rest in
    if is_nonempty (hint_conflicts reused members) then hint ∷ later else later

-- `key[:3]`
abbrev pub DigestKey : Type 0
DigestKey = Text × (ℤ × Text)

abbrev digest_of_key : Option PayloadKey → Option DigestKey
digest_of_key none = none
digest_of_key (some (algorithm, (version, (digest, size)))) = some (algorithm, (version, digest))

abbrev size_of_key : Option PayloadKey → Option ℤ
size_of_key none = none
size_of_key (some (algorithm, (version, (digest, size)))) = some size

unfoldable pub by_digest : Bool → List FilesystemEntry → Dict DigestKey (List FilesystemEntry)
by_digest reused analyzable = group_by (λ e. digest_of_key (payload_key reused e)) analyzable

unfoldable pub has_size_conflict : Bool → List FilesystemEntry → Bool
has_size_conflict reused members =
    ltb 1 (length (distinct (present (map (λ e. size_of_key (payload_key reused e)) members))))

unfoldable pub size_conflicts :
    Bool → Dict DigestKey (List FilesystemEntry) → List IntegrityConflict
size_conflicts reused [] = []
size_conflicts reused ((key, members) ∷ rest) =
    conflict_if (has_size_conflict reused members) (text "PAYLOAD_SIZE_CONFLICT")
      (ordered_references members)
    ++ size_conflicts reused rest

-- `payload_size_conflict_entries`
unfoldable pub conflict_entries : List IntegrityConflict → List SnapshotEntryReference
conflict_entries [] = []
conflict_entries (conflict ∷ rest) = conflict.entries ++ conflict_entries rest
