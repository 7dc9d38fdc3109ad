-- ===== src/Relations/Moves.antt =====
-- Every candidate of a relation set is one object that moved.
use steward_public.Base.{
  ◌≡◌, refl, sym, ◌∙◌, subst, Bool, true, false, not, Option, none, some, List, [], ◌∷◌, ◌++◌, ok,
  ◌==◌, ◌!=◌, list_eq, nat_eq, pair_eq, option_eq, filter, length, contains, ltb, ◌&&◌, ◌||◌,
  if◌then◌else◌, if_rule, All, All-append, All-map, All-map_intro, All-filter-true,
}
use steward_public.Base.Dict
use steward_public.Base.Dict.{Dict, keys-there}
use steward_public.Base.Int.{int_eq, int_order}
use steward_public.Base.Order.{nat_order, list_order, pair_order}
use steward_public.Base.Sort.{sort_on, sort_on-All}
use steward_public.Base.Text.{Text}
use steward_public.Models.Entry.{FilesystemEntry, FilesystemSnapshot}
use steward_public.Models.Status.{observation_status_eq, regular_file, symlink, object_type_eq}
use steward_public.Models.Relation.{
  RelationKind, RelationCertainty, fact, candidate, ambiguous, RelationItem, RelationSet,
  RelationAmbiguityGroup, same_location_content_changed, same_location_continuity,
  same_location_metadata_changed, same_location_type_changed, same_location_symlink_target_changed,
  same_location_object_hint_changed,
}
use steward_public.Diff.{Location}
use steward_public.Diff.Locations.{tagged}
use steward_public.Relations.Items.{Document, reference, relation_item, relation_set, item_sort_key}
use steward_public.Base.Group.{distinct}
use steward_public.Relations.Payload.{TransitionKey, object_hint_equal, successful_payload_digest}
use steward_public.Relations.Locations.{
  same_location_kind, same_location_relation, both_observed, shared_locations, payload_relation,
  metadata_changed,
}
use steward_public.Relations.Transitions.{
  Transition, relation_of, digests, skipped, ambiguous_transition, candidate_transition, Sides,
  sides_of, transition_of, transition_at, shared_hints, transitions, relations_of,
}
use steward_public.Relations.Entries.{
  is_unmatched, unmatched-tagged, values-tagged, compute-relations,
}
use steward_public.Relations.Candidates.{IsMove, candidate-IsMove}
use steward_public.Relations.{
  transitions_if, both_at, relation_at, relations_at, compute_snapshot_relations,
}

-- A candidate is a move; nothing is said of an item of another certainty.
abbrev MoveIfCandidate : Bool → List FilesystemEntry → List FilesystemEntry → RelationItem → Type 0
MoveIfCandidate reused base target item =
    item.certainty ≡ candidate → IsMove reused base target item

abbrev NotCandidate : RelationKind × RelationCertainty → Type 0
NotCandidate k = ¬ (k.1 ≡ candidate)

payload_relation-certain :
    (b t : Option Text) (k : RelationKind × RelationCertainty)
    → NotCandidate k
    → NotCandidate (payload_relation b t k)
payload_relation-certain none t k h = λ e. cc
payload_relation-certain (some b) none k h = λ e. cc
payload_relation-certain (some b) (some t) k h =
    if_rule NotCandidate (b != t) (same_location_content_changed, fact) k (λ _ e. cc) (λ _. h)

metadata-certain :
    (m : Bool)
    → NotCandidate
        (if m then (same_location_metadata_changed, fact) else (same_location_continuity, fact))
metadata-certain true = λ e. cc
metadata-certain false = λ e. cc

chain-certain :
    (a b c d m : Bool) (x y : Option Text)
    → let k : RelationKind × RelationCertainty =
        if m then (same_location_metadata_changed, fact) else (same_location_continuity, fact) in
      NotCandidate (
        if a
        then (same_location_type_changed, fact)
        else if b
        then (same_location_symlink_target_changed, fact)
        else if c
        then (same_location_object_hint_changed, fact)
        else if d
        then payload_relation x y k
        else k)
chain-certain true b c d m x y = λ e. cc
chain-certain false true c d m x y = λ e. cc
chain-certain false false true d m x y = λ e. cc
chain-certain false false false true m x y = payload_relation-certain x y _ (metadata-certain m)
chain-certain false false false false m x y = metadata-certain m

same_location_kind-certain :
    (reused : Bool) (base target : FilesystemEntry)
    → NotCandidate (same_location_kind reused base target)
unfolding same_location_kind
same_location_kind-certain reused base target =
    chain-certain (base.object_type != target.object_type)
      (base.object_type == symlink && base.symlink_target_raw != target.symlink_target_raw)
      (base.object_type == regular_file && not (object_hint_equal base target))
      (base.object_type == regular_file) (metadata_changed base target)
      (successful_payload_digest reused base) (successful_payload_digest reused target)

tests_certain :
    (a b c : Bool) (i j k item : RelationItem) (g m group : RelationAmbiguityGroup)
    → i.certainty ≡ ambiguous
    → j.certainty ≡ ambiguous
    → (if a
        then skipped
        else if b
        then ambiguous_transition i g
        else if c
        then ambiguous_transition j m
        else candidate_transition k)
      ≡ ambiguous_transition item group
    → item.certainty ≡ ambiguous
tests_certain true b c i j k item g m group p q h = cc
tests_certain false true c i j k item g m group p q h = cc
tests_certain false false true i j k item g m group p q h = cc
tests_certain false false false i j k item g m group p q h = cc

-- An ambiguous transition is not a candidate.
ambiguous-certain :
    (hash : Document → Text) (reused : Bool) (s t sa ta : List FilesystemEntry)
    (item : RelationItem) (group : RelationAmbiguityGroup)
    → transition_of hash reused s t sa ta ≡ ambiguous_transition item group
    → item.certainty ≡ ambiguous
unfolding transition_of
ambiguous-certain hash reused s t sa ta item group h =
    tests_certain (contains (digests reused s) none || contains (digests reused t) none)
      (ltb 1 (length sa) || ltb 1 (length ta))
      (length (distinct (digests reused s ++ digests reused t)) != 1) _ _ _ _ _ _ _ refl refl h

ambiguous_candidate : ¬ (ambiguous ≡ candidate)
ambiguous_candidate e = cc

module _ (hash : Document → Text) (reused : Bool) (base target : List FilesystemEntry) where
  Good : RelationItem → Type 0
  Good = MoveIfCandidate reused base target

  same_location-Good : (b t : FilesystemEntry) → All Good (same_location_relation hash reused b t)
  unfolding same_location_relation Good
  same_location-Good b t =
      let (kind, certainty) = same_location_kind reused b t in
      if_rule (All Good) (both_observed b t)
        (relation_item hash kind certainty (reference b ∷ []) (reference t ∷ []) none ∷ []) []
        (λ _. (λ e. absurd (same_location_kind-certain reused b t e), tt)) (λ _. tt)

  both_at-Good :
      (b t : Option FilesystemEntry) → All Good (both_at (same_location_relation hash reused) b t)
  both_at-Good none t = tt
  both_at-Good (some b) none = tt
  both_at-Good (some b) (some t) = same_location-Good b t

  relations_at-Good :
      (l r : Dict Location FilesystemEntry) (locations : List Location)
      → All Good (relations_at hash reused l r locations)
  unfolding relations_at relation_at
  relations_at-Good l r [] = tt
  relations_at-Good l r (location ∷ rest) =
      All-append Good (relation_at hash reused l r location) (relations_at hash reused l r rest)
        (both_at-Good (Dict.lookup location l) (Dict.lookup location r))
        (relations_at-Good l r rest)

  relations_of-Good :
      (ts : List Transition) → All (λ t. All Good (relation_of t)) ts → All Good (relations_of ts)
  unfolding relations_of
  relations_of-Good [] h = tt
  relations_of-Good (t ∷ ts) h =
      All-append Good (relation_of t) (relations_of ts) h.0 (relations_of-Good ts h.1)

  my_sides : Sides
  my_sides =
      sides_of (filter (is_unmatched target) base) (filter (is_unmatched base) target) base target

  transition-Good :
      (key : TransitionKey)
      → Dict.has_key key my_sides.base_by_hint ≡ true
      → Dict.has_key key my_sides.target_by_hint ≡ true
      → (t : Transition) → transition_at hash reused my_sides key ≡ t
      → All Good (relation_of t)
  unfolding transition_at Good my_sides
  transition-Good key in_base in_target skipped h = tt
  transition-Good key in_base in_target (ambiguous_transition item group) h = (
    λ e.
        absurd (ambiguous_candidate (sym (ambiguous-certain hash reused _ _ _ _ item group h) ∙ e)),
    tt,
  )
  transition-Good key in_base in_target (candidate_transition item) h =
      (λ _. candidate-IsMove hash reused base target key item in_base in_target h, tt)

  transitions-Good : All (λ t. All Good (relation_of t)) (transitions hash reused my_sides)
  unfolding transitions shared_hints my_sides
  transitions-Good =
      let hints =
        filter (λ hint. Dict.has_key hint my_sides.target_by_hint)
          (Dict.keys my_sides.base_by_hint) in
      All-map_intro (λ t. All Good (relation_of t)) (transition_at hash reused my_sides)
        (sort_on (λ hint. hint) hints)
        (All-map _ _
          (λ key there.
            transition-Good key there.0 there.1 (transition_at hash reused my_sides key) refl)
          (sort_on (λ hint. hint) hints)
          (sort_on-All (λ hint. hint) _ hints
            (All-filter-true _ _ (Dict.keys my_sides.base_by_hint)
              (keys-there my_sides.base_by_hint))))

found-Good :
    (hash : Document → Text) (adjacent reused : Bool) (b t : List FilesystemEntry)
    → All
        (λ x. All (Good hash reused b t) (relation_of x))
        (transitions_if hash adjacent reused (tagged b) (tagged t))
unfolding my_sides
found-Good hash true reused b t =
    rw (unmatched-tagged b t, unmatched-tagged t b, values-tagged b, values-tagged t)
      (transitions-Good hash reused b t)
found-Good hash false reused b t = tt

-- Every candidate of a relation set is one object that moved: it has one source and one target
-- entry with one device, inode and birth time, neither location has an entry in the other Snapshot,
-- no other entry of either Snapshot has this device and inode, and both payload digests are known
-- and equal. It is a rename exactly when the scope is the same.
pub candidates-IsMove :
    (hash : Document → Text) (adjacent reused : Bool) (base target : FilesystemSnapshot)
    (s : RelationSet)
    → compute_snapshot_relations hash adjacent reused base target ≡ ok s
    → All (MoveIfCandidate reused base.entries target.entries) s.relations
unfolding relation_set Good
candidates-IsMove hash adjacent reused base target s h =
    let b = base.entries in
    let t = target.entries in
    let found = transitions_if hash adjacent reused (tagged b) (tagged t) in
    let same =
      relations_at hash reused (tagged b) (tagged t) (shared_locations (tagged b) (tagged t)) in
    subst (λ r. All (MoveIfCandidate reused b t) r.relations)
      (sym (compute-relations hash adjacent reused base target s h))
      (sort_on-All item_sort_key (Good hash reused b t) (same ++ relations_of found) (
        All-append (Good hash reused b t) same (relations_of found)
          (relations_at-Good hash reused b t (tagged b) (tagged t)
            (shared_locations (tagged b) (tagged t)))
          (relations_of-Good hash reused b t found (found-Good hash adjacent reused b t))))
