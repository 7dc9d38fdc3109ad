-- ===== src/Relations/Candidates.antt =====
-- When two locations are reported as candidates for one moved object.
use steward_public.Base.{
  ◌≤◌, ◌<◌, ◌≡◌, refl, ap, ◌∙◌, subst, subst₂, Bool, true, false, ◌&&◌, ◌||◌, Option, none, some,
  List, [], ◌∷◌, ◌++◌, arith, ◌==◌, ◌!=◌, list_eq, nat_eq, pair_eq, option_eq, any, filter, length,
  contains, eq_self, eq_of_==, if◌then◌else◌, ltb, filter-filter, filter_sole, length_one,
  length-filter_weaker,
}
use steward_public.Base.Dict
use steward_public.Base.Dict.{Dict}
use steward_public.Base.Group.{
  group_by, group_at, has_group_key, group_at-group_by, group_by-NoneEmpty, group_at-positive,
  distinct,
}
use steward_public.Base.Int.{ℤ, int_eq, int_order}
use steward_public.Base.Order.{nat_order, list_order, pair_order}
use steward_public.Base.Sort.{sort_on, length-sort_on}
use steward_public.Base.Text.{Text}
use steward_public.Models.Entry.{FilesystemEntry}
use steward_public.Models.Status.{object_type_eq, observation_status_eq}
use steward_public.Models.Relation.{
  rename_candidate, cross_scope_transition_candidate, candidate, RelationItem,
  RelationAmbiguityGroup,
}
use steward_public.Diff.{location_key}
use steward_public.Diff.Locations.{is_at}
use steward_public.Relations.Items.{
  Document, reference, entry_sort_key, ordered_references, relation_item,
}
use steward_public.Relations.Payload.{
  successful_payload_digest, object_hint, TransitionKey, transition_key, transition_eligible,
  pair_of, triple_of,
}
use steward_public.Relations.Transitions.{
  skipped, ambiguous_transition, candidate_transition, alias_key, kind_of_candidate, digests,
  transition_of, transition_at, sides_of,
}
use steward_public.Relations.Entries.{is_unmatched}

-- Two entries that are one object at two locations, and no other entry of either Snapshot is a
-- name of it.
pub record IsMove (reused : Bool) (base target : List FilesystemEntry) (item : RelationItem)
    : Type 0 where
  pub source : FilesystemEntry
  pub moved : FilesystemEntry
  pub key : TransitionKey
  pub source_key : transition_key source ≡ some key
  pub moved_key : transition_key moved ≡ some key
  pub only_source : filter (has_group_key object_hint (alias_key key)) base ≡ source ∷ []
  pub only_moved : filter (has_group_key object_hint (alias_key key)) target ≡ moved ∷ []
  pub source_gone : any (is_at (location_key source)) target ≡ false
  pub moved_new : any (is_at (location_key moved)) base ≡ false
  pub digest : Text
  pub source_digest : successful_payload_digest reused source ≡ some digest
  pub moved_digest : successful_payload_digest reused moved ≡ some digest
  pub sources : item.source_entries ≡ reference source ∷ []
  pub targets : item.target_entries ≡ reference moved ∷ []
  pub kind : item.kind ≡ (
      if source.scope_id == moved.scope_id
      then rename_candidate
      else cross_scope_transition_candidate)

if_some :
    {A : Type 0} (b : Bool) (x : Option A) {a : A} → (if b then x else none) ≡ some a → x ≡ some a
if_some true x h = h
if_some false x h = cc

triple-pair :
    (a b c : Option ℤ) (key : TransitionKey)
    → triple_of a b c ≡ some key
    → pair_of a b ≡ some (alias_key key)
triple-pair none b c key h = cc
triple-pair (some a) none c key h = cc
triple-pair (some a) (some b) none key h = cc
triple-pair (some a) (some b) (some c) key h = ground arith

key-hint :
    (e : FilesystemEntry) (key : TransitionKey)
    → has_group_key transition_key key e ≡ true
    → has_group_key object_hint (alias_key key) e ≡ true
unfolding transition_key object_hint
key-hint e key h =
    rw
      (triple-pair e.device_id e.inode e.birthtime_ns key
        (if_some (transition_eligible e) _ (eq_of_== h)))
      (eq_self (some (alias_key key)))

-- What a candidate tells of the four lists that it is made of.
record Facts (hash : Document → Text) (reused : Bool) (s t sa ta : List FilesystemEntry)
    (item : RelationItem) : Type 0 where
  few_sources : length sa ≤ 1
  few_targets : length ta ≤ 1
  known_sources : contains (digests reused s) none ≡ false
  known_targets : contains (digests reused t) none ≡ false
  one_digest : length (distinct (digests reused s ++ digests reused t)) ≡ 1
  item_is :
      item
      ≡ relation_item hash
          (kind_of_candidate s t)
          candidate
          (ordered_references s)
          (ordered_references t)
          none

passed_tests :
    (a b c : Bool) (i j k item : RelationItem) (g m : RelationAmbiguityGroup)
    → (if a
        then skipped
        else if b
        then ambiguous_transition i g
        else if c
        then ambiguous_transition j m
        else candidate_transition k)
      ≡ candidate_transition item
    → (a ≡ false) × (b ≡ false) × (c ≡ false) × (item ≡ k)
passed_tests true b c i j k item g m h = cc
passed_tests false true c i j k item g m h = cc
passed_tests false false true i j k item g m h = cc
passed_tests false false false i j k item g m h = (refl, refl, refl, cc)

transition_of-candidate :
    (hash : Document → Text) (reused : Bool) (s t sa ta : List FilesystemEntry)
    (item : RelationItem)
    → transition_of hash reused s t sa ta ≡ candidate_transition item
    → Facts hash reused s t sa ta item
unfolding transition_of
transition_of-candidate hash reused s t sa ta item h =
    let (known, few, one, e) =
      passed_tests (contains (digests reused s) none || contains (digests reused t) none)
        (ltb 1 (length sa) || ltb 1 (length ta))
        (length (distinct (digests reused s ++ digests reused t)) != 1) _ _ _ _ _ _ h in
    record {
      few_sources = ground arith;
      few_targets = ground arith;
      known_sources = ground arith;
      known_targets = ground arith;
      one_digest = ground arith;
      item_is = e;
    }

-- One side of a candidate: the only entry with the key is the only name of its object.
one_side :
    (q : FilesystemEntry → Bool) (key : TransitionKey) (xs : List FilesystemEntry)
    → Dict.has_key key (group_by transition_key (filter q xs)) ≡ true
    → length (sort_on entry_sort_key (group_at (alias_key key) (group_by object_hint xs))) ≤ 1
    → (s : FilesystemEntry) × (sort_on entry_sort_key
          (group_at key (group_by transition_key (filter q xs)))
        ≡ s ∷ [])
      × (filter (has_group_key object_hint (alias_key key)) xs ≡ s ∷ [])
      × (q s && has_group_key transition_key key s ≡ true)
unfolding sort_on
one_side q key xs there few =
    let p = has_group_key transition_key key in
    let a = has_group_key object_hint (alias_key key) in
    let weaker : (e : FilesystemEntry) → q e && p e ≡ true → a e ≡ true =
      λ e h. key-hint e key (ground arith) in
    let group = group_at-group_by transition_key key (filter q xs) ∙ filter-filter p q xs in
    let few_names =
      subst (λ g. length g ≤ 1) (group_at-group_by object_hint (alias_key key) xs)
        (subst (λ n. n ≤ 1)
          (length-sort_on entry_sort_key (group_at (alias_key key) (group_by object_hint xs)))
          few) in
    let some_entry =
      subst (λ g. 0 < length g) group
        (group_at-positive key (group_by transition_key (filter q xs))
          (group_by-NoneEmpty transition_key (filter q xs)) there) in
    let (s, found) =
      length_one (filter (λ e. q e && p e) xs) some_entry
        (omega (arith, length-filter_weaker (λ e. q e && p e) a xs weaker, few_names)) in
    let (sole, is_it) = filter_sole (λ e. q e && p e) a xs s weaker few_names found in
    (s, ap (sort_on entry_sort_key) (group ∙ found), sole, is_it)

same_digest :
    (x y : Option Text)
    → contains (distinct (x ∷ [])) none ≡ false
    → contains (distinct (y ∷ [])) none ≡ false
    → length (distinct (distinct (x ∷ []) ++ distinct (y ∷ []))) ≡ 1
    → (d : Text) × (x ≡ some d) × (y ≡ some d)
unfolding distinct
same_digest none y h k e = absurd (ground arith)
same_digest (some d) none h k e = absurd (ground arith)
same_digest (some d) (some f) h k e = (d, refl, ground arith)

pub candidate-IsMove :
    (hash : Document → Text) (reused : Bool) (base target : List FilesystemEntry)
    (key : TransitionKey) (item : RelationItem)
    → let sides =
        sides_of
          (filter (is_unmatched target) base)
          (filter (is_unmatched base) target)
          base
          target in
      Dict.has_key key sides.base_by_hint ≡ true
      → Dict.has_key key sides.target_by_hint ≡ true
      → transition_at hash reused sides key ≡ candidate_transition item
      → IsMove reused base target item
unfolding transition_at sort_on ordered_references
candidate-IsMove hash reused base target key item in_base in_target h =
    let facts = transition_of-candidate hash reused _ _ _ _ item h in
    let (s, is_s, sole_s, at_s) =
      one_side (is_unmatched target) key base in_base facts.few_sources in
    let (m, is_m, sole_m, at_m) =
      one_side (is_unmatched base) key target in_target facts.few_targets in
    let sa = sort_on entry_sort_key (group_at (alias_key key) (group_by object_hint base)) in
    let ta = sort_on entry_sort_key (group_at (alias_key key) (group_by object_hint target)) in
    let two = subst₂ (λ x y. Facts hash reused x y sa ta item) is_s is_m facts in
    let (d, ds, dm) =
      same_digest (successful_payload_digest reused s) (successful_payload_digest reused m)
        two.known_sources two.known_targets two.one_digest in
    record {
      source = s;
      moved = m;
      key = key;
      source_key = eq_of_== (ground arith);
      moved_key = eq_of_== (ground arith);
      only_source = sole_s;
      only_moved = sole_m;
      source_gone = ground arith;
      moved_new = ground arith;
      digest = d;
      source_digest = ds;
      moved_digest = dm;
      sources = ap (λ i. i.source_entries) two.item_is;
      targets = ap (λ i. i.target_entries) two.item_is;
      kind = ap (λ i. i.kind) two.item_is;
    }
