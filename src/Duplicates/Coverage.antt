-- ===== src/Duplicates/Coverage.antt =====
-- The counts of an analysis of duplicates add up.
use steward_public.Base.{
  ℕ, zero, suc, ◌+◌, ◌≡◌, refl, ap, ◌∙◌, subst, Bool, not, List, [], ◌∷◌, ◌++◌, map, Option, none,
  some, ok, arith, ◌&&◌, filter, length, length-append, length-map, count_if, count_if_ext, sum_map,
  >>=-ok, ok-injective, list_eq, nat_eq, pair_eq, option_eq,
}
use steward_public.Base.Dict.{Dict}
use steward_public.Base.Group.{
  tally, tally-sum, NoneEmpty, group_at, group_by, has_group_key, members_of, is_keyless,
  group_by-NoneEmpty, group_at-group_by, members-group_by,
}
use steward_public.Base.Int.{ℤ, int_eq}
use steward_public.Base.Order.{nat_order, list_order}
use steward_public.Base.Sort.{sort_on, sum_map-sort_on}
use steward_public.Base.Text.{Text}
use steward_public.Models.Entry.{FilesystemEntry, FilesystemSnapshot}
use steward_public.Models.Duplicate.{
  PayloadUnknownReasonCount, HardLinkAliasSet, CoverageSummary, PhysicalStorageSummary,
  DuplicateAnalysisResult,
}
use steward_public.Relations.Payload.{ObjectHint, object_hint, is_some}
use steward_public.Duplicates.Payload.{observed_regular, payload_status, unknown_reason}
use steward_public.Duplicates.Conflicts.{Document, Groups}
use steward_public.Duplicates.{
  lacks_hint, entry_maps, is_regular, is_analyzable, counts_of, code_counts, unit_allocations,
  repeat_none, is_none, physical_summary, coverage_of, analysis_result, analyse,
  compute_snapshot_duplicate_analysis,
}

abbrev pub count_of : PayloadUnknownReasonCount → ℕ
count_of c = c.count

length-filter-not :
    {A : Type 0} (p : A → Bool) (xs : List A)
    → length (filter p xs) + length (filter (λ x. not (p x)) xs) ≡ length xs
length-filter-not p [] = omega arith
length-filter-not p (x ∷ xs) = ground (arith, length-filter-not p xs)

sum-counts_of : (d : Dict Text ℕ) → sum_map count_of (counts_of d) ≡ sum_map (λ p. p.1) d
sum-counts_of [] = refl
sum-counts_of ((code, n) ∷ d) = ap (λ m. n + m) (sum-counts_of d)

sum-code_counts : (codes : List Text) → sum_map count_of (code_counts codes) ≡ length codes
unfolding code_counts
sum-code_counts codes =
    sum-counts_of (sort_on (λ (p : Text × ℕ). p.0) (tally codes))
    ∙ sum_map-sort_on (λ (p : Text × ℕ). p.0) (λ p. p.1) (tally codes)
    ∙ tally-sum codes

count-some_none : (xs : List (Option ℤ)) → count_if is_some xs + count_if is_none xs ≡ length xs
count-some_none [] = omega arith
count-some_none (none ∷ xs) = omega (arith, count-some_none xs)
count-some_none (some x ∷ xs) = omega (arith, count-some_none xs)

length-unit_allocations :
    (conflicted : List ObjectHint) (groups : Groups)
    → length (unit_allocations conflicted groups) ≡ length groups
unfolding unit_allocations
length-unit_allocations conflicted [] = refl
length-unit_allocations conflicted ((hint, members) ∷ rest) =
    ap suc (length-unit_allocations conflicted rest)

length-repeat_none : (n : ℕ) → length (repeat_none n) ≡ n
length-repeat_none zero = refl
length-repeat_none (suc n) = ap suc (length-repeat_none n)

-- the entries whose storage is counted
abbrev pub stored_entries : List FilesystemEntry → List FilesystemEntry
stored_entries entries =
    filter (λ (e : FilesystemEntry). observed_regular e && not e.excluded)
      (filter is_regular entries)

-- The known storage units are the groups of the entries with the same object hint, as many as are
-- counted, and every stored entry is in one of them or is counted by itself, for want of a hint.
pub record CountsUnits (entries : List FilesystemEntry) (c : CoverageSummary) : Type 0 where
  pub units : Groups
  pub is_counted : length units ≡ c.known_storage_unit_count
  pub none_empty : NoneEmpty units
  pub holds :
      (hint : ObjectHint)
      → group_at hint units ≡ filter (has_group_key object_hint hint) (stored_entries entries)
  pub is_whole :
      members_of units + c.unknown_storage_unit_membership_count ≡ length (stored_entries entries)
  pub by_itself :
      c.unknown_storage_unit_membership_count ≡ count_if lacks_hint (stored_entries entries)

-- The regular files, the unknown ones and the storage units, each against the counts of its parts.
pub AddsUp : List FilesystemEntry → CoverageSummary → PhysicalStorageSummary → Type 0
AddsUp entries c p =
    (c.total_entry_count ≡ length entries)
    × (c.total_regular_entry_count ≡ count_if is_regular entries)
    × (c.payload_analyzable_regular_entry_count + c.payload_unknown_regular_entry_count
        ≡ c.total_regular_entry_count)
    × (sum_map count_of c.payload_status_counts ≡ c.total_regular_entry_count)
    × (sum_map count_of c.payload_unknown_reason_counts ≡ c.payload_unknown_regular_entry_count)
    × CountsUnits entries c
    × (p.allocated_size_known_unit_count + p.allocated_size_unknown_unit_count
        ≡ c.known_storage_unit_count + c.unknown_storage_unit_membership_count)

length-filter_count :
    {A : Type 0} (p : A → Bool) (xs : List A) → length (filter p xs) ≡ count_if p xs
length-filter_count p [] = refl
length-filter_count p (x ∷ xs) = ground (arith, length-filter_count p xs)

lacks_hint-keyless : (o : Option ObjectHint) → is_keyless o ≡ not (is_some o)
lacks_hint-keyless none = refl
lacks_hint-keyless (some hint) = refl

coverage-AddsUp :
    (reused : Bool) (entries : List FilesystemEntry) (aliases : List HardLinkAliasSet)
    (conflicted : List ObjectHint)
    → let units = group_by object_hint (stored_entries entries) in
      let unknown = count_if lacks_hint (stored_entries entries) in
      AddsUp entries
        (coverage_of reused entries aliases units unknown)
        (physical_summary (unit_allocations conflicted units ++ repeat_none unknown))
unfolding AddsUp coverage_of physical_summary
coverage-AddsUp reused entries aliases conflicted =
    let stored = stored_entries entries in
    let units = group_by object_hint stored in
    let unknown = count_if lacks_hint stored in
    let regular = filter is_regular entries in
    let unknowns = filter (λ e. not (is_analyzable reused e)) regular in
    let allocations = unit_allocations conflicted units ++ repeat_none unknown in
    let parts = length-filter-not (is_analyzable reused) regular in
    (
      refl,
      length-filter_count is_regular entries,
      omega (arith, parts),
      sum-code_counts (map payload_status regular) ∙ length-map payload_status regular,
      omega (
        arith,
        parts,
        sum-code_counts (map (unknown_reason reused) unknowns),
        length-map (unknown_reason reused) unknowns,
      ),
      record {
        units = units;
        is_counted = refl;
        none_empty = group_by-NoneEmpty object_hint stored;
        holds = λ hint. group_at-group_by object_hint hint stored;
        is_whole = omega (
          arith,
          members-group_by object_hint stored,
          count_if_ext (λ e. is_keyless (object_hint e)) lacks_hint stored
              (λ e. lacks_hint-keyless (object_hint e)),
        );
        by_itself = refl;
      },
      omega (
        arith,
        count-some_none allocations,
        length-append (unit_allocations conflicted units) (repeat_none unknown),
        length-unit_allocations conflicted units,
        length-repeat_none unknown,
      ),
    )

-- In every analysis that is computed, all entries and the regular ones are counted; the analysable and
-- the unknown regular files are all regular files; the payload statuses are counted once for each of
-- them, the reasons once for each unknown one. The known storage units are the groups of the observed
-- regular entries, the excluded ones left out, that share an object hint; each other of these
-- entries, having no hint, is counted as a unit of its own; and the units with known and with unknown
-- allocation are all these units.
pub analysis-AddsUp :
    (hash : Document → Text) (reused : Bool) (snapshot : FilesystemSnapshot)
    (r : DuplicateAnalysisResult)
    → compute_snapshot_duplicate_analysis hash reused snapshot ≡ ok r
    → AddsUp snapshot.entries r.coverage r.physical_storage
unfolding compute_snapshot_duplicate_analysis analyse analysis_result
analysis-AddsUp hash reused snapshot r h =
    let (_, _, same) = >>=-ok (entry_maps snapshot.snapshot_id [] snapshot.entries) _ h in
    subst (λ (q : DuplicateAnalysisResult). AddsUp snapshot.entries q.coverage q.physical_storage)
      (ok-injective same) (coverage-AddsUp reused snapshot.entries _ _)
