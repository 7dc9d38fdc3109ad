-- ===== src/Changes/Agreement.antt =====
-- The events of a diff and the diff's own summary.
use steward_public.Base.{
  ◌+◌, ◌≡◌, refl, sym, ap, ◌∙◌, some, List, [], ◌∷◌, ok, arith, count_if, length,
}
use steward_public.Base.Order.{nat_order, list_order, pair_order}
use steward_public.Base.Sort.{count_if-sort_on, length-sort_on}
use steward_public.Models.Entry.{FilesystemSnapshot}
use steward_public.Models.Status.{
  SnapshotDiffChangeType, added, removed, modified, unchanged, ChangeEventType, file_created,
  file_deleted, file_modified, event_type_eq, change_type_eq,
}
use steward_public.Diff.{SnapshotDiff, SnapshotDiffItem, compute_snapshot_diff, summarize, has_type}
use steward_public.Diff.Counting.{compute-parts}
use steward_public.Changes.{
  event, event_sort_key, events_of, event_type_of, is_event, change_events_from_snapshot_diff,
  summarize_change_events,
}
use steward_public.Diff.{SnapshotDiffSummary}

count-events_of :
    (kind : ChangeEventType) (change : SnapshotDiffChangeType) (items : List SnapshotDiffItem)
    → event_type_of change ≡ some kind
    → count_if (is_event kind) (events_of items) ≡ count_if (has_type change) items
unfolding events_of event event_type_eq change_type_eq
count-events_of kind change [] h = refl
count-events_of kind change (item ∷ items) h = ground (arith, count-events_of kind change items)

length-events_of :
    (items : List SnapshotDiffItem)
    → length (events_of items) + count_if (has_type unchanged) items ≡ length items
unfolding events_of event
length-events_of [] = omega arith
length-events_of (item ∷ items) = ground (arith, length-events_of items)

count-events :
    (kind : ChangeEventType) (change : SnapshotDiffChangeType) (diff : SnapshotDiff)
    → event_type_of change ≡ some kind
    → count_if (is_event kind) (change_events_from_snapshot_diff diff)
      ≡ count_if (has_type change) diff.items
unfolding change_events_from_snapshot_diff
count-events kind change diff h =
    count_if-sort_on event_sort_key (is_event kind) (events_of diff.items)
    ∙ count-events_of kind change diff.items h

summary_of_compute :
    (left right : FilesystemSnapshot) (d : SnapshotDiff)
    → compute_snapshot_diff left right ≡ ok d
    → d.summary ≡ summarize d.items
summary_of_compute left right d h =
    let (e, _, _) = compute-parts left right d h in
    ap (λ (x : SnapshotDiff). x.summary) e ∙ sym (ap (λ (x : SnapshotDiff). summarize x.items) e)

-- The events of a computed diff are as many of each kind as the diff's summary counts, and the events
-- and the unchanged items together are all items.
pub events-agree :
    (left right : FilesystemSnapshot) (d : SnapshotDiff)
    → compute_snapshot_diff left right ≡ ok d
    → let s = summarize_change_events (change_events_from_snapshot_diff d) in
      (s.created_count ≡ d.summary.added_count)
      × (s.deleted_count ≡ d.summary.removed_count)
      × (s.modified_count ≡ d.summary.modified_count)
      × (s.event_count + d.summary.unchanged_count ≡ d.summary.item_count)
unfolding summarize_change_events summarize change_events_from_snapshot_diff
events-agree left right d h =
    let e = summary_of_compute left right d h in
    (
      count-events file_created added d refl
          ∙ sym (ap (λ (x : SnapshotDiffSummary). x.added_count) e),
      count-events file_deleted removed d refl
          ∙ sym (ap (λ (x : SnapshotDiffSummary). x.removed_count) e),
      count-events file_modified modified d refl
          ∙ sym (ap (λ (x : SnapshotDiffSummary). x.modified_count) e),
      omega (
        arith,
        length-sort_on event_sort_key (events_of d.items),
        length-events_of d.items,
        ap (λ (x : SnapshotDiffSummary). x.unchanged_count) e,
        ap (λ (x : SnapshotDiffSummary). x.item_count) e,
      ),
    )
