-- ===== src/Hashing/Bounds.antt =====
-- The direct reader ends, and the bytes that it reads.
use steward_public.Base.{
  ℕ, suc, ◌+◌, ◌≤◌, ◌≡◌, refl, false, not, Option, none, some, List, [], ◌∷◌, ◌!=◌, if◌then◌else◌,
  if_rule, list_eq, nat_eq, arith, Result, ok, err, ◌>>=◌, All,
}
use steward_public.Base.Dict
use steward_public.Base.Int.{ℤ, pos, pos_part, neg_part, -ℤ_parts, ltb_ℤ}
use steward_public.Base.Order.{nat_order, list_order, pair_order}
use steward_public.Base.Sort.{sort_on, sort_on-All}
use steward_public.Base.Text.{Text, text}
use steward_public.Models.Status.{regular_file, object_type_eq, observed, observation_status_eq}
use steward_public.Models.Entry.{FilesystemEntry, PayloadObservation, PayloadHashPolicy}
use steward_public.Models.Config.{FilePath, ScopeConfig}
use steward_public.Scan.Host.{Stat, is_regular_mode}
use steward_public.Diff.{location_key, location_sort_key}
use steward_public.Hashing.{
  HashingError, ReadError, Descriptor, Host, Limits, PayloadLocality, local, non_local,
  unknown_locality, validate_payload_hash_policy,
}
use steward_public.Hashing.Chunks.{
  Usage, Progress, Reading, Outcome, unsupported, path_below, roots_onto, path_for,
  entry_matches_stat, v2_entry, looked, read_chunks, room, locality_of,
}
use steward_public.Hashing.Direct.{
  concluded, read_file, observe_opened, observe_file, observe_located, observe_sized, observe_entry,
  observe_entries, observe_direct_payloads,
}
use steward_public.Hashing.Budget.{
  IsPosix, IsKnown, path_for-known, total, chunk_size, Read, read_chunks-Read,
}

abbrev start : Usage → Progress
start usage = record { usage = usage; read_count = 0; hashed_bytes = [] }

module _ (host : Host) (sha256 : List ℕ → Text) (policy : PayloadHashPolicy) (limits : Limits)
    (posix : IsPosix host) where
  -- An observation was made, and the bytes read so far stay in the bound.
  abbrev pub Stays : Outcome → Type 0
  Stays (err e) = ⊥
  Stays (ok r) = r.1.actual_bytes_read ≤ total host limits + chunk_size host limits

  abbrev Within : Usage → Type 0
  Within usage = usage.actual_bytes_read ≤ total host limits + chunk_size host limits

  read_file-Stays :
      (path : FilePath) (descriptor : Descriptor) (before : Stat) (usage : Usage) (n : ℕ)
      → host.open_file n path ≡ ok descriptor
      → usage.actual_bytes_read ≤ total host limits
      → Stays (read_file host sha256 policy limits path descriptor before usage)
  unfolding read_file
  read_file-Stays path descriptor before usage n opened within =
      closes
        (read_chunks limits host descriptor (suc (pos_part limits.max_file_bytes)) (start usage))
        (read_chunks-Read host limits descriptor
          (λ m size chunk. posix.reads n path descriptor m size chunk opened)
          (suc (pos_part limits.max_file_bytes)) (start usage) (omega arith) (omega arith) within)
    where
      closes :
          (reading : Result HashingError (Reading × Progress))
          → Read host limits reading
          → Stays (
              reading >>= λ (ended : Reading × Progress). ok (
                concluded host sha256 policy limits path descriptor before ended.0 ended.1,
                ended.1.usage,
              ))
      closes (err e) read = read
      closes (ok ended) read = read

  -- The budget has room for a file of a size that is not negative: the bytes read are below the total.
  has_room :
      (usage : Usage) (size : ℤ)
      → neg_part size ≡ 0
      → ltb_ℤ (room limits usage) size ≡ false
      → usage.actual_bytes_read ≤ total host limits
  unfolding room
  has_room usage size natural fits =
      let parts = -ℤ_parts limits.max_total_bytes (pos usage.actual_bytes_read) in
      ground (arith, parts)

  observe_opened-Stays :
      (entry : FilesystemEntry) (path : FilePath) (usage : Usage) (descriptor : Descriptor)
      (n m : ℕ) (answer : Result ReadError Stat)
      → host.open_file n path ≡ ok descriptor
      → descriptor.fstat m ≡ answer
      → Within usage
      → Stays (observe_opened host sha256 policy limits entry path usage descriptor answer)
  unfolding observe_opened
  observe_opened-Stays entry path usage descriptor n m (err error) opened stat within = within
  observe_opened-Stays entry path usage descriptor n m (ok before) opened stat within =
      if_rule Stays (not (is_regular_mode before.st_mode)) _ _ (λ _. within)
        (λ _.
          if_rule Stays (not (entry_matches_stat entry before)) _ _ (λ _. within)
            (λ _.
              if_rule Stays (ltb_ℤ limits.max_file_bytes before.st_size) _ _ (λ _. within)
                (λ _.
                  if_rule Stays (ltb_ℤ (room limits usage) before.st_size) _ _ (λ _. within)
                    (λ fits. read_file-Stays path descriptor before usage n opened (
                      has_room usage before.st_size
                        (posix.sizes n path descriptor m before opened stat) fits)))))

  observe_file-Stays :
      (entry : FilesystemEntry) (path : FilePath) (usage : Usage) (n : ℕ)
      (answer : Result ReadError Descriptor)
      → host.open_file n path ≡ answer
      → Within usage
      → Stays (observe_file host sha256 policy limits entry path usage answer)
  unfolding observe_file
  observe_file-Stays entry path usage n (err error) opened within = within
  observe_file-Stays entry path usage n (ok descriptor) opened within =
      observe_opened-Stays entry path usage descriptor n usage.looks (descriptor.fstat usage.looks)
        opened refl within

  observe_located-Stays :
      (entry : FilesystemEntry) (path : FilePath) (usage : Usage) (locality : PayloadLocality)
      → Within usage
      → Stays (observe_located host sha256 policy limits entry path usage locality)
  unfolding observe_located
  observe_located-Stays entry path usage non_local within = within
  observe_located-Stays entry path usage unknown_locality within = within
  observe_located-Stays entry path usage local within =
      if_rule Stays (not host.has_nofollow) _ _ (λ _. within)
        (λ _.
          observe_file-Stays entry path usage usage.looks (host.open_file usage.looks path) refl
            within)

  observe_sized-Stays :
      (roots : Dict.Dict Text FilePath) (entry : FilesystemEntry) (size : ℤ) (usage : Usage)
      (root : FilePath)
      → Dict.lookup entry.scope_id roots ≡ some root
      → Within usage
      → Stays (observe_sized host sha256 policy limits roots entry size usage)
  unfolding observe_sized
  observe_sized-Stays roots entry size usage root known within =
      if_rule Stays (host.late usage.looks) _ _ (λ _. within)
        (λ _.
          if_rule Stays (ltb_ℤ limits.max_file_bytes size) _ _ (λ _. within)
            (λ _.
              if_rule Stays (ltb_ℤ (room limits (looked usage)) size) _ _ (λ _. within)
                (λ _. located (path_for roots entry) (path_for-known roots entry root known))))
    where
      located :
          (path : Result HashingError FilePath)
          → path ≡ ok (path_below root entry.relative_path)
          → Stays (
              path >>= λ path.
              observe_located host sha256 policy limits entry path
                (looked usage)
                (locality_of (host.locality (suc usage.looks) path)))
      located (err e) h = cc
      located (ok path) h = observe_located-Stays entry path (looked usage) _ within

  pub observe_entry-Stays :
      (roots : Dict.Dict Text FilePath) (entry : FilesystemEntry) (usage : Usage)
      → IsKnown roots entry
      → Within usage
      → Stays (observe_entry host sha256 policy limits roots entry usage)
  unfolding observe_entry
  observe_entry-Stays roots entry usage (root, known) within =
      if_rule Stays (entry.object_type != regular_file) _ _ (λ _. within)
        (λ _. if_rule Stays entry.excluded _ _ (λ _. within) (λ _. sized entry.size_bytes))
    where
      sized :
          (size : Option ℤ)
          → Stays (elim size [
            | none ↦ ok (unsupported (text "METADATA_UNAVAILABLE"), usage)
            | some size ↦
                if entry.observation_status != observed
                then ok (unsupported (text "METADATA_UNAVAILABLE"), usage)
                else observe_sized host sha256 policy limits roots entry size usage
          ])
      sized none = within
      sized (some size) =
          if_rule Stays (entry.observation_status != observed) _ _ (λ _. within)
            (λ _. observe_sized-Stays roots entry size usage root known within)

  -- The loop returns, and stays in the bound.
  abbrev Ends : Result HashingError (List FilesystemEntry × Usage) → Type 0
  Ends r = (o : List FilesystemEntry × Usage) × (r ≡ ok o) × Within o.1

  observe_entries-Ends :
      (roots : Dict.Dict Text FilePath) (entries : List FilesystemEntry) (usage : Usage)
      → All (IsKnown roots) entries
      → Within usage
      → Ends (observe_entries host sha256 policy limits roots entries usage)
  unfolding observe_entries
  observe_entries-Ends roots [] usage known within = (([], usage), refl, within)
  observe_entries-Ends roots (entry ∷ rest) usage (first, known) within =
      next (observe_entry host sha256 policy limits roots entry usage)
        (observe_entry-Stays roots entry usage first within)
        (λ u w. observe_entries-Ends roots rest u known w)
    where
      next :
          (outcome : Outcome)
          → Stays outcome
          → ((u : Usage) → Within u → Ends (observe_entries host sha256 policy limits roots rest u))
          → Ends (
              outcome >>= λ (first : PayloadObservation × Usage).
              observe_entries host sha256 policy limits roots rest first.1
              >>= λ (later : List FilesystemEntry × Usage).
                  ok (v2_entry entry first.0 ∷ later.0, later.1))
      next (err e) stays go = absurd stays
      next (ok first) stays go =
          let (later, e, within) = go first.1 stays in
          ((v2_entry entry first.0 ∷ later.0, later.1), rw e refl, within)

-- With a policy that is accepted and a configured scope for each entry, the direct reader returns. On a
-- host whose reads return no more than was asked for and whose files have no negative size, the bytes
-- read are at most the total that the policy allows and one chunk more.
pub observe_direct_payloads-Ends :
    (host : Host) (sha256 : List ℕ → Text) (entries : List FilesystemEntry)
    (scopes : List ScopeConfig) (policy : PayloadHashPolicy) (usage : Usage) (limits : Limits)
    → IsPosix host
    → validate_payload_hash_policy policy ≡ ok limits
    → All (IsKnown (roots_onto [] scopes)) entries
    → usage.actual_bytes_read ≤ pos_part limits.max_total_bytes + pos_part limits.chunk_size
    → (observed_entries : List FilesystemEntry) × (u : Usage) × (observe_direct_payloads host sha256
          entries scopes policy usage
        ≡ ok (observed_entries, u))
      × (u.actual_bytes_read ≤ pos_part limits.max_total_bytes + pos_part limits.chunk_size)
unfolding observe_direct_payloads
observe_direct_payloads-Ends host sha256 entries scopes policy usage limits posix valid known
      within =
    let (o, e, bound) =
      observe_entries-Ends host sha256 policy limits posix (roots_onto [] scopes)
        (sort_on (λ e. location_sort_key (location_key e)) entries) usage
        (sort_on-All (λ e. location_sort_key (location_key e)) (IsKnown (roots_onto [] scopes))
          entries known)
        within in
    (o.0, o.1, rw valid e, bound)
