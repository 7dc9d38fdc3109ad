-- ===== src/Hashing/Direct.antt =====
-- `observe_direct_payloads` of payload_hashing.py. `sha256` is the argument for the digest of the bytes
-- that were read. That a descriptor is closed at the end is left out.
use steward_public.Base.{
  ℕ, suc, not, ◌||◌, none, some, List, [], ◌∷◌, ◌==◌, ◌!=◌, nat_eq, list_eq, pair_eq, option_eq,
  if◌then◌else◌, Result, ok, err, ◌>>=◌,
}
use steward_public.Base.Dict
use steward_public.Base.Int.{ℤ, pos, pos_part, int_eq, ltb_ℤ}
use steward_public.Base.Order.{nat_order, list_order, pair_order}
use steward_public.Base.Sort.{sort_on}
use steward_public.Base.Text.{Text, text}
use steward_public.Models.Status.{
  regular_file, object_type_eq, observed, observation_status_eq, PayloadObservationStatus,
  not_regular_file, not_local, file_too_large, total_byte_budget_exhausted, time_budget_exhausted,
  changed_during_read, not_found_during_read,
}
use steward_public.Models.Entry.{FilesystemEntry, PayloadObservation, PayloadHashPolicy}
use steward_public.Models.Config.{FilePath, ScopeConfig}
use steward_public.Scan.Host.{Stat, is_regular_mode}
use steward_public.Diff.{location_key, location_sort_key}
use steward_public.Hashing.{
  HashingError, PayloadLocality, local, non_local, unknown_locality, ReadError, file_not_found,
  permission_error, other_error, Descriptor, Host, Limits, validate_payload_hash_policy,
}
use steward_public.Hashing.Chunks.{
  timed_out, at_end, over_file, over_total, failed, failure, plain, unsupported, success,
  roots_onto, path_for, entry_matches_stat, v2_entry, Usage, looked, Progress, Reading, Outcome,
  read_chunks, path_after, is_unchanged, room, locality_of,
}

module _ (host : Host) where
  unfoldable pub failure_of : ReadError → PayloadObservation
  failure_of (file_not_found errno) = failure not_found_during_read none (some (pos errno))
  failure_of (permission_error errno) =
      failure PayloadObservationStatus.permission_denied none (some (pos errno))
  failure_of (other_error errno) =
      failure
        (if errno == host.eloop || errno == 2
          then not_found_during_read
          else PayloadObservationStatus.io_error)
        none (some (pos errno))

  module _ (sha256 : List ℕ → Text) (policy : PayloadHashPolicy) (limits : Limits) where
    -- the tests after the last chunk
    unfoldable pub compared :
        Stat → Progress → Result ReadError Stat → Result ReadError Stat → PayloadObservation
    unfolding path_after
    compared before p (err error) at_path = failure_of error
    compared before p (ok after) at_path = elim (path_after at_path) [
      | err error ↦ failure_of error
      | ok found ↦
          if is_unchanged p.read_count before after found
          then success policy (sha256 p.hashed_bytes) p.read_count
          else plain changed_during_read
    ]

    unfoldable pub concluded :
        FilePath → Descriptor → Stat → Reading → Progress → PayloadObservation
    unfolding compared
    concluded path descriptor before timed_out p = plain time_budget_exhausted
    concluded path descriptor before at_end p =
        compared before p (descriptor.fstat p.usage.looks) (host.lstat p.usage.looks path)
    concluded path descriptor before over_file p = plain file_too_large
    concluded path descriptor before over_total p = plain total_byte_budget_exhausted
    concluded path descriptor before (failed error) p = failure_of error

    unfoldable pub read_file : FilePath → Descriptor → Stat → Usage → Outcome
    read_file path descriptor before usage =
        read_chunks limits host descriptor (suc (pos_part limits.max_file_bytes))
          (record { usage = usage; read_count = 0; hashed_bytes = [] })
        >>= λ (ended : Reading × Progress).
            ok (concluded path descriptor before ended.0 ended.1, ended.1.usage)

    -- the tests of the open file
    unfoldable pub observe_opened :
        FilesystemEntry → FilePath → Usage → Descriptor → Result ReadError Stat → Outcome
    observe_opened entry path usage descriptor (err error) = ok (failure_of error, usage)
    observe_opened entry path usage descriptor (ok before) =
        if not (is_regular_mode before.st_mode)
        then ok (plain not_regular_file, usage)
        else if not (entry_matches_stat entry before)
        then ok (plain changed_during_read, usage)
        else if ltb_ℤ limits.max_file_bytes before.st_size
        then ok (plain file_too_large, usage)
        else if ltb_ℤ (room limits usage) before.st_size
        then ok (plain total_byte_budget_exhausted, usage)
        else read_file path descriptor before usage

    unfoldable pub observe_file :
        FilesystemEntry → FilePath → Usage → Result ReadError Descriptor → Outcome
    unfolding observe_opened
    observe_file entry path usage (err error) = ok (failure_of error, usage)
    observe_file entry path usage (ok descriptor) =
        observe_opened entry path usage descriptor (descriptor.fstat usage.looks)

    unfoldable pub observe_located : FilesystemEntry → FilePath → Usage → PayloadLocality → Outcome
    observe_located entry path usage non_local = ok (plain not_local, usage)
    observe_located entry path usage unknown_locality =
        ok (unsupported (text "LOCALITY_UNKNOWN"), usage)
    observe_located entry path usage local =
        if not host.has_nofollow
        then ok (unsupported (text "NO_NOFOLLOW"), usage)
        else observe_file entry path usage (host.open_file usage.looks path)

    -- the tests of a regular entry of a known size
    unfoldable pub observe_sized : Dict.Dict Text FilePath → FilesystemEntry → ℤ → Usage → Outcome
    observe_sized roots entry size usage =
        if host.late usage.looks
        then ok (plain time_budget_exhausted, looked usage)
        else if ltb_ℤ limits.max_file_bytes size
        then ok (plain file_too_large, looked usage)
        else if ltb_ℤ (room limits (looked usage)) size
        then ok (plain total_byte_budget_exhausted, looked usage)
        else path_for roots entry >>= λ path.
            observe_located entry path (looked usage)
              (locality_of (host.locality (suc usage.looks) path))

    -- the body of the loop over the entries
    unfoldable pub observe_entry : Dict.Dict Text FilePath → FilesystemEntry → Usage → Outcome
    observe_entry roots entry usage =
        if entry.object_type != regular_file
        then ok (plain not_regular_file, usage)
        else if entry.excluded
        then ok (unsupported (text "ENTRY_EXCLUDED"), usage)
        else elim entry.size_bytes [
          | none ↦ ok (unsupported (text "METADATA_UNAVAILABLE"), usage)
          | some size ↦
              if entry.observation_status != observed
              then ok (unsupported (text "METADATA_UNAVAILABLE"), usage)
              else observe_sized roots entry size usage
        ]

    unfoldable pub observe_entries :
        Dict.Dict Text FilePath
        → List FilesystemEntry
        → Usage
        → Result HashingError (List FilesystemEntry × Usage)
    observe_entries roots [] usage = ok ([], usage)
    observe_entries roots (entry ∷ rest) usage =
        observe_entry roots entry usage >>= λ (first : PayloadObservation × Usage).
        observe_entries roots rest first.1 >>= λ (later : List FilesystemEntry × Usage).
        ok (v2_entry entry first.0 ∷ later.0, later.1)

  unfoldable pub observe_direct_payloads :
      (List ℕ → Text)
      → List FilesystemEntry
      → List ScopeConfig
      → PayloadHashPolicy
      → Usage
      → Result HashingError (List FilesystemEntry × Usage)
  observe_direct_payloads sha256 entries scopes policy usage =
      validate_payload_hash_policy policy >>= λ limits.
      observe_entries sha256 policy limits (roots_onto [] scopes)
        (sort_on (λ e. location_sort_key (location_key e)) entries) usage
