-- ===== src/Hashing/Chunks.antt =====
-- The parts of `observe_direct_payloads` of payload_hashing.py below its loop over the entries.
use steward_public.Base.{
  ℕ, zero, suc, ◌+◌, Bool, false, ◌||◌, ◌&&◌, Option, none, some, List, [], ◌∷◌, ◌++◌, ◌==◌, nat_eq,
  list_eq, pair_eq, option_eq, if◌then◌else◌, Result, ok, err, length,
}
use steward_public.Base.Dict
use steward_public.Base.Int.{ℤ, pos, pos_part, int_eq, ltb_ℤ, ◌-ℤ◌}
use steward_public.Base.Order.{nat_order, list_order, pair_order}
use steward_public.Base.Text.{Text, text, starts_with}
use steward_public.Models.Status.{
  object_type_eq, observation_status_eq, PayloadObservationStatus, hashed, empty_file_hashed,
  direct_read,
}
use steward_public.Models.Entry.{FilesystemEntry, PayloadObservation, PayloadHashPolicy}
use steward_public.Models.Config.{FilePath, ScopeConfig}
use steward_public.Scan.Host.{Stat}
use steward_public.Session.PathInput.{absolute_parts}
use steward_public.Hashing.{
  HashingError, unknown_scope, out_of_fuel, PayloadLocality, unknown_locality, ReadError,
  file_not_found, permission_error, other_error, Descriptor, Host, Limits,
}

-- `_failure`
unfoldable pub failure : PayloadObservationStatus → Option Text → Option ℤ → PayloadObservation
failure status failure_code os_error_code = record {
  status = status;
  algorithm = none;
  algorithm_version = none;
  digest = none;
  bytes_hashed = none;
  provenance = none;
  reused_from_snapshot_id = none;
  failure_code = failure_code;
  os_error_code = os_error_code;
}

abbrev pub plain : PayloadObservationStatus → PayloadObservation
plain status = failure status none none

abbrev pub unsupported : Text → PayloadObservation
unsupported failure_code = failure PayloadObservationStatus.unsupported (some failure_code) none

-- `_success`; the policy's algorithm is SHA-256, version 1, where the policy was accepted
unfoldable pub success : PayloadHashPolicy → Text → ℕ → PayloadObservation
success policy digest size = record {
  status = if size == 0 then empty_file_hashed else hashed;
  algorithm = some policy.algorithm;
  algorithm_version = some policy.algorithm_version;
  digest = some digest;
  bytes_hashed = some (pos size);
  provenance = some direct_read;
  reused_from_snapshot_id = none;
  failure_code = none;
  os_error_code = none;
}

-- `_path_for`, below the root of the entry's scope
unfoldable pub path_below : FilePath → Text → FilePath
path_below root relative_path =
    if relative_path == text "."
    then root
    else if starts_with relative_path (text "/")
    then absolute_parts relative_path
    else root ++ absolute_parts relative_path

-- `{scope.scope_id: scope.normalized_path for scope in scopes}`
unfoldable pub roots_onto : Dict.Dict Text FilePath → List ScopeConfig → Dict.Dict Text FilePath
roots_onto roots [] = roots
roots_onto roots (scope ∷ rest) =
    roots_onto (Dict.insert scope.scope_id scope.normalized_path roots) rest

unfoldable pub path_for : Dict.Dict Text FilePath → FilesystemEntry → Result HashingError FilePath
path_for roots entry = elim (Dict.lookup entry.scope_id roots) [
  | none ↦ err unknown_scope
  | some root ↦ ok (path_below root entry.relative_path)
]

abbrev pub Identity : Type 0
Identity = ℤ × (ℤ × (ℤ × (ℤ × ℤ)))

-- `_stat_identity`
unfoldable pub stat_identity : Stat → Identity
stat_identity st = (st.st_dev, (st.st_ino, (st.st_size, (st.st_mtime_ns, st.st_ctime_ns))))

-- `_entry_matches_stat`
unfoldable pub entry_matches_stat : FilesystemEntry → Stat → Bool
entry_matches_stat entry st =
    entry.device_id == some st.st_dev
    && (entry.inode == some st.st_ino
        && (entry.size_bytes == some st.st_size
            && (entry.mtime_ns == some st.st_mtime_ns && entry.ctime_ns == some st.st_ctime_ns)))

-- `_v2_entry`
unfoldable pub v2_entry : FilesystemEntry → PayloadObservation → FilesystemEntry
v2_entry entry observation = record entry {
  version_two = some (record { allocated_size_bytes = none; payload_observation = observation });
}

-- the number of moments, and `actual_bytes_read[0]`
pub record Usage : Type 0 where
  pub looks : ℕ
  pub actual_bytes_read : ℕ

abbrev pub looked : Usage → Usage
looked usage = record usage { looks = suc usage.looks }

-- the state of the loop over the chunks; `hashed_bytes` is what `hasher` was updated with
pub record Progress : Type 0 where
  pub usage : Usage
  pub read_count : ℕ
  pub hashed_bytes : List ℕ

abbrev pub tick : Progress → Progress
tick p = record p { usage = looked p.usage }

-- how the loop ends
pub data Reading : Type 0 where
  timed_out at_end over_file over_total : Reading
  failed : ReadError → Reading

-- the state after the chunk was counted and hashed
unfoldable pub fed : Progress → List ℕ → Progress
fed p chunk = record {
  usage = record {
    looks = suc p.usage.looks;
    actual_bytes_read = p.usage.actual_bytes_read + length chunk;
  };
  read_count = p.read_count + length chunk;
  hashed_bytes = p.hashed_bytes ++ chunk;
}

abbrev pub Outcome : Type 0
Outcome = Result HashingError (PayloadObservation × Usage)

module _ (limits : Limits) where
  abbrev pub exceeds_file : Progress → Bool
  exceeds_file p = ltb_ℤ limits.max_file_bytes (pos p.read_count)

  abbrev pub exceeds_total : Progress → Bool
  exceeds_total p = ltb_ℤ limits.max_total_bytes (pos p.usage.actual_bytes_read)

  -- the budget test after a chunk
  unfoldable pub go_on :
      Progress → Result HashingError (Reading × Progress) → Result HashingError (Reading × Progress)
  go_on p later =
      if exceeds_file p || exceeds_total p
      then ok (if exceeds_file p then over_file else over_total, p)
      else later

  module _ (host : Host) (descriptor : Descriptor) where
    -- `while True`
    unfoldable pub read_chunks : ℕ → Progress → Result HashingError (Reading × Progress)
    read_chunks zero p = err out_of_fuel
    read_chunks (suc fuel) p =
        if host.late p.usage.looks
        then ok (timed_out, tick p)
        else elim (descriptor.read (suc p.usage.looks) (pos_part limits.chunk_size)) [
          | err error ↦ ok (failed error, tick p)
          | ok [] ↦ ok (at_end, tick p)
          | ok (byte ∷ rest) ↦
              let next = fed p (byte ∷ rest) in
              let later = read_chunks fuel next in go_on next later
        ]

-- the answer to `os.lstat(path)` after the reading, FileNotFoundError being none
unfoldable pub path_after : Result ReadError Stat → Result ReadError (Option Stat)
path_after (ok st) = ok (some st)
path_after (err (file_not_found errno)) = ok none
path_after (err (permission_error errno)) = err (permission_error errno)
path_after (err (other_error errno)) = err (other_error errno)

abbrev pub is_unchanged : ℕ → Stat → Stat → Option Stat → Bool
is_unchanged read_count before after none = false
is_unchanged read_count before after (some at_path) =
    pos read_count == before.st_size
    && (stat_identity before == stat_identity after
        && stat_identity before == stat_identity at_path)

-- the bytes that may still be read
unfoldable pub room : Limits → Usage → ℤ
room limits usage = limits.max_total_bytes -ℤ pos usage.actual_bytes_read

abbrev pub locality_of : Option PayloadLocality → PayloadLocality
locality_of none = unknown_locality
locality_of (some locality) = locality
