-- ===== src/Tests/HashingExamples.antt =====
-- payload_hashing.py at one small file.

use steward_public.Base.{
  ℕ, ◌≡◌, ◌↔◌, refl, true, false, none, some, List, [], ◌∷◌, ◌==◌, nat_eq, list_eq, option_eq,
  pair_eq, if◌then◌else◌, ok, take, ℕ_discrete,
}
use steward_public.Base.Dict
use steward_public.Base.Int.{pos, int_eq, ◌-ℤ◌}
use steward_public.Base.Order.{nat_order, list_order, pair_order}
use steward_public.Base.Sort.{sort_on}
use steward_public.Base.Text.{Text, text, encode, starts_with}
use steward_public.Models.Status.{object_type_eq, observation_status_eq}
use steward_public.Models.Entry.{FilesystemEntry, PayloadHashPolicy, fraction}
use steward_public.Scan.Host.{entry_of_stat, kind}
use steward_public.Diff.{location_key, location_sort_key}
use steward_public.Session.PathInput.{absolute_parts, split_path}
use steward_public.Hashing.{
  Descriptor, Host, Limits, local, positive_int, is_day_part, check_duration,
  validate_payload_hash_policy,
}
use steward_public.Hashing.Policy.{IsFrozen, validate_payload_hash_policy_iff}
use steward_public.Hashing.Chunks.{
  failure, success, path_below, roots_onto, path_for, stat_identity, entry_matches_stat, v2_entry,
  fed, go_on, read_chunks, path_after, room,
}
use steward_public.Hashing.Direct.{
  compared, concluded, read_file, observe_opened, observe_file, observe_located, observe_sized,
  observe_entry, observe_entries, observe_direct_payloads,
}
use steward_public.Hashing.Observed.{Observed}
use steward_public.Hashing.Reuse.{Resolver, observe_payloads}
use steward_public.Hashing.Payloads.{IsFounded, observe_payloads-Observed}
use steward_public.Tests.ScanExamples.{stat_of, managed}

abbrev ten_bytes : List ℕ
ten_bytes = 1 ∷ 2 ∷ 3 ∷ 4 ∷ 5 ∷ 6 ∷ 7 ∷ 8 ∷ 9 ∷ 10 ∷ []

-- The ten bytes are read in one chunk, at the second moment.
abbrev descriptor : Descriptor
descriptor = record {
  fstat = λ n. ok (stat_of 33188);
  read = λ n size. ok (if n == 2 then take size ten_bytes else []);
}

abbrev host : Host
host = record {
  late = λ n. false;
  locality = λ n path. some local;
  open_file = λ n path. ok descriptor;
  lstat = λ n path. ok (stat_of 33188);
  has_nofollow = true;
  eloop = 40;
}

abbrev policy : PayloadHashPolicy
policy = record {
  algorithm = text "sha256";
  algorithm_version = pos 1;
  max_hash_file_bytes = some (pos 100);
  max_total_hash_bytes = some (pos 1000);
  max_hash_duration_seconds = some (fraction (pos 300) 0);
  hash_chunk_size = pos 65536;
  allow_non_local_content = false;
  allow_verified_reuse = false;
}

abbrev limits : Limits
limits = record { max_file_bytes = pos 100; max_total_bytes = pos 1000; chunk_size = pos 65536 }

validate_payload_hash_policy_iff_example :
    (validate_payload_hash_policy policy ≡ ok limits) ↔ IsFrozen policy limits
validate_payload_hash_policy_iff_example = validate_payload_hash_policy_iff policy limits

abbrev digest : List ℕ → Text
digest bytes = bytes

abbrev entry : FilesystemEntry
entry = entry_of_stat (λ key. key) (text "s") (text "m") (text "f") (stat_of 33188) false

-- The file is hashed.
hashed_file :
    observe_payloads host none digest (entry ∷ []) managed policy
    ≡ ok (
      v2_entry entry (success policy ten_bytes 10) ∷ [],
      record { looks = 3; actual_bytes_read = 10 },
    )
unfolding observe_payloads validate_payload_hash_policy list_eq nat_eq int_eq positive_int
    check_duration is_day_part observe_direct_payloads observe_entries sort_on observe_entry
    object_type_eq entry_of_stat kind observation_status_eq observe_sized room ℕ_discrete
    Dict.insert Dict.lookup option_eq pair_eq ◌-ℤ◌ list_order nat_order pair_order encode
    starts_with entry_matches_stat failure fed go_on path_after path_below path_for read_chunks
    roots_onto stat_identity success v2_entry compared concluded observe_file observe_located
    observe_opened read_file absolute_parts split_path
hashed_file = refl

observe_payloads-Observed_example :
    (found : Limits) × (validate_payload_hash_policy policy ≡ ok found)
    × Observed
        (IsFounded host none digest policy found (roots_onto [] managed))
        (sort_on (λ e. location_sort_key (location_key e)) (entry ∷ []))
        (v2_entry entry (success policy ten_bytes 10) ∷ [])
observe_payloads-Observed_example =
    observe_payloads-Observed host none digest (entry ∷ []) managed policy
      (record { looks = 3; actual_bytes_read = 10 })
      (v2_entry entry (success policy ten_bytes 10) ∷ []) hashed_file

-- A resolver that finds nothing.
abbrev absent : Resolver
absent e = ok none
