-- ===== src/Duplicates/Payload.antt =====
-- duplicate_analysis.py: the payload key of an entry, and why an entry has none.
use steward_public.Base.{
  Bool, not, ◌&&◌, ◌||◌, Option, none, some, ◌++◌, ◌==◌, ◌!=◌, nat_eq, list_eq, option_eq, pair_eq,
  if◌then◌else◌,
}
use steward_public.Base.Int.{ℤ, pos, int_eq}
use steward_public.Base.Text.{Text, text}
use steward_public.Models.Status.{
  regular_file, object_type_eq, observed, observation_status_eq, observation_status_upper,
  reused_from_verified_snapshot, provenance_eq, payload_status_eq, payload_status_value,
}
use steward_public.Models.Entry.{FilesystemEntry, VersionTwoFacts, PayloadObservation}
use steward_public.Relations.Payload.{is_hashed, is_sha256, is_trusted}

-- algorithm, version, digest and size
abbrev pub PayloadKey : Type 0
PayloadKey = Text × (ℤ × (Text × ℤ))

unfoldable pub sha256_name : Text
sha256_name = text "sha256"

abbrev pub observed_regular : FilesystemEntry → Bool
observed_regular entry = entry.object_type == regular_file && entry.observation_status == observed

-- the digest and the size, where both are there and the digest is one
abbrev key_of : Bool → Option ℤ → Option Text → Option ℤ → Option PayloadKey
key_of trusted bytes_hashed (some digest) (some size) =
    if is_sha256 digest && (bytes_hashed == some size && trusted)
    then some (sha256_name, (pos 1, (digest, size)))
    else none
key_of trusted bytes_hashed _ _ = none

abbrev key_of_payload : Bool → Option ℤ → PayloadObservation → Option PayloadKey
key_of_payload reused size payload =
    if not (is_hashed payload)
    then none
    else if payload.algorithm != some sha256_name || payload.algorithm_version != some (pos 1)
    then none
    else key_of (is_trusted reused payload) payload.bytes_hashed payload.digest size

abbrev key_of_facts : Bool → Option ℤ → Option VersionTwoFacts → Option PayloadKey
key_of_facts reused size none = none
key_of_facts reused size (some facts) = key_of_payload reused size facts.payload_observation

-- `_payload_key`; the first argument is `reused_payloads_verified`
unfoldable pub payload_key : Bool → FilesystemEntry → Option PayloadKey
payload_key reused entry =
    if not (observed_regular entry) || entry.excluded
    then none
    else key_of_facts reused entry.size_bytes entry.version_two

abbrev reason_of_payload : PayloadObservation → Option Text → Text
reason_of_payload payload (some failure_code) = failure_code
reason_of_payload payload none =
    if is_hashed payload
    then text "MALFORMED_PAYLOAD_OBSERVATION"
    else payload_status_value payload.status

abbrev reason_of_facts : Bool → FilesystemEntry → Option VersionTwoFacts → Text
reason_of_facts reused entry none = text "V1_PAYLOAD_UNAVAILABLE"
reason_of_facts reused entry (some facts) =
    let payload = facts.payload_observation in
    if entry.excluded
    then text "ENTRY_EXCLUDED"
    else if entry.observation_status != observed
    then text "METADATA_" ++ observation_status_upper entry.observation_status
    else if is_hashed payload
        && (payload.provenance == some reused_from_verified_snapshot && not reused)
    then text "SOURCE_INVALID_REUSED"
    else reason_of_payload payload payload.failure_code

unfoldable pub unknown_reason : Bool → FilesystemEntry → Text
unknown_reason reused entry = reason_of_facts reused entry entry.version_two

abbrev status_of_facts : Option VersionTwoFacts → Text
status_of_facts none = text "V1_PAYLOAD_UNAVAILABLE"
status_of_facts (some facts) = payload_status_value facts.payload_observation.status

-- the code that `payload_statuses` counts
unfoldable pub payload_status : FilesystemEntry → Text
payload_status entry = status_of_facts entry.version_two

abbrev allocation_of_facts : Option VersionTwoFacts → Option ℤ
allocation_of_facts none = none
allocation_of_facts (some facts) = facts.allocated_size_bytes

abbrev pub allocation_of : FilesystemEntry → Option ℤ
allocation_of entry = allocation_of_facts entry.version_two
