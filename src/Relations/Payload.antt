-- ===== src/Relations/Payload.antt =====
-- snapshot_relations.py: which payload digests count, and which entries may have moved.
use steward_public.Base.{
  ℕ, Bool, true, false, not, ◌&&◌, ◌||◌, Option, none, some, [], ◌∷◌, ◌==◌, ◌!=◌, nat_eq, list_eq,
  option_eq, if◌then◌else◌, contains, any, length, pair_eq,
}
use steward_public.Base.Int.{ℤ, pos, int_eq}
use steward_public.Base.Text.{Text, text}
use steward_public.Models.Status.{
  hashed, empty_file_hashed, payload_status_eq, direct_read, reused_from_verified_snapshot,
  provenance_eq, observed, observation_status_eq, regular_file, object_type_eq,
}
use steward_public.Models.Entry.{FilesystemEntry, PayloadObservation, VersionTwoFacts}

abbrev pub is_some {ℓ} : {A : Type ℓ} → Option A → Bool
is_some none = false
is_some (some _) = true

-- `character in "0123456789abcdef"`
abbrev pub is_hex : ℕ → Bool
is_hex c = contains (text "0123456789abcdef") c

abbrev pub is_sha256 : Text → Bool
is_sha256 digest = length digest == 64 && not (any (λ c. not (is_hex c)) digest)

abbrev pub is_hashed : PayloadObservation → Bool
is_hashed payload = contains (hashed ∷ empty_file_hashed ∷ []) payload.status

-- the last two tests of `_successful_payload_digest`
unfoldable pub is_trusted : Bool → PayloadObservation → Bool
is_trusted reused_payloads_verified payload =
    payload.provenance == some direct_read
    || ((payload.provenance == some reused_from_verified_snapshot && reused_payloads_verified)
        && is_some payload.reused_from_snapshot_id)

abbrev digest_if : Bool → Option Text → Option Text
digest_if trusted none = none
digest_if trusted (some digest) = if trusted && is_sha256 digest then some digest else none

unfoldable pub payload_digest : Bool → Option ℤ → PayloadObservation → Option Text
payload_digest reused_payloads_verified size_bytes payload =
    if not (is_hashed payload)
    then none
    else if payload.algorithm != some (text "sha256") || payload.algorithm_version != some (pos 1)
    then none
    else digest_if
        (payload.bytes_hashed == size_bytes && is_trusted reused_payloads_verified payload)
        payload.digest

abbrev digest_of_facts : Bool → Option ℤ → Option VersionTwoFacts → Option Text
digest_of_facts reused_payloads_verified size_bytes none = none
digest_of_facts reused_payloads_verified size_bytes (some facts) =
    payload_digest reused_payloads_verified size_bytes facts.payload_observation

unfoldable pub successful_payload_digest : Bool → FilesystemEntry → Option Text
successful_payload_digest reused_payloads_verified entry =
    digest_of_facts reused_payloads_verified entry.size_bytes entry.version_two

abbrev both_differ : Option ℤ → Option ℤ → Bool
both_differ (some a) (some b) = a != b
both_differ _ _ = false

unfoldable pub object_hint_equal : FilesystemEntry → FilesystemEntry → Bool
object_hint_equal base target =
    if not (is_some base.device_id && is_some base.inode)
    then false
    else if not (is_some target.device_id && is_some target.inode)
    then false
    else if base.device_id != target.device_id || base.inode != target.inode
    then false
    else not (both_differ base.birthtime_ns target.birthtime_ns)

abbrev pub ObjectHint : Type 0
ObjectHint = ℤ × ℤ

abbrev pub pair_of : Option ℤ → Option ℤ → Option ObjectHint
pair_of (some a) (some b) = some (a, b)
pair_of _ _ = none

-- the key of `base_aliases` and `target_aliases`
unfoldable pub object_hint : FilesystemEntry → Option ObjectHint
object_hint entry = pair_of entry.device_id entry.inode

abbrev pub TransitionKey : Type 0
TransitionKey = ℤ × (ℤ × ℤ)

abbrev pub triple_of : Option ℤ → Option ℤ → Option ℤ → Option TransitionKey
triple_of (some a) (some b) (some c) = some (a, (b, c))
triple_of _ _ _ = none

unfoldable pub transition_eligible : FilesystemEntry → Bool
transition_eligible entry =
    (entry.object_type == regular_file && entry.observation_status == observed)
    && (not entry.excluded
        && (is_some entry.device_id && (is_some entry.inode && is_some entry.birthtime_ns)))

-- `_transition_key(entry)`, of an eligible entry only
unfoldable pub transition_key : FilesystemEntry → Option TransitionKey
transition_key entry =
    if transition_eligible entry
    then triple_of entry.device_id entry.inode entry.birthtime_ns
    else none
