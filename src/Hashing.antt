-- ===== src/Hashing.antt =====
-- payload_hashing.py: the policy of payload hashing, and what the operating system answers to it.
use Prim.Native.Nat.{bit_and, ◌^◌}
use steward_public.Base.{
  ℕ, suc, ◌-◌, ◌*◌, Bool, true, false, not, ◌||◌, ◌&&◌, Option, none, some, List, ◌==◌, ◌!=◌,
  nat_eq, list_eq, if◌then◌else◌, Result, ok, err, ◌>>=◌, ◌>>◌, raise_if,
}
use steward_public.Base.Int.{ℤ, pos, negsuc, int_eq, ltb_ℤ, leb_ℤ}
use steward_public.Base.Text.{Text, text}
use steward_public.Models.Entry.{Number, not_finite, fraction, PayloadHashPolicy}
use steward_public.Models.Config.{FilePath}
use steward_public.Scan.Host.{Stat}
pub mod Powers
pub mod Policy
pub mod Chunks
pub mod Direct
pub mod Budget
pub mod Bounds
pub mod Reads
pub mod Grounds
pub mod Observed
pub mod Reuse
pub mod Reused
pub mod Payloads
pub mod Probing
pub mod Spending

-- A SnapshotBudgetError with what it says of the policy, the KeyError of an unknown scope, and the end
-- of the fuel.
pub data HashingError : Type 0 where
  sha256_required max_hash_file_bytes_not_positive : HashingError
  max_total_hash_bytes_not_positive duration_out_of_range : HashingError
  chunk_size_not_positive chunk_size_not_power_of_two non_local_disabled : HashingError
  unknown_scope out_of_fuel resolver_failed : HashingError

pub data PayloadLocality : Type 0 where
  local non_local unknown_locality : PayloadLocality

-- An OSError, by its class, with its errno.
pub data ReadError : Type 0 where
  file_not_found permission_error other_error : ℕ → ReadError

-- An open file: what `os.fstat` and `os.read`, for so many bytes, answer at a moment.
pub record Descriptor : Type 0 where
  pub fstat : ℕ → Result ReadError Stat
  pub read : ℕ → ℕ → Result ReadError (List ℕ)

-- The host at each moment, a moment being a look at the clock or a question to the reuse resolver:
-- `late` says whether the time is over, `locality` is none where the provider raises.
pub record Host : Type 0 where
  pub late : ℕ → Bool
  pub locality : ℕ → FilePath → Option PayloadLocality
  pub open_file : ℕ → FilePath → Result ReadError Descriptor
  pub lstat : ℕ → FilePath → Result ReadError Stat
  pub has_nofollow : Bool
  pub eloop : ℕ

-- The numbers of a policy that was accepted.
pub record Limits : Type 0 where
  pub max_file_bytes : ℤ
  pub max_total_bytes : ℤ
  pub chunk_size : ℤ

-- `_positive_int`
unfoldable pub positive_int : HashingError → Option ℤ → Result HashingError ℤ
positive_int error none = err error
positive_int error (some n) = raise_if (leb_ℤ n (pos 0)) error >> ok n

-- a number of seconds above 0 and up to one day
unfoldable pub is_day_part : Number → Bool
is_day_part not_finite = false
is_day_part (fraction numerator exponent) =
    ltb_ℤ (pos 0) numerator && leb_ℤ numerator (pos (86400 * 2 ^ exponent))

unfoldable pub check_duration : Option Number → Result HashingError (Unit {0})
check_duration none = err duration_out_of_range
check_duration (some duration) = raise_if (not (is_day_part duration)) duration_out_of_range

-- `chunk & (chunk - 1)` of a positive number
abbrev pub low_bits : ℤ → ℕ
low_bits (pos n) = bit_and n (n - 1)
low_bits (negsuc n) = 0

-- `validate_payload_hash_policy`, with the numbers that the callers take from the policy
unfoldable pub validate_payload_hash_policy : PayloadHashPolicy → Result HashingError Limits
validate_payload_hash_policy policy = do
  raise_if (policy.algorithm != text "sha256" || policy.algorithm_version != pos 1) sha256_required
  max_file_bytes ← positive_int max_hash_file_bytes_not_positive policy.max_hash_file_bytes
  max_total_bytes ← positive_int max_total_hash_bytes_not_positive policy.max_total_hash_bytes
  check_duration policy.max_hash_duration_seconds
  chunk ← positive_int chunk_size_not_positive (some policy.hash_chunk_size)
  raise_if (not (leb_ℤ (pos 65536) chunk && leb_ℤ chunk (pos 16777216)) || low_bits chunk != 0)
      chunk_size_not_power_of_two
  raise_if policy.allow_non_local_content non_local_disabled
  ok (record {
    max_file_bytes = max_file_bytes;
    max_total_bytes = max_total_bytes;
    chunk_size = chunk;
  })

-- `default_payload_hash_policy`: the policy is returned where it is valid
unfoldable pub default_payload_hash_policy :
    Option ℤ → Option ℤ → Option Number → ℤ → Bool → Result HashingError PayloadHashPolicy
default_payload_hash_policy max_file max_total duration chunk allow_verified_reuse =
    let policy : PayloadHashPolicy = record {
      algorithm = text "sha256";
      algorithm_version = pos 1;
      max_hash_file_bytes = max_file;
      max_total_hash_bytes = max_total;
      max_hash_duration_seconds = duration;
      hash_chunk_size = chunk;
      allow_non_local_content = false;
      allow_verified_reuse = allow_verified_reuse;
    } in
    validate_payload_hash_policy policy >> ok policy
