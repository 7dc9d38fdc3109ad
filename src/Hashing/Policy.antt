-- ===== src/Hashing/Policy.antt =====
-- `validate_payload_hash_policy` accepts the frozen policies and no others.
use Prim.Native.Nat.{bit_and, ◌^◌}
use steward_public.Base.{
  ℕ, zero, suc, ◌-◌, ◌*◌, ◌≤◌, ◌<◌, ◌≡◌, refl, sym, ◌∙◌, ap, subst, ◌↔◌, Bool, true, false, not,
  ◌||◌, ◌&&◌, Option, none, some, some-injective, ◌!=◌, nat_eq, list_eq, arith, Result, ok, err,
  ◌>>=◌, ◌>>◌, >>=-ok, ok-injective, raise_if, raise_if-ok,
}
use steward_public.Base.Int.{ℤ, pos, negsuc, int_eq, leb_ℤ}
use steward_public.Base.Text.{text}
use steward_public.Models.Entry.{Number, not_finite, fraction, PayloadHashPolicy}
use steward_public.Hashing.{
  HashingError, max_hash_file_bytes_not_positive, max_total_hash_bytes_not_positive,
  sha256_required, duration_out_of_range, chunk_size_not_positive, chunk_size_not_power_of_two,
  non_local_disabled, Limits, positive_int, is_day_part, check_duration, low_bits,
  validate_payload_hash_policy,
}
use steward_public.Hashing.Powers.{IsPower, bit_and_iff}

-- A field that must be positive, and its value.
abbrev pub IsLimit : Option ℤ → ℤ → Type 0
IsLimit field n = (field ≡ some n) × (m : ℕ) × (n ≡ pos (suc m))

-- More than no time, and at most one day.
abbrev pub IsDayPart : Option Number → Type 0
IsDayPart duration =
    (m exponent : ℕ) × (duration ≡ some (fraction (pos m) exponent))
    × (0 < m)
    × (m ≤ 86400 * 2 ^ exponent)

-- A power of two from 64 KiB to 16 MiB.
abbrev pub IsChunkSize : ℤ → Type 0
IsChunkSize n = (m : ℕ) × (n ≡ pos m) × IsPower m × (65536 ≤ m) × (m ≤ 16777216)

abbrev pub IsFrozen : PayloadHashPolicy → Limits → Type 0
IsFrozen policy limits =
    (policy.algorithm ≡ text "sha256")
    × (policy.algorithm_version ≡ pos 1)
    × IsLimit policy.max_hash_file_bytes limits.max_file_bytes
    × IsLimit policy.max_total_hash_bytes limits.max_total_bytes
    × IsDayPart policy.max_hash_duration_seconds
    × (policy.hash_chunk_size ≡ limits.chunk_size)
    × IsChunkSize limits.chunk_size
    × (policy.allow_non_local_content ≡ false)

positive_int-suc :
    (e : HashingError) (m : ℕ) → positive_int e (some (pos (suc m))) ≡ ok (pos (suc m))
unfolding positive_int
positive_int-suc e m =
    let t : leb_ℤ (pos (suc m)) (pos 0) ≡ false = ground arith in
    ap (λ b. raise_if b e >> ok (pos (suc m))) t

positive_int-IsLimit :
    (e : HashingError) (field : Option ℤ) (n : ℤ) → positive_int e field ≡ ok n → IsLimit field n
unfolding positive_int
positive_int-IsLimit e none n h = cc
positive_int-IsLimit e (some (pos zero)) n h = cc
positive_int-IsLimit e (some (pos (suc m))) n h =
    let same = ok-injective (sym (positive_int-suc e m) ∙ h) in (ap some same, m, sym same)
positive_int-IsLimit e (some (negsuc m)) n h =
    let t : leb_ℤ (negsuc m) (pos 0) ≡ true = ground arith in
    let clash : err e ≡ ok n = sym (ap (λ b. raise_if b e >> ok (negsuc m)) t) ∙ h in cc

IsLimit-positive_int :
    (e : HashingError) (field : Option ℤ) (n : ℤ) → IsLimit field n → positive_int e field ≡ ok n
IsLimit-positive_int e field n (is, m, same) =
    ap (positive_int e) (is ∙ ap some same) ∙ positive_int-suc e m ∙ ap ok (sym same)

check_duration-IsDayPart :
    (duration : Option Number) → check_duration duration ≡ ok tt → IsDayPart duration
unfolding check_duration is_day_part
check_duration-IsDayPart none h = cc
check_duration-IsDayPart (some not_finite) h = cc
check_duration-IsDayPart (some (fraction (pos m) exponent)) h =
    let t = raise_if-ok (not (is_day_part (fraction (pos m) exponent))) duration_out_of_range h in
    (m, exponent, refl, ground arith, ground arith)
check_duration-IsDayPart (some (fraction (negsuc m) exponent)) h =
    let t =
      raise_if-ok (not (is_day_part (fraction (negsuc m) exponent))) duration_out_of_range h in
    absurd (ground arith)

IsDayPart-check_duration :
    (duration : Option Number) → IsDayPart duration → check_duration duration ≡ ok tt
unfolding check_duration is_day_part
IsDayPart-check_duration duration (m, exponent, is, more, less) =
    let t : is_day_part (fraction (pos m) exponent) ≡ true = ground arith in rw (is, t) refl

abbrev refused : ℤ → Bool
refused chunk = not (leb_ℤ (pos 65536) chunk && leb_ℤ chunk (pos 16777216)) || low_bits chunk != 0

accepted-IsChunkSize : (chunk : ℤ) → refused chunk ≡ false → IsChunkSize chunk
accepted-IsChunkSize (pos zero) h = cc
accepted-IsChunkSize (pos (suc m)) h =
    let bits : bit_and (suc m) (suc m - 1) ≡ 0 = ground arith in
    let last : suc m - 1 ≡ m = omega arith in
    (
      suc m,
      refl,
      (bit_and_iff m).0 (ap (bit_and (suc m)) (sym last) ∙ bits),
      ground arith,
      ground arith,
    )
accepted-IsChunkSize (negsuc m) h = absurd (ground arith)

power-accepted : (m : ℕ) → IsPower m → 65536 ≤ m → m ≤ 16777216 → refused (pos m) ≡ false
power-accepted zero power more less = absurd (omega arith)
power-accepted (suc m) power more less =
    let last : suc m - 1 ≡ m = omega arith in
    let bits : bit_and (suc m) (suc m - 1) ≡ 0 =
      ap (bit_and (suc m)) last ∙ (bit_and_iff m).1 power in
    ground arith

IsChunkSize-accepted : (chunk : ℤ) → IsChunkSize chunk → refused chunk ≡ false
IsChunkSize-accepted chunk (m, same, power, more, less) =
    ap refused same ∙ power-accepted m power more less

module _ {A B : Type 0} where
  step_ok :
      (first : Result HashingError A) (next : A → Result HashingError B) (value : A)
      (result : Result HashingError B)
      → first ≡ ok value
      → next value ≡ result
      → (first >>= next) ≡ result
  step_ok first next value result e h = ap (λ r. r >>= next) e ∙ h

passes : (b : Bool) (e : HashingError) → b ≡ false → raise_if b e ≡ ok tt
passes b e h = ap (λ t. raise_if t e) h

-- A policy is accepted, and its numbers are taken, exactly where it asks for SHA-256 in version 1, its
-- limits for one file and for all files are there and positive, its duration is a finite number of
-- seconds above 0 and up to one day, its chunk size is a power of two from 65536 to 16777216 and it
-- does not allow content that is not local.
pub validate_payload_hash_policy_iff :
    (policy : PayloadHashPolicy) (limits : Limits)
    → (validate_payload_hash_policy policy ≡ ok limits) ↔ IsFrozen policy limits
unfolding validate_payload_hash_policy
validate_payload_hash_policy_iff policy limits = (
  λ h.
      let (u, tested, h1) =
        >>=-ok
          (raise_if (policy.algorithm != text "sha256" || policy.algorithm_version != pos 1)
            sha256_required)
          _ h in
      let sha256 =
        raise_if-ok (policy.algorithm != text "sha256" || policy.algorithm_version != pos 1)
          sha256_required tested in
      let (file, is_file, h2) =
        >>=-ok (positive_int max_hash_file_bytes_not_positive policy.max_hash_file_bytes) _ h1 in
      let (total, is_total, h3) =
        >>=-ok (positive_int max_total_hash_bytes_not_positive policy.max_total_hash_bytes) _ h2 in
      let (v, in_time, h4) = >>=-ok (check_duration policy.max_hash_duration_seconds) _ h3 in
      let (chunk, is_chunk, h5) =
        >>=-ok (positive_int chunk_size_not_positive (some policy.hash_chunk_size)) _ h4 in
      let (w, is_size, h6) = >>=-ok (raise_if (refused chunk) chunk_size_not_power_of_two) _ h5 in
      let (x, is_local, h7) =
        >>=-ok (raise_if policy.allow_non_local_content non_local_disabled) _ h6 in
      subst (IsFrozen policy) (ok-injective h7) (
        ground arith,
        ground arith,
        positive_int-IsLimit max_hash_file_bytes_not_positive policy.max_hash_file_bytes file
            is_file,
        positive_int-IsLimit max_total_hash_bytes_not_positive policy.max_total_hash_bytes total
            is_total,
        check_duration-IsDayPart policy.max_hash_duration_seconds in_time,
        some-injective policy.hash_chunk_size chunk
            (positive_int-IsLimit chunk_size_not_positive (some policy.hash_chunk_size) chunk
              is_chunk).0,
        accepted-IsChunkSize chunk
            (raise_if-ok (refused chunk) chunk_size_not_power_of_two is_size),
        raise_if-ok policy.allow_non_local_content non_local_disabled is_local,
      ),
  λ (algorithm, version, file, total, duration, chunk, size, nonlocal).
      step_ok _ _ tt (ok limits)
        (passes (policy.algorithm != text "sha256" || policy.algorithm_version != pos 1)
          sha256_required (ground arith))
        (step_ok _ _ limits.max_file_bytes (ok limits)
          (IsLimit-positive_int max_hash_file_bytes_not_positive policy.max_hash_file_bytes
            limits.max_file_bytes file)
          (step_ok _ _ limits.max_total_bytes (ok limits)
            (IsLimit-positive_int max_total_hash_bytes_not_positive policy.max_total_hash_bytes
              limits.max_total_bytes total)
            (step_ok _ _ tt (ok limits)
              (IsDayPart-check_duration policy.max_hash_duration_seconds duration)
              (step_ok _ _ limits.chunk_size (ok limits)
                (IsLimit-positive_int chunk_size_not_positive (some policy.hash_chunk_size)
                  limits.chunk_size (ap some chunk, (positive size).0, (positive size).1))
                (step_ok _ _ tt (ok limits)
                  (passes (refused limits.chunk_size) chunk_size_not_power_of_two
                    (IsChunkSize-accepted limits.chunk_size size))
                  (step_ok _ _ tt (ok limits)
                    (passes policy.allow_non_local_content non_local_disabled nonlocal) refl)))))),
)
  where
    positive : IsChunkSize limits.chunk_size → (m : ℕ) × (limits.chunk_size ≡ pos (suc m))
    positive (zero, same, power, more, less) = absurd (omega arith)
    positive (suc m, same, power, more, less) = (m, same)
