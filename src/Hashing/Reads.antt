-- ===== src/Hashing/Reads.antt =====
-- The loop over the chunks reads a whole file, where it comes to the end.
use mathlib.Core.List.{append_assoc, append-nil}
use steward_public.Base.{
  ℕ, zero, suc, ◌+◌, ◌≡◌, refl, sym, ◌∙◌, false, ◌||◌, List, [], ◌∷◌, ◌++◌, nat_eq, list_eq,
  pair_eq, option_eq, if_rule, arith, Result, ok, err, length, length-append,
}
use steward_public.Base.Int.{pos_part, int_eq}
use steward_public.Base.Order.{nat_order, list_order, pair_order}
use steward_public.Models.Status.{object_type_eq, observation_status_eq}
use steward_public.Hashing.{HashingError, ReadError, Descriptor, Host, Limits}
use steward_public.Hashing.Chunks.{
  Progress, Reading, tick, fed, go_on, exceeds_file, exceeds_total, read_chunks,
}

-- A file was read in time from one look at the clock to another, in chunks, up to its end.
pub data Reads (host : Host) (descriptor : Descriptor) (size : ℕ) : ℕ → List ℕ → ℕ → Type 0 where
  at_end :
      {n : ℕ}
      → host.late n ≡ false
      → descriptor.read (suc n) size ≡ ok []
      → Reads host descriptor size n [] (suc n)
  chunk_read :
      {n k : ℕ} {chunk bytes : List ℕ}
      → host.late n ≡ false
      → descriptor.read (suc n) size ≡ ok chunk
      → Reads host descriptor size (suc n) bytes k
      → Reads host descriptor size n (chunk ++ bytes) k

-- The reading stopped at the end, with the count of its bytes.
abbrev pub Complete : Host → Limits → Descriptor → Progress → Reading × Progress → Type 0
Complete host limits descriptor p (Reading.at_end, q) =
    (bytes : List ℕ) × Reads host descriptor (pos_part limits.chunk_size) p.usage.looks bytes
      q.usage.looks
    × (q.hashed_bytes ≡ p.hashed_bytes ++ bytes)
    × (q.read_count ≡ p.read_count + length bytes)
Complete host limits descriptor p (Reading.timed_out, q) = Unit
Complete host limits descriptor p (Reading.over_file, q) = Unit
Complete host limits descriptor p (Reading.over_total, q) = Unit
Complete host limits descriptor p (Reading.failed error, q) = Unit

module _ (host : Host) (limits : Limits) (descriptor : Descriptor) where
  abbrev pub Completes : Progress → Result HashingError (Reading × Progress) → Type 0
  Completes p (err e) = Unit
  Completes p (ok r) = Complete host limits descriptor p r

  fed-Complete :
      (p : Progress) (chunk : List ℕ) (r : Reading × Progress)
      → host.late p.usage.looks ≡ false
      → descriptor.read (suc p.usage.looks) (pos_part limits.chunk_size) ≡ ok chunk
      → Complete host limits descriptor (fed p chunk) r
      → Complete host limits descriptor p r
  unfolding fed
  fed-Complete p chunk (Reading.at_end, q) in_time read (bytes, reads, hashed, count) = (
    chunk ++ bytes,
    chunk_read in_time read reads,
    hashed ∙ append_assoc p.hashed_bytes chunk bytes,
    count ∙ omega (arith, length-append chunk bytes),
  )
  fed-Complete p chunk (Reading.timed_out, q) in_time read c = tt
  fed-Complete p chunk (Reading.over_file, q) in_time read c = tt
  fed-Complete p chunk (Reading.over_total, q) in_time read c = tt
  fed-Complete p chunk (Reading.failed error, q) in_time read c = tt

  go_on-Completes :
      (p : Progress) (chunk : List ℕ) (later : Result HashingError (Reading × Progress))
      → host.late p.usage.looks ≡ false
      → descriptor.read (suc p.usage.looks) (pos_part limits.chunk_size) ≡ ok chunk
      → Completes (fed p chunk) later
      → Completes p (go_on limits (fed p chunk) later)
  unfolding go_on
  go_on-Completes p chunk later in_time read c =
      let next = fed p chunk in
      if_rule (Completes p) (exceeds_file limits next || exceeds_total limits next) _ later
        (λ _.
          if_rule (λ reading. Complete host limits descriptor p (reading, next))
            (exceeds_file limits next) Reading.over_file Reading.over_total (λ _. tt) (λ _. tt))
        (λ _. followed later c)
    where
      followed :
          (later : Result HashingError (Reading × Progress))
          → Completes (fed p chunk) later
          → Completes p later
      followed (err e) c = tt
      followed (ok r) c = fed-Complete p chunk r in_time read c

  answered-Completes :
      (fuel : ℕ) (p : Progress) (answer : Result ReadError (List ℕ))
      → ((next : Progress) → Completes next (read_chunks limits host descriptor fuel next))
      → host.late p.usage.looks ≡ false
      → descriptor.read (suc p.usage.looks) (pos_part limits.chunk_size) ≡ answer
      → Completes p (elim answer [
        | err error ↦ ok (Reading.failed error, tick p)
        | ok [] ↦ ok (Reading.at_end, tick p)
        | ok (byte ∷ rest) ↦
            go_on limits
              (fed p (byte ∷ rest))
              (read_chunks limits host descriptor fuel (fed p (byte ∷ rest)))
      ])
  answered-Completes fuel p (err error) later in_time read = tt
  answered-Completes fuel p (ok []) later in_time read =
      ([], at_end in_time read, sym (append-nil p.hashed_bytes), omega arith)
  answered-Completes fuel p (ok (byte ∷ rest)) later in_time read =
      go_on-Completes p (byte ∷ rest) _ in_time read (later (fed p (byte ∷ rest)))

  pub read_chunks-Completes :
      (fuel : ℕ) (p : Progress) → Completes p (read_chunks limits host descriptor fuel p)
  unfolding read_chunks
  read_chunks-Completes zero p = tt
  read_chunks-Completes (suc fuel) p =
      if_rule (Completes p) (host.late p.usage.looks) _ _ (λ _. tt)
        (λ in_time.
          answered-Completes fuel p
            (descriptor.read (suc p.usage.looks) (pos_part limits.chunk_size))
            (read_chunks-Completes fuel) in_time refl)
