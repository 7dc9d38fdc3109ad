-- ===== src/Hashing/Budget.antt =====
-- The loop over the chunks ends, and stays in the budget.
use steward_public.Base.{
  ℕ, zero, suc, ◌+◌, ◌≤◌, ◌<◌, ◌≡◌, refl, ◌||◌, some, List, [], ◌∷◌, if_rule, list_eq, nat_eq,
  arith, Result, ok, err, length,
}
use steward_public.Base.Dict
use steward_public.Base.Int.{pos_part, neg_part}
use steward_public.Base.Order.{nat_order, list_order, pair_order}
use steward_public.Base.Text.{Text}
use steward_public.Models.Status.{object_type_eq, observation_status_eq}
use steward_public.Models.Entry.{FilesystemEntry}
use steward_public.Models.Config.{FilePath}
use steward_public.Scan.Host.{Stat}
use steward_public.Hashing.{HashingError, ReadError, Descriptor, Host, Limits}
use steward_public.Hashing.Chunks.{
  Progress, Reading, path_below, path_for, tick, fed, go_on, exceeds_file, exceeds_total,
  read_chunks,
}

-- `os.read` returns no more bytes than were asked for, and no file has a negative size.
pub record IsPosix (host : Host) : Type 0 where
  pub reads :
      (n : ℕ) (path : FilePath) (descriptor : Descriptor) (m size : ℕ) (chunk : List ℕ)
      → host.open_file n path ≡ ok descriptor
      → descriptor.read m size ≡ ok chunk
      → length chunk ≤ size
  pub sizes :
      (n : ℕ) (path : FilePath) (descriptor : Descriptor) (m : ℕ) (st : Stat)
      → host.open_file n path ≡ ok descriptor
      → descriptor.fstat m ≡ ok st
      → neg_part st.st_size ≡ 0

-- The scope of the entry is configured.
abbrev pub IsKnown : Dict.Dict Text FilePath → FilesystemEntry → Type 0
IsKnown roots entry = (root : FilePath) × (Dict.lookup entry.scope_id roots ≡ some root)

pub path_for-known :
    (roots : Dict.Dict Text FilePath) (entry : FilesystemEntry) (root : FilePath)
    → Dict.lookup entry.scope_id roots ≡ some root
    → path_for roots entry ≡ ok (path_below root entry.relative_path)
unfolding path_for
path_for-known roots entry root known = rw (path_for, known) refl

module _ (host : Host) (limits : Limits) where
  abbrev pub total : ℕ
  total = pos_part limits.max_total_bytes

  abbrev pub chunk_size : ℕ
  chunk_size = pos_part limits.chunk_size

  -- A loop over chunks returned, and at most one chunk came after the budget was reached.
  abbrev pub Read : Result HashingError (Reading × Progress) → Type 0
  Read (err e) = ⊥
  Read (ok r) = r.1.usage.actual_bytes_read ≤ total + chunk_size

  module _ (descriptor : Descriptor)
      (fits : (m size : ℕ) (chunk : List ℕ)
        → descriptor.read m size ≡ ok chunk
        → length chunk ≤ size) where
    -- A loop that has so much fuel left, from a state within the budget, returns.
    abbrev Goes : ℕ → Progress → Type 0
    Goes fuel p =
        pos_part limits.max_file_bytes < fuel + p.read_count
        → p.read_count ≤ pos_part limits.max_file_bytes
        → p.usage.actual_bytes_read ≤ total
        → Read (read_chunks limits host descriptor fuel p)

    answered-Read :
        (fuel : ℕ) (p : Progress) (answer : Result ReadError (List ℕ))
        → ((next : Progress) → Goes fuel next)
        → pos_part limits.max_file_bytes < suc fuel + p.read_count
        → p.usage.actual_bytes_read ≤ total
        → descriptor.read (suc p.usage.looks) chunk_size ≡ answer
        → Read (elim answer [
          | err error ↦ ok (Reading.failed error, tick p)
          | ok [] ↦ ok (Reading.at_end, tick p)
          | ok (byte ∷ rest) ↦
              go_on limits
                (fed p (byte ∷ rest))
                (read_chunks limits host descriptor fuel (fed p (byte ∷ rest)))
        ])
    unfolding go_on fed
    answered-Read fuel p (err error) goes enough within e = omega arith
    answered-Read fuel p (ok []) goes enough within e = omega arith
    answered-Read fuel p (ok (byte ∷ rest)) goes enough within e =
        let next = fed p (byte ∷ rest) in
        let bound = fits (suc p.usage.looks) chunk_size (byte ∷ rest) e in
        if_rule Read (exceeds_file limits next || exceeds_total limits next) _ _
          (λ _. omega (arith, bound))
          (λ in_budget. goes next (omega arith) (ground arith) (ground arith))

    pub read_chunks-Read : (fuel : ℕ) (p : Progress) → Goes fuel p
    unfolding read_chunks
    read_chunks-Read zero p enough small within = omega arith
    read_chunks-Read (suc fuel) p enough small within =
        if_rule Read (host.late p.usage.looks) _ _ (λ _. omega arith)
          (λ _.
            answered-Read fuel p (descriptor.read (suc p.usage.looks) chunk_size)
              (read_chunks-Read fuel) enough within refl)
