-- ===== src/Hashing/Grounds.antt =====
-- What stands behind a digest of the direct reader.
use steward_public.Base.{
  ℕ, suc, ◌≡◌, refl, sym, ap, subst, ◌∙◌, ◌⊎◌, inl, inr, true, none, some, List, [], ◌++◌, nat_eq,
  list_eq, pair_eq, option_eq, if_rule, arith, Result, ok, err, ◌>>=◌, length,
}
use steward_public.Base.Dict
use steward_public.Base.Int.{pos, pos_part, int_eq}
use steward_public.Base.Order.{nat_order, list_order, pair_order}
use steward_public.Base.Text.{Text}
use steward_public.Models.Status.{object_type_eq, observation_status_eq}
use steward_public.Models.Entry.{FilesystemEntry, PayloadObservation, PayloadHashPolicy}
use steward_public.Models.Config.{FilePath}
use steward_public.Scan.Host.{Stat, is_regular_mode}
use steward_public.Hashing.{
  HashingError, ReadError, file_not_found, permission_error, other_error, Descriptor, Host, Limits,
}
use steward_public.Hashing.Chunks.{
  Usage, Progress, Reading, Outcome, failure, success, path_for, stat_identity, entry_matches_stat,
  path_after, is_unchanged,
}
use steward_public.Hashing.Direct.{failure_of, compared, concluded, read_file}
use steward_public.Hashing.Reads.{Reads, Complete, Completes, read_chunks-Completes}

-- The observation is of all bytes of the entry's file: the open file was the one that the scan had
-- seen, it was read to its end in time, and neither it nor what stands at the path had changed then.
pub record IsRead (host : Host) (sha256 : List ℕ → Text) (policy : PayloadHashPolicy)
    (limits : Limits) (roots : Dict.Dict Text FilePath) (entry : FilesystemEntry)
    (observation : PayloadObservation) : Type 0 where
  pub path : FilePath
  pub looks : ℕ
  pub end_looks : ℕ
  pub descriptor : Descriptor
  pub before : Stat
  pub after : Stat
  pub at_path : Stat
  pub bytes : List ℕ
  pub stands_at : path_for roots entry ≡ ok path
  pub was_opened : host.open_file looks path ≡ ok descriptor
  pub was_stated : descriptor.fstat looks ≡ ok before
  pub is_regular : is_regular_mode before.st_mode ≡ true
  pub is_scanned : entry_matches_stat entry before ≡ true
  pub was_read : Reads host descriptor (pos_part limits.chunk_size) looks bytes end_looks
  pub stated_after : descriptor.fstat end_looks ≡ ok after
  pub stated_at_path : host.lstat end_looks path ≡ ok at_path
  pub same_after : stat_identity before ≡ stat_identity after
  pub same_at_path : stat_identity before ≡ stat_identity at_path
  pub has_size : entry.size_bytes ≡ some (pos (length bytes))
  pub is_success : observation ≡ success policy (sha256 bytes) (length bytes)

module _ (host : Host) (sha256 : List ℕ → Text) (policy : PayloadHashPolicy) (limits : Limits) where
  -- An observation says no digest, or is of all bytes.
  abbrev pub IsGrounded : Dict.Dict Text FilePath → FilesystemEntry → PayloadObservation → Type 0
  IsGrounded roots entry observation =
      (observation.digest ≡ none) ⊎ IsRead host sha256 policy limits roots entry observation

  abbrev pub Grounds : Dict.Dict Text FilePath → FilesystemEntry → Outcome → Type 0
  Grounds roots entry (err e) = Unit
  Grounds roots entry (ok r) = IsGrounded roots entry r.0

  pub failure_of-digest : (error : ReadError) → (failure_of host error).digest ≡ none
  unfolding failure_of failure
  failure_of-digest (file_not_found errno) = refl
  failure_of-digest (permission_error errno) = refl
  failure_of-digest (other_error errno) = refl

  module _ (roots : Dict.Dict Text FilePath) (entry : FilesystemEntry) (path : FilePath)
      (stands_at : path_for roots entry ≡ ok path) (descriptor : Descriptor) (before : Stat)
      (looks : ℕ) (was_opened : host.open_file looks path ≡ ok descriptor)
      (was_stated : descriptor.fstat looks ≡ ok before)
      (is_regular : is_regular_mode before.st_mode ≡ true)
      (is_scanned : entry_matches_stat entry before ≡ true) where
    unchanged-IsRead :
        (p : Progress) (bytes : List ℕ) (after at_path : Stat)
        → Reads host descriptor (pos_part limits.chunk_size) looks bytes p.usage.looks
        → p.hashed_bytes ≡ bytes
        → p.read_count ≡ length bytes
        → descriptor.fstat p.usage.looks ≡ ok after
        → host.lstat p.usage.looks path ≡ ok at_path
        → is_unchanged p.read_count before after (some at_path) ≡ true
        → IsRead host sha256 policy limits roots entry
            (success policy (sha256 p.hashed_bytes) p.read_count)
    unfolding entry_matches_stat
    unchanged-IsRead p bytes after at_path was_read hashed count stated_after stated_at same =
        record {
          path = path;
          looks = looks;
          end_looks = p.usage.looks;
          descriptor = descriptor;
          before = before;
          after = after;
          at_path = at_path;
          bytes = bytes;
          stands_at = stands_at;
          was_opened = was_opened;
          was_stated = was_stated;
          is_regular = is_regular;
          is_scanned = is_scanned;
          was_read = was_read;
          stated_after = stated_after;
          stated_at_path = stated_at;
          same_after = ground arith;
          same_at_path = ground arith;
          has_size = sized;
          is_success =
              ap (λ b. success policy (sha256 b) p.read_count) hashed
              ∙ ap (success policy (sha256 bytes)) count;
        }
      where
        counted : pos p.read_count ≡ before.st_size
        counted = ground arith

        scanned : entry.size_bytes ≡ some before.st_size
        scanned = ground arith

        sized : entry.size_bytes ≡ some (pos (length bytes))
        sized = scanned ∙ ap some (sym counted ∙ ap pos count)

    compared-IsGrounded :
        (p : Progress) (bytes : List ℕ) (fstat_answer lstat_answer : Result ReadError Stat)
        → Reads host descriptor (pos_part limits.chunk_size) looks bytes p.usage.looks
        → p.hashed_bytes ≡ bytes
        → p.read_count ≡ length bytes
        → descriptor.fstat p.usage.looks ≡ fstat_answer
        → host.lstat p.usage.looks path ≡ lstat_answer
        → IsGrounded roots entry
            (compared host sha256 policy limits before p fstat_answer lstat_answer)
    unfolding compared path_after failure
    compared-IsGrounded p bytes (err error) _ was_read hashed count stated stated_at =
        inl (failure_of-digest error)
    compared-IsGrounded p bytes (ok after) (err (file_not_found errno)) was_read hashed count stated
          stated_at =
        inl refl
    compared-IsGrounded p bytes (ok after) (err (permission_error errno)) was_read hashed count
          stated stated_at =
        inl (failure_of-digest (permission_error errno))
    compared-IsGrounded p bytes (ok after) (err (other_error errno)) was_read hashed count stated
          stated_at =
        inl (failure_of-digest (other_error errno))
    compared-IsGrounded p bytes (ok after) (ok at_path) was_read hashed count stated stated_at =
        if_rule (IsGrounded roots entry) (is_unchanged p.read_count before after (some at_path)) _ _
          (λ same.
            inr
              (unchanged-IsRead p bytes after at_path was_read hashed count stated stated_at same))
          (λ _. inl refl)

    concluded-IsGrounded :
        (reading : Reading) (p q : Progress)
        → p.usage.looks ≡ looks
        → p.read_count ≡ 0
        → p.hashed_bytes ≡ []
        → Complete host limits descriptor p (reading, q)
        → IsGrounded roots entry
            (concluded host sha256 policy limits path descriptor before reading q)
    unfolding concluded failure
    concluded-IsGrounded Reading.at_end p q start count hashed
          (bytes, was_read, all_hashed, counted) =
        compared-IsGrounded q bytes (descriptor.fstat q.usage.looks) (host.lstat q.usage.looks path)
          (subst (λ n. Reads host descriptor (pos_part limits.chunk_size) n bytes q.usage.looks)
            start was_read)
          (all_hashed ∙ ap (λ h. h ++ bytes) hashed) (omega (arith, counted, count)) refl refl
    concluded-IsGrounded Reading.timed_out p q start count hashed c = inl refl
    concluded-IsGrounded Reading.over_file p q start count hashed c = inl refl
    concluded-IsGrounded Reading.over_total p q start count hashed c = inl refl
    concluded-IsGrounded (Reading.failed error) p q start count hashed c =
        inl (failure_of-digest error)

    pub read_file-Grounds :
        (usage : Usage)
        → usage.looks ≡ looks
        → Grounds roots entry (read_file host sha256 policy limits path descriptor before usage)
    unfolding read_file
    read_file-Grounds usage start = concludes _ (
        read_chunks-Completes host limits descriptor (suc (pos_part limits.max_file_bytes))
          (record { usage = usage; read_count = 0; hashed_bytes = [] }))
      where
        concludes :
            (reading : Result HashingError (Reading × Progress))
            → Completes host limits descriptor
                (record { usage = usage; read_count = 0; hashed_bytes = [] })
                reading
            → Grounds roots entry (
                reading >>= λ (ended : Reading × Progress). ok (
                  concluded host sha256 policy limits path descriptor before ended.0 ended.1,
                  ended.1.usage,
                ))
        concludes (err e) c = tt
        concludes (ok r) c =
            concluded-IsGrounded r.0 (record { usage = usage; read_count = 0; hashed_bytes = [] })
              r.1 start refl refl c
