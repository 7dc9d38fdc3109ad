-- ===== src/Hashing/Reused.antt =====
-- What stands behind an observation that is not read directly.
use steward_public.Base.{
  ℕ, suc, ◌≡◌, refl, ◌⊎◌, inl, inr, true, ◌&&◌, Option, none, some, ◌==◌, nat_eq, list_eq, pair_eq,
  option_eq, if_rule, eq_of_==, Result, ok, err, ◌>>=◌,
}
use steward_public.Base.Dict
use steward_public.Base.Int.{int_eq}
use steward_public.Base.Order.{nat_order, list_order, pair_order}
use steward_public.Base.Text.{Text}
use steward_public.Models.Status.{object_type_eq, observation_status_eq}
use steward_public.Models.Entry.{FilesystemEntry, PayloadObservation}
use steward_public.Models.Config.{FilePath}
use steward_public.Scan.Host.{Stat, is_regular_mode}
use steward_public.Hashing.{
  HashingError, ReadError, Descriptor, Host, PayloadLocality, local, non_local, unknown_locality,
}
use steward_public.Hashing.Chunks.{
  Usage, failure, path_for, stat_identity, entry_matches_stat, looked, locality_of,
}
use steward_public.Hashing.Reuse.{
  Resolver, ResolverError, os_error, other_exception, Probe, settled, missed, raised, reuse,
  resolve, probe_stated, probe_opened, probe_located, is_eligible, probe_eligible, probe,
}

-- The observation was found for the entry by the resolver, while the open file was the one that the
-- scan had seen, before and after.
pub record IsReused (host : Host) (resolver : Resolver) (roots : Dict.Dict Text FilePath)
    (entry : FilesystemEntry) (observation : PayloadObservation) : Type 0 where
  pub path : FilePath
  pub looks : ℕ
  pub descriptor : Descriptor
  pub before : Stat
  pub after : Stat
  pub is_found : resolver entry ≡ ok (some observation)
  pub stands_at : path_for roots entry ≡ ok path
  pub was_opened : host.open_file looks path ≡ ok descriptor
  pub was_stated : descriptor.fstat looks ≡ ok before
  pub is_unmodified : is_regular_mode before.st_mode && entry_matches_stat entry before ≡ true
  pub stated_after : descriptor.fstat (suc looks) ≡ ok after
  pub same_after : stat_identity before ≡ stat_identity after

-- An observation of the probe says no digest, or was found by the resolver.
abbrev pub IsSettled :
    Host → Resolver → Dict.Dict Text FilePath → FilesystemEntry → PayloadObservation → Type 0
IsSettled host resolver roots entry observation =
    (observation.digest ≡ none) ⊎ IsReused host resolver roots entry observation

module _ (host : Host) (resolver : Resolver) (roots : Dict.Dict Text FilePath)
    (entry : FilesystemEntry) where
  abbrev pub Settles : Probe × Usage → Type 0
  Settles (settled observation, usage) = IsSettled host resolver roots entry observation
  Settles (missed, usage) = Unit
  Settles (raised, usage) = Unit

  reuse-Settles :
      (path : FilePath) (looks : ℕ) (descriptor : Descriptor) (before : Stat) (usage : Usage)
      (candidate : Option PayloadObservation) (answer : Result ReadError Stat)
      → resolver entry ≡ ok candidate
      → path_for roots entry ≡ ok path
      → host.open_file looks path ≡ ok descriptor
      → descriptor.fstat looks ≡ ok before
      → is_regular_mode before.st_mode && entry_matches_stat entry before ≡ true
      → descriptor.fstat (suc looks) ≡ answer
      → Settles (reuse host before usage candidate answer)
  unfolding reuse failure
  reuse-Settles path looks descriptor before usage candidate (err error) found stands_at opened
        stated scanned again =
      tt
  reuse-Settles path looks descriptor before usage none (ok after) found stands_at opened stated
        scanned again =
      if_rule Settles (host.late usage.looks) _ _ (λ _. inl refl) (λ _. tt)
  reuse-Settles path looks descriptor before usage (some observation) (ok after) found stands_at
        opened stated scanned again =
      if_rule Settles (host.late usage.looks) _ _ (λ _. inl refl)
        (λ _.
          if_rule Settles (stat_identity before == stat_identity after) _ _
            (λ same. inr (record {
              path = path;
              looks = looks;
              descriptor = descriptor;
              before = before;
              after = after;
              is_found = found;
              stands_at = stands_at;
              was_opened = opened;
              was_stated = stated;
              is_unmodified = scanned;
              stated_after = again;
              same_after = eq_of_== same;
            }))
            (λ _. tt))

  resolve-Settles :
      (path : FilePath) (usage : Usage) (descriptor : Descriptor) (before : Stat)
      (answer : Result ResolverError (Option PayloadObservation))
      → resolver entry ≡ answer
      → path_for roots entry ≡ ok path
      → host.open_file usage.looks path ≡ ok descriptor
      → descriptor.fstat usage.looks ≡ ok before
      → is_regular_mode before.st_mode && entry_matches_stat entry before ≡ true
      → Settles (resolve host descriptor before usage answer)
  unfolding resolve
  resolve-Settles path usage descriptor before (err (os_error error)) found stands_at opened stated
        scanned =
      tt
  resolve-Settles path usage descriptor before (err other_exception) found stands_at opened stated
        scanned =
      tt
  resolve-Settles path usage descriptor before (ok candidate) found stands_at opened stated
        scanned =
      reuse-Settles path usage.looks descriptor before (looked usage) candidate
        (descriptor.fstat (suc usage.looks)) found stands_at opened stated scanned refl

  probe_opened-Settles :
      (path : FilePath) (usage : Usage) (answer : Result ReadError Descriptor)
      → path_for roots entry ≡ ok path
      → host.open_file usage.looks path ≡ answer
      → Settles (probe_opened host resolver entry usage answer)
  unfolding probe_opened probe_stated
  probe_opened-Settles path usage (err error) stands_at opened = tt
  probe_opened-Settles path usage (ok descriptor) stands_at opened =
      stated (descriptor.fstat usage.looks) refl
    where
      stated :
          (answer : Result ReadError Stat)
          → descriptor.fstat usage.looks ≡ answer
          → Settles (probe_stated host resolver entry usage descriptor answer)
      stated (err error) h = tt
      stated (ok before) h =
          if_rule Settles (is_regular_mode before.st_mode && entry_matches_stat entry before) _ _
            (λ scanned.
              resolve-Settles path usage descriptor before (resolver entry) refl stands_at opened h
                scanned)
            (λ _. tt)

  probe_located-Settles :
      (path : FilePath) (usage : Usage) (locality : PayloadLocality)
      → path_for roots entry ≡ ok path
      → Settles (probe_located host resolver entry path usage locality)
  unfolding probe_located failure
  probe_located-Settles path usage non_local stands_at = inl refl
  probe_located-Settles path usage unknown_locality stands_at = inl refl
  probe_located-Settles path usage local stands_at =
      if_rule Settles host.has_nofollow _ _
        (λ _. probe_opened-Settles path usage (host.open_file usage.looks path) stands_at refl)
        (λ _. tt)

  abbrev pub Probes : Result HashingError (Probe × Usage) → Type 0
  Probes (err e) = Unit
  Probes (ok probed) = Settles probed

  pub probe-Probes : (usage : Usage) → Probes (probe host resolver roots entry usage)
  unfolding probe probe_eligible
  probe-Probes usage =
      if_rule Probes (is_eligible host resolver entry) _ _
        (λ _.
          if_rule Probes (host.late usage.looks) _ _ (λ _. tt)
            (λ _. located (path_for roots entry) refl))
        (λ _. tt)
    where
      located :
          (path : Result HashingError FilePath)
          → path_for roots entry ≡ path
          → Probes (
              path >>= λ path. ok (
                probe_located host resolver entry path
                  (looked usage)
                  (locality_of (host.locality (suc usage.looks) path))))
      located (err e) h = tt
      located (ok path) h = probe_located-Settles path (looked usage) _ h
