-- ===== src/Hashing/Probing.antt =====
-- What the probe for an earlier observation does: it reads no bytes, and only the resolver ends it.
use steward_public.Base.{
  ℕ, suc, ◌≡◌, refl, ◌&&◌, Option, none, some, ◌==◌, nat_eq, list_eq, pair_eq, option_eq, if_rule,
  Result, ok, err, ◌>>=◌,
}
use steward_public.Base.Dict
use steward_public.Base.Int.{int_eq}
use steward_public.Base.Order.{nat_order, list_order, pair_order}
use steward_public.Base.Text.{Text}
use steward_public.Models.Status.{object_type_eq, observation_status_eq}
use steward_public.Models.Entry.{FilesystemEntry, PayloadObservation}
use steward_public.Models.Config.{FilePath}
use steward_public.Scan.Host.{Stat, is_regular_mode}
use steward_public.Hashing.{
  HashingError, ReadError, Descriptor, Host, PayloadLocality, local, non_local, unknown_locality,
}
use steward_public.Hashing.Chunks.{
  Usage, path_below, path_for, stat_identity, entry_matches_stat, looked, locality_of,
}
use steward_public.Hashing.Budget.{IsKnown, path_for-known}
use steward_public.Hashing.Reuse.{
  Resolver, ResolverError, os_error, other_exception, Probe, settled, missed, raised, reuse,
  resolve, probe_stated, probe_opened, probe_located, is_eligible, probe_eligible, probe,
}

module _ (host : Host) (resolver : Resolver) where
  -- The resolver raises another exception than an OSError, for some entry.
  abbrev pub Raises : Type 0
  Raises = (entry : FilesystemEntry) × (resolver entry ≡ err other_exception)

  -- A probe reads no bytes, and is ended by the resolver's exception only.
  abbrev pub Keeps : ℕ → Probe × Usage → Type 0
  Keeps n (settled observation, usage) = usage.actual_bytes_read ≡ n
  Keeps n (missed, usage) = usage.actual_bytes_read ≡ n
  Keeps n (raised, usage) = Raises

  reuse-Keeps :
      (before : Stat) (usage : Usage) (candidate : Option PayloadObservation)
      (answer : Result ReadError Stat)
      → Keeps usage.actual_bytes_read (reuse host before usage candidate answer)
  unfolding reuse
  reuse-Keeps before usage candidate (err error) = refl
  reuse-Keeps before usage none (ok after) =
      if_rule (Keeps usage.actual_bytes_read) (host.late usage.looks) _ _ (λ _. refl) (λ _. refl)
  reuse-Keeps before usage (some observation) (ok after) =
      if_rule (Keeps usage.actual_bytes_read) (host.late usage.looks) _ _ (λ _. refl)
        (λ _.
          if_rule (Keeps usage.actual_bytes_read) (stat_identity before == stat_identity after) _ _
            (λ _. refl) (λ _. refl))

  resolve-Keeps :
      (entry : FilesystemEntry) (descriptor : Descriptor) (before : Stat) (usage : Usage)
      (answer : Result ResolverError (Option PayloadObservation))
      → resolver entry ≡ answer
      → Keeps usage.actual_bytes_read (resolve host descriptor before usage answer)
  unfolding resolve
  resolve-Keeps entry descriptor before usage (err (os_error error)) h = refl
  resolve-Keeps entry descriptor before usage (err other_exception) h = (entry, h)
  resolve-Keeps entry descriptor before usage (ok candidate) h =
      reuse-Keeps before (looked usage) candidate (descriptor.fstat (suc usage.looks))

  probe_stated-Keeps :
      (entry : FilesystemEntry) (usage : Usage) (descriptor : Descriptor)
      (answer : Result ReadError Stat)
      → Keeps usage.actual_bytes_read (probe_stated host resolver entry usage descriptor answer)
  unfolding probe_stated
  probe_stated-Keeps entry usage descriptor (err error) = refl
  probe_stated-Keeps entry usage descriptor (ok before) =
      if_rule (Keeps usage.actual_bytes_read)
        (is_regular_mode before.st_mode && entry_matches_stat entry before) _ _
        (λ _. resolve-Keeps entry descriptor before usage (resolver entry) refl) (λ _. refl)

  probe_opened-Keeps :
      (entry : FilesystemEntry) (usage : Usage) (answer : Result ReadError Descriptor)
      → Keeps usage.actual_bytes_read (probe_opened host resolver entry usage answer)
  unfolding probe_opened
  probe_opened-Keeps entry usage (err error) = refl
  probe_opened-Keeps entry usage (ok descriptor) =
      probe_stated-Keeps entry usage descriptor (descriptor.fstat usage.looks)

  probe_located-Keeps :
      (entry : FilesystemEntry) (path : FilePath) (usage : Usage) (locality : PayloadLocality)
      → Keeps usage.actual_bytes_read (probe_located host resolver entry path usage locality)
  unfolding probe_located
  probe_located-Keeps entry path usage non_local = refl
  probe_located-Keeps entry path usage unknown_locality = refl
  probe_located-Keeps entry path usage local =
      if_rule (Keeps usage.actual_bytes_read) host.has_nofollow _ _
        (λ _. probe_opened-Keeps entry usage (host.open_file usage.looks path)) (λ _. refl)

  abbrev pub Passes : ℕ → Result HashingError (Probe × Usage) → Type 0
  Passes n (err e) = ⊥
  Passes n (ok probed) = Keeps n probed

  pub probe-Passes :
      (roots : Dict.Dict Text FilePath) (entry : FilesystemEntry) (usage : Usage)
      → IsKnown roots entry
      → Passes usage.actual_bytes_read (probe host resolver roots entry usage)
  unfolding probe probe_eligible
  probe-Passes roots entry usage (root, known) =
      if_rule (Passes usage.actual_bytes_read) (is_eligible host resolver entry) _ _
        (λ _.
          if_rule (Passes usage.actual_bytes_read) (host.late usage.looks) _ _ (λ _. refl)
            (λ _. located (path_for roots entry) (path_for-known roots entry root known)))
        (λ _. refl)
    where
      located :
          (path : Result HashingError FilePath)
          → path ≡ ok (path_below root entry.relative_path)
          → Passes usage.actual_bytes_read (
              path >>= λ path. ok (
                probe_located host resolver entry path
                  (looked usage)
                  (locality_of (host.locality (suc usage.looks) path))))
      located (err e) h = cc
      located (ok path) h = probe_located-Keeps entry path (looked usage) _
