-- ===== src/Hashing/Reuse.antt =====
-- `observe_payloads` of payload_hashing.py. The resolver that finds a verified observation of the same
-- file in an earlier Snapshot is the argument `resolver`. It may raise an OSError, which is a miss, or
-- another exception, such as the EvidenceError of snapshots.py, which ends the whole observation.
use steward_public.Base.{
  ℕ, suc, Bool, true, false, not, ◌&&◌, Option, none, some, List, [], ◌∷◌, ◌++◌, ◌==◌, nat_eq,
  list_eq, pair_eq, if◌then◌else◌, Result, ok, err, ◌>>=◌,
}
use steward_public.Base.Dict
use steward_public.Base.Int.{int_eq}
use steward_public.Base.Order.{nat_order, list_order, pair_order}
use steward_public.Base.Sort.{sort_on}
use steward_public.Base.Text.{Text, text}
use steward_public.Models.Status.{
  regular_file, object_type_eq, observed, observation_status_eq, not_local, time_budget_exhausted,
}
use steward_public.Models.Entry.{FilesystemEntry, PayloadObservation, PayloadHashPolicy}
use steward_public.Models.Config.{FilePath, ScopeConfig}
use steward_public.Scan.Host.{Stat, is_regular_mode}
use steward_public.Diff.{location_key, location_sort_key}
use steward_public.Hashing.{
  HashingError, resolver_failed, ReadError, Descriptor, Host, PayloadLocality, local, non_local,
  unknown_locality, validate_payload_hash_policy,
}
use steward_public.Hashing.Chunks.{
  Usage, plain, unsupported, roots_onto, path_for, stat_identity, entry_matches_stat, v2_entry,
  looked, locality_of,
}
use steward_public.Hashing.Direct.{observe_direct_payloads}

pub data ResolverError : Type 0 where
  os_error : ReadError → ResolverError
  other_exception : ResolverError

abbrev pub Resolver : Type 0
Resolver = FilesystemEntry → Result ResolverError (Option PayloadObservation)

-- Whether the entry's observation is settled without a direct read, or the resolver ended it all.
pub data Probe : Type 0 where
  settled : PayloadObservation → Probe
  missed raised : Probe

module _ (host : Host) where
  -- what is made of the candidate, once the file was stated again and the clock looked at
  unfoldable pub reuse :
      Stat → Usage → Option PayloadObservation → Result ReadError Stat → Probe × Usage
  reuse before usage candidate (err error) = (missed, usage)
  reuse before usage candidate (ok after) =
      if host.late usage.looks
      then (settled (plain time_budget_exhausted), looked usage)
      else elim candidate [
        | none ↦ (missed, looked usage)
        | some observation ↦
            if stat_identity before == stat_identity after
            then (settled observation, looked usage)
            else (missed, looked usage)
      ]

  -- the question to the resolver is one moment
  unfoldable pub resolve :
      Descriptor → Stat → Usage → Result ResolverError (Option PayloadObservation) → Probe × Usage
  unfolding reuse
  resolve descriptor before usage (err other_exception) = (raised, looked usage)
  resolve descriptor before usage (err (os_error error)) = (missed, looked usage)
  resolve descriptor before usage (ok candidate) =
      reuse before (looked usage) candidate (descriptor.fstat (suc usage.looks))

  module _ (resolver : Resolver) where
    unfoldable pub probe_stated :
        FilesystemEntry → Usage → Descriptor → Result ReadError Stat → Probe × Usage
    probe_stated entry usage descriptor (err error) = (missed, usage)
    probe_stated entry usage descriptor (ok before) =
        if is_regular_mode before.st_mode && entry_matches_stat entry before
        then resolve descriptor before usage (resolver entry)
        else (missed, usage)

    unfoldable pub probe_opened :
        FilesystemEntry → Usage → Result ReadError Descriptor → Probe × Usage
    unfolding probe_stated
    probe_opened entry usage (err error) = (missed, usage)
    probe_opened entry usage (ok descriptor) =
        probe_stated entry usage descriptor (descriptor.fstat usage.looks)

    unfoldable pub probe_located :
        FilesystemEntry → FilePath → Usage → PayloadLocality → Probe × Usage
    probe_located entry path usage non_local = (settled (plain not_local), usage)
    probe_located entry path usage unknown_locality =
        (settled (unsupported (text "LOCALITY_UNKNOWN")), usage)
    probe_located entry path usage local =
        if host.has_nofollow
        then probe_opened entry usage (host.open_file usage.looks path)
        else (missed, usage)

    abbrev pub has_size : FilesystemEntry → Bool
    has_size entry = elim entry.size_bytes [ none ↦ false | some size ↦ true ]

    -- whether the entry is looked up at all, but for the time
    abbrev pub is_eligible : FilesystemEntry → Bool
    is_eligible entry =
        entry.object_type == regular_file
        && (not entry.excluded && (entry.observation_status == observed && has_size entry))

    unfoldable pub probe_eligible :
        Dict.Dict Text FilePath → FilesystemEntry → Usage → Result HashingError (Probe × Usage)
    probe_eligible roots entry usage =
        if host.late usage.looks
        then ok (missed, looked usage)
        else path_for roots entry >>= λ path. ok (
            probe_located entry path (looked usage)
              (locality_of (host.locality (suc usage.looks) path)))

    unfoldable pub probe :
        Dict.Dict Text FilePath → FilesystemEntry → Usage → Result HashingError (Probe × Usage)
    probe roots entry usage =
        if is_eligible entry then probe_eligible roots entry usage else ok (missed, usage)

    module _ (sha256 : List ℕ → Text) (scopes : List ScopeConfig) (policy : PayloadHashPolicy) where
      -- a miss goes to the direct reader
      unfoldable pub settle :
          FilesystemEntry → Probe × Usage → Result HashingError (List FilesystemEntry × Usage)
      settle entry (settled observation, usage) = ok (v2_entry entry observation ∷ [], usage)
      settle entry (raised, usage) = err resolver_failed
      settle entry (missed, usage) =
          observe_direct_payloads host sha256 (entry ∷ []) scopes policy usage

      unfoldable pub observe_or_reuse :
          Dict.Dict Text FilePath
          → List FilesystemEntry
          → Usage
          → Result HashingError (List FilesystemEntry × Usage)
      observe_or_reuse roots [] usage = ok ([], usage)
      observe_or_reuse roots (entry ∷ rest) usage =
          probe roots entry usage >>= λ (probed : Probe × Usage).
          settle entry probed >>= λ (first : List FilesystemEntry × Usage).
          observe_or_reuse roots rest first.1 >>= λ (later : List FilesystemEntry × Usage).
          ok (first.0 ++ later.0, later.1)

  -- `observe_payloads`, from a fresh count of bytes
  unfoldable pub observe_payloads :
      Option Resolver
      → (List ℕ → Text)
      → List FilesystemEntry
      → List ScopeConfig
      → PayloadHashPolicy
      → Result HashingError (List FilesystemEntry × Usage)
  observe_payloads resolver sha256 entries scopes policy =
      validate_payload_hash_policy policy >>= λ limits. elim resolver [
        | none ↦
            observe_direct_payloads host sha256 entries scopes policy
              (record { looks = 0; actual_bytes_read = 0 })
        | some resolver ↦
            if not policy.allow_verified_reuse
            then observe_direct_payloads host sha256 entries scopes policy
                (record { looks = 0; actual_bytes_read = 0 })
            else observe_or_reuse resolver sha256 scopes policy (roots_onto [] scopes)
                (sort_on (λ e. location_sort_key (location_key e)) entries)
                (record { looks = 0; actual_bytes_read = 0 })
      ]
