-- ===== src/Hashing/Observed.antt =====
-- The entries that the direct reader returns, one by one.
use steward_public.Base.{
  ℕ, suc, ◌≡◌, refl, subst, inl, not, Option, none, some, List, [], ◌∷◌, ◌!=◌, nat_eq, list_eq,
  pair_eq, option_eq, if◌then◌else◌, if_rule, arith, Result, ok, err, ◌>>=◌, >>=-ok, ok-injective,
}
use steward_public.Base.Dict
use steward_public.Base.Int.{ℤ, int_eq, ltb_ℤ}
use steward_public.Base.Order.{nat_order, list_order, pair_order}
use steward_public.Base.Sort.{sort_on}
use steward_public.Base.Text.{Text, text}
use steward_public.Models.Status.{regular_file, object_type_eq, observed, observation_status_eq}
use steward_public.Models.Entry.{FilesystemEntry, PayloadObservation, PayloadHashPolicy}
use steward_public.Models.Config.{FilePath, ScopeConfig}
use steward_public.Scan.Host.{Stat, is_regular_mode}
use steward_public.Diff.{location_key, location_sort_key}
use steward_public.Hashing.{
  HashingError, ReadError, Descriptor, Host, Limits, PayloadLocality, local, non_local,
  unknown_locality, validate_payload_hash_policy,
}
use steward_public.Hashing.Chunks.{
  Usage, Outcome, unsupported, failure, roots_onto, path_for, entry_matches_stat, v2_entry, looked,
  room, locality_of,
}
use steward_public.Hashing.Direct.{
  observe_opened, observe_file, observe_located, observe_sized, observe_entry, observe_entries,
  observe_direct_payloads,
}
use steward_public.Hashing.Grounds.{IsGrounded, Grounds, failure_of-digest, read_file-Grounds}

-- Each entry comes back with an observation of which `P` holds, and with nothing else changed.
abbrev pub Observed :
    (FilesystemEntry → PayloadObservation → Type 0)
    → List FilesystemEntry
    → List FilesystemEntry
    → Type 0
Observed P [] [] = Unit
Observed P (entry ∷ entries) (o ∷ observed_entries) =
    ((observation : PayloadObservation) × (o ≡ v2_entry entry observation) × P entry observation)
    × Observed P entries observed_entries
Observed P [] (o ∷ observed_entries) = ⊥
Observed P (entry ∷ entries) [] = ⊥

module _ (host : Host) (sha256 : List ℕ → Text) (policy : PayloadHashPolicy) (limits : Limits)
    (roots : Dict.Dict Text FilePath) where
  module _ (entry : FilesystemEntry) where
    abbrev Grounded : Outcome → Type 0
    Grounded = Grounds host sha256 policy limits roots entry

    observe_opened-Grounded :
        (path : FilePath) (usage : Usage) (descriptor : Descriptor) (answer : Result ReadError Stat)
        → path_for roots entry ≡ ok path
        → host.open_file usage.looks path ≡ ok descriptor
        → descriptor.fstat usage.looks ≡ answer
        → Grounded (observe_opened host sha256 policy limits entry path usage descriptor answer)
    unfolding observe_opened failure
    observe_opened-Grounded path usage descriptor (err error) stands_at opened stated =
        inl (failure_of-digest host sha256 policy limits error)
    observe_opened-Grounded path usage descriptor (ok before) stands_at opened stated =
        if_rule Grounded (not (is_regular_mode before.st_mode)) _ _ (λ _. inl refl)
          (λ regular.
            if_rule Grounded (not (entry_matches_stat entry before)) _ _ (λ _. inl refl)
              (λ scanned.
                if_rule Grounded (ltb_ℤ limits.max_file_bytes before.st_size) _ _ (λ _. inl refl)
                  (λ _.
                    if_rule Grounded (ltb_ℤ (room limits usage) before.st_size) _ _ (λ _. inl refl)
                      (λ _.
                        read_file-Grounds host sha256 policy limits roots entry path stands_at
                          descriptor before usage.looks opened stated (ground arith) (ground arith)
                          usage refl))))

    observe_file-Grounded :
        (path : FilePath) (usage : Usage) (answer : Result ReadError Descriptor)
        → path_for roots entry ≡ ok path
        → host.open_file usage.looks path ≡ answer
        → Grounded (observe_file host sha256 policy limits entry path usage answer)
    unfolding observe_file
    observe_file-Grounded path usage (err error) stands_at opened =
        inl (failure_of-digest host sha256 policy limits error)
    observe_file-Grounded path usage (ok descriptor) stands_at opened =
        observe_opened-Grounded path usage descriptor (descriptor.fstat usage.looks) stands_at
          opened refl

    observe_located-Grounded :
        (path : FilePath) (usage : Usage) (locality : PayloadLocality)
        → path_for roots entry ≡ ok path
        → Grounded (observe_located host sha256 policy limits entry path usage locality)
    unfolding observe_located failure
    observe_located-Grounded path usage non_local stands_at = inl refl
    observe_located-Grounded path usage unknown_locality stands_at = inl refl
    observe_located-Grounded path usage local stands_at =
        if_rule Grounded (not host.has_nofollow) _ _ (λ _. inl refl)
          (λ _. observe_file-Grounded path usage (host.open_file usage.looks path) stands_at refl)

    observe_sized-Grounded :
        (size : ℤ) (usage : Usage)
        → Grounded (observe_sized host sha256 policy limits roots entry size usage)
    unfolding observe_sized failure
    observe_sized-Grounded size usage =
        if_rule Grounded (host.late usage.looks) _ _ (λ _. inl refl)
          (λ _.
            if_rule Grounded (ltb_ℤ limits.max_file_bytes size) _ _ (λ _. inl refl)
              (λ _.
                if_rule Grounded (ltb_ℤ (room limits (looked usage)) size) _ _ (λ _. inl refl)
                  (λ _. located (path_for roots entry) refl)))
      where
        located :
            (path : Result HashingError FilePath)
            → path_for roots entry ≡ path
            → Grounded (
                path >>= λ path.
                observe_located host sha256 policy limits entry path
                  (looked usage)
                  (locality_of (host.locality (suc usage.looks) path)))
        located (err e) h = tt
        located (ok path) h = observe_located-Grounded path (looked usage) _ h

    pub observe_entry-Grounded :
        (usage : Usage) → Grounded (observe_entry host sha256 policy limits roots entry usage)
    unfolding observe_entry failure
    observe_entry-Grounded usage =
        if_rule Grounded (entry.object_type != regular_file) _ _ (λ _. inl refl)
          (λ _. if_rule Grounded entry.excluded _ _ (λ _. inl refl) (λ _. sized entry.size_bytes))
      where
        sized :
            (size : Option ℤ)
            → Grounded (elim size [
              | none ↦ ok (unsupported (text "METADATA_UNAVAILABLE"), usage)
              | some size ↦
                  if entry.observation_status != observed
                  then ok (unsupported (text "METADATA_UNAVAILABLE"), usage)
                  else observe_sized host sha256 policy limits roots entry size usage
            ])
        sized none = inl refl
        sized (some size) =
            if_rule Grounded (entry.observation_status != observed) _ _ (λ _. inl refl)
              (λ _. observe_sized-Grounded size usage)

  pub observe_entries-Observed :
      (entries : List FilesystemEntry) (usage : Usage) (o : List FilesystemEntry × Usage)
      → observe_entries host sha256 policy limits roots entries usage ≡ ok o
      → Observed (IsGrounded host sha256 policy limits roots) entries o.0
  unfolding observe_entries
  observe_entries-Observed [] usage o h =
      subst
        (λ (q : List FilesystemEntry × Usage).
          Observed (IsGrounded host sha256 policy limits roots) [] q.0)
        (ok-injective h) tt
  observe_entries-Observed (entry ∷ rest) usage o h =
      let (first, e, h1) = >>=-ok (observe_entry host sha256 policy limits roots entry usage) _ h in
      let (later, e2, h2) =
        >>=-ok (observe_entries host sha256 policy limits roots rest first.1) _ h1 in
      subst
        (λ (q : List FilesystemEntry × Usage).
          Observed (IsGrounded host sha256 policy limits roots) (entry ∷ rest) q.0)
        (ok-injective h2)
        (
          (
            first.0,
            refl,
            subst (Grounds host sha256 policy limits roots entry) e
                (observe_entry-Grounded entry usage),
          ),
          observe_entries-Observed rest first.1 later e2,
        )

-- What the direct reader returns are the entries in the order of their scopes and paths, each unchanged
-- but for its observation. An observation says no digest, or it is the digest of all bytes of a file:
-- the file that was opened has the identity, size and times that the scan had recorded, it was read to
-- its end in time, and afterwards both the open file and the file at the path still had them.
pub observe_direct_payloads-Observed :
    (host : Host) (sha256 : List ℕ → Text) (entries : List FilesystemEntry)
    (scopes : List ScopeConfig) (policy : PayloadHashPolicy) (usage u : Usage)
    (observed_entries : List FilesystemEntry)
    → observe_direct_payloads host sha256 entries scopes policy usage ≡ ok (observed_entries, u)
    → (limits : Limits) × (validate_payload_hash_policy policy ≡ ok limits)
      × Observed
          (IsGrounded host sha256 policy limits (roots_onto [] scopes))
          (sort_on (λ e. location_sort_key (location_key e)) entries)
          observed_entries
unfolding observe_direct_payloads
observe_direct_payloads-Observed host sha256 entries scopes policy usage u observed_entries h =
    let (limits, valid, h1) = >>=-ok (validate_payload_hash_policy policy) _ h in
    (
      limits,
      valid,
      observe_entries-Observed host sha256 policy limits (roots_onto [] scopes)
          (sort_on (λ e. location_sort_key (location_key e)) entries) usage (observed_entries, u)
          h1,
    )
