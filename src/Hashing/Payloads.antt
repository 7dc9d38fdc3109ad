-- ===== src/Hashing/Payloads.antt =====
-- What `observe_payloads` returns, and the bytes that it reads.
use steward_public.Base.{
  ℕ, ◌≡◌, refl, sym, subst, ◌∙◌, ◌⊎◌, inl, inr, true, not, Option, none, some, List, [], ◌∷◌, ◌++◌,
  nat_eq, list_eq, pair_eq, option_eq, if_rule, arith, Result, ok, >>=-ok, ok-injective,
}
use steward_public.Base.Dict
use steward_public.Base.Int.{int_eq}
use steward_public.Base.Order.{nat_order, list_order, pair_order}
use steward_public.Base.Sort.{sort_on}
use steward_public.Base.Text.{Text}
use steward_public.Models.Status.{object_type_eq, observation_status_eq}
use steward_public.Models.Entry.{FilesystemEntry, PayloadObservation, PayloadHashPolicy}
use steward_public.Models.Config.{FilePath, ScopeConfig}
use steward_public.Diff.{location_key, location_sort_key}
use steward_public.Hashing.{HashingError, Host, Limits, validate_payload_hash_policy}
use steward_public.Hashing.Chunks.{Usage, roots_onto}
use steward_public.Hashing.Direct.{observe_direct_payloads}
use steward_public.Hashing.Grounds.{IsGrounded}
use steward_public.Hashing.Observed.{Observed, observe_direct_payloads-Observed}
use steward_public.Hashing.Reuse.{
  Resolver, Probe, settled, missed, raised, probe, settle, observe_or_reuse, observe_payloads,
}
use steward_public.Hashing.Reused.{IsReused, IsSettled, Settles, Probes, probe-Probes}

Observed-append :
    (P : FilesystemEntry → PayloadObservation → Type 0) (entry : FilesystemEntry)
    (entries first later : List FilesystemEntry)
    → Observed P (entry ∷ []) first
    → Observed P entries later
    → Observed P (entry ∷ entries) (first ++ later)
Observed-append P entry entries [] later one rest = absurd one
Observed-append P entry entries (o ∷ []) later one rest = (one.0, rest)
Observed-append P entry entries (o ∷ other ∷ more) later one rest = absurd one.1

Observed-weaken :
    (P Q : FilesystemEntry → PayloadObservation → Type 0)
    → ((entry : FilesystemEntry) (observation : PayloadObservation)
        → P entry observation
        → Q entry observation)
    → (entries observed_entries : List FilesystemEntry) → Observed P entries observed_entries
    → Observed Q entries observed_entries
Observed-weaken P Q k [] [] o = tt
Observed-weaken P Q k (entry ∷ entries) (x ∷ xs) ((observation, same, p), rest) =
    ((observation, same, k entry observation p), Observed-weaken P Q k entries xs rest)
Observed-weaken P Q k [] (x ∷ xs) o = absurd o
Observed-weaken P Q k (entry ∷ entries) [] o = absurd o

-- An observation says no digest, is of all bytes of the entry's file, or was found by the resolver.
abbrev pub IsFounded :
    Host
    → Option Resolver
    → (List ℕ → Text)
    → PayloadHashPolicy
    → Limits
    → Dict.Dict Text FilePath
    → FilesystemEntry
    → PayloadObservation
    → Type 0
IsFounded host resolver sha256 policy limits roots entry observation =
    IsGrounded host sha256 policy limits roots entry observation
    ⊎ ((chosen : Resolver) × (resolver ≡ some chosen)
        × (policy.allow_verified_reuse ≡ true)
        × IsReused host chosen roots entry observation)

module _ (host : Host) (sha256 : List ℕ → Text) (scopes : List ScopeConfig)
    (policy : PayloadHashPolicy) (limits : Limits)
    (valid : validate_payload_hash_policy policy ≡ ok limits) where
  abbrev Founded : Option Resolver → FilesystemEntry → PayloadObservation → Type 0
  Founded resolver = IsFounded host resolver sha256 policy limits (roots_onto [] scopes)

  direct-Founded :
      (resolver : Option Resolver) (entries : List FilesystemEntry) (usage : Usage)
      (o : List FilesystemEntry × Usage)
      → observe_direct_payloads host sha256 entries scopes policy usage ≡ ok o
      → Observed (Founded resolver) (sort_on (λ e. location_sort_key (location_key e)) entries) o.0
  direct-Founded resolver entries usage o h =
      let (found, same, observed_entries) =
        observe_direct_payloads-Observed host sha256 entries scopes policy usage o.1 o.0 h in
      let equal : found ≡ limits = ok-injective (sym same ∙ valid) in
      Observed-weaken (IsGrounded host sha256 policy limits (roots_onto [] scopes))
        (Founded resolver) (λ entry observation g. inl g)
        (sort_on (λ e. location_sort_key (location_key e)) entries) o.0
        (subst
          (λ l.
            Observed (IsGrounded host sha256 policy l (roots_onto [] scopes))
              (sort_on (λ e. location_sort_key (location_key e)) entries) o.0)
          equal observed_entries)

  module _ (resolver : Resolver) (allowed : policy.allow_verified_reuse ≡ true) where
    settle-Founded :
        (entry : FilesystemEntry) (probed : Probe × Usage) (o : List FilesystemEntry × Usage)
        → Settles host resolver (roots_onto [] scopes) entry probed
        → settle host resolver sha256 scopes policy entry probed ≡ ok o
        → Observed (Founded (some resolver)) (entry ∷ []) o.0
    unfolding settle sort_on
    settle-Founded entry (settled observation, usage) o settles h =
        subst
          (λ (q : List FilesystemEntry × Usage).
            Observed (Founded (some resolver)) (entry ∷ []) q.0)
          (ok-injective h) ((observation, refl, founded settles), tt)
      where
        founded :
            IsSettled host resolver (roots_onto [] scopes) entry observation
            → Founded (some resolver) entry observation
        founded (inl bare) = inl (inl bare)
        founded (inr reused) = inr (resolver, refl, allowed, reused)
    settle-Founded entry (raised, usage) o settles h = cc
    settle-Founded entry (missed, usage) o settles h =
        direct-Founded (some resolver) (entry ∷ []) usage o h

    observe_or_reuse-Founded :
        (entries : List FilesystemEntry) (usage : Usage) (o : List FilesystemEntry × Usage)
        → observe_or_reuse host resolver sha256 scopes policy (roots_onto [] scopes) entries usage
          ≡ ok o
        → Observed (Founded (some resolver)) entries o.0
    unfolding observe_or_reuse
    observe_or_reuse-Founded [] usage o h =
        subst (λ (q : List FilesystemEntry × Usage). Observed (Founded (some resolver)) [] q.0)
          (ok-injective h) tt
    observe_or_reuse-Founded (entry ∷ rest) usage o h =
        let (probed, e, h1) = >>=-ok (probe host resolver (roots_onto [] scopes) entry usage) _ h in
        let (first, e1, h2) =
          >>=-ok (settle host resolver sha256 scopes policy entry probed) _ h1 in
        let (later, e2, h3) =
          >>=-ok
            (observe_or_reuse host resolver sha256 scopes policy (roots_onto [] scopes) rest
              first.1)
            _ h2 in
        let settles =
          subst (Probes host resolver (roots_onto [] scopes) entry) e
            (probe-Probes host resolver (roots_onto [] scopes) entry usage) in
        subst
          (λ (q : List FilesystemEntry × Usage).
            Observed (Founded (some resolver)) (entry ∷ rest) q.0)
          (ok-injective h3)
          (Observed-append (Founded (some resolver)) entry rest first.0 later.0
            (settle-Founded entry probed first settles e1)
            (observe_or_reuse-Founded rest first.1 later e2))

-- What the payload observation returns are the entries in the order of their scopes and paths, each
-- unchanged but for its observation. An observation says no digest; or it is the digest of all bytes of
-- a file, which had the identity, size and times that the scan had recorded when it was opened and,
-- as the file at the path, when it was read to its end; or the policy allows the reuse and the
-- resolver found it for the entry, whose file did not change meanwhile.
pub observe_payloads-Observed :
    (host : Host) (resolver : Option Resolver) (sha256 : List ℕ → Text)
    (entries : List FilesystemEntry) (scopes : List ScopeConfig) (policy : PayloadHashPolicy)
    (u : Usage) (observed_entries : List FilesystemEntry)
    → observe_payloads host resolver sha256 entries scopes policy ≡ ok (observed_entries, u)
    → (limits : Limits) × (validate_payload_hash_policy policy ≡ ok limits)
      × Observed
          (IsFounded host resolver sha256 policy limits (roots_onto [] scopes))
          (sort_on (λ e. location_sort_key (location_key e)) entries)
          observed_entries
unfolding observe_payloads
observe_payloads-Observed host none sha256 entries scopes policy u observed_entries h =
    let (limits, valid, h1) = >>=-ok (validate_payload_hash_policy policy) _ h in
    (
      limits,
      valid,
      direct-Founded host sha256 scopes policy limits valid none entries _ (observed_entries, u) h1,
    )
observe_payloads-Observed host (some resolver) sha256 entries scopes policy u observed_entries h =
    let (limits, valid, h1) = >>=-ok (validate_payload_hash_policy policy) _ h in
    let sorted = sort_on (λ e. location_sort_key (location_key e)) entries in
    let start : Usage = record { looks = 0; actual_bytes_read = 0 } in
    (
      limits,
      valid,
      if_rule
          (λ (r : Result HashingError (List FilesystemEntry × Usage)).
            r ≡ ok (observed_entries, u)
            → Observed (IsFounded host (some resolver) sha256 policy limits (roots_onto [] scopes))
                sorted observed_entries)
          (not policy.allow_verified_reuse)
          (observe_direct_payloads host sha256 entries scopes policy start)
          (observe_or_reuse host resolver sha256 scopes policy (roots_onto [] scopes) sorted start)
          (λ _ e.
            direct-Founded host sha256 scopes policy limits valid (some resolver) entries start
              (observed_entries, u) e)
          (λ allowed e.
            observe_or_reuse-Founded host sha256 scopes policy limits valid resolver (ground arith)
              sorted start (observed_entries, u) e)
          h1,
    )
