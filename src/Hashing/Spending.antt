-- ===== src/Hashing/Spending.antt =====
-- The bytes that `observe_payloads` reads.
use steward_public.Base.{
  ℕ, ◌+◌, ◌≡◌, ◌⊎◌, Option, some, List, nat_eq, list_eq, pair_eq, option_eq, Result, ok, err, ◌≤◌,
}
use steward_public.Base.Int.{pos_part, int_eq}
use steward_public.Base.Order.{nat_order, list_order, pair_order}
use steward_public.Base.Text.{Text}
use steward_public.Models.Status.{object_type_eq, observation_status_eq}
use steward_public.Models.Entry.{FilesystemEntry, PayloadHashPolicy}
use steward_public.Models.Config.{ScopeConfig}
use steward_public.Hashing.{
  HashingError, resolver_failed, Host, Limits, validate_payload_hash_policy,
}
use steward_public.Hashing.Chunks.{Usage}
use steward_public.Hashing.Budget.{IsPosix}
use steward_public.Hashing.Reuse.{Resolver, other_exception}
use steward_public.Hashing.Probing.{Raises}

module _ (host : Host) (sha256 : List ℕ → Text) (scopes : List ScopeConfig)
    (policy : PayloadHashPolicy) (limits : Limits) (posix : IsPosix host)
    (valid : validate_payload_hash_policy policy ≡ ok limits) where
  abbrev Spends : Usage → Type 0
  Spends usage =
      usage.actual_bytes_read ≤ pos_part limits.max_total_bytes + pos_part limits.chunk_size

  -- The call returns, and the bytes read are in the bound.
  abbrev pub Ends : Result HashingError (List FilesystemEntry × Usage) → Type 0
  Ends r = (o : List FilesystemEntry × Usage) × (r ≡ ok o) × Spends o.1

  module _ (resolver : Resolver) where
    -- The call ends so, or with the resolver's own exception.
    abbrev pub EndsOrRaises : Result HashingError (List FilesystemEntry × Usage) → Type 0
    EndsOrRaises r = Ends r ⊎ ((r ≡ err resolver_failed) × Raises host resolver)

-- The observation ends as it may, whichever resolver it was given.
abbrev pub Ended : Option Resolver → ℕ → Result HashingError (List FilesystemEntry × Usage) → Type 0
Ended resolver bound r =
    ((o : List FilesystemEntry × Usage) × (r ≡ ok o) × (o.1.actual_bytes_read ≤ bound))
    ⊎ ((chosen : Resolver) × (resolver ≡ some chosen)
        × (entry : FilesystemEntry) × (chosen entry ≡ err other_exception)
        × (r ≡ err resolver_failed))
