-- ===== src/Runs/Creating.antt =====
-- `create_run` and `list_runs` of runs.py.
use steward_public.Base.{
  ℕ, suc, Bool, true, false, ◌&&◌, ◌||◌, Option, none, some, List, [], ◌∷◌, Result, ok, err,
  if◌then◌else◌, leb, ◌==◌, list_eq, nat_eq, contains, length, filter, take,
}
use steward_public.Base.Dict
use steward_public.Base.Order.{nat_order, list_order}
use steward_public.Base.Sort.{sort_on}
use steward_public.Base.Text.{Text, text}
use steward_public.Models.Status.{RunStatus, run_status_eq, run_status_value, created}
use steward_public.Evidence.{run_created, EvidenceBody, EvidenceDocument}
use steward_public.Runs.{
  RunRecord, Storage, Surroundings, RunError, run_kind_error, not_initialized, storage_busy,
  run_created_type, evidence, publish,
}

is_kind_start : ℕ → Bool
is_kind_start c = leb b'a' c && leb c b'z'

is_kind_char : ℕ → Bool
unfolding is_kind_start
is_kind_char c = is_kind_start c || leb b'0' c && leb c b'9' || c == b'.' || c == b'_' || c == b'-'

every : (ℕ → Bool) → Text → Bool
every p [] = true
every p (c ∷ s) = p c && every p s

-- `[a-z][a-z0-9._-]{0,63}\Z`
unfoldable pub is_run_kind : Text → Bool
unfolding is_kind_start is_kind_char every nat_eq
is_run_kind [] = false
is_run_kind (c ∷ s) = is_kind_start c && every is_kind_char s && leb (length s) 63

is_hex : ℕ → Bool
is_hex c = leb b'0' c && leb c b'9' || leb b'a' c && leb c b'f'

-- the character that a canonical UUIDv4 may have at a position
uuid4_char : ℕ → ℕ → Bool
unfolding is_hex
uuid4_char position c =
    if contains (8 ∷ 13 ∷ 18 ∷ 23 ∷ []) position
    then c == b'-'
    else if position == 14
    then c == b'4'
    else if position == 19
    then contains (b'8' ∷ b'9' ∷ b'a' ∷ b'b' ∷ []) c
    else is_hex c

uuid4_from : ℕ → Text → Bool
uuid4_from position [] = position == 36
uuid4_from position (c ∷ s) = uuid4_char position c && uuid4_from (suc position) s

-- `uuid.UUID(run_id)` has version 4 and is spelled canonically
unfoldable pub is_uuid4 : Text → Bool
unfolding uuid4_char uuid4_from nat_eq
is_uuid4 s = uuid4_from 0 s

-- the `metadata` argument: no dict, no JSON value, or its JSON text
pub data Metadata : Type 0 where
  no_object no_json : Metadata
  json : Text → Metadata

abbrev pub metadata_json : Option Metadata → Result RunError Text
metadata_json none = ok (text "{}")
metadata_json (some no_object) = err run_kind_error
metadata_json (some no_json) = err run_kind_error
metadata_json (some (json value)) = ok value

-- the row before its first Evidence
unfoldable pub new_run : Surroundings → Text → Text → Text → Text → RunRecord
new_run at run_id run_kind config_digest metadata = record {
  run_id = run_id;
  run_kind = run_kind;
  status = created;
  created_at = at.now;
  updated_at = at.now;
  config_digest = config_digest;
  metadata = metadata;
  last_sequence = 0;
  last_evidence_digest = none;
  terminal = false;
}

-- the row that is inserted
unfoldable pub created_row : RunRecord → EvidenceDocument → RunRecord
created_row run item = record run {
  created_at = item.created_at;
  updated_at = item.created_at;
  last_sequence = 1;
  last_evidence_digest = some item.evidence_digest;
}

-- `_run_id or str(uuid.uuid4())`
abbrev pub chosen_id : Surroundings → Option Text → Text
chosen_id at none = at.fresh_run_id
chosen_id at (some []) = at.fresh_run_id
chosen_id at (some run_id) = run_id

module _ (hash : EvidenceBody → Text) where
  unfoldable pub create_checked :
      Surroundings → Storage → Text → Text → Text → Text → Result RunError RunRecord × Storage
  unfolding evidence new_run created_row
  create_checked at s run_id run_kind config_digest metadata =
      let run = new_run at run_id run_kind config_digest metadata in
      let item =
        evidence hash at run run_created_type
          (run_created run_kind (run_status_value created) metadata) in
      publish hash at s (created_row run item) item (Dict.has_key run_id s.runs)

  unfoldable pub create_with :
      Surroundings
      → Storage
      → Text
      → Text
      → Text
      → Result RunError Text
      → Result RunError RunRecord × Storage
  unfolding create_checked
  create_with at s run_id run_kind config_digest (err e) = (err e, s)
  create_with at s run_id run_kind config_digest (ok metadata) =
      if is_uuid4 run_id
      then if s.initialized
        then if at.begin_locked
          then (err storage_busy, s)
          else create_checked at s run_id run_kind config_digest metadata
        else (err not_initialized, s)
      else (err run_kind_error, s)

  unfoldable pub create_run :
      Surroundings
      → Storage
      → Text
      → Option Metadata
      → Option Text
      → Text
      → Result RunError RunRecord × Storage
  unfolding is_run_kind create_with is_uuid4
  create_run at s run_kind metadata requested config_digest =
      if is_run_kind run_kind
      then create_with at s (chosen_id at requested) run_kind config_digest (metadata_json metadata)
      else (err run_kind_error, s)

-- `ORDER BY created_at DESC, run_id ASC`: the later comes first
place_by_age : RunRecord → List RunRecord → List RunRecord
unfolding list_order nat_order
place_by_age r [] = r ∷ []
place_by_age r (q ∷ rest) =
    let more = place_by_age r rest in
    if list_order.lt r.created_at q.created_at then q ∷ more else r ∷ q ∷ rest

by_age : List RunRecord → List RunRecord
unfolding place_by_age
by_age [] = []
by_age (r ∷ rest) = place_by_age r (by_age rest)

-- an absent filter, and the empty `run_kind`, let every row pass
abbrev passes_status : Option RunStatus → RunRecord → Bool
passes_status none r = true
passes_status (some status) r = r.status == status

abbrev passes_kind : Option Text → RunRecord → Bool
passes_kind none r = true
passes_kind (some []) r = true
passes_kind (some run_kind) r = r.run_kind == run_kind

abbrev wanted : Option RunStatus → Option Text → RunRecord → Bool
wanted status run_kind r = passes_status status r && passes_kind run_kind r

unfoldable pub list_runs :
    Storage → Option RunStatus → Option Text → ℕ → Result RunError (List RunRecord)
unfolding by_age run_status_eq
list_runs s status run_kind limit =
    if leb 1 limit && leb limit 1000
    then if s.initialized
      then ok (
          take limit (
            by_age (
              sort_on (λ (r : RunRecord). r.run_id)
                (filter (wanted status run_kind) (Dict.values s.runs)))))
      else err not_initialized
    else err run_kind_error
