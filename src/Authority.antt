-- ===== src/Authority.antt =====
-- agent_authority/service.py. The two digests are the argument `hash` of what is digested.
pub mod Document
pub mod Reading
pub mod ReadBack
pub mod Grants
pub mod Granting
pub mod Loading
use steward_public.Base.{
  ℕ, Eq, Bool, true, false, not, ◌&&◌, ◌||◌, Option, none, some, List, [], ◌∷◌, ◌==◌, ◌!=◌, nat_eq,
  list_eq, if◌then◌else◌, length, contains, is_empty, any, Result, ok, err, ◌>>=◌, ◌>>◌, raise_if,
  for_each, ltb, leb,
}
use steward_public.Base.Group.{distinct}
use steward_public.Base.Text.{Text, text, encode_strict, has_control}
use steward_public.Models.Session.{StewardSession}
use steward_public.Models.Authority.{
  authority_schema_name, authority_schema_version, RiskClass, current_content_read,
  derived_state_append, recovery_or_admin, external_disclosure, user_file_mutation, risk_class_eq,
  AuthoritySource, AuthorityPath, authority_path_eq, AuthorityAdmission, AuthorityContext,
}
use steward_public.Authority.Document.{Json}
use steward_public.Authority.Reading.{DocumentError, read_context}

pub data AuthorityError : Type 0 where
  unicode_encode_error task_identity_invalid admissions_required admission_invalid : AuthorityError
  operations_not_unique exact_paths_required exact_scopes_required : AuthorityError
  exact_runs_required exact_destinations_required exact_files_required : AuthorityError
  digest_not_ascii context_unavailable context_failed_verification other_session : AuthorityError
  one_path_required one_scope_required one_run_required : AuthorityError
  one_destination_required one_file_required not_admitted : AuthorityError

-- What the digest of a context is taken of: every field but the digest.
pub record ContextPayload : Type 0 where
  pub schema_name : Text
  pub schema_version : ℕ
  pub authority_domain_digest : Text
  pub task_identity_digest : Text
  pub source : AuthoritySource
  pub admissions : List AuthorityAdmission

-- What is digested, under its domain label: the task's identity in a domain, or a context.
pub data Digested : Type 0 where
  authority_task : Text → Text → Digested
  authority_context : ContextPayload → Digested

-- `authority_context_machine_object` without its digest
unfoldable pub payload_of : AuthorityContext → ContextPayload
payload_of context = record {
  schema_name = context.schema_name;
  schema_version = context.schema_version;
  authority_domain_digest = context.authority_domain_digest;
  task_identity_digest = context.task_identity_digest;
  source = context.source;
  admissions = context.admissions;
}

over_length : Option (List ℕ) → Result AuthorityError Bool
over_length none = err unicode_encode_error
over_length (some bytes) = ok (ltb 1024 (length bytes))

-- the test of the task's identity, from left to right
unfoldable pub check_task_identity : Text → Result AuthorityError (Unit {0})
unfolding over_length
check_task_identity task_identity = do
  raise_if (is_empty task_identity) task_identity_invalid
  long ← over_length (encode_strict task_identity)
  raise_if (long || has_control task_identity) task_identity_invalid

-- the body of the loop over the admissions
unfoldable pub check_admission : AuthorityAdmission → Result AuthorityError (Unit {0})
check_admission a = do
  raise_if (is_empty a.operations) admission_invalid
  raise_if (length (distinct a.operations) != length a.operations) operations_not_unique
  raise_if (a.risk_class == current_content_read && is_empty a.paths) exact_paths_required
  raise_if (a.risk_class == derived_state_append && is_empty a.scope_ids) exact_scopes_required
  raise_if (a.risk_class == recovery_or_admin && is_empty a.run_ids) exact_runs_required
  raise_if (a.risk_class == external_disclosure && is_empty a.external_destinations)
      exact_destinations_required
  raise_if (a.risk_class == user_file_mutation && is_empty a.user_file_ids) exact_files_required

-- `hmac.compare_digest` of two texts; a TypeError where one of them is not ASCII
unfoldable pub is_ascii : Text → Bool
is_ascii s = not (any (λ c. leb 128 c) s)

unfoldable pub compare_digest : Text → Text → Result AuthorityError Bool
compare_digest a b = raise_if (not (is_ascii a && is_ascii b)) digest_not_ascii >> ok (a == b)

module _ (hash : Digested → Text) where
  -- the context that is made once the checks have passed
  unfoldable pub sealed_context :
      StewardSession → Text → AuthoritySource → List AuthorityAdmission → AuthorityContext
  sealed_context session task_identity source admissions =
      let domain = session.identity.authority_domain_digest in
      let task_digest = hash (authority_task task_identity domain) in
      record {
        schema_name = authority_schema_name;
        schema_version = authority_schema_version;
        authority_domain_digest = domain;
        task_identity_digest = task_digest;
        source = source;
        admissions = admissions;
        context_digest = hash (
            authority_context (record {
              schema_name = authority_schema_name;
              schema_version = authority_schema_version;
              authority_domain_digest = domain;
              task_identity_digest = task_digest;
              source = source;
              admissions = admissions;
            }));
      }

  unfoldable pub create_authority_context :
      StewardSession
      → Text
      → AuthoritySource
      → List AuthorityAdmission
      → Result AuthorityError AuthorityContext
  create_authority_context session task_identity source admissions = do
    check_task_identity task_identity
    raise_if (is_empty admissions) admissions_required
    for_each check_admission admissions
    ok (sealed_context session task_identity source admissions)

  -- the verification of a context that was read; `hmac.compare_digest` raises where a text is not ASCII
  unfoldable pub verify_context :
      AuthorityContext → StewardSession → Result AuthorityError AuthorityContext
  verify_context context session = do
    raise_if
        (context.schema_name != authority_schema_name
          || context.schema_version != authority_schema_version)
        context_failed_verification
    same_domain ←
        compare_digest context.authority_domain_digest session.identity.authority_domain_digest
    raise_if (not same_domain) context_failed_verification
    same_digest ←
        compare_digest context.context_digest (hash (authority_context (payload_of context)))
    raise_if (not same_digest) context_failed_verification
    ok context

  -- what the `try` block leaves to the verification
  unfoldable pub verify_read :
      Result DocumentError AuthorityContext
      → StewardSession
      → Result AuthorityError AuthorityContext
  verify_read (err error) session = err context_unavailable
  verify_read (ok context) session = verify_context context session

  -- `load_authority_context` on what the file's JSON says, or nothing where it cannot be read or parsed
  unfoldable pub load_authority_context :
      Option Json → StewardSession → Result AuthorityError AuthorityContext
  load_authority_context none session = err context_unavailable
  load_authority_context (some value) session = verify_read (read_context value) session

-- The arguments by which an object is resolved.
pub record AuthorityRequest : Type 0 where
  pub risk_class : RiskClass
  pub operation : Text
  pub scope_id : Option Text
  pub snapshot_ids : List Text
  pub run_id : Option Text
  pub path : Option AuthorityPath
  pub external_destination : Option Text
  pub user_file_id : Option Text

abbrev pub is_none {ℓ} : {A : Type ℓ} → Option A → Bool
is_none none = true
is_none (some _) = false

-- the tests that come before the loop
unfoldable pub check_request : AuthorityRequest → Result AuthorityError (Unit {0})
check_request r = do
  raise_if (r.risk_class == current_content_read && (is_none r.scope_id || is_none r.path))
      one_path_required
  raise_if (r.risk_class == derived_state_append && is_none r.scope_id) one_scope_required
  raise_if (r.risk_class == recovery_or_admin && is_none r.run_id) one_run_required
  raise_if (r.risk_class == external_disclosure && is_none r.external_destination)
      one_destination_required
  raise_if (r.risk_class == user_file_mutation && is_none r.user_file_id) one_file_required

-- `value is not None and value not in admitted`
unfoldable pub is_missing : {A : Type 0} ⦃e : Eq A⦄ → Option A → List A → Bool
is_missing none admitted = false
is_missing (some value) admitted = not (contains admitted value)

-- `set(wanted).issubset(admitted)`
unfoldable pub is_subset : List Text → List Text → Bool
is_subset [] admitted = true
is_subset (x ∷ wanted) admitted = contains admitted x && is_subset wanted admitted

-- the two tests of the Snapshots: whether the admission is passed over
unfoldable pub snapshots_refused : List Text → List Text → Bool
snapshots_refused wanted [] = false
snapshots_refused [] (x ∷ admitted) = true
snapshots_refused (w ∷ wanted) (x ∷ admitted) = not (is_subset (w ∷ wanted) (x ∷ admitted))

-- the body of the loop: whether the admission is returned
unfoldable pub is_admitted_by : AuthorityRequest → AuthorityAdmission → Bool
is_admitted_by r a =
    if a.risk_class != r.risk_class || not (contains a.operations r.operation)
    then false
    else if is_missing r.scope_id a.scope_ids
    then false
    else if snapshots_refused r.snapshot_ids a.snapshot_ids
    then false
    else if is_missing r.run_id a.run_ids
    then false
    else if is_missing r.path a.paths
    then false
    else if is_missing r.external_destination a.external_destinations
    then false
    else not (is_missing r.user_file_id a.user_file_ids)

unfoldable pub first_admission :
    AuthorityRequest → List AuthorityAdmission → Result AuthorityError AuthorityAdmission
first_admission r [] = err not_admitted
first_admission r (a ∷ rest) = if is_admitted_by r a then ok a else first_admission r rest

unfoldable pub require_authority :
    AuthorityContext → StewardSession → AuthorityRequest → Result AuthorityError AuthorityAdmission
require_authority context session r = do
  same_domain ←
      compare_digest context.authority_domain_digest session.identity.authority_domain_digest
  raise_if (not same_domain) other_session
  check_request r
  first_admission r context.admissions
