-- ===== src/Tests/AuthorityExamples.antt =====
-- agent_authority/service.py at concrete data.
use steward_public.Base.{
  ◌≡◌, refl, true, Option, none, some, [], ◌∷◌, ◌!=◌, nat_eq, list_eq, if◌then◌else◌, ok, err, All,
  ℕ_discrete,
}
use steward_public.Base.Among.{Among}
use steward_public.Base.Group.{distinct}
use steward_public.Base.Text.{Text, text, encode, encode_strict}
use steward_public.Models.Session.{StewardSession}
use steward_public.Models.Authority.{
  authority_schema_name, current_content_read, explicit_request, AuthorityPath, AuthorityAdmission,
  AuthorityContext, risk_class_eq, authority_path_eq,
}
use steward_public.Authority.{
  is_ascii, compare_digest, Digested, AuthorityRequest, not_admitted, context_failed_verification,
  check_task_identity, check_admission, sealed_context, create_authority_context,
  load_authority_context, check_request, is_missing, is_subset, snapshots_refused, is_admitted_by,
  first_admission, require_authority,
}
use steward_public.Authority.Document.{authority_context_machine_object}
use steward_public.Authority.Reading.{read_context}
use steward_public.Authority.Grants.{Grants}
use steward_public.Authority.Granting.{IsExact, require_authority_iff}
use steward_public.Authority.Loading.{IsProper, create-load}
use steward_public.Tests.ScanExamples.{config}

abbrev hash : Digested → Text
hash _ = text "h"

abbrev pub session_of : Text → StewardSession
session_of domain = record {
  identity = record {
    schema_name = text "local_steward.steward_session";
    schema_version = 1;
    project_name = text "p";
    configuration_digest = text "c";
    authority_domain_digest = domain;
  };
  config = config;
}

abbrev note : AuthorityPath
note = record { scope_id = text "m"; relative_path = text "f" }

abbrev admission : AuthorityAdmission
admission = record {
  risk_class = current_content_read;
  operations = text "read" ∷ [];
  scope_ids = text "m" ∷ [];
  snapshot_ids = [];
  run_ids = [];
  paths = note ∷ [];
  external_destinations = [];
  user_file_ids = [];
}

abbrev context : AuthorityContext
context = record {
  schema_name = text "local_steward.authority_context";
  schema_version = 1;
  authority_domain_digest = text "d";
  task_identity_digest = text "h";
  source = explicit_request;
  admissions = admission ∷ [];
  context_digest = text "h";
}

abbrev request : Option AuthorityPath → AuthorityRequest
request path = record {
  risk_class = current_content_read;
  operation = text "read";
  scope_id = some (text "m");
  snapshot_ids = [];
  run_id = none;
  path = path;
  external_destination = none;
  user_file_id = none;
}

created :
    create_authority_context hash
      (session_of (text "d"))
      (text "task")
      explicit_request
      (admission ∷ [])
    ≡ ok context
unfolding create_authority_context check_task_identity encode_strict encode check_admission
    sealed_context authority_schema_name distinct risk_class_eq list_eq nat_eq ℕ_discrete
created = refl

ascii_hash : (d : Digested) → is_ascii (hash d) ≡ true
unfolding is_ascii
ascii_hash d = refl

ascii_domain : is_ascii (text "d") ≡ true
unfolding is_ascii
ascii_domain = refl

create-load_example :
    All IsProper context.admissions
    × (read_context (authority_context_machine_object context) ≡ ok context)
    × (load_authority_context hash
          (some (authority_context_machine_object context))
          (session_of (text "d"))
        ≡ (if text "d" != text "d" then err context_failed_verification else ok context))
create-load_example =
    create-load hash ascii_hash (session_of (text "d")) (session_of (text "d")) (text "task")
      explicit_request (admission ∷ []) context ascii_domain ascii_domain created

granted : require_authority context (session_of (text "d")) (request (some note)) ≡ ok admission
unfolding compare_digest is_ascii require_authority check_request first_admission is_admitted_by
    is_missing is_subset snapshots_refused risk_class_eq authority_path_eq list_eq nat_eq ℕ_discrete
granted = refl

refused :
    require_authority context
      (session_of (text "d"))
      (request (some (record { scope_id = text "m"; relative_path = text "g" })))
    ≡ err not_admitted
unfolding compare_digest is_ascii require_authority check_request first_admission is_admitted_by
    is_missing is_subset snapshots_refused risk_class_eq authority_path_eq list_eq nat_eq ℕ_discrete
refused = refl

require_authority_iff_example :
    (context.authority_domain_digest ≡ text "d")
    × (is_ascii (text "d") ≡ true)
    × IsExact current_content_read (request (some note))
    × Among admission context.admissions
    × Grants (request (some note)) admission
require_authority_iff_example =
    (require_authority_iff context (session_of (text "d")) (request (some note))).0 admission
      granted
