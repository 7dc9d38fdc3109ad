-- ===== src/Authority/Reading.antt =====
-- agent_authority/service.py: the context that `load_authority_context` reads from a JSON value. A value
-- of another type than its field's is refused here, where the source would keep it as it is and leave
-- it to the digest.
use steward_public.Base.{
  ℕ, Option, none, some, List, [], ◌∷◌, ◌==◌, nat_eq, list_eq, if◌then◌else◌, Result, ok, err,
  ◌>>=◌,
}
use steward_public.Base.Text.{Text, text}
use steward_public.Models.Authority.{
  RiskClass, historical_read, current_content_read, code_workspace_read, derived_state_append,
  recovery_or_admin, external_disclosure, user_file_mutation, AuthoritySource, explicit_request,
  host_approval, inherited_same_task, AuthorityPath, AuthorityAdmission, AuthorityContext,
}
use steward_public.Authority.Document.{
  Json, string, number, array, object, JsonItems, no_items, item, JsonMembers, no_members, member,
}

-- the exceptions that the loader catches
pub data DocumentError : Type 0 where
  value_error type_error key_error : DocumentError

unfoldable pub member_at : Text → JsonMembers → Option Json
member_at key no_members = none
member_at key (member name value rest) = if key == name then some value else member_at key rest

-- `value[key]`
unfoldable pub value_at : Text → Json → Result DocumentError Json
value_at key (object members) = elim (member_at key members) [
  | none ↦ err key_error
  | some value ↦ ok value
]
value_at key _ = err type_error

-- `item.get(key, ())`, of an item that has been asked for a key already
unfoldable pub value_or_empty : Text → Json → Json
value_or_empty key (object members) = elim (member_at key members) [
  | none ↦ array no_items
  | some value ↦ value
]
value_or_empty key _ = array no_items

unfoldable pub read_string : Json → Result DocumentError Text
read_string (string s) = ok s
read_string _ = err type_error

unfoldable pub read_number : Json → Result DocumentError ℕ
read_number (number n) = ok n
read_number _ = err type_error

unfoldable pub read_strings : JsonItems → Result DocumentError (List Text)
read_strings no_items = ok []
read_strings (item value rest) = do s ← read_string value; later ← read_strings rest; ok (s ∷ later)

unfoldable pub member_names : JsonMembers → List Text
member_names no_members = []
member_names (member name value rest) = name ∷ member_names rest

-- the characters of a string, each as a string
unfoldable pub characters : Text → List Text
characters [] = []
characters (c ∷ s) = (c ∷ []) ∷ characters s

-- `tuple(value)`
unfoldable pub read_tuple : Json → Result DocumentError (List Text)
read_tuple (array items) = read_strings items
read_tuple (string s) = ok (characters s)
read_tuple (object members) = ok (member_names members)
read_tuple _ = err type_error

unfoldable pub read_risk_class : Text → Result DocumentError RiskClass
read_risk_class s =
    if s == text "HISTORICAL_READ"
    then ok historical_read
    else if s == text "CURRENT_CONTENT_READ"
    then ok current_content_read
    else if s == text "CODE_WORKSPACE_READ"
    then ok code_workspace_read
    else if s == text "DERIVED_STATE_APPEND"
    then ok derived_state_append
    else if s == text "RECOVERY_OR_ADMIN"
    then ok recovery_or_admin
    else if s == text "EXTERNAL_DISCLOSURE"
    then ok external_disclosure
    else if s == text "USER_FILE_MUTATION"
    then ok user_file_mutation
    else err value_error

unfoldable pub read_authority_source : Text → Result DocumentError AuthoritySource
read_authority_source s =
    if s == text "EXPLICIT_REQUEST"
    then ok explicit_request
    else if s == text "HOST_APPROVAL"
    then ok host_approval
    else if s == text "INHERITED_SAME_TASK"
    then ok inherited_same_task
    else err value_error

-- `AuthorityPath(**entry)`: both keys, and no other
unfoldable pub read_path : Json → Result DocumentError AuthorityPath
read_path (object (member first a (member second b no_members))) = do
  scope_id ← value_at (text "scope_id") (object (member first a (member second b no_members)))
  relative_path ←
      value_at (text "relative_path") (object (member first a (member second b no_members)))
  s ← read_string scope_id
  r ← read_string relative_path
  ok (record { scope_id = s; relative_path = r })
read_path _ = err type_error

unfoldable pub read_path_items : JsonItems → Result DocumentError (List AuthorityPath)
read_path_items no_items = ok []
read_path_items (item value rest) = do
  path ← read_path value
  later ← read_path_items rest
  ok (path ∷ later)

-- the values of a loop over a JSON value that has to be objects: of a string or an object there is none
unfoldable pub iterated : Json → Result DocumentError JsonItems
iterated (array items) = ok items
iterated (string []) = ok no_items
iterated (object no_members) = ok no_items
iterated _ = err type_error

unfoldable pub read_admission : Json → Result DocumentError AuthorityAdmission
read_admission value = do
  risk_class_item ← value_at (text "risk_class") value
  risk_class_text ← read_string risk_class_item
  risk_class ← read_risk_class risk_class_text
  operation_items ← value_at (text "operations") value
  operations ← read_tuple operation_items
  scope_ids ← read_tuple (value_or_empty (text "scope_ids") value)
  snapshot_ids ← read_tuple (value_or_empty (text "snapshot_ids") value)
  run_ids ← read_tuple (value_or_empty (text "run_ids") value)
  path_values ← iterated (value_or_empty (text "paths") value)
  paths ← read_path_items path_values
  external_destinations ← read_tuple (value_or_empty (text "external_destinations") value)
  user_file_ids ← read_tuple (value_or_empty (text "user_file_ids") value)
  ok (record {
    risk_class = risk_class;
    operations = operations;
    scope_ids = scope_ids;
    snapshot_ids = snapshot_ids;
    run_ids = run_ids;
    paths = paths;
    external_destinations = external_destinations;
    user_file_ids = user_file_ids;
  })

unfoldable pub read_admissions : JsonItems → Result DocumentError (List AuthorityAdmission)
read_admissions no_items = ok []
read_admissions (item value rest) = do
  a ← read_admission value
  later ← read_admissions rest
  ok (a ∷ later)

-- the `try` block of `load_authority_context`, once the file is parsed
unfoldable pub read_context : Json → Result DocumentError AuthorityContext
read_context value = do
  admissions_value ← value_at (text "admissions") value
  admission_values ← iterated admissions_value
  admissions ← read_admissions admission_values
  schema_name_value ← value_at (text "schema_name") value
  schema_name ← read_string schema_name_value
  schema_version_value ← value_at (text "schema_version") value
  schema_version ← read_number schema_version_value
  domain_value ← value_at (text "authority_domain_digest") value
  authority_domain_digest ← read_string domain_value
  task_value ← value_at (text "task_identity_digest") value
  task_identity_digest ← read_string task_value
  source_value ← value_at (text "source") value
  source_text ← read_string source_value
  source ← read_authority_source source_text
  digest_value ← value_at (text "context_digest") value
  context_digest ← read_string digest_value
  ok (record {
    schema_name = schema_name;
    schema_version = schema_version;
    authority_domain_digest = authority_domain_digest;
    task_identity_digest = task_identity_digest;
    source = source;
    admissions = admissions;
    context_digest = context_digest;
  })
