-- ===== src/Authority/ReadBack.antt =====
-- A context is read back from its JSON object.
use steward_public.Base.{◌≡◌, refl, List, [], ◌∷◌, nat_eq, list_eq, ok, ℕ_discrete}
use steward_public.Base.Text.{Text}
use steward_public.Models.Authority.{
  RiskClass, historical_read, current_content_read, code_workspace_read, derived_state_append,
  recovery_or_admin, external_disclosure, user_file_mutation, AuthoritySource, explicit_request,
  host_approval, inherited_same_task, AuthorityPath, AuthorityAdmission, AuthorityContext,
}
use steward_public.Authority.Document.{
  strings, path_items, admission_payload, admission_items, authority_context_machine_object,
  risk_class_value, authority_source_value,
}
use steward_public.Authority.Reading.{
  read_strings, read_string, read_number, read_tuple, read_path, read_path_items, iterated,
  read_admission, read_admissions, read_context, member_at, value_at, value_or_empty,
  read_risk_class, read_authority_source,
}

read-strings : (xs : List Text) → read_strings (strings xs) ≡ ok xs
unfolding read_strings strings read_string
read-strings [] = refl
read-strings (x ∷ xs) = rw (read-strings xs) refl

read-paths : (paths : List AuthorityPath) → read_path_items (path_items paths) ≡ ok paths
unfolding read_path_items path_items read_path read_string value_at member_at list_eq nat_eq
    ℕ_discrete
read-paths [] = refl
read-paths (p ∷ paths) = rw (read-paths paths) refl

read-risk_class : (c : RiskClass) → read_risk_class (risk_class_value c) ≡ ok c
unfolding read_risk_class risk_class_value list_eq nat_eq ℕ_discrete
read-risk_class historical_read = refl
read-risk_class current_content_read = refl
read-risk_class code_workspace_read = refl
read-risk_class derived_state_append = refl
read-risk_class recovery_or_admin = refl
read-risk_class external_disclosure = refl
read-risk_class user_file_mutation = refl

read-source : (s : AuthoritySource) → read_authority_source (authority_source_value s) ≡ ok s
unfolding read_authority_source authority_source_value list_eq nat_eq ℕ_discrete
read-source explicit_request = refl
read-source host_approval = refl
read-source inherited_same_task = refl

read-admission : (a : AuthorityAdmission) → read_admission (admission_payload a) ≡ ok a
unfolding read_admission admission_payload read_string read_tuple iterated value_at value_or_empty
    member_at list_eq nat_eq ℕ_discrete
read-admission a =
    rw
      (
        read-risk_class a.risk_class,
        read-strings a.operations,
        read-strings a.scope_ids,
        read-strings a.snapshot_ids,
        read-strings a.run_ids,
        read-paths a.paths,
        read-strings a.external_destinations,
        read-strings a.user_file_ids,
      )
      refl

read-admissions :
    (admissions : List AuthorityAdmission)
    → read_admissions (admission_items admissions) ≡ ok admissions
unfolding read_admissions admission_items
read-admissions [] = refl
read-admissions (a ∷ admissions) = rw (read-admission a, read-admissions admissions) refl

-- Whatever its fields are, a context is read back from the JSON object that is written of it.
pub read-machine_object :
    (c : AuthorityContext) → read_context (authority_context_machine_object c) ≡ ok c
unfolding read_context authority_context_machine_object read_string read_number iterated value_at
    member_at list_eq nat_eq ℕ_discrete
read-machine_object c = rw (read-admissions c.admissions, read-source c.source) refl
