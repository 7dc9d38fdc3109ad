-- ===== src/Authority/Document.antt =====
-- agent_authority/service.py: the JSON object that is written of a context.
use steward_public.Base.{ℕ, Bool, List, [], ◌∷◌}
use steward_public.Base.Text.{Text, text}
use steward_public.Models.Authority.{
  RiskClass, historical_read, current_content_read, code_workspace_read, derived_state_append,
  recovery_or_admin, external_disclosure, user_file_mutation, AuthoritySource, explicit_request,
  host_approval, inherited_same_task, AuthorityPath, AuthorityAdmission, AuthorityContext,
}

-- what `json.loads` returns, where an object has each key once
mutual
  pub data Json : Type 0 where
    null : Json
    boolean : Bool → Json
    number : ℕ → Json
    other_number string : Text → Json
    array : JsonItems → Json
    object : JsonMembers → Json

  pub data JsonItems : Type 0 where
    no_items : JsonItems
    item : Json → JsonItems → JsonItems

  pub data JsonMembers : Type 0 where
    no_members : JsonMembers
    member : Text → Json → JsonMembers → JsonMembers

-- `RiskClass` and `AuthoritySource` by their values
unfoldable pub risk_class_value : RiskClass → Text
risk_class_value historical_read = text "HISTORICAL_READ"
risk_class_value current_content_read = text "CURRENT_CONTENT_READ"
risk_class_value code_workspace_read = text "CODE_WORKSPACE_READ"
risk_class_value derived_state_append = text "DERIVED_STATE_APPEND"
risk_class_value recovery_or_admin = text "RECOVERY_OR_ADMIN"
risk_class_value external_disclosure = text "EXTERNAL_DISCLOSURE"
risk_class_value user_file_mutation = text "USER_FILE_MUTATION"

unfoldable pub authority_source_value : AuthoritySource → Text
authority_source_value explicit_request = text "EXPLICIT_REQUEST"
authority_source_value host_approval = text "HOST_APPROVAL"
authority_source_value inherited_same_task = text "INHERITED_SAME_TASK"

-- `list(values)`
unfoldable pub strings : List Text → JsonItems
strings [] = no_items
strings (x ∷ xs) = item (string x) (strings xs)

unfoldable pub path_items : List AuthorityPath → JsonItems
path_items [] = no_items
path_items (p ∷ paths) =
    item
      (object (
        member (text "scope_id") (string p.scope_id)
          (member (text "relative_path") (string p.relative_path) no_members)))
      (path_items paths)

-- `_admission_payload`
unfoldable pub admission_payload : AuthorityAdmission → Json
admission_payload a = object (
    member (text "risk_class") (string (risk_class_value a.risk_class)) (
      member (text "operations") (array (strings a.operations)) (
        member (text "scope_ids") (array (strings a.scope_ids)) (
          member (text "snapshot_ids") (array (strings a.snapshot_ids)) (
            member (text "run_ids") (array (strings a.run_ids)) (
              member (text "paths") (array (path_items a.paths)) (
                member (text "external_destinations") (array (strings a.external_destinations)) (
                  member (text "user_file_ids") (array (strings a.user_file_ids)) no_members))))))))

unfoldable pub admission_items : List AuthorityAdmission → JsonItems
admission_items [] = no_items
admission_items (a ∷ admissions) = item (admission_payload a) (admission_items admissions)

unfoldable pub authority_context_machine_object : AuthorityContext → Json
authority_context_machine_object c = object (
    member (text "schema_name") (string c.schema_name) (
      member (text "schema_version") (number c.schema_version) (
        member (text "authority_domain_digest") (string c.authority_domain_digest) (
          member (text "task_identity_digest") (string c.task_identity_digest) (
            member (text "source") (string (authority_source_value c.source)) (
              member (text "admissions") (array (admission_items c.admissions))
                (member (text "context_digest") (string c.context_digest) no_members)))))))
