-- ===== src/Models/Authority.antt =====
-- agent_authority/models.py.
use steward_public.Base.{ℕ, Eq, List, list_eq, nat_eq}
use steward_public.Base.Text.{Text, text}

unfoldable pub authority_schema_name : Text
authority_schema_name = text "local_steward.authority_context"

abbrev pub authority_schema_version : ℕ
authority_schema_version = 1

pub data RiskClass : Type 0 where
  historical_read current_content_read code_workspace_read derived_state_append : RiskClass
  recovery_or_admin external_disclosure user_file_mutation : RiskClass

risk_class_dec : Discrete RiskClass
risk_class_dec = hlevel

instance unfoldable pub risk_class_eq : Eq RiskClass
unfolding risk_class_dec
risk_class_eq = record { dec = risk_class_dec }

pub data AuthoritySource : Type 0 where
  explicit_request host_approval inherited_same_task : AuthoritySource

pub record AuthorityPath : Type 0 where
  pub scope_id : Text
  pub relative_path : Text

authority_path_dec : Discrete AuthorityPath
unfolding list_eq nat_eq
authority_path_dec = hlevel (list_eq {A = ℕ}).dec

instance unfoldable pub authority_path_eq : Eq AuthorityPath
unfolding authority_path_dec
authority_path_eq = record { dec = authority_path_dec }

pub record AuthorityAdmission : Type 0 where
  pub risk_class : RiskClass
  pub operations : List Text
  pub scope_ids : List Text
  pub snapshot_ids : List Text
  pub run_ids : List Text
  pub paths : List AuthorityPath
  pub external_destinations : List Text
  pub user_file_ids : List Text

pub record AuthorityContext : Type 0 where
  pub schema_name : Text
  pub schema_version : ℕ
  pub authority_domain_digest : Text
  pub task_identity_digest : Text
  pub source : AuthoritySource
  pub admissions : List AuthorityAdmission
  pub context_digest : Text
