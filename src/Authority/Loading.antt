-- ===== src/Authority/Loading.antt =====
-- Contexts that are created, written to a file and loaded again.
use steward_public.Base.{
  ◌≡◌, ◌∙◌, ap, refl, subst, Bool, true, false, some, List, [], ◌∷◌, ◌!=◌, nat_eq, list_eq,
  if◌then◌else◌, length, is_empty, ok, err, >>=-ok, ok-injective, raise_if, for_each, for_each-ok,
  All, arith, ◌<◌,
}
use steward_public.Base.Group.{distinct}
use steward_public.Base.Text.{Text}
use steward_public.Models.Session.{StewardSession}
use steward_public.Models.Authority.{
  RiskClass, current_content_read, derived_state_append, recovery_or_admin, external_disclosure,
  user_file_mutation, historical_read, code_workspace_read, risk_class_eq, AuthoritySource,
  AuthorityAdmission, AuthorityContext,
}
use steward_public.Authority.{
  Digested, authority_task, authority_context, is_ascii, compare_digest, verify_context,
  verify_read, context_failed_verification, admissions_required, check_task_identity,
  check_admission, sealed_context, payload_of, create_authority_context, load_authority_context,
}
use steward_public.Authority.Document.{Json, authority_context_machine_object}
use steward_public.Authority.Reading.{read_context}
use steward_public.Authority.ReadBack.{read-machine_object}

-- What an admission of a risk class has to list.
abbrev pub Lists : RiskClass → AuthorityAdmission → Type 0
Lists current_content_read a = 0 < length a.paths
Lists derived_state_append a = 0 < length a.scope_ids
Lists recovery_or_admin a = 0 < length a.run_ids
Lists external_disclosure a = 0 < length a.external_destinations
Lists user_file_mutation a = 0 < length a.user_file_ids
Lists historical_read a = Unit
Lists code_workspace_read a = Unit

abbrev pub IsProper : AuthorityAdmission → Type 0
IsProper a =
    (0 < length a.operations)
    × (length (distinct a.operations) ≡ length a.operations)
    × Lists a.risk_class a

not_empty : {A : Type 0} (xs : List A) → is_empty xs ≡ false → 0 < length xs
not_empty [] h = cc
not_empty (x ∷ xs) h = omega arith

abbrev listing_test : RiskClass → AuthorityAdmission → Bool
listing_test current_content_read a = is_empty a.paths
listing_test derived_state_append a = is_empty a.scope_ids
listing_test recovery_or_admin a = is_empty a.run_ids
listing_test external_disclosure a = is_empty a.external_destinations
listing_test user_file_mutation a = is_empty a.user_file_ids
listing_test historical_read a = false
listing_test code_workspace_read a = false

check_admission-tests :
    (c : RiskClass) (a : AuthorityAdmission)
    → a.risk_class ≡ c
    → check_admission a ≡ ok tt
    → (is_empty a.operations ≡ false)
      × (length (distinct a.operations) ≡ length a.operations)
      × (listing_test c a ≡ false)
unfolding check_admission risk_class_eq nat_eq
check_admission-tests current_content_read a e = rw e (λ h. ground arith)
check_admission-tests derived_state_append a e = rw e (λ h. ground arith)
check_admission-tests recovery_or_admin a e = rw e (λ h. ground arith)
check_admission-tests external_disclosure a e = rw e (λ h. ground arith)
check_admission-tests user_file_mutation a e = rw e (λ h. ground arith)
check_admission-tests historical_read a e = rw e (λ h. ground arith)
check_admission-tests code_workspace_read a e = rw e (λ h. ground arith)

listing_test-Lists : (c : RiskClass) (a : AuthorityAdmission) → listing_test c a ≡ false → Lists c a
listing_test-Lists current_content_read a h = not_empty a.paths h
listing_test-Lists derived_state_append a h = not_empty a.scope_ids h
listing_test-Lists recovery_or_admin a h = not_empty a.run_ids h
listing_test-Lists external_disclosure a h = not_empty a.external_destinations h
listing_test-Lists user_file_mutation a h = not_empty a.user_file_ids h
listing_test-Lists historical_read a h = tt
listing_test-Lists code_workspace_read a h = tt

check_admission-IsProper : (a : AuthorityAdmission) → check_admission a ≡ ok tt → IsProper a
check_admission-IsProper a h =
    let tests = check_admission-tests a.risk_class a refl h in
    (not_empty a.operations tests.0, tests.1, listing_test-Lists a.risk_class a tests.2)

module _ (hash : Digested → Text) (hex : (d : Digested) → is_ascii (hash d) ≡ true) where
  load-sealed :
      (session other : StewardSession) (task_identity : Text) (source : AuthoritySource)
      (admissions : List AuthorityAdmission)
      → is_ascii session.identity.authority_domain_digest ≡ true
      → is_ascii other.identity.authority_domain_digest ≡ true
      → let c = sealed_context hash session task_identity source admissions in
        verify_context hash c other ≡ (
          if session.identity.authority_domain_digest != other.identity.authority_domain_digest
          then err context_failed_verification
          else ok c)
  unfolding verify_context compare_digest sealed_context payload_of
  load-sealed session other task_identity source admissions a b =
      let task = authority_task task_identity session.identity.authority_domain_digest in
      let c = sealed_context hash session task_identity source admissions in
      ground (arith, hex task, hex (authority_context (payload_of c)))

  sealed-IsProper :
      (session : StewardSession) (task_identity : Text) (source : AuthoritySource)
      (admissions : List AuthorityAdmission)
      → for_each check_admission admissions ≡ ok tt
      → All IsProper (sealed_context hash session task_identity source admissions).admissions
  unfolding sealed_context
  sealed-IsProper session task_identity source admissions checked =
      for_each-ok IsProper check_admission check_admission-IsProper admissions checked

  load-read :
      (value : Json) (c : AuthorityContext) (other : StewardSession)
      → read_context value ≡ ok c
      → load_authority_context hash (some value) other ≡ verify_context hash c other
  unfolding load_authority_context verify_read
  load-read value c other e = ap (λ r. verify_read hash r other) e

  -- A context that is created has proper admissions only: operations without repetition and the
  -- objects that the risk class wants. What is read from the JSON object that is written of it, with
  -- every admission and every list in it, is the context itself, and it is loaded in a session of the
  -- same authority domain and refused in one of another. The digests are ASCII, as hexadecimal ones are.
  pub create-load :
      (session other : StewardSession) (task_identity : Text) (source : AuthoritySource)
      (admissions : List AuthorityAdmission) (context : AuthorityContext)
      → is_ascii session.identity.authority_domain_digest ≡ true
      → is_ascii other.identity.authority_domain_digest ≡ true
      → create_authority_context hash session task_identity source admissions ≡ ok context
      → All IsProper context.admissions
        × (read_context (authority_context_machine_object context) ≡ ok context)
        × (load_authority_context hash (some (authority_context_machine_object context)) other ≡ (
            if session.identity.authority_domain_digest != other.identity.authority_domain_digest
            then err context_failed_verification
            else ok context))
  unfolding create_authority_context
  create-load session other task_identity source admissions context a b h =
      let (_, _, h1) = >>=-ok (check_task_identity task_identity) _ h in
      let (_, _, h2) = >>=-ok (raise_if (is_empty admissions) admissions_required) _ h1 in
      let (_, checked, h3) = >>=-ok (for_each check_admission admissions) _ h2 in
      let same = ok-injective h3 in
      let sealed =
        subst
          (λ (c : AuthorityContext).
            (All IsProper c.admissions)
            × (verify_context hash c other ≡ (
                if session.identity.authority_domain_digest
                  != other.identity.authority_domain_digest
                then err context_failed_verification
                else ok c)))
          same
          (
            sealed-IsProper session task_identity source admissions checked,
            load-sealed session other task_identity source admissions a b,
          ) in
      (
        sealed.0,
        read-machine_object context,
        load-read (authority_context_machine_object context) context other
              (read-machine_object context)
            ∙ sealed.1,
      )
