-- ===== src/Authority/Granting.antt =====
-- Which requests an authority context grants.
use steward_public.Base.{
  ◌≡◌, refl, sym, subst, inl, inr, ◌↔◌, Bool, true, false, ◌||◌, Option, none, some, List, [], ◌∷◌,
  nat_eq, list_eq, if◌then◌else◌, if_rule, Bool-cases, ok, >>=-ok, ok-injective, raise_if,
  raise_if-ok, arith, ◌&&◌, not, ◌==◌,
}
use steward_public.Base.Among.{Among}
use steward_public.Base.Text.{Text}
use steward_public.Models.Session.{StewardSession}
use steward_public.Models.Authority.{
  RiskClass, current_content_read, derived_state_append, recovery_or_admin, external_disclosure,
  user_file_mutation, historical_read, code_workspace_read, risk_class_eq, authority_path_eq,
  AuthorityAdmission, AuthorityContext,
}
use steward_public.Authority.{
  is_ascii, compare_digest, digest_not_ascii, AuthorityRequest, is_none, check_request,
  is_admitted_by, first_admission, require_authority, other_session,
}
use steward_public.Authority.Grants.{Grants, admitted-Grants, Grants-admitted}

abbrev IsGiven : {A : Type 0} → Option A → Type 0
IsGiven {A} o = (value : A) × (o ≡ some value)

-- What a request of a risk class has to name.
abbrev pub IsExact : RiskClass → AuthorityRequest → Type 0
IsExact current_content_read r = IsGiven r.scope_id × IsGiven r.path
IsExact derived_state_append r = IsGiven r.scope_id
IsExact recovery_or_admin r = IsGiven r.run_id
IsExact external_disclosure r = IsGiven r.external_destination
IsExact user_file_mutation r = IsGiven r.user_file_id
IsExact historical_read r = Unit
IsExact code_workspace_read r = Unit

is_none-IsGiven : {A : Type 0} (o : Option A) → is_none o ≡ false → IsGiven o
is_none-IsGiven none h = cc
is_none-IsGiven (some value) h = (value, refl)

-- The tests of `check_request` by the risk class, which only one of them reads.
abbrev exact_test : RiskClass → AuthorityRequest → Bool
exact_test current_content_read r = is_none r.scope_id || is_none r.path
exact_test derived_state_append r = is_none r.scope_id
exact_test recovery_or_admin r = is_none r.run_id
exact_test external_disclosure r = is_none r.external_destination
exact_test user_file_mutation r = is_none r.user_file_id
exact_test historical_read r = false
exact_test code_workspace_read r = false

check_request-exact :
    (c : RiskClass) (r : AuthorityRequest)
    → r.risk_class ≡ c
    → (check_request r ≡ ok tt) ↔ (exact_test c r ≡ false)
unfolding check_request risk_class_eq
check_request-exact current_content_read r e = rw e (ground arith, λ h. ground arith)
check_request-exact derived_state_append r e = rw e (λ h. ground arith, λ h. ground arith)
check_request-exact recovery_or_admin r e = rw e (λ h. ground arith, λ h. ground arith)
check_request-exact external_disclosure r e = rw e (λ h. ground arith, λ h. ground arith)
check_request-exact user_file_mutation r e = rw e (λ h. ground arith, λ h. ground arith)
check_request-exact historical_read r e = rw e (λ h. refl, λ h. refl)
check_request-exact code_workspace_read r e = rw e (λ h. refl, λ h. refl)

exact_test-IsExact : (c : RiskClass) (r : AuthorityRequest) → exact_test c r ≡ false → IsExact c r
exact_test-IsExact current_content_read r h =
    (is_none-IsGiven r.scope_id (ground arith), is_none-IsGiven r.path (ground arith))
exact_test-IsExact derived_state_append r h = is_none-IsGiven r.scope_id h
exact_test-IsExact recovery_or_admin r h = is_none-IsGiven r.run_id h
exact_test-IsExact external_disclosure r h = is_none-IsGiven r.external_destination h
exact_test-IsExact user_file_mutation r h = is_none-IsGiven r.user_file_id h
exact_test-IsExact historical_read r h = tt
exact_test-IsExact code_workspace_read r h = tt

IsExact-exact_test : (c : RiskClass) (r : AuthorityRequest) → IsExact c r → exact_test c r ≡ false
IsExact-exact_test current_content_read r ((s, e), (p, f)) = rw (e, f) refl
IsExact-exact_test derived_state_append r (s, e) = rw e refl
IsExact-exact_test recovery_or_admin r (s, e) = rw e refl
IsExact-exact_test external_disclosure r (s, e) = rw e refl
IsExact-exact_test user_file_mutation r (s, e) = rw e refl
IsExact-exact_test historical_read r h = refl
IsExact-exact_test code_workspace_read r h = refl

first_admission-Grants :
    (r : AuthorityRequest) (admissions : List AuthorityAdmission) (a : AuthorityAdmission)
    → first_admission r admissions ≡ ok a
    → Among a admissions × Grants r a
unfolding first_admission
first_admission-Grants r [] a h = cc
first_admission-Grants r (x ∷ rest) a h = elim (Bool-cases (is_admitted_by r x)) [
  | inl e ↦
      let same : x ≡ a =
        ok-injective (subst (λ b. (if b then ok x else first_admission r rest) ≡ ok a) e h) in
      (inl (sym same), subst (Grants r) same (admitted-Grants r x e))
  | inr e ↦
      let (m, g) =
        first_admission-Grants r rest a
          (subst (λ b. (if b then ok x else first_admission r rest) ≡ ok a) e h) in
      (inr m, g)
]

Grants-first_admission :
    (r : AuthorityRequest) (admissions : List AuthorityAdmission) (a : AuthorityAdmission)
    → Among a admissions
    → Grants r a
    → (b : AuthorityAdmission) × (first_admission r admissions ≡ ok b)
unfolding first_admission
Grants-first_admission r [] a m g = elim m [ ]
Grants-first_admission r (x ∷ rest) a (inl e) g =
    (x, rw (Grants-admitted r x (subst (Grants r) e g)))
Grants-first_admission r (x ∷ rest) a (inr m) g =
    let (b, h) = Grants-first_admission r rest a m g in
    if_rule (λ o. (b : AuthorityAdmission) × (o ≡ ok b)) (is_admitted_by r x) (ok x)
      (first_admission r rest) (λ _. (x, refl)) (λ _. (b, h))

compare_digest_same :
    (a b : Text) (same : Bool)
    → compare_digest a b ≡ ok same
    → not same ≡ false
    → (a ≡ b) × (is_ascii b ≡ true)
unfolding compare_digest
compare_digest_same a b same h passed =
    let (_, ascii, h1) = >>=-ok (raise_if (not (is_ascii a && is_ascii b)) digest_not_ascii) _ h in
    let both = raise_if-ok (not (is_ascii a && is_ascii b)) digest_not_ascii ascii in
    let equal : (a == b) ≡ same = ok-injective h1 in (ground arith, ground arith)

compare_digest_self : (a b : Text) → a ≡ b → is_ascii b ≡ true → compare_digest a b ≡ ok true
unfolding compare_digest
compare_digest_self a b e h = ground arith

-- A request is granted, and by an admission of the context that grants it, exactly when the context
-- belongs to the session's authority domain, whose digest is ASCII, the request names the objects
-- that its risk class has to name, and some admission grants it. An admission grants a request when it
-- has its risk class, its operation and each scope, Run, path, destination and file that it names,
-- where one that is not named matters not, and when its Snapshots fit: none is listed, or all that the
-- request names are and the request names some.
pub require_authority_iff :
    (context : AuthorityContext) (session : StewardSession) (r : AuthorityRequest)
    → ((a : AuthorityAdmission)
        → require_authority context session r ≡ ok a
        → (context.authority_domain_digest ≡ session.identity.authority_domain_digest)
          × (is_ascii session.identity.authority_domain_digest ≡ true)
          × IsExact r.risk_class r
          × Among a context.admissions
          × Grants r a)
      × (context.authority_domain_digest ≡ session.identity.authority_domain_digest
          → is_ascii session.identity.authority_domain_digest ≡ true
          → IsExact r.risk_class r
          → (a : AuthorityAdmission) → Among a context.admissions
          → Grants r a
          → (b : AuthorityAdmission) × (require_authority context session r ≡ ok b))
unfolding require_authority
require_authority_iff context session r = (
  λ a h.
      let own = context.authority_domain_digest in
      let domain = session.identity.authority_domain_digest in
      let (same, compared, h0) = >>=-ok (compare_digest own domain) _ h in
      let (_, first, h1) = >>=-ok (raise_if (not same) other_session) _ h0 in
      let (_, second, h2) = >>=-ok (check_request r) _ h1 in
      let (equal, ascii) =
        compare_digest_same own domain same compared (raise_if-ok (not same) other_session first) in
      let (m, g) = first_admission-Grants r context.admissions a h2 in
      (
        equal,
        ascii,
        exact_test-IsExact r.risk_class r ((check_request-exact r.risk_class r refl).0 second),
        m,
        g,
      ),
  λ same ascii exact a m g.
      rw
        (
          compare_digest_self context.authority_domain_digest
              session.identity.authority_domain_digest same ascii,
          (check_request-exact r.risk_class r refl).1 (IsExact-exact_test r.risk_class r exact),
        )
        (Grants-first_admission r context.admissions a m g),
)
