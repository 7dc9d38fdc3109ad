-- ===== src/Session/Policies.antt =====
-- resolve_snapshot, policy by policy.
use steward_public.Base.{
  ◌≡◌, refl, sym, subst, ◌∙◌, Bool, true, false, not, Bool-cases, ◌||◌, Option, none, some, nat_eq,
  list_eq, filter, ok, >>=-ok, raise_if, raise_if-ok, arith, ◌⊎◌, inl, inr, ◌≢◌,
}
use steward_public.Base.Among.{Among, Among-filter, filter-Among}
use steward_public.Base.Order.{nat_order, list_order}
use steward_public.Base.Text.{Text}
use steward_public.Models.Session.{
  SelectionPolicy, exact_id, task_created, only_compatible, latest_valid, previous_valid,
  TaskObjectKind, TaskObjectReference, SnapshotSummary, SnapshotSelectionRequest,
}
use steward_public.Session.{
  Verification, SnapshotStore, ResolvedSnapshot, TaskObjectMemory, valid_candidates, is_none,
  is_previous, fits_scope, exact_valid_snapshot, require, resolve_exact, resolve_task, resolve_only,
  resolve_latest, resolve_previous, by_policy, resolve_snapshot, names_no_object, exact_arguments,
  task_arguments, identity_not_accepted, anchor_arguments, incompatible_scope,
}
use steward_public.Session.Recorded.{require-IsRecorded}
use steward_public.Session.Selecting.{
  IsCompatible, fits-FitsScope, valid_candidates-filter, Among-IsCompatible, IsCompatible-Among,
  newest_candidate-IsNewest, single_candidate-one, sole_member, exact_valid_snapshot-detail,
}
use steward_public.Session.Promises.{IsDetail, IsBefore, Promise, IsFit, scoped-IsFit, chosen-IsFit}

passed : (b : Bool) → not b ≡ false → b ≡ true
passed b h = ground arith

module _ (store : SnapshotStore) (request : SnapshotSelectionRequest) where
  exact-Promise :
      (memory : Option TaskObjectMemory) (id : Option Text) (r : ResolvedSnapshot)
      → request.exact_snapshot_id ≡ id
      → resolve_exact store request id ≡ ok r
      → IsFit exact_id request r × Promise exact_id store request memory r
  unfolding resolve_exact
  exact-Promise memory none r e h = cc
  exact-Promise memory (some id) r e h =
      let (_, _, h1) =
        >>=-ok
          (raise_if
            (not (is_none request.task_reference) || not (is_none request.anchor_snapshot_id))
            exact_arguments)
          _ h in
      let (found, exact, h2) = >>=-ok (exact_valid_snapshot store id) _ h1 in
      let (fit, detail) = scoped-IsFit store request exact_id id found r exact h2 in
      (fit, (id, e, detail))

  task-Promise :
      (memory : Option TaskObjectMemory) (o : Option TaskObjectReference) (r : ResolvedSnapshot)
      → request.task_reference ≡ o
      → resolve_task store request memory o ≡ ok r
      → IsFit task_created request r × Promise task_created store request memory r
  unfolding resolve_task
  task-Promise none o r e h = cc
  task-Promise (some m) none r e h = cc
  task-Promise (some m) (some reference) r e h =
      let (_, _, h1) =
        >>=-ok
          (raise_if
            (not (is_none request.exact_snapshot_id) || not (is_none request.anchor_snapshot_id))
            task_arguments)
          _ h in
      let (recorded, required, h2) = >>=-ok (require m reference TaskObjectKind.snapshot) _ h1 in
      let (found, exact, h3) = >>=-ok (exact_valid_snapshot store recorded.object_id) _ h2 in
      let (same, known) =
        require-IsRecorded m reference TaskObjectKind.snapshot recorded required in
      let (fit, detail) =
        scoped-IsFit store request task_created recorded.object_id found r exact h3 in
      (
        fit,
        (
          m,
          reference,
          refl,
          e,
          known,
          subst (λ (q : TaskObjectReference). IsDetail store q.object_id r) same detail,
        ),
      )

  only-Promise :
      (memory : Option TaskObjectMemory) (r : ResolvedSnapshot)
      → resolve_only store request ≡ ok r
      → IsFit only_compatible request r × Promise only_compatible store request memory r
  unfolding resolve_only
  only-Promise memory r h =
      let (_, _, h1) =
        >>=-ok (raise_if (not (names_no_object store request)) identity_not_accepted) _ h in
      let (cs, offered, h2) = >>=-ok (valid_candidates store request.scope_id) _ h1 in
      let all = valid_candidates-filter store request.scope_id cs offered in
      let (c, sole, same) = single_candidate-one only_compatible request.scope_id cs r h2 in
      let compatible =
        Among-IsCompatible store request.scope_id c (subst (Among c) (sym sole ∙ all) (inl refl)) in
      let (fit, choice) = chosen-IsFit store request only_compatible c r compatible same in
      (
        fit,
        (
          c,
          compatible,
          λ d k.
              sole_member d c
                (subst (Among d) (sym all ∙ sole) (IsCompatible-Among store request.scope_id d k)),
          choice,
        ),
      )

  latest-Promise :
      (memory : Option TaskObjectMemory) (r : ResolvedSnapshot)
      → resolve_latest store request ≡ ok r
      → IsFit latest_valid request r × Promise latest_valid store request memory r
  unfolding resolve_latest
  latest-Promise memory r h =
      let (_, _, h1) =
        >>=-ok (raise_if (not (names_no_object store request)) identity_not_accepted) _ h in
      let (cs, offered, h2) = >>=-ok (valid_candidates store request.scope_id) _ h1 in
      let all = valid_candidates-filter store request.scope_id cs offered in
      let (c, newest, same) =
        newest_candidate-IsNewest (IsCompatible store request.scope_id) latest_valid
          request.scope_id cs r
          (λ d m. Among-IsCompatible store request.scope_id d (subst (Among d) all m))
          (λ d k. subst (Among d) (sym all) (IsCompatible-Among store request.scope_id d k)) h2 in
      let (fit, choice) = chosen-IsFit store request latest_valid c r newest.0 same in
      (fit, (c, newest, choice))

  IsBefore-tests :
      (anchor : SnapshotSummary) (d : SnapshotSummary × Verification)
      → is_previous anchor request.scope_id d ≡ true
      → (d.0.snapshot_id ≢ anchor.snapshot_id)
        × (list_order.lt d.0.created_at anchor.created_at ≡ true)
        × ((is_none request.scope_id ≡ false) ⊎ (d.0.scope_ids ≡ anchor.scope_ids))
  IsBefore-tests anchor d h = (
    λ e. ground arith,
    ground arith,
    elim (Bool-cases (is_none request.scope_id)) [ inl e ↦ inr (ground arith) | inr e ↦ inl e ],
  )

  tests-IsBefore :
      (anchor : SnapshotSummary) (d : SnapshotSummary × Verification)
      → (d.0.snapshot_id ≢ anchor.snapshot_id)
      → list_order.lt d.0.created_at anchor.created_at ≡ true
      → (is_none request.scope_id ≡ false) ⊎ (d.0.scope_ids ≡ anchor.scope_ids)
      → is_previous anchor request.scope_id d ≡ true
  tests-IsBefore anchor d differ earlier (inl e) = ground arith
  tests-IsBefore anchor d differ earlier (inr e) = ground arith

  previous-Promise :
      (memory : Option TaskObjectMemory) (id : Option Text) (r : ResolvedSnapshot)
      → request.anchor_snapshot_id ≡ id
      → resolve_previous store request id ≡ ok r
      → IsFit previous_valid request r × Promise previous_valid store request memory r
  unfolding resolve_previous
  previous-Promise memory none r e h = cc
  previous-Promise memory (some id) r e h =
      let (_, _, h1) =
        >>=-ok
          (raise_if
            (not (is_none request.exact_snapshot_id) || not (is_none request.task_reference))
            anchor_arguments)
          _ h in
      let (anchor, exact, h2) = >>=-ok (exact_valid_snapshot store id) _ h1 in
      let (_, fits, h3) =
        >>=-ok
          (raise_if (not (fits_scope request.scope_id anchor.snapshot.scope_ids))
            incompatible_scope)
          _ h2 in
      let (cs, offered, h4) = >>=-ok (valid_candidates store request.scope_id) _ h3 in
      let all = valid_candidates-filter store request.scope_id cs offered in
      let (detail, valid) = exact_valid_snapshot-detail store id anchor exact in
      let p = is_previous anchor.snapshot request.scope_id in
      let (c, newest, same) =
        newest_candidate-IsNewest (IsBefore store request.scope_id anchor.snapshot) previous_valid
          request.scope_id (filter p cs) r
          (λ d m.
            let (there, passes) = Among-filter p d cs m in
            let tests = IsBefore-tests anchor.snapshot d passes in
            (
              Among-IsCompatible store request.scope_id d (subst (Among d) all there),
              tests.0,
              tests.1,
              tests.2,
            ))
          (λ d k.
            filter-Among p d cs
              (subst (Among d) (sym all) (IsCompatible-Among store request.scope_id d k.0))
              (tests-IsBefore anchor.snapshot d k.1 k.2 k.3))
          h4 in
      let (fit, choice) = chosen-IsFit store request previous_valid c r newest.0.0 same in
      (
        fit,
        (
          id,
          anchor,
          e,
          detail,
          valid,
          fits-FitsScope request.scope_id anchor.snapshot.scope_ids
              (passed _ (raise_if-ok _ _ fits)),
          c,
          newest,
          choice,
        ),
      )

  by_policy-Promise :
      (policy : SelectionPolicy) (memory : Option TaskObjectMemory) (r : ResolvedSnapshot)
      → by_policy store policy request memory ≡ ok r
      → IsFit policy request r × Promise policy store request memory r
  unfolding by_policy
  by_policy-Promise exact_id memory r h = exact-Promise memory request.exact_snapshot_id r refl h
  by_policy-Promise task_created memory r h = task-Promise memory request.task_reference r refl h
  by_policy-Promise only_compatible memory r h = only-Promise memory r h
  by_policy-Promise latest_valid memory r h = latest-Promise memory r h
  by_policy-Promise previous_valid memory r h =
      previous-Promise memory request.anchor_snapshot_id r refl h

  -- A Snapshot that is selected was verified as VALID, has the requested scope and carries the policy,
  -- and is the one that the policy promises: the Snapshot with the given identity; the one that the
  -- task recorded; the only compatible one; the newest compatible one, every other being older; or
  -- the newest of those before a VALID anchor, which have the anchor's scopes where none is requested.
  pub resolve_snapshot-Promise :
      (memory : Option TaskObjectMemory) (r : ResolvedSnapshot)
      → resolve_snapshot store request memory ≡ ok r
      → IsFit request.policy request r × Promise request.policy store request memory r
  unfolding resolve_snapshot
  resolve_snapshot-Promise memory r h = by_policy-Promise request.policy memory r h
