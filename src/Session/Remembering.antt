-- ===== src/Session/Remembering.antt =====
-- What a task's memory keeps over its calls.
use steward_public.Base.{
  ◌≡◌, ◌≢◌, refl, ◌⊎◌, inl, inr, ◌&&◌, Option, none, some, ◌==◌, nat_eq, list_eq, pair_eq,
  option_eq, if_rule, contains, Result, ok, err,
}
use steward_public.Base.Dict
use steward_public.Base.Dict.{lookup-insert, lookup-insert_self, lookup-insert_ne}
use steward_public.Base.Text.{Text}
use steward_public.Models.Config.{ScopeConfig}
use steward_public.Models.Session.{
  TaskObjectKind, task_object_kind_eq, TaskObjectReference, SnapshotSummary,
}
use steward_public.Scan.Host.{entry_key}
use steward_public.Session.{
  SessionError, Verification, is_valid, EntryKey, SnapshotStore, ResolvedSnapshot, TaskObjectMemory,
  task_object_reference_eq, is_uuid,
}
use steward_public.Session.Memory.{
  Digested, task_object_reference, payload_of, Outcome, new_reference, recorded, remember_found,
  remember_first, remember_checked, remember_run, remember_found_scope,
}

-- An Entry reference names its scope and its path.
abbrev pub IsComplete : TaskObjectKind → TaskObjectReference → Type 0
IsComplete TaskObjectKind.entry reference =
    ((scope_id : Text) × (reference.scope_id ≡ some scope_id))
    × ((path : Text) × (reference.relative_path ≡ some path))
IsComplete TaskObjectKind.snapshot reference = Unit
IsComplete TaskObjectKind.run reference = Unit
IsComplete TaskObjectKind.scope reference = Unit

-- A reference is identified by the digest of what it says, of its task and of the session's domain.
abbrev pub IsOwn : (Digested → Text) → TaskObjectMemory → TaskObjectReference → Type 0
IsOwn hash memory reference =
    (reference.reference_id
      ≡ hash (task_object_reference (payload_of memory.task_digest reference)))
    × (reference.authority_domain_digest ≡ memory.authority_domain_digest)
    × IsComplete reference.kind reference

abbrev pub IsSound : (Digested → Text) → TaskObjectMemory → Type 0
IsSound hash memory =
    (reference_id : Text) (reference : TaskObjectReference)
    → Dict.lookup reference_id memory.references ≡ some reference
    → (reference.reference_id ≡ reference_id) × IsOwn hash memory reference

-- A call leaves the memory alone or puts one reference of its own into it.
abbrev pub Extends : (Digested → Text) → TaskObjectMemory → TaskObjectMemory → Type 0
Extends hash memory after =
    (after ≡ memory)
    ⊎ ((reference : TaskObjectReference) × IsOwn hash memory reference
        × (after ≡ (recorded memory reference).1))

-- Two things with one digest.
abbrev pub Collision : (Digested → Text) → Type 0
Collision hash = (a : Digested) × (b : Digested) × (a ≢ b) × (hash a ≡ hash b)

module _ (hash : Digested → Text) where
  new_reference-IsOwn :
      (memory : TaskObjectMemory) (kind : TaskObjectKind) (object_id : Text)
      (snapshot_id scope_id path : Option Text)
      → let r = new_reference hash memory kind object_id snapshot_id scope_id path in
        IsComplete kind r → IsOwn hash memory r
  unfolding new_reference payload_of
  new_reference-IsOwn memory kind object_id snapshot_id scope_id path complete =
      (refl, refl, complete)

  module _ (store : SnapshotStore) (memory : TaskObjectMemory) where
    pub remember_found-Extends :
        (kind : TaskObjectKind) (object_id : SnapshotSummary → Text)
        (found : Result SessionError ResolvedSnapshot)
        → ((r : TaskObjectReference) → IsComplete kind r)
        → Extends hash memory (remember_found hash store memory kind object_id found).1
    unfolding remember_found
    remember_found-Extends kind object_id (err e) complete = inl refl
    remember_found-Extends kind object_id (ok found) complete =
        inr (_, new_reference-IsOwn memory kind _ _ none none (complete _), refl)

    remember_first-Extends :
        (entry_hash : Text → Text) (snapshot_id scope_id path : Text)
        (page : Option (Verification × (SnapshotSummary × Option EntryKey)))
        → Extends hash memory
            (remember_first hash store entry_hash memory snapshot_id scope_id path page).1
    unfolding remember_first new_reference
    remember_first-Extends entry_hash snapshot_id scope_id path none = inl refl
    remember_first-Extends entry_hash snapshot_id scope_id path (some (v, (summary, first))) =
        if_rule (λ (o : Outcome). Extends hash memory o.1) (is_valid v) _ _
          (λ _.
            if_rule (λ (o : Outcome). Extends hash memory o.1)
              (first == some (scope_id, path) && contains summary.scope_ids scope_id) _ _
              (λ _. inr (
                _,
                new_reference-IsOwn memory TaskObjectKind.entry
                    (entry_hash (entry_key snapshot_id scope_id path)) (some snapshot_id)
                    (some scope_id) (some path) ((scope_id, refl), (path, refl)),
                refl,
              ))
              (λ _. inl refl))
          (λ _. inl refl)

    pub remember_checked-Extends :
        (entry_hash : Text → Text) (snapshot_id scope_id path : Text)
        (checked : Result SessionError (Unit {0}))
        → Extends hash memory
            (remember_checked hash store entry_hash memory snapshot_id scope_id path checked).1
    unfolding remember_checked
    remember_checked-Extends entry_hash snapshot_id scope_id path (err e) = inl refl
    remember_checked-Extends entry_hash snapshot_id scope_id path (ok _) =
        remember_first-Extends entry_hash snapshot_id scope_id path
          (store.first_entry snapshot_id scope_id path)

  pub remember_found_scope-Extends :
      (memory : TaskObjectMemory) (found : Result SessionError ScopeConfig)
      → Extends hash memory (remember_found_scope hash memory found).1
  unfolding remember_found_scope
  remember_found_scope-Extends memory (err e) = inl refl
  remember_found_scope-Extends memory (ok scope) =
      inr (_, new_reference-IsOwn memory TaskObjectKind.scope _ none _ none tt, refl)

  pub remember_run-Extends :
      (memory : TaskObjectMemory) (run_id : Text)
      → Extends hash memory (remember_run hash memory run_id).1
  unfolding remember_run
  remember_run-Extends memory run_id =
      if_rule (λ (o : Outcome). Extends hash memory o.1) (is_uuid run_id) _ _
        (λ _. inr (_, new_reference-IsOwn memory TaskObjectKind.run run_id none none none tt, refl))
        (λ _. inl refl)
