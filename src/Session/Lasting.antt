-- ===== src/Session/Lasting.antt =====
-- The references of a task over any sequence of its calls.
use steward_public.Base.{
  ◌≡◌, ◌≢◌, refl, sym, ap, subst, ◌∙◌, ◌⊎◌, inl, inr, false, some, some-injective, [], ◌==◌, ◌!=◌,
  nat_eq, list_eq, Bool-cases, eq_of_==, ok, arith,
}
use steward_public.Base.Dict
use steward_public.Base.Dict.{lookup-insert_self, lookup-insert_ne}
use steward_public.Base.Text.{Text}
use steward_public.Models.Session.{
  TaskObjectKind, task_object_kind_eq, StewardSession, TaskObjectReference,
}
use steward_public.Session.{
  SnapshotStore, TaskObjectMemory, task_object_reference_eq, exact_valid_snapshot, require,
  scope_by_id, same_reference,
}
use steward_public.Session.PathInput.{validate_relative_path}
use steward_public.Session.Recorded.{IsRecorded, require-IsRecorded}
use steward_public.Session.Memory.{
  Digested, ReferencePayload, task_object_reference, payload_of, recorded, remember_snapshot,
  remember_run_from_snapshot, remember_entry, remember_run, remember_scope,
}
use steward_public.Session.Remembering.{
  IsOwn, IsSound, Extends, Collision, remember_found-Extends, remember_checked-Extends,
  remember_found_scope-Extends, remember_run-Extends,
}

-- One call of a task, with the repository and the configuration that it meets.
pub data Call (hash : Digested → Text) : TaskObjectMemory → TaskObjectMemory → Type 0 where
  snapshot :
      (store : SnapshotStore) (memory : TaskObjectMemory) (snapshot_id : Text)
      → Call hash memory (remember_snapshot hash store memory snapshot_id).1
  run_of_snapshot :
      (store : SnapshotStore) (memory : TaskObjectMemory) (snapshot_id : Text)
      → Call hash memory (remember_run_from_snapshot hash store memory snapshot_id).1
  run :
      (memory : TaskObjectMemory) (run_id : Text)
      → Call hash memory (remember_run hash memory run_id).1
  scope :
      (session : StewardSession) (memory : TaskObjectMemory) (scope_id : Text)
      → Call hash memory (remember_scope hash session memory scope_id).1
  entry :
      (store : SnapshotStore) (entry_hash : Text → Text) (memory : TaskObjectMemory)
      (snapshot_id scope_id path : Text)
      → Call hash memory (remember_entry hash store entry_hash memory snapshot_id scope_id path).1

pub data Calls (hash : Digested → Text) (memory : TaskObjectMemory)
    : TaskObjectMemory → Type 0 where
  begin : Calls hash memory memory
  later : {m n : TaskObjectMemory} → Calls hash memory m → Call hash m n → Calls hash memory n

reference_of : Text → ReferencePayload → TaskObjectReference
reference_of reference_id payload = record {
  reference_id = reference_id;
  authority_domain_digest = payload.authority_domain_digest;
  kind = payload.kind;
  object_id = payload.object_id;
  snapshot_id = payload.snapshot_id;
  scope_id = payload.scope_id;
  relative_path = payload.relative_path;
}

fields-same :
    (task_digest : Text) (a b : TaskObjectReference)
    → a.reference_id ≡ b.reference_id
    → payload_of task_digest a ≡ payload_of task_digest b
    → a ≡ b
unfolding payload_of reference_of
fields-same task_digest a b same payloads =
    ap (reference_of a.reference_id) payloads
    ∙ ap (λ id. reference_of id (payload_of task_digest b)) same

recorded-IsRecorded :
    (m : TaskObjectMemory) (added : TaskObjectReference) (kind : TaskObjectKind)
    (reference : TaskObjectReference)
    → added ≡ reference
    → IsRecorded m kind reference
    → IsRecorded (recorded m added).1 kind reference
unfolding recorded
recorded-IsRecorded m added kind reference equal known = (
  lookup-insert_self reference.reference_id added.reference_id added m.references
        (ap (λ (q : TaskObjectReference). q.reference_id) (sym equal))
      ∙ ap some equal,
  known.1,
  known.2,
)

recorded_other-IsRecorded :
    (m : TaskObjectMemory) (added : TaskObjectReference) (kind : TaskObjectKind)
    (reference : TaskObjectReference)
    → reference.reference_id ≢ added.reference_id
    → IsRecorded m kind reference
    → IsRecorded (recorded m added).1 kind reference
unfolding recorded
recorded_other-IsRecorded m added kind reference differ known = (
  lookup-insert_ne reference.reference_id added.reference_id added m.references differ ∙ known.0,
  known.1,
  known.2,
)

module _ (hash : Digested → Text) where
  Call-Extends : (m n : TaskObjectMemory) → Call hash m n → Extends hash m n
  unfolding remember_snapshot remember_run_from_snapshot remember_scope remember_entry
  Call-Extends _ _ (snapshot store m snapshot_id) =
      remember_found-Extends hash store m TaskObjectKind.snapshot (λ s. s.snapshot_id)
        (exact_valid_snapshot store snapshot_id) (λ r. tt)
  Call-Extends _ _ (run_of_snapshot store m snapshot_id) =
      remember_found-Extends hash store m TaskObjectKind.run (λ s. s.run_id)
        (exact_valid_snapshot store snapshot_id) (λ r. tt)
  Call-Extends _ _ (run m run_id) = remember_run-Extends hash m run_id
  Call-Extends _ _ (scope session m scope_id) =
      remember_found_scope-Extends hash m (scope_by_id session scope_id)
  Call-Extends _ _ (entry store entry_hash m snapshot_id scope_id path) =
      remember_checked-Extends hash store m entry_hash snapshot_id scope_id path
        (validate_relative_path path)

  recorded-IsSound :
      (memory : TaskObjectMemory) (reference : TaskObjectReference)
      → IsSound hash memory
      → IsOwn hash memory reference
      → IsSound hash (recorded memory reference).1
  unfolding recorded
  recorded-IsSound memory reference sound own id r h =
      elim (Bool-cases (id == reference.reference_id)) [
        | inl e ↦
            let same_id : id ≡ reference.reference_id = eq_of_== e in
            let same : reference ≡ r = some-injective reference r (
              sym (lookup-insert_self id reference.reference_id reference memory.references same_id)
              ∙ h) in
            subst (λ (q : TaskObjectReference). (q.reference_id ≡ id) × IsOwn hash memory q) same
              (sym same_id, own)
        | inr e ↦ sound id r (
            sym (
              lookup-insert_ne id reference.reference_id reference memory.references
                (λ same. ground arith))
            ∙ h)
      ]

  Extends-IsSound : (m n : TaskObjectMemory) → Extends hash m n → IsSound hash m → IsSound hash n
  Extends-IsSound m n (inl e) sound = subst (IsSound hash) (sym e) sound
  Extends-IsSound m n (inr (reference, own, e)) sound =
      subst (IsSound hash) (sym e) (recorded-IsSound m reference sound own)

  -- Two own references of one identity are the same, or their digests collide.
  IsOwn-same :
      (m : TaskObjectMemory) (a b : TaskObjectReference)
      → IsOwn hash m a
      → IsOwn hash m b
      → a.reference_id ≡ b.reference_id
      → (a ≡ b) ⊎ Collision hash
  IsOwn-same m a b own_a own_b same = elim (Bool-cases (a == b)) [
    | inl e ↦ inl (eq_of_== e)
    | inr differ ↦ inr (
      task_object_reference (payload_of m.task_digest a),
      task_object_reference (payload_of m.task_digest b),
      λ e. differ_of (payloads-differ e) differ,
      sym own_a.0 ∙ same ∙ own_b.0,
    )
  ]
    where
      differ_of : a ≡ b → (a == b) ≡ false → ⊥
      differ_of e h = ground arith

      payloads-differ :
          task_object_reference (payload_of m.task_digest a)
            ≡ task_object_reference (payload_of m.task_digest b)
          → a ≡ b
      payloads-differ e = fields-same m.task_digest a b same (cc)

  Extends-IsRecorded :
      (m n : TaskObjectMemory) (kind : TaskObjectKind) (reference : TaskObjectReference)
      → IsSound hash m
      → Extends hash m n
      → IsRecorded m kind reference
      → IsRecorded n kind reference ⊎ Collision hash
  Extends-IsRecorded m n kind reference sound (inl e) known =
      inl (subst (λ k. IsRecorded k kind reference) (sym e) known)
  Extends-IsRecorded m n kind reference sound (inr (added, own, e)) known =
      elim (Bool-cases (reference.reference_id == added.reference_id)) [
        | inl same ↦
            elim (IsOwn-same m added reference own
              (sound reference.reference_id reference known.0).1 (sym (eq_of_== same))) [
                | inl equal ↦ inl (
                    subst (λ k. IsRecorded k kind reference) (sym e)
                      (recorded-IsRecorded m added kind reference equal known))
                | inr collision ↦ inr collision
              ]
        | inr differ ↦ inl (
            subst (λ k. IsRecorded k kind reference) (sym e)
              (recorded_other-IsRecorded m added kind reference (λ s. differs s differ) known))
      ]
    where
      differs :
          reference.reference_id ≡ added.reference_id
          → (reference.reference_id == added.reference_id) ≡ false
          → ⊥
      differs s h = ground arith

  IsRecorded-require :
      (m : TaskObjectMemory) (kind : TaskObjectKind) (reference : TaskObjectReference)
      → IsRecorded m kind reference
      → require m reference kind ≡ ok reference
  unfolding require same_reference
  IsRecorded-require m kind reference (found, kinds, domains) =
      let k : (reference.kind != kind) ≡ false = ground arith in
      let d : (reference.authority_domain_digest != m.authority_domain_digest) ≡ false =
        ground arith in
      let s : (reference != reference) ≡ false = ground arith in rw (k, d, found, s) refl

  Calls-IsSound : (m n : TaskObjectMemory) → Calls hash m n → IsSound hash m → IsSound hash n
  Calls-IsSound m n begin sound = sound
  Calls-IsSound m n (later {m = k} calls call) sound =
      Extends-IsSound k n (Call-Extends k n call) (Calls-IsSound m k calls sound)

  Calls-IsRecorded :
      (m n : TaskObjectMemory) (kind : TaskObjectKind) (reference : TaskObjectReference)
      → IsSound hash m
      → Calls hash m n
      → IsRecorded m kind reference
      → IsRecorded n kind reference ⊎ Collision hash
  Calls-IsRecorded m n kind reference sound begin known = inl known
  Calls-IsRecorded m n kind reference sound (later {m = k} calls call) known =
      elim (Calls-IsRecorded m k kind reference sound calls known) [
        | inl still ↦
            Extends-IsRecorded k n kind reference (Calls-IsSound m k calls sound)
              (Call-Extends k n call) still
        | inr collision ↦ inr collision
      ]

  -- From any sound memory on, as a new one is, the memory stays sound over every sequence of calls: each
  -- reference in it is identified by the digest of what it says, has the session's domain and, of an
  -- Entry, names scope and path. A reference that was required successfully is so after any further
  -- calls, unless two things with one digest have been found.
  pub Calls-lasting :
      (m n : TaskObjectMemory)
      → IsSound hash m
      → Calls hash m n
      → IsSound hash n
        × ((kind : TaskObjectKind) (reference r : TaskObjectReference)
            → require m reference kind ≡ ok r
            → (require n reference kind ≡ ok reference) ⊎ Collision hash)
  Calls-lasting m n sound calls = (
    Calls-IsSound m n calls sound,
    λ kind reference r h.
        elim (Calls-IsRecorded m n kind reference sound calls
          (require-IsRecorded m reference kind r h).1) [
            | inl known ↦ inl (IsRecorded-require n kind reference known)
            | inr collision ↦ inr collision
          ],
  )

-- A new memory is sound.
pub new-IsSound :
    (hash : Digested → Text) (domain task_digest : Text)
    → IsSound hash
        (record { authority_domain_digest = domain; task_digest = task_digest; references = [] })
unfolding Dict.lookup
new-IsSound hash domain task_digest id reference h = cc
