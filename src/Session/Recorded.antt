-- ===== src/Session/Recorded.antt =====
-- What `TaskObjectMemory.require` returns.
use steward_public.Base.{
  ◌≡◌, false, Option, none, some, ◌!=◌, nat_eq, list_eq, ok, >>=-ok, raise_if, raise_if-ok, arith,
}
use steward_public.Base.Dict
use steward_public.Models.Session.{TaskObjectKind, task_object_kind_eq, TaskObjectReference}
use steward_public.Session.{
  TaskObjectMemory, task_object_reference_eq, same_reference, require, reference_wrong_type,
  other_domain,
}

-- The reference was recorded, under its own identity, and has the kind and the domain.
abbrev pub IsRecorded : TaskObjectMemory → TaskObjectKind → TaskObjectReference → Type 0
IsRecorded memory kind reference =
    (Dict.lookup reference.reference_id memory.references ≡ some reference)
    × (reference.kind ≡ kind)
    × (reference.authority_domain_digest ≡ memory.authority_domain_digest)

same_reference-found :
    (reference r : TaskObjectReference) (found : Option TaskObjectReference)
    → same_reference reference found ≡ ok r
    → (found ≡ some reference) × (r ≡ reference)
unfolding same_reference
same_reference-found reference r none h = cc
same_reference-found reference r (some recorded) h = (ground arith, ground arith)

pub require-IsRecorded :
    (memory : TaskObjectMemory) (reference : TaskObjectReference) (kind : TaskObjectKind)
    (r : TaskObjectReference)
    → require memory reference kind ≡ ok r
    → (r ≡ reference) × IsRecorded memory kind reference
unfolding require
require-IsRecorded memory reference kind r h =
    let (_, k, h1) = >>=-ok (raise_if (reference.kind != kind) reference_wrong_type) _ h in
    let (_, d, h2) =
      >>=-ok
        (raise_if (reference.authority_domain_digest != memory.authority_domain_digest)
          other_domain)
        _ h1 in
    let (found, same) =
      same_reference-found reference r (Dict.lookup reference.reference_id memory.references) h2 in
    let kinds : (reference.kind != kind) ≡ false = raise_if-ok _ _ k in
    let domains : (reference.authority_domain_digest != memory.authority_domain_digest) ≡ false =
      raise_if-ok _ _ d in
    (same, (found, ground arith, ground arith))
