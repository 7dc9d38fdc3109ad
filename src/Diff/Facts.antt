-- ===== src/Diff/Facts.antt =====
-- The changed fields tell exactly whether two entries agree in the nineteen facts that a diff compares.
use steward_public.Base.{
  ◌≡◌, refl, ap, Bool, false, List, [], ◌∷◌, arith, Eq, ◌!=◌, nat_eq, list_eq, bool_eq, option_eq,
  filter, All, Bool-cases, inl, inr, ◌↔◌,
}
use steward_public.Base.Int.{int_eq}
use steward_public.Models.Status.{object_type_eq, observation_status_eq}
use steward_public.Models.Entry.{FilesystemEntry}
use steward_public.Diff.{comparable_fields, differs, changed_fields}

-- The entry `r` under the identity of `l`: all but the ids, the place and the payload is `r`'s.
abbrev pub with_identity_of : FilesystemEntry → FilesystemEntry → FilesystemEntry
with_identity_of l r = record r {
  entry_id = l.entry_id;
  snapshot_id = l.snapshot_id;
  scope_id = l.scope_id;
  relative_path = l.relative_path;
  version_two = l.version_two;
}

-- Two entries agree in the nineteen facts that a diff compares: object type, device, inode, mode, owner,
-- group, size, the three times, link count, link target, the three rights of access, status, the two
-- parts of an error, and exclusion. What a version 2 entry has more, its allocated size and its
-- observed payload, is not compared.
abbrev pub SameComparedFacts : FilesystemEntry → FilesystemEntry → Type 0
SameComparedFacts l r = with_identity_of l r ≡ l

eq_of_!= {ℓ} : {A : Type ℓ} ⦃e : Eq A⦄ (a b : A) → (a != b) ≡ false → b ≡ a
eq_of_!= a b h = ground arith

!=-self {ℓ} : {A : Type ℓ} ⦃e : Eq A⦄ (a b : A) → b ≡ a → (a != b) ≡ false
!=-self a b h = ground arith

filter-nil {ℓ} :
    {A : Type ℓ} (p : A → Bool) (xs : List A) → filter p xs ≡ [] → All (λ x. p x ≡ false) xs
filter-nil p [] h = tt
filter-nil p (x ∷ xs) h = elim (Bool-cases (p x)) [
  | inl e ↦ cc (rw e at h)
  | inr e ↦ (e, filter-nil p xs (rw e at h))
]

filter-nil_intro {ℓ} :
    {A : Type ℓ} (p : A → Bool) (xs : List A) → All (λ x. p x ≡ false) xs → filter p xs ≡ []
filter-nil_intro p [] h = refl
filter-nil_intro p (x ∷ xs) h = rw h.0 (filter-nil_intro p xs h.1)

unchanged_of_All :
    (l r : FilesystemEntry)
    → All (λ field. differs field l r ≡ false) comparable_fields
    → SameComparedFacts l r
unfolding differs
unchanged_of_All l r h = λ i. record {
  entry_id = l.entry_id;
  snapshot_id = l.snapshot_id;
  scope_id = l.scope_id;
  relative_path = l.relative_path;
  object_type = eq_of_!= l.object_type r.object_type h.0 i;
  device_id = eq_of_!= l.device_id r.device_id h.1.0 i;
  inode = eq_of_!= l.inode r.inode h.1.1.0 i;
  mode = eq_of_!= l.mode r.mode h.1.1.1.0 i;
  uid = eq_of_!= l.uid r.uid h.1.1.1.1.0 i;
  gid = eq_of_!= l.gid r.gid h.1.1.1.1.1.0 i;
  size_bytes = eq_of_!= l.size_bytes r.size_bytes h.1.1.1.1.1.1.0 i;
  mtime_ns = eq_of_!= l.mtime_ns r.mtime_ns h.1.1.1.1.1.1.1.0 i;
  ctime_ns = eq_of_!= l.ctime_ns r.ctime_ns h.1.1.1.1.1.1.1.1.0 i;
  birthtime_ns = eq_of_!= l.birthtime_ns r.birthtime_ns h.1.1.1.1.1.1.1.1.1.0 i;
  link_count = eq_of_!= l.link_count r.link_count h.1.1.1.1.1.1.1.1.1.1.0 i;
  symlink_target_raw =
      eq_of_!= l.symlink_target_raw r.symlink_target_raw h.1.1.1.1.1.1.1.1.1.1.1.0 i;
  readable = eq_of_!= l.readable r.readable h.1.1.1.1.1.1.1.1.1.1.1.1.0 i;
  writable = eq_of_!= l.writable r.writable h.1.1.1.1.1.1.1.1.1.1.1.1.1.0 i;
  executable = eq_of_!= l.executable r.executable h.1.1.1.1.1.1.1.1.1.1.1.1.1.1.0 i;
  observation_status =
      eq_of_!= l.observation_status r.observation_status h.1.1.1.1.1.1.1.1.1.1.1.1.1.1.1.0 i;
  error_code = eq_of_!= l.error_code r.error_code h.1.1.1.1.1.1.1.1.1.1.1.1.1.1.1.1.0 i;
  error_message = eq_of_!= l.error_message r.error_message h.1.1.1.1.1.1.1.1.1.1.1.1.1.1.1.1.1.0 i;
  excluded = eq_of_!= l.excluded r.excluded h.1.1.1.1.1.1.1.1.1.1.1.1.1.1.1.1.1.1.0 i;
  version_two = l.version_two;
}

All-of_unchanged :
    (l r : FilesystemEntry)
    → SameComparedFacts l r
    → All (λ field. differs field l r ≡ false) comparable_fields
unfolding differs
All-of_unchanged l r e = (
  !=-self l.object_type r.object_type (ap (λ (q : FilesystemEntry). q.object_type) e),
  (
    !=-self l.device_id r.device_id (ap (λ (q : FilesystemEntry). q.device_id) e),
    (
      !=-self l.inode r.inode (ap (λ (q : FilesystemEntry). q.inode) e),
      (
        !=-self l.mode r.mode (ap (λ (q : FilesystemEntry). q.mode) e),
        (
          !=-self l.uid r.uid (ap (λ (q : FilesystemEntry). q.uid) e),
          (
            !=-self l.gid r.gid (ap (λ (q : FilesystemEntry). q.gid) e),
            (
              !=-self l.size_bytes r.size_bytes (ap (λ (q : FilesystemEntry). q.size_bytes) e),
              (
                !=-self l.mtime_ns r.mtime_ns (ap (λ (q : FilesystemEntry). q.mtime_ns) e),
                (
                  !=-self l.ctime_ns r.ctime_ns (ap (λ (q : FilesystemEntry). q.ctime_ns) e),
                  (
                    !=-self l.birthtime_ns r.birthtime_ns
                        (ap (λ (q : FilesystemEntry). q.birthtime_ns) e),
                    (
                      !=-self l.link_count r.link_count
                          (ap (λ (q : FilesystemEntry). q.link_count) e),
                      (
                        !=-self l.symlink_target_raw r.symlink_target_raw
                            (ap (λ (q : FilesystemEntry). q.symlink_target_raw) e),
                        (
                          !=-self l.readable r.readable
                              (ap (λ (q : FilesystemEntry). q.readable) e),
                          (
                            !=-self l.writable r.writable
                                (ap (λ (q : FilesystemEntry). q.writable) e),
                            (
                              !=-self l.executable r.executable
                                  (ap (λ (q : FilesystemEntry). q.executable) e),
                              (
                                !=-self l.observation_status r.observation_status
                                    (ap (λ (q : FilesystemEntry). q.observation_status) e),
                                (
                                  !=-self l.error_code r.error_code
                                      (ap (λ (q : FilesystemEntry). q.error_code) e),
                                  (
                                    !=-self l.error_message r.error_message
                                        (ap (λ (q : FilesystemEntry). q.error_message) e),
                                    (
                                      !=-self l.excluded r.excluded
                                          (ap (λ (q : FilesystemEntry). q.excluded) e),
                                      tt,
                                    ),
                                  ),
                                ),
                              ),
                            ),
                          ),
                        ),
                      ),
                    ),
                  ),
                ),
              ),
            ),
          ),
        ),
      ),
    ),
  ),
)

-- No field is reported as changed exactly when the two entries agree in the nineteen facts that a diff
-- compares. Their ids and places, and the allocated size and the observed payload of a version 2
-- entry, are none of these.
pub changed_fields-nil_iff :
    (l r : FilesystemEntry) → (changed_fields l r ≡ []) ↔ SameComparedFacts l r
unfolding changed_fields
changed_fields-nil_iff l r = (
  λ h. unchanged_of_All l r (filter-nil (λ field. differs field l r) comparable_fields h),
  λ e. filter-nil_intro (λ field. differs field l r) comparable_fields (All-of_unchanged l r e),
)
