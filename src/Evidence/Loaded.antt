-- ===== src/Evidence/Loaded.antt =====
-- What the loader gives back of a run's directory.
use Prim.Native.Nat.{◌^◌}
use mathlib.Core.List.{append_assoc, Perm}
use steward_public.Base.{
  ℕ, ◌-◌, ◌<◌, ◌≤◌, ◌≡◌, refl, sym, ap, ◌∙◌, subst, inl, inr, Bool, true, false, some, List, [],
  ◌∷◌, ◌++◌, map, ◌==◌, nat_eq, list_eq, Bool-cases, arith, ltb, ok, ◌>>=◌, All, length, drop,
  length-append,
}
use steward_public.Base.Order.{nat_order, list_order}
use steward_public.Base.Sort.{sort_on, sort_on-All, sort_on-IsOrdered, sort_on-perm, IsOrdered}
use steward_public.Base.Text.{Text, text}
use steward_public.Evidence.Naming.{filename, is_evidence_name}
use steward_public.Evidence.Naming.Reading.{filename-read}
use steward_public.Evidence.Naming.Ordering.{filename-ending, filename-lt}
use steward_public.Evidence.Loading.{
  DirectoryItem, json, is_temporary, load_item, load_items, load_run_files,
}

drop-length_append : (xs ys : Text) → drop (length xs) (xs ++ ys) ≡ ys
drop-length_append [] ys = refl
drop-length_append (x ∷ xs) ys = drop-length_append xs ys

pub json_not_temporary : (start : Text) → is_temporary (start ++ text ".json") ≡ false
unfolding is_temporary list_eq nat_eq
json_not_temporary start =
    let rest : drop (length (start ++ text ".json") - 4) (start ++ text ".json") ≡ text "json" =
      ap (λ n. drop n (start ++ text ".json"))
        (omega (arith, length-append start (text ".json"), length-append start (text ".")))
      ∙ ap (drop (length (start ++ text "."))) (sym (append_assoc start (text ".") (text "json")))
      ∙ drop-length_append (start ++ text ".") (text "json") in
    ap (λ end. end == text ".tmp") rest

-- Of two files, the first one has no larger sequence number.
abbrev pub IsBefore : Text → Text → Type 0
IsBefore a b =
    (s t : ℕ) (type_s type_t : Text)
    → s < 10 ^ 8
    → t < 10 ^ 8
    → filename s type_s ≡ ok a
    → filename t type_t ≡ ok b
    → s ≤ t

IsBefore-of : (a b : Text) → list_order.lt b a ≡ false → IsBefore a b
IsBefore-of a b not_below s t type_s type_t small_s small_t is_a is_b =
    elim (Bool-cases (ltb t s)) [
      | inl below ↦
          let bad = filename-lt t s type_t type_s b a is_b is_a (ground arith) small_s in cc
      | inr over ↦ ground arith
    ]

module _ {V : Type 0} (unicode_decimal : ℕ → Bool) where
  -- A file that was written for a sequence number, with its value.
  abbrev pub IsWritten : Text × DirectoryItem V → Type 0
  IsWritten (name, item) =
      (sequence : ℕ) × (evidence_type : Text) × (value : V) × (sequence < 10 ^ 8)
      × (filename sequence evidence_type ≡ ok name)
      × (item ≡ json value)

  abbrev pub stored : Text × V → Text × DirectoryItem V
  stored (name, value) = (name, json value)

  load_item-written :
      (name : Text) (item : DirectoryItem V) (items : List (Text × V))
      → (w : IsWritten (name, item))
      → load_item unicode_decimal name item (items, []) ≡ ok ((name, w.2) ∷ items, [])
  unfolding load_item
  load_item-written name item items (sequence, evidence_type, value, small, named, same) =
      let (start, at) = filename-ending sequence evidence_type name small named in
      let temporary : is_temporary name ≡ false = ap is_temporary at ∙ json_not_temporary start in
      let known : is_evidence_name unicode_decimal name ≡ true =
        (filename-read unicode_decimal sequence evidence_type name small named).0 in
      rw (same, temporary, known) refl

  load_items-written :
      (objects : List (Text × DirectoryItem V))
      → All IsWritten objects
      → (items : List (Text × V)) × (load_items unicode_decimal objects ≡ ok (items, []))
        × (map stored items ≡ objects)
  unfolding load_items
  load_items-written [] w = ([], refl, refl)
  load_items-written ((name, item) ∷ rest) (first, w) =
      let (items, e, same) = load_items-written rest w in
      (
        (name, first.2) ∷ items,
        ap (λ r. r >>= λ later. load_item unicode_decimal name item later) e
            ∙ load_item-written name item items first,
        ap (λ i. (name, i) ∷ map stored items) (sym first.5)
            ∙ ap (λ later. (name, item) ∷ later) same,
      )

  -- The files stand in the order of their sequence numbers.
  abbrev pub InSequence : List (Text × DirectoryItem V) → Type 0
  InSequence [] = Unit
  InSequence ((name, item) ∷ rest) =
      All (λ (later : Text × DirectoryItem V). IsBefore name later.0) rest × InSequence rest

  All-IsBefore :
      (name : Text) (rest : List (Text × DirectoryItem V))
      → All (λ (y : Text × DirectoryItem V). list_order.lt y.0 name ≡ false) rest
      → All (λ (later : Text × DirectoryItem V). IsBefore name later.0) rest
  All-IsBefore name [] h = tt
  All-IsBefore name ((later, item) ∷ rest) (first, h) =
      (IsBefore-of name later first, All-IsBefore name rest h)

  pub IsOrdered-InSequence :
      (objects : List (Text × DirectoryItem V))
      → IsOrdered (λ (o : Text × DirectoryItem V). o.0) objects
      → InSequence objects
  IsOrdered-InSequence [] h = tt
  IsOrdered-InSequence ((name, item) ∷ rest) (first, h) =
      (All-IsBefore name rest first, IsOrdered-InSequence rest h)

  -- A run's directory that holds only files that were written for sequence numbers below 10 ^ 8 is
  -- loaded without an error: the loader gives back each file with its value, in the order of the
  -- sequence numbers.
  pub load_run_files-written :
      (objects : List (Text × DirectoryItem V))
      → All IsWritten objects
      → (items : List (Text × V)) × (load_run_files unicode_decimal (some objects) ≡ ok (items, []))
        × Perm (map stored items) objects
        × InSequence (map stored items)
  unfolding load_run_files
  load_run_files-written objects w =
      let key = λ (o : Text × DirectoryItem V). o.0 in
      let (items, e, same) =
        load_items-written (sort_on key objects) (sort_on-All key IsWritten objects w) in
      (
        items,
        e,
        subst (λ l. Perm l objects) (sym same) (sort_on-perm key objects),
        subst InSequence (sym same)
            (IsOrdered-InSequence (sort_on key objects) (sort_on-IsOrdered key objects)),
      )
