-- ===== src/Evidence/Accounting.antt =====
-- What it means that the loader reports no error.
use steward_public.Base.{
  ℕ, ◌≡◌, ◌≢◌, refl, sym, ap, ◌∙◌, subst, ◌⊎◌, inl, inr, Bool, true, not, some, List, [], ◌∷◌,
  if_rule, arith, Result, ok, >>=-ok, ok-injective, All,
}
use steward_public.Base.Among.{Among, All-Among, All-of_Among}
use steward_public.Base.Order.{nat_order, list_order}
use steward_public.Base.Sort.{sort_on, All-sort_on}
use steward_public.Base.Text.{Text}
use steward_public.Evidence.Naming.{is_evidence_name}
use steward_public.Evidence.Loading.{
  DirectoryItem, json, unsafe, unreadable, not_utf8, LoadError, unsafe_object, unknown_file,
  invalid_json, LoadFailure, is_temporary, Loaded, load_item, load_items, load_run_files,
}

module _ {V : Type 0} (unicode_decimal : ℕ → Bool) where
  -- The object is a file: a temporary one, or one of Evidence whose value is among the items.
  abbrev pub IsAccounted : List (Text × V) → Text × DirectoryItem V → Type 0
  IsAccounted items (name, item) =
      ((is_temporary name ≡ true) × (item ≢ unsafe))
      ⊎ ((is_evidence_name unicode_decimal name ≡ true)
          × (value : V) × (item ≡ json value)
          × Among (name, value) items)

  -- what one pass adds where no error is reported
  abbrev Adds : Text → DirectoryItem V → Loaded V → List (Text × V) → Type 0
  Adds name item later items =
      (later.1 ≡ [])
      × ((items ≡ later.0) ⊎ ((value : V) × (items ≡ (name, value) ∷ later.0)))
      × IsAccounted items (name, item)

  module _ (name : Text) (item : DirectoryItem V) (later : Loaded V) (items : List (Text × V)) where
    abbrev Answers : Result LoadFailure (Loaded V) → Type 0
    Answers r = r ≡ ok (items, []) → Adds name item later items

    kept : is_temporary name ≡ true → item ≢ unsafe → Answers (ok later)
    kept temporary safe h =
        let same : later ≡ (items, []) = ok-injective h in
        (ap (λ l. l.1) same, inl (ap (λ l. l.0) (sym same)), inl (temporary, safe))

    reported : (e : LoadError) → Answers (ok (later.0, e ∷ later.1))
    reported e h = cc

    added :
        (value : V)
        → item ≡ json value
        → is_evidence_name unicode_decimal name ≡ true
        → Answers (ok ((name, value) ∷ later.0, later.1))
    added value is known h =
        let same : ((name, value) ∷ later.0, later.1) ≡ (items, []) = ok-injective h in
        (
          ap (λ l. l.1) same,
          inr (value, ap (λ l. l.0) (sym same)),
          inr (known, value, is, subst (Among (name, value)) (ap (λ l. l.0) same) (inl refl)),
        )

  load_item-Adds :
      (name : Text) (item : DirectoryItem V) (later : Loaded V) (items : List (Text × V))
      → load_item unicode_decimal name item later ≡ ok (items, [])
      → Adds name item later items
  unfolding load_item
  load_item-Adds name unsafe later items = reported name unsafe later items (unsafe_object name)
  load_item-Adds name unreadable later items =
      if_rule (Answers name unreadable later items) (is_temporary name) _ _
        (λ t. kept name unreadable later items t (λ e. cc))
        (λ _.
          if_rule (Answers name unreadable later items)
            (not (is_evidence_name unicode_decimal name)) _ _
            (λ _. reported name unreadable later items (unknown_file name))
            (λ _. reported name unreadable later items (invalid_json name)))
  load_item-Adds name not_utf8 later items =
      if_rule (Answers name not_utf8 later items) (is_temporary name) _ _
        (λ t. kept name not_utf8 later items t (λ e. cc))
        (λ _.
          if_rule (Answers name not_utf8 later items) (not (is_evidence_name unicode_decimal name))
            _ _ (λ _. reported name not_utf8 later items (unknown_file name)) (λ _ h. cc))
  load_item-Adds name (json value) later items =
      if_rule (Answers name (json value) later items) (is_temporary name) _ _
        (λ t. kept name (json value) later items t (λ e. cc))
        (λ _.
          if_rule (Answers name (json value) later items)
            (not (is_evidence_name unicode_decimal name)) _ _
            (λ _. reported name (json value) later items (unknown_file name))
            (λ known. added name (json value) later items value refl (ground arith)))

  IsAccounted-more :
      (name : Text) (later : List (Text × V)) (items : List (Text × V))
      → (items ≡ later) ⊎ ((value : V) × (items ≡ (name, value) ∷ later))
      → (o : Text × DirectoryItem V) → IsAccounted later o
      → IsAccounted items o
  IsAccounted-more name later items grown o (inl temporary) = inl temporary
  IsAccounted-more name later items (inl same) (n, i) (inr (known, value, is, m)) =
      inr (known, value, is, subst (Among (n, value)) (sym same) m)
  IsAccounted-more name later items (inr (v, same)) (n, i) (inr (known, value, is, m)) =
      inr (known, value, is, subst (Among (n, value)) (sym same) (inr m))

  load_items-IsAccounted :
      (objects : List (Text × DirectoryItem V)) (items : List (Text × V))
      → load_items unicode_decimal objects ≡ ok (items, [])
      → All (IsAccounted items) objects
  unfolding load_items
  load_items-IsAccounted [] items h = tt
  load_items-IsAccounted ((name, item) ∷ rest) items h =
      let (later, e, h1) = >>=-ok (load_items unicode_decimal rest) _ h in
      let (none_later, grown, accounted) = load_item-Adds name item later items h1 in
      let again : load_items unicode_decimal rest ≡ ok (later.0, []) =
        e ∙ ap (λ errors. ok (later.0, errors)) none_later in
      (
        accounted,
        All-of_Among (IsAccounted items) rest (λ o m.
            IsAccounted-more name later.0 items grown o (
              All-Among (IsAccounted later.0) o rest (load_items-IsAccounted rest later.0 again)
                m)),
      )

  -- Where the loader reports no error, each object of the run's directory is a temporary file or a file
  -- with the name of an Evidence file whose JSON value the loader gives back under this name.
  pub load_run_files-IsAccounted :
      (objects : List (Text × DirectoryItem V)) (items : List (Text × V))
      → load_run_files unicode_decimal (some objects) ≡ ok (items, [])
      → All (IsAccounted items) objects
  unfolding load_run_files
  load_run_files-IsAccounted objects items h =
      let key = λ (o : Text × DirectoryItem V). o.0 in
      All-sort_on key (IsAccounted items) objects
        (load_items-IsAccounted (sort_on key objects) items h)
