-- ===== src/Queries/Pages.antt =====
-- Following `next_offset` from the first page reads the whole selection.
use mathlib.Core.List.{append-nil}
use steward_public.Base.{
  if_rule, Bool-cases, inl, inr, ℕ, zero, suc, ◌+◌, ◌≤◌, ◌<◌, ◌≡◌, refl, sym, ap, ◌∙◌, Bool, Option,
  none, some, List, [], ◌∷◌, ◌++◌, arith, if◌then◌else◌, filter, length, take, drop, length-take,
  length-drop, ok, err,
}
use steward_public.Base.Int.{pos}
use steward_public.Models.Relation.{RelationKind, RelationItem, RelationSet}
use steward_public.Models.Duplicate.{PayloadEqualityGroup, DuplicateAnalysisResult}
use steward_public.Queries.{
  page_of, has_more_after, validate_page, passes_kind, relation_page, query_relations, passes_exact,
  duplicate_page, query_duplicates,
}

take-drop : {A : Type 0} (n : ℕ) (xs : List A) → take n xs ++ drop n xs ≡ xs
take-drop zero xs = refl
take-drop (suc n) [] = refl
take-drop (suc n) (x ∷ xs) = ap (◌∷◌ x) (take-drop n xs)

drop-all : {A : Type 0} (n : ℕ) (xs : List A) → length xs ≤ n → drop n xs ≡ []
drop-all zero [] h = refl
drop-all zero (x ∷ xs) h = absurd (omega arith)
drop-all (suc n) [] h = refl
drop-all (suc n) (x ∷ xs) h = drop-all n xs (omega arith)

drop-nil : {A : Type 0} (n : ℕ) → drop {A = A} n [] ≡ []
drop-nil zero = refl
drop-nil (suc n) = refl

drop-suc : {A : Type 0} (n m : ℕ) (x : A) (xs : List A) → n ≡ suc m → drop n (x ∷ xs) ≡ drop m xs
drop-suc zero m x xs e = absurd (omega arith)
drop-suc (suc n) m x xs e = ap (λ k. drop k xs) (omega arith)

drop-drop : {A : Type 0} (m n : ℕ) (xs : List A) → drop n (drop m xs) ≡ drop (m + n) xs
drop-drop zero n xs = ap (λ k. drop k xs) (omega arith)
drop-drop (suc m) n [] = drop-nil n ∙ sym (drop-nil (suc m + n))
drop-drop (suc m) n (x ∷ xs) =
    drop-drop m n xs ∙ sym (drop-suc (suc m + n) (m + n) x xs (omega arith))

take-all : {A : Type 0} (n : ℕ) (xs : List A) → length xs ≤ n → take n xs ≡ xs
take-all zero [] h = refl
take-all zero (x ∷ xs) h = absurd (omega arith)
take-all (suc n) [] h = refl
take-all (suc n) (x ∷ xs) h = ap (◌∷◌ x) (take-all n xs (omega arith))

-- Pages from an offset on, by the next offset of each.
pages : {A : Type 0} → ℕ → ℕ → List A → ℕ → List A
pages zero limit selected offset = []
pages (suc fuel) limit selected offset =
    let page = page_of limit offset selected in
    page
    ++ (if has_more_after offset page selected
        then pages fuel limit selected (offset + length page)
        else [])

pages-drop :
    {A : Type 0} (fuel limit : ℕ) (selected : List A) (offset : ℕ)
    → 0 < limit
    → length selected < offset + fuel
    → pages fuel limit selected offset ≡ drop offset selected
unfolding pages
pages-drop zero limit selected offset pos_limit enough =
    sym (drop-all offset selected (omega arith))
pages-drop (suc fuel) limit selected offset pos_limit enough =
    let page = page_of limit offset selected in
    let len = length-take limit (drop offset selected) in
    let rest = length-drop offset selected in
    if_rule (λ more. page ++ more ≡ drop offset selected) (has_more_after offset page selected)
      (pages fuel limit selected (offset + length page)) []
      (λ more.
        ap (λ later. page ++ later)
          (pages-drop fuel limit selected (offset + length page) pos_limit
              (ground (arith, len, rest))
            ∙ ap (λ n. drop (offset + n) selected) (ground (arith, len, rest))
            ∙ sym (drop-drop offset limit selected))
        ∙ take-drop limit (drop offset selected))
      (λ last. append-nil page ∙ take-all limit (drop offset selected) (ground (arith, len, rest)))

valid-page :
    (limit offset : ℕ) → 1 ≤ limit → limit ≤ 1000 → validate_page (pos limit) (pos offset) ≡ ok tt
unfolding validate_page
valid-page limit offset low high = ground arith

query_relations-valid :
    (s : RelationSet) (kind : Option RelationKind) (limit offset : ℕ)
    → 1 ≤ limit
    → limit ≤ 1000
    → query_relations s kind (pos limit) (pos offset)
      ≡ ok (relation_page s kind (pos limit) (pos offset))
unfolding query_relations
query_relations-valid s kind limit offset low high = rw (valid-page limit offset low high) refl

query_duplicates-valid :
    (a : DuplicateAnalysisResult) (only_exact : Bool) (limit offset : ℕ)
    → 1 ≤ limit
    → limit ≤ 1000
    → query_duplicates a only_exact (pos limit) (pos offset)
      ≡ ok (duplicate_page a only_exact (pos limit) (pos offset))
unfolding query_duplicates
query_duplicates-valid a only_exact limit offset low high =
    rw (valid-page limit offset low high) refl

-- A client that follows `next_offset` and joins the pages of a relation query.
pub read_relations : ℕ → RelationSet → Option RelationKind → ℕ → ℕ → List RelationItem
read_relations zero s kind limit offset = []
read_relations (suc fuel) s kind limit offset =
    elim (query_relations s kind (pos limit) (pos offset)) [
      | err _ ↦ []
      | ok r ↦
          r.relation_items
          ++ elim r.next_offset [ none ↦ [] | some next ↦ read_relations fuel s kind limit next ]
    ]

read_relations-pages :
    (fuel : ℕ) (s : RelationSet) (kind : Option RelationKind) (limit offset : ℕ)
    → 1 ≤ limit
    → limit ≤ 1000
    → read_relations fuel s kind limit offset
      ≡ pages fuel limit (filter (passes_kind kind) s.relations) offset
unfolding read_relations pages relation_page
read_relations-pages zero s kind limit offset low high = refl
read_relations-pages (suc fuel) s kind limit offset low high =
    let selected = filter (passes_kind kind) s.relations in
    let page = page_of limit offset selected in
    rw (read_relations, query_relations-valid s kind limit offset low high)
      (elim (Bool-cases (has_more_after offset page selected)) [
        | inl e ↦ rw e (
            ap (λ later. page ++ later)
              (read_relations-pages fuel s kind limit (offset + length page) low high))
        | inr e ↦ rw e refl
      ])

-- For every page size from 1 to 1000, the pages of a relation query from the first one on, each at
-- the next offset of the page before it, are together the items that pass the filter, in their
-- order; one page more than there are such items is enough.
pub read_relations-filter :
    (fuel : ℕ) (s : RelationSet) (kind : Option RelationKind) (limit : ℕ)
    → 1 ≤ limit
    → limit ≤ 1000
    → length (filter (passes_kind kind) s.relations) < fuel
    → read_relations fuel s kind limit 0 ≡ filter (passes_kind kind) s.relations
read_relations-filter fuel s kind limit low high enough =
    read_relations-pages fuel s kind limit 0 low high
    ∙ pages-drop fuel limit (filter (passes_kind kind) s.relations) 0 (omega arith) (omega arith)

-- The same for a query of duplicates.
pub read_duplicates : ℕ → DuplicateAnalysisResult → Bool → ℕ → ℕ → List PayloadEqualityGroup
read_duplicates zero a only_exact limit offset = []
read_duplicates (suc fuel) a only_exact limit offset =
    elim (query_duplicates a only_exact (pos limit) (pos offset)) [
      | err _ ↦ []
      | ok r ↦ r.payload_equality_groups ++ elim r.next_offset [
        | none ↦ []
        | some next ↦ read_duplicates fuel a only_exact limit next
      ]
    ]

read_duplicates-pages :
    (fuel : ℕ) (a : DuplicateAnalysisResult) (only_exact : Bool) (limit offset : ℕ)
    → 1 ≤ limit
    → limit ≤ 1000
    → read_duplicates fuel a only_exact limit offset
      ≡ pages fuel limit (filter (passes_exact only_exact) a.payload_equality_groups) offset
unfolding read_duplicates pages duplicate_page
read_duplicates-pages zero a only_exact limit offset low high = refl
read_duplicates-pages (suc fuel) a only_exact limit offset low high =
    let selected = filter (passes_exact only_exact) a.payload_equality_groups in
    let page = page_of limit offset selected in
    rw (read_duplicates, query_duplicates-valid a only_exact limit offset low high)
      (elim (Bool-cases (has_more_after offset page selected)) [
        | inl e ↦ rw e (
            ap (λ later. page ++ later)
              (read_duplicates-pages fuel a only_exact limit (offset + length page) low high))
        | inr e ↦ rw e refl
      ])

-- For every page size from 1 to 1000, the pages of a query of duplicates from the first one on, each
-- at the next offset of the page before it, are together the groups that pass the filter, in their
-- order; one page more than there are such groups is enough.
pub read_duplicates-filter :
    (fuel : ℕ) (a : DuplicateAnalysisResult) (only_exact : Bool) (limit : ℕ)
    → 1 ≤ limit
    → limit ≤ 1000
    → length (filter (passes_exact only_exact) a.payload_equality_groups) < fuel
    → read_duplicates fuel a only_exact limit 0
      ≡ filter (passes_exact only_exact) a.payload_equality_groups
read_duplicates-filter fuel a only_exact limit low high enough =
    read_duplicates-pages fuel a only_exact limit 0 low high
    ∙ pages-drop fuel limit (filter (passes_exact only_exact) a.payload_equality_groups) 0
        (omega arith) (omega arith)
