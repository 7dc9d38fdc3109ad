-- ===== src/Scan/Selection/Selected.antt =====
-- Which scopes a selection returns.
use steward_public.Base.{
  ◌≡◌, sym, ◌⊎◌, true, false, not, List, [], ◌∷◌, list_eq, nat_eq, ok, >>=-ok, ok-injective,
  raise_if, raise_if-ok, is_empty, for_each, for_each-ok, All, arith, subst, length, ◌<◌,
}
use steward_public.Base.Order.{nat_order, list_order}
use steward_public.Base.Sort.{sort_on-All, sort_on-IsOrdered, IsOrdered, length-sort_on}
use steward_public.Base.Text.{Text}
use steward_public.Models.Status.{managed_root, reference_root, scope_role_eq}
use steward_public.Models.Config.{ScopeConfig}
use steward_public.Scan.Selection.{
  unknown_scopes, none_selected, unavailable, scopes_onto, unknown_ids, candidates, is_available,
  check_selected, select_scopes,
}

-- A scope that may be scanned.
abbrev pub IsScannable : ScopeConfig → Type 0
IsScannable scope =
    ((scope.role ≡ managed_root) ⊎ (scope.role ≡ reference_root))
    × (scope.enabled ≡ true)
    × (scope.follow_directory_symlinks ≡ false)

check_selected-IsScannable :
    (scope : ScopeConfig) → check_selected scope ≡ ok tt → IsScannable scope
unfolding check_selected
check_selected-IsScannable scope h =
    let (_, available, straight) =
      >>=-ok (raise_if (not (is_available scope)) (unavailable scope.scope_id)) _ h in
    let ok_role = raise_if-ok _ _ available in
    (ground arith, ground arith, raise_if-ok _ _ straight)

not_empty : {A : Type 0} (xs : List A) → is_empty xs ≡ false → 0 < length xs
not_empty [] h = cc
not_empty (x ∷ xs) h = omega arith

-- A selection that returns has one scope at least, in the order of their identities, and every one is
-- an enabled managed or reference root that does not follow links to directories.
pub select_scopes-IsScannable :
    (scopes : List ScopeConfig) (requested : List Text) (selected : List ScopeConfig)
    → select_scopes scopes requested ≡ ok selected
    → (0 < length selected)
      × All IsScannable selected
      × IsOrdered (λ (scope : ScopeConfig). scope.scope_id) selected
unfolding select_scopes
select_scopes-IsScannable scopes requested selected h =
    let by_id = scopes_onto [] scopes in
    let chosen = candidates by_id scopes requested in
    let key : ScopeConfig → Text = λ scope. scope.scope_id in
    let (_, _, h1) =
      >>=-ok
        (raise_if (not (is_empty (unknown_ids by_id requested)))
          (unknown_scopes (unknown_ids by_id requested)))
        _ h in
    let (_, some_chosen, h2) = >>=-ok (raise_if (is_empty chosen) none_selected) _ h1 in
    let (_, checked, h3) = >>=-ok (for_each check_selected chosen) _ h2 in
    let e = ok-injective h3 in
    subst (λ s. (0 < length s) × All IsScannable s × IsOrdered key s) e
      (
        subst (λ n. 0 < n) (sym (length-sort_on key chosen))
            (not_empty chosen (raise_if-ok _ _ some_chosen)),
        sort_on-All key IsScannable chosen
            (for_each-ok IsScannable check_selected check_selected-IsScannable chosen checked),
        sort_on-IsOrdered key chosen,
      )
