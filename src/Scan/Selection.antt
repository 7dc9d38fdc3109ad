-- ===== src/Scan/Selection.antt =====
-- `select_scopes` of filesystem.py, and scan_budget.py.
pub mod Selected
use steward_public.Base.{
  Bool, true, false, not, ◌&&◌, ◌||◌, Option, none, some, List, [], ◌∷◌, ◌==◌, nat_eq, list_eq,
  if◌then◌else◌, filter, contains, is_empty, Result, ok, err, ◌>>=◌, ◌>>◌, raise_if, for_each,
}
use steward_public.Base.Dict
use steward_public.Base.Dict.{Dict}
use steward_public.Base.Group.{distinct}
use steward_public.Base.Int.{ℤ, pos, ltb_ℤ, leb_ℤ}
use steward_public.Base.Order.{nat_order, list_order}
use steward_public.Base.Sort.{sort_on}
use steward_public.Base.Text.{Text}
use steward_public.Models.Status.{managed_root, reference_root, scope_role_eq}
use steward_public.Models.Config.{ScopeConfig, ScanBudget}

pub data ScopeError : Type 0 where
  unknown_scopes : List Text → ScopeError
  none_selected : ScopeError
  unavailable follows_links : Text → ScopeError

-- `{scope.scope_id: scope for scope in config.scopes}`
unfoldable pub scopes_onto : Dict Text ScopeConfig → List ScopeConfig → Dict Text ScopeConfig
scopes_onto by_id [] = by_id
scopes_onto by_id (scope ∷ rest) = scopes_onto (Dict.insert scope.scope_id scope by_id) rest

-- `sorted(set(requested).difference(by_id))`
unfoldable pub unknown_ids : Dict Text ScopeConfig → List Text → List Text
unknown_ids by_id requested =
    sort_on (λ (id : Text). id) (filter (λ id. not (Dict.has_key id by_id)) (distinct requested))

-- `[by_id[item] for item in requested]`, where every item is there
unfoldable pub requested_scopes : Dict Text ScopeConfig → List Text → List ScopeConfig
requested_scopes by_id [] = []
requested_scopes by_id (id ∷ rest) =
    let later = requested_scopes by_id rest in
    elim (Dict.lookup id by_id) [ none ↦ later | some scope ↦ scope ∷ later ]

abbrev pub is_default : ScopeConfig → Bool
is_default scope = scope.enabled && scope.role == managed_root

abbrev pub is_available : ScopeConfig → Bool
is_available scope = contains (managed_root ∷ reference_root ∷ []) scope.role && scope.enabled

-- `if requested ... else ...`
unfoldable pub candidates : Dict Text ScopeConfig → List ScopeConfig → List Text → List ScopeConfig
candidates by_id scopes [] = filter is_default scopes
candidates by_id scopes (id ∷ rest) = requested_scopes by_id (id ∷ rest)

unfoldable pub check_selected : ScopeConfig → Result ScopeError (Unit {0})
check_selected scope =
    raise_if (not (is_available scope)) (unavailable scope.scope_id)
    >> raise_if scope.follow_directory_symlinks (follows_links scope.scope_id)

unfoldable pub select_scopes : List ScopeConfig → List Text → Result ScopeError (List ScopeConfig)
select_scopes scopes requested =
    let by_id = scopes_onto [] scopes in
    let selected = candidates by_id scopes requested in
    raise_if (not (is_empty (unknown_ids by_id requested)))
      (unknown_scopes (unknown_ids by_id requested))
    >> (raise_if (is_empty selected) none_selected
        >> (for_each check_selected selected
            >> ok (sort_on (λ (scope : ScopeConfig). scope.scope_id) selected)))

pub data BudgetError : Type 0 where
  invalid_budget : BudgetError

abbrev or_default : ℤ → Option ℤ → ℤ
or_default default none = default
or_default default (some n) = n

abbrev pub is_negative : Option ℤ → Bool
is_negative none = false
is_negative (some n) = ltb_ℤ n (pos 0)

abbrev budget_of : Option ℤ → Option ℤ → Option ℤ → Option ℤ → ℤ → ScanBudget
budget_of max_entries max_total_size max_duration max_depth default_duration = record {
  max_entries = or_default (pos 1000000) max_entries;
  max_total_stat_bytes = max_total_size;
  max_duration = or_default default_duration max_duration;
  max_depth = max_depth;
}

-- `make_budget`; `default_duration` is 600 seconds in the clock's unit
unfoldable pub make_budget :
    ℤ → Option ℤ → Option ℤ → Option ℤ → Option ℤ → Result BudgetError ScanBudget
make_budget default_duration max_entries max_total_size max_duration max_depth =
    let budget = budget_of max_entries max_total_size max_duration max_depth default_duration in
    if ltb_ℤ budget.max_entries (pos 1)
      || (is_negative budget.max_total_stat_bytes
          || (leb_ℤ budget.max_duration (pos 0) || is_negative budget.max_depth))
    then err invalid_budget
    else ok budget
