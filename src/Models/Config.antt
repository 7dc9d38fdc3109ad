-- ===== src/Models/Config.antt =====
-- ScopeConfig, PathConfig, StewardConfig and ScanBudget of models.py. A `Path` that the code has
-- made absolute and normal is the list of its components below the root.
use steward_public.Base.{Bool, Option, List}
use steward_public.Base.Int.{ℤ}
use steward_public.Base.Text.{Text}
use steward_public.Models.Status.{ScopeRole}

abbrev pub FilePath : Type 0
FilePath = List Text

pub record ScopeConfig : Type 0 where
  pub scope_id : Text
  pub role : ScopeRole
  pub normalized_path : FilePath
  pub enabled : Bool
  pub follow_directory_symlinks : Bool
  pub allow_cross_mount : Bool

pub record PathConfig : Type 0 where
  pub data_dir : FilePath
  pub cache_dir : FilePath
  pub evidence_dir : FilePath
  pub quarantine_dir : FilePath

pub record StewardConfig : Type 0 where
  pub paths : PathConfig
  pub scopes : List ScopeConfig

-- The durations are in the clock's smallest unit.
pub record ScanBudget : Type 0 where
  pub max_entries : ℤ
  pub max_total_stat_bytes : Option ℤ
  pub max_duration : ℤ
  pub max_depth : Option ℤ
