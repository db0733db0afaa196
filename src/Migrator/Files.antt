-- ===== src/Migrator/Files.antt =====
-- The types of migrator/scanner.go, and the methods of `MigrationScripts` and `LocalFolders`.
use neo4j_graph_tool_core.Base.{
  Text, Option, none, some, List, [], ◌++◌, Bool, false, not, ◌||◌, is_empty, Outcome, ok, panic,
}
use neo4j_graph_tool_core.Base.Dict.{Dict}
use neo4j_graph_tool_core.Base.Int.{ℤ, ltb_ℤ}
use neo4j_graph_tool_core.Base.Sort.{SortSlice, sort_slice}
use neo4j_graph_tool_core.Semver.{Semver}

pub data FileType : Type 0 where
  cypher command : FileType

pub record MigrationFile : Type 0 where
  pub folder_name : Text
  pub path : Text
  pub file_type : FileType
  pub timestamp : ℤ
  pub is_downgrade : Bool
  pub is_snapshot : Bool

pub record MigrationScripts : Type 0 where
  pub up : List MigrationFile
  pub down : List MigrationFile

abbrev pub no_scripts : MigrationScripts
no_scripts = record { up = []; down = [] }

-- A nil entry of `extra_folders` or `snapshots` reads like a missing one, and is left out. The
-- version is not nil: the scanner always sets it.
pub record LocalVersionFolder (V : Type 0) : Type 0 where
  pub version : V
  pub schema_folder : Option MigrationScripts
  pub extra_folders : Dict Text MigrationScripts
  pub snapshots : Dict Text MigrationFile

abbrev pub LocalFolders : Type 0 → Type 0
LocalFolders V = List (LocalVersionFolder V)

-- `TargetVersion`, as a caller gives it.
pub record TargetVersion (V : Type 0) : Type 0 where
  pub version : Option V
  pub revision : ℤ

-- `ContainsMigrations`
unfoldable pub contains_migrations : Option MigrationScripts → Bool
contains_migrations none = false
contains_migrations (some ms) = not (is_empty ms.up) || not (is_empty ms.down)

-- `Add`: writing to a nil receiver panics.
unfoldable pub add :
    Option MigrationScripts → Option MigrationScripts → Outcome (Option MigrationScripts)
add ms none = ok ms
add none (some extra) = panic
add (some ms) (some extra) =
    ok (some (record { up = ms.up ++ extra.up; down = ms.down ++ extra.down }))

abbrev pub up_before : MigrationFile → MigrationFile → Bool
up_before f g = ltb_ℤ f.timestamp g.timestamp

abbrev pub down_before : MigrationFile → MigrationFile → Bool
down_before f g = ltb_ℤ g.timestamp f.timestamp

module _ ⦃files : SortSlice MigrationFile⦄ where
  -- `SortUpFiles`
  unfoldable pub sort_up_files : MigrationScripts → MigrationScripts
  sort_up_files ms = record ms { up = sort_slice up_before ms.up }

  -- `SortDownFiles`
  unfoldable pub sort_down_files : MigrationScripts → MigrationScripts
  sort_down_files ms = record ms { down = sort_slice down_before ms.down }

module _ {V : Type 0} (sv : Semver V) ⦃folders : SortSlice (LocalVersionFolder V)⦄ where
  abbrev pub older : LocalVersionFolder V → LocalVersionFolder V → Bool
  older f g = sv.less_than f.version g.version

  -- `SortByVersion`
  unfoldable pub sort_by_version : LocalFolders V → LocalFolders V
  sort_by_version lc = sort_slice older lc
