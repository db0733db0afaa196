-- ===== src/Config/Valid.antt =====
-- What a valid planner is, said without the code, and the checks that the validation of
-- config/config.go is made of.
pub mod Checks
pub mod Planner
pub mod Folders
pub mod Supervisor
pub mod Whole
use mathlib.Core.List.{Memᴰ}
use neo4j_graph_tool_core.Base.{
  ℕ, ◌≤◌, ◌⊎◌, Text, Option, none, some, List, [], ◌∷◌, map, ◌≡◌, ◌≢◌, text_keys, All, Ordered,
}
use neo4j_graph_tool_core.Base.Dict.{Dict, lookup}
use neo4j_graph_tool_core.Base.Int.{pos}
use neo4j_graph_tool_core.Semver.{Semver}
use neo4j_graph_tool_core.Config.Defs.{
  Config, PlannerConfig, SupervisorConfig, SchemaFolder, default_initial_batch, log_level_values,
  FolderDetail, BatchDetail, schema_name, snapshots_name, migration_types,
  cypher_shell_format_values,
}

abbrev pub IsDistinct : List Text → Type 0
IsDistinct labels = Ordered (λ a b. a ≢ b) labels

abbrev pub IsMigrationType : Text → Type 0
IsMigrationType t = Memᴰ t migration_types

abbrev pub IsValidCommand : Text × Text → Type 0
IsValidCommand (name, path) = (name ≢ []) × (path ≢ [])

abbrev pub IsValidDetail : Option FolderDetail → Type 0
IsValidDetail none = ⊥
IsValidDetail (some d) = IsMigrationType d.migration_type × IsDistinct d.node_labels

abbrev pub IsValidFolder : SchemaFolder → Text × Option FolderDetail → Type 0
IsValidFolder sf (name, detail) =
    (name ≢ []) × ((name ≢ sf.folder_name) × ((name ≢ snapshots_name) × IsValidDetail detail))

-- The folders of a batch are configured folders, and none is the schema folder.
abbrev pub IsValidBatch : SchemaFolder → List Text → Text × Option BatchDetail → Type 0
IsValidBatch sf names (batch, none) = ⊥
IsValidBatch sf names (batch, some detail) =
    (batch ≢ []) × All (λ folder. (folder ≢ sf.folder_name) × Memᴰ folder names) detail.folders

abbrev pub AreValidFolders : PlannerConfig → SchemaFolder → Type 0
AreValidFolders p sf =
    All (IsValidFolder sf) p.folders × All (IsValidBatch sf (map (λ e. e.0) p.folders)) p.batches

abbrev pub AreValidOptions : PlannerConfig → Type 0
AreValidOptions p =
    Memᴰ p.cypher_shell_format cypher_shell_format_values × All IsValidCommand p.allowed_commands

abbrev pub IsValidSchema : SchemaFolder → Type 0
IsValidSchema sf =
    (sf.folder_name ≢ []) × (IsMigrationType sf.migration_type × IsDistinct sf.node_labels)

pub record IsValidPlanner (p : PlannerConfig) (sf : SchemaFolder) : Type 0 where
  pub base_folder : p.base_folder ≢ []
  pub no_schema_batch : lookup schema_name p.batches ≡ none
  pub schema : IsValidSchema sf
  pub options : AreValidOptions p
  pub folders : AreValidFolders p sf

-- A valid supervisor, next to the planner `p`.
pub record IsValidSupervisor {V : Type 0} (sv : Semver V) (p : PlannerConfig) (s : SupervisorConfig)
    : Type 0 where
  pub version :
      (s.default_graph_version ≡ []) ⊎ ((v : V) × (sv.new_version s.default_graph_version ≡ some v))
  pub batch :
      (s.initial_batch ≡ default_initial_batch)
      ⊎ ((d : Option BatchDetail) × (lookup s.initial_batch p.batches ≡ some d))
  pub port : (n : ℕ) × (s.port ≡ pos n) × (1024 ≤ n) × (n ≤ 65535)
  pub auth : (s.neo4j_auth ≡ []) ⊎ Memᴰ b'/' s.neo4j_auth
  pub log_level : Memᴰ s.log_level log_level_values

abbrev pub AllowsSupervisor :
    {V : Type 0} → Semver V → PlannerConfig → Option SupervisorConfig → Type 0
AllowsSupervisor sv p none = Unit
AllowsSupervisor sv p (some s) = IsValidSupervisor sv p s

-- A valid configuration; the supervisor may be missing.
pub record IsValidConfig {V : Type 0} (sv : Semver V) (c : Config) : Type 0 where
  pub planner : PlannerConfig
  pub schema : SchemaFolder
  pub has_planner : c.planner ≡ some planner
  pub has_schema : planner.schema_folder ≡ some schema
  pub valid_supervisor : AllowsSupervisor sv planner c.supervisor
  pub valid_planner : IsValidPlanner planner schema
