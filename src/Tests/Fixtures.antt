-- ===== src/Tests/Fixtures.antt =====
-- Data that the tests share.
use neo4j_graph_tool_core.Base.{
  ℕ, codes, none, some, [], ◌∷◌, Bool, true, false, not, ◌&&◌, refl, arith, ltb, length, is_empty,
  if◌then◌else◌,
}
use neo4j_graph_tool_core.Base.Int.{ℤ, pos}
use neo4j_graph_tool_core.Base.Sort.{SortSlice, IsWeakOrder}
use neo4j_graph_tool_core.Base.Sort.Insertion.{insertion_slice}
use neo4j_graph_tool_core.Semver.{Semver, IsSemver}
use neo4j_graph_tool_core.Config.Defs.{Config, PlannerConfig, SchemaFolder}
use neo4j_graph_tool_core.Migrator.Files.{
  MigrationFile, MigrationScripts, LocalVersionFolder, TargetVersion, cypher,
}
use neo4j_graph_tool_core.Migrator.Database.{DatabaseModel}
use neo4j_graph_tool_core.Migrator.Plan.Versions.{Planner}

abbrev equal_rank : ℕ → ℕ → Bool
equal_rank a b = not (ltb a b) && not (ltb b a)

-- A version is its rank: the number of letters of its text.
abbrev pub ranks : Semver ℕ
ranks = record {
  new_version = λ s. if is_empty s then none else some (length s);
  less_than = ltb;
  equal = λ a b. not (ltb a b) && not (ltb b a);
  greater_than = λ a b. ltb b a;
  to_string = λ v. v ∷ [];
  original = λ v. v ∷ [];
  metadata = λ v. [];
  set_metadata = λ v m. v;
}

ranks_order : IsWeakOrder ltb
ranks_order = record {
  irrefl = λ a. ground arith;
  trans = λ a b c h k. ground arith;
  co_trans = λ a b c h k. ground arith;
}

pub ranks-IsSemver : IsSemver ranks
ranks-IsSemver = record {
  order = ranks_order;
  equal_lem = λ a b. refl;
  greater_than_lem = λ a b. refl;
}

instance unfoldable pub sort_files : SortSlice MigrationFile
unfolding insertion_slice
sort_files = insertion_slice

instance unfoldable pub sort_folders : SortSlice (LocalVersionFolder ℕ)
unfolding insertion_slice
sort_folders = insertion_slice

abbrev pub schema_up : ℕ → MigrationFile
schema_up n = record {
  folder_name = codes "schema";
  path = codes "up";
  file_type = cypher;
  timestamp = pos n;
  is_downgrade = false;
  is_snapshot = false;
}

abbrev pub schema_down : ℕ → MigrationFile
schema_down n = record (schema_up n) { path = codes "down"; is_downgrade = true }

abbrev pub data_up : ℕ → MigrationFile
data_up n = record (schema_up n) { folder_name = codes "data" }

abbrev pub snapshot_file : MigrationFile
snapshot_file = record (schema_up 0) { folder_name = codes "snapshots"; is_snapshot = true }

abbrev pub scripts_of_1 : MigrationScripts
scripts_of_1 = record {
  up = schema_up 10 ∷ schema_up 20 ∷ schema_up 30 ∷ [];
  down = schema_down 30 ∷ schema_down 20 ∷ schema_down 10 ∷ [];
}

abbrev pub folder_1 : LocalVersionFolder ℕ
folder_1 = record {
  version = 1;
  schema_folder = some scripts_of_1;
  extra_folders = (codes "data", record { up = data_up 15 ∷ []; down = [] }) ∷ [];
  snapshots = (codes "schema", snapshot_file) ∷ [];
}

abbrev pub folder_2 : LocalVersionFolder ℕ
folder_2 = record {
  version = 2;
  schema_folder = some (record { up = schema_up 40 ∷ []; down = schema_down 40 ∷ [] });
  extra_folders = [];
  snapshots = [];
}

abbrev pub schema_detail : SchemaFolder
schema_detail = record {
  folder_name = codes "schema";
  migration_type = codes "up_down";
  node_labels = codes "M" ∷ codes "SchemaVersion" ∷ [];
}

abbrev pub planner_config : PlannerConfig
planner_config = record {
  batches = (codes "seed", some (record { folders = codes "data" ∷ [] })) ∷ [];
  schema_folder = some schema_detail;
  folders =
      (
        codes "data",
        some (record { migration_type = codes "change"; node_labels = codes "D" ∷ [] }),
      )
      ∷ [];
  allowed_commands = (codes "gt", codes "/app/gt") ∷ [];
  base_folder = codes "import";
  drop_cypher_file = codes "drop.cypher";
  cypher_shell_format = codes "auto";
}

abbrev pub config : Config
config = record { supervisor = none; planner = some planner_config }

abbrev pub planner : Planner
planner = record { config = config }

-- The database after the first two schema files of version 1.
abbrev pub half_done : DatabaseModel ℕ
half_done =
    (
      codes "schema",
      record { version = 1; file_timestamps = (pos 10, true) ∷ (pos 20, true) ∷ [] } ∷ [],
    )
    ∷ []

abbrev pub target_1 : ℤ → TargetVersion ℕ
target_1 r = record { version = some 1; revision = r }
