-- ===== src/Config/Defs.antt =====
-- The types and constants of config/config.go. A pointer is an `Option`; a map that holds pointers
-- keeps nil entries.
use neo4j_graph_tool_core.Base.{Text, codes, Option, List, [], ◌∷◌}
use neo4j_graph_tool_core.Base.Int.{ℤ, pos}
use neo4j_graph_tool_core.Base.Dict.{Dict}

pub record SupervisorConfig : Type 0 where
  pub log_level : Text
  pub default_graph_version : Text
  pub initial_batch : Text
  pub neo4j_auth : Text
  pub neo4j_database : Text
  pub port : ℤ

pub record SchemaFolder : Type 0 where
  pub folder_name : Text
  pub migration_type : Text
  pub node_labels : List Text

pub record FolderDetail : Type 0 where
  pub migration_type : Text
  pub node_labels : List Text

pub record BatchDetail : Type 0 where
  pub folders : List Text

pub record PlannerConfig : Type 0 where
  pub batches : Dict Text (Option BatchDetail)
  pub schema_folder : Option SchemaFolder
  pub folders : Dict Text (Option FolderDetail)
  pub allowed_commands : Dict Text Text
  pub base_folder : Text
  pub drop_cypher_file : Text
  pub cypher_shell_format : Text

pub record Config : Type 0 where
  pub supervisor : Option SupervisorConfig
  pub planner : Option PlannerConfig

abbrev pub default_port : ℤ
default_port = pos 8080

abbrev pub default_log_level : Text
default_log_level = codes "info"

abbrev pub default_base_folder : Text
default_base_folder = codes "import"

abbrev pub default_drop_cypher_file : Text
default_drop_cypher_file = codes "drop.cypher"

abbrev pub default_schema_folder_name : Text
default_schema_folder_name = codes "schema"

abbrev pub default_schema_migration_type : Text
default_schema_migration_type = codes "up_down"

abbrev pub default_neo4j_database : Text
default_neo4j_database = codes "neo4j"

abbrev pub schema_name : Text
schema_name = codes "schema"

abbrev pub snapshots_name : Text
snapshots_name = codes "snapshots"

abbrev pub default_initial_batch : Text
default_initial_batch = schema_name

abbrev pub default_node_label : Text
default_node_label = codes "GraphToolMigration"

abbrev pub default_node_sub_string : Text
default_node_sub_string = codes "Version"

abbrev pub default_folder_migration_type : Text
default_folder_migration_type = codes "change"

abbrev pub default_cypher_shell_format : Text
default_cypher_shell_format = codes "auto"

abbrev pub log_level_values : List Text
log_level_values =
    codes "fatal"
    ∷ codes "error"
    ∷ codes "warn"
    ∷ codes "warning"
    ∷ codes "info"
    ∷ codes "debug"
    ∷ codes "trace"
    ∷ []

abbrev pub migration_types : List Text
migration_types = codes "change" ∷ codes "up_down" ∷ []

abbrev pub cypher_shell_format_values : List Text
cypher_shell_format_values = codes "auto" ∷ codes "verbose" ∷ codes "plain" ∷ []
