-- ===== src/Tests/ConfigWitnesses.antt =====
-- The theorems on configurations at concrete ones.
use neo4j_graph_tool_core.Base.{
  Text, text_keys, codes, none, some, [], ◌∷◌, false, ◌≡◌, ◌↔◌, refl, ok, fail, is_empty, inl,
}
use neo4j_graph_tool_core.Config.Defs.{Config, PlannerConfig, SchemaFolder}
use neo4j_graph_tool_core.Config.Validate.{
  validate, validate_structure, validate_values, validate_supervisor, validate_planner,
  string_in_array, duplicate_elements, find_duplicate, validate_commands,
  validate_folders_and_batches, validate_folders, validate_folder, validate_batches,
  validate_batch_folders,
}
use neo4j_graph_tool_core.Config.Normalize.{
  normalize, normalize_folders, normalize_folder, generate_label_name, to_lower, lower_code,
}
use neo4j_graph_tool_core.Config.Normal.{normalize-normalize}
use neo4j_graph_tool_core.Config.Valid.{IsValidConfig}
use neo4j_graph_tool_core.Config.Valid.Whole.{validate_iff}
use neo4j_graph_tool_core.Migrator.Builder.{node_labels}
use neo4j_graph_tool_core.Migrator.Builder.Labels.{normalize-node_labels}
use neo4j_graph_tool_core.Base.Dict.{Dict, lookup}
use neo4j_graph_tool_core.Config.Load.{
  load_file, load_file-IsValidConfig, check_read, IsReadable, ReadResult, config_unread,
  settings_of, Settings, Setting, of_text, of_number, Viper, config_file_not_found,
}
use neo4j_graph_tool_core.Base.Int.{ℤ, pos}
use neo4j_graph_tool_core.Tests.Fixtures.{ranks, config, planner_config, schema_detail}

abbrev plain : Text → Text
plain name = name

-- The configuration with the labels of its schema folder left out.
abbrev sparse_planner : PlannerConfig
sparse_planner = record planner_config {
  schema_folder = some (record schema_detail { node_labels = [] });
  cypher_shell_format = [];
}

abbrev sparse : Config
sparse = record { supervisor = none; planner = some sparse_planner }

abbrev filled_schema : SchemaFolder
filled_schema = record schema_detail {
  node_labels = codes "GraphToolMigration" ∷ codes "schemaVersion" ∷ [];
}

abbrev filled_planner : PlannerConfig
filled_planner = record planner_config { schema_folder = some filled_schema }

abbrev filled : Config
filled = record { supervisor = none; planner = some filled_planner }

sparse-filled : normalize plain (some sparse) ≡ ok filled
unfolding normalize validate_structure normalize_folders normalize_folder generate_label_name
sparse-filled = refl

validate_iff_example : (validate ranks (some config) ≡ ok tt) ↔ IsValidConfig ranks config
validate_iff_example = validate_iff ranks config

normalize-normalize_example : normalize plain (some filled) ≡ ok filled
normalize-normalize_example = normalize-normalize plain (some sparse) filled sparse-filled

normalize-node_labels_example :
    is_empty (node_labels filled_planner filled_schema (codes "schema")) ≡ false
normalize-node_labels_example =
    normalize-node_labels plain (some sparse) filled filled_planner filled_schema (codes "schema")
      sparse-filled refl refl (inl refl)

text_or : Text → Dict Text Setting → Text
unfolding lookup
text_or key defaults = elim (lookup key defaults) [
  | none ↦ []
  | some (of_text t) ↦ t
  | some (of_number n) ↦ []
]

number_or : Text → Dict Text Setting → ℤ
number_or key defaults = elim (lookup key defaults) [
  | none ↦ pos 0
  | some (of_text t) ↦ pos 0
  | some (of_number n) ↦ n
]

-- What viper unmarshals without a file and with no variable set.
abbrev only_defaults : Settings → Config
only_defaults s = record {
  supervisor = some (record {
    log_level = text_or (codes "supervisor.log_level") s.defaults;
    default_graph_version = [];
    initial_batch = text_or (codes "supervisor.initial_batch") s.defaults;
    neo4j_auth = [];
    neo4j_database = text_or (codes "supervisor.neo4j_database") s.defaults;
    port = number_or (codes "supervisor.port") s.defaults;
  });
  planner = some (record {
    batches = [];
    schema_folder = some (record {
      folder_name = text_or (codes "planner.schema_folder.folder_name") s.defaults;
      migration_type = text_or (codes "planner.schema_folder.migration_type") s.defaults;
      node_labels = [];
    });
    folders = [];
    allowed_commands = [];
    base_folder = text_or (codes "planner.base_folder") s.defaults;
    drop_cypher_file = text_or (codes "planner.drop_cypher_file") s.defaults;
    cypher_shell_format = text_or (codes "planner.cypher_shell_format") s.defaults;
  });
}

-- A file that is named is missing, which is no `ConfigFileNotFoundError`.
abbrev read_missing : Text → ReadResult
read_missing [] = config_file_not_found
read_missing (c ∷ name) = config_unread (codes "no such file or directory")

abbrev viper : Viper
viper = record {
  read_in_config = read_missing;
  unmarshal = λ settings. ok (only_defaults settings);
}

abbrev default_config : Config
default_config = record {
  supervisor = some (record {
    log_level = codes "info";
    default_graph_version = [];
    initial_batch = codes "schema";
    neo4j_auth = [];
    neo4j_database = codes "neo4j";
    port = pos 8080;
  });
  planner = some (record {
    batches = [];
    schema_folder = some (record {
      folder_name = codes "schema";
      migration_type = codes "up_down";
      node_labels = codes "GraphToolMigration" ∷ codes "schemaVersion" ∷ [];
    });
    folders = [];
    allowed_commands = [];
    base_folder = codes "import";
    drop_cypher_file = codes "drop.cypher";
    cypher_shell_format = codes "auto";
  });
}

loaded : load_file ranks plain viper [] ≡ ok default_config
unfolding load_file check_read normalize validate_structure normalize_folders normalize_folder
    generate_label_name validate_values validate_supervisor validate_planner string_in_array
    duplicate_elements find_duplicate validate_commands validate_folders_and_batches
    validate_folders validate_folder validate_batches validate_batch_folders lookup text_or
    number_or to_lower lower_code
loaded = refl

missing_refused :
    load_file ranks plain viper (codes "gt.toml")
    ≡ fail "%s" (codes "no such file or directory" ∷ [])
unfolding load_file check_read
missing_refused = refl

load_file-IsValidConfig_example : (load_file ranks plain viper [] ≡ ok default_config) ↔ (
    IsReadable config_file_not_found
    × ((read : Config) × (viper.unmarshal (settings_of []) ≡ ok read)
        × (normalize plain (some read) ≡ ok default_config)
        × (IsValidConfig ranks default_config
            × (normalize plain (some default_config) ≡ ok default_config))))
load_file-IsValidConfig_example = load_file-IsValidConfig ranks plain viper [] default_config
