-- ===== src/Config/Normalize.antt =====
-- `Normalize` of config/config.go, which fills in what was left out.
use neo4j_graph_tool_core.Base.{
  Text, ℕ, ◌+◌, leb, Option, none, some, false, List, [], ◌∷◌, ◌++◌, ◌&&◌, map, Outcome, ok, panic,
  deref, if◌then◌else◌,
}
use neo4j_graph_tool_core.Base.Dict.{Dict}
use neo4j_graph_tool_core.Base.Result.{◌>>=◌, ◌>>◌}
use neo4j_graph_tool_core.Config.Defs.{
  Config, PlannerConfig, SchemaFolder, FolderDetail, SupervisorConfig, default_node_label,
  default_node_sub_string, default_folder_migration_type, default_cypher_shell_format,
}
use neo4j_graph_tool_core.Config.Validate.{validate_structure}

-- `strings.ToLower` on ASCII; other letters stay.
unfoldable pub lower_code : ℕ → ℕ
lower_code c = if leb b'A' c && leb c b'Z' then c + 32 else c

unfoldable pub to_lower : Text → Text
to_lower s = map lower_code s

-- `labelCaser.String` of golang.org/x/text.
module _ (title : Text → Text) where
  unfoldable pub generate_label_name : Text → Text
  generate_label_name folder_name = title folder_name ++ default_node_sub_string

  abbrev pub labels_or_default : Text → List Text → List Text
  labels_or_default name [] = default_node_label ∷ generate_label_name name ∷ []
  labels_or_default name (l ∷ ls) = l ∷ ls

  abbrev pub text_or_default : Text → Text → Text
  text_or_default [] d = d
  text_or_default (c ∷ s) d = c ∷ s

  unfoldable pub normalize_folder : Text → FolderDetail → FolderDetail
  normalize_folder name folder = record {
    migration_type = text_or_default folder.migration_type default_folder_migration_type;
    node_labels = labels_or_default name folder.node_labels;
  }

  -- The loop over the folders; a nil entry is dereferenced.
  unfoldable pub normalize_folders :
      Dict Text (Option FolderDetail) → Outcome (Dict Text (Option FolderDetail))
  normalize_folders [] = ok []
  normalize_folders ((name, none) ∷ folders) = panic
  normalize_folders ((name, some folder) ∷ folders) = do
    rest ← normalize_folders folders
    ok ((name, some (normalize_folder name folder)) ∷ rest)

  abbrev pub normalize_supervisor : Option SupervisorConfig → Option SupervisorConfig
  normalize_supervisor none = none
  normalize_supervisor (some s) = some (record s { log_level = to_lower s.log_level })

  abbrev pub normalize_schema_folder : SchemaFolder → SchemaFolder
  normalize_schema_folder sf = record sf {
    node_labels = labels_or_default sf.folder_name sf.node_labels;
  }

  -- The configuration that `Normalize` leaves, where `folders` are the folders it leaves.
  abbrev pub normalized :
      Config → PlannerConfig → SchemaFolder → Dict Text (Option FolderDetail) → Config
  normalized cfg p sf folders = record {
    supervisor = normalize_supervisor cfg.supervisor;
    planner = some (record p {
      schema_folder = some (normalize_schema_folder sf);
      folders = folders;
      cypher_shell_format = text_or_default p.cypher_shell_format default_cypher_shell_format;
    });
  }

  unfoldable pub normalize : Option Config → Outcome Config
  normalize c = do
    validate_structure false c
    cfg ← deref c
    p ← deref cfg.planner
    sf ← deref p.schema_folder
    folders ← normalize_folders p.folders
    ok (normalized cfg p sf folders)
