-- ===== src/Migrator/Builder.antt =====
-- `CreateBuilder` of migrator/execution.go: the steps of one migration file.
pub mod Invariant
pub mod Steps
pub mod Record
pub mod Labels
use neo4j_graph_tool_core.Base.{
  Text, codes, text_keys, ◌==◌, Option, none, some, List, [], ◌∷◌, ◌++◌, Bool, true, false, join,
  Outcome, ok, fail, deref, if◌then◌else◌,
}
use neo4j_graph_tool_core.Base.Dict.{lookup}
use neo4j_graph_tool_core.Base.Monad.{Exec, pure, lift, modify, ◌>>=◌, ◌>>◌}
use neo4j_graph_tool_core.Semver.{Semver}
use neo4j_graph_tool_core.Config.Defs.{PlannerConfig, SchemaFolder, FolderDetail}
use neo4j_graph_tool_core.Migrator.Files.{MigrationFile, FileType, cypher, command}
use neo4j_graph_tool_core.Migrator.Steps.{ExecutionSteps, add_cypher, written}
use neo4j_graph_tool_core.Migrator.Command.{add_command}
use neo4j_graph_tool_core.Migrator.Target.{format_int, target_to_string}
use neo4j_graph_tool_core.Migrator.Plan.Versions.{Planner}
use neo4j_graph_tool_core.Migrator.Plan.Run.{Builder}

abbrev pub add : List Text → Exec ExecutionSteps (Unit {0})
add texts = modify (add_cypher texts)

-- The `switch` over the header.
unfoldable pub header : MigrationFile → Text
header cf = if cf.is_snapshot then codes "Starting on" else elim cf.file_type [
  | command ↦
      (if cf.is_downgrade
        then codes "Downgrading with command from"
        else codes "Running command from")
  | cypher ↦ (if cf.is_downgrade then codes "Downgrading" else codes "Importing")
]

abbrev pub detail_labels : Option (Option FolderDetail) → List Text
detail_labels (some (some folder)) = folder.node_labels
detail_labels _ = []

unfoldable pub node_labels : PlannerConfig → SchemaFolder → Text → List Text
node_labels p schema folder =
    if folder == schema.folder_name
    then schema.node_labels
    else detail_labels (lookup folder p.folders)

-- The statement that records the file as executed, or takes the record back.
unfoldable pub record_texts : Bool → List Text → List Text
record_texts true labels =
    codes "MATCH (sm:"
    ∷ join labels (codes ":")
    ∷ codes " {version: $version, file: $file}) "
    ∷ codes "SET sm.deleted_at = timestamp();"
    ∷ []
record_texts false labels =
    codes "MERGE (sm:"
    ∷ join labels (codes ":")
    ∷ codes " {version: $version, file: $file}) "
    ∷ codes "ON CREATE SET sm.created_at = timestamp() "
    ∷ codes "SET sm.updated_at = timestamp(), sm.deleted_at = null;"
    ∷ []

-- `read_file` is `os.ReadFile` and `absolute` is `filepath.Abs`.
module _ {V : Type 0} (sv : Semver V) (read_file : Text → Outcome Text)
    (absolute : Text → Outcome Text) (planner : Planner) (abs : Bool) where
  unfoldable pub file_path : Text → Outcome Text
  file_path path = if abs then absolute path else ok path

  unfoldable pub header_line : MigrationFile → V → Text
  header_line cf version = written (
      codes "// "
      ∷ header cf
      ∷ codes " folder "
      ∷ cf.folder_name
      ∷ codes " - ver:"
      ∷ target_to_string sv (some (record { version = some version; revision = cf.timestamp }))
      ∷ codes "\n"
      ∷ [])

  -- The commands of the file, or a `:source` line for it.
  unfoldable pub add_content : PlannerConfig → FileType → Text → Exec ExecutionSteps (Unit {0})
  add_content p command path = add_command read_file p.allowed_commands path
  add_content p cypher path = do
    add (codes ":source " ∷ [])
    fp ← lift (file_path path)
    add (fp ∷ [])
    add (codes ";\n" ∷ [])

  -- The end of the builder, for a file that is no snapshot.
  unfoldable pub add_record : List Text → MigrationFile → V → Exec ExecutionSteps (Unit {0})
  add_record [] cf version =
      lift (fail "fail to import folder '%s', cannot determine DB labels" (cf.folder_name ∷ []))
  add_record (l ∷ labels) cf version = do
    add (codes ":param version => '" ∷ sv.to_string version ∷ codes "';\n" ∷ [])
    add (codes ":param file => " ∷ format_int cf.timestamp ∷ codes ";\n" ∷ [])
    add (record_texts cf.is_downgrade (l ∷ labels))
    add (codes "\n\n" ∷ [])

  unfoldable pub add_ending : PlannerConfig → MigrationFile → V → Exec ExecutionSteps (Unit {0})
  add_ending p cf version =
      if cf.is_snapshot
      then add (codes "\n" ∷ [])
      else lift (deref p.schema_folder) >>= λ schema.
          add_record (node_labels p schema cf.folder_name) cf version

  -- `CreateBuilder`
  unfoldable pub create_builder : Builder ExecutionSteps V
  create_builder cf version = do
    add (header_line cf version ∷ [])
    p ← lift (deref planner.config.planner)
    add_content p cf.file_type cf.path
    add_ending p cf version
