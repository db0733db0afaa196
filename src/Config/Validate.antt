-- ===== src/Config/Validate.antt =====
-- `Validate`, `ValidateWithSupervisor` and what they call, from config/config.go.
use Prim.Native.String.{String}
use neo4j_graph_tool_core.Base.{
  Text, codes, Option, none, some, List, [], ◌∷◌, Bool, true, false, not, ◌&&◌, ◌||◌, ◌==◌,
  text_keys, any, eqb, is_empty, join, Outcome, ok, fail, refuse_if, deref, if◌then◌else◌,
}
use neo4j_graph_tool_core.Base.Int.{pos, ltb_ℤ}
use neo4j_graph_tool_core.Base.Dict.{Dict, lookup, has}
use neo4j_graph_tool_core.Base.Result.{◌>>=◌, ◌>>◌}
use neo4j_graph_tool_core.Semver.{Semver}
use neo4j_graph_tool_core.Config.Defs.{
  Config, PlannerConfig, SchemaFolder, FolderDetail, BatchDetail, SupervisorConfig, schema_name,
  snapshots_name, default_initial_batch, log_level_values, migration_types,
  cypher_shell_format_values,
}

-- `stringInArray`.
unfoldable pub string_in_array : List Text → Text → Bool
string_in_array [] search = false
string_in_array (s ∷ array) search = s == search || string_in_array array search

-- `duplicateElements`: the first label that was seen before.
unfoldable pub find_duplicate : List Text → List Text → Option Text
find_duplicate seen [] = none
find_duplicate seen (label ∷ nodes) =
    let rest = find_duplicate (label ∷ seen) nodes in
    if string_in_array seen label then some label else rest

unfoldable pub duplicate_elements : List Text → Option Text
duplicate_elements nodes = find_duplicate [] nodes

abbrev pub refuse_duplicate : Option Text → String → List Text → Outcome (Unit {0})
refuse_duplicate none m args = ok tt
refuse_duplicate (some label) m args = fail m (label ∷ args)

-- `validateStructure`
abbrev pub planner_structure : Option PlannerConfig → Outcome (Unit {0})
planner_structure none = fail "missing config.Planner" []
planner_structure (some p) =
    refuse_if (not (has p.schema_folder)) "missing config.Planner.SchemaFolder" []

unfoldable pub validate_structure : Bool → Option Config → Outcome (Unit {0})
validate_structure required none = fail "missing config" []
validate_structure required (some c) =
    refuse_if (required && not (has c.supervisor)) "missing config.Supervisor" []
    >> planner_structure c.planner

-- `validateSupervisor`, of a supervisor that is there
abbrev pub default_version_ok : {V : Type 0} → Semver V → Text → Bool
default_version_ok sv version = is_empty version || has (sv.new_version version)

abbrev pub initial_batch_defined : SupervisorConfig → Option PlannerConfig → Outcome Bool
initial_batch_defined s p =
    if s.initial_batch == default_initial_batch
    then ok true
    else deref p >>= λ planner. ok (has (lookup s.initial_batch planner.batches))

module _ {V : Type 0} (sv : Semver V) where
  unfoldable pub validate_supervisor :
      Option PlannerConfig → Option SupervisorConfig → Outcome (Unit {0})
  validate_supervisor p none = ok tt
  validate_supervisor p (some s) = do
    refuse_if (not (default_version_ok sv s.default_graph_version)) "invalid semantic version" []
    defined ← initial_batch_defined s p
    refuse_if (not defined) "initial Batch must be of the Planner.Batches names or 'schema'" []
    refuse_if (ltb_ℤ s.port (pos 1024) || ltb_ℤ (pos 65535) s.port)
        "port number must be in range 1024 - 65535" []
    refuse_if (not (is_empty s.neo4j_auth) && not (any (eqb b'/') s.neo4j_auth))
        "neo4j auth must be in format username/passsword" []
    refuse_if (not (string_in_array log_level_values s.log_level))
        "log_level value '%s' is invalid, must be one of '%s'"
        (s.log_level ∷ join log_level_values (codes ",") ∷ [])

-- The loop of `validatePlanner` over the allowed commands.
unfoldable pub validate_commands : Dict Text Text → Outcome (Unit {0})
validate_commands [] = ok tt
validate_commands ((cmd, path) ∷ commands) =
    refuse_if (is_empty cmd) "command name cannot be empty" []
    >> (refuse_if (is_empty path) "path to command '%s' cannot be empty" (cmd ∷ [])
        >> validate_commands commands)

-- `validatePlanner`, with `c.Planner.SchemaFolder` at hand.
unfoldable pub validate_planner : PlannerConfig → SchemaFolder → Outcome (Unit {0})
validate_planner p sf = do
  refuse_if (is_empty p.base_folder) "base_folder cannot be empty" []
  refuse_if (has (lookup schema_name p.batches))
      "the batch 'schema' is set automatically and cannot be overwritten" []
  refuse_if (is_empty sf.folder_name) "folder_name of schema_folder cannot be empty" []
  refuse_if (not (string_in_array migration_types sf.migration_type))
      "in folder schema migration_type must be 'change' or 'up_down'" []
  refuse_duplicate (duplicate_elements sf.node_labels) "duplicate label '%s' in schemaFolder" []
  refuse_if (not (string_in_array cypher_shell_format_values p.cypher_shell_format))
      "cypher_shell_format value '%s' is invalid, must be one of '%s'"
      (p.cypher_shell_format ∷ join cypher_shell_format_values (codes ",") ∷ [])
  validate_commands p.allowed_commands

-- The body of the first loop of `validateFoldersAndBatches`.
unfoldable pub validate_folder : SchemaFolder → Text → Option FolderDetail → Outcome (Unit {0})
validate_folder sf name none = do
  refuse_if (is_empty name) "name of folder in Planner.Folders can't be an empty string" []
  refuse_if (name == sf.folder_name)
      "folder '%s' is used as schema folder and cannot be used again in planner.folders" (name ∷ [])
  refuse_if (name == snapshots_name)
      "name 'snapshots' is reserved name and cannot be used in planner.folders" []
  fail "empty configuration for folder '%s'" (name ∷ [])
validate_folder sf name (some detail) = do
  refuse_if (is_empty name) "name of folder in Planner.Folders can't be an empty string" []
  refuse_if (name == sf.folder_name)
      "folder '%s' is used as schema folder and cannot be used again in planner.folders" (name ∷ [])
  refuse_if (name == snapshots_name)
      "name 'snapshots' is reserved name and cannot be used in planner.folders" []
  refuse_if (not (string_in_array migration_types detail.migration_type))
      "in folder '%s' migration_type must be 'change' or 'up_down'" (name ∷ [])
  refuse_duplicate (duplicate_elements detail.node_labels)
      "duplicate label '%s' in folder named '%s'" (name ∷ [])

-- That loop: it returns `possibleFolders`.
unfoldable pub validate_folders :
    SchemaFolder → List Text → Dict Text (Option FolderDetail) → Outcome (List Text)
validate_folders sf possible [] = ok possible
validate_folders sf possible ((name, detail) ∷ folders) =
    validate_folder sf name detail >> validate_folders sf (name ∷ possible) folders

unfoldable pub validate_batch_folders :
    SchemaFolder → List Text → Text → List Text → Outcome (Unit {0})
validate_batch_folders sf possible batch [] = ok tt
validate_batch_folders sf possible batch (folder ∷ folders) = do
  refuse_if (folder == sf.folder_name)
      "folder '%s' is schema folder and thus implicit, cannot be specified in batch '%s'"
      (folder ∷ batch ∷ [])
  refuse_if (not (string_in_array possible folder))
      "folder '%s' in batch '%s' is not defined in planner.folders" (folder ∷ batch ∷ [])
  validate_batch_folders sf possible batch folders

abbrev pub validate_batch_detail :
    SchemaFolder → List Text → Text → Option BatchDetail → Outcome (Unit {0})
validate_batch_detail sf possible batch none =
    fail "empty configuration for batch '%s'" (batch ∷ [])
validate_batch_detail sf possible batch (some detail) =
    validate_batch_folders sf possible batch detail.folders

unfoldable pub validate_batches :
    SchemaFolder → List Text → Dict Text (Option BatchDetail) → Outcome (Unit {0})
validate_batches sf possible [] = ok tt
validate_batches sf possible ((batch, detail) ∷ batches) =
    refuse_if (is_empty batch) "name of batch in Planner.Batches can't be an empty string" []
    >> (validate_batch_detail sf possible batch detail >> validate_batches sf possible batches)

-- `validateFoldersAndBatches`
unfoldable pub validate_folders_and_batches : PlannerConfig → SchemaFolder → Outcome (Unit {0})
validate_folders_and_batches p sf = do
  possible ← validate_folders sf [] p.folders
  validate_batches sf possible p.batches

module _ {V : Type 0} (sv : Semver V) where
  -- `validateValues`; `validatePlanner` dereferences the planner and its schema folder
  unfoldable pub validate_values : Config → Outcome (Unit {0})
  validate_values c = do
    validate_supervisor sv c.planner c.supervisor
    p ← deref c.planner
    sf ← deref p.schema_folder
    validate_planner p sf
    validate_folders_and_batches p sf

  abbrev pub values_of : Option Config → Outcome (Unit {0})
  values_of c = deref c >>= validate_values

  -- `Validate`
  unfoldable pub validate : Option Config → Outcome (Unit {0})
  validate c = validate_structure false c >> values_of c

  -- `ValidateWithSupervisor`
  unfoldable pub validate_with_supervisor : Option Config → Outcome (Unit {0})
  validate_with_supervisor c = validate_structure true c >> values_of c
