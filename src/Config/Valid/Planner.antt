-- ===== src/Config/Valid/Planner.antt =====
-- `validatePlanner` and `validateFoldersAndBatches` of config/config.go accept the valid planners.
use neo4j_graph_tool_core.Base.{
  Text, Option, none, some, [], ◌∷◌, not, ◌≡◌, ◌≢◌, ◌↔◌, refl, text_keys, ◌==◌, All, ok, is_empty,
}
use neo4j_graph_tool_core.Base.Dict.{Dict, lookup, has}
use neo4j_graph_tool_core.Config.Defs.{
  PlannerConfig, SchemaFolder, FolderDetail, schema_name, snapshots_name, migration_types,
  cypher_shell_format_values,
}
use neo4j_graph_tool_core.Config.Validate.{
  string_in_array, validate_commands, validate_planner, validate_folder,
}
use neo4j_graph_tool_core.Config.Valid.{
  IsDistinct, IsMigrationType, IsValidCommand, IsValidFolder, AreValidOptions,
}
use neo4j_graph_tool_core.Config.Valid.Checks.{
  both_iff, fail_iff, refuse_if_iff, is_empty_iff, has_iff, ==_iff, not_in_array_iff,
  refuse_duplicate_iff,
}

validate_commands_iff :
    (cs : Dict Text Text) → (validate_commands cs ≡ ok tt) ↔ All IsValidCommand cs
unfolding validate_commands
validate_commands_iff [] = (λ h. tt, λ h. refl)
validate_commands_iff ((name, path) ∷ cs) =
    let step = both_iff _ _ (refuse_if_iff (is_empty name) _ _ (is_empty_iff name)) (
      both_iff _ _ (refuse_if_iff (is_empty path) _ _ (is_empty_iff path))
        (validate_commands_iff cs)) in
    (λ h. let (n, (p, rest)) = step.0 h in ((n, p), rest), λ h. step.1 (h.0.0, (h.0.1, h.1)))

pub validate_folder_iff :
    (sf : SchemaFolder) (name : Text) (detail : Option FolderDetail)
    → (validate_folder sf name detail ≡ ok tt) ↔ IsValidFolder sf (name, detail)
unfolding validate_folder
validate_folder_iff sf name none =
    both_iff _ _ (refuse_if_iff (is_empty name) _ _ (is_empty_iff name)) (
      both_iff _ _ (refuse_if_iff (name == sf.folder_name) _ _ (==_iff name sf.folder_name)) (
        both_iff _ _ (refuse_if_iff (name == snapshots_name) _ _ (==_iff name snapshots_name))
          (fail_iff _ _)))
validate_folder_iff sf name (some d) =
    both_iff _ _ (refuse_if_iff (is_empty name) _ _ (is_empty_iff name)) (
      both_iff _ _ (refuse_if_iff (name == sf.folder_name) _ _ (==_iff name sf.folder_name)) (
        both_iff _ _ (refuse_if_iff (name == snapshots_name) _ _ (==_iff name snapshots_name)) (
          both_iff _ _
            (refuse_if_iff (not (string_in_array migration_types d.migration_type)) _ _
              (not_in_array_iff migration_types d.migration_type))
            (refuse_duplicate_iff d.node_labels _ _))))

pub validate_planner_iff :
    (p : PlannerConfig) (sf : SchemaFolder)
    → (validate_planner p sf ≡ ok tt) ↔ (
        (p.base_folder ≢ [])
        × ((lookup schema_name p.batches ≡ none)
            × ((sf.folder_name ≢ [])
                × (IsMigrationType sf.migration_type
                    × (IsDistinct sf.node_labels × AreValidOptions p)))))
unfolding validate_planner
validate_planner_iff p sf =
    both_iff _ _ (refuse_if_iff (is_empty p.base_folder) _ _ (is_empty_iff p.base_folder)) (
      both_iff _ _
        (refuse_if_iff (has (lookup schema_name p.batches)) _ _
          (has_iff (lookup schema_name p.batches)))
        (both_iff _ _ (refuse_if_iff (is_empty sf.folder_name) _ _ (is_empty_iff sf.folder_name)) (
          both_iff _ _
            (refuse_if_iff (not (string_in_array migration_types sf.migration_type)) _ _
              (not_in_array_iff migration_types sf.migration_type))
            (both_iff _ _ (refuse_duplicate_iff sf.node_labels _ _) (
              both_iff _ _
                (refuse_if_iff
                  (not (string_in_array cypher_shell_format_values p.cypher_shell_format)) _ _
                  (not_in_array_iff cypher_shell_format_values p.cypher_shell_format))
                (validate_commands_iff p.allowed_commands))))))
