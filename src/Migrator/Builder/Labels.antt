-- ===== src/Migrator/Builder/Labels.antt =====
-- The labels of `CreateBuilder` on a configuration that `Normalize` returned.
use neo4j_graph_tool_core.Base.{
  Text, text_keys, ◌==◌, Option, some, false, ◌≡◌, is_empty, Bool-cases, ok, ◌⊎◌, inl, inr,
}
use neo4j_graph_tool_core.Base.Dict.{lookup, lookup-All}
use neo4j_graph_tool_core.Config.Defs.{Config, PlannerConfig, SchemaFolder, FolderDetail}
use neo4j_graph_tool_core.Config.Normalize.{normalize}
use neo4j_graph_tool_core.Config.Normal.{normalize-HasLabels, HasLabels}
use neo4j_graph_tool_core.Migrator.Builder.{node_labels}

-- The schema folder, or a folder of the configuration.
abbrev pub IsKnownFolder : PlannerConfig → SchemaFolder → Text → Type 0
IsKnownFolder p schema folder =
    (folder ≡ schema.folder_name)
    ⊎ ((detail : FolderDetail) × (lookup folder p.folders ≡ some (some detail)))

module _ (title : Text → Text) where
  -- After `Normalize`, the builder finds a label for every folder that the configuration knows.
  pub normalize-node_labels :
      (c : Option Config) (c' : Config) (p : PlannerConfig) (schema : SchemaFolder) (folder : Text)
      → normalize title c ≡ ok c'
      → c'.planner ≡ some p
      → p.schema_folder ≡ some schema
      → IsKnownFolder p schema folder
      → is_empty (node_labels p schema folder) ≡ false
  unfolding node_labels
  normalize-node_labels c c' p schema folder h e s known =
      let (of_schema, of_folders) = normalize-HasLabels title c c' p schema h e s in
      elim known [
        | inl same ↦ rw ((text_keys.same_iff folder schema.folder_name).0 same) of_schema
        | inr (detail, found) ↦ elim (Bool-cases (folder == schema.folder_name)) [
          | inl same ↦ rw same of_schema
          | inr other ↦
              rw (other, found) (lookup-All (HasLabels title) folder p.folders of_folders found)
        ]
      ]
