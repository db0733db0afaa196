-- ===== src/Tests/BuilderWitnesses.antt =====
-- The theorems on the builder at a concrete planner and concrete files.
use neo4j_graph_tool_core.Base.{
  Text, text_keys, codes, none, [], ◌∷◌, ◌++◌, true, ◌≡◌, refl, Outcome, ok,
}
use neo4j_graph_tool_core.Base.Dict.{lookup}
use neo4j_graph_tool_core.Migrator.Plan.Run.{plan}
use neo4j_graph_tool_core.Migrator.Steps.{
  ExecutionSteps, command_step, cypher_step, print_steps, written,
}
use neo4j_graph_tool_core.Migrator.Steps.Shape.{IsMerged}
use neo4j_graph_tool_core.Migrator.Steps.Print.{printed, followed_by}
use neo4j_graph_tool_core.Migrator.Allowed.{AllAllowed, listed, cypher_text}
use neo4j_graph_tool_core.Migrator.Builder.{create_builder, file_path, node_labels, header_line}
use neo4j_graph_tool_core.Migrator.Builder.Record.{create_builder-printed, migration_texts}
use neo4j_graph_tool_core.Migrator.Builder.Steps.{plan-AllAllowed, plan-IsMerged, plan-print_steps}
use neo4j_graph_tool_core.Tests.Fixtures.{
  ranks, sort_files, sort_folders, schema_down, schema_detail, folder_1, folder_2, planner,
  planner_config, half_done,
}

abbrev run_file : Text → Outcome Text
run_file path = ok (codes "gt import")

abbrev absolute_path : Text → Outcome Text
absolute_path path = ok (codes "/" ++ path)

abbrev before : ExecutionSteps
before = command_step (codes "/app/gt" ∷ []) ∷ cypher_step (codes "RETURN 1;") ∷ []

before-AllAllowed : AllAllowed planner_config.allowed_commands before
unfolding lookup
before-AllAllowed = (listed (codes "gt") refl, (cypher_text, tt))

create_builder-printed_example :
    let r = create_builder ranks run_file absolute_path planner true (schema_down 10) 1 before in
    (r.0 ≡ ok tt)
    × (printed (print_steps r.1)
        ≡ followed_by (printed (print_steps before)) (
            written (
              migration_texts ranks
                (schema_down 10)
                1
                (header_line ranks run_file absolute_path planner true (schema_down 10) 1)
                (codes "/down")
                (codes "M" ∷ codes "SchemaVersion" ∷ []))))
unfolding file_path node_labels
create_builder-printed_example =
    create_builder-printed ranks run_file absolute_path planner true planner_config schema_detail
      (schema_down 10) 1 before (codes "/down") (codes "M") (codes "SchemaVersion" ∷ []) refl refl
      refl refl refl refl

plan-AllAllowed_example :
    AllAllowed planner_config.allowed_commands
      (plan ranks planner
        (folder_2 ∷ folder_1 ∷ [])
        half_done
        none
        (codes "seed")
        (create_builder ranks run_file absolute_path planner true)
        before).1
plan-AllAllowed_example =
    plan-AllAllowed ranks run_file absolute_path planner true planner_config
      (folder_2 ∷ folder_1 ∷ []) half_done none (codes "seed") before refl before-AllAllowed

plan-IsMerged_example :
    IsMerged
      (plan ranks planner
        (folder_2 ∷ folder_1 ∷ [])
        half_done
        none
        (codes "seed")
        (create_builder ranks run_file absolute_path planner true)
        before).1
plan-IsMerged_example =
    plan-IsMerged ranks run_file absolute_path planner true planner_config
      (folder_2 ∷ folder_1 ∷ []) half_done none (codes "seed") before refl (refl, (refl, tt))

plan-print_steps_example :
    let made =
      (plan ranks planner
        (folder_2 ∷ folder_1 ∷ [])
        half_done
        none
        (codes "seed")
        (create_builder ranks run_file absolute_path planner true)
        []).1 in
    (r : Text × ExecutionSteps) × (print_steps made ≡ ok r)
plan-print_steps_example =
    plan-print_steps ranks run_file absolute_path planner true planner_config
      (folder_2 ∷ folder_1 ∷ []) half_done none (codes "seed") refl
