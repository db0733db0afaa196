-- ===== src/Tests/Plan.antt =====
-- Plans at concrete folders.
use neo4j_graph_tool_core.Base.{
  ℕ, Text, codes, Option, none, some, List, [], ◌∷◌, ◌≡◌, refl, Outcome, ok,
}
use neo4j_graph_tool_core.Base.Dict.{lookup}
use neo4j_graph_tool_core.Base.Int.{pos}
use neo4j_graph_tool_core.Migrator.Files.{
  LocalFolders, TargetVersion, sort_by_version, sort_up_files, sort_down_files, contains_migrations,
  add,
}
use neo4j_graph_tool_core.Migrator.Database.{DatabaseModel, has_any_version}
use neo4j_graph_tool_core.Migrator.Plan.Folder.{plan_folder, snapshot_reaches}
use neo4j_graph_tool_core.Migrator.Plan.Versions.{
  batch_folders, plan_versions, plan_version, usable_snapshot, version_files, add_batch_folders,
  beyond_last, collect,
}
use neo4j_graph_tool_core.Migrator.Plan.Calls.{Call, up_calls, down_calls, scheduled_calls}
use neo4j_graph_tool_core.Tests.Fixtures.{
  ranks, sort_files, sort_folders, schema_up, schema_down, data_up, snapshot_file, folder_1,
  folder_2, planner, half_done, target_1,
}

run_plan_of :
    LocalFolders ℕ → DatabaseModel ℕ → Option (TargetVersion ℕ) → Text → Outcome (List (Call ℕ))
unfolding collect batch_folders plan_versions plan_version usable_snapshot version_files
    add_batch_folders beyond_last lookup has_any_version plan_folder snapshot_reaches add
    contains_migrations sort_by_version sort_folders sort_files up_calls down_calls sort_up_files
    sort_down_files
run_plan_of lfs db target batch = scheduled_calls ranks planner lfs db target batch

-- Towards revision 10 of version 1, file 20 is taken back, and nothing of version 2 was run.
back_to_10 :
    run_plan_of (folder_2 ∷ folder_1 ∷ []) half_done (some (target_1 (pos 10))) (codes "schema")
    ≡ ok ((schema_down 20, 1) ∷ [])
unfolding run_plan_of
back_to_10 = refl

-- On an empty database the snapshot stands for version 1, and the seeding batch runs its files.
fresh_schema :
    run_plan_of (folder_2 ∷ folder_1 ∷ []) [] none (codes "schema")
    ≡ ok ((snapshot_file, 1) ∷ (schema_up 40, 2) ∷ [])
unfolding run_plan_of
fresh_schema = refl

fresh_seed :
    run_plan_of (folder_2 ∷ folder_1 ∷ []) [] none (codes "seed")
    ≡ ok (
        (schema_up 10, 1)
        ∷ (data_up 15, 1)
        ∷ (schema_up 20, 1)
        ∷ (schema_up 30, 1)
        ∷ (schema_up 40, 2)
        ∷ [])
unfolding run_plan_of
fresh_seed = refl
