-- ===== src/Tests/PlanWitnesses.antt =====
-- The theorems on plans at concrete folders.
use mathlib.Core.List.{reverse}
use neo4j_graph_tool_core.Base.{
  ℕ, text_keys, int_keys, codes, Option, none, some, List, [], ◌∷◌, ◌++◌, Bool, true, false, ◌≡◌,
  refl, ok, map, arith, Ordered, select, any, is_empty, ◌⊎◌, ◌↔◌, fail,
}
use neo4j_graph_tool_core.Base.Dict.{lookup}
use neo4j_graph_tool_core.Base.Int.{ℤ, pos, negsuc}
use neo4j_graph_tool_core.Base.Monad
use neo4j_graph_tool_core.Base.Monad.{lift, for_each, modify}
use neo4j_graph_tool_core.Config.Validate.{
  validate, validate_structure, validate_values, validate_supervisor, validate_planner,
  string_in_array, duplicate_elements, find_duplicate, validate_commands,
  validate_folders_and_batches, validate_folders, validate_folder, validate_batches,
  validate_batch_folders,
}
use neo4j_graph_tool_core.Migrator.Files.{
  no_scripts, LocalFolders, sort_by_version, contains_migrations, add,
}
use neo4j_graph_tool_core.Migrator.Database.{
  DatabaseModel, has_any_version, was_executed, get_file_timestamps, first_equal,
}
use neo4j_graph_tool_core.Migrator.Plan.Folder.{
  Target, plan_folder, plan_scripts, plan_upgrade, plan_downgrade, snapshot_reaches,
}
use neo4j_graph_tool_core.Migrator.Plan.Versions.{
  VersionPlan, batch_folders, plan_versions, plan_version, usable_snapshot, version_files,
  snapshot_plan, add_batch_folders, beyond_last, collect, new_planner,
}
use neo4j_graph_tool_core.Migrator.Plan.Run.{Builder, plan}
use neo4j_graph_tool_core.Migrator.Plan.Calls.{
  Call, call_builder, up_calls, down_calls, scheduled_calls, plan-scheduled_calls,
}
use neo4j_graph_tool_core.Migrator.Plan.Effect.{
  run_files, goal_commit, settled, IsSplit, IsNumber, plan_scripts-settles,
}
use neo4j_graph_tool_core.Migrator.Plan.Replan.{HasNumbers, plan_scripts-idempotent}
use neo4j_graph_tool_core.Migrator.Plan.Order.{
  UpBefore, DownBefore, DistinctVersions, collect-Ordered,
}
use neo4j_graph_tool_core.Migrator.Plan.Snapshot.{
  without_snapshots, plan_versions-without_snapshots, plan_versions-snapshot,
}
use neo4j_graph_tool_core.Migrator.Plan.Total.{AllBelow, beyond_last_iff}
use neo4j_graph_tool_core.Migrator.Plan.Safe.{collect-outcomes}
use neo4j_graph_tool_core.Tests.Fixtures.{
  ranks, ranks-IsSemver, sort_files, sort_folders, schema_up, snapshot_file, scripts_of_1, folder_1,
  folder_2, planner, config, half_done, target_1,
}

-- A builder that writes down what it is called with.
abbrev log_call : Builder (List (Call ℕ)) ℕ
log_call f v = modify (λ log. log ++ (f, v) ∷ [])

abbrev goal : Option (Target ℕ)
goal = some (record { version = 1; revision = pos 10 })

abbrev executed_half : ℤ → Bool
executed_half = was_executed (get_file_timestamps ranks half_done (codes "schema") 1)

scripts_of_1-IsSplit : IsSplit scripts_of_1
scripts_of_1-IsSplit = ((refl, (refl, (refl, tt))), (refl, (refl, (refl, tt))))

scripts_of_1-HasNumbers : HasNumbers scripts_of_1
scripts_of_1-HasNumbers = (
  ((refl, refl), ((refl, refl), ((refl, refl), tt))),
  ((refl, refl), ((refl, refl), ((refl, refl), tt))),
)

plan_scripts-settles_example :
    let s = plan_scripts ranks (codes "schema") 1 scripts_of_1 half_done goal in
    run_files executed_half (s.up ++ s.down) (pos 20)
    ≡ settled (goal_commit ranks 1 goal) scripts_of_1 executed_half (pos 20)
plan_scripts-settles_example =
    plan_scripts-settles ranks ranks-IsSemver (codes "schema") 1 scripts_of_1 half_done goal
      (pos 20) scripts_of_1-IsSplit refl (refl, refl)

-- The database once the plan towards revision 10 was run.
abbrev at_10 : DatabaseModel ℕ
at_10 = (codes "schema", record { version = 1; file_timestamps = (pos 10, true) ∷ [] } ∷ []) ∷ []

plan-scheduled_calls_example :
    plan ranks planner
      (folder_1 ∷ [])
      half_done
      (some (target_1 (pos 10)))
      (codes "schema")
      log_call
      []
    ≡ Monad.◌>>=◌
        (lift (
          scheduled_calls ranks planner
            (folder_1 ∷ [])
            half_done
            (some (target_1 (pos 10)))
            (codes "schema")))
        (for_each (call_builder log_call))
        []
plan-scheduled_calls_example =
    plan-scheduled_calls ranks planner (folder_1 ∷ []) half_done (some (target_1 (pos 10)))
      (codes "schema") log_call []

ran_to_10 :
    (t : ℤ)
    → IsNumber t
    → let s = plan_scripts ranks (codes "schema") 1 scripts_of_1 half_done goal in
      was_executed (get_file_timestamps ranks at_10 (codes "schema") 1) t
      ≡ run_files executed_half (s.up ++ s.down) t
unfolding was_executed get_file_timestamps first_equal lookup plan_scripts plan_upgrade
    plan_downgrade select
ran_to_10 (pos k) n = ground arith
ran_to_10 (negsuc k) n = ground arith

plan_scripts-idempotent_example :
    plan_scripts ranks (codes "schema") 1 scripts_of_1 at_10 goal ≡ no_scripts
plan_scripts-idempotent_example =
    plan_scripts-idempotent ranks ranks-IsSemver (codes "schema") 1 scripts_of_1 half_done at_10
      goal scripts_of_1-IsSplit scripts_of_1-HasNumbers refl ran_to_10

abbrev both : LocalFolders ℕ
both = folder_2 ∷ folder_1 ∷ []

both-DistinctVersions : DistinctVersions ranks both
both-DistinctVersions = ((refl, tt), (tt, tt))

abbrev all_of_it : List (VersionPlan ℕ)
all_of_it =
    snapshot_plan 1 snapshot_file
    ++ record { scripts = record { up = schema_up 40 ∷ []; down = [] }; version = 2 } ∷ []

collected : collect ranks planner both [] none (codes "schema") ≡ ok all_of_it
unfolding collect batch_folders plan_versions plan_version usable_snapshot version_files
    add_batch_folders beyond_last lookup has_any_version plan_folder snapshot_reaches add
    contains_migrations sort_by_version sort_folders
collected = refl

collect-Ordered_example :
    Ordered (UpBefore ranks) (up_calls all_of_it)
    × Ordered (DownBefore ranks) (down_calls (reverse all_of_it))
collect-Ordered_example =
    collect-Ordered ranks ranks-IsSemver planner both [] none (codes "schema") both-DistinctVersions
      collected

plan_versions-without_snapshots_example :
    plan_versions ranks (codes "schema") (codes "schema") [] half_done goal [] (folder_1 ∷ [])
    ≡ plan_versions ranks
        (codes "schema")
        (codes "schema")
        []
        half_done
        goal
        []
        (map without_snapshots (folder_1 ∷ []))
unfolding has_any_version
plan_versions-without_snapshots_example =
    plan_versions-without_snapshots ranks (codes "schema") (codes "schema") [] half_done goal []
      (folder_1 ∷ []) refl

usable_1 : usable_snapshot ranks folder_1 [] none (codes "schema") ≡ some snapshot_file
unfolding usable_snapshot has_any_version snapshot_reaches lookup
usable_1 = refl

versions_both :
    plan_versions ranks
      (codes "schema")
      (codes "schema")
      []
      []
      none
      []
      ([] ++ folder_1 ∷ folder_2 ∷ [])
    ≡ ok all_of_it
unfolding plan_versions plan_version usable_snapshot version_files add_batch_folders lookup
    has_any_version plan_folder snapshot_reaches add contains_migrations
versions_both = refl

plan_versions-snapshot_example :
    plan_versions ranks
      (codes "schema")
      (codes "schema")
      []
      []
      none
      (snapshot_plan 1 snapshot_file)
      (folder_2 ∷ [])
    ≡ ok all_of_it
plan_versions-snapshot_example =
    plan_versions-snapshot ranks (codes "schema") (codes "schema") [] [] none [] [] folder_1
      (folder_2 ∷ []) snapshot_file usable_1 versions_both

beyond_last_iff_example :
    (beyond_last ranks
        (sort_by_version ranks both)
        (some (record { version = 3; revision = pos 0 }))
      ≡ true)
    ↔ ((is_empty both ≡ false) × AllBelow ranks 3 both)
beyond_last_iff_example =
    beyond_last_iff ranks ranks-IsSemver both (record { version = 3; revision = pos 0 })

planner_new : new_planner ranks (some config) ≡ ok planner
unfolding new_planner validate validate_structure validate_values validate_supervisor
    validate_planner string_in_array duplicate_elements find_duplicate validate_commands
    validate_folders_and_batches validate_folders validate_folder validate_batches
    validate_batch_folders lookup any
planner_new = refl

collect-outcomes_example :
    let r = collect ranks planner both [] none (codes "seed") in
    ((vps : List (VersionPlan ℕ)) × (r ≡ ok vps))
    ⊎ ((r ≡ fail "unknown batch name '%s'" (codes "seed" ∷ []))
        ⊎ (r ≡ fail "specified target %s version does not exist" []))
collect-outcomes_example =
    collect-outcomes ranks ranks-IsSemver (some config) planner both [] none (codes "seed")
      planner_new (refl, (refl, tt))
