-- ===== src/Migrator/Plan/Run.antt =====
-- `Plan` of migrator/plan.go: the builder is called with each file of the plan.
use mathlib.Core.List.{reverse}
use neo4j_graph_tool_core.Base.{Text, Option, List}
use neo4j_graph_tool_core.Base.Sort.{SortSlice}
use neo4j_graph_tool_core.Base.Monad.{Exec, lift, for_each, ◌>>=◌, ◌>>◌}
use neo4j_graph_tool_core.Semver.{Semver}
use neo4j_graph_tool_core.Migrator.Files.{
  MigrationFile, LocalVersionFolder, LocalFolders, TargetVersion, sort_up_files, sort_down_files,
}
use neo4j_graph_tool_core.Migrator.Database.{DatabaseModel}
use neo4j_graph_tool_core.Migrator.Plan.Versions.{Planner, VersionPlan, collect}

-- `Builder`: it writes to a state `S` and may fail.
abbrev pub Builder : Type 0 → Type 0 → Type 0
Builder S V = MigrationFile → V → Exec S (Unit {0})

module _ {V S : Type 0} ⦃files : SortSlice MigrationFile⦄ where
  abbrev pub run_up : Builder S V → VersionPlan V → Exec S (Unit {0})
  run_up builder vp = for_each (λ mf. builder mf vp.version) (sort_up_files vp.scripts).up

  abbrev pub run_down : Builder S V → VersionPlan V → Exec S (Unit {0})
  run_down builder vp = for_each (λ mf. builder mf vp.version) (sort_down_files vp.scripts).down

  -- The two loops at the end of `Plan`.
  unfoldable pub run_plan : Builder S V → List (VersionPlan V) → Exec S (Unit {0})
  run_plan builder plan =
      for_each (run_up builder) plan >> for_each (run_down builder) (reverse plan)

module _ {V S : Type 0} (sv : Semver V) ⦃files : SortSlice MigrationFile⦄
    ⦃folders : SortSlice (LocalVersionFolder V)⦄ where
  -- `Plan`
  unfoldable pub plan :
      Planner
      → LocalFolders V
      → DatabaseModel V
      → Option (TargetVersion V)
      → Text
      → Builder S V
      → Exec S (Unit {0})
  plan planner local_folders db target_version batch builder = do
    vps ← lift (collect sv planner local_folders db target_version batch)
    run_plan builder vps
