-- ===== src/Migrator/Plan/Versions.antt =====
-- `NewPlanner`, and what `Plan` of migrator/plan.go computes before it calls the builder.
use neo4j_graph_tool_core.Base.{
  Text, text_keys, ◌==◌, Option, none, some, List, [], ◌∷◌, ◌++◌, Bool, false, not, ◌&&◌, Outcome,
  ok, fail, deref, refuse_if, if◌then◌else◌,
}
use neo4j_graph_tool_core.Base.Dict.{lookup}
use neo4j_graph_tool_core.Base.Sort.{SortSlice}
use neo4j_graph_tool_core.Base.Result.{◌>>=◌, ◌>>◌}
use neo4j_graph_tool_core.Semver.{Semver}
use neo4j_graph_tool_core.Config.Defs.{Config, PlannerConfig, BatchDetail, schema_name}
use neo4j_graph_tool_core.Config.Validate.{validate}
use neo4j_graph_tool_core.Migrator.Files.{
  MigrationFile, MigrationScripts, LocalVersionFolder, LocalFolders, TargetVersion,
  contains_migrations, add, sort_by_version,
}
use neo4j_graph_tool_core.Migrator.Database.{DatabaseModel, has_any_version}
use neo4j_graph_tool_core.Migrator.Plan.Folder.{
  Target, effective_target, plan_folder, snapshot_reaches,
}

-- `Planner`: its config is the one that `NewPlanner` validated.
pub record Planner : Type 0 where
  pub config : Config

-- `NewPlanner`
module _ {V : Type 0} (sv : Semver V) where
  unfoldable pub new_planner : Option Config → Outcome Planner
  new_planner cfg = validate sv cfg >> (deref cfg >>= λ c. ok (record { config = c }))

-- The local `versionPlan` of `Plan`; an empty one is never kept.
pub record VersionPlan (V : Type 0) : Type 0 where
  pub scripts : MigrationScripts
  pub version : V

-- `Batch` and the folders of it; schema is implicit.
abbrev pub folders_of_batch : Option (Option BatchDetail) → Text → Outcome (List Text)
folders_of_batch (some (some b)) batch = ok b.folders
folders_of_batch _ batch = fail "unknown batch name '%s'" (batch ∷ [])

unfoldable pub batch_folders : PlannerConfig → Text → Outcome (List Text)
unfolding lookup
batch_folders p batch =
    if batch == schema_name then ok [] else folders_of_batch (lookup batch p.batches) batch

module _ {V : Type 0} where
  -- `plan = append(plan, …)`, if there is something to run
  abbrev pub append_plan : List (VersionPlan V) → V → Option MigrationScripts → List (VersionPlan V)
  append_plan plan version none = plan
  append_plan plan version (some ms) =
      if contains_migrations (some ms)
      then plan ++ record { scripts = ms; version = version } ∷ []
      else plan

  abbrev pub snapshot_plan : V → MigrationFile → List (VersionPlan V)
  snapshot_plan version snapshot =
      record { scripts = record { up = snapshot ∷ []; down = [] }; version = version } ∷ []

  -- A snapshot replaces what was planned before it; without one, `files` are computed and appended.
  abbrev pub next_plan :
      List (VersionPlan V)
      → V
      → Option MigrationFile
      → Outcome (Option MigrationScripts)
      → Outcome (List (VersionPlan V))
  next_plan plan version (some snapshot) files = ok (snapshot_plan version snapshot)
  next_plan plan version none files = files >>= λ ms. ok (append_plan plan version ms)

module _ {V : Type 0} (sv : Semver V) where
  -- The loop over the batch's folders.
  unfoldable pub add_batch_folders :
      LocalVersionFolder V
      → DatabaseModel V
      → Option (Target V)
      → List Text
      → Option MigrationScripts
      → Outcome (Option MigrationScripts)
  add_batch_folders lf db target [] files = ok files
  add_batch_folders lf db target (bf ∷ bfs) files = do
    files' ← add files (plan_folder sv bf lf.version (lookup bf lf.extra_folders) db target)
    add_batch_folders lf db target bfs files'

  unfoldable pub usable_snapshot :
      LocalVersionFolder V → DatabaseModel V → Option (Target V) → Text → Option MigrationFile
  usable_snapshot lf db target batch =
      if not (has_any_version db) && snapshot_reaches sv lf.version target
      then lookup batch lf.snapshots
      else none

  -- The files of one version, of the schema folder and the batch's folders.
  unfoldable pub version_files :
      Text
      → List Text
      → LocalVersionFolder V
      → DatabaseModel V
      → Option (Target V)
      → Outcome (Option MigrationScripts)
  version_files schema bfs lf db target =
      add_batch_folders lf db target bfs
        (plan_folder sv schema lf.version lf.schema_folder db target)

  -- The body of the loop over the versions.
  unfoldable pub plan_version :
      Text
      → Text
      → List Text
      → DatabaseModel V
      → Option (Target V)
      → List (VersionPlan V)
      → LocalVersionFolder V
      → Outcome (List (VersionPlan V))
  plan_version schema batch bfs db target plan lf =
      next_plan plan lf.version (usable_snapshot lf db target batch)
        (version_files schema bfs lf db target)

  unfoldable pub plan_versions :
      Text
      → Text
      → List Text
      → DatabaseModel V
      → Option (Target V)
      → List (VersionPlan V)
      → LocalFolders V
      → Outcome (List (VersionPlan V))
  plan_versions schema batch bfs db target plan [] = ok plan
  plan_versions schema batch bfs db target plan (lf ∷ lfs) = do
    plan' ← plan_version schema batch bfs db target plan lf
    plan_versions schema batch bfs db target plan' lfs

  -- The newest local version is below the target.
  unfoldable pub beyond_last : LocalFolders V → Option (Target V) → Bool
  beyond_last [] target = false
  beyond_last (lf ∷ []) none = false
  beyond_last (lf ∷ []) (some t) = sv.less_than lf.version t.version
  beyond_last (lf ∷ lg ∷ lfs) target = beyond_last (lg ∷ lfs) target

module _ {V : Type 0} (sv : Semver V) where
  abbrev pub target_args : Option (Target V) → List Text
  target_args none = []
  target_args (some t) = sv.to_string t.version ∷ []

  -- `Plan` from the check of the target on, with the folders sorted.
  abbrev pub plan_sorted :
      PlannerConfig
      → Text
      → DatabaseModel V
      → Option (Target V)
      → LocalFolders V
      → List Text
      → Outcome (List (VersionPlan V))
  plan_sorted p batch db target sorted bfs =
      refuse_if (beyond_last sv sorted target) "specified target %s version does not exist"
        (target_args target)
      >> (deref p.schema_folder >>= λ schema.
          plan_versions sv schema.folder_name batch bfs db target [] sorted)

module _ {V : Type 0} (sv : Semver V) ⦃folders : SortSlice (LocalVersionFolder V)⦄ where
  abbrev pub plan_batch :
      LocalFolders V
      → DatabaseModel V
      → Option (TargetVersion V)
      → Text
      → PlannerConfig
      → Outcome (List (VersionPlan V))
  plan_batch local_folders db target_version batch p =
      batch_folders p batch
      >>= plan_sorted sv p batch db (effective_target target_version)
          (sort_by_version sv local_folders)

  -- What `Plan` computes before it calls the builder.
  unfoldable pub collect :
      Planner
      → LocalFolders V
      → DatabaseModel V
      → Option (TargetVersion V)
      → Text
      → Outcome (List (VersionPlan V))
  collect planner local_folders db target_version batch =
      deref planner.config.planner >>= plan_batch local_folders db target_version batch
