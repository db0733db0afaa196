-- ===== src/Migrator/Plan/Calls.antt =====
-- The calls of the builder as one list: the loops at the end of `Plan`, unrolled.
use mathlib.Core.List.{reverse}
use neo4j_graph_tool_core.Base.{
  Text, Option, List, [], ◌∷◌, ◌++◌, ◌≡◌, refl, map, Outcome, ok, fail, panic,
}
use neo4j_graph_tool_core.Base.Sort.{SortSlice}
use neo4j_graph_tool_core.Base.Monad
use neo4j_graph_tool_core.Base.Result.{◌>>=◌}
use neo4j_graph_tool_core.Base.Monad.{Exec, lift, for_each, for_each-append, for_each-map}
use neo4j_graph_tool_core.Semver.{Semver}
use neo4j_graph_tool_core.Migrator.Files.{
  MigrationFile, LocalVersionFolder, LocalFolders, TargetVersion, sort_up_files, sort_down_files,
}
use neo4j_graph_tool_core.Migrator.Database.{DatabaseModel}
use neo4j_graph_tool_core.Migrator.Plan.Versions.{Planner, VersionPlan, collect}
use neo4j_graph_tool_core.Migrator.Plan.Run.{Builder, run_up, run_down, run_plan, plan}

-- A call of the builder: the file and its version.
abbrev pub Call : Type 0 → Type 0
Call V = MigrationFile × V

abbrev pub call_builder : {S V : Type 0} → Builder S V → Call V → Exec S (Unit {0})
call_builder builder c = builder c.0 c.1

module _ {V : Type 0} ⦃files : SortSlice MigrationFile⦄ where
  abbrev pub calls_of : V → List MigrationFile → List (Call V)
  calls_of version fs = map (λ f. (f, version)) fs

  unfoldable pub up_calls : List (VersionPlan V) → List (Call V)
  up_calls [] = []
  up_calls (vp ∷ plan) = calls_of vp.version (sort_up_files vp.scripts).up ++ up_calls plan

  unfoldable pub down_calls : List (VersionPlan V) → List (Call V)
  down_calls [] = []
  down_calls (vp ∷ plan) = calls_of vp.version (sort_down_files vp.scripts).down ++ down_calls plan

module _ {V S : Type 0} ⦃files : SortSlice MigrationFile⦄ (builder : Builder S V) where
  for_each-run_up :
      (vps : List (VersionPlan V))
      → for_each (run_up builder) vps ≡ for_each (call_builder builder) (up_calls vps)
  unfolding up_calls for_each
  for_each-run_up [] = refl
  for_each-run_up (vp ∷ vps) = rw (
    for_each-append (call_builder builder),
    for_each-map (call_builder builder),
    ← for_each-run_up vps,
  )

  for_each-run_down :
      (vps : List (VersionPlan V))
      → for_each (run_down builder) vps ≡ for_each (call_builder builder) (down_calls vps)
  unfolding down_calls for_each
  for_each-run_down [] = refl
  for_each-run_down (vp ∷ vps) = rw (
    for_each-append (call_builder builder),
    for_each-map (call_builder builder),
    ← for_each-run_down vps,
  )

  pub run_plan-calls :
      (vps : List (VersionPlan V))
      → run_plan builder vps
        ≡ for_each (call_builder builder) (up_calls vps ++ down_calls (reverse vps))
  unfolding run_plan
  run_plan-calls vps =
      rw (for_each-append (call_builder builder), for_each-run_up, for_each-run_down)

module _ {V : Type 0} (sv : Semver V) ⦃files : SortSlice MigrationFile⦄
    ⦃folders : SortSlice (LocalVersionFolder V)⦄ where
  abbrev pub schedule_of : Outcome (List (VersionPlan V)) → Outcome (List (Call V))
  schedule_of r = r >>= λ vps. ok (up_calls vps ++ down_calls (reverse vps))

  abbrev pub scheduled_calls :
      Planner
      → LocalFolders V
      → DatabaseModel V
      → Option (TargetVersion V)
      → Text
      → Outcome (List (Call V))
  scheduled_calls planner lfs db target batch = schedule_of (collect sv planner lfs db target batch)

module _ {V S : Type 0} (sv : Semver V) ⦃files : SortSlice MigrationFile⦄
    ⦃folders : SortSlice (LocalVersionFolder V)⦄ where
  run_scheduled :
      (builder : Builder S V) (s : S) (r : Outcome (List (VersionPlan V)))
      → Monad.◌>>=◌ (lift r) (run_plan builder) s
        ≡ Monad.◌>>=◌ (lift (schedule_of sv r)) (for_each (call_builder builder)) s
  run_scheduled builder s (ok vps) = rw (run_plan-calls builder vps)
  run_scheduled builder s (fail m args) = refl
  run_scheduled builder s panic = refl

  -- `Plan` computes a schedule that does not depend on the builder, and then calls the builder for
  -- each entry of it until a call fails: every upgrade in the order of the plan, and then every
  -- downgrade in the opposite order. If there is no schedule, the builder is never called.
  pub plan-scheduled_calls :
      (planner : Planner) (lfs : LocalFolders V) (db : DatabaseModel V)
      (target : Option (TargetVersion V)) (batch : Text) (builder : Builder S V) (s : S)
      → plan sv planner lfs db target batch builder s
        ≡ Monad.◌>>=◌
            (lift (scheduled_calls sv planner lfs db target batch))
            (for_each (call_builder builder))
            s
  unfolding plan
  plan-scheduled_calls planner lfs db target batch builder s =
      run_scheduled builder s (collect sv planner lfs db target batch)
