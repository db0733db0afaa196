-- ===== src/Migrator/Builder/Steps.antt =====
-- The steps that `Plan` builds with the builder of `CreateBuilder`.
use neo4j_graph_tool_core.Base.{
  Text, Option, some, [], ◌∷◌, ◌++◌, Bool, true, false, ◌≡◌, refl, Outcome, ok, codes, text_keys,
  ◌==◌, if◌then◌else◌,
}
use neo4j_graph_tool_core.Base.Dict.{Dict}
use neo4j_graph_tool_core.Base.Sort.{SortSlice}
use neo4j_graph_tool_core.Semver.{Semver}
use neo4j_graph_tool_core.Config.Defs.{PlannerConfig}
use neo4j_graph_tool_core.Migrator.Files.{
  MigrationFile, LocalVersionFolder, LocalFolders, TargetVersion,
}
use neo4j_graph_tool_core.Migrator.Database.{DatabaseModel}
use neo4j_graph_tool_core.Migrator.Plan.Versions.{Planner}
use neo4j_graph_tool_core.Migrator.Plan.Run.{plan}
use neo4j_graph_tool_core.Migrator.Steps.{ExecutionStep, ExecutionSteps, print_step, print_steps}
use neo4j_graph_tool_core.Migrator.Steps.Shape.{
  IsMerged, add_cypher-IsMerged, add_command_step-IsMerged,
}
use neo4j_graph_tool_core.Migrator.Allowed.{
  IsAllowed, cypher_text, exit_command, listed, AllAllowed, add_cypher-AllAllowed,
  add_command_step-AllAllowed,
}
use neo4j_graph_tool_core.Migrator.Builder.{create_builder}
use neo4j_graph_tool_core.Migrator.Builder.Invariant.{plan-invariant}

print_step-ok :
    (allowed : Dict Text Text) (s : ExecutionStep)
    → IsAllowed allowed s
    → (r : Text × ExecutionStep) × (print_step s ≡ ok r)
unfolding print_step
print_step-ok allowed s cypher_text = (_, refl)
print_step-ok allowed s exit_command = (_, refl)
print_step-ok allowed s (listed name {path} {args} e) = go (path == codes "exit") _ _
  where
    go :
        (b : Bool) (x y : Text × ExecutionStep)
        → (r : Text × ExecutionStep) × ((if b then ok x else ok y) ≡ ok r)
    go true x y = (_, refl)
    go false x y = (_, refl)

print_steps-ok :
    (allowed : Dict Text Text) (steps : ExecutionSteps)
    → AllAllowed allowed steps
    → (r : Text × ExecutionSteps) × (print_steps steps ≡ ok r)
unfolding print_steps
print_steps-ok allowed [] h = (_, refl)
print_steps-ok allowed (s ∷ steps) h =
    let (first, e) = print_step-ok allowed s h.0 in
    let (rest, es) = print_steps-ok allowed steps h.1 in
    ((first.0 ++ rest.0, first.1 ∷ rest.1), rw (e, es))

module _ {V : Type 0} (sv : Semver V) (read_file : Text → Outcome Text)
    (absolute : Text → Outcome Text) (planner : Planner) (abs : Bool)
    ⦃files : SortSlice MigrationFile⦄ ⦃folders : SortSlice (LocalVersionFolder V)⦄
    (p : PlannerConfig) (lfs : LocalFolders V) (db : DatabaseModel V)
    (target : Option (TargetVersion V)) (batch : Text) where
  -- The steps that `Plan` leaves, also when it fails half way, hold no command but `exit` and
  -- those that start with a path of `allowed_commands`, whatever the files say, when this holds of
  -- the steps before.
  pub plan-AllAllowed :
      (steps : ExecutionSteps)
      → planner.config.planner ≡ some p
      → AllAllowed p.allowed_commands steps
      → AllAllowed p.allowed_commands
          (plan sv planner lfs db target batch
            (create_builder sv read_file absolute planner abs)
            steps).1
  plan-AllAllowed steps c h =
      (plan-invariant sv read_file absolute planner abs (AllAllowed p.allowed_commands) p lfs db
          target batch c (add_cypher-AllAllowed p.allowed_commands)
          (add_command_step-AllAllowed p.allowed_commands)).after
        steps h

  -- The steps that `Plan` leaves, also when it fails half way, never have two Cypher steps side by side, when this holds of the steps before: the text between two commands is one buffer.
  pub plan-IsMerged :
      (steps : ExecutionSteps)
      → planner.config.planner ≡ some p
      → IsMerged steps
      → IsMerged
          (plan sv planner lfs db target batch
            (create_builder sv read_file absolute planner abs)
            steps).1
  plan-IsMerged steps c h =
      (plan-invariant sv read_file absolute planner abs IsMerged p lfs db target batch c
          add_cypher-IsMerged (λ args s _. add_command_step-IsMerged args s)).after
        steps h

  -- `String` of the steps that `Plan` leaves, from an empty start, does not panic.
  pub plan-print_steps :
      planner.config.planner ≡ some p
      → let made =
          (plan sv planner lfs db target batch
            (create_builder sv read_file absolute planner abs)
            []).1 in
        (r : Text × ExecutionSteps) × (print_steps made ≡ ok r)
  plan-print_steps c = print_steps-ok p.allowed_commands _ (plan-AllAllowed [] c tt)
