-- ===== src/Supervisor/Update.antt =====
-- `RefreshData` and `update` of supervisor/neo4j.go: what an update reads, plans and runs, where no
-- other goroutine uses the wrapper meanwhile.
pub mod Errors
pub mod Allowed
pub mod Commands
pub mod Success
use Prim.Native.String.{String}
use neo4j_graph_tool_core.Base.{
  ℕ, Text, codes, text_keys, ◌==◌, Option, none, some, List, [], ◌∷◌, Bool, true, false, is_empty,
  Outcome, ok, fail, panic, deref, if◌then◌else◌,
}
use neo4j_graph_tool_core.Base.Result.{◌>>=◌ as ◌>>='◌}
use neo4j_graph_tool_core.Base.Monad.{Exec, pure, lift, ◌>>=◌, ◌>>◌}
use neo4j_graph_tool_core.Base.Sort.{SortSlice}
use neo4j_graph_tool_core.Semver.{Semver}
use neo4j_graph_tool_core.Config.Defs.{Config, PlannerConfig, SupervisorConfig}
use neo4j_graph_tool_core.Migrator.Files.{
  MigrationFile, LocalVersionFolder, LocalFolders, TargetVersion,
}
use neo4j_graph_tool_core.Migrator.Database.{DatabaseGraphVersion, DatabaseModel}
use neo4j_graph_tool_core.Migrator.Version.{Session, version}
use neo4j_graph_tool_core.Migrator.Plan.Versions.{Planner, new_planner}
use neo4j_graph_tool_core.Migrator.Plan.Run.{plan}
use neo4j_graph_tool_core.Migrator.Steps.{
  ExecutionStep, ExecutionSteps, cypher_step, command_step, print_steps,
}
use neo4j_graph_tool_core.Migrator.Builder.{create_builder}
use neo4j_graph_tool_core.Migrator.Scanner.Root.{FileInfo, new_scanner}
use neo4j_graph_tool_core.Migrator.Version.Known.{known_versions}
use neo4j_graph_tool_core.Migrator.Scanner.Tree.{FileSystem}
use neo4j_graph_tool_core.Migrator.Scanner.Snapshots.{scan_folders}
use neo4j_graph_tool_core.Supervisor.Helpers.{get_import_dir, drop}
use neo4j_graph_tool_core.Supervisor.Utility.{Utils, start_utility}
use neo4j_graph_tool_core.Supervisor.Wrapper.{Wrapper, set_updating, end_update}

-- `p, _ := migrator.NewPlanner(…)`
abbrev pub without_error : Outcome Planner → Option Planner
without_error (ok p) = some p
without_error (fail m args) = none
without_error panic = none

-- What an update uses besides the code: the database, the files below a root, `os.ReadFile`,
-- `filepath.Abs`, what `StartCmd` gives for a command, with its stdin, and `WaitTS` for a process,
-- and what `Acquire` gives at the first check and in the deferred function, which is an error once
-- the context is cancelled.
pub record Host {V : Type 0} (sv : Semver V) : Type 0 where
  pub session : Session sv
  pub stat : Text → FileInfo
  pub file_system : Text → FileSystem
  pub read_file : Text → Outcome Text
  pub absolute : Text → Outcome Text
  pub start_cmd : Option Text → List Text → Outcome ℕ
  pub waited : ℕ → Outcome (Unit {0})
  pub first_acquired : Outcome (Unit {0})
  pub last_acquired : Outcome (Unit {0})

-- The command for a Cypher step, which gets the step as stdin.
abbrev pub cypher_shell : Text → List Text
cypher_shell format = codes "cypher-shell" ∷ codes "--fail-fast" ∷ codes "--format" ∷ format ∷ []

-- `break` of the loop of `update` on an error, which is logged and dropped.
abbrev pub continue_after :
    Option (Outcome (Unit {0}) × Utils)
    → (Utils → Option (Outcome (Unit {0}) × Utils))
    → Option (Outcome (Unit {0}) × Utils)
continue_after none next = none
continue_after (some (ok u, utils)) next = next utils
continue_after (some (fail m args, utils)) next = some (ok tt, utils)
continue_after (some (panic, utils)) next = some (panic, utils)

module _ (start_cmd : Option Text → List Text → Outcome ℕ) (waited : ℕ → Outcome (Unit {0}))
    (format : Text) where
  -- The loop of `update` over the steps.
  unfoldable pub run_steps : ExecutionSteps → Utils → Option (Outcome (Unit {0}) × Utils)
  run_steps [] utils = some (ok tt, utils)
  run_steps (cypher_step buffer ∷ steps) utils =
      continue_after (start_utility (start_cmd (some buffer)) waited (cypher_shell format) utils)
        (run_steps steps)
  run_steps (command_step [] ∷ steps) utils = some (panic, utils)
  run_steps (command_step (a ∷ args) ∷ steps) utils =
      let rest = run_steps steps utils in
      let started =
        continue_after (start_utility (start_cmd none) waited (a ∷ args) utils) (run_steps steps) in
      if a == codes "exit" then rest else started

module _ {V : Type 0} (sv : Semver V) ⦃files : SortSlice MigrationFile⦄
    ⦃folders : SortSlice (LocalVersionFolder V)⦄ (host : Host sv) (cfg : Config) where
  -- The model of the database, which a clean update does not ask for.
  unfoldable pub known_model : Bool → Option Planner → Outcome (DatabaseModel V)
  unfolding version known_versions
  known_model true p = ok []
  known_model false p =
      deref p >>=' λ planner. version sv host.session planner.config >>=' known_versions

  abbrev pub dropped : Bool → PlannerConfig → Exec ExecutionSteps (Unit {0})
  dropped true pc = drop host.absolute pc
  dropped false pc = pure tt

  -- `update` from `drop` to `Plan`.
  abbrev pub plan_found :
      Option (TargetVersion V)
      → Bool
      → Text
      → DatabaseModel V
      → PlannerConfig
      → Planner
      → LocalFolders V
      → Exec ExecutionSteps (Unit {0})
  plan_found target clean batch db pc planner lfs =
      dropped clean pc
      >> plan sv planner lfs db target batch
          (create_builder sv host.read_file host.absolute planner true)

  abbrev pub plan_scanned :
      Option (TargetVersion V)
      → Bool
      → Text
      → DatabaseModel V
      → PlannerConfig
      → Planner
      → Exec ExecutionSteps (Unit {0})
  plan_scanned target clean batch db pc planner =
      lift (scan_folders sv (host.file_system (get_import_dir pc.base_folder)) planner)
      >>= plan_found target clean batch db pc planner

  abbrev pub plan_config :
      Option (TargetVersion V)
      → Bool
      → Text
      → DatabaseModel V
      → PlannerConfig
      → Exec ExecutionSteps (Unit {0})
  plan_config target clean batch db pc =
      let root = get_import_dir pc.base_folder in
      lift (new_scanner (host.stat root) root (without_error (new_planner sv (some cfg))))
      >>= plan_scanned target clean batch db pc

  abbrev pub plan_known :
      Option (TargetVersion V) → Bool → Text → DatabaseModel V → Exec ExecutionSteps (Unit {0})
  plan_known target clean batch db = lift (deref cfg.planner) >>= plan_config target clean batch db

  -- `update` up to the call of `Plan`: the steps that it makes.
  unfoldable pub make_steps :
      Option (TargetVersion V) → Bool → Text → Exec ExecutionSteps (Unit {0})
  unfolding new_planner known_model new_scanner scan_folders plan create_builder
  make_steps target clean batch =
      lift (known_model clean (without_error (new_planner sv (some cfg))))
      >>= plan_known target clean batch

  -- `fmt.Print(execSteps.String())`, of whose result only a panic matters here.
  abbrev pub print_dry : ExecutionSteps → Outcome (Unit {0})
  print_dry steps = print_steps steps >>=' λ printed. ok tt

  -- The loop, behind `getNeo4jBasicAuth` and `Neo4jDatabase`, for which `cfg.Supervisor` is
  -- dereferenced, and before `cfg.Planner` is.
  abbrev pub run_configured :
      Option SupervisorConfig
      → Option PlannerConfig
      → ExecutionSteps
      → Utils
      → Option (Outcome (Unit {0}) × Utils)
  run_configured none pc steps utils = some (panic, utils)
  run_configured (some s) none steps utils = some (panic, utils)
  run_configured (some s) (some pc) steps utils =
      run_steps host.start_cmd host.waited pc.cypher_shell_format steps utils

  abbrev pub run_made : Bool → ExecutionSteps → Utils → Option (Outcome (Unit {0}) × Utils)
  run_made dry_run steps utils =
      if is_empty steps
      then some (ok tt, utils)
      else if dry_run
      then some (print_dry steps, utils)
      else run_configured cfg.supervisor cfg.planner steps utils

  abbrev pub after_made :
      Outcome (Unit {0}) × ExecutionSteps → Bool → Utils → Option (Outcome (Unit {0}) × Utils)
  after_made (ok u, steps) dry_run utils = run_made dry_run steps utils
  after_made (fail m args, steps) dry_run utils = some (fail m args, utils)
  after_made (panic, steps) dry_run utils = some (panic, utils)

  -- `update` between `setUpdatingStateWhenRunning` and its deferred function.
  unfoldable pub update_body :
      Option (TargetVersion V) → Bool → Bool → Text → Utils → Option (Outcome (Unit {0}) × Utils)
  unfolding make_steps run_steps print_steps
  update_body target dry_run clean batch utils =
      after_made (make_steps target clean batch []) dry_run utils

  abbrev pub ended :
      Option (Outcome (Unit {0}) × Utils) → Wrapper → Option (Outcome (Unit {0}) × Utils × Wrapper)
  ended none w = none
  ended (some (r, utils)) w = let e = end_update host.last_acquired r w in some (e.0, utils, e.1)

  abbrev pub updated :
      Outcome (Unit {0}) × Wrapper
      → Utils
      → Option (Outcome (Unit {0}) × Utils)
      → Option (Outcome (Unit {0}) × Utils × Wrapper)
  updated (ok u, w) utils body = ended body w
  updated (fail m args, w) utils body = some (fail m args, utils, w)
  updated (panic, w) utils body = some (panic, utils, w)

  -- `update`
  unfoldable pub update :
      Option (TargetVersion V)
      → Bool
      → Bool
      → Text
      → Utils
      → Wrapper
      → Option (Outcome (Unit {0}) × Utils × Wrapper)
  unfolding set_updating update_body end_update
  update target dry_run clean batch utils w =
      updated (set_updating host.first_acquired w) utils
        (update_body target dry_run clean batch utils)

  abbrev pub wrapped : Outcome (Unit {0}) → Outcome (Unit {0})
  wrapped (ok u) = ok u
  wrapped (fail m args) = fail "importing data failed: %w" (codes m ∷ args)
  wrapped panic = panic

  abbrev pub with_wrapped :
      Option (Outcome (Unit {0}) × Utils × Wrapper) → Option (Outcome (Unit {0}) × Utils × Wrapper)
  with_wrapped none = none
  with_wrapped (some (r, utils, w)) = some (wrapped r, utils, w)

  -- `RefreshData`
  unfoldable pub refresh_data :
      Option (TargetVersion V)
      → Bool
      → Bool
      → Text
      → Utils
      → Wrapper
      → Option (Outcome (Unit {0}) × Utils × Wrapper)
  unfolding update
  refresh_data target dry_run clean batch utils w =
      with_wrapped (update target dry_run clean batch utils w)
