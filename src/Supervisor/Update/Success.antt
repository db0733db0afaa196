-- ===== src/Supervisor/Update/Success.antt =====
-- When an update succeeds.
use neo4j_graph_tool_core.Base.{
  ℕ, Text, codes, text_keys, ◌==◌, Option, none, some, List, [], ◌∷◌, Bool, true, false, ◌≡◌, refl,
  sym, ap, subst, ◌∙◌, Outcome, ok, fail, panic, if◌then◌else◌,
}
use neo4j_graph_tool_core.Base.Dict.{lookup}
use neo4j_graph_tool_core.Base.Sort.{SortSlice}
use neo4j_graph_tool_core.Semver.{Semver}
use neo4j_graph_tool_core.Config.Defs.{Config, PlannerConfig, SupervisorConfig}
use neo4j_graph_tool_core.Migrator.Files.{MigrationFile, LocalVersionFolder, TargetVersion}
use neo4j_graph_tool_core.Migrator.Allowed.{IsAllowed, AllAllowed}
use neo4j_graph_tool_core.Migrator.Steps.{ExecutionSteps, cypher_step, command_step}
use neo4j_graph_tool_core.Supervisor.Wrapper.{Wrapper, running, updating}
use neo4j_graph_tool_core.Supervisor.Utility.{Utils, start_utility}
use neo4j_graph_tool_core.Supervisor.Utility.Lock.{start_utility-waits}
use neo4j_graph_tool_core.Supervisor.Update.{
  Host, continue_after, run_steps, make_steps, after_made, update_body, ended, update,
}
use neo4j_graph_tool_core.Supervisor.Update.Errors.{update-begins, ended-ok}
use neo4j_graph_tool_core.Supervisor.Update.Allowed.{make_steps-AllAllowed}

-- No utility is running, and the mutex is free.
abbrev pub IsQuiet : Utils → Type 0
IsQuiet utils = (utils.locked ≡ false) × ((k : Text) → lookup k utils.utils_cmd ≡ none)

-- A success that leaves no utility.
abbrev pub Succeeds : Option (Outcome (Unit {0}) × Utils) → Type 0
Succeeds o = (after : Utils) × (o ≡ some (ok tt, after)) × IsQuiet after

no_empty : {allowed : List (Text × Text)} → IsAllowed allowed (command_step []) → ⊥
no_empty h = elim h [ ]

either-Succeeds :
    (b : Bool) (x y : Option (Outcome (Unit {0}) × Utils))
    → Succeeds x
    → Succeeds y
    → Succeeds (if b then x else y)
either-Succeeds true x y h k = h
either-Succeeds false x y h k = k

module _ (start_cmd : Option Text → List Text → Outcome ℕ) (waited : ℕ → Outcome (Unit {0}))
    (starts : (stdin : Option Text) (args : List Text)
      → (process : ℕ) × (start_cmd stdin args ≡ ok process))
    (exits : (process : ℕ) → waited process ≡ ok tt) where
  one-Succeeds :
      (stdin : Option Text) (name : Text) (args : List Text) (utils : Utils)
      (next : Utils → Option (Outcome (Unit {0}) × Utils))
      → IsQuiet utils
      → ((u : Utils) → IsQuiet u → Succeeds (next u))
      → Succeeds (continue_after (start_utility (start_cmd stdin) waited (name ∷ args) utils) next)
  one-Succeeds stdin name args utils next quiet h =
      let (process, started) = starts stdin (name ∷ args) in
      let (after, e, free, same) =
        start_utility-waits (start_cmd stdin) waited name args utils process quiet.0 (quiet.1 name)
          started in
      subst (λ o. Succeeds (continue_after o next))
        (sym (e ∙ ap (λ r. some (r, after)) (exits process)))
        (h after (free, λ k. same k ∙ quiet.1 k))

  run_steps-Succeeds :
      (format : Text) (allowed : List (Text × Text)) (steps : ExecutionSteps) (utils : Utils)
      → AllAllowed allowed steps
      → IsQuiet utils
      → Succeeds (run_steps start_cmd waited format steps utils)
  unfolding run_steps
  run_steps-Succeeds format allowed [] utils h quiet = (utils, refl, quiet)
  run_steps-Succeeds format allowed (cypher_step buffer ∷ steps) utils h quiet =
      one-Succeeds (some buffer) (codes "cypher-shell") _ utils
        (run_steps start_cmd waited format steps) quiet
        (λ u q. run_steps-Succeeds format allowed steps u h.1 q)
  run_steps-Succeeds format allowed (command_step [] ∷ steps) utils h quiet = absurd (no_empty h.0)
  run_steps-Succeeds format allowed (command_step (a ∷ args) ∷ steps) utils h quiet =
      either-Succeeds (a == codes "exit") _ _
        (run_steps-Succeeds format allowed steps utils h.1 quiet)
        (one-Succeeds none a args utils (run_steps start_cmd waited format steps) quiet
          (λ u q. run_steps-Succeeds format allowed steps u h.1 q))

module _ {V : Type 0} (sv : Semver V) ⦃files : SortSlice MigrationFile⦄
    ⦃folders : SortSlice (LocalVersionFolder V)⦄ (host : Host sv) (cfg : Config) where
  made-Succeeds :
      (pc : PlannerConfig) (sc : SupervisorConfig) (made : Outcome (Unit {0}) × ExecutionSteps)
      (utils : Utils)
      → cfg.planner ≡ some pc
      → cfg.supervisor ≡ some sc
      → ((stdin : Option Text) (args : List Text)
          → (process : ℕ) × (host.start_cmd stdin args ≡ ok process))
      → ((process : ℕ) → host.waited process ≡ ok tt)
      → made.0 ≡ ok tt
      → AllAllowed pc.allowed_commands made.1
      → IsQuiet utils
      → Succeeds (after_made sv host cfg made false utils)
  made-Succeeds pc sc (fail m args, steps) utils has_planner has_supervisor starts exits h allowed
        quiet =
      cc
  made-Succeeds pc sc (panic, steps) utils has_planner has_supervisor starts exits h allowed quiet =
      cc
  made-Succeeds pc sc (ok u, []) utils has_planner has_supervisor starts exits h allowed quiet =
      (utils, refl, quiet)
  made-Succeeds pc sc (ok u, s ∷ steps) utils has_planner has_supervisor starts exits h allowed
        quiet =
      rw (has_planner, has_supervisor)
        (run_steps-Succeeds host.start_cmd host.waited starts exits pc.cypher_shell_format
          pc.allowed_commands (s ∷ steps) utils allowed quiet)

  -- When the configuration has a planner and a supervisor, the semaphore is given, reading and
  -- planning succeed, every command starts, every process exits without an error and the mutex of
  -- the utilities is free with no utility running, an update of a running service that is no dry run
  -- succeeds: afterwards the service runs, and no utility is left.
  pub update-succeeds :
      (pc : PlannerConfig) (sc : SupervisorConfig) (target : Option (TargetVersion V))
      (clean : Bool) (batch : Text) (utils : Utils) (w : Wrapper)
      → cfg.planner ≡ some pc
      → cfg.supervisor ≡ some sc
      → host.first_acquired ≡ ok tt
      → host.last_acquired ≡ ok tt
      → ((stdin : Option Text) (args : List Text)
          → (process : ℕ) × (host.start_cmd stdin args ≡ ok process))
      → ((process : ℕ) → host.waited process ≡ ok tt)
      → (make_steps sv host cfg target clean batch []).0 ≡ ok tt
      → IsQuiet utils
      → w.service_state ≡ running
      → (after : Utils) × (update sv host cfg target false clean batch utils w
          ≡ some (ok tt, after, record w { service_state = running }))
        × IsQuiet after
  unfolding update_body
  update-succeeds pc sc target clean batch utils w has_planner has_supervisor first last starts
        exits made quiet is_running =
      let (after, e, left) =
        made-Succeeds pc sc (make_steps sv host cfg target clean batch []) utils has_planner
          has_supervisor starts exits made
          (make_steps-AllAllowed sv host cfg pc target clean batch has_planner) quiet in
      (
        after,
        update-begins sv host cfg target clean batch utils w first is_running
            ∙ ap (λ o. ended sv host cfg o (record w { service_state = updating })) e
            ∙ ended-ok sv host cfg after (record w { service_state = updating }) last,
        left,
      )
