-- ===== src/Supervisor/Update/Commands.antt =====
-- What an update asks of the commands it may start, and of no other.
use neo4j_graph_tool_core.Base.{
  ℕ, Text, codes, text_keys, ◌==◌, Option, none, some, List, [], ◌∷◌, Bool, true, false, ◌≡◌, refl,
  ap, ◌∙◌, Outcome, ok, fail, panic, if◌then◌else◌,
}
use mathlib.Core.Path.{fun_ext}
use mathlib.Core.Bool.{true≢false}
use neo4j_graph_tool_core.Base.Dict.{lookup}
use neo4j_graph_tool_core.Base.Sort.{SortSlice}
use neo4j_graph_tool_core.Semver.{Semver}
use neo4j_graph_tool_core.Config.Defs.{Config, PlannerConfig, SupervisorConfig}
use neo4j_graph_tool_core.Migrator.Files.{MigrationFile, LocalVersionFolder, TargetVersion}
use neo4j_graph_tool_core.Migrator.Allowed.{IsAllowed, exit_command, listed, AllAllowed}
use neo4j_graph_tool_core.Migrator.Steps.{ExecutionSteps, cypher_step, command_step}
use neo4j_graph_tool_core.Supervisor.Utility.{Utils, start_utility, register, wait_and_clean}
use neo4j_graph_tool_core.Supervisor.Update.{
  Host, cypher_shell, continue_after, run_steps, run_configured, make_steps, known_model,
  after_made, update_body,
}
use neo4j_graph_tool_core.Supervisor.Update.Allowed.{make_steps-AllAllowed}

-- `cypher-shell` with the configured format, or a configured program with any arguments.
pub data IsPermitted (pc : PlannerConfig) : List Text → Type 0 where
  shell : IsPermitted pc (cypher_shell pc.cypher_shell_format)
  configured :
      (name : Text) {path : Text} {args : List Text}
      → lookup name pc.allowed_commands ≡ some path
      → IsPermitted pc (path ∷ args)

-- Two ways to start commands that differ at most on what is not permitted.
abbrev pub AreAlike :
    PlannerConfig
    → (Option Text → List Text → Outcome ℕ)
    → (Option Text → List Text → Outcome ℕ)
    → Type 0
AreAlike pc start_cmd other =
    (stdin : Option Text) (args : List Text)
    → IsPermitted pc args
    → start_cmd stdin args ≡ other stdin args

named_program :
    (pc : PlannerConfig) (a : Text) (args : List Text)
    → IsAllowed pc.allowed_commands (command_step (a ∷ args))
    → (a == codes "exit") ≡ false
    → IsPermitted pc (a ∷ args)
named_program pc a args (listed name e) other_name = configured name e
named_program pc a args exit_command other_name = absurd (true≢false other_name)

one_of :
    {A : Type 0} (b : Bool) {x x' y y' : A}
    → x ≡ x'
    → (b ≡ false → y ≡ y')
    → (if b then x else y) ≡ (if b then x' else y')
one_of true h k = h
one_of false h k = k refl

start_utility-same :
    (start_cmd other : List Text → Outcome ℕ) (waited : ℕ → Outcome (Unit {0})) (args : List Text)
    (utils : Utils)
    → start_cmd args ≡ other args
    → start_utility start_cmd waited args utils ≡ start_utility other waited args utils
unfolding start_utility
start_utility-same start_cmd other waited [] utils e = refl
start_utility-same start_cmd other waited (name ∷ args) utils e =
    ap (λ r. wait_and_clean name waited (register name r utils)) e

module _ (pc : PlannerConfig) (start_cmd other : Option Text → List Text → Outcome ℕ)
    (waited : ℕ → Outcome (Unit {0})) (alike : AreAlike pc start_cmd other) where
  started_alike :
      (stdin : Option Text) (args : List Text) (utils : Utils)
      (next after : Utils → Option (Outcome (Unit {0}) × Utils))
      → IsPermitted pc args
      → ((u : Utils) → next u ≡ after u)
      → continue_after (start_utility (start_cmd stdin) waited args utils) next
        ≡ continue_after (start_utility (other stdin) waited args utils) after
  started_alike stdin args utils next after permitted h =
      ap (λ o. continue_after o next)
        (start_utility-same (start_cmd stdin) (other stdin) waited args utils
          (alike stdin args permitted))
      ∙ ap (continue_after (start_utility (other stdin) waited args utils)) (fun_ext h)

  run_steps-same :
      (steps : ExecutionSteps) (utils : Utils)
      → AllAllowed pc.allowed_commands steps
      → run_steps start_cmd waited pc.cypher_shell_format steps utils
        ≡ run_steps other waited pc.cypher_shell_format steps utils
  unfolding run_steps
  run_steps-same [] utils h = refl
  run_steps-same (cypher_step buffer ∷ steps) utils h =
      started_alike (some buffer) (cypher_shell pc.cypher_shell_format) utils
        (run_steps start_cmd waited pc.cypher_shell_format steps)
        (run_steps other waited pc.cypher_shell_format steps) shell
        (λ u. run_steps-same steps u h.1)
  run_steps-same (command_step [] ∷ steps) utils h = refl
  run_steps-same (command_step (a ∷ args) ∷ steps) utils h =
      one_of (a == codes "exit") (run_steps-same steps utils h.1) (λ other_name.
        started_alike none (a ∷ args) utils
          (run_steps start_cmd waited pc.cypher_shell_format steps)
          (run_steps other waited pc.cypher_shell_format steps)
          (named_program pc a args h.0 other_name) (λ u. run_steps-same steps u h.1))

module _ {V : Type 0} (sv : Semver V) ⦃files : SortSlice MigrationFile⦄
    ⦃folders : SortSlice (LocalVersionFolder V)⦄ (host : Host sv) (cfg : Config) where
  abbrev pub with_commands : (Option Text → List Text → Outcome ℕ) → Host sv
  with_commands other = record host { start_cmd = other }

  configured-same :
      (pc : PlannerConfig) (other : Option Text → List Text → Outcome ℕ)
      (s : Option SupervisorConfig) (steps : ExecutionSteps) (utils : Utils)
      → run_steps host.start_cmd host.waited pc.cypher_shell_format steps utils
        ≡ run_steps other host.waited pc.cypher_shell_format steps utils
      → run_configured sv host cfg s (some pc) steps utils
        ≡ run_configured sv (with_commands other) cfg s (some pc) steps utils
  configured-same pc other none steps utils h = refl
  configured-same pc other (some s) steps utils h = h

  after_made-same :
      (pc : PlannerConfig) (other : Option Text → List Text → Outcome ℕ)
      (made : Outcome (Unit {0}) × ExecutionSteps) (dry_run : Bool) (utils : Utils)
      → cfg.planner ≡ some pc
      → AreAlike pc host.start_cmd other
      → AllAllowed pc.allowed_commands made.1
      → after_made sv host cfg made dry_run utils
        ≡ after_made sv (with_commands other) cfg made dry_run utils
  after_made-same pc other (fail m args, steps) dry_run utils e alike h = refl
  after_made-same pc other (panic, steps) dry_run utils e alike h = refl
  after_made-same pc other (ok u, []) dry_run utils e alike h = refl
  after_made-same pc other (ok u, s ∷ steps) true utils e alike h = refl
  after_made-same pc other (ok u, s ∷ steps) false utils e alike h = rw e (
      configured-same pc other cfg.supervisor (s ∷ steps) utils
        (run_steps-same pc host.start_cmd other host.waited alike (s ∷ steps) utils h))

  -- An update starts no commands but `cypher-shell` with the configured format and the programs of
  -- `allowed_commands`, whatever the folders and the database hold: its result does not depend on
  -- what any other command does.
  pub update_body-commands :
      (pc : PlannerConfig) (other : Option Text → List Text → Outcome ℕ)
      (target : Option (TargetVersion V)) (dry_run clean : Bool) (batch : Text) (utils : Utils)
      → cfg.planner ≡ some pc
      → AreAlike pc host.start_cmd other
      → update_body sv host cfg target dry_run clean batch utils
        ≡ update_body sv (with_commands other) cfg target dry_run clean batch utils
  unfolding update_body make_steps known_model
  update_body-commands pc other target dry_run clean batch utils e alike =
      after_made-same pc other (make_steps sv host cfg target clean batch []) dry_run utils e alike
        (make_steps-AllAllowed sv host cfg pc target clean batch e)
