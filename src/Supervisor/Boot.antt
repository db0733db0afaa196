-- ===== src/Supervisor/Boot.antt =====
-- supervisor/supervisor.go: how the supervisor starts, loads the first data, and stops.
pub mod Stop
use neo4j_graph_tool_core.Base.{
  ℕ, Text, codes, Option, none, some, List, [], ◌∷◌, Outcome, ok, fail, panic, deref, map, ◌++◌,
  Bool, true, false,
}
use neo4j_graph_tool_core.Base.Result.{◌>>=◌, ◌>>◌}
use neo4j_graph_tool_core.Base.Dict.{Dict}
use neo4j_graph_tool_core.Base.Sort.{SortSlice}
use neo4j_graph_tool_core.Semver.{Semver}
use neo4j_graph_tool_core.Config.Defs.{Config, SupervisorConfig}
use neo4j_graph_tool_core.Config.Validate.{validate_with_supervisor}
use neo4j_graph_tool_core.Migrator.Files.{MigrationFile, LocalVersionFolder, TargetVersion}
use neo4j_graph_tool_core.Migrator.Target.{parse_target_version}
use neo4j_graph_tool_core.Supervisor.Wrapper.{Wrapper, new_wrapper, start}
use neo4j_graph_tool_core.Supervisor.Utility.{Utils, stop_all, waited_utils}
use neo4j_graph_tool_core.Supervisor.Update.{Host, refresh_data}
use neo4j_graph_tool_core.Supervisor.Http.{Server}

-- `stringToLogrusLogLevel`; `parse_level` is `logrus.ParseLevel`.
unfoldable pub string_to_log_level :
    {Level : Type 0} → (parse_level : Text → Option Level) → (debug_level : Level) → Text → Level
string_to_log_level parse_level debug_level level = elim (parse_level level) [
  | none ↦ debug_level
  | some l ↦ l
]

module _ {V : Type 0} (sv : Semver V) where
  abbrev pub default_target : Text → Outcome (TargetVersion V) → Outcome (Option (TargetVersion V))
  default_target v (ok t) = ok (some t)
  default_target v (fail m args) = fail "invalid graph version '%s': %w" (v ∷ codes m ∷ args)
  default_target v panic = panic

  abbrev pub graph_version : Text → Outcome (Option (TargetVersion V))
  graph_version [] = ok none
  graph_version (c ∷ v) = default_target (c ∷ v) (parse_target_version sv (c ∷ v))

  -- `loadBatchTarget`, which dereferences the supervisor's part of the config.
  unfoldable pub load_batch_target : Option SupervisorConfig → Outcome (Server V)
  unfolding parse_target_version
  load_batch_target supervisor = deref supervisor >>= λ s.
      (graph_version s.default_graph_version >>= λ target.
      ok (record { default_target_version = target; default_batch = s.initial_batch }))

  -- `Start` up to `bootstrapDB`: what the server has, and the wrapper after `neo4j.Start`, whose
  -- error is logged. `driver` is what `NewDriver` gives.
  unfoldable pub boot :
      Config
      → (driver : Outcome (Unit {0})) → (start_cmd : Outcome ℕ) → Outcome (Server V × Wrapper)
  unfolding validate_with_supervisor load_batch_target start
  boot cfg driver start_cmd =
      validate_with_supervisor sv (some cfg)
      >> (driver
          >> (load_batch_target cfg.supervisor >>= λ server.
              ok (server, (start start_cmd new_wrapper).1)))

module _ {V : Type 0} (sv : Semver V) ⦃files : SortSlice MigrationFile⦄
    ⦃folders : SortSlice (LocalVersionFolder V)⦄ (host : Host sv) (cfg : Config) where
  -- `bootstrapDB`, where `WaitForNeo4j` gives `ready`; errors are logged.
  unfoldable pub bootstrap_db :
      Server V
      → Outcome (Unit {0})
      → Utils
      → Wrapper
      → Option (Outcome (Unit {0}) × Utils × Wrapper)
  unfolding refresh_data
  bootstrap_db s (ok u) utils w =
      refresh_data sv host cfg s.default_target_version false true s.default_batch utils w
  bootstrap_db s (fail m args) utils w = some (fail m args, utils, w)
  bootstrap_db s panic utils w = some (panic, utils, w)

-- The process that `Wait` waits for.
abbrev pub main_waited : Outcome (Unit {0}) → Wrapper → List ℕ
main_waited (ok u) w = elim w.service_cmd [ none ↦ [] | some process ↦ process ∷ [] ]
main_waited (fail m args) w = []
main_waited panic w = []

abbrev pub all_waited : List ℕ → Option (Dict Text ℕ) → Option (List ℕ)
all_waited main none = none
all_waited main (some utils) = some (main ++ map (λ e. e.1) utils)

-- `WaitAll`: the processes whose end it waits for.
unfoldable pub wait_all : Outcome (Unit {0}) → Utils → Wrapper → Option (List ℕ)
unfolding waited_utils
wait_all acquired u w = all_waited (main_waited acquired w) (waited_utils u)

-- What `stop` works on: whether `cancelCtx` was called, the wrapper, and the processes that it has
-- waited for.
pub record Closing : Type 0 where
  pub context_done : Bool
  pub wrapper : Wrapper
  pub awaited : List ℕ

abbrev pub cancel_ctx : Closing → Closing
cancel_ctx c = record c { context_done = true }

-- `acquire` is what `Acquire` gives for a context, by whether it is cancelled, and `sent` what a
-- signal to a process gives. Errors are logged. The server and the driver are closed before, which
-- changes nothing of this.
module _ (acquire : Bool → Outcome (Unit {0})) (sent : ℕ → Outcome (Unit {0})) (u : Utils) where
  unfoldable pub stop_services : Closing → Option Closing
  unfolding stop_all
  stop_services c = elim (stop_all (acquire c.context_done) sent u c.wrapper) [
    | none ↦ none
    | some (r, w) ↦ some (record c { wrapper = w })
  ]

  unfoldable pub wait_services : Closing → Option Closing
  unfolding wait_all
  wait_services c = elim (wait_all (acquire c.context_done) u c.wrapper) [
    | none ↦ none
    | some processes ↦ some (record c { awaited = c.awaited ++ processes })
  ]

  -- `stop`
  unfoldable pub shut_down : Closing → Option Closing
  unfolding stop_services wait_services
  shut_down c =
      let cancelled = cancel_ctx c in
      elim (stop_services cancelled) [ none ↦ none | some stopped ↦ wait_services stopped ]
