-- ===== src/Supervisor/Http.antt =====
-- The handlers of supervisor/server.go: what each request answers and does to the wrapper, where no
-- other goroutine uses it meanwhile. `acquired` is what `Acquire` gives for the wrapper's context.
pub mod Answers
use Prim.Native.String.{String}
use neo4j_graph_tool_core.Base.{
  ℕ, Text, codes, text_keys, ◌==◌, Option, none, some, List, [], ◌∷◌, Bool, true, false, Outcome,
  ok, fail, panic, if◌then◌else◌,
}
use neo4j_graph_tool_core.Base.Result.{◌>>=◌}
use neo4j_graph_tool_core.Base.Dict.{Dict, lookup}
use neo4j_graph_tool_core.Base.Sort.{SortSlice}
use neo4j_graph_tool_core.Semver.{Semver}
use neo4j_graph_tool_core.Config.Defs.{Config}
use neo4j_graph_tool_core.Migrator.Files.{MigrationFile, LocalVersionFolder, TargetVersion}
use neo4j_graph_tool_core.Migrator.Database.{DatabaseModel}
use neo4j_graph_tool_core.Migrator.Target.{parse_target_version}
use neo4j_graph_tool_core.Migrator.Version.{Session, version}
use neo4j_graph_tool_core.Migrator.Plan.Versions.{new_planner}
use neo4j_graph_tool_core.Supervisor.Wrapper.{Wrapper, Neo4jState, failed, is_running, start, stop}
use neo4j_graph_tool_core.Supervisor.Utility.{Utils, StateValue, stop_acquired, all_states}
use neo4j_graph_tool_core.Supervisor.Update.{Host, refresh_data, without_error}

-- A field of a JSON object that a handler answers.
pub data Field (V : Type 0) : Type 0 where
  text_field : Text → Field V
  number_field : ℕ → Field V
  state_field : Neo4jState → Field V
  error_field : Option (String × List Text) → Field V
  states_field : Dict Text StateValue → Field V

pub data Body (V : Type 0) : Type 0 where
  object : Dict Text (Field V) → Body V
  model : DatabaseModel (Option V) → Body V

pub record Answer (V : Type 0) : Type 0 where
  pub code : ℕ
  pub body : Body V

-- What a route calls; `refresh_route` has the flag `clean`.
pub data Route : Type 0 where
  refresh_route : Bool → Route
  version_route status_route start_route stop_route restart_route : Route

-- The routes of `runHTTPServer`, all of them for GET.
abbrev pub routes : Dict Text Route
routes =
    (codes "/refresh-data", refresh_route true)
    ∷ (codes "/refresh-data/:version", refresh_route true)
    ∷ (codes "/update-data", refresh_route false)
    ∷ (codes "/update-data/:version", refresh_route false)
    ∷ (codes "/version", version_route)
    ∷ (codes "/status", status_route)
    ∷ (codes "/start", start_route)
    ∷ (codes "/stop", stop_route)
    ∷ (codes "/restart", restart_route)
    ∷ []

abbrev pub status_code : Outcome (Unit {0}) → Wrapper → ℕ
status_code (ok u) w = if is_running w.service_state then 200 else 503
status_code (fail m args) w = 503
status_code panic w = 503

module _ {V : Type 0} where
  -- `sendError`
  abbrev pub send_error : String → List Text → Answer V
  send_error m args = record {
    code = 500;
    body =
        object
          ((codes "status", number_field 500) ∷ (codes "error", error_field (some (m, args))) ∷ []);
  }

  -- `error404`
  abbrev pub error_404 : Answer V
  error_404 = record {
    code = 404;
    body =
        object (
          (codes "status", number_field 404)
          ∷ (codes "error", text_field (codes "Not found"))
          ∷ []);
  }

  abbrev pub dispatched : Text → Neo4jState → Option (String × List Text) → Answer V
  dispatched msg neo4j_state state_err = record {
    code = 200;
    body = object (
        (codes "msg", text_field msg)
        ∷ (codes "neo4j_state", state_field neo4j_state)
        ∷ (codes "state_err", error_field state_err)
        ∷ []);
  }

  -- `State`, whose error comes with the state `Failed`.
  abbrev pub with_state : Outcome (Unit {0}) → Text → Wrapper → Option (Answer V)
  with_state (ok u) msg w = some (dispatched msg w.service_state none)
  with_state (fail m args) msg w = some (dispatched msg failed (some (m, args)))
  with_state panic msg w = none

  -- The two branches of the handlers that dispatch; a panic is answered by `gin.Recovery`.
  abbrev pub answered :
      Text → Outcome (Unit {0}) → Outcome (Unit {0}) × Wrapper → Option (Answer V) × Wrapper
  answered msg acquired (ok u, w) = (with_state acquired msg w, w)
  answered msg acquired (fail m args, w) = (some (send_error m args), w)
  answered msg acquired (panic, w) = (none, w)

  -- `startServiceHandler`, where `TryAcquire` succeeds.
  unfoldable pub start_service_handler :
      Outcome (Unit {0}) → Outcome ℕ → Wrapper → Option (Answer V) × Wrapper
  unfolding start
  start_service_handler acquired start_cmd w =
      answered (codes "Service successfully dispatched for starting") acquired (start start_cmd w)

  -- `stopServiceHandler`
  unfoldable pub stop_service_handler :
      Outcome (Unit {0}) → (ℕ → Outcome (Unit {0})) → Wrapper → Option (Answer V) × Wrapper
  unfolding stop
  stop_service_handler acquired sent w =
      answered (codes "Interrupt signal sent") acquired (stop_acquired acquired sent w)

  -- `restartServiceHandler`, up to the goroutine of `Restart`.
  unfoldable pub restart_service_handler :
      Outcome (Unit {0}) → (ℕ → Outcome (Unit {0})) → Wrapper → Option (Answer V) × Wrapper
  unfolding stop
  restart_service_handler acquired sent w =
      answered (codes "Service successfully dispatched for restart") acquired
        (stop_acquired acquired sent w)

  abbrev pub status_answer : ℕ → Option (Dict Text StateValue) → Option (Answer V)
  status_answer code none = none
  status_answer code (some states) =
      some (record { code = code; body = object ((codes "state", states_field states) ∷ []) })

  -- `wrapperStatusHandler`; `none` when it waits for `utilsMux` for ever.
  unfoldable pub wrapper_status_handler : Outcome (Unit {0}) → Utils → Wrapper → Option (Answer V)
  unfolding all_states
  wrapper_status_handler acquired u w =
      status_answer (status_code acquired w) (all_states acquired u w)

-- A request for data: the parameter `version` and the query.
pub record Request : Type 0 where
  pub param : Text
  pub query : Dict Text Text

-- The fields of `httpServer` that a request reads.
pub record Server (V : Type 0) : Type 0 where
  pub default_target_version : Option (TargetVersion V)
  pub default_batch : Text

abbrev pub is_true : Option Text → Bool
is_true none = false
is_true (some v) = v == codes "true"

abbrev pub or_default : Text → Option Text → Text
or_default default none = default
or_default default (some v) = v

module _ {V : Type 0} (sv : Semver V) where
  -- `parseTargetParams`
  unfoldable pub parse_target_params : Server V → Request → Outcome (Option (TargetVersion V))
  unfolding parse_target_version
  parse_target_params s r =
      if r.param == []
      then ok s.default_target_version
      else (parse_target_version sv r.param >>= λ t. ok (some t))

  -- The answer of `parseTargetParams` to a version that does not parse.
  abbrev pub bad_request : String → List Text → Answer V
  bad_request m args = record {
    code = 400;
    body = object ((codes "error", error_field (some ("version: %s", codes m ∷ args))) ∷ []);
  }

  abbrev pub refreshed : Outcome (Unit {0}) → Option (Answer V)
  refreshed (ok u) = some (record {
    code = 200;
    body = object ((codes "msg", text_field (codes "Data successfully refreshed")) ∷ []);
  })
  refreshed (fail m args) = some (send_error m args)
  refreshed panic = none

  -- `versionHandler`
  unfoldable pub version_handler : Session sv → Config → Outcome (Answer V)
  unfolding version new_planner
  version_handler session cfg = elim (without_error (new_planner sv (some cfg))) [
    | none ↦ panic
    | some p ↦ elim (version sv session p.config) [
      | ok dgv ↦ ok (record { code = 200; body = model dgv })
      | fail m args ↦ ok (send_error m args)
      | panic ↦ panic
    ]
  ]

module _ {V : Type 0} (sv : Semver V) ⦃files : SortSlice MigrationFile⦄
    ⦃folders : SortSlice (LocalVersionFolder V)⦄ (host : Host sv) (cfg : Config) where
  abbrev pub with_answer :
      Option (Outcome (Unit {0}) × Utils × Wrapper) → Option (Option (Answer V) × Utils × Wrapper)
  with_answer none = none
  with_answer (some (r, utils, w)) = some (refreshed sv r, utils, w)

  abbrev pub refresh_to :
      Outcome (Option (TargetVersion V))
      → Bool
      → Bool
      → Text
      → Utils
      → Wrapper
      → Option (Option (Answer V) × Utils × Wrapper)
  refresh_to (ok target) dry_run clean batch utils w =
      with_answer (refresh_data sv host cfg target dry_run clean batch utils w)
  refresh_to (fail m args) dry_run clean batch utils w =
      some (some (bad_request sv m args), utils, w)
  refresh_to panic dry_run clean batch utils w = some (none, utils, w)

  -- `refreshDataHandler`; `none` when it waits for `utilsMux` for ever.
  unfoldable pub refresh_data_handler :
      Server V → Bool → Request → Utils → Wrapper → Option (Option (Answer V) × Utils × Wrapper)
  unfolding parse_target_params lookup refresh_data
  refresh_data_handler s clean r utils w =
      refresh_to (parse_target_params sv s r) (is_true (lookup (codes "dryRun") r.query)) clean
        (or_default s.default_batch (lookup (codes "batch") r.query)) utils w
