-- ===== src/Supervisor/Threads/Races.antt =====
-- Where the order of two goroutines decides what becomes of the service.
use neo4j_graph_tool_core.Base.{ℕ, List, ◌∷◌, Bool, true, false, ◌≡◌, Option, some}
use neo4j_graph_tool_core.Supervisor.Wrapper.{running}
use neo4j_graph_tool_core.Supervisor.Threads.Schedules.{shared_in}
use neo4j_graph_tool_core.Supervisor.Threads.{
  System, Step, moves, restart_call, Shared, Thread, exits,
}

-- A step of a goroutine or the end of a process: no call from outside and no `cancelCtx`.
abbrev pub is_inner : {s t : System} → Step s t → Bool
is_inner (moves before after e m) = true
is_inner (exits p) = true
is_inner _ = false

-- `Runs s t`: the goroutines of `s` and the ends of processes lead to `t`, and nothing else does.
pub data Runs (s : System) : System → Type 0 where
  rests : Runs s s
  goes_on : {t u : System} → Runs s t → (step : Step t u) → is_inner step ≡ true → Runs s u

-- A running service on which `Restart` is called.
abbrev pub restarted : Shared → ℕ → Option Bool → List Thread → System
restarted sh p c rest = record {
  shared = shared_in sh running (some p) c;
  threads = restart_call ∷ rest;
}
