-- ===== src/Supervisor/Boot/Stop.antt =====
-- What the supervisor leaves when it stops.
use Prim.Native.String.{String}
use neo4j_graph_tool_core.Base.{
  ℕ, Text, some, List, ◌++◌, Bool, true, false, ◌≡◌, refl, ap, Outcome, ok, fail, panic, map,
}
use neo4j_graph_tool_core.Supervisor.Wrapper.{Wrapper}
use neo4j_graph_tool_core.Supervisor.Utility.{Utils, signal_all, stop_all, stop_after, waited_utils}
use neo4j_graph_tool_core.Supervisor.Boot.{
  Closing, stop_services, wait_services, shut_down, wait_all,
}

stop_after-same :
    (r : Outcome (Unit {0})) (m : String) (args : List Text) (sent : ℕ → Outcome (Unit {0}))
    (w : Wrapper)
    → (stop_after r (fail m args) sent w).1 ≡ w
stop_after-same (ok u) m args sent w = refl
stop_after-same (fail n ds) m args sent w = refl
stop_after-same panic m args sent w = refl

-- When `Acquire` gives an error for a cancelled context and no utility holds the mutex, stopping the
-- supervisor with any service and any result of the signals leaves the service as it was, so that
-- its process gets no signal and is not waited for: only the utilities are.
pub shut_down-skips :
    (acquire : Bool → Outcome (Unit {0})) (sent : ℕ → Outcome (Unit {0})) (u : Utils) (c : Closing)
    (m : String) (args : List Text)
    → acquire true ≡ fail m args
    → u.locked ≡ false
    → shut_down acquire sent u c
      ≡ some (record {
        context_done = true;
        wrapper = c.wrapper;
        awaited = c.awaited ++ map (λ e. e.1) u.utils_cmd;
      })
unfolding shut_down stop_services wait_services stop_all wait_all waited_utils
shut_down-skips acquire sent u c m args refused free =
    rw (free, refused)
      (ap
        (λ (after : Wrapper). some (record {
          context_done = true;
          wrapper = after;
          awaited = c.awaited ++ map (λ e. e.1) u.utils_cmd;
        }))
        (stop_after-same (signal_all sent u.utils_cmd) m args sent c.wrapper))
