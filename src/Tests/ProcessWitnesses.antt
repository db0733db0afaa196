-- ===== src/Tests/ProcessWitnesses.antt =====
-- The theorems on the process and its goroutines, at concrete schedules.
use neo4j_graph_tool_core.Base.{
  ℕ, some, [], ◌∷◌, ◌++◌, true, false, ◌≡◌, ◌≢◌, ◌≤◌, refl, arith, panic,
}
use neo4j_graph_tool_core.Supervisor.Wrapper.{starting, start, end_waiting}
use neo4j_graph_tool_core.Supervisor.Waiting.{
  signal, tick, waiting, over, check_bolt, check_bolt-ends, check_bolt-decides, IsOver,
  failed_ticks,
}
use neo4j_graph_tool_core.Supervisor.Threads.{
  Shared, System, start_call, wait_checking, Move, WaitMove, Leads, stays, start_state,
}
use neo4j_graph_tool_core.Supervisor.Threads.Matched.{IsMatched}
use neo4j_graph_tool_core.Supervisor.Threads.Safety.{reached-IsMatched, end_waiting-safe}
use neo4j_graph_tool_core.Supervisor.Threads.Schedules.{front, call}

check_bolt-ends_example : IsOver (check_bolt (waiting 0) (failed_ticks 152))
check_bolt-ends_example = check_bolt-ends (failed_ticks 152) (omega arith)

check_bolt-decides_example :
    (check_bolt (waiting 0) (failed_ticks 2 ++ signal ∷ []) ≡ over false true)
    × (2 ≤ 150 → check_bolt (waiting 0) (failed_ticks 2 ++ tick true ∷ []) ≡ over true false)
    × (◌≡◌ {A = ℕ} 2 151
        → check_bolt (waiting 0) (failed_ticks 2 ++ tick false ∷ []) ≡ over false false)
check_bolt-decides_example = check_bolt-decides 2 false [] (omega arith)

-- The service after `Start`, with the check for the connection over.
abbrev checked_shared : Shared
checked_shared = record {
  wrapper = record { service_state = starting; service_cmd = some 0; cancel_waiting = some false };
  spin_up = true;
  context_done = false;
  next_process = 1;
  exited = [];
}

abbrev checked : System
checked = record { shared = checked_shared; threads = wait_checking (over true false) ∷ [] }

checked_reached : Leads start_state checked
unfolding start
checked_reached =
    front
      (front
        (front
          (front
            (front (front (call start_call refl stays) Move.start_runs)
              (Move.in_wait (WaitMove.wait_locks refl)))
            (Move.in_wait WaitMove.wait_reads))
          (Move.in_wait WaitMove.wait_opens))
        (Move.in_wait (WaitMove.check_ticks false)))
      (Move.in_wait (WaitMove.check_ticks true))

reached-IsMatched_example : IsMatched starting (some 0)
reached-IsMatched_example = reached-IsMatched checked_reached

end_waiting-safe_example : (end_waiting true false checked_shared.wrapper).0 ≢ panic
end_waiting-safe_example = end_waiting-safe true false [] [] checked_reached refl

abbrev shared : Shared
shared = start_state.shared
