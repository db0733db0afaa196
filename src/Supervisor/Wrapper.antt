-- ===== src/Supervisor/Wrapper.antt =====
-- `Neo4jWrapper` of supervisor/neo4j.go: its state, and the sections of its methods that run under
-- `serviceSem`, one function for each.
use neo4j_graph_tool_core.Base.{
  ℕ, Text, codes, Option, none, some, [], ◌∷◌, Bool, true, false, ◌||◌, Outcome, ok, fail, panic,
  if◌then◌else◌,
}
use neo4j_graph_tool_core.Base.Monad.{Exec, modify, ◌>>=◌, ◌>>◌}

pub data Neo4jState : Type 0 where
  stopped failed starting updating stopping running : Neo4jState

abbrev pub state_name : Neo4jState → Text
state_name stopped = codes "Stopped"
state_name failed = codes "Failed"
state_name starting = codes "Starting"
state_name updating = codes "Updating Data"
state_name stopping = codes "Stopping"
state_name running = codes "Running"

abbrev pub is_running : Neo4jState → Bool
is_running running = true
is_running _ = false

abbrev pub is_starting : Neo4jState → Bool
is_starting starting = true
is_starting _ = false

abbrev pub is_stopping : Neo4jState → Bool
is_stopping stopping = true
is_stopping _ = false

-- `service_cmd` is the process of `serviceCmd`, a number of its own for each process;
-- `cancel_waiting` is `cancelWaitingChan`, and tells of an open channel whether its one place is
-- taken.
pub record Wrapper : Type 0 where
  pub service_state : Neo4jState
  pub service_cmd : Option ℕ
  pub cancel_waiting : Option Bool

-- `NewNeo4jWrapper`
abbrev pub new_wrapper : Wrapper
new_wrapper = record { service_state = stopped; service_cmd = none; cancel_waiting = none }

-- `State`
abbrev pub state : Exec Wrapper Neo4jState
state w = (ok w.service_state, w)

-- `setState`, whose `Acquire` gives `acquired`.
abbrev pub set_state : Outcome (Unit {0}) → Neo4jState → Exec Wrapper (Unit {0})
set_state (ok u) s w = (ok tt, record w { service_state = s })
set_state (fail m args) s w = (fail m args, w)
set_state panic s w = (panic, w)

-- `w.serviceCmd, err = StartCmd(…)`, which gives the process or its error.
abbrev pub started : Outcome ℕ → Exec Wrapper (Unit {0})
started (ok process) w = (ok tt, record w { service_state = starting; service_cmd = some process })
started (fail m args) w = (
  fail "cannot start neo4j - %v" (codes m ∷ args),
  record w { service_state = failed; service_cmd = none },
)
started panic w = (panic, record w { service_state = starting })

abbrev pub start_unless : Option ℕ → Outcome ℕ → Exec Wrapper (Unit {0})
start_unless (some process) start_cmd w = (
  fail "service is in '%s' state already, cannot be started again"
      (state_name w.service_state ∷ []),
  w,
)
start_unless none start_cmd w = started start_cmd w

-- `Start`, once it has the semaphore.
unfoldable pub start : Outcome ℕ → Exec Wrapper (Unit {0})
start start_cmd w = start_unless w.service_cmd start_cmd w

-- The `select` of `Stop`: a signal for whoever waits, if there is room for it.
abbrev pub interrupt : Option Bool → Option Bool
interrupt none = none
interrupt (some full) = some true

-- `w.serviceCmd.Process.Signal(os.Interrupt)` and what follows it.
abbrev pub signalled : Outcome (Unit {0}) → Exec Wrapper (Unit {0})
signalled (ok u) w = (ok tt, record w { service_state = stopping })
signalled (fail m args) w = (fail m args, w)
signalled panic w = (panic, w)

abbrev pub stop_process : Option ℕ → (ℕ → Outcome (Unit {0})) → Exec Wrapper (Unit {0})
stop_process none signal w =
    (fail "service cannot be stopped, it is '%s'" (state_name w.service_state ∷ []), w)
stop_process (some process) signal w =
    signalled (signal process) (record w { cancel_waiting = interrupt w.cancel_waiting })

-- `Stop`, once it has the semaphore.
unfoldable pub stop : (ℕ → Outcome (Unit {0})) → Exec Wrapper (Unit {0})
stop signal w =
    if is_stopping w.service_state then (ok tt, w) else stop_process w.service_cmd signal w

-- The cleanup that `Stop` leaves behind, once the process has exited.
abbrev pub clean_up : Exec Wrapper (Unit {0})
clean_up = modify λ w. record w { service_cmd = none; service_state = stopped }

-- The copy that `Wait` makes.
abbrev pub current_cmd : Exec Wrapper (Option ℕ)
current_cmd w = (ok w.service_cmd, w)

-- `WaitForNeo4j`: `cancelWaitingChan = make(chan os.Signal, 1)`.
abbrev pub open_waiting : Exec Wrapper (Unit {0})
open_waiting = modify λ w. record w { cancel_waiting = some false }

-- The state after the checks.
abbrev pub checked_state : Bool → Bool → Neo4jState → Neo4jState
checked_state true cancelled s = running
checked_state false false s = failed
checked_state false true s = s

-- The end of `WaitForNeo4j`: it succeeds on a running service or after a signal.
abbrev pub waited : Bool → Exec Wrapper (Unit {0})
waited cancelled w =
    if is_running w.service_state || cancelled
    then (ok tt, w)
    else (fail "cannot wait for Neo4j, service is '%s'" (state_name w.service_state ∷ []), w)

-- `close(cancelWaitingChan)` panics on nil.
abbrev pub close_waiting : Option Bool → Exec Wrapper (Unit {0})
close_waiting none w = (panic, w)
close_waiting (some full) w = (ok tt, record w { cancel_waiting = none })

-- The section behind the loop of `WaitForNeo4j`.
unfoldable pub end_waiting : Bool → Bool → Exec Wrapper (Unit {0})
end_waiting connected cancelled = do
  w ← λ w. (ok w, w)
  close_waiting w.cancel_waiting
  modify λ w. record w { service_state = checked_state connected cancelled w.service_state }
  waited cancelled

-- `setUpdatingStateWhenRunning`, whose `Acquire` gives `acquired`.
unfoldable pub set_updating : Outcome (Unit {0}) → Exec Wrapper (Unit {0})
set_updating (ok u) w =
    if is_running w.service_state then (ok tt, record w { service_state = updating }) else (
      fail "cannot run import when service is '%s', must be running"
          (state_name w.service_state ∷ []),
      w,
    )
set_updating (fail m args) w = (fail m args, w)
set_updating panic w = (panic, w)

-- The deferred function of `update` behind a result of `update`: `acquired` is what `Acquire` gives
-- in `setState`, and a panic leaves the error nil. An error of `setState` is the result of `update`
-- when there is no other.
unfoldable pub end_update : Outcome (Unit {0}) → Outcome (Unit {0}) → Exec Wrapper (Unit {0})
end_update acquired (ok u) w = set_state acquired running w
end_update acquired (fail m args) w = (fail m args, (set_state acquired failed w).1)
end_update acquired panic w = (panic, (set_state acquired running w).1)
