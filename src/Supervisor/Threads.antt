-- ===== src/Supervisor/Threads.antt =====
-- The goroutines that share one `Neo4jWrapper` (supervisor/neo4j.go), interleaved in any order.
-- What runs under `serviceSem` is one step, and so is what follows it up to the next wait.
pub mod Tally
pub mod Matched
pub mod Moves
pub mod Invariant
pub mod Safety
pub mod Schedules
pub mod Races
use neo4j_graph_tool_core.Base.{
  ℕ, ◌+◌, Text, Option, none, some, List, [], ◌∷◌, ◌++◌, Bool, true, false, ◌≡◌, Outcome, ok, fail,
  panic, if◌then◌else◌,
}
use Prim.Native.String.{String}
use mathlib.Core.List.{Mem}
use neo4j_graph_tool_core.Supervisor.Waiting.{
  Checking, waiting, over, CheckEvent, signal, tick, check_once,
}
use neo4j_graph_tool_core.Supervisor.Wrapper.{
  Wrapper, new_wrapper, is_starting, is_stopping, start, stop, clean_up, open_waiting, end_waiting,
  set_updating, end_update,
}

-- `exited` lists the processes that have ended; `spin_up` says that `spinUpMux` is locked, and
-- `context_done` that `cancelCtx` was called.
pub record Shared : Type 0 where
  pub wrapper : Wrapper
  pub spin_up : Bool
  pub context_done : Bool
  pub next_process : ℕ
  pub exited : List ℕ

-- What a goroutine does next.
pub data Thread : Type 0 where
  start_call : Thread  -- `Start`
  stop_call : Thread  -- `Stop`
  restart_call : Thread  -- `Restart`
  exit_wait : Thread  -- `Wait` in `Restart`
  exit_waiting : Option ℕ → Thread
  clean_call : Thread  -- the goroutine of `Stop`, before it reads `serviceCmd`
  clean_waiting : ℕ → Thread
  clean_done : Thread
  wait_call : Thread  -- `WaitForNeo4j`
  wait_locked : Thread  -- with `spinUpMux`
  wait_open : Thread
  wait_checking : Checking → Thread
  wait_unchecked : Thread
  update_call : Thread  -- `update`
  update_work : Thread
  update_end : Outcome (Unit {0}) → Thread

-- A goroutine that has `spinUpMux`.
abbrev pub holds : Thread → ℕ
holds wait_locked = 1
holds wait_open = 1
holds (wait_checking c) = 1
holds wait_unchecked = 1
holds _ = 0

-- A call from outside: a request, or `supervisor.Start` and `bootstrapDB`.
abbrev pub is_call : Thread → Bool
is_call start_call = true
is_call stop_call = true
is_call restart_call = true
is_call wait_call = true
is_call update_call = true
is_call _ = false

-- A goroutine that asks `serviceSem.Acquire` next, which may give an error once the context is done.
abbrev pub acquires : Thread → Bool
acquires stop_call = true
acquires restart_call = true
acquires exit_wait = true
acquires clean_done = true
acquires wait_locked = true
acquires wait_open = true
acquires (wait_checking (over connected cancelled)) = true
acquires update_call = true
acquires (update_end r) = true
acquires _ = false

-- What is left of a goroutine whose `Acquire` failed.
abbrev pub refused : Thread → List Thread
refused restart_call = exit_wait ∷ []
refused _ = []

abbrev pub unlocked : Thread → Shared → Shared
unlocked wait_locked s = record s { spin_up = false }
unlocked wait_open s = record s { spin_up = false }
unlocked (wait_checking c) s = record s { spin_up = false }
unlocked wait_unchecked s = record s { spin_up = false }
unlocked _ s = s

abbrev pub with_wrapper : Shared → Wrapper → Shared
with_wrapper s w = record s { wrapper = w }

-- `Stop` starts the goroutine that cleans up, unless the service is stopping already.
abbrev pub left_behind : Wrapper → Outcome (Unit {0}) → List Thread
left_behind w (ok u) = if is_stopping w.service_state then [] else clean_call ∷ []
left_behind w (fail m args) = []
left_behind w panic = []

-- `Start` starts the goroutine that waits.
abbrev pub waiter : Outcome (Unit {0}) → List Thread
waiter (ok u) = wait_call ∷ []
waiter (fail m args) = []
waiter panic = []

-- One step of `WaitForNeo4j`.
pub data WaitMove (s : Shared) : Thread → Shared → List Thread → Type 0 where
  wait_locks :
      s.spin_up ≡ false → WaitMove s wait_call (record s { spin_up = true }) (wait_locked ∷ [])
  wait_reads :
      WaitMove s wait_locked s
        ((if is_starting s.wrapper.service_state then wait_open else wait_unchecked) ∷ [])
  wait_returns : WaitMove s wait_unchecked (record s { spin_up = false }) []
  wait_opens :
      WaitMove s wait_open
        (with_wrapper s (open_waiting s.wrapper).1)
        (wait_checking (waiting 0) ∷ [])
  check_ticks :
      {i : ℕ} (reachable : Bool)
      → WaitMove s
          (wait_checking (waiting i))
          s
          (wait_checking (check_once i (tick reachable)) ∷ [])
  check_signalled :
      {i : ℕ}
      → s.wrapper.cancel_waiting ≡ some true
      → WaitMove s
          (wait_checking (waiting i))
          (with_wrapper s (record s.wrapper { cancel_waiting = some false }))
          (wait_checking (check_once i signal) ∷ [])
  wait_ends :
      {connected cancelled : Bool}
      → WaitMove s
          (wait_checking (over connected cancelled))
          (record s { wrapper = (end_waiting connected cancelled s.wrapper).1; spin_up = false })
          []

-- One step of `update`, which gets the semaphore where it asks for it.
pub data UpdateMove (s : Shared) : Thread → Shared → List Thread → Type 0 where
  update_begins :
      (set_updating (ok tt) s.wrapper).0 ≡ ok tt
      → UpdateMove s update_call
          (with_wrapper s (set_updating (ok tt) s.wrapper).1)
          (update_work ∷ [])
  update_refused :
      {m : String} {args : List Text}
      → (set_updating (ok tt) s.wrapper).0 ≡ fail m args
      → UpdateMove s update_call (with_wrapper s (set_updating (ok tt) s.wrapper).1) []
  update_works : (r : Outcome (Unit {0})) → UpdateMove s update_work s (update_end r ∷ [])
  update_ends :
      {r : Outcome (Unit {0})}
      → UpdateMove s (update_end r) (with_wrapper s (end_update (ok tt) r s.wrapper).1) []

-- One step of a goroutine, and what it leaves: itself, further on, and what it has started.
-- `clean_call` has no step while `serviceCmd` is nil, since `WaitTS` dereferences it.
pub data Move (s : Shared) : Thread → Shared → List Thread → Type 0 where
  acquire_fails :
      (t : Thread) → s.context_done ≡ true → acquires t ≡ true → Move s t (unlocked t s) (refused t)
  start_busy : Move s start_call s []  -- `TryAcquire` fails while another holds the semaphore
  start_runs :
      Move s start_call
        (record s {
          wrapper = (start (ok s.next_process) s.wrapper).1;
          next_process = s.next_process + 1;
        })
        (waiter (start (ok s.next_process) s.wrapper).0)
  start_fails :
      (m : String) (args : List Text)
      → Move s start_call (with_wrapper s (start (fail m args) s.wrapper).1) []
  stop_runs :
      (sent : ℕ → Outcome (Unit {0}))
      → Move s stop_call
          (with_wrapper s (stop sent s.wrapper).1)
          (left_behind s.wrapper (stop sent s.wrapper).0)
  restart_runs :
      (sent : ℕ → Outcome (Unit {0}))
      → Move s restart_call
          (with_wrapper s (stop sent s.wrapper).1)
          (exit_wait ∷ left_behind s.wrapper (stop sent s.wrapper).0)
  exit_copies : Move s exit_wait s (exit_waiting s.wrapper.service_cmd ∷ [])
  exit_absent : Move s (exit_waiting none) s (start_call ∷ [])
  exit_sees : {p : ℕ} → Mem p s.exited → Move s (exit_waiting (some p)) s (start_call ∷ [])
  clean_reads :
      {p : ℕ} → s.wrapper.service_cmd ≡ some p → Move s clean_call s (clean_waiting p ∷ [])
  clean_sees : {p : ℕ} → Mem p s.exited → Move s (clean_waiting p) s (clean_done ∷ [])
  clean_runs : Move s clean_done (with_wrapper s (clean_up s.wrapper).1) []
  in_wait : {t : Thread} {sh : Shared} {ts : List Thread} → WaitMove s t sh ts → Move s t sh ts
  in_update : {t : Thread} {sh : Shared} {ts : List Thread} → UpdateMove s t sh ts → Move s t sh ts

pub record System : Type 0 where
  pub shared : Shared
  pub threads : List Thread

-- A step of the system: of a goroutine, a new call, the end of a process, or `cancelCtx`.
pub data Step (s : System) : System → Type 0 where
  moves :
      (before : List Thread) {t : Thread} (after : List Thread) {sh : Shared} {ts : List Thread}
      → s.threads ≡ before ++ (t ∷ after)
      → Move s.shared t sh ts
      → Step s (record { shared = sh; threads = before ++ (ts ++ after) })
  arrives : (t : Thread) → is_call t ≡ true → Step s (record s { threads = t ∷ s.threads })
  exits : (p : ℕ) → Step s (record s { shared = record s.shared { exited = p ∷ s.shared.exited } })
  cancels : Step s (record s { shared = record s.shared { context_done = true } })

abbrev pub start_state : System
start_state = record {
  shared = record {
    wrapper = new_wrapper;
    spin_up = false;
    context_done = false;
    next_process = 0;
    exited = [];
  };
  threads = [];
}

-- `Leads s t`: steps from `s` to `t`.
pub data Leads (s : System) : System → Type 0 where
  stays : Leads s s
  later : {t u : System} → Leads s t → Step t u → Leads s u
