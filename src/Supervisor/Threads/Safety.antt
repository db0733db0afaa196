-- ===== src/Supervisor/Threads/Safety.antt =====
-- What cannot happen in a reachable state of the goroutines, whatever their order.
use neo4j_graph_tool_core.Base.{
  ◌≤◌, List, [], ◌∷◌, ◌++◌, Bool, true, false, ◌≡◌, ◌≢◌, ap, Option, none, some, arith,
  if◌then◌else◌, Outcome, ok, fail, panic, ◌||◌, refl,
}
use neo4j_graph_tool_core.Supervisor.Wrapper.{
  Wrapper, end_waiting, is_running, waited, checked_state, state_name,
}
use neo4j_graph_tool_core.Supervisor.Waiting.{Checking, over}
use neo4j_graph_tool_core.Supervisor.Threads.{
  System, Thread, wait_checking, holds, Leads, start_state,
}
use neo4j_graph_tool_core.Supervisor.Threads.Tally.{checks, tally, tally-append, locks, slots}
use neo4j_graph_tool_core.Supervisor.Threads.Matched.{IsMatched}
use neo4j_graph_tool_core.Supervisor.Threads.Moves.{locks-le-one}
use neo4j_graph_tool_core.Supervisor.Threads.Invariant.{Inv, reached-Inv}

-- In every reachable state, a stopped service has no process, and one that starts or stops has one.
pub reached-IsMatched :
    {s : System}
    → Leads start_state s
    → IsMatched s.shared.wrapper.service_state s.shared.wrapper.service_cmd
reached-IsMatched l = (reached-Inv l).matched

-- A reachable state has at most one goroutine between the lock and the unlock of `spinUpMux`, and
-- the mutex is locked exactly when there is one.
pub one_holder :
    {s : System}
    → Leads start_state s
    → (tally holds s.threads ≡ locks s.shared.spin_up) × (tally holds s.threads ≤ 1)
one_holder {s} l =
    let inv : Inv s = reached-Inv l in
    (inv.locked, omega (arith, inv.locked, locks-le-one s.shared.spin_up))

slot_there : (c : Option Bool) → 1 ≤ slots c → (full : Bool) × (c ≡ some full)
slot_there none h = absurd (omega arith)
slot_there (some full) h = (full, refl)

checking_open :
    {s : System} (c : Checking) (before after : List Thread)
    → Inv s
    → s.threads ≡ before ++ (wait_checking c ∷ after)
    → (full : Bool) × (s.shared.wrapper.cancel_waiting ≡ some full)
unfolding tally
checking_open {s} c before after inv e = slot_there s.shared.wrapper.cancel_waiting (
    omega (
      arith,
      inv.opened,
      ap (tally checks) e,
      tally-append checks before (wait_checking c ∷ after),
    ))

waited-safe : (cancelled : Bool) (w : Wrapper) → (waited cancelled w).0 ≢ panic
waited-safe cancelled w = go (is_running w.service_state || cancelled)
  where
    go :
        (b : Bool)
        → (if◌then◌else◌ {A = Outcome (Unit {0}) × Wrapper} b
            (ok tt, w)
            (fail "cannot wait for Neo4j, service is '%s'" (state_name w.service_state ∷ []), w)).0
          ≢ panic
    go true = λ e. cc
    go false = λ e. cc

end_waiting-open :
    (connected cancelled full : Bool) (w : Wrapper)
    → w.cancel_waiting ≡ some full
    → (end_waiting connected cancelled w).0 ≢ panic
unfolding end_waiting
end_waiting-open connected cancelled full w e = rw e (
    waited-safe cancelled (record w {
      cancel_waiting = none;
      service_state = checked_state connected cancelled w.service_state;
    }))

-- In a reachable state, a goroutine whose checks are over finds the channel open: closing it does
-- not panic, whatever `Start`, `Stop`, `Restart`, `WaitForNeo4j` and `update` did in between.
pub end_waiting-safe :
    {s : System} (connected cancelled : Bool) (before after : List Thread)
    → Leads start_state s
    → s.threads ≡ before ++ (wait_checking (over connected cancelled) ∷ after)
    → (end_waiting connected cancelled s.shared.wrapper).0 ≢ panic
end_waiting-safe {s} connected cancelled before after l e =
    let there = checking_open (over connected cancelled) before after (reached-Inv l) e in
    end_waiting-open connected cancelled there.0 s.shared.wrapper there.1
