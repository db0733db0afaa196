-- ===== src/Supervisor/Threads/Schedules.antt =====
-- Where some orders of the goroutines lead.
use neo4j_graph_tool_core.Base.{
  ℕ, List, [], ◌∷◌, ◌++◌, Bool, true, false, ◌≡◌, refl, sym, Option, none, some, Outcome, ok,
}
use mathlib.Core.Bool.{false≢true}
use mathlib.Core.List.{Mem, mem-cons}
use mathlib.Core.Logic.{inl}
use neo4j_graph_tool_core.Supervisor.Wrapper.{
  Neo4jState, stopped, failed, starting, updating, stopping, running, is_stopping, interrupt, stop,
}
use neo4j_graph_tool_core.Supervisor.Threads.{
  Shared, System, Thread, stop_call, clean_call, is_call, Move, moves, arrives, exits, Leads, later,
}

module _ {s : System} where
  pub front :
      {sh sh' : Shared} {t : Thread} {ts rest : List Thread}
      → Leads s (record { shared = sh; threads = t ∷ rest })
      → Move sh t sh' ts
      → Leads s (record { shared = sh'; threads = ts ++ rest })
  front {rest = rest} l m = later l (moves [] rest refl m)

  pub second :
      {sh sh' : Shared} {u t : Thread} {ts rest : List Thread}
      → Leads s (record { shared = sh; threads = u ∷ t ∷ rest })
      → Move sh t sh' ts
      → Leads s (record { shared = sh'; threads = u ∷ (ts ++ rest) })
  second {u = u} {rest = rest} l m = later l (moves (u ∷ []) rest refl m)

  pub call :
      {sh : Shared} {rest : List Thread} (t : Thread)
      → is_call t ≡ true
      → Leads s (record { shared = sh; threads = rest })
      → Leads s (record { shared = sh; threads = t ∷ rest })
  call t e l = later l (arrives t e)

-- A wrapper among what the goroutines share.
abbrev pub shared_in : Shared → Neo4jState → Option ℕ → Option Bool → Shared
shared_in sh service_state service_cmd cancel_waiting = record sh {
  wrapper = record {
    service_state = service_state;
    service_cmd = service_cmd;
    cancel_waiting = cancel_waiting;
  };
}

abbrev pub delivered : ℕ → Outcome (Unit {0})
delivered process = ok tt

pub stops :
    (sh : Shared) (service_state : Neo4jState) (p : ℕ) (c : Option Bool)
    → is_stopping service_state ≡ false
    → Move
        (shared_in sh service_state (some p) c)
        stop_call
        (shared_in sh stopping (some p) (interrupt c))
        (clean_call ∷ [])
unfolding stop
stops sh stopped p c e = Move.stop_runs delivered
stops sh failed p c e = Move.stop_runs delivered
stops sh starting p c e = Move.stop_runs delivered
stops sh updating p c e = Move.stop_runs delivered
stops sh running p c e = Move.stop_runs delivered
stops sh stopping p c e = absurd (false≢true (sym e))

pub exited_in : (p : ℕ) (ps : List ℕ) → Mem p (p ∷ ps)
exited_in p ps = mem-cons.1 ∣ inl refl ∣₁

-- The process has exited.
abbrev pub with_exit : ℕ → Shared → Shared
with_exit p sh = record sh { exited = p ∷ sh.exited }

-- The clean-up, as the only goroutine that moves.
pub cleans :
    {s : System} (sh : Shared) (service_state : Neo4jState) (p : ℕ) (c : Option Bool)
    (rest : List Thread)
    → Leads s
        (record { shared = shared_in sh service_state (some p) c; threads = clean_call ∷ rest })
    → Leads s (record { shared = with_exit p (shared_in sh stopped none c); threads = rest })
cleans sh service_state p c rest l =
    front
      (front (later (front l (Move.clean_reads refl)) (exits p))
        (Move.clean_sees (exited_in p sh.exited)))
      Move.clean_runs
