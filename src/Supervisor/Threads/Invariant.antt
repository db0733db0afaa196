-- ===== src/Supervisor/Threads/Invariant.antt =====
-- What holds in every reachable state of the goroutines.
use mathlib.Core.Bool.{false≢true}
use neo4j_graph_tool_core.Base.{
  ◌+◌, ◌≤◌, List, [], ◌∷◌, ◌++◌, true, ◌≡◌, refl, sym, subst, ◌∙◌, arith,
}
use neo4j_graph_tool_core.Supervisor.Threads.{
  System, Shared, Thread, start_call, stop_call, restart_call, wait_call, update_call, holds, Move,
  Step, Leads, start_state, is_call, moves, arrives, exits, cancels, stays, later,
}
use neo4j_graph_tool_core.Supervisor.Threads.Tally.{
  checks, checks-le-holds, tally, tally-middle, tally-checks-le-holds, locks, slots,
}
use neo4j_graph_tool_core.Supervisor.Threads.Matched
use neo4j_graph_tool_core.Supervisor.Threads.Moves.{
  Move-IsMatched, Move-locked, Move-opened, locks-le-one,
}

pub record Inv (s : System) : Type 0 where
  pub matched : Matched.IsMatchedIn s.shared.wrapper
  pub locked : tally holds s.threads ≡ locks s.shared.spin_up
  pub opened : tally checks s.threads ≤ slots s.shared.wrapper.cancel_waiting

Inv-start : Inv start_state
unfolding tally
Inv-start = record { matched = refl; locked = refl; opened = omega arith }

call-holds : (t : Thread) → is_call t ≡ true → holds t ≡ 0
call-holds start_call e = refl
call-holds stop_call e = refl
call-holds restart_call e = refl
call-holds wait_call e = refl
call-holds update_call e = refl
call-holds _ e = absurd (false≢true e)

-- The sums of a goroutine's move, in the list where it stands.
moves-Inv :
    {s s' : Shared} {t : Thread} {ts : List Thread} (before after : List Thread)
    → Inv (record { shared = s; threads = before ++ (t ∷ after) })
    → Move s t s' ts
    → Inv (record { shared = s'; threads = before ++ (ts ++ after) })
unfolding tally
moves-Inv {s} {s'} {t} {ts} before after inv m =
    let held : tally holds before + tally holds after + (holds t + 0) ≡ locks s.spin_up =
      sym (tally-middle holds before (t ∷ []) after) ∙ inv.locked in
    let checked : tally checks before + tally checks after + (checks t + 0)
        ≤ slots s.wrapper.cancel_waiting =
      subst (λ n. n ≤ slots s.wrapper.cancel_waiting) (tally-middle checks before (t ∷ []) after)
        inv.opened in
    record {
      matched = Move-IsMatched m inv.matched;
      locked =
          omega
            (arith, tally-middle holds before ts after, Move-locked m (omega (arith, held)), held);
      opened = omega (
        arith,
        tally-middle checks before ts after,
        Move-opened m (tally checks before + tally checks after)
            (omega (
              arith,
              held,
              locks-le-one s.spin_up,
              tally-checks-le-holds before,
              tally-checks-le-holds after,
            ))
            (omega (arith, checked)),
      );
    }

Step-Inv : {s s' : System} → Step s s' → Inv s → Inv s'
unfolding tally
Step-Inv {s} (moves before {t} after e m) inv =
    moves-Inv before after
      (record {
        matched = inv.matched;
        locked = subst (λ l. tally holds l ≡ locks s.shared.spin_up) e inv.locked;
        opened = subst (λ l. tally checks l ≤ slots s.shared.wrapper.cancel_waiting) e inv.opened;
      })
      m
Step-Inv (arrives t call) inv = record {
  matched = inv.matched;
  locked = omega (arith, inv.locked, call-holds t call);
  opened = omega (arith, inv.opened, call-holds t call, checks-le-holds t);
}
Step-Inv (exits p) inv = record { matched = inv.matched; locked = inv.locked; opened = inv.opened }
Step-Inv cancels inv = record { matched = inv.matched; locked = inv.locked; opened = inv.opened }

pub Leads-Inv : {s s' : System} → Leads s s' → Inv s → Inv s'
Leads-Inv stays inv = inv
Leads-Inv (later l st) inv = Step-Inv st (Leads-Inv l inv)

pub reached-Inv : {s : System} → Leads start_state s → Inv s
reached-Inv l = Leads-Inv l Inv-start
