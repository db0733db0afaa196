-- ===== src/Supervisor/Threads/Moves.antt =====
-- One step of a goroutine: what it does to the locks, the channel and the state.
use neo4j_graph_tool_core.Base.{
  ℕ, ◌+◌, ◌≤◌, List, [], ◌∷◌, Bool, true, false, ◌≡◌, refl, sym, ap, subst, ◌∙◌, Option, none, some,
  arith, if◌then◌else◌, Outcome, ok, fail, panic,
}
use neo4j_graph_tool_core.Supervisor.Wrapper.{
  Wrapper, start, stop, start_unless, stop_process, signalled, set_updating, end_update,
  is_starting, is_stopping, interrupt, is_running, updating, state_name,
}
use neo4j_graph_tool_core.Supervisor.Threads.{
  Shared, Thread, wait_locked, wait_checking, clean_call, wait_open, wait_unchecked, start_call,
  restart_call, holds, Move, WaitMove, UpdateMove, unlocked, refused, left_behind, waiter,
}
use neo4j_graph_tool_core.Supervisor.Threads.Tally.{
  checks, tally, tally-checks-le-holds, locks, slots,
}
use neo4j_graph_tool_core.Supervisor.Threads.Matched

unlocked-wrapper : (t : Thread) (s : Shared) → (unlocked t s).wrapper ≡ s.wrapper
unlocked-wrapper start_call s = refl
unlocked-wrapper _ s = refl

pub Move-IsMatched :
    {s s' : Shared} {t : Thread} {ts : List Thread}
    → Move s t s' ts
    → Matched.IsMatchedIn s.wrapper
    → Matched.IsMatchedIn s'.wrapper
Move-IsMatched {s} (Move.acquire_fails t done e) h =
    subst Matched.IsMatchedIn (sym (unlocked-wrapper t s)) h
Move-IsMatched {s} Move.start_runs h = Matched.start-IsMatched s.next_process s.wrapper h
Move-IsMatched {s} (Move.start_fails m args) h = Matched.start-fails m args s.wrapper h
Move-IsMatched {s} (Move.stop_runs sent) h = Matched.stop-IsMatched sent s.wrapper h
Move-IsMatched {s} (Move.restart_runs sent) h = Matched.stop-IsMatched sent s.wrapper h
Move-IsMatched Move.clean_runs h = refl
Move-IsMatched {s} (Move.in_wait (WaitMove.wait_ends {connected} {cancelled})) h =
    (Matched.end_waiting-Keeps connected cancelled).after s.wrapper h
Move-IsMatched {s} (Move.in_update (UpdateMove.update_begins e)) h =
    Matched.set_updating-Keeps.after s.wrapper h
Move-IsMatched {s} (Move.in_update (UpdateMove.update_refused e)) h =
    Matched.set_updating-Keeps.after s.wrapper h
Move-IsMatched {s} (Move.in_update (UpdateMove.update_ends {r})) h =
    (Matched.end_update-Keeps r).after s.wrapper h
Move-IsMatched _ h = h

refused-holds : (t : Thread) → tally holds (refused t) ≡ 0
unfolding tally
refused-holds restart_call = refl
refused-holds _ = refl

left_behind-holds : (w : Wrapper) (r : Outcome (Unit {0})) → tally holds (left_behind w r) ≡ 0
unfolding tally
left_behind-holds w (ok u) = go (is_stopping w.service_state)
  where
    go : (b : Bool) → tally holds (if b then [] else clean_call ∷ []) ≡ 0
    go true = refl
    go false = refl
left_behind-holds w (fail m args) = refl
left_behind-holds w panic = refl

waiter-holds : (r : Outcome (Unit {0})) → tally holds (waiter r) ≡ 0
unfolding tally
waiter-holds (ok u) = refl
waiter-holds (fail m args) = refl
waiter-holds panic = refl

pub locks-le-one : (b : Bool) → locks b ≤ 1
locks-le-one true = omega arith
locks-le-one false = omega arith

unlocked-locks :
    (t : Thread) (s : Shared)
    → holds t ≤ locks s.spin_up
    → locks (unlocked t s).spin_up + holds t ≡ locks s.spin_up
unlocked-locks wait_locked s h = omega (arith, locks-le-one s.spin_up)
unlocked-locks wait_open s h = omega (arith, locks-le-one s.spin_up)
unlocked-locks (wait_checking c) s h = omega (arith, locks-le-one s.spin_up)
unlocked-locks wait_unchecked s h = omega (arith, locks-le-one s.spin_up)
unlocked-locks _ s h = omega arith

reads-holds : (b : Bool) → tally holds ((if b then wait_open else wait_unchecked) ∷ []) ≡ 1
unfolding tally
reads-holds true = refl
reads-holds false = refl

reads-checks : (b : Bool) → tally checks ((if b then wait_open else wait_unchecked) ∷ []) ≡ 0
unfolding tally
reads-checks true = refl
reads-checks false = refl

pub Move-locked :
    {s s' : Shared} {t : Thread} {ts : List Thread}
    → Move s t s' ts
    → holds t ≤ locks s.spin_up
    → locks s'.spin_up + holds t ≡ locks s.spin_up + tally holds ts
unfolding tally
Move-locked {s} (Move.acquire_fails t done e) h =
    omega (arith, unlocked-locks t s h, refused-holds t)
Move-locked {s} Move.start_runs h =
    omega (arith, waiter-holds (start (ok s.next_process) s.wrapper).0)
Move-locked {s} (Move.stop_runs sent) h =
    omega (arith, left_behind-holds s.wrapper (stop sent s.wrapper).0)
Move-locked {s} (Move.restart_runs sent) h =
    omega (arith, left_behind-holds s.wrapper (stop sent s.wrapper).0)
Move-locked {s} (Move.in_wait (WaitMove.wait_locks e)) h = omega (arith, ap locks e)
Move-locked {s} (Move.in_wait WaitMove.wait_reads) h =
    omega (arith, reads-holds (is_starting s.wrapper.service_state))
Move-locked {s} (Move.in_wait WaitMove.wait_returns) h = omega (arith, locks-le-one s.spin_up)
Move-locked {s} (Move.in_wait WaitMove.wait_ends) h = omega (arith, locks-le-one s.spin_up)
Move-locked (Move.in_wait _) h = omega arith
Move-locked (Move.in_update (UpdateMove.update_begins _)) h = omega arith
Move-locked (Move.in_update _) h = omega arith
Move-locked _ h = omega arith

start-slots :
    (c : Option ℕ) (r : Outcome ℕ) (w : Wrapper)
    → (start_unless c r w).1.cancel_waiting ≡ w.cancel_waiting
start-slots (some p) r w = refl
start-slots none (ok p) w = refl
start-slots none (fail m args) w = refl
start-slots none panic w = refl

signalled-slots :
    (r : Outcome (Unit {0})) (w : Wrapper) → (signalled r w).1.cancel_waiting ≡ w.cancel_waiting
signalled-slots (ok u) w = refl
signalled-slots (fail m args) w = refl
signalled-slots panic w = refl

interrupt-slots : (c : Option Bool) → slots (interrupt c) ≡ slots c
interrupt-slots none = refl
interrupt-slots (some full) = refl

stop_process-slots :
    (c : Option ℕ) (sent : ℕ → Outcome (Unit {0})) (w : Wrapper)
    → slots (stop_process c sent w).1.cancel_waiting ≡ slots w.cancel_waiting
stop_process-slots none sent w = refl
stop_process-slots (some p) sent w =
    ap slots (signalled-slots (sent p) (record w { cancel_waiting = interrupt w.cancel_waiting }))
    ∙ interrupt-slots w.cancel_waiting

stop-slots :
    (sent : ℕ → Outcome (Unit {0})) (w : Wrapper)
    → slots (stop sent w).1.cancel_waiting ≡ slots w.cancel_waiting
unfolding stop
stop-slots sent w = go (is_stopping w.service_state)
  where
    go :
        (b : Bool)
        → slots
            (if◌then◌else◌ {A = Outcome (Unit {0}) × Wrapper} b
              (ok tt, w)
              (stop_process w.service_cmd sent w)).1.cancel_waiting
          ≡ slots w.cancel_waiting
    go true = refl
    go false = stop_process-slots w.service_cmd sent w

set_updating-slots : (w : Wrapper) → (set_updating (ok tt) w).1.cancel_waiting ≡ w.cancel_waiting
unfolding set_updating
set_updating-slots w = go (is_running w.service_state)
  where
    go :
        (b : Bool)
        → (if◌then◌else◌ {A = Outcome (Unit {0}) × Wrapper} b
            (ok tt, record w { service_state = updating })
            (
              fail "cannot run import when service is '%s', must be running"
                  (state_name w.service_state ∷ []),
              w,
            )).1.cancel_waiting
          ≡ w.cancel_waiting
    go true = refl
    go false = refl

end_update-slots :
    (r : Outcome (Unit {0})) (w : Wrapper)
    → (end_update (ok tt) r w).1.cancel_waiting ≡ w.cancel_waiting
unfolding end_update
end_update-slots (ok u) w = refl
end_update-slots (fail m args) w = refl
end_update-slots panic w = refl

-- A goroutine that starts nothing that holds the mutex leaves no check.
idle-checks : (ts : List Thread) → tally holds ts ≡ 0 → tally checks ts ≡ 0
idle-checks ts h = omega (arith, tally-checks-le-holds ts)

unlocked-slots :
    (t : Thread) (s : Shared) → (unlocked t s).wrapper.cancel_waiting ≡ s.wrapper.cancel_waiting
unlocked-slots t s = ap (λ (w : Wrapper). w.cancel_waiting) (unlocked-wrapper t s)

-- `n` stands for the checks of the other goroutines.
pub Move-opened :
    {s s' : Shared} {t : Thread} {ts : List Thread}
    → Move s t s' ts
    → (n : ℕ) → n + holds t ≤ 1
    → n + checks t ≤ slots s.wrapper.cancel_waiting
    → n + tally checks ts ≤ slots s'.wrapper.cancel_waiting
unfolding tally start
Move-opened {s} (Move.acquire_fails t done e) n h k =
    omega (arith, idle-checks _ (refused-holds t), ap slots (unlocked-slots t s))
Move-opened {s} Move.start_runs n h k = omega (
  arith,
  idle-checks _ (waiter-holds (start (ok s.next_process) s.wrapper).0),
  ap slots (start-slots s.wrapper.service_cmd (ok s.next_process) s.wrapper),
)
Move-opened {s} (Move.start_fails m args) n h k =
    omega (arith, ap slots (start-slots s.wrapper.service_cmd (fail m args) s.wrapper))
Move-opened {s} (Move.stop_runs sent) n h k = omega (
  arith,
  idle-checks _ (left_behind-holds s.wrapper (stop sent s.wrapper).0),
  stop-slots sent s.wrapper,
)
Move-opened {s} (Move.restart_runs sent) n h k = omega (
  arith,
  idle-checks _ (left_behind-holds s.wrapper (stop sent s.wrapper).0),
  stop-slots sent s.wrapper,
)
Move-opened {s} (Move.in_wait WaitMove.wait_reads) n h k =
    omega (arith, reads-checks (is_starting s.wrapper.service_state))
Move-opened {s} (Move.in_wait (WaitMove.check_signalled e)) n h k = omega (arith, ap slots e)
Move-opened (Move.in_wait WaitMove.wait_ends) n h k = omega arith
Move-opened {s} (Move.in_update (UpdateMove.update_begins e)) n h k =
    omega (arith, ap slots (set_updating-slots s.wrapper))
Move-opened {s} (Move.in_update (UpdateMove.update_refused e)) n h k =
    omega (arith, ap slots (set_updating-slots s.wrapper))
Move-opened {s} (Move.in_update (UpdateMove.update_ends {r})) n h k =
    omega (arith, ap slots (end_update-slots r s.wrapper))
Move-opened _ n h k = omega arith
