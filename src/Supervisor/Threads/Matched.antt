-- ===== src/Supervisor/Threads/Matched.antt =====
-- What the state of the wrapper says of its process, kept by every section.
use Prim.Native.String.{String}
use mathlib.Core.Option.{some-ne-none}
use neo4j_graph_tool_core.Base.Monad.{Exec, modify, ◌>>◌}
use neo4j_graph_tool_core.Base.Monad.Keeps.{Keeps, Keeps-modify, Keeps->>=, Keeps->>}
use neo4j_graph_tool_core.Base.{
  ℕ, List, Bool, true, false, ◌≡◌, ◌≢◌, ◌||◌, refl, sym, Option, none, some, if◌then◌else◌, Outcome,
  ok, fail, panic, Text, ◌∙◌,
}
use neo4j_graph_tool_core.Supervisor.Wrapper.{
  Neo4jState, stopped, starting, stopping, Wrapper, start, stop, end_waiting, set_updating,
  end_update, signalled, is_running, close_waiting, checked_state, waited, start_unless,
  stop_process, interrupt, is_stopping,
}

-- What the state says of the process.
abbrev pub IsMatched : Neo4jState → Option ℕ → Type 0
IsMatched stopped process = process ≡ none
IsMatched starting process = process ≢ none
IsMatched stopping process = process ≢ none
IsMatched _ process = Unit

abbrev pub IsMatchedIn : Wrapper → Type 0
IsMatchedIn w = IsMatched w.service_state w.service_cmd

start_unless-IsMatched :
    (c : Option ℕ) (p : ℕ) (w : Wrapper) → IsMatchedIn w → IsMatchedIn (start_unless c (ok p) w).1
start_unless-IsMatched (some q) p w h = h
start_unless-IsMatched none p w h = some-ne-none p

pub start-IsMatched : (p : ℕ) (w : Wrapper) → IsMatchedIn w → IsMatchedIn (start (ok p) w).1
unfolding start
start-IsMatched p w h = start_unless-IsMatched w.service_cmd p w h

start_unless-fails :
    (c : Option ℕ) (m : String) (args : List Text) (w : Wrapper)
    → IsMatchedIn w
    → IsMatchedIn (start_unless c (fail m args) w).1
start_unless-fails (some q) m args w h = h
start_unless-fails none m args w h = tt

pub start-fails :
    (m : String) (args : List Text) (w : Wrapper)
    → IsMatchedIn w
    → IsMatchedIn (start (fail m args) w).1
unfolding start
start-fails m args w h = start_unless-fails w.service_cmd m args w h

signalled-IsMatched :
    (r : Outcome (Unit {0})) (w : Wrapper)
    → w.service_cmd ≢ none
    → IsMatchedIn w
    → IsMatchedIn (signalled r w).1
signalled-IsMatched (ok u) w present h = present
signalled-IsMatched (fail m args) w present h = h
signalled-IsMatched panic w present h = h

stop_process-IsMatched :
    (c : Option ℕ) (sent : ℕ → Outcome (Unit {0})) (w : Wrapper)
    → w.service_cmd ≡ c
    → IsMatchedIn w
    → IsMatchedIn (stop_process c sent w).1
stop_process-IsMatched none sent w e h = h
stop_process-IsMatched (some p) sent w e h =
    signalled-IsMatched (sent p) (record w { cancel_waiting = interrupt w.cancel_waiting })
      (λ absent. some-ne-none p (sym e ∙ absent)) h

pub stop-IsMatched :
    (sent : ℕ → Outcome (Unit {0})) (w : Wrapper) → IsMatchedIn w → IsMatchedIn (stop sent w).1
unfolding stop
stop-IsMatched sent w h = go (is_stopping w.service_state)
  where
    go : (b : Bool) → IsMatchedIn (if b then (ok tt, w) else stop_process w.service_cmd sent w).1
    go true = h
    go false = stop_process-IsMatched w.service_cmd sent w refl h

close_waiting-Keeps : (c : Option Bool) → Keeps IsMatchedIn (close_waiting c)
close_waiting-Keeps none = record { after = λ w h. h }
close_waiting-Keeps (some full) = record { after = λ w h. h }

either-IsMatched :
    (b : Bool) (x y : Outcome (Unit {0}) × Wrapper)
    → IsMatchedIn x.1
    → IsMatchedIn y.1
    → IsMatchedIn (if◌then◌else◌ {A = Outcome (Unit {0}) × Wrapper} b x y).1
either-IsMatched true x y h k = h
either-IsMatched false x y h k = k

waited-Keeps : (cancelled : Bool) → Keeps IsMatchedIn (waited cancelled)
waited-Keeps cancelled = record {
  after = λ w h. either-IsMatched (is_running w.service_state || cancelled) _ _ h h;
}

checked_state-Keeps :
    (connected cancelled : Bool) (s : Neo4jState) (c : Option ℕ)
    → IsMatched s c
    → IsMatched (checked_state connected cancelled s) c
checked_state-Keeps true cancelled s c h = tt
checked_state-Keeps false true s c h = h
checked_state-Keeps false false s c h = tt

abbrev set_checked : Bool → Bool → Exec Wrapper (Unit {0})
set_checked connected cancelled =
    modify λ w. record w { service_state = checked_state connected cancelled w.service_state }

pub end_waiting-Keeps :
    (connected cancelled : Bool) → Keeps IsMatchedIn (end_waiting connected cancelled)
unfolding end_waiting
end_waiting-Keeps connected cancelled =
    Keeps->>= (λ (w : Wrapper). (ok w, w))
      (λ w. close_waiting w.cancel_waiting >> (set_checked connected cancelled >> waited cancelled))
      (record { after = λ w h. h })
      (λ w.
        Keeps->> (close_waiting w.cancel_waiting)
          (set_checked connected cancelled >> waited cancelled)
          (close_waiting-Keeps w.cancel_waiting)
          (Keeps->> (set_checked connected cancelled) (waited cancelled)
            (Keeps-modify _
              (λ w' h. checked_state-Keeps connected cancelled w'.service_state w'.service_cmd h))
            (waited-Keeps cancelled)))

pub set_updating-Keeps : Keeps IsMatchedIn (set_updating (ok tt))
unfolding set_updating
set_updating-Keeps = record {
  after = λ w h. either-IsMatched (is_running w.service_state) _ _ tt h;
}

pub end_update-Keeps : (r : Outcome (Unit {0})) → Keeps IsMatchedIn (end_update (ok tt) r)
unfolding end_update
end_update-Keeps (ok u) = record { after = λ w h. tt }
end_update-Keeps (fail m args) = record { after = λ w h. tt }
end_update-Keeps panic = record { after = λ w h. tt }
