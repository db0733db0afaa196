-- ===== src/Supervisor/Utility.antt =====
-- The utilities of `Neo4jWrapper` (supervisor/neo4j.go): `startUtility`, and what else takes
-- `utilsMux`. A result `none` stands for a call that waits for the mutex for ever: it is locked,
-- and no goroutine will unlock it.
pub mod Lock
use neo4j_graph_tool_core.Base.{
  ℕ, Text, codes, text_keys, ◌==◌, Option, none, some, List, [], ◌∷◌, Bool, true, false, Outcome,
  ok, fail, panic, if◌then◌else◌,
}
use Prim.Native.String.{String}
use neo4j_graph_tool_core.Base.Result.{◌>>◌}
use neo4j_graph_tool_core.Base.Dict.{Dict, lookup, insert, erase, has}
use neo4j_graph_tool_core.Supervisor.Wrapper.{Wrapper, Neo4jState, running, failed, state, stop}

-- `utilsCmd`, and whether `utilsMux` is locked.
pub record Utils : Type 0 where
  pub utils_cmd : Dict Text ℕ
  pub locked : Bool

-- `utilsMux.Lock()`, and what follows it.
abbrev pub with_lock : {A : Type 0} → Utils → A → Option A
with_lock u next = if u.locked then none else some next

-- `cmd, err := StartCmd(…)` with the mutex, which stays locked on an error.
abbrev pub register_started : Text → Outcome ℕ → Utils → Outcome ℕ × Utils
register_started name (ok process) u =
    (ok process, record { utils_cmd = insert name process u.utils_cmd; locked = false })
register_started name (fail m args) u = (fail m args, record u { locked = true })
register_started name panic u = (panic, record u { locked = true })

abbrev pub register_new : Text → Outcome ℕ → Utils → Outcome ℕ × Utils
register_new name start_cmd u =
    if has (lookup name u.utils_cmd)
    then (fail "utility '%s' is already running" (name ∷ []), record u { locked = true })
    else register_started name start_cmd u

-- `startUtility` up to its `Unlock`.
unfoldable pub register : Text → Outcome ℕ → Utils → Option (Outcome ℕ × Utils)
unfolding lookup insert
register name start_cmd u = with_lock u (register_new name start_cmd u)

-- The end of `waitAndClean`.
unfoldable pub deregister : Text → Utils → Option Utils
unfolding erase
deregister name u = with_lock u (record { utils_cmd = erase name u.utils_cmd; locked = false })

abbrev pub and_result : Outcome (Unit {0}) → Option Utils → Option (Outcome (Unit {0}) × Utils)
and_result r none = none
and_result r (some u) = some (r, u)

-- `waited` is what `WaitTS` gives for a process.
abbrev pub wait_and_clean :
    Text
    → (ℕ → Outcome (Unit {0}))
    → Option (Outcome ℕ × Utils)
    → Option (Outcome (Unit {0}) × Utils)
wait_and_clean name waited none = none
wait_and_clean name waited (some (ok process, u)) = and_result (waited process) (deregister name u)
wait_and_clean name waited (some (fail m args, u)) = some (fail m args, u)
wait_and_clean name waited (some (panic, u)) = some (panic, u)

-- `startUtility(true, …)`, where no other goroutine takes the mutex meanwhile; `args[0]` of no
-- arguments is a panic.
unfoldable pub start_utility :
    (start_cmd : List Text → Outcome ℕ) (waited : ℕ → Outcome (Unit {0})) (args : List Text)
    → Utils
    → Option (Outcome (Unit {0}) × Utils)
unfolding register deregister
start_utility start_cmd waited [] u = some (panic, u)
start_utility start_cmd waited (name ∷ args) u =
    wait_and_clean name waited (register name (start_cmd (name ∷ args)) u)

-- The loop of `StopAll`.
unfoldable pub signal_all : (ℕ → Outcome (Unit {0})) → Dict Text ℕ → Outcome (Unit {0})
signal_all sent [] = ok tt
signal_all sent ((name, process) ∷ utils) = sent process >> signal_all sent utils

-- `Stop`, whose `Acquire` gives `acquired`.
abbrev pub stop_acquired :
    Outcome (Unit {0}) → (ℕ → Outcome (Unit {0})) → Wrapper → Outcome (Unit {0}) × Wrapper
stop_acquired (ok u) sent w = stop sent w
stop_acquired (fail m args) sent w = (fail m args, w)
stop_acquired panic sent w = (panic, w)

abbrev pub stop_after :
    Outcome (Unit {0})
    → Outcome (Unit {0})
    → (ℕ → Outcome (Unit {0}))
    → Wrapper
    → Outcome (Unit {0}) × Wrapper
stop_after (ok u) acquired sent w = stop_acquired acquired sent w
stop_after (fail m args) acquired sent w = (fail m args, w)
stop_after panic acquired sent w = (panic, w)

-- `StopAll`
unfoldable pub stop_all :
    Outcome (Unit {0})
    → (ℕ → Outcome (Unit {0}))
    → Utils
    → Wrapper
    → Option (Outcome (Unit {0}) × Wrapper)
unfolding signal_all
stop_all acquired sent u w = with_lock u (stop_after (signal_all sent u.utils_cmd) acquired sent w)

-- A value of the map of `AllStates`.
pub data StateValue : Type 0 where
  state_value : Neo4jState → StateValue
  error_value : String → List Text → StateValue

-- `State`, whose `Acquire` gives `acquired`, as the first entries of `AllStates`.
abbrev pub main_states : Outcome (Unit {0}) → Wrapper → Dict Text StateValue
main_states (ok u) w = (codes "neo4j", state_value w.service_state) ∷ []
main_states (fail m args) w =
    (codes "neo4j", state_value failed) ∷ (codes "neo4_state_err", error_value m args) ∷ []
main_states panic w = []

unfoldable pub add_states : Dict Text ℕ → Dict Text StateValue → Dict Text StateValue
add_states [] m = m
add_states ((name, process) ∷ utils) m = add_states utils (insert name (state_value running) m)

-- `AllStates`
unfoldable pub all_states : Outcome (Unit {0}) → Utils → Wrapper → Option (Dict Text StateValue)
unfolding add_states
all_states acquired u w = with_lock u (add_states u.utils_cmd (main_states acquired w))

-- The copy that `WaitAll` makes, of the processes it waits for.
unfoldable pub waited_utils : Utils → Option (Dict Text ℕ)
waited_utils u = with_lock u u.utils_cmd
