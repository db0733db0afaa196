-- ===== src/Tests/ServerWitnesses.antt =====
-- The theorems on the handlers, on stopping and on the text of the model, at concrete data.
use neo4j_graph_tool_core.Base.{
  ℕ, ◌<◌, ◌++◌, ◌∷◌, arith, List, codes, none, some, [], Bool, true, false, Outcome, ◌≡◌, refl, ok,
  fail,
}
use neo4j_graph_tool_core.Base.Int.{ℤ, pos}
use neo4j_graph_tool_core.Migrator.Target.{format_nat}
use neo4j_graph_tool_core.Migrator.Json.{write_executed, skip}
use neo4j_graph_tool_core.Migrator.Json.Numbers.{separated, write_executed-lists}
use neo4j_graph_tool_core.Supervisor.Http.{Server, Request}
use neo4j_graph_tool_core.Supervisor.Boot.{Closing, stop_services, shut_down}
use neo4j_graph_tool_core.Supervisor.Utility.{Utils, stop_all, signal_all}
use neo4j_graph_tool_core.Supervisor.Wrapper.{stopping, stop}
use neo4j_graph_tool_core.Supervisor.Boot.Stop.{shut_down-skips}
use neo4j_graph_tool_core.Tests.Fixtures.{sort_files, sort_folders}
use neo4j_graph_tool_core.Tests.UpdateWitnesses.{service}

abbrev three : List ℤ
three = pos 1 ∷ pos 2 ∷ pos 3 ∷ []

write_executed-lists_example :
    (3 < 3 → write_executed 3 three ≡ codes "[" ++ (separated three ++ codes "]"))
    × (3 < 3
        → write_executed 3 three
          ≡ codes "[\"... "
            ++ (format_nat 0 ++ (codes " more\"," ++ (separated (skip 0 three) ++ codes "]"))))
    × (◌≡◌ {A = ℕ} 3 3
        → write_executed 3 three ≡ codes "[\"... 0 more\"" ++ (separated three ++ codes "]"))
write_executed-lists_example = write_executed-lists 3 three (omega arith)

three_as_text : write_executed 3 three ≡ codes "[\"... 0 more\"1,2,3]"
unfolding write_executed
three_as_text = refl

abbrev server : Server ℕ
server = record { default_target_version = none; default_batch = codes "seed" }

abbrev request : Request
request = record { param = []; query = [] }

-- `Acquire` of a semaphore that is free, and utilities of which one is running.
abbrev acquire : Bool → Outcome (Unit {0})
acquire true = fail "context canceled" []
acquire false = ok tt

abbrev one_utility : Utils
one_utility = record { utils_cmd = (codes "gt", 9) ∷ []; locked = false }

abbrev serving : Closing
serving = record { context_done = false; wrapper = service; awaited = [] }

shut_down-skips_example :
    shut_down acquire (λ p. ok tt) one_utility serving
    ≡ some (record { context_done = true; wrapper = service; awaited = 9 ∷ [] })
shut_down-skips_example =
    shut_down-skips acquire (λ p. ok tt) one_utility serving "context canceled" [] refl refl

-- Without the cancelled context, the process of the service gets its signal.
uncancelled :
    stop_services acquire (λ p. ok tt) one_utility serving
    ≡ some (record serving { wrapper = record service { service_state = stopping } })
unfolding stop_services stop_all stop signal_all
uncancelled = refl
