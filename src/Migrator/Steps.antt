-- ===== src/Migrator/Steps.antt =====
-- `ExecutionSteps` of migrator/execution.go. A step is a buffer of Cypher or a command with its
-- arguments; the two are the only steps that `AddCypher` and `AddCommand` make.
pub mod Shape
pub mod Print
use neo4j_graph_tool_core.Base.{
  ℕ, Text, codes, text_keys, ◌==◌, List, [], ◌∷◌, ◌++◌, Bool, true, false, eqb, any, join, map,
  is_empty, Outcome, ok, fail, panic, if◌then◌else◌,
}
use neo4j_graph_tool_core.Base.Result.{◌>>=◌}

pub data ExecutionStep : Type 0 where
  cypher_step : Text → ExecutionStep
  command_step : List Text → ExecutionStep

abbrev pub ExecutionSteps : Type 0
ExecutionSteps = List ExecutionStep

-- `IsCypher`
abbrev pub is_cypher : ExecutionStep → Bool
is_cypher (cypher_step buffer) = true
is_cypher (command_step args) = false

-- The texts written one after another.
unfoldable pub written : List Text → Text
written [] = []
written (c ∷ cs) = c ++ written cs

-- The text goes to the last step if that is Cypher, and to a new one otherwise.
unfoldable pub write_last : Text → ExecutionSteps → ExecutionSteps
write_last text [] = cypher_step text ∷ []
write_last text (cypher_step buffer ∷ []) = cypher_step (buffer ++ text) ∷ []
write_last text (command_step args ∷ []) = command_step args ∷ cypher_step text ∷ []
write_last text (s ∷ t ∷ steps) = s ∷ write_last text (t ∷ steps)

-- `AddCypher`
unfoldable pub add_cypher : List Text → ExecutionSteps → ExecutionSteps
unfolding written
add_cypher [] steps = steps
add_cypher (c ∷ cs) steps = write_last (written (c ∷ cs)) steps

-- `AddCommand`
unfoldable pub add_command_step : List Text → ExecutionSteps → ExecutionSteps
add_command_step [] steps = steps
add_command_step (a ∷ args) steps = steps ++ command_step (a ∷ args) ∷ []

-- `args[i]` of `argsToString`, which it writes back.
unfoldable pub quote : Text → Text
quote arg = if any (eqb b' ') arg then codes "\"" ++ (arg ++ codes "\"") else arg

unfoldable pub args_to_string : List Text → Text
args_to_string args = join (map quote args) (codes " ")

-- One step of `String`: what is printed, and the step as `argsToString` leaves it.
unfoldable pub print_step : ExecutionStep → Outcome (Text × ExecutionStep)
print_step (cypher_step buffer) = ok (buffer, cypher_step buffer)
print_step (command_step []) = panic
print_step (command_step (a ∷ args)) =
    if a == codes "exit"
    then ok (codes "// Nothing to do in this file\n", command_step (a ∷ args))
    else ok (
      codes ">>> " ++ (args_to_string (a ∷ args) ++ codes "\n"),
      command_step (map quote (a ∷ args)),
    )

-- `String`
unfoldable pub print_steps : ExecutionSteps → Outcome (Text × ExecutionSteps)
print_steps [] = ok ([], [])
print_steps (s ∷ steps) = do
  first ← print_step s
  rest ← print_steps steps
  ok (first.0 ++ rest.0, first.1 ∷ rest.1)
