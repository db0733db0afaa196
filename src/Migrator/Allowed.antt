-- ===== src/Migrator/Allowed.antt =====
-- The commands that a plan may hold: `addCommand` and `CreateBuilder` of migrator/execution.go,
-- and `Plan` with that builder.
use neo4j_graph_tool_core.Base.{
  ℕ, zero, suc, Text, codes, text_keys, ◌==◌, Option, none, some, List, [], ◌∷◌, Bool, true, false,
  ◌≡◌, refl, All, All-append, Outcome, panic, if◌then◌else◌, is_empty, has_prefix, ◌||◌,
}
use neo4j_graph_tool_core.Base.Dict.{Dict, lookup}
use neo4j_graph_tool_core.Base.Monad.{Exec}
use neo4j_graph_tool_core.Base.Monad.Keeps.{
  Keeps, Keeps-lift, Keeps-pure, Keeps-modify, Keeps->>=, Keeps->>,
}
use neo4j_graph_tool_core.Migrator.Steps.{
  ExecutionStep, cypher_step, command_step, ExecutionSteps, write_last, add_cypher,
  add_command_step, written,
}
use neo4j_graph_tool_core.Migrator.Command.{
  Line, ignored, exit_line, broken, forbidden, run, allowed_line, line_of_args, read_line, on_line,
  add_lines, some_command, add_command, split_lines, is_blank, trim, parse_args,
}

-- A step that needs no permission, or a command whose program is the configured path of a name.
pub data IsAllowed (allowed : Dict Text Text) : ExecutionStep → Type 0 where
  cypher_text : {buffer : Text} → IsAllowed allowed (cypher_step buffer)
  exit_command : IsAllowed allowed (command_step (codes "exit" ∷ []))
  listed :
      (name : Text) {path : Text} {args : List Text}
      → lookup name allowed ≡ some path
      → IsAllowed allowed (command_step (path ∷ args))

abbrev pub AllAllowed : Dict Text Text → ExecutionSteps → Type 0
AllAllowed allowed steps = All (IsAllowed allowed) steps

module _ (allowed : Dict Text Text) where
  write_last-AllAllowed :
      (text : Text) (steps : ExecutionSteps)
      → AllAllowed allowed steps
      → AllAllowed allowed (write_last text steps)
  unfolding write_last
  write_last-AllAllowed text [] h = (cypher_text, tt)
  write_last-AllAllowed text (cypher_step buffer ∷ []) h = (cypher_text, tt)
  write_last-AllAllowed text (command_step args ∷ []) h = (h.0, (cypher_text, tt))
  write_last-AllAllowed text (s ∷ t ∷ steps) h = (h.0, write_last-AllAllowed text (t ∷ steps) h.1)

  pub add_cypher-AllAllowed :
      (cs : List Text) (steps : ExecutionSteps)
      → AllAllowed allowed steps
      → AllAllowed allowed (add_cypher cs steps)
  unfolding add_cypher
  add_cypher-AllAllowed [] steps h = h
  add_cypher-AllAllowed (c ∷ cs) steps h = write_last-AllAllowed (written (c ∷ cs)) steps h

  pub add_command_step-AllAllowed :
      (args : List Text) (steps : ExecutionSteps)
      → IsAllowed allowed (command_step args)
      → AllAllowed allowed steps
      → AllAllowed allowed (add_command_step args steps)
  unfolding add_command_step
  add_command_step-AllAllowed [] steps a h = h
  add_command_step-AllAllowed (x ∷ args) steps a h =
      All-append (IsAllowed allowed) steps (command_step (x ∷ args) ∷ []) h (a, tt)

  -- What a line may ask for.
  abbrev IsPermitted : Line → Type 0
  IsPermitted (run args) = IsAllowed allowed (command_step args)
  IsPermitted _ = Unit

  line_of_args-IsPermitted : (args : List Text) → IsPermitted (line_of_args allowed args)
  line_of_args-IsPermitted [] = tt
  line_of_args-IsPermitted (name ∷ args) = go (name == codes "exit") (lookup name allowed) refl
    where
      go :
          (b : Bool) (o : Option Text)
          → lookup name allowed ≡ o
          → IsPermitted (if b then exit_line else allowed_line o name args)
      go true o e = tt
      go false none e = tt
      go false (some path) e = listed name e

  read_line-IsPermitted : (line : Text) → IsPermitted (read_line allowed line)
  unfolding read_line
  read_line-IsPermitted line =
      let l = trim is_blank line in
      go (is_empty l || has_prefix l (codes "//") || has_prefix l (codes "#"))
        (line_of_args allowed (parse_args l)) (line_of_args-IsPermitted (parse_args l))
    where
      go : (b : Bool) (l : Line) → IsPermitted l → IsPermitted (if b then ignored else l)
      go true l h = tt
      go false l h = h

-- What adding a permitted command keeps, the commands of a file keep.
module _ (allowed : Dict Text Text) {P : ExecutionSteps → Type 0}
    (command_keeps : (args : List Text) (steps : ExecutionSteps)
      → IsAllowed allowed (command_step args)
      → P steps
      → P (add_command_step args steps)) where
  on_line-Keeps :
      (path : Text) (line : Line) (n : ℕ) (rest : ℕ → Exec ExecutionSteps ℕ)
      → IsPermitted allowed line
      → ((k : ℕ) → Keeps P (rest k))
      → Keeps P (on_line path line n rest)
  on_line-Keeps path ignored n rest h k = k n
  on_line-Keeps path exit_line zero rest h k =
      Keeps->> _ _ (Keeps-modify _ λ s. command_keeps _ s exit_command) (Keeps-pure 1)
  on_line-Keeps path exit_line (suc n) rest h k = Keeps-pure (suc n)
  on_line-Keeps path broken n rest h k = Keeps-lift panic
  on_line-Keeps path (forbidden name) n rest h k = Keeps-lift _
  on_line-Keeps path (run args) n rest h k =
      Keeps->> _ _ (Keeps-modify _ λ s. command_keeps args s h) (k (suc n))

  add_lines-Keeps : (path : Text) (ls : List Text) (n : ℕ) → Keeps P (add_lines allowed path ls n)
  unfolding add_lines
  add_lines-Keeps path [] n = Keeps-pure n
  add_lines-Keeps path (l ∷ ls) n =
      on_line-Keeps path (read_line allowed l) n (add_lines allowed path ls)
        (read_line-IsPermitted allowed l) (add_lines-Keeps path ls)

  some_command-Keeps : (path : Text) (n : ℕ) → Keeps P (some_command path n)
  some_command-Keeps path zero = Keeps-lift _
  some_command-Keeps path (suc n) = Keeps-pure tt

  pub add_command-Keeps :
      (read_file : Text → Outcome Text) (path : Text) → Keeps P (add_command read_file allowed path)
  unfolding add_command
  add_command-Keeps read_file path = Keeps->>= _ _ (Keeps-lift (read_file path)) λ content.
      Keeps->>= _ _ (add_lines-Keeps path (split_lines [] content) 0) (some_command-Keeps path)
