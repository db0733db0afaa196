-- ===== src/Migrator/Steps/Shape.antt =====
-- How execution steps grow: texts are joined, and two Cypher steps never stand side by side.
use neo4j_graph_tool_core.Base.{
  Text, List, [], ◌∷◌, ◌++◌, Bool, true, not, ◌&&◌, ◌≡◌, refl, ◌∙◌, ap, arith, sym,
}
use mathlib.Core.List.{append_assoc, append-nil}
use neo4j_graph_tool_core.Migrator.Steps.{
  ExecutionStep, cypher_step, command_step, ExecutionSteps, is_cypher, written, write_last,
  add_cypher, add_command_step,
}

pub written-append : (cs ds : List Text) → written (cs ++ ds) ≡ written cs ++ written ds
unfolding written
written-append [] ds = refl
written-append (c ∷ cs) ds = rw (written-append cs ds, append_assoc)

write_last_behind :
    (s t : ExecutionStep) (steps : ExecutionSteps) (text more : Text)
    → write_last more (s ∷ write_last text (t ∷ steps))
      ≡ s ∷ write_last more (write_last text (t ∷ steps))
unfolding write_last
write_last_behind s (cypher_step b) [] text more = refl
write_last_behind s (command_step args) [] text more = refl
write_last_behind s t (u ∷ steps) text more = refl

write_last-write_last :
    (text more : Text) (steps : ExecutionSteps)
    → write_last more (write_last text steps) ≡ write_last (text ++ more) steps
unfolding write_last
write_last-write_last text more [] = refl
write_last-write_last text more (cypher_step buffer ∷ []) = rw append_assoc
write_last-write_last text more (command_step args ∷ []) = refl
write_last-write_last text more (s ∷ t ∷ steps) =
    write_last_behind s t steps text more
    ∙ ap (λ r. s ∷ r) (write_last-write_last text more (t ∷ steps))

-- Two calls of `AddCypher` in a row are one call with all the texts.
pub add_cypher-add_cypher :
    (cs ds : List Text) (steps : ExecutionSteps)
    → add_cypher ds (add_cypher cs steps) ≡ add_cypher (cs ++ ds) steps
unfolding add_cypher
add_cypher-add_cypher [] ds steps = refl
add_cypher-add_cypher (c ∷ cs) [] steps = rw append-nil
add_cypher-add_cypher (c ∷ cs) (d ∷ ds) steps =
    write_last-write_last _ _ steps
    ∙ ap (λ t. write_last t steps) (sym (written-append (c ∷ cs) (d ∷ ds)))

-- No two Cypher steps stand side by side.
abbrev pub apart : ExecutionStep → ExecutionSteps → Bool
apart s [] = true
apart s (t ∷ steps) = not (is_cypher s && is_cypher t)

abbrev pub IsMerged : ExecutionSteps → Type 0
IsMerged [] = Unit
IsMerged (s ∷ steps) = (apart s steps ≡ true) × IsMerged steps

pub write_last-IsMerged :
    (text : Text) (steps : ExecutionSteps) → IsMerged steps → IsMerged (write_last text steps)
unfolding write_last
write_last-IsMerged text [] h = (refl, tt)
write_last-IsMerged text (cypher_step buffer ∷ []) h = (refl, tt)
write_last-IsMerged text (command_step args ∷ []) h = (refl, (refl, tt))
write_last-IsMerged text (s ∷ cypher_step b ∷ []) h = (h.0, (refl, tt))
write_last-IsMerged text (s ∷ command_step b ∷ []) h = (h.0, (refl, (refl, tt)))
write_last-IsMerged text (s ∷ t ∷ u ∷ steps) h = (h.0, write_last-IsMerged text (t ∷ u ∷ steps) h.1)

pub add_cypher-IsMerged :
    (cs : List Text) (steps : ExecutionSteps) → IsMerged steps → IsMerged (add_cypher cs steps)
unfolding add_cypher
add_cypher-IsMerged [] steps h = h
add_cypher-IsMerged (c ∷ cs) steps h = write_last-IsMerged (written (c ∷ cs)) steps h

append-command-IsMerged :
    (args : List Text) (steps : ExecutionSteps)
    → IsMerged steps
    → IsMerged (steps ++ command_step args ∷ [])
append-command-IsMerged args [] h = (refl, tt)
append-command-IsMerged args (s ∷ []) h = (ground arith, (refl, tt))
append-command-IsMerged args (s ∷ t ∷ steps) h = (h.0, append-command-IsMerged args (t ∷ steps) h.1)

pub add_command_step-IsMerged :
    (args : List Text) (steps : ExecutionSteps)
    → IsMerged steps
    → IsMerged (add_command_step args steps)
unfolding add_command_step
add_command_step-IsMerged [] steps h = h
add_command_step-IsMerged (a ∷ args) steps h = append-command-IsMerged (a ∷ args) steps h
