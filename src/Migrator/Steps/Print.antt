-- ===== src/Migrator/Steps/Print.antt =====
-- `String` of the execution steps: what it prints, and what it does to the commands.
use mathlib.Core.List.{append_assoc, append-nil}
use neo4j_graph_tool_core.Base.{
  Text, List, [], ◌∷◌, ◌++◌, ◌≡◌, refl, ◌∙◌, ap, sym, Outcome, ok, fail, panic, ok-injective,
}
use neo4j_graph_tool_core.Base.Result.{◌>>=◌}
use neo4j_graph_tool_core.Migrator.Steps.{
  ExecutionStep, cypher_step, command_step, ExecutionSteps, written, write_last, add_cypher,
  print_step, print_steps,
}

-- The text that is printed.
abbrev pub printed : Outcome (Text × ExecutionSteps) → Outcome Text
printed r = r >>= λ p. ok p.0

abbrev pub followed_by : Outcome Text → Text → Outcome Text
followed_by r more = r >>= λ text. ok (text ++ more)

abbrev pub print_both :
    Outcome (Text × ExecutionStep)
    → Outcome (Text × ExecutionSteps)
    → Outcome (Text × ExecutionSteps)
print_both r q = r >>= λ first. q >>= λ rest. ok (first.0 ++ rest.0, first.1 ∷ rest.1)

printed-both :
    (r : Outcome (Text × ExecutionStep)) (q q' : Outcome (Text × ExecutionSteps)) (text : Text)
    → printed q ≡ followed_by (printed q') text
    → printed (print_both r q) ≡ followed_by (printed (print_both r q')) text
printed-both (ok first) (ok p) (ok p') text h = rw (ok-injective h, append_assoc)
printed-both (ok first) (ok p) (fail f args) text h = cc
printed-both (ok first) (ok p) panic text h = cc
printed-both (ok first) (fail f args) (ok p') text h = cc
printed-both (ok first) (fail f args) (fail g args') text h = h
printed-both (ok first) (fail f args) panic text h = h
printed-both (ok first) panic (ok p') text h = cc
printed-both (ok first) panic (fail g args') text h = h
printed-both (ok first) panic panic text h = h
printed-both (fail f args) q q' text h = refl
printed-both panic q q' text h = refl

printed-write_last :
    (text : Text) (steps : ExecutionSteps)
    → printed (print_steps (write_last text steps)) ≡ followed_by (printed (print_steps steps)) text
unfolding print_steps write_last
printed-write_last text [] = unfold print_step in rw append-nil
printed-write_last text (cypher_step buffer ∷ []) =
    unfold print_step in
    ap ok (append-nil (buffer ++ text) ∙ ap (λ b. b ++ text) (sym (append-nil buffer)))
printed-write_last text (command_step args ∷ []) =
    printed-both (print_step (command_step args)) (print_steps (cypher_step text ∷ []))
      (ok ([], [])) text (unfold print_step in rw append-nil)
printed-write_last text (s ∷ t ∷ steps) =
    printed-both (print_step s) (print_steps (write_last text (t ∷ steps)))
      (print_steps (t ∷ steps)) text (printed-write_last text (t ∷ steps))

followed_by_nothing : (r : Outcome Text) → r ≡ followed_by r []
followed_by_nothing (ok text) = rw append-nil
followed_by_nothing (fail m args) = refl
followed_by_nothing panic = refl

-- What is added as Cypher is printed behind what was there, joined to the last step or not.
pub print_steps-add_cypher :
    (cs : List Text) (steps : ExecutionSteps)
    → printed (print_steps (add_cypher cs steps))
      ≡ followed_by (printed (print_steps steps)) (written cs)
unfolding add_cypher written
print_steps-add_cypher [] steps = followed_by_nothing (printed (print_steps steps))
print_steps-add_cypher (c ∷ cs) steps = printed-write_last (written (c ∷ cs)) steps
