-- ===== src/Supervisor/TsCmd.antt =====
-- `WaitTS` and `StartCmd` of supervisor/tscmd.go.
use Prim.Native.String.{String}
use neo4j_graph_tool_core.Base.{
  ℕ, Text, Option, none, some, List, [], ◌∷◌, Bool, true, false, ◌≡◌, refl, All, Outcome, ok, fail,
  panic,
}
use neo4j_graph_tool_core.Base.Monad.{Exec, modify, ◌>>=◌, ◌>>◌}

-- `errWrap` of a `TSCmd`: what the first call of `Wait` gave.
abbrev pub TsCmd : Type 0
TsCmd = Option (Outcome (Unit {0}))

abbrev pub first_wait : Outcome (Unit {0}) → TsCmd → Outcome (Unit {0})
first_wait r none = r
first_wait r (some e) = e

-- `WaitTS`, where `Wait` would give `r`.
unfoldable pub wait_ts : Outcome (Unit {0}) → TsCmd → Outcome (Unit {0}) × TsCmd
wait_ts r c = (first_wait r c, some (first_wait r c))

-- The pipes that `StartCmd` has open.
pub record Pipes : Type 0 where
  pub out_open : Bool
  pub err_open : Bool

-- A step of `StartCmd`; `undo` closes the pipes that are open.
abbrev pub or_close : {A : Type 0} → Outcome A → (Pipes → Pipes) → Exec Pipes A
or_close (ok a) undo s = (ok a, s)
or_close (fail m args) undo s = (fail m args, undo s)
or_close panic undo s = (panic, s)

-- `StartCmd`, on what `StdoutPipe`, `StderrPipe` and `Start` give; `args[0]` of no arguments is a
-- panic.
unfoldable pub start_cmd :
    List Text → (stdout stderr : Outcome (Unit {0})) → (started : Outcome ℕ) → Exec Pipes ℕ
start_cmd [] stdout stderr started s = (panic, s)
start_cmd (name ∷ args) stdout stderr started s =
    (or_close stdout (λ s. s) >>= λ u.
    modify (λ s. record s { out_open = true })
    >> (or_close stderr (λ s. record s { out_open = false }) >>= λ u.
        modify (λ s. record s { err_open = true })
        >> or_close started (λ s. record s { out_open = false; err_open = false })))
      s

-- Of a command that starts both pipes are open; of one that does not, both are closed again.
pub start_cmd-pipes :
    (name : Text) (args : List Text) (stdout stderr : Outcome (Unit {0})) (started : Outcome ℕ)
    → let r =
        start_cmd
          (name ∷ args)
          stdout
          stderr
          started
          (record { out_open = false; err_open = false }) in
      ((process : ℕ) → r.0 ≡ ok process → r.1 ≡ record { out_open = true; err_open = true })
      × ((m : String) (details : List Text)
          → r.0 ≡ fail m details
          → r.1 ≡ record { out_open = false; err_open = false })
unfolding start_cmd
start_cmd-pipes name args (ok u) (ok v) (ok process) = (λ p e. refl, λ m d e. cc)
start_cmd-pipes name args (ok u) (ok v) (fail m ds) = (λ p e. cc, λ m d e. refl)
start_cmd-pipes name args (ok u) (ok v) panic = (λ p e. cc, λ m d e. cc)
start_cmd-pipes name args (ok u) (fail m ds) started = (λ p e. cc, λ m d e. refl)
start_cmd-pipes name args (ok u) panic started = (λ p e. cc, λ m d e. cc)
start_cmd-pipes name args (fail m ds) stderr started = (λ p e. cc, λ m d e. refl)
start_cmd-pipes name args panic stderr started = (λ p e. cc, λ m d e. cc)

-- Calls of `WaitTS` one after another, where `Wait` would give the results listed.
unfoldable pub wait_all_ts : List (Outcome (Unit {0})) → TsCmd → List (Outcome (Unit {0}))
unfolding wait_ts
wait_all_ts [] c = []
wait_all_ts (r ∷ rs) c = (wait_ts r c).0 ∷ wait_all_ts rs (wait_ts r c).1

same_again :
    (rs : List (Outcome (Unit {0}))) (r : Outcome (Unit {0}))
    → All (λ e. e ≡ r) (wait_all_ts rs (some r))
unfolding wait_all_ts wait_ts
same_again [] r = tt
same_again (s ∷ rs) r = (refl, same_again rs r)

-- Every call of `WaitTS` on a new command gives what the first call of `Wait` gave, whatever `Wait`
-- would give to the others.
pub wait_ts-same :
    (r : Outcome (Unit {0})) (rs : List (Outcome (Unit {0})))
    → All (λ e. e ≡ r) (wait_all_ts (r ∷ rs) none)
unfolding wait_all_ts wait_ts
wait_ts-same r rs = (refl, same_again rs r)
