-- ===== src/Supervisor/Threads/Tally.antt =====
-- Sums over goroutines: how many hold `spinUpMux`, and how many check for the connection.
use neo4j_graph_tool_core.Base.{
  ℕ, ◌+◌, ◌≤◌, List, [], ◌∷◌, ◌++◌, Bool, true, false, ◌≡◌, Option, none, some, arith,
}
use neo4j_graph_tool_core.Supervisor.Threads.{Thread, holds, wait_checking}

abbrev pub checks : Thread → ℕ
checks (wait_checking c) = 1
checks _ = 0

unfoldable pub tally : (Thread → ℕ) → List Thread → ℕ
tally w [] = 0
tally w (t ∷ ts) = w t + tally w ts

pub tally-append :
    (w : Thread → ℕ) (xs ys : List Thread) → tally w (xs ++ ys) ≡ tally w xs + tally w ys
unfolding tally
tally-append w [] ys = omega arith
tally-append w (x ∷ xs) ys = omega (arith, tally-append w xs ys)

-- The middle of a list.
pub tally-middle :
    (w : Thread → ℕ) (xs ys zs : List Thread)
    → tally w (xs ++ (ys ++ zs)) ≡ tally w xs + tally w zs + tally w ys
tally-middle w xs ys zs = omega (arith, tally-append w xs (ys ++ zs), tally-append w ys zs)

pub checks-le-holds : (t : Thread) → checks t ≤ holds t
checks-le-holds (wait_checking c) = omega arith
checks-le-holds _ = omega arith

pub tally-checks-le-holds : (ts : List Thread) → tally checks ts ≤ tally holds ts
unfolding tally
tally-checks-le-holds [] = omega arith
tally-checks-le-holds (t ∷ ts) = omega (arith, checks-le-holds t, tally-checks-le-holds ts)

abbrev pub locks : Bool → ℕ
locks true = 1
locks false = 0

-- `cancelWaitingChan` serves one goroutine at most.
abbrev pub slots : Option Bool → ℕ
slots none = 0
slots (some full) = 1
