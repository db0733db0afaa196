-- ===== src/Supervisor/Waiting.antt =====
-- The loop of `WaitForNeo4j` in supervisor/neo4j.go, which asks for a connection at every tick.
use neo4j_graph_tool_core.Base.{
  ℕ, zero, suc, ◌+◌, ◌/◌, ◌*◌, ◌≤◌, List, [], ◌∷◌, ◌++◌, Bool, true, false, ◌≡◌, refl, arith, ltb,
  length, if◌then◌else◌, ◌∙◌, ap,
}

-- What the `select` receives: a signal, or a tick and whether `VerifyConnectivity` succeeds.
pub data CheckEvent : Type 0 where
  signal : CheckEvent
  tick : Bool → CheckEvent

-- The loop in round `i`, or what it ends with.
pub data Checking : Type 0 where
  waiting : ℕ → Checking
  over : (connected cancelled : Bool) → Checking

-- `boltCheckQuitAfterSec / boltCheckSec`
abbrev pub last_round : ℕ
last_round = 5 * 60 / 2

-- One round of the loop.
abbrev pub check_once : ℕ → CheckEvent → Checking
check_once i signal = over false true
check_once i (tick reachable) =
    if ltb last_round i
    then over false false
    else if reachable
    then over true false
    else waiting (i + 1)

-- The loop, from round `i` on, as long as there are events.
unfoldable pub check_bolt : Checking → List CheckEvent → Checking
check_bolt (over connected cancelled) events = over connected cancelled
check_bolt (waiting i) [] = waiting i
check_bolt (waiting i) (e ∷ events) = check_bolt (check_once i e) events

pub check_bolt-over :
    (connected cancelled : Bool) (events : List CheckEvent)
    → check_bolt (over connected cancelled) events ≡ over connected cancelled
unfolding check_bolt
check_bolt-over connected cancelled [] = refl
check_bolt-over connected cancelled (e ∷ events) = refl

abbrev pub IsOver : Checking → Type 0
IsOver c = (connected : Bool) × (cancelled : Bool) × (c ≡ over connected cancelled)

ends_from :
    (i : ℕ) (events : List CheckEvent)
    → 152 ≤ i + length events
    → i ≤ 151
    → IsOver (check_bolt (waiting i) events)
unfolding check_bolt
ends_from i [] enough h = absurd (omega arith)
ends_from i (signal ∷ events) enough h = (false, true, check_bolt-over false true events)
ends_from i (tick reachable ∷ events) enough h =
    go (ltb last_round i) refl reachable (λ small. ends_from (i + 1) events (omega arith) small)
  where
    go :
        (b : Bool)
        → ltb last_round i ≡ b
        → (r : Bool) → (i + 1 ≤ 151 → IsOver (check_bolt (waiting (i + 1)) events))
        → IsOver (
            check_bolt
              (if b then over false false else if r then over true false else waiting (i + 1))
              events)
    go true e r later = (false, false, check_bolt-over false false events)
    go false e true later = (true, false, check_bolt-over true false events)
    go false e false later = later (ground arith)

-- The loop is over after 152 signals and ticks at the latest.
pub check_bolt-ends :
    (events : List CheckEvent) → 152 ≤ length events → IsOver (check_bolt (waiting 0) events)
check_bolt-ends events enough = ends_from 0 events (omega arith) (omega arith)

-- Ticks without a connection.
abbrev pub failed_ticks : ℕ → List CheckEvent
failed_ticks zero = []
failed_ticks (suc n) = tick false ∷ failed_ticks n

once_early :
    (i : ℕ) (reachable : Bool)
    → i ≤ 150
    → check_once i (tick reachable) ≡ (if reachable then over true false else waiting (i + 1))
once_early i reachable h = let test : ltb last_round i ≡ false = ground arith in rw test refl

once_late : (reachable : Bool) → check_once 151 (tick reachable) ≡ over false false
once_late reachable = refl

after_failed :
    (n i j : ℕ) (events : List CheckEvent)
    → i + n ≡ j
    → j ≤ 151
    → check_bolt (waiting i) (failed_ticks n ++ events) ≡ check_bolt (waiting j) events
unfolding check_bolt
after_failed zero i j events e h = let same : i ≡ j = omega arith in rw same
after_failed (suc n) i j events e h =
    ap (λ c. check_bolt c (failed_ticks n ++ events)) (once_early i false (omega arith))
    ∙ after_failed n (i + 1) j events (omega arith) h

-- After `n` ticks without a connection, the next event decides: a connection counts for `n` up to
-- 150, a signal for `n` up to 151, and the tick after 151 others ends the checks without looking.
pub check_bolt-decides :
    (n : ℕ) (reachable : Bool) (events : List CheckEvent)
    → n ≤ 151
    → (check_bolt (waiting 0) (failed_ticks n ++ signal ∷ events) ≡ over false true)
      × (n ≤ 150 → check_bolt (waiting 0) (failed_ticks n ++ tick true ∷ events) ≡ over true false)
      × (n ≡ 151
          → check_bolt (waiting 0) (failed_ticks n ++ tick reachable ∷ events) ≡ over false false)
unfolding check_bolt
check_bolt-decides n reachable events h = (
  after_failed n 0 n (signal ∷ events) (omega arith) h ∙ check_bolt-over false true events,
  λ small.
      after_failed n 0 n (tick true ∷ events) (omega arith) h
      ∙ ap (λ c. check_bolt c events) (once_early n true small)
      ∙ check_bolt-over true false events,
  λ last.
      after_failed n 0 n (tick reachable ∷ events) (omega arith) h
      ∙ ap (λ i. check_bolt (check_once i (tick reachable)) events) last
      ∙ ap (λ c. check_bolt c events) (once_late reachable)
      ∙ check_bolt-over false false events,
)
