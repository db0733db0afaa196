-- ===== src/Supervisor/Utility/Lock.antt =====
-- What `startUtility` leaves of `utilsCmd` and `utilsMux`.
use neo4j_graph_tool_core.Base.{
  ℕ, Text, text_keys, Option, none, some, List, [], ◌∷◌, true, false, ◌≡◌, refl, ◌⊎◌, inl, inr,
  arith, Outcome, ok, fail,
}
use Prim.Native.String.{String}
use neo4j_graph_tool_core.Base.Dict.{lookup, insert, erase, lookup-insert, lookup-erase}
use neo4j_graph_tool_core.Supervisor.Wrapper.{Wrapper}
use neo4j_graph_tool_core.Supervisor.Utility.{
  Utils, register, deregister, start_utility, stop_all, all_states, waited_utils,
}

-- A utility that is added and removed was never there.
forgotten :
    (name : Text) (process : ℕ) (u : Utils) (k : Text)
    → lookup name u.utils_cmd ≡ none
    → lookup k (erase name (insert name process u.utils_cmd)) ≡ lookup k u.utils_cmd
forgotten name process u k absent = ground (
  arith,
  lookup-erase (insert name process u.utils_cmd) name k,
  lookup-insert u.utils_cmd process name k,
  text_keys.same_iff name k,
  absent,
)

module _ (start_cmd : List Text → Outcome ℕ) (waited : ℕ → Outcome (Unit {0})) where
  -- With the mutex free, a utility that is not running and whose command starts gives what waiting
  -- for it gives; afterwards the mutex is free and every name stands for what it stood for.
  pub start_utility-waits :
      (name : Text) (args : List Text) (u : Utils) (process : ℕ)
      → u.locked ≡ false
      → lookup name u.utils_cmd ≡ none
      → start_cmd (name ∷ args) ≡ ok process
      → (after : Utils) × (start_utility start_cmd waited (name ∷ args) u
          ≡ some (waited process, after))
        × (after.locked ≡ false)
        × ((k : Text) → lookup k after.utils_cmd ≡ lookup k u.utils_cmd)
  unfolding start_utility register deregister
  start_utility-waits name args u process free absent started = (
    record { utils_cmd = erase name (insert name process u.utils_cmd); locked = false },
    rw (free, absent, started) refl,
    refl,
    λ k. forgotten name process u k absent,
  )

  -- What waits for ever on a mutex that stays locked.
  pub record IsBlocked (u : Utils) : Type 0 where
    pub utilities :
        (name : Text) (args : List Text) → start_utility start_cmd waited (name ∷ args) u ≡ none
    pub stopping :
        (acquired : Outcome (Unit {0})) (sent : ℕ → Outcome (Unit {0})) (w : Wrapper)
        → stop_all acquired sent u w ≡ none
    pub states : (acquired : Outcome (Unit {0})) (w : Wrapper) → all_states acquired u w ≡ none
    pub waiting : waited_utils u ≡ none

  locked-IsBlocked : (u : Utils) → u.locked ≡ true → IsBlocked u
  unfolding start_utility register stop_all all_states waited_utils
  locked-IsBlocked u e = record {
    utilities = λ name args. rw e refl;
    stopping = λ acquired sent w. rw e refl;
    states = λ acquired w. rw e refl;
    waiting = rw e refl;
  }

  abbrev Refuses : Text → List Text → Utils → Type 0
  Refuses name args u =
      (m : String) × (details : List Text) × (after : Utils) × (start_utility start_cmd waited
          (name ∷ args) u
        ≡ some (fail m details, after))
      × IsBlocked after

  running-Refuses :
      (name : Text) (args : List Text) (u : Utils) (process : ℕ)
      → u.locked ≡ false
      → lookup name u.utils_cmd ≡ some process
      → Refuses name args u
  unfolding start_utility register
  running-Refuses name args u process free found = (
    "utility '%s' is already running",
    name ∷ [],
    record u { locked = true },
    rw (free, found) refl,
    locked-IsBlocked (record u { locked = true }) refl,
  )

  failed-Refuses :
      (name : Text) (args : List Text) (u : Utils) (m : String) (details : List Text)
      → u.locked ≡ false
      → lookup name u.utils_cmd ≡ none
      → start_cmd (name ∷ args) ≡ fail m details
      → Refuses name args u
  unfolding start_utility register
  failed-Refuses name args u m details free absent failed = (
    m,
    details,
    record u { locked = true },
    rw (free, absent, failed) refl,
    locked-IsBlocked (record u { locked = true }) refl,
  )

  -- With the mutex free, a utility that is running already, or whose command does not start, gives
  -- an error and leaves the mutex locked: every later `startUtility`, `StopAll` and `AllStates`
  -- waits for ever, and so does `WaitAll` before it waits for the utilities.
  pub start_utility-blocks :
      (name : Text) (args : List Text) (u : Utils)
      → u.locked ≡ false
      → ((process : ℕ) × (lookup name u.utils_cmd ≡ some process))
        ⊎ ((m : String) × (details : List Text) × (start_cmd (name ∷ args) ≡ fail m details))
      → (m : String) × (details : List Text) × (after : Utils) × (start_utility start_cmd waited
            (name ∷ args)
            u
          ≡ some (fail m details, after))
        × IsBlocked after
  start_utility-blocks name args u free (inl (process, found)) =
      running-Refuses name args u process free found
  start_utility-blocks name args u free (inr (m, details, failed)) =
      go (lookup name u.utils_cmd) refl
    where
      go : (o : Option ℕ) → lookup name u.utils_cmd ≡ o → Refuses name args u
      go (some process) found = running-Refuses name args u process free found
      go none absent = failed-Refuses name args u m details free absent failed
