-- ===== src/Supervisor/Update/Errors.antt =====
-- What the result of `update` tells of the utilities.
use Prim.Native.String.{String}
use neo4j_graph_tool_core.Base.{
  ℕ, Text, codes, text_keys, ◌==◌, Option, none, some, List, [], ◌∷◌, Bool, true, false, ◌≡◌, refl,
  ap, ◌∙◌, ◌⊎◌, inl, inr, Outcome, ok, fail, panic, if◌then◌else◌,
}
use neo4j_graph_tool_core.Base.Dict.{some-injective}
use neo4j_graph_tool_core.Base.Sort.{SortSlice}
use neo4j_graph_tool_core.Semver.{Semver}
use neo4j_graph_tool_core.Config.Defs.{Config, PlannerConfig, SupervisorConfig}
use neo4j_graph_tool_core.Migrator.Files.{MigrationFile, LocalVersionFolder, TargetVersion}
use neo4j_graph_tool_core.Migrator.Steps.{ExecutionSteps, cypher_step, command_step}
use neo4j_graph_tool_core.Supervisor.Wrapper.{
  Wrapper, set_state, running, is_running, set_updating, end_update, updating,
}
use neo4j_graph_tool_core.Supervisor.Utility.{Utils, start_utility}
use neo4j_graph_tool_core.Supervisor.Utility.Lock.{start_utility-blocks}
use neo4j_graph_tool_core.Supervisor.Update.{
  Host, cypher_shell, continue_after, run_steps, run_configured, make_steps, run_made, after_made,
  update_body, ended, updated, update,
}

-- A result that is no error.
abbrev pub IsNoError : Option (Outcome (Unit {0}) × Utils) → Type 0
IsNoError (some (fail m args, utils)) = ⊥
IsNoError _ = Unit

continue_after-IsNoError :
    (o : Option (Outcome (Unit {0}) × Utils)) (next : Utils → Option (Outcome (Unit {0}) × Utils))
    → ((utils : Utils) → IsNoError (next utils))
    → IsNoError (continue_after o next)
continue_after-IsNoError none next h = tt
continue_after-IsNoError (some (ok u, utils)) next h = h utils
continue_after-IsNoError (some (fail m args, utils)) next h = tt
continue_after-IsNoError (some (panic, utils)) next h = tt

module _ (start_cmd : Option Text → List Text → Outcome ℕ) (waited : ℕ → Outcome (Unit {0}))
    (format : Text) where
  run_steps-IsNoError :
      (steps : ExecutionSteps) (utils : Utils)
      → IsNoError (run_steps start_cmd waited format steps utils)
  unfolding run_steps
  run_steps-IsNoError [] utils = tt
  run_steps-IsNoError (cypher_step buffer ∷ steps) utils =
      continue_after-IsNoError _ _ (λ u. run_steps-IsNoError steps u)
  run_steps-IsNoError (command_step [] ∷ steps) utils = tt
  run_steps-IsNoError (command_step (a ∷ args) ∷ steps) utils =
      go (a == codes "exit") _ _ (run_steps-IsNoError steps utils) (
        continue_after-IsNoError (start_utility (start_cmd none) waited (a ∷ args) utils)
          (run_steps start_cmd waited format steps) (λ u. run_steps-IsNoError steps u))
    where
      go :
          (b : Bool) (x y : Option (Outcome (Unit {0}) × Utils))
          → IsNoError x
          → IsNoError y
          → IsNoError (if b then x else y)
      go true x y h k = h
      go false x y h k = k

module _ {V : Type 0} (sv : Semver V) ⦃files : SortSlice MigrationFile⦄
    ⦃folders : SortSlice (LocalVersionFolder V)⦄ (host : Host sv) (cfg : Config) where
  configured-IsNoError :
      (o : Option SupervisorConfig) (p : Option PlannerConfig) (steps : ExecutionSteps)
      (utils : Utils)
      → IsNoError (run_configured sv host cfg o p steps utils)
  configured-IsNoError none p steps utils = tt
  configured-IsNoError (some s) none steps utils = tt
  configured-IsNoError (some s) (some pc) steps utils =
      run_steps-IsNoError host.start_cmd host.waited pc.cypher_shell_format steps utils

  run_made-IsNoError :
      (steps : ExecutionSteps) (utils : Utils) → IsNoError (run_made sv host cfg false steps utils)
  run_made-IsNoError [] utils = tt
  run_made-IsNoError (s ∷ steps) utils =
      configured-IsNoError cfg.supervisor cfg.planner (s ∷ steps) utils

  end_update-error :
      (acquired r : Outcome (Unit {0})) (w : Wrapper) (m : String) (args : List Text)
      → (end_update acquired r w).0 ≡ fail m args
      → (r ≡ fail m args) ⊎ (acquired ≡ fail m args)
  unfolding end_update
  end_update-error (ok u) (ok v) w m args e = cc
  end_update-error (fail n ds) (ok v) w m args e = inr e
  end_update-error panic (ok v) w m args e = cc
  end_update-error acquired (fail n ds) w m args e = inl e
  end_update-error acquired panic w m args e = cc

  ended-error :
      (o : Option (Outcome (Unit {0}) × Utils)) (w w' : Wrapper) (after : Utils) (m : String)
      (args : List Text)
      → IsNoError o
      → ended sv host cfg o w ≡ some (fail m args, after, w')
      → host.last_acquired ≡ fail m args
  ended-error none w w' after m args h e = cc
  ended-error (some (r, utils)) w w' after m args h e =
      no_other r h
        (end_update-error host.last_acquired r w m args (ap (λ x. x.0) (some-injective e)))
    where
      no_other :
          (r : Outcome (Unit {0}))
          → IsNoError (some (r, utils))
          → (r ≡ fail m args) ⊎ (host.last_acquired ≡ fail m args)
          → host.last_acquired ≡ fail m args
      no_other r h (inr e) = e
      no_other (ok u) h (inl e) = cc
      no_other (fail n ds) h (inl e) = absurd h
      no_other panic h (inl e) = cc

  updated-error :
      (r : Outcome (Unit {0}) × Wrapper) (made : Outcome (Unit {0}) × ExecutionSteps)
      (utils after : Utils) (w' : Wrapper) (m : String) (args : List Text)
      → updated sv host cfg r utils (after_made sv host cfg made false utils)
        ≡ some (fail m args, after, w')
      → (r.0 ≡ fail m args) ⊎ (made.0 ≡ fail m args) ⊎ (host.last_acquired ≡ fail m args)
  unfolding end_update
  updated-error (fail m' args', w) made utils after w' m args h = inl (cc)
  updated-error (panic, w) made utils after w' m args h = cc
  updated-error (ok u, w) (fail m' args', steps) utils after w' m args h = inr (inl (cc))
  updated-error (ok u, w) (panic, steps) utils after w' m args h = cc
  updated-error (ok u, w) (ok v, steps) utils after w' m args h = inr (
      inr (
        ended-error (run_made sv host cfg false steps utils) w w' after m args
          (run_made-IsNoError steps utils) h))

  -- The error of an update that is no dry run is the one of its first check, that the semaphore is
  -- given and the service is running, the one of reading and planning, or the one of the semaphore
  -- at the end: never that a utility did not start or failed.
  pub update-errors :
      (target : Option (TargetVersion V)) (clean : Bool) (batch : Text) (utils after : Utils)
      (w w' : Wrapper) (m : String) (args : List Text)
      → update sv host cfg target false clean batch utils w ≡ some (fail m args, after, w')
      → ((set_updating host.first_acquired w).0 ≡ fail m args)
        ⊎ ((make_steps sv host cfg target clean batch []).0 ≡ fail m args)
        ⊎ (host.last_acquired ≡ fail m args)
  unfolding update update_body
  update-errors target clean batch utils after w w' m args h =
      updated-error (set_updating host.first_acquired w)
        (make_steps sv host cfg target clean batch []) utils after w' m args h

  -- An update of a running service whose first check gets the semaphore.
  pub update-begins :
      (target : Option (TargetVersion V)) (clean : Bool) (batch : Text) (utils : Utils)
      (w : Wrapper)
      → host.first_acquired ≡ ok tt
      → w.service_state ≡ running
      → update sv host cfg target false clean batch utils w
        ≡ ended sv host cfg
            (update_body sv host cfg target false clean batch utils)
            (record w { service_state = updating })
  unfolding update set_updating
  update-begins target clean batch utils w first e =
      ap
        (λ a.
          updated sv host cfg (set_updating a w) utils
            (update_body sv host cfg target false clean batch utils))
        first
      ∙ rw e refl

  -- The end of an update without an error that gets the semaphore.
  pub ended-ok :
      (utils : Utils) (w : Wrapper)
      → host.last_acquired ≡ ok tt
      → ended sv host cfg (some (ok tt, utils)) w
        ≡ some (ok tt, utils, record w { service_state = running })
  unfolding end_update
  ended-ok utils w last =
      ap (λ a. some ((set_state a running w).0, utils, (set_state a running w).1)) last

  -- From here on, steps that begin with Cypher, of a configuration with a planner and a supervisor,
  -- and a context that is not cancelled.
  module _ (pc : PlannerConfig) (s : SupervisorConfig) (target : Option (TargetVersion V))
      (clean : Bool) (batch : Text) (buffer : Text) (steps : ExecutionSteps)
      (has_planner : cfg.planner ≡ some pc) (has_supervisor : cfg.supervisor ≡ some s)
      (first : host.first_acquired ≡ ok tt) (last : host.last_acquired ≡ ok tt)
      (made : make_steps sv host cfg target clean batch []
        ≡ (ok tt, cypher_step buffer ∷ steps)) where
    body-first :
        (utils : Utils)
        → update_body sv host cfg target false clean batch utils
          ≡ continue_after
              (start_utility
                (host.start_cmd (some buffer))
                host.waited
                (cypher_shell pc.cypher_shell_format)
                utils)
              (run_steps host.start_cmd host.waited pc.cypher_shell_format steps)
    unfolding update_body run_steps
    body-first utils = rw (made, has_planner, has_supervisor) refl

    -- When the configuration has a planner and a supervisor, the semaphore is given, the mutex of
    -- the utilities is free and the first step is Cypher for which `cypher-shell` does not start, an
    -- update of a running service succeeds, the service runs on, and the next update of the same
    -- data waits for ever.
    pub update-blocks :
        (utils : Utils) (w : Wrapper) (m : String) (details : List Text)
        → utils.locked ≡ false
        → w.service_state ≡ running
        → host.start_cmd (some buffer) (cypher_shell pc.cypher_shell_format) ≡ fail m details
        → (after : Utils) × (update sv host cfg target false clean batch utils w
            ≡ some (ok tt, after, record w { service_state = running }))
          × (update sv host cfg target false clean batch after
                (record w { service_state = running })
              ≡ none)
    unfolding end_update
    update-blocks utils w m details free is_running failed =
        let (_, _, after, refused, blocked) =
          start_utility-blocks (host.start_cmd (some buffer)) host.waited (codes "cypher-shell")
            (codes "--fail-fast" ∷ codes "--format" ∷ pc.cypher_shell_format ∷ []) utils free
            (inr (m, details, failed)) in
        (
          after,
          update-begins target clean batch utils w first is_running
              ∙ ap (λ o. ended sv host cfg o (record w { service_state = updating }))
                  (body-first utils
                    ∙ ap
                        (λ o.
                          continue_after o
                            (run_steps host.start_cmd host.waited pc.cypher_shell_format steps))
                        refused)
              ∙ ended-ok after (record w { service_state = updating }) last,
          update-begins target clean batch after (record w { service_state = running }) first refl
              ∙ ap (λ o. ended sv host cfg o (record w { service_state = updating }))
                  (body-first after
                    ∙ ap
                        (λ o.
                          continue_after o
                            (run_steps host.start_cmd host.waited pc.cypher_shell_format steps))
                        (blocked.utilities _ _)),
        )
