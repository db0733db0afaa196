-- ===== src/Supervisor/Http/Answers.antt =====
-- What the answers of the handlers tell.
use neo4j_graph_tool_core.Base.{
  ℕ, codes, text_keys, Option, none, some, [], Bool, ◌≡◌, ◌↔◌, refl, arith, Outcome, ok, fail,
  panic,
}
use mathlib.Core.Option.{some-ne-none}
use neo4j_graph_tool_core.Base.Dict.{lookup}
use neo4j_graph_tool_core.Base.Sort.{SortSlice}
use neo4j_graph_tool_core.Semver.{Semver}
use neo4j_graph_tool_core.Config.Defs.{Config}
use neo4j_graph_tool_core.Migrator.Files.{MigrationFile, LocalVersionFolder, TargetVersion}
use neo4j_graph_tool_core.Supervisor.Wrapper.{Wrapper, start, start_unless, set_updating}
use neo4j_graph_tool_core.Supervisor.Utility.{Utils}
use neo4j_graph_tool_core.Supervisor.Update.{Host, make_steps}
use neo4j_graph_tool_core.Supervisor.Http.{
  Answer, start_service_handler, answered, Server, Request, parse_target_params, or_default,
}

-- The code of an answer, if there is one.
abbrev pub HasCode : {V : Type 0} → ℕ → Option (Answer V) → Type 0
HasCode c none = ⊥
HasCode c (some a) = a.code ≡ c

abbrev pub Starts : Outcome ℕ → Wrapper → Type 0
Starts start_cmd w = (w.service_cmd ≡ none) × ((process : ℕ) × (start_cmd ≡ ok process))

module _ (V : Type 0) where
  start_cases :
      (c : Option ℕ) (start_cmd : Outcome ℕ) (w : Wrapper)
      → HasCode {V = V} 200
          (answered
            (codes "Service successfully dispatched for starting")
            (ok tt)
            (start_unless c start_cmd w)).0
        ↔ ((c ≡ none) × ((process : ℕ) × (start_cmd ≡ ok process)))
  start_cases (some p) start_cmd w =
      (λ h. absurd (omega (arith, h)), λ h. absurd (some-ne-none p h.0))
  start_cases none (ok p) w = (λ h. (refl, (p, refl)), λ h. refl)
  start_cases none (fail m args) w = (λ h. absurd (omega (arith, h)), λ h. cc)
  start_cases none panic w = (λ h. absurd h, λ h. cc)

  -- With the semaphore free, a request to start is answered with 200 exactly when the service has
  -- no process and the process starts.
  pub start_service_handler-accepts :
      (start_cmd : Outcome ℕ) (w : Wrapper)
      → HasCode {V = V} 200 (start_service_handler (ok tt) start_cmd w).0 ↔ Starts start_cmd w
  unfolding start_service_handler start
  start_service_handler-accepts start_cmd w = start_cases w.service_cmd start_cmd w

-- The code that a request for data is answered with, and 0 when there is no answer.
abbrev pub code_of : {V : Type 0} → Option (Option (Answer V) × Utils × Wrapper) → ℕ
code_of (some (some a, utils, w)) = a.code
code_of _ = 0

module _ {V : Type 0} (sv : Semver V) ⦃files : SortSlice MigrationFile⦄
    ⦃folders : SortSlice (LocalVersionFolder V)⦄ (host : Host sv) (cfg : Config) where
  -- What stands behind the answer 200 to a request for data.
  abbrev pub IsAccepted : Server V → Bool → Request → Wrapper → Type 0
  IsAccepted s clean r w =
      (target : Option (TargetVersion V)) × (parse_target_params sv s r ≡ ok target)
      × ((set_updating host.first_acquired w).0 ≡ ok tt)
      × ((make_steps sv host cfg target clean
            (or_default s.default_batch (lookup (codes "batch") r.query)) []).0
          ≡ ok tt)
