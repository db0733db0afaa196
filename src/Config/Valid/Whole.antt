-- ===== src/Config/Valid/Whole.antt =====
-- `Validate` of config/config.go accepts the valid configurations.
use neo4j_graph_tool_core.Base.{
  text_keys, Option, none, some, [], not, ◌≡◌, ◌↔◌, refl, ap, ◌∙◌, Outcome, ok, deref, >>=-eq-ok,
  refuse_if,
}
use neo4j_graph_tool_core.Base.Dict.{has}
use neo4j_graph_tool_core.Base.Result.{◌>>=◌, ◌>>◌}
use neo4j_graph_tool_core.Semver.{Semver}
use neo4j_graph_tool_core.Config.Defs.{Config, PlannerConfig, SchemaFolder, SupervisorConfig}
use neo4j_graph_tool_core.Config.Validate.{
  validate_structure, planner_structure, validate_supervisor, validate_planner,
  validate_folders_and_batches, validate_values, validate,
}
use neo4j_graph_tool_core.Config.Normal.{deref-eq-ok}
use neo4j_graph_tool_core.Config.Valid.{IsValidPlanner, IsValidConfig, AllowsSupervisor}
use neo4j_graph_tool_core.Config.Valid.Supervisor.{validate_supervisor_iff}
use neo4j_graph_tool_core.Config.Valid.Checks.{both_iff}
use neo4j_graph_tool_core.Config.Valid.Planner.{validate_planner_iff}
use neo4j_graph_tool_core.Config.Valid.Folders.{validate_folders_and_batches_iff}

pub planner_checks_iff :
    (p : PlannerConfig) (sf : SchemaFolder)
    → ((validate_planner p sf >> validate_folders_and_batches p sf) ≡ ok tt) ↔ IsValidPlanner p sf
planner_checks_iff p sf =
    let step = both_iff _ _ (validate_planner_iff p sf) (validate_folders_and_batches_iff p sf) in
    (
      λ h.
          let ((base, (free, (name, (kind, (labels, options))))), folders) = step.0 h in
          record {
            base_folder = base;
            no_schema_batch = free;
            schema = (name, (kind, labels));
            options = options;
            folders = folders;
          },
      λ v. step.1 (
        (
          v.base_folder,
          (v.no_schema_batch, (v.schema.0, (v.schema.1.0, (v.schema.1.1, v.options)))),
        ),
        v.folders,
      ),
    )

in_a_row : (m k : Outcome (Unit {0})) → m ≡ ok tt → k ≡ ok tt → (m >> k) ≡ ok tt
in_a_row m k h h' = rw h h'

module _ {V : Type 0} (sv : Semver V) where
  supervisor_part_iff :
      (p : PlannerConfig) (s : Option SupervisorConfig)
      → (validate_supervisor sv (some p) s ≡ ok tt) ↔ AllowsSupervisor sv p s
  unfolding validate_supervisor
  supervisor_part_iff p none = (λ h. tt, λ h. refl)
  supervisor_part_iff p (some s) = validate_supervisor_iff sv p s

  abbrev checks : PlannerConfig → SchemaFolder → Outcome (Unit {0})
  checks p sf = validate_planner p sf >> validate_folders_and_batches p sf

  abbrev checks_with : Option PlannerConfig → Option SupervisorConfig → Outcome (Unit {0})
  checks_with o s =
      planner_structure o
      >> (validate_supervisor sv o s >> (deref o >>= λ p. deref p.schema_folder >>= checks p))

  checks_with-IsValidConfig :
      (c : Config) (o : Option PlannerConfig)
      → c.planner ≡ o
      → checks_with o c.supervisor ≡ ok tt
      → IsValidConfig sv c
  checks_with-IsValidConfig c none e h = cc
  checks_with-IsValidConfig c (some p) e h =
      let (_, _, h1) = >>=-eq-ok (planner_structure (some p)) _ h in
      let (_, supervised, h2) = >>=-eq-ok (validate_supervisor sv (some p) c.supervisor) _ h1 in
      let (sf, s, h3) = >>=-eq-ok (deref p.schema_folder) (checks p) h2 in
      record {
        planner = p;
        schema = sf;
        has_planner = e;
        has_schema = deref-eq-ok p.schema_folder s;
        valid_supervisor = (supervisor_part_iff p c.supervisor).0 supervised;
        valid_planner = (planner_checks_iff p sf).0 h3;
      }

  IsValidConfig-checks_with :
      (c : Config) → IsValidConfig sv c → checks_with c.planner c.supervisor ≡ ok tt
  IsValidConfig-checks_with c v =
      ap (λ o. checks_with o c.supervisor) v.has_planner
      ∙ in_a_row (planner_structure (some v.planner)) _
          (ap (λ o. refuse_if (not (has o)) "missing config.Planner.SchemaFolder" []) v.has_schema)
          (in_a_row (validate_supervisor sv (some v.planner) c.supervisor) _
            ((supervisor_part_iff v.planner c.supervisor).1 v.valid_supervisor)
            (ap (λ o. deref o >>= checks v.planner) v.has_schema
              ∙ (planner_checks_iff v.planner v.schema).1 v.valid_planner))

  -- `Validate` accepts exactly the valid configurations.
  pub validate_iff : (c : Config) → (validate sv (some c) ≡ ok tt) ↔ IsValidConfig sv c
  unfolding validate validate_structure validate_values
  validate_iff c = (checks_with-IsValidConfig c c.planner refl, IsValidConfig-checks_with c)
