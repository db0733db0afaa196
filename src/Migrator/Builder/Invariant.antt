-- ===== src/Migrator/Builder/Invariant.antt =====
-- Invariants of the steps in a plan that `Plan` makes with the builder of `CreateBuilder`.
use neo4j_graph_tool_core.Base.{
  Text, codes, Option, none, some, List, [], ◌∷◌, Bool, true, false, ◌≡◌, refl, subst, Outcome,
  deref, if◌then◌else◌,
}
use neo4j_graph_tool_core.Base.Sort.{SortSlice}
use mathlib.Core.List.{reverse}
use neo4j_graph_tool_core.Base.Monad.{lift, ◌>>=◌, ◌>>◌}
use neo4j_graph_tool_core.Base.Monad.Keeps.{
  Keeps, Keeps-lift, Keeps-modify, Keeps->>=, Keeps->>, Keeps-for_each,
}
use neo4j_graph_tool_core.Semver.{Semver}
use neo4j_graph_tool_core.Config.Defs.{PlannerConfig}
use neo4j_graph_tool_core.Migrator.Files.{
  MigrationFile, FileType, cypher, command, LocalVersionFolder, LocalFolders, TargetVersion,
  sort_up_files, sort_down_files,
}
use neo4j_graph_tool_core.Migrator.Database.{DatabaseModel}
use neo4j_graph_tool_core.Migrator.Plan.Versions.{Planner, VersionPlan, collect}
use neo4j_graph_tool_core.Migrator.Plan.Run.{Builder, run_up, run_down, run_plan, plan}
use neo4j_graph_tool_core.Migrator.Steps.{
  ExecutionSteps, command_step, add_cypher, add_command_step,
}
use neo4j_graph_tool_core.Migrator.Command.{add_command}
use neo4j_graph_tool_core.Migrator.Allowed.{IsAllowed, add_command-Keeps}
use neo4j_graph_tool_core.Migrator.Builder.{
  add, add_content, add_record, add_ending, create_builder, node_labels,
}

module _ {V : Type 0} {P : ExecutionSteps → Type 0} ⦃files : SortSlice MigrationFile⦄ where
  -- An invariant of the builder is one of the whole run.
  run_plan-Keeps :
      (builder : Builder ExecutionSteps V) (vps : List (VersionPlan V))
      → ((cf : MigrationFile) (v : V) → Keeps P (builder cf v))
      → Keeps P (run_plan builder vps)
  unfolding run_plan
  run_plan-Keeps builder vps h =
      Keeps->> _ _
        (Keeps-for_each (run_up builder) vps
          λ vp. Keeps-for_each _ (sort_up_files vp.scripts).up λ mf. h mf vp.version)
        (Keeps-for_each (run_down builder) (reverse vps)
          λ vp. Keeps-for_each _ (sort_down_files vp.scripts).down λ mf. h mf vp.version)

module _ {V : Type 0} (sv : Semver V) (read_file : Text → Outcome Text)
    (absolute : Text → Outcome Text) (planner : Planner) (abs : Bool) {P : ExecutionSteps → Type 0}
    (text_keeps : (cs : List Text) (steps : ExecutionSteps)
      → P steps
      → P (add_cypher cs steps)) where
  add-Keeps : (cs : List Text) → Keeps P (add cs)
  add-Keeps cs = Keeps-modify (add_cypher cs) (text_keeps cs)

  add_content-Keeps :
      (p : PlannerConfig) (t : FileType) (path : Text)
      → ((path : Text) → Keeps P (add_command read_file p.allowed_commands path))
      → Keeps P (add_content sv read_file absolute planner abs p t path)
  unfolding add_content
  add_content-Keeps p command path h = h path
  add_content-Keeps p cypher path h =
      Keeps->> _ _ (add-Keeps _)
        (Keeps->>= _ _ (Keeps-lift _) λ fp. Keeps->> _ _ (add-Keeps _) (add-Keeps _))

  add_record-Keeps :
      (labels : List Text) (cf : MigrationFile) (v : V)
      → Keeps P (add_record sv read_file absolute planner abs labels cf v)
  unfolding add_record
  add_record-Keeps [] cf v = Keeps-lift _
  add_record-Keeps (l ∷ labels) cf v =
      Keeps->> _ _ (add-Keeps _)
        (Keeps->> _ _ (add-Keeps _) (Keeps->> _ _ (add-Keeps _) (add-Keeps _)))

  add_ending-Keeps :
      (p : PlannerConfig) (cf : MigrationFile) (v : V)
      → Keeps P (add_ending sv read_file absolute planner abs p cf v)
  unfolding add_ending
  add_ending-Keeps p cf v = go cf.is_snapshot
    where
      go :
          (b : Bool)
          → Keeps P (
              if b
              then add (codes "\n" ∷ [])
              else lift (deref p.schema_folder) >>= λ schema.
                  add_record sv read_file absolute planner abs
                    (node_labels p schema cf.folder_name)
                    cf
                    v)
      go true = add-Keeps _
      go false =
          Keeps->>= _ _ (Keeps-lift _)
            λ schema. add_record-Keeps (node_labels p schema cf.folder_name) cf v

  -- What every `AddCypher` and the commands of the configuration keep, the builder keeps.
  create_builder-Keeps :
      ((p : PlannerConfig)
        → planner.config.planner ≡ some p
        → (path : Text) → Keeps P (add_command read_file p.allowed_commands path))
      → (cf : MigrationFile) (v : V)
      → Keeps P (create_builder sv read_file absolute planner abs cf v)
  unfolding create_builder
  create_builder-Keeps h cf v = Keeps->> _ _ (add-Keeps _) (go planner.config.planner h)
    where
      go :
          (o : Option PlannerConfig)
          → ((p : PlannerConfig)
              → o ≡ some p
              → (path : Text) → Keeps P (add_command read_file p.allowed_commands path))
          → Keeps P (
              lift (deref o) >>= λ p.
              add_content sv read_file absolute planner abs p cf.file_type cf.path
              >> add_ending sv read_file absolute planner abs p cf v)
      go none h = record { after = λ s k. k }
      go (some p) h =
          let both =
            Keeps->> _ _ (add_content-Keeps p cf.file_type cf.path (h p refl))
              (add_ending-Keeps p cf v) in
          record { after = λ s k. both.after s k }

module _ {V : Type 0} (sv : Semver V) (read_file : Text → Outcome Text)
    (absolute : Text → Outcome Text) (planner : Planner) (abs : Bool)
    ⦃files : SortSlice MigrationFile⦄ ⦃folders : SortSlice (LocalVersionFolder V)⦄ where
  plan-Keeps :
      {P : ExecutionSteps → Type 0} (lfs : LocalFolders V) (db : DatabaseModel V)
      (target : Option (TargetVersion V)) (batch : Text)
      → ((cf : MigrationFile) (v : V)
          → Keeps P (create_builder sv read_file absolute planner abs cf v))
      → Keeps P
          (plan sv planner lfs db target batch (create_builder sv read_file absolute planner abs))
  unfolding plan
  plan-Keeps lfs db target batch h =
      Keeps->>= _ _ (Keeps-lift (collect sv planner lfs db target batch))
        λ vps. run_plan-Keeps _ vps h

  -- What adding texts and adding permitted commands keep, the whole of `Plan` keeps.
  pub plan-invariant :
      (P : ExecutionSteps → Type 0) (p : PlannerConfig) (lfs : LocalFolders V)
      (db : DatabaseModel V) (target : Option (TargetVersion V)) (batch : Text)
      → planner.config.planner ≡ some p
      → ((cs : List Text) (steps : ExecutionSteps) → P steps → P (add_cypher cs steps))
      → ((args : List Text) (steps : ExecutionSteps)
          → IsAllowed p.allowed_commands (command_step args)
          → P steps
          → P (add_command_step args steps))
      → Keeps P
          (plan sv planner lfs db target batch (create_builder sv read_file absolute planner abs))
  plan-invariant P p lfs db target batch c text_keeps command_keeps =
      plan-Keeps lfs db target batch (
        create_builder-Keeps sv read_file absolute planner abs text_keeps λ q d path.
          let same : p ≡ q = cc in
          subst (λ (r : PlannerConfig). Keeps P (add_command read_file r.allowed_commands path))
            same (add_command-Keeps p.allowed_commands command_keeps read_file path))
