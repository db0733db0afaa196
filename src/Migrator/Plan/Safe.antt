-- ===== src/Migrator/Plan/Safe.antt =====
-- A planner that `NewPlanner` returned does not panic on what the scanner returns.
use neo4j_graph_tool_core.Base.{
  Text, text_keys, Option, none, some, List, Bool, true, false, ◌≡◌, ◌≢◌, refl, subst, All, Outcome,
  ok, not, [], ◌∷◌, refuse_if, fail, panic, >>=-eq-ok, ok-injective, ◌⊎◌, inl, inr, if◌then◌else◌,
  ◌==◌, Bool-cases,
}
use neo4j_graph_tool_core.Base.Dict.{lookup, has}
use neo4j_graph_tool_core.Base.Sort.{SortSlice}
use neo4j_graph_tool_core.Semver.{Semver, IsSemver}
use neo4j_graph_tool_core.Config.Defs.{
  Config, PlannerConfig, SchemaFolder, BatchDetail, schema_name,
}
use neo4j_graph_tool_core.Config.Validate.{
  validate, validate_structure, planner_structure, values_of,
}
use neo4j_graph_tool_core.Migrator.Files.{
  LocalVersionFolder, LocalFolders, TargetVersion, sort_by_version,
}
use neo4j_graph_tool_core.Migrator.Database.{DatabaseModel}
use neo4j_graph_tool_core.Migrator.Plan.Folder.{effective_target}
use neo4j_graph_tool_core.Migrator.Plan.Versions.{
  Planner, VersionPlan, new_planner, batch_folders, folders_of_batch, target_args, beyond_last,
  collect,
}
use neo4j_graph_tool_core.Migrator.Plan.Total.{HasSchema, collect_total}

-- The pointers that every method dereferences.
abbrev pub HasStructure : Config → Type 0
HasStructure c =
    (p : PlannerConfig) × (schema : SchemaFolder) × (c.planner ≡ some p)
    × (p.schema_folder ≡ some schema)

planner_structure-eq-ok :
    (o : Option PlannerConfig)
    → planner_structure o ≡ ok tt
    → (p : PlannerConfig) × (schema : SchemaFolder) × (o ≡ some p) × (p.schema_folder ≡ some schema)
planner_structure-eq-ok none h = cc
planner_structure-eq-ok (some p) h = go p.schema_folder refl h
  where
    go :
        (s : Option SchemaFolder)
        → p.schema_folder ≡ s
        → refuse_if (not (has s)) "missing config.Planner.SchemaFolder" [] ≡ ok tt
        → (q : PlannerConfig) × (schema : SchemaFolder) × (some p ≡ some q)
          × (q.schema_folder ≡ some schema)
    go none e h = cc
    go (some schema) e h = (p, schema, refl, e)

module _ {V : Type 0} (sv : Semver V) where
  validate-HasStructure : (c : Config) → validate sv (some c) ≡ ok tt → HasStructure c
  unfolding validate validate_structure
  validate-HasStructure c h =
      let (_, e, _) =
        >>=-eq-ok (validate_structure false (some c)) (λ _. values_of sv (some c)) h in
      planner_structure-eq-ok c.planner e

  pub new_planner-HasStructure :
      (cfg : Option Config) {planner : Planner}
      → new_planner sv cfg ≡ ok planner
      → HasStructure planner.config
  unfolding new_planner
  new_planner-HasStructure none h = unfold validate validate_structure in cc
  new_planner-HasStructure (some c) h =
      let made : Outcome Planner = ok (record { config = c }) in
      let (_, valid, e) = >>=-eq-ok (validate sv (some c)) (λ _. made) h in
      subst (λ (q : Planner). HasStructure q.config) (ok-injective e)
        (validate-HasStructure c valid)

not_panic : {A : Type 0} (r : Outcome A) → ((a : A) × (r ≡ ok a)) → r ≢ panic
not_panic r (a, e) h = cc

module _ {V : Type 0} (sv : Semver V) (law : IsSemver sv)
    ⦃folders : SortSlice (LocalVersionFolder V)⦄ where
  batch_folders-cases :
      (p : PlannerConfig) (batch : Text)
      → ((bfs : List Text) × (batch_folders p batch ≡ ok bfs))
        ⊎ (batch_folders p batch ≡ fail "unknown batch name '%s'" (batch ∷ []))
  unfolding batch_folders
  batch_folders-cases p batch = go (batch == schema_name) (lookup batch p.batches)
    where
      go :
          (b : Bool) (o : Option (Option BatchDetail))
          → let r = if b then ok [] else folders_of_batch o batch in
            ((bfs : List Text) × (r ≡ ok bfs)) ⊎ (r ≡ fail "unknown batch name '%s'" (batch ∷ []))
      go true o = inl ([], refl)
      go false (some (some d)) = inl (d.folders, refl)
      go false (some none) = inr refl
      go false none = inr refl

  -- A planner that `NewPlanner` accepted, on versions that each have a schema folder, comes to a
  -- plan, or to one of its two errors: an unknown batch, or a target beyond every local version.
  pub collect-outcomes :
      (cfg : Option Config) (planner : Planner) (lfs : LocalFolders V) (db : DatabaseModel V)
      (target : Option (TargetVersion V)) (batch : Text)
      → new_planner sv cfg ≡ ok planner
      → All HasSchema lfs
      → let r = collect sv planner lfs db target batch in
        ((vps : List (VersionPlan V)) × (r ≡ ok vps))
        ⊎ ((r ≡ fail "unknown batch name '%s'" (batch ∷ []))
            ⊎ (r
                ≡ fail "specified target %s version does not exist"
                    (target_args sv (effective_target target))))
  collect-outcomes cfg planner lfs db target batch new h =
      let (p, schema, c, s) = new_planner-HasStructure sv cfg new in
      elim (batch_folders-cases p batch) [
        | inr unknown ↦ inr (inl (unfold collect in rw (c, unknown)))
        | inl (bfs, b) ↦
            elim (Bool-cases (beyond_last sv (sort_by_version sv lfs) (effective_target target))) [
              | inl beyond ↦ inr (inr (unfold collect in rw (c, b, beyond)))
              | inr within ↦
                  inl (collect_total sv law planner lfs db target batch p schema bfs c s b within h)
            ]
      ]
