-- ===== src/Migrator/Plan/Parts.antt =====
-- What a successful run of the steps of `Plan` says of each step.
use Prim.Native.String.{String}
use neo4j_graph_tool_core.Base.{
  Text, Option, none, some, List, [], ◌∷◌, Bool, true, false, ◌≡◌, refl, ok, deref, refuse_if,
  >>=-eq-ok, ok-injective,
}
use neo4j_graph_tool_core.Base.Result.{◌>>=◌}
use neo4j_graph_tool_core.Base.Sort.{SortSlice}
use neo4j_graph_tool_core.Semver.{Semver}
use neo4j_graph_tool_core.Config.Defs.{PlannerConfig, SchemaFolder}
use neo4j_graph_tool_core.Migrator.Files.{
  LocalVersionFolder, LocalFolders, TargetVersion, sort_by_version,
}
use neo4j_graph_tool_core.Migrator.Database.{DatabaseModel}
use neo4j_graph_tool_core.Migrator.Plan.Folder.{Target, effective_target}
use neo4j_graph_tool_core.Migrator.Plan.Versions.{
  Planner, VersionPlan, batch_folders, plan_version, plan_versions, beyond_last, plan_sorted,
  plan_batch, collect,
}

deref-eq-ok : {A : Type 0} (o : Option A) {a : A} → deref o ≡ ok a → o ≡ some a
deref-eq-ok (some b) h = cc
deref-eq-ok none h = cc

refuse_if-eq-ok :
    (b : Bool) (m : String) (args : List Text) → refuse_if b m args ≡ ok tt → b ≡ false
refuse_if-eq-ok true m args h = cc
refuse_if-eq-ok false m args h = refl

module _ {V : Type 0} (sv : Semver V) where
  module _ (schema batch : Text) (bfs : List Text) (db : DatabaseModel V)
      (target : Option (Target V)) where
    pub plan_versions_done :
        (plan : List (VersionPlan V)) {vps : List (VersionPlan V)}
        → plan_versions sv schema batch bfs db target plan [] ≡ ok vps
        → plan ≡ vps
    unfolding plan_versions
    plan_versions_done plan h = ok-injective h

    pub plan_versions_step :
        (plan : List (VersionPlan V)) (lf : LocalVersionFolder V) (lfs : LocalFolders V)
        {vps : List (VersionPlan V)}
        → plan_versions sv schema batch bfs db target plan (lf ∷ lfs) ≡ ok vps
        → (next : List (VersionPlan V)) × (plan_version sv schema batch bfs db target plan lf
            ≡ ok next)
          × (plan_versions sv schema batch bfs db target next lfs ≡ ok vps)
    unfolding plan_versions
    plan_versions_step plan lf lfs h =
        >>=-eq-ok (plan_version sv schema batch bfs db target plan lf)
          (λ next. plan_versions sv schema batch bfs db target next lfs) h

module _ {V : Type 0} (sv : Semver V) ⦃folders : SortSlice (LocalVersionFolder V)⦄ where
  pub record Collected (planner : Planner) (lfs : LocalFolders V) (db : DatabaseModel V)
      (target : Option (TargetVersion V)) (batch : Text) (vps : List (VersionPlan V)) : Type 0 where
    pub config : PlannerConfig
    pub bfs : List Text
    pub schema : SchemaFolder
    pub config_is : planner.config.planner ≡ some config
    pub batch_is : batch_folders config batch ≡ ok bfs
    pub within : beyond_last sv (sort_by_version sv lfs) (effective_target target) ≡ false
    pub schema_is : config.schema_folder ≡ some schema
    pub versions_are :
        plan_versions sv schema.folder_name batch bfs db
          (effective_target target)
          []
          (sort_by_version sv lfs)
        ≡ ok vps

  pub collect_parts :
      (planner : Planner) (lfs : LocalFolders V) (db : DatabaseModel V)
      (target : Option (TargetVersion V)) (batch : Text) {vps : List (VersionPlan V)}
      → collect sv planner lfs db target batch ≡ ok vps
      → Collected planner lfs db target batch vps
  unfolding collect
  collect_parts planner lfs db target batch h =
      let (p, e₁, h₁) =
        >>=-eq-ok (deref planner.config.planner) (plan_batch sv lfs db target batch) h in
      let (bfs, e₂, h₂) =
        >>=-eq-ok (batch_folders p batch)
          (plan_sorted sv p batch db (effective_target target) (sort_by_version sv lfs)) h₁ in
      let (u, e₃, h₃) = >>=-eq-ok (refuse_if _ _ _) (λ _. deref p.schema_folder >>= _) h₂ in
      let (schema, e₄, h₄) = >>=-eq-ok (deref p.schema_folder) _ h₃ in
      record {
        config = p;
        bfs = bfs;
        schema = schema;
        config_is = deref-eq-ok _ e₁;
        batch_is = e₂;
        within = refuse_if-eq-ok _ _ _ e₃;
        schema_is = deref-eq-ok _ e₄;
        versions_are = h₄;
      }
