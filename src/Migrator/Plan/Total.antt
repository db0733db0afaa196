-- ===== src/Migrator/Plan/Total.antt =====
-- When `Plan` comes to a plan, and when it refuses.
use mathlib.Core.List.Permᴰ
use neo4j_graph_tool_core.Base.{
  Text, text_keys, Option, none, some, List, [], ◌∷◌, true, false, ◌≡◌, refl, ◌∙◌, ◌↔◌, is_empty,
  All, Outcome, ok, sym, inl, inr, Bool-cases,
}
use neo4j_graph_tool_core.Base.Dict.{lookup, has}
use neo4j_graph_tool_core.Base.InOrder.{All-Permᴰ, is_empty-Permᴰ}
use neo4j_graph_tool_core.Base.Sort.{SortSlice, IsSorted}
use neo4j_graph_tool_core.Semver.{Semver, IsSemver}
use neo4j_graph_tool_core.Config.Defs.{PlannerConfig, SchemaFolder}
use neo4j_graph_tool_core.Migrator.Files.{
  MigrationFile, MigrationScripts, add, LocalVersionFolder, LocalFolders, TargetVersion,
  sort_by_version, older,
}
use neo4j_graph_tool_core.Migrator.Database.{DatabaseModel}
use neo4j_graph_tool_core.Migrator.Plan.Folder.{Target, effective_target, plan_folder}
use neo4j_graph_tool_core.Migrator.Plan.Versions.{
  Planner, VersionPlan, batch_folders, append_plan, next_plan, plan_version, plan_versions,
  beyond_last, usable_snapshot, version_files, add_batch_folders, collect,
}
use neo4j_graph_tool_core.Migrator.Plan.Order.{older_order}

-- The scanner gives every version a schema folder.
abbrev pub HasSchema : {V : Type 0} → LocalVersionFolder V → Type 0
HasSchema lf = has lf.schema_folder ≡ true

add-some :
    (ms : MigrationScripts) (extra : Option MigrationScripts)
    → (ms' : MigrationScripts) × (add (some ms) extra ≡ ok (some ms'))
unfolding add
add-some ms none = (ms, refl)
add-some ms (some extra) = (_, refl)

module _ {V : Type 0} (sv : Semver V) (db : DatabaseModel V) (target : Option (Target V)) where
  add_batch_folders_total :
      (lf : LocalVersionFolder V) (bfs : List Text) (ms : MigrationScripts)
      → (ms' : Option MigrationScripts) × (add_batch_folders sv lf db target bfs (some ms) ≡ ok ms')
  unfolding add_batch_folders
  add_batch_folders_total lf [] ms = (some ms, refl)
  add_batch_folders_total lf (bf ∷ bfs) ms =
      let (ms', e) =
        add-some ms (plan_folder sv bf lf.version (lookup bf lf.extra_folders) db target) in
      let (r, q) = add_batch_folders_total lf bfs ms' in (r, rw e q)

  version_files_total :
      (schema : Text) (bfs : List Text) (lf : LocalVersionFolder V)
      → HasSchema lf
      → (ms : Option MigrationScripts) × (version_files sv schema bfs lf db target ≡ ok ms)
  unfolding version_files
  version_files_total schema bfs lf h = go lf.schema_folder h
    where
      go :
          (s : Option MigrationScripts)
          → has s ≡ true
          → (ms : Option MigrationScripts) × (add_batch_folders sv lf db target bfs
                (plan_folder sv schema lf.version s db target)
              ≡ ok ms)
      go none h = cc
      go (some s) h = unfold plan_folder in add_batch_folders_total lf bfs _

  next_plan_total :
      (plan : List (VersionPlan V)) (version : V) (snapshot : Option MigrationFile)
      (files : Outcome (Option MigrationScripts))
      → ((ms : Option MigrationScripts) × (files ≡ ok ms))
      → (next : List (VersionPlan V)) × (next_plan plan version snapshot files ≡ ok next)
  next_plan_total plan version (some snapshot) files h = (_, refl)
  next_plan_total plan version none files (ms, e) = (append_plan plan version ms, rw e)

  plan_versions_total :
      (schema batch : Text) (bfs : List Text) (plan : List (VersionPlan V)) (lfs : LocalFolders V)
      → All HasSchema lfs
      → (vps : List (VersionPlan V)) × (plan_versions sv schema batch bfs db target plan lfs
          ≡ ok vps)
  unfolding plan_versions plan_version
  plan_versions_total schema batch bfs plan [] h = (plan, refl)
  plan_versions_total schema batch bfs plan (lf ∷ lfs) h =
      let (next, e) =
        next_plan_total plan lf.version (usable_snapshot sv lf db target batch) _
          (version_files_total schema bfs lf h.0) in
      let (vps, q) = plan_versions_total schema batch bfs next lfs h.1 in (vps, rw e q)

module _ {V : Type 0} (sv : Semver V) where
  abbrev pub AllBelow : V → LocalFolders V → Type 0
  AllBelow t = All (λ lf. sv.less_than lf.version t ≡ true)

module _ {V : Type 0} (sv : Semver V) (law : IsSemver sv)
    ⦃folders : SortSlice (LocalVersionFolder V)⦄ where
  -- A version of the same rank as, or below, one that is below the target is below it too.
  below_through :
      (a b t : V) → sv.less_than b a ≡ false → sv.less_than b t ≡ true → sv.less_than a t ≡ true
  below_through a b t h k = elim (Bool-cases (sv.less_than a t)) [
    | inl l ↦ l
    | inr l ↦ cc (k, law.order.co_trans t a b l h)
  ]

  beyond_last-AllBelow :
      (lfs : LocalFolders V) (t : Target V)
      → IsSorted (older sv) lfs
      → beyond_last sv lfs (some t) ≡ true
      → AllBelow sv t.version lfs
  unfolding beyond_last
  beyond_last-AllBelow [] t s h = tt
  beyond_last-AllBelow (lf ∷ []) t s h = (h, tt)
  beyond_last-AllBelow (lf ∷ lg ∷ lfs) t s h =
      let rest = beyond_last-AllBelow (lg ∷ lfs) t s.1 h in
      (below_through lf.version lg.version t.version s.0.0 rest.0, rest)

  AllBelow-beyond_last :
      (lfs : LocalFolders V) (t : Target V)
      → is_empty lfs ≡ false
      → AllBelow sv t.version lfs
      → beyond_last sv lfs (some t) ≡ true
  unfolding beyond_last
  AllBelow-beyond_last [] t n h = cc
  AllBelow-beyond_last (lf ∷ []) t n h = h.0
  AllBelow-beyond_last (lf ∷ lg ∷ lfs) t n h = AllBelow-beyond_last (lg ∷ lfs) t refl h.1

  -- A target is refused exactly when there are local versions and all of them are below it.
  pub beyond_last_iff :
      (lfs : LocalFolders V) (t : Target V)
      → (beyond_last sv (sort_by_version sv lfs) (some t) ≡ true)
        ↔ ((is_empty lfs ≡ false) × AllBelow sv t.version lfs)
  unfolding sort_by_version
  beyond_last_iff lfs t =
      let sorted = folders.sort (older sv) lfs in
      let perm = folders.sort_perm (older sv) lfs in
      (
        λ h. (
          sym (is_empty-Permᴰ perm) ∙ not_empty sorted h,
          All-Permᴰ _ perm (
              beyond_last-AllBelow sorted t
                (folders.sort-IsSorted (older sv) (older_order sv law) lfs) h),
        ),
        λ h.
            AllBelow-beyond_last sorted t (is_empty-Permᴰ perm ∙ h.0)
              (All-Permᴰ _ (Permᴰ.symm perm) h.1),
      )
    where
      not_empty :
          (sorted : LocalFolders V)
          → beyond_last sv sorted (some t) ≡ true
          → is_empty sorted ≡ false
      not_empty [] h = unfold beyond_last in cc
      not_empty (lf ∷ sorted) h = refl

  -- With the structure that `NewPlanner` checks, a known batch, a schema folder for each version and
  -- a target that is not refused, there is a plan.
  pub collect_total :
      (planner : Planner) (lfs : LocalFolders V) (db : DatabaseModel V)
      (target : Option (TargetVersion V)) (batch : Text) (p : PlannerConfig) (schema : SchemaFolder)
      (bfs : List Text)
      → planner.config.planner ≡ some p
      → p.schema_folder ≡ some schema
      → batch_folders p batch ≡ ok bfs
      → beyond_last sv (sort_by_version sv lfs) (effective_target target) ≡ false
      → All HasSchema lfs
      → (vps : List (VersionPlan V)) × (collect sv planner lfs db target batch ≡ ok vps)
  unfolding collect
  collect_total planner lfs db target batch p schema bfs c s b w h =
      let sorted = sort_by_version sv lfs in
      let all = All-Permᴰ HasSchema (Permᴰ.symm (folders.sort_perm (older sv) lfs)) h in
      let (vps, e) =
        plan_versions_total sv db (effective_target target) schema.folder_name batch bfs [] sorted
          (unfold sort_by_version in all) in
      (vps, rw (c, b, w, s) e)
