-- ===== src/Migrator/Plan/Order.antt =====
-- The order in which the builder is called.
use mathlib.Core.List.{reverse}
use mathlib.Core.List.Permᴰ
use neo4j_graph_tool_core.Base.{
  Text, Option, none, some, List, [], ◌∷◌, ◌++◌, Bool, true, false, ◌≡◌, refl, ◌⊎◌, inl, inr, arith,
  All, All-monotone, All-append, Ordered, Outcome, ok, >>=-eq-ok, ok-injective, subst,
  if◌then◌else◌,
}
use neo4j_graph_tool_core.Base.Int.{ltb_ℤ, ltb_ℤ_irrefl, ltb_ℤ_trans, ltb_ℤ_co_trans}
use neo4j_graph_tool_core.Base.InOrder.{
  Ordered-both, Ordered-monotone, Ordered-append, Ordered-reverse, Ordered-Permᴰ, Ordered-map,
}
use neo4j_graph_tool_core.Base.Sort.{SortSlice, IsWeakOrder}
use neo4j_graph_tool_core.Semver.{Semver, IsSemver}
use neo4j_graph_tool_core.Migrator.Files.{
  MigrationFile, MigrationScripts, LocalVersionFolder, LocalFolders, TargetVersion,
  contains_migrations, sort_by_version, older, up_before, down_before, sort_up_files,
  sort_down_files,
}
use neo4j_graph_tool_core.Migrator.Database.{DatabaseModel}
use neo4j_graph_tool_core.Migrator.Plan.Folder.{Target}
use neo4j_graph_tool_core.Migrator.Plan.Versions.{
  Planner, VersionPlan, append_plan, next_plan, plan_version, plan_versions, collect,
  usable_snapshot, version_files,
}
use neo4j_graph_tool_core.Migrator.Plan.Parts.{
  plan_versions_done, plan_versions_step, collect_parts,
}
use neo4j_graph_tool_core.Migrator.Plan.Calls.{Call, calls_of, up_calls, down_calls}

module _ {V : Type 0} (sv : Semver V) where
  -- No two local folders have versions of the same rank.
  abbrev pub DistinctVersions : LocalFolders V → Type 0
  DistinctVersions = Ordered (λ f g. sv.equal f.version g.version ≡ false)

  abbrev pub IsAscending : LocalFolders V → Type 0
  IsAscending = Ordered (λ f g. sv.less_than f.version g.version ≡ true)

  abbrev pub PlanAscending : List (VersionPlan V) → Type 0
  PlanAscending = Ordered (λ p q. sv.less_than p.version q.version ≡ true)

  -- Every planned version is below each of the versions that are left.
  abbrev Leads : List (VersionPlan V) → LocalFolders V → Type 0
  Leads plan lfs = All (λ p. All (λ f. sv.less_than p.version f.version ≡ true) lfs) plan

  append_plan-ascending :
      (plan : List (VersionPlan V)) (lf : LocalVersionFolder V) (lfs : LocalFolders V)
      (ms : Option MigrationScripts)
      → PlanAscending plan
      → Leads plan (lf ∷ lfs)
      → All (λ f. sv.less_than lf.version f.version ≡ true) lfs
      → PlanAscending (append_plan plan lf.version ms) × Leads (append_plan plan lf.version ms) lfs
  append_plan-ascending plan lf lfs none a l first = (a, All-monotone _ _ plan (λ p h. h.1) l)
  append_plan-ascending plan lf lfs (some ms) a l first = go (contains_migrations (some ms))
    where
      go :
          (b : Bool)
          → let next =
              (if b then plan ++ record { scripts = ms; version = lf.version } ∷ [] else plan) in
            PlanAscending next × Leads next lfs
      go true = (
        Ordered-append _ plan _ a (tt, tt) (All-monotone _ _ plan (λ p h. (h.0, tt)) l),
        All-append _ plan _ (All-monotone _ _ plan (λ p h. h.1) l) (first, tt),
      )
      go false = (a, All-monotone _ _ plan (λ p h. h.1) l)

  next_plan-ascending :
      (plan : List (VersionPlan V)) (lf : LocalVersionFolder V) (lfs : LocalFolders V)
      (snapshot : Option MigrationFile) (files : Outcome (Option MigrationScripts))
      {next : List (VersionPlan V)}
      → PlanAscending plan
      → Leads plan (lf ∷ lfs)
      → All (λ f. sv.less_than lf.version f.version ≡ true) lfs
      → next_plan plan lf.version snapshot files ≡ ok next
      → PlanAscending next × Leads next lfs
  next_plan-ascending plan lf lfs (some snapshot) files a l first h =
      subst (λ n. PlanAscending n × Leads n lfs) (ok-injective h) ((tt, tt), (first, tt))
  next_plan-ascending plan lf lfs none files a l first h =
      let (ms, _, e) = >>=-eq-ok files _ h in
      subst (λ n. PlanAscending n × Leads n lfs) (ok-injective e)
        (append_plan-ascending plan lf lfs ms a l first)

  plan_versions-ascending :
      (schema batch : Text) (bfs : List Text) (db : DatabaseModel V) (target : Option (Target V))
      (plan : List (VersionPlan V)) (lfs : LocalFolders V) {vps : List (VersionPlan V)}
      → PlanAscending plan
      → Leads plan lfs
      → IsAscending lfs
      → plan_versions sv schema batch bfs db target plan lfs ≡ ok vps
      → PlanAscending vps
  unfolding plan_version
  plan_versions-ascending schema batch bfs db target plan [] a l s h =
      subst PlanAscending (plan_versions_done sv schema batch bfs db target plan h) a
  plan_versions-ascending schema batch bfs db target plan (lf ∷ lfs) a l s h =
      let (next, e, rest) = plan_versions_step sv schema batch bfs db target plan lf lfs h in
      let (a', l') =
        next_plan-ascending plan lf lfs (usable_snapshot sv lf db target batch)
          (version_files sv schema bfs lf db target) a l s.0 e in
      plan_versions-ascending schema batch bfs db target next lfs a' l' s.1 rest

module _ {V : Type 0} (sv : Semver V) (law : IsSemver sv)
    ⦃folders : SortSlice (LocalVersionFolder V)⦄ where
  equal-sym : (a b : V) → sv.equal a b ≡ false → sv.equal b a ≡ false
  equal-sym a b h = ground (arith, law.equal_lem a b, law.equal_lem b a)

  strictly_below :
      (a b : V) → sv.less_than b a ≡ false → sv.equal a b ≡ false → sv.less_than a b ≡ true
  strictly_below a b l e = ground (arith, law.equal_lem a b)

  pub older_order : IsWeakOrder (older sv)
  older_order = record {
    irrefl = λ a. law.order.irrefl a.version;
    trans = λ a b c. law.order.trans a.version b.version c.version;
    co_trans = λ a b c. law.order.co_trans a.version b.version c.version;
  }

  pub sort_by_version-IsAscending :
      (lfs : LocalFolders V) → DistinctVersions sv lfs → IsAscending sv (sort_by_version sv lfs)
  unfolding sort_by_version
  sort_by_version-IsAscending lfs distinct =
      Ordered-both _ _ _ (folders.sort (older sv) lfs) (λ f g. strictly_below f.version g.version)
        (folders.sort-IsSorted (older sv) older_order lfs)
        (Ordered-Permᴰ _ (λ f g. equal-sym f.version g.version)
          (Permᴰ.symm (folders.sort_perm (older sv) lfs)) distinct)

  -- The plan has one entry at most for each version, oldest first.
  pub collect-ascending :
      (planner : Planner) (lfs : LocalFolders V) (db : DatabaseModel V)
      (target : Option (TargetVersion V)) (batch : Text) {vps : List (VersionPlan V)}
      → DistinctVersions sv lfs
      → collect sv planner lfs db target batch ≡ ok vps
      → PlanAscending sv vps
  collect-ascending planner lfs db target batch distinct h =
      let c = collect_parts sv planner lfs db target batch h in
      plan_versions-ascending sv c.schema.folder_name batch c.bfs db _ [] _ tt tt
        (sort_by_version-IsAscending lfs distinct) c.versions_are

module _ {V : Type 0} (sv : Semver V) where
  -- By version, and within a version by number.
  abbrev pub UpBefore : Call V → Call V → Type 0
  UpBefore a b =
      (sv.less_than a.1 b.1 ≡ true) ⊎ ((a.1 ≡ b.1) × (ltb_ℤ b.0.timestamp a.0.timestamp ≡ false))

  abbrev pub DownBefore : Call V → Call V → Type 0
  DownBefore a b =
      (sv.less_than b.1 a.1 ≡ true) ⊎ ((a.1 ≡ b.1) × (ltb_ℤ a.0.timestamp b.0.timestamp ≡ false))

up_order : IsWeakOrder up_before
up_order = record {
  irrefl = λ f. ltb_ℤ_irrefl f.timestamp;
  trans = λ f g h. ltb_ℤ_trans f.timestamp g.timestamp h.timestamp;
  co_trans = λ f g h. ltb_ℤ_co_trans f.timestamp g.timestamp h.timestamp;
}

down_order : IsWeakOrder down_before
down_order = record {
  irrefl = λ f. ltb_ℤ_irrefl f.timestamp;
  trans = λ f g h p q. ltb_ℤ_trans h.timestamp g.timestamp f.timestamp q p;
  co_trans = λ f g h p q. ltb_ℤ_co_trans h.timestamp g.timestamp f.timestamp q p;
}

module _ {V : Type 0} (sv : Semver V) ⦃files : SortSlice MigrationFile⦄ where
  -- The calls of one version are all of that version.
  version_of_calls :
      (P : V → Type 0) (fs : List MigrationFile) (version : V)
      → P version
      → All (λ c. P c.1) (calls_of version fs)
  version_of_calls P [] version h = tt
  version_of_calls P (f ∷ fs) version h = (h, version_of_calls P fs version h)

  versions_of_up_calls :
      (P : V → Type 0) (vps : List (VersionPlan V))
      → All (λ p. P p.version) vps
      → All (λ c. P c.1) (up_calls vps)
  unfolding up_calls
  versions_of_up_calls P [] h = tt
  versions_of_up_calls P (vp ∷ vps) h =
      All-append _ _ (up_calls vps) (version_of_calls P _ vp.version h.0)
        (versions_of_up_calls P vps h.1)

  versions_of_down_calls :
      (P : V → Type 0) (vps : List (VersionPlan V))
      → All (λ p. P p.version) vps
      → All (λ c. P c.1) (down_calls vps)
  unfolding down_calls
  versions_of_down_calls P [] h = tt
  versions_of_down_calls P (vp ∷ vps) h =
      All-append _ _ (down_calls vps) (version_of_calls P _ vp.version h.0)
        (versions_of_down_calls P vps h.1)

  up_calls-Ordered :
      (vps : List (VersionPlan V)) → PlanAscending sv vps → Ordered (UpBefore sv) (up_calls vps)
  unfolding up_calls sort_up_files
  up_calls-Ordered [] h = tt
  up_calls-Ordered (vp ∷ vps) h =
      let fs = files.sort up_before vp.scripts.up in
      Ordered-append (UpBefore sv) (calls_of vp.version fs) (up_calls vps)
        (Ordered-map (λ f. (f, vp.version)) (UpBefore sv) fs
          (Ordered-monotone _ _ fs (λ f g p. inr (refl, p))
            (files.sort-IsSorted up_before up_order vp.scripts.up)))
        (up_calls-Ordered vps h.1)
        (All-monotone _ (λ c. All (UpBefore sv c) (up_calls vps)) (calls_of vp.version fs)
          (λ c q. All-monotone _ (UpBefore sv c) (up_calls vps) (λ d l. inl l) q)
          (version_of_calls (λ v. All (λ d. sv.less_than v d.1 ≡ true) (up_calls vps)) fs vp.version
            (versions_of_up_calls (λ v. sv.less_than vp.version v ≡ true) vps h.0)))

  down_calls-Ordered :
      (vps : List (VersionPlan V))
      → Ordered (λ p q. sv.less_than q.version p.version ≡ true) vps
      → Ordered (DownBefore sv) (down_calls vps)
  unfolding down_calls sort_down_files
  down_calls-Ordered [] h = tt
  down_calls-Ordered (vp ∷ vps) h =
      let fs = files.sort down_before vp.scripts.down in
      Ordered-append (DownBefore sv) (calls_of vp.version fs) (down_calls vps)
        (Ordered-map (λ f. (f, vp.version)) (DownBefore sv) fs
          (Ordered-monotone _ _ fs (λ f g p. inr (refl, p))
            (files.sort-IsSorted down_before down_order vp.scripts.down)))
        (down_calls-Ordered vps h.1)
        (All-monotone _ (λ c. All (DownBefore sv c) (down_calls vps)) (calls_of vp.version fs)
          (λ c q. All-monotone _ (DownBefore sv c) (down_calls vps) (λ d l. inl l) q)
          (version_of_calls (λ v. All (λ d. sv.less_than d.1 v ≡ true) (down_calls vps)) fs
            vp.version (versions_of_down_calls (λ v. sv.less_than v vp.version ≡ true) vps h.0)))

module _ {V : Type 0} (sv : Semver V) (law : IsSemver sv) ⦃files : SortSlice MigrationFile⦄
    ⦃folders : SortSlice (LocalVersionFolder V)⦄ where
  -- If no two local folders have versions of the same rank, the upgrades of a plan come by ascending
  -- version and within a version by ascending number, and the downgrades by descending version and
  -- within a version by descending number, whatever the order in which the folders were listed.
  pub collect-Ordered :
      (planner : Planner) (lfs : LocalFolders V) (db : DatabaseModel V)
      (target : Option (TargetVersion V)) (batch : Text) {vps : List (VersionPlan V)}
      → DistinctVersions sv lfs
      → collect sv planner lfs db target batch ≡ ok vps
      → Ordered (UpBefore sv) (up_calls vps) × Ordered (DownBefore sv) (down_calls (reverse vps))
  collect-Ordered planner lfs db target batch {vps} distinct h =
      let a = collect-ascending sv law planner lfs db target batch distinct h in
      (up_calls-Ordered sv vps a, down_calls-Ordered sv (reverse vps) (Ordered-reverse _ vps a))
