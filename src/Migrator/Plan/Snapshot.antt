-- ===== src/Migrator/Plan/Snapshot.antt =====
-- Snapshots in a plan.
use neo4j_graph_tool_core.Base.{
  Text, text_keys, Option, none, some, List, [], ◌∷◌, ◌++◌, true, ◌≡◌, refl, map, ok, ok-injective,
  >>=-cong,
}
use neo4j_graph_tool_core.Base.Dict.{lookup}
use neo4j_graph_tool_core.Semver.{Semver}
use neo4j_graph_tool_core.Migrator.Files.{
  MigrationFile, MigrationScripts, add, LocalVersionFolder, LocalFolders,
}
use neo4j_graph_tool_core.Migrator.Database.{DatabaseModel, has_any_version}
use neo4j_graph_tool_core.Migrator.Plan.Folder.{Target, plan_folder}
use neo4j_graph_tool_core.Migrator.Plan.Versions.{
  VersionPlan, snapshot_plan, next_plan, plan_version, plan_versions, usable_snapshot,
  version_files, add_batch_folders,
}
use neo4j_graph_tool_core.Migrator.Plan.Parts.{plan_versions_step}

abbrev pub without_snapshots : {V : Type 0} → LocalVersionFolder V → LocalVersionFolder V
without_snapshots lf = record lf { snapshots = [] }

module _ {V : Type 0} (sv : Semver V) (schema batch : Text) (bfs : List Text) (db : DatabaseModel V)
    (target : Option (Target V)) where
  no_usable_snapshot :
      (lf : LocalVersionFolder V)
      → has_any_version db ≡ true
      → usable_snapshot sv lf db target batch ≡ none
  unfolding usable_snapshot
  no_usable_snapshot lf h = rw h

  add_batch_folders-without_snapshots :
      (lf : LocalVersionFolder V) (folders : List Text) (fs : Option MigrationScripts)
      → add_batch_folders sv (without_snapshots lf) db target folders fs
        ≡ add_batch_folders sv lf db target folders fs
  unfolding add_batch_folders
  add_batch_folders-without_snapshots lf [] fs = refl
  add_batch_folders-without_snapshots lf (folder ∷ folders) fs =
      >>=-cong
        (add fs (plan_folder sv folder lf.version (lookup folder lf.extra_folders) db target))
        (λ fs'. add_batch_folders-without_snapshots lf folders fs')

  version_files-without_snapshots :
      (lf : LocalVersionFolder V)
      → version_files sv schema bfs (without_snapshots lf) db target
        ≡ version_files sv schema bfs lf db target
  unfolding version_files
  version_files-without_snapshots lf =
      add_batch_folders-without_snapshots lf bfs
        (plan_folder sv schema lf.version lf.schema_folder db target)

  -- Once anything was executed, snapshots do not matter: the plan is the one without them.
  pub plan_versions-without_snapshots :
      (plan : List (VersionPlan V)) (lfs : LocalFolders V)
      → has_any_version db ≡ true
      → plan_versions sv schema batch bfs db target plan lfs
        ≡ plan_versions sv schema batch bfs db target plan (map without_snapshots lfs)
  unfolding plan_versions plan_version
  plan_versions-without_snapshots plan [] h = refl
  plan_versions-without_snapshots plan (lf ∷ lfs) h =
      rw
        (
          no_usable_snapshot lf h,
          no_usable_snapshot (without_snapshots lf) h,
          version_files-without_snapshots lf,
        )
        (>>=-cong (next_plan plan lf.version none (version_files sv schema bfs lf db target))
          (λ next. plan_versions-without_snapshots next lfs h))

  -- A usable snapshot of a version makes the plan start there: whatever was planned for the versions
  -- before it is dropped.
  pub plan_versions-snapshot :
      (plan : List (VersionPlan V)) (before : LocalFolders V) (lf : LocalVersionFolder V)
      (after : LocalFolders V) (snapshot : MigrationFile) {vps : List (VersionPlan V)}
      → usable_snapshot sv lf db target batch ≡ some snapshot
      → plan_versions sv schema batch bfs db target plan (before ++ lf ∷ after) ≡ ok vps
      → plan_versions sv schema batch bfs db target (snapshot_plan lf.version snapshot) after
        ≡ ok vps
  unfolding plan_version
  plan_versions-snapshot plan [] lf after snapshot u h =
      let (next, e, rest) = plan_versions_step sv schema batch bfs db target plan lf after h in
      rw (ok-injective (rw u at e)) rest
  plan_versions-snapshot plan (b ∷ before) lf after snapshot u h =
      let (next, e, rest) =
        plan_versions_step sv schema batch bfs db target plan b (before ++ lf ∷ after) h in
      plan_versions-snapshot next before lf after snapshot u rest
