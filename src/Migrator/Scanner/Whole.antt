-- ===== src/Migrator/Scanner/Whole.antt =====
-- `ScanFolders` of migrator/scanner.go, and `Plan` on what it returns.
use neo4j_graph_tool_core.Base.{
  Text, codes, text_keys, ◌==◌, Option, none, some, List, [], ◌∷◌, Bool, true, false, not, ◌&&◌,
  ◌≡◌, refl, ap, subst, All, All-monotone, ok, fail, refuse_if, deref, has_prefix, >>=-eq-ok,
  ok-injective, if◌then◌else◌, ◌⊎◌,
}
use neo4j_graph_tool_core.Base.Dict.{some-injective, insert, has, lookup}
use neo4j_graph_tool_core.Base.Result.{◌>>=◌}
use neo4j_graph_tool_core.Base.Sort.{SortSlice}
use neo4j_graph_tool_core.Semver.{Semver, IsSemver}
use neo4j_graph_tool_core.Config.Defs.{Config, PlannerConfig, snapshots_name, schema_name}
use neo4j_graph_tool_core.Migrator.Files.{
  MigrationFile, LocalVersionFolder, LocalFolders, TargetVersion,
}
use neo4j_graph_tool_core.Migrator.Database.{DatabaseModel}
use neo4j_graph_tool_core.Migrator.Plan.Folder.{effective_target}
use neo4j_graph_tool_core.Migrator.Plan.Versions.{
  Planner, VersionPlan, new_planner, target_args, collect,
}
use neo4j_graph_tool_core.Migrator.Plan.Total.{HasSchema}
use neo4j_graph_tool_core.Migrator.Plan.Safe.{collect-outcomes}
use neo4j_graph_tool_core.Migrator.Scanner.Tree.{
  FileSystem, Listing, missing, not_a_directory, names_of, scan_schema_and_extra_folders,
}
use neo4j_graph_tool_core.Migrator.Scanner.Local.{
  IsScanned, scan_schema_and_extra_folders-IsScanned,
}
use neo4j_graph_tool_core.Migrator.Scanner.Snapshots.{
  SnapshotGroups, find_snapshot, behind_first, add_snapshot, snapshot_added, add_versioned,
  add_matched_snapshot, add_snapshots, add_listed, add_snapshots_to, scan_folders,
}

module _ {V : Type 0} (sv : Semver V) where
  add_snapshot-IsScanned :
      (batch : Text) (version : V) (file : MigrationFile) (lfs after : LocalFolders V)
      → All IsScanned lfs
      → add_snapshot sv batch version file lfs ≡ some after
      → All IsScanned after
  unfolding add_snapshot
  add_snapshot-IsScanned batch version file [] after h e = cc
  add_snapshot-IsScanned batch version file (lf ∷ lfs) after h e =
      go (sv.equal lf.version version) (add_snapshot sv batch version file lfs)
        (λ rest. add_snapshot-IsScanned batch version file lfs rest h.1) e
    where
      go :
          (b : Bool) (o : Option (LocalFolders V))
          → ((rest : LocalFolders V) → o ≡ some rest → All IsScanned rest)
          → (if b
              then some (record lf { snapshots = insert batch file lf.snapshots } ∷ lfs)
              else behind_first sv lf o)
            ≡ some after
          → All IsScanned after
      go true o ih e = subst (All IsScanned) (some-injective e) (
        record {
          scripts = h.0.scripts;
          has_schema = h.0.has_schema;
          schema = h.0.schema;
          extra = h.0.extra;
        },
        h.1,
      )
      go false none ih e = cc
      go false (some rest) ih e = subst (All IsScanned) (some-injective e) (h.0, ih rest refl)

  snapshot_added-IsScanned :
      (version : V) (name : Text) (o : Option (LocalFolders V)) (after : LocalFolders V)
      → ((rest : LocalFolders V) → o ≡ some rest → All IsScanned rest)
      → snapshot_added sv version name o ≡ ok after
      → All IsScanned after
  snapshot_added-IsScanned version name none after h e = cc
  snapshot_added-IsScanned version name (some rest) after h e =
      subst (All IsScanned) (ok-injective e) (h rest refl)

  add_versioned-IsScanned :
      (path name : Text) (match : SnapshotGroups) (o : Option V) (lfs after : LocalFolders V)
      → All IsScanned lfs
      → add_versioned sv path name match o lfs ≡ ok after
      → All IsScanned after
  add_versioned-IsScanned path name match none lfs after h e = cc
  add_versioned-IsScanned path name match (some version) lfs after h e =
      snapshot_added-IsScanned version name _ after
        (λ rest found. add_snapshot-IsScanned match.batch version _ lfs rest h found) e

module _ {V : Type 0} (sv : Semver V) (fs : FileSystem) (p : PlannerConfig) (dir_path : Text) where
  add_matched_snapshot-IsScanned :
      (name : Text) (o : Option SnapshotGroups) (lfs after : LocalFolders V)
      → All IsScanned lfs
      → add_matched_snapshot sv fs p dir_path name o lfs ≡ ok after
      → All IsScanned after
  add_matched_snapshot-IsScanned name none lfs after h e = cc
  add_matched_snapshot-IsScanned name (some match) lfs after h e =
      let (_, _, rest) =
        >>=-eq-ok
          (refuse_if (not (match.batch == schema_name) && not (has (lookup match.batch p.batches)))
            _ _)
          _ e in
      add_versioned-IsScanned sv (fs.path_join dir_path name) name match
        (sv.new_version match.version) lfs after h rest

  add_snapshots-IsScanned :
      (names : List Text) (lfs after : LocalFolders V)
      → All IsScanned lfs
      → add_snapshots sv fs p dir_path names lfs ≡ ok after
      → All IsScanned after
  unfolding add_snapshots
  add_snapshots-IsScanned [] lfs after h e = subst (All IsScanned) (ok-injective e) h
  add_snapshots-IsScanned (name ∷ names) lfs after h e =
      go (has_prefix name (codes ".")) (λ lfs h e. add_snapshots-IsScanned names lfs after h e) e
    where
      go :
          (b : Bool)
          → ((lfs : LocalFolders V)
              → All IsScanned lfs
              → add_snapshots sv fs p dir_path names lfs ≡ ok after
              → All IsScanned after)
          → (if b
              then add_snapshots sv fs p dir_path names lfs
              else add_matched_snapshot sv fs p dir_path name (find_snapshot name) lfs
                >>= add_snapshots sv fs p dir_path names)
            ≡ ok after
          → All IsScanned after
      go true ih e = ih lfs h e
      go false ih e =
          let (next, one, rest) =
            >>=-eq-ok (add_matched_snapshot sv fs p dir_path name (find_snapshot name) lfs) _ e in
          ih next (add_matched_snapshot-IsScanned name (find_snapshot name) lfs next h one) rest

  add_listed-IsScanned :
      (listing : Listing) (lfs after : LocalFolders V)
      → All IsScanned lfs
      → add_listed sv fs p dir_path listing lfs ≡ ok after
      → All IsScanned after
  add_listed-IsScanned missing lfs after h e = subst (All IsScanned) (ok-injective e) h
  add_listed-IsScanned not_a_directory lfs after h e = cc
  add_listed-IsScanned (names_of names) lfs after h e = add_snapshots-IsScanned names lfs after h e

module _ {V : Type 0} (sv : Semver V) (fs : FileSystem) ⦃files : SortSlice MigrationFile⦄ where
  -- Every version that `ScanFolders` returns has scripts of the schema folder, and in the schema
  -- folder as in each other folder upgrades and downgrades are apart and no number stands twice
  -- among either.
  pub scan_folders-IsScanned :
      (planner : Planner) (lfs : LocalFolders V)
      → scan_folders sv fs planner ≡ ok lfs
      → All IsScanned lfs
  unfolding scan_folders add_snapshots_to
  scan_folders-IsScanned planner lfs h =
      let (found, e, h1) = >>=-eq-ok (scan_schema_and_extra_folders sv fs planner) _ h in
      let (p, _, h2) = >>=-eq-ok (deref planner.config.planner) _ h1 in
      let (listing, _, h3) = >>=-eq-ok (fs.list_names (fs.resolve snapshots_name)) _ h2 in
      add_listed-IsScanned sv fs p (fs.resolve snapshots_name) listing found lfs
        (scan_schema_and_extra_folders-IsScanned sv fs planner found e) h3

module _ {V : Type 0} (sv : Semver V) (law : IsSemver sv) (fs : FileSystem)
    ⦃files : SortSlice MigrationFile⦄ ⦃folders : SortSlice (LocalVersionFolder V)⦄ where
  -- A planner that `NewPlanner` accepted, on what `ScanFolders` returned for it, comes to a plan,
  -- or to one of two errors: an unknown batch, or a target beyond every local version.
  pub collect-scan_folders :
      (cfg : Option Config) (planner : Planner) (lfs : LocalFolders V) (db : DatabaseModel V)
      (target : Option (TargetVersion V)) (batch : Text)
      → new_planner sv cfg ≡ ok planner
      → scan_folders sv fs planner ≡ ok lfs
      → let r = collect sv planner lfs db target batch in
        ((vps : List (VersionPlan V)) × (r ≡ ok vps))
        ⊎ ((r ≡ fail "unknown batch name '%s'" (batch ∷ []))
            ⊎ (r
                ≡ fail "specified target %s version does not exist"
                    (target_args sv (effective_target target))))
  collect-scan_folders cfg planner lfs db target batch new scanned =
      collect-outcomes sv law cfg planner lfs db target batch new (
        All-monotone IsScanned HasSchema lfs (λ lf s. ap has s.has_schema)
          (scan_folders-IsScanned sv fs planner lfs scanned))
