-- ===== src/Migrator/Scanner/Snapshots.antt =====
-- `addSnapshotsTo` and `ScanFolders` of migrator/scanner.go.
use mathlib.Core.List.{reverse}
use neo4j_graph_tool_core.Base.{
  ℕ, Text, codes, text_keys, ◌==◌, Option, none, some, List, [], ◌∷◌, true, false, not, ◌&&◌, ◌||◌,
  any, eqb, has_prefix, Outcome, ok, fail, refuse_if, deref, if◌then◌else◌,
}
use neo4j_graph_tool_core.Base.Int.{pos}
use neo4j_graph_tool_core.Base.Dict.{lookup, insert, has}
use neo4j_graph_tool_core.Base.Result.{◌>>=◌, ◌>>◌}
use neo4j_graph_tool_core.Base.Sort.{SortSlice}
use neo4j_graph_tool_core.Semver.{Semver}
use neo4j_graph_tool_core.Config.Defs.{PlannerConfig, schema_name, snapshots_name}
use neo4j_graph_tool_core.Migrator.Files.{
  MigrationFile, LocalVersionFolder, LocalFolders, cypher, command,
}
use neo4j_graph_tool_core.Migrator.Plan.Versions.{Planner}
use neo4j_graph_tool_core.Migrator.Scanner.Names.{is_digit, span}
use neo4j_graph_tool_core.Migrator.Scanner.Tree.{
  FileSystem, Listing, missing, not_a_directory, names_of, scan_schema_and_extra_folders,
}

-- The groups of `snapshotFilePattern`.
pub record SnapshotGroups : Type 0 where
  pub batch : Text
  pub version : Text
  pub extension : Text

abbrev pub prepend : ℕ → Option (Text × Text) → Text → Option (Text × Text)
prepend c none s = if eqb c b'_' then some ([], s) else none
prepend c (some (before, behind)) s = some (c ∷ before, behind)

-- The text before and behind the last underscore: no part of the pattern behind it has another.
unfoldable pub split_last : Text → Option (Text × Text)
split_last [] = none
split_last (c ∷ s) = prepend c (split_last s) s

-- `[0-9.]+\.`, from its end: a dot, and something before it.
abbrev pub without_dot : Text → Option Text
without_dot [] = none
without_dot (c ∷ []) = none
without_dot (c ∷ d ∷ s) = if eqb c b'.' then some (reverse (d ∷ s)) else none

abbrev pub snapshot_groups : Text → Text → Option Text → Option SnapshotGroups
snapshot_groups batch extension none = none
snapshot_groups batch extension (some version) =
    if not (any (eqb 10) batch) && (extension == codes "cypher" || extension == codes "run")
    then some (record { batch = batch; version = b'v' ∷ version; extension = extension })
    else none

abbrev pub match_version : Option (Text × Text) → Option SnapshotGroups
match_version none = none
match_version (some (batch, [])) = none
match_version (some (batch, c ∷ s)) =
    let (number, extension) = span (λ d. is_digit d || eqb d b'.') s in
    if eqb c b'v' then snapshot_groups batch extension (without_dot (reverse number)) else none

-- `snapshotFilePattern.FindStringSubmatch`
unfoldable pub find_snapshot : Text → Option SnapshotGroups
unfolding split_last span
find_snapshot name = match_version (split_last name)

module _ {V : Type 0} (sv : Semver V) where
  abbrev pub behind_first : LocalVersionFolder V → Option (LocalFolders V) → Option (LocalFolders V)
  behind_first lf none = none
  behind_first lf (some lfs) = some (lf ∷ lfs)

  -- The inner loop of `addSnapshotsTo`: the first equal version, if any, gets the snapshot.
  unfoldable pub add_snapshot : Text → V → MigrationFile → LocalFolders V → Option (LocalFolders V)
  add_snapshot batch version file [] = none
  add_snapshot batch version file (lf ∷ lfs) =
      let rest = add_snapshot batch version file lfs in
      if sv.equal lf.version version
      then some (record lf { snapshots = insert batch file lf.snapshots } ∷ lfs)
      else behind_first lf rest

  abbrev pub snapshot_added : V → Text → Option (LocalFolders V) → Outcome (LocalFolders V)
  snapshot_added version name none =
      fail "version '%s' in snapshot '%s' is not defined in schema"
        (sv.to_string version ∷ name ∷ [])
  snapshot_added version name (some lfs) = ok lfs

  abbrev pub add_versioned :
      Text → Text → SnapshotGroups → Option V → LocalFolders V → Outcome (LocalFolders V)
  add_versioned path name match none lfs =
      fail "invalid snapshot version '%s': %s" (name ∷ codes "invalid semantic version" ∷ [])
  add_versioned path name match (some version) lfs = snapshot_added version name (
      add_snapshot match.batch version
        (record {
          folder_name = snapshots_name;
          path = path;
          file_type = if match.extension == codes "run" then command else cypher;
          timestamp = pos 0;
          is_downgrade = false;
          is_snapshot = true;
        })
        lfs)

module _ {V : Type 0} (sv : Semver V) (fs : FileSystem) (p : PlannerConfig) (dir_path : Text) where
  abbrev pub add_matched_snapshot :
      Text → Option SnapshotGroups → LocalFolders V → Outcome (LocalFolders V)
  add_matched_snapshot name none lfs = fail "invalid snapshot name '%s'" (name ∷ [])
  add_matched_snapshot name (some match) lfs =
      refuse_if (not (match.batch == schema_name) && not (has (lookup match.batch p.batches)))
        "unknown batch name '%s' based on snapshot name '%s'" (match.batch ∷ name ∷ [])
      >> add_versioned sv (fs.path_join dir_path name) name match (sv.new_version match.version) lfs

  -- The loop of `addSnapshotsTo`.
  unfoldable pub add_snapshots : List Text → LocalFolders V → Outcome (LocalFolders V)
  add_snapshots [] lfs = ok lfs
  add_snapshots (name ∷ names) lfs =
      if has_prefix name (codes ".")
      then add_snapshots names lfs
      else add_matched_snapshot name (find_snapshot name) lfs >>= add_snapshots names

  -- A missing directory of snapshots is no error.
  abbrev pub add_listed : Listing → LocalFolders V → Outcome (LocalFolders V)
  add_listed missing lfs = ok lfs
  add_listed not_a_directory lfs = fail "open: %s is not a directory" (dir_path ∷ [])
  add_listed (names_of names) lfs = add_snapshots names lfs

module _ {V : Type 0} (sv : Semver V) (fs : FileSystem) ⦃files : SortSlice MigrationFile⦄ where
  -- `addSnapshotsTo`
  unfoldable pub add_snapshots_to : PlannerConfig → LocalFolders V → Outcome (LocalFolders V)
  add_snapshots_to p lfs = do
    listing ← fs.list_names (fs.resolve snapshots_name)
    add_listed sv fs p (fs.resolve snapshots_name) listing lfs

  -- `ScanFolders`
  unfoldable pub scan_folders : Planner → Outcome (LocalFolders V)
  scan_folders planner = do
    lfs ← scan_schema_and_extra_folders sv fs planner
    p ← deref planner.config.planner
    add_snapshots_to p lfs
