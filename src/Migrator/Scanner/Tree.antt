-- ===== src/Migrator/Scanner/Tree.antt =====
-- `open` and `scanSchemaAndExtraFolders` of migrator/scanner.go: the folders of all versions.
use neo4j_graph_tool_core.Base.{
  Text, codes, text_keys, ◌==◌, Option, none, some, List, [], ◌∷◌, ◌++◌, Bool, not, ◌&&◌,
  has_prefix, is_empty, Outcome, ok, fail, panic, any, deref, if◌then◌else◌,
}
use neo4j_graph_tool_core.Base.Dict.{Dict, insert}
use neo4j_graph_tool_core.Base.Result.{◌>>=◌ as ◌>>='◌}
use neo4j_graph_tool_core.Base.Monad.{Exec, pure, lift, modify, ◌>>=◌, ◌>>◌}
use neo4j_graph_tool_core.Base.Sort.{SortSlice}
use neo4j_graph_tool_core.Semver.{Semver}
use neo4j_graph_tool_core.Config.Defs.{SchemaFolder, FolderDetail}
use neo4j_graph_tool_core.Migrator.Files.{
  MigrationFile, MigrationScripts, LocalVersionFolder, LocalFolders,
}
use neo4j_graph_tool_core.Migrator.Plan.Versions.{Planner}
use neo4j_graph_tool_core.Migrator.Scanner.Folder.{
  DirEntry, Scanned, scan_change_type_folder, scan_up_down_type_folder,
}

-- What opening a directory and reading its names comes to.
pub data Listing : Type 0 where
  missing not_a_directory : Listing
  names_of : List Text → Listing

-- What the scanner calls of the file system: `list_names` opens a directory and reads its names,
-- `read_dir` reads its entries, and `resolve` gives the path of a folder below the root.
pub record FileSystem : Type 0 where
  pub resolve : Text → Text
  pub path_join : Text → Text → Text
  pub list_names : Text → Outcome Listing
  pub read_dir : Text → Outcome (List DirEntry)

-- `op` of `open`
abbrev pub OnVersion : Type 0 → Type 0 → Type 0
OnVersion V S = V → Text → Exec S (Option (LocalVersionFolder V))

abbrev pub and_version :
    {V : Type 0} → Option (LocalVersionFolder V) → LocalFolders V → LocalFolders V
and_version none versions = versions
and_version (some v) versions = versions ++ v ∷ []

module _ {V S : Type 0} (sv : Semver V) (fs : FileSystem) where
  abbrev pub on_named : OnVersion V S → Option V → Text → Exec S (Option (LocalVersionFolder V))
  on_named op none path = lift (fail "invalid semantic version - %s" (path ∷ []))
  on_named op (some ver) path = op ver path

  -- The loop of `open`.
  unfoldable pub open_names :
      OnVersion V S → Text → List Text → LocalFolders V → Exec S (LocalFolders V)
  open_names op dir_path [] versions = pure versions
  open_names op dir_path (dn ∷ names) versions =
      if has_prefix dn (codes ".")
      then open_names op dir_path names versions
      else if not (has_prefix dn (codes "v"))
      then lift (fail "folder name '%s' does not start with letter 'v' at %s" (dn ∷ dir_path ∷ []))
      else on_named op (sv.new_version dn) (fs.path_join dir_path dn) >>= λ v.
          open_names op dir_path names (and_version v versions)

  abbrev pub open_listed : OnVersion V S → Text → Listing → Exec S (LocalFolders V)
  open_listed op dir_path missing = lift (fail "open %s: no such file or directory" (dir_path ∷ []))
  open_listed op dir_path not_a_directory =
      lift (fail "open: %s is not a directory" (dir_path ∷ []))
  open_listed op dir_path (names_of names) = open_names op dir_path names []

  -- `open`
  unfoldable pub open_folder : Text → OnVersion V S → Exec S (LocalFolders V)
  open_folder folder_name op =
      let dir_path = fs.resolve folder_name in
      lift (fs.list_names dir_path) >>= open_listed op dir_path

module _ {V : Type 0} (sv : Semver V) (fs : FileSystem) ⦃files : SortSlice MigrationFile⦄ where
  abbrev pub scan_by_type : Text → Text → Text → Outcome Scanned
  scan_by_type migration_type folder_name path =
      if migration_type == codes "up_down"
      then scan_up_down_type_folder fs.path_join fs.read_dir folder_name path
      else scan_change_type_folder fs.path_join fs.read_dir folder_name path

  -- A version of the schema folder without upgrades counts only with its keep file.
  abbrev pub schema_version : V → Scanned → Option (LocalVersionFolder V)
  schema_version ver (ms, keep) =
      if is_empty ms.up && not keep
      then none
      else some
          (record { version = ver; schema_folder = some ms; extra_folders = []; snapshots = [] })

  -- The first callback of `scanSchemaAndExtraFolders`.
  unfoldable pub scan_schema :
      SchemaFolder → V → Text → Exec (Unit {0}) (Option (LocalVersionFolder V))
  scan_schema schema ver path =
      lift (scan_by_type schema.migration_type schema.folder_name path) >>= λ scanned.
      pure (schema_version ver scanned)

  -- `v.ExtraFolders[folderName] = …` of the first local version that is equal.
  unfoldable pub add_extra : Text → V → MigrationScripts → LocalFolders V → LocalFolders V
  add_extra folder_name ver ms [] = []
  add_extra folder_name ver ms (v ∷ lfs) =
      let rest = add_extra folder_name ver ms lfs in
      if sv.equal v.version ver
      then record v { extra_folders = insert folder_name ms v.extra_folders } ∷ lfs
      else v ∷ rest

  abbrev pub is_local : V → LocalFolders V → Bool
  is_local ver lfs = any (λ v. sv.equal v.version ver) lfs

  -- The second callback, which writes to the local folders.
  unfoldable pub scan_extra : Text → Option FolderDetail → OnVersion V (LocalFolders V)
  scan_extra folder_name detail ver path lfs =
      if is_local ver lfs
      then (lift (deref detail >>=' λ d. scan_by_type d.migration_type folder_name path)
            >>= λ scanned. modify (add_extra folder_name ver scanned.0) >> pure none)
          lfs
      else (fail "unspecified schema for version of '%s'" (path ∷ []), lfs)

  -- The loop over the configured folders.
  unfoldable pub scan_extras : Dict Text (Option FolderDetail) → Exec (LocalFolders V) (Unit {0})
  scan_extras [] = pure tt
  scan_extras ((folder_name, detail) ∷ folders) =
      open_folder sv fs folder_name (scan_extra folder_name detail) >>= λ _. scan_extras folders

  abbrev pub written_to : Outcome (Unit {0}) × LocalFolders V → Outcome (LocalFolders V)
  written_to (ok u, lfs) = ok lfs
  written_to (fail m args, lfs) = fail m args
  written_to (panic, lfs) = panic

  -- `scanSchemaAndExtraFolders`
  unfoldable pub scan_schema_and_extra_folders : Planner → Outcome (LocalFolders V)
  scan_schema_and_extra_folders planner = deref planner.config.planner >>=' λ p.
      deref p.schema_folder >>=' λ schema.
      (open_folder sv fs schema.folder_name (scan_schema schema) tt).0 >>=' λ lfs.
      written_to (scan_extras p.folders lfs)
