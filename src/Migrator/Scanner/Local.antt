-- ===== src/Migrator/Scanner/Local.antt =====
-- The local folders that `scanSchemaAndExtraFolders` returns are what the planner relies on.
use neo4j_graph_tool_core.Base.{
  Text, codes, text_keys, ◌==◌, Option, none, some, [], ◌∷◌, Bool, true, false, not, ◌&&◌, ◌≡◌,
  refl, subst, All, Outcome, ok, fail, panic, deref, is_empty, >>=-eq-ok, ok-injective,
  if◌then◌else◌,
}
use neo4j_graph_tool_core.Base.Dict.{Dict, insert, insert-All, some-injective}
use neo4j_graph_tool_core.Base.Result.{◌>>=◌ as ◌>>='◌}
use neo4j_graph_tool_core.Base.Monad.{continue, pure, lift, modify, ◌>>=◌, ◌>>◌}
use neo4j_graph_tool_core.Base.Monad.Keeps.{Keeps, Keeps-pure, Keeps->>=}
use neo4j_graph_tool_core.Base.Sort.{SortSlice}
use neo4j_graph_tool_core.Semver.{Semver}
use neo4j_graph_tool_core.Config.Defs.{SchemaFolder, FolderDetail}
use neo4j_graph_tool_core.Migrator.Files.{
  MigrationFile, MigrationScripts, LocalVersionFolder, LocalFolders,
}
use neo4j_graph_tool_core.Migrator.Plan.Versions.{Planner}
use neo4j_graph_tool_core.Migrator.Scanner.Names.{change_file}
use neo4j_graph_tool_core.Migrator.Scanner.Folder.{
  Scanned, scan_change_type_folder, scan_up_down_type_folder,
}
use neo4j_graph_tool_core.Migrator.Scanner.Scripts.{
  IsWellFormed, scan_folder-IsWellFormed, scan_up_down_type_folder-pairs,
}
use neo4j_graph_tool_core.Migrator.Scanner.Tree.{
  FileSystem, open_folder, scan_by_type, schema_version, scan_schema, add_extra, is_local,
  scan_extra, scan_extras, written_to, scan_schema_and_extra_folders,
}
use neo4j_graph_tool_core.Migrator.Scanner.Opened.{open_folder-Keeps, open_folder-All}

-- A version with scripts of its schema folder, these and those of its other folders well formed.
pub record IsScanned {V : Type 0} (lf : LocalVersionFolder V) : Type 0 where
  pub scripts : MigrationScripts
  pub has_schema : lf.schema_folder ≡ some scripts
  pub schema : IsWellFormed scripts
  pub extra : All (λ e. IsWellFormed e.1) lf.extra_folders

module _ {V : Type 0} (sv : Semver V) (fs : FileSystem) ⦃files : SortSlice MigrationFile⦄ where
  scan_by_type-IsWellFormed :
      (migration_type folder_name path : Text) (s : Scanned)
      → scan_by_type sv fs migration_type folder_name path ≡ ok s
      → IsWellFormed s.0
  scan_by_type-IsWellFormed migration_type folder_name path (ms, keep) h =
      go (migration_type == codes "up_down") h
    where
      go :
          (b : Bool)
          → (if b
              then scan_up_down_type_folder fs.path_join fs.read_dir folder_name path
              else scan_change_type_folder fs.path_join fs.read_dir folder_name path)
            ≡ ok (ms, keep)
          → IsWellFormed ms
      go true h =
          (scan_up_down_type_folder-pairs fs.path_join fs.read_dir folder_name path ms keep h).0
      go false h =
          unfold scan_change_type_folder in
          scan_folder-IsWellFormed fs.path_join fs.read_dir change_file folder_name path ms keep h

  add_extra-IsScanned :
      (folder_name : Text) (ver : V) (ms : MigrationScripts) (lfs : LocalFolders V)
      → IsWellFormed ms
      → All IsScanned lfs
      → All IsScanned (add_extra sv fs folder_name ver ms lfs)
  unfolding add_extra
  add_extra-IsScanned folder_name ver ms [] w h = tt
  add_extra-IsScanned folder_name ver ms (v ∷ lfs) w h =
      go (sv.equal v.version ver) (add_extra-IsScanned folder_name ver ms lfs w h.1)
    where
      go :
          (b : Bool)
          → All IsScanned (add_extra sv fs folder_name ver ms lfs)
          → All IsScanned (
              if b
              then record v { extra_folders = insert folder_name ms v.extra_folders } ∷ lfs
              else v ∷ add_extra sv fs folder_name ver ms lfs)
      go true rest = (
        record {
          scripts = h.0.scripts;
          has_schema = h.0.has_schema;
          schema = h.0.schema;
          extra = insert-All IsWellFormed folder_name v.extra_folders ms w h.0.extra;
        },
        h.1,
      )
      go false rest = (h.0, rest)

module _ {V : Type 0} (sv : Semver V) (fs : FileSystem) ⦃files : SortSlice MigrationFile⦄ where
  scan_extra-Keeps :
      (folder_name : Text) (detail : Option FolderDetail) (ver : V) (path : Text)
      → Keeps (All IsScanned) (scan_extra sv fs folder_name detail ver path)
  unfolding scan_extra
  scan_extra-Keeps folder_name detail ver path = record {
    after = λ lfs h. branch (is_local sv fs ver lfs) lfs h (found detail);
  }
    where
      scan : Outcome Scanned
      scan = deref detail >>=' λ d. scan_by_type sv fs d.migration_type folder_name path

      found :
          (o : Option FolderDetail) (s : Scanned)
          → (deref o >>=' λ d. scan_by_type sv fs d.migration_type folder_name path) ≡ ok s
          → IsWellFormed s.0
      found none s e = cc
      found (some d) s e = scan_by_type-IsWellFormed sv fs d.migration_type folder_name path s e

      stored :
          (r : Outcome Scanned) (lfs : LocalFolders V)
          → All IsScanned lfs
          → ((s : Scanned) → r ≡ ok s → IsWellFormed s.0)
          → All IsScanned
              ((lift r >>= λ scanned.
                  modify (add_extra sv fs folder_name ver scanned.0)
                  >> pure {A = Option (LocalVersionFolder V)} none)
                lfs).1
      stored (ok s) lfs h w = add_extra-IsScanned sv fs folder_name ver s.0 lfs (w s refl) h
      stored (fail m args) lfs h w = h
      stored panic lfs h w = h

      branch :
          (b : Bool) (lfs : LocalFolders V)
          → All IsScanned lfs
          → ((s : Scanned) → scan ≡ ok s → IsWellFormed s.0)
          → All IsScanned
              (if b
                then (lift scan >>= λ scanned.
                      modify (add_extra sv fs folder_name ver scanned.0)
                      >> pure {A = Option (LocalVersionFolder V)} none)
                    lfs
                else (fail "unspecified schema for version of '%s'" (path ∷ []), lfs)).1
      branch true lfs h w = stored scan lfs h w
      branch false lfs h w = h

  scan_extras-Keeps :
      (folders : Dict Text (Option FolderDetail))
      → Keeps (All IsScanned) (scan_extras sv fs folders)
  unfolding scan_extras
  scan_extras-Keeps [] = Keeps-pure tt
  scan_extras-Keeps ((folder_name, detail) ∷ folders) =
      Keeps->>= _ _
        (open_folder-Keeps sv fs folder_name (scan_extra sv fs folder_name detail)
          (scan_extra-Keeps folder_name detail))
        (λ _. scan_extras-Keeps folders)

module _ {V : Type 0} (sv : Semver V) (fs : FileSystem) ⦃files : SortSlice MigrationFile⦄ where
  scan_schema-IsScanned :
      (schema : SchemaFolder) (ver : V) (path : Text) (s : Unit {0}) (v : LocalVersionFolder V)
      → (scan_schema sv fs schema ver path s).0 ≡ ok (some v)
      → IsScanned v
  unfolding scan_schema
  scan_schema-IsScanned schema ver path s v h =
      go (scan_by_type sv fs schema.migration_type schema.folder_name path)
        (scan_by_type-IsWellFormed sv fs schema.migration_type schema.folder_name path) h
    where
      counted :
          (b : Bool) (ms : MigrationScripts)
          → IsWellFormed ms
          → (if b
              then none
              else some (record {
                version = ver;
                schema_folder = some ms;
                extra_folders = [];
                snapshots = [];
              }))
            ≡ some v
          → IsScanned v
      counted true ms w e = cc
      counted false ms w e =
          subst IsScanned (some-injective e)
            (record { scripts = ms; has_schema = refl; schema = w; extra = tt })

      go :
          (r : Outcome Scanned)
          → ((s : Scanned) → r ≡ ok s → IsWellFormed s.0)
          → (continue {B = Option (LocalVersionFolder V)} r
              (λ scanned. pure (schema_version sv fs ver scanned))
              s).0
            ≡ ok (some v)
          → IsScanned v
      go (ok (ms, keep)) w e =
          counted (is_empty ms.up && not keep) ms (w (ms, keep) refl) (ok-injective e)
      go (fail m args) w e = cc
      go panic w e = cc

  -- Every version that `scanSchemaAndExtraFolders` returns has scripts of the schema folder, and in
  -- the schema folder as in each other folder upgrades and downgrades are apart and no number
  -- stands twice among either.
  pub scan_schema_and_extra_folders-IsScanned :
      (planner : Planner) (lfs : LocalFolders V)
      → scan_schema_and_extra_folders sv fs planner ≡ ok lfs
      → All IsScanned lfs
  unfolding scan_schema_and_extra_folders
  scan_schema_and_extra_folders-IsScanned planner lfs h =
      let (p, _, h1) = >>=-eq-ok (deref planner.config.planner) _ h in
      let (schema, _, h2) = >>=-eq-ok (deref p.schema_folder) _ h1 in
      let (found, e, h3) =
        >>=-eq-ok (open_folder sv fs schema.folder_name (scan_schema sv fs schema) tt).0 _ h2 in
      let all =
        open_folder-All sv fs IsScanned schema.folder_name (scan_schema sv fs schema)
          (scan_schema-IsScanned schema) tt found e in
      finished (scan_extras sv fs p.folders found).0 (scan_extras sv fs p.folders found).1
        ((scan_extras-Keeps sv fs p.folders).after found all) h3
    where
      finished :
          (r : Outcome (Unit {0})) (after : LocalFolders V)
          → All IsScanned after
          → written_to sv fs (r, after) ≡ ok lfs
          → All IsScanned lfs
      finished (ok u) after all e = subst (All IsScanned) (ok-injective e) all
      finished (fail m args) after all e = cc
      finished panic after all e = cc
