-- ===== src/Migrator/Generate.antt =====
-- `GenerateMigrationFiles` and `writeMigrationFile` of migrator/scanner.go.
pub mod Named
use Prim.Native.String.{String}
use neo4j_graph_tool_core.Base.{
  ℕ, Text, codes, text_keys, ◌==◌, Option, none, some, List, [], ◌∷◌, ◌++◌, Bool, true, false,
  Outcome, ok, fail, panic, deref, if◌then◌else◌,
}
use neo4j_graph_tool_core.Base.Dict.{Dict, lookup}
use neo4j_graph_tool_core.Base.Int.{ℤ, pos, eqb_ℤ}
use neo4j_graph_tool_core.Base.Monad.{Exec, pure, lift, modify, ◌>>=◌, ◌>>◌}
use neo4j_graph_tool_core.Semver.{Semver}
use neo4j_graph_tool_core.Config.Defs.{PlannerConfig, SchemaFolder, FolderDetail}
use neo4j_graph_tool_core.Migrator.Files.{FileType, cypher, command, TargetVersion}
use neo4j_graph_tool_core.Migrator.Target.{format_int}

-- The calls that write: a directory that is made, and a file with its text.
pub data Written : Type 0 where
  made_folder : Text → Written
  wrote_file : (path text : Text) → Written

-- The folder of the scanner, and what the generator calls: `path.Clean` and `filepath.Clean`,
-- `filepath.Join`, whether a path exists as `os.Stat` tells, `os.Mkdir` and `os.WriteFile`.
pub record Disk : Type 0 where
  pub base_dir : Text
  pub clean_path : Text → Text
  pub clean_file_path : Text → Text
  pub join_path : Text → Text → Text
  pub exists_at : Text → Bool
  pub make_folder : Text → Outcome (Unit {0})
  pub write_file : Text → Outcome (Unit {0})

abbrev pub Writes : Type 0
Writes = List Written

-- `resolve`
unfoldable pub resolve : Disk → Text → Text
resolve disk dir = disk.join_path disk.base_dir (disk.clean_path dir)

-- A call that writes, when it gives no error.
abbrev pub logged : Outcome (Unit {0}) → Written → Exec Writes (Unit {0})
logged r w = lift r >> modify (λ ws. ws ++ w ∷ [])

abbrev pub direction_prefix : Bool → Text → Text
direction_prefix is_up_down direction = if is_up_down then direction ++ codes "_" else []

abbrev pub suffix_of : FileType → Text
suffix_of cypher = codes ".cypher"
suffix_of command = codes ".run"

abbrev pub content_of : FileType → Text
content_of cypher = codes "return 1;\n"
content_of command = codes "exit\n"

-- The name of a generated file.
unfoldable pub file_name : Text → Text → ℤ → Bool → FileType → Text
unfolding format_int
file_name migration_name direction revision is_up_down file_type =
    format_int revision
    ++ (b'_' ∷ (direction_prefix is_up_down direction ++ (migration_name ++ suffix_of file_type)))

abbrev pub is_up_down_type : Text → Bool
is_up_down_type migration_type = migration_type == codes "up_down"

abbrev pub detail_is_up_down : Text → Option (Option FolderDetail) → Outcome Bool
detail_is_up_down folder_name none = fail "folder does not exist: %s" (folder_name ∷ [])
detail_is_up_down folder_name (some none) = panic
detail_is_up_down folder_name (some (some fd)) = ok (is_up_down_type fd.migration_type)

-- Whether the folder has pairs of files.
unfoldable pub folder_is_up_down : PlannerConfig → SchemaFolder → Text → Outcome Bool
unfolding lookup
folder_is_up_down p schema folder_name =
    if folder_name == schema.folder_name
    then ok (is_up_down_type schema.migration_type)
    else detail_is_up_down folder_name (lookup folder_name p.folders)

module _ {V : Type 0} where
  abbrev pub checked_version : Option V → ℤ → Outcome (V × ℤ)
  checked_version none revision = fail "invalid version or revision" []
  checked_version (some v) revision =
      if eqb_ℤ revision (pos 0) then fail "invalid version or revision" [] else ok (v, revision)

  abbrev pub checked_target : Option (TargetVersion V) → Outcome (V × ℤ)
  checked_target none = fail "invalid version or revision" []
  checked_target (some t) = checked_version t.version t.revision

module _ (disk : Disk) where
  -- `writeMigrationFile`
  unfoldable pub write_migration_file :
      (file_path migration_name direction : Text) → ℤ → Bool → FileType → Exec Writes Text
  unfolding file_name
  write_migration_file file_path migration_name direction revision is_up_down file_type =
      let full_path =
        disk.join_path file_path
          (file_name migration_name direction revision is_up_down file_type) in
      logged (disk.write_file full_path) (wrote_file full_path (content_of file_type))
      >> pure full_path

  abbrev pub with_folder : Text → Exec Writes (Unit {0})
  with_folder dir_path =
      if disk.exists_at dir_path
      then pure tt
      else logged (disk.make_folder dir_path) (made_folder dir_path)

  abbrev pub write_down : Text → Text → ℤ → Bool → FileType → Text → Exec Writes (List Text)
  write_down dir_path migration_name revision is_up_down down_type up_path =
      if is_up_down
      then (write_migration_file dir_path migration_name (codes "down") revision true down_type
          >>= λ down_path. pure (up_path ∷ down_path ∷ []))
      else pure (up_path ∷ [])

  abbrev pub write_both : Text → Text → ℤ → Bool → FileType → FileType → Exec Writes (List Text)
  write_both dir_path migration_name revision is_up_down up_type down_type =
      write_migration_file dir_path migration_name (codes "up") revision is_up_down up_type
      >>= write_down dir_path migration_name revision is_up_down down_type

module _ {V : Type 0} (sv : Semver V) (disk : Disk) (p : PlannerConfig) where
  abbrev pub generate_at :
      Text → Text → Text → FileType → FileType → Bool → V × ℤ → Exec Writes (List Text)
  generate_at folder_path folder_name migration_name up_type down_type is_up_down target =
      if disk.exists_at folder_path
      then (let dir_path = disk.join_path folder_path (sv.original target.0) in
          with_folder disk dir_path
          >> write_both disk dir_path migration_name target.1 is_up_down up_type down_type)
      else lift (fail "folder does not exist: %s" (folder_name ∷ []))

  unfoldable pub generate_in :
      Text → Text → FileType → FileType → Bool → V × ℤ → Exec Writes (List Text)
  unfolding resolve write_migration_file
  generate_in folder_name =
      generate_at (resolve disk (disk.clean_file_path folder_name)) folder_name

  -- `GenerateMigrationFiles`: the paths of the files. On an error the paths do not matter.
  unfoldable pub generate_migration_files :
      Text → Option (TargetVersion V) → Text → FileType → FileType → Exec Writes (List Text)
  unfolding folder_is_up_down generate_in
  generate_migration_files folder_name version migration_name up_type down_type =
      lift (deref p.schema_folder) >>= λ schema.
      lift (folder_is_up_down p schema folder_name) >>= λ is_up_down.
      lift (checked_target version)
      >>= generate_in folder_name migration_name up_type down_type is_up_down
