-- ===== src/Migrator/Scanner/Folder.antt =====
-- `scanFolder`, `scanChangeTypeFolder` and `scanUpDownTypeFolder` of migrator/scanner.go: the
-- migration files of one version in one folder.
use mathlib.Core.List.{reverse}
use neo4j_graph_tool_core.Base.{
  Text, codes, text_keys, ◌==◌, int_keys, Option, none, some, List, [], ◌∷◌, ◌++◌, Bool, false, not,
  ◌||◌, any, eqb, has_prefix, length, Outcome, ok, fail, panic, refuse_if, if◌then◌else◌,
}
use neo4j_graph_tool_core.Base.Int.{pos}
use neo4j_graph_tool_core.Base.Result.{◌>>=◌, ◌>>◌}
use neo4j_graph_tool_core.Base.Sort.{SortSlice}
use neo4j_graph_tool_core.Migrator.Files.{
  MigrationFile, MigrationScripts, no_scripts, cypher, sort_up_files, sort_down_files,
}
use neo4j_graph_tool_core.Migrator.Target.{format_nat, format_int}
use neo4j_graph_tool_core.Migrator.Scanner.Names.{
  Groups, Pattern, up_down_file, change_file, find_submatch, parse_file_name, equal_fold,
}

-- `os.DirEntry`
pub record DirEntry : Type 0 where
  pub name : Text
  pub is_dir : Bool

-- The scripts so far, and whether the file that keeps an empty version was seen.
abbrev pub Scanned : Type 0
Scanned = MigrationScripts × Bool

abbrev pub same_number : MigrationFile → MigrationFile → Bool
same_number mf v = v.timestamp == mf.timestamp

-- A file goes to the upgrades or the downgrades, unless its number is taken there.
unfoldable pub add_file : Text → MigrationFile → Scanned → Outcome Scanned
add_file dir_path mf (ms, keep) =
    if mf.is_downgrade
    then refuse_if (any (same_number mf) ms.down)
        "can't have two down commit match '%d' in folder '%s'"
        (format_int mf.timestamp ∷ dir_path ∷ [])
      >> ok (record ms { down = ms.down ++ mf ∷ [] }, keep)
    else refuse_if (any (same_number mf) ms.up) "can't have two commit match '%d' in folder '%s'"
        (format_int mf.timestamp ∷ dir_path ∷ [])
      >> ok (record ms { up = ms.up ++ mf ∷ [] }, keep)

-- `path_join` is `path.Join`.
module _ (path_join : Text → Text → Text) (pattern : Pattern) (folder_name dir_path : Text) where
  abbrev pub new_file : Text → MigrationFile
  new_file name = record {
    folder_name = folder_name;
    path = path_join dir_path name;
    file_type = cypher;
    timestamp = pos 0;
    is_downgrade = false;
    is_snapshot = false;
  }

  abbrev pub add_matched : Text → Option Groups → Scanned → Outcome Scanned
  add_matched name none scanned = fail "file '%s' has invalid name" (path_join dir_path name ∷ [])
  add_matched name (some match) scanned =
      parse_file_name match (new_file name) >>= λ mf. add_file dir_path mf scanned

  -- The body of the loop of `scanFolder`.
  unfoldable pub scan_entry : DirEntry → Scanned → Outcome Scanned
  scan_entry info (ms, keep) =
      if info.is_dir
      then ok (ms, keep)
      else if has_prefix info.name (codes ".")
      then ok (ms, keep || equal_fold info.name (codes ".keep_version_folder"))
      else add_matched info.name (find_submatch pattern info.name) (ms, keep)

  unfoldable pub scan_entries : List DirEntry → Scanned → Outcome Scanned
  scan_entries [] scanned = ok scanned
  scan_entries (info ∷ list) scanned = scan_entry info scanned >>= scan_entries list

-- `read_dir` is the listing of a directory by `os.Open` and `ReadDir`.
module _ (path_join : Text → Text → Text) (read_dir : Text → Outcome (List DirEntry))
    ⦃files : SortSlice MigrationFile⦄ where
  -- `scanFolder`
  unfoldable pub scan_folder : Pattern → Text → Text → Outcome Scanned
  scan_folder pattern folder_name dir_path = do
    list ← read_dir dir_path
    scanned ← scan_entries path_join pattern folder_name dir_path list (no_scripts, false)
    ok (sort_down_files (sort_up_files scanned.0), scanned.1)

  -- `scanChangeTypeFolder`
  unfoldable pub scan_change_type_folder : Text → Text → Outcome Scanned
  scan_change_type_folder = scan_folder change_file

  -- The second loop of `scanUpDownTypeFolder`, over the upgrades and the downgrades from the last.
  unfoldable pub check_pairs : List MigrationFile → List MigrationFile → Outcome (Unit {0})
  check_pairs [] downs = ok tt
  check_pairs (v ∷ ups) [] = panic
  check_pairs (v ∷ ups) (d ∷ downs) =
      refuse_if (not (d.timestamp == v.timestamp)) "inconsistent state: missing down part of '%s'"
        (v.path ∷ [])
      >> check_pairs ups downs

  -- `scanUpDownTypeFolder`
  unfoldable pub scan_up_down_type_folder : Text → Text → Outcome Scanned
  scan_up_down_type_folder folder_name dir_path = do
    scanned ← scan_folder up_down_file folder_name dir_path
    refuse_if (not (eqb (length scanned.0.up) (length scanned.0.down)))
        "inconsistent state in '%s': found %d up and %d down script"
        (dir_path ∷ format_nat (length scanned.0.up) ∷ format_nat (length scanned.0.down) ∷ [])
    check_pairs scanned.0.up (reverse scanned.0.down)
    ok scanned
