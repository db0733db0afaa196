-- ===== src/Tests/ScanWitnesses.antt =====
-- The theorems on the scanner at a small file system.
use neo4j_graph_tool_core.Base.{
  ℕ, Text, text_keys, codes, some, List, [], ◌∷◌, true, false, ◌≡◌, refl, ok, map, ◌==◌,
  if◌then◌else◌, ◌⊎◌, any, All, none, fail, arith,
}
use mathlib.Core.List.{reverse}
use neo4j_graph_tool_core.Base.Int.{pos}
use neo4j_graph_tool_core.Base.Dict.{lookup, insert}
use neo4j_graph_tool_core.Migrator.Files.{
  MigrationFile, MigrationScripts, LocalVersionFolder, cypher, command, sort_up_files,
  sort_down_files,
}
use neo4j_graph_tool_core.Migrator.Target.{parse_int, parse_nat, scan_digits}
use neo4j_graph_tool_core.Migrator.Scanner.Names.{
  fold_code, equal_fold, is_word, span, after, match_ending, match_direction, find_submatch,
  parse_file_name, Groups,
}
use neo4j_graph_tool_core.Migrator.Generate.{file_name}
use neo4j_graph_tool_core.Migrator.Generate.Named.{file_pattern, direction_text, file_name-parses}
use neo4j_graph_tool_core.Migrator.Scanner.Folder.{
  DirEntry, add_file, scan_entry, scan_entries, scan_folder, scan_up_down_type_folder, check_pairs,
}
use neo4j_graph_tool_core.Migrator.Scanner.Tree.{
  names_of, FileSystem, open_names, open_folder, scan_schema, add_extra, scan_extra, scan_extras,
  scan_schema_and_extra_folders,
}
use neo4j_graph_tool_core.Migrator.Scanner.Scripts.{IsWellFormed, scan_up_down_type_folder-pairs}
use neo4j_graph_tool_core.Migrator.Scanner.Local.{IsScanned}
use neo4j_graph_tool_core.Migrator.Scanner.Snapshots.{
  scan_folders, add_snapshots_to, add_snapshots, add_snapshot, find_snapshot, split_last,
}
use neo4j_graph_tool_core.Migrator.Scanner.Whole.{scan_folders-IsScanned, collect-scan_folders}
use neo4j_graph_tool_core.Migrator.Plan.Versions.{VersionPlan, new_planner, collect}
use neo4j_graph_tool_core.Config.Validate.{
  validate, validate_structure, validate_values, validate_supervisor, validate_planner,
  string_in_array, duplicate_elements, find_duplicate, validate_commands,
  validate_folders_and_batches, validate_folders, validate_folder, validate_batches,
  validate_batch_folders,
}
use neo4j_graph_tool_core.Tests.Fixtures.{
  ranks-IsSemver, config, ranks, sort_files, sort_folders, planner,
}

abbrev file : Text → DirEntry
file name = record { name = name; is_dir = false }

abbrev listing : List DirEntry
listing =
    file (codes "20_up_b.run")
    ∷ file (codes "10_up_a.cypher")
    ∷ file (codes ".keep_version_folder")
    ∷ file (codes "20_down_b.cypher")
    ∷ file (codes "10_down_a.cypher")
    ∷ []

abbrev disk : FileSystem
disk = record {
  resolve = λ dir. dir;
  path_join = λ dir name. name;
  list_names = λ dir. ok (
      if dir == codes "schema"
      then names_of (codes "v1" ∷ codes ".git" ∷ [])
      else if dir == codes "snapshots"
      then names_of (codes "seed_v2.run" ∷ [])
      else names_of []);
  read_dir = λ dir. ok listing;
}

abbrev up_10 : MigrationFile
up_10 = record {
  folder_name = codes "schema";
  path = codes "10_up_a.cypher";
  file_type = cypher;
  timestamp = pos 10;
  is_downgrade = false;
  is_snapshot = false;
}

abbrev down_10 : MigrationFile
down_10 = record up_10 { path = codes "10_down_a.cypher"; is_downgrade = true }

abbrev up_20 : MigrationFile
up_20 = record up_10 { path = codes "20_up_b.run"; file_type = command; timestamp = pos 20 }

abbrev down_20 : MigrationFile
down_20 = record up_10 { path = codes "20_down_b.cypher"; timestamp = pos 20; is_downgrade = true }

abbrev on_disk : MigrationScripts
on_disk = record { up = up_10 ∷ up_20 ∷ []; down = down_20 ∷ down_10 ∷ [] }

folder_scanned :
    scan_up_down_type_folder disk.path_join disk.read_dir (codes "schema") (codes "v1")
    ≡ ok (on_disk, true)
unfolding scan_up_down_type_folder scan_folder scan_entries scan_entry add_file check_pairs
    find_submatch parse_file_name fold_code equal_fold is_word span after match_ending
    match_direction parse_int parse_nat scan_digits any sort_up_files sort_down_files sort_files
folder_scanned = refl

scan_up_down_type_folder-pairs_example :
    IsWellFormed on_disk
    × (map (λ (f : MigrationFile). f.timestamp) on_disk.up
        ≡ map (λ (f : MigrationFile). f.timestamp) (reverse on_disk.down))
scan_up_down_type_folder-pairs_example =
    scan_up_down_type_folder-pairs disk.path_join disk.read_dir (codes "schema") (codes "v1")
      on_disk true folder_scanned

abbrev local_1 : LocalVersionFolder ℕ
local_1 = record { version = 2; schema_folder = some on_disk; extra_folders = []; snapshots = [] }

disk_scanned : scan_schema_and_extra_folders ranks disk planner ≡ ok (local_1 ∷ [])
unfolding scan_schema_and_extra_folders scan_schema scan_extras scan_extra add_extra open_folder
    open_names lookup insert scan_up_down_type_folder scan_folder scan_entries scan_entry add_file
    check_pairs find_submatch parse_file_name fold_code equal_fold is_word span after match_ending
    match_direction parse_int parse_nat scan_digits any sort_up_files sort_down_files sort_files
disk_scanned = refl

abbrev seed_snapshot : MigrationFile
seed_snapshot = record {
  folder_name = codes "snapshots";
  path = codes "seed_v2.run";
  file_type = command;
  timestamp = pos 0;
  is_downgrade = false;
  is_snapshot = true;
}

abbrev local_2 : LocalVersionFolder ℕ
local_2 = record local_1 { snapshots = (codes "seed", seed_snapshot) ∷ [] }

all_scanned : scan_folders ranks disk planner ≡ ok (local_2 ∷ [])
unfolding scan_folders add_snapshots_to add_snapshots add_snapshot find_snapshot lookup insert any
    scan_schema_and_extra_folders scan_schema scan_extras scan_extra add_extra open_folder
    open_names scan_up_down_type_folder scan_folder scan_entries scan_entry add_file check_pairs
    find_submatch parse_file_name fold_code equal_fold is_word span after match_ending
    match_direction parse_int parse_nat scan_digits split_last sort_up_files sort_down_files
    sort_files
all_scanned = refl

planner_accepted : new_planner ranks (some config) ≡ ok planner
unfolding new_planner validate validate_structure validate_values validate_supervisor
    validate_planner string_in_array duplicate_elements find_duplicate validate_commands
    validate_folders_and_batches validate_folders validate_folder validate_batches
    validate_batch_folders lookup any
planner_accepted = refl

scan_folders-IsScanned_example : All IsScanned (local_2 ∷ [])
scan_folders-IsScanned_example =
    scan_folders-IsScanned ranks disk planner (local_2 ∷ []) all_scanned

collect-scan_folders_example :
    let r = collect ranks planner (local_2 ∷ []) [] none (codes "seed") in
    ((vps : List (VersionPlan ℕ)) × (r ≡ ok vps))
    ⊎ ((r ≡ fail "unknown batch name '%s'" (codes "seed" ∷ []))
        ⊎ (r ≡ fail "specified target %s version does not exist" []))
collect-scan_folders_example =
    collect-scan_folders ranks ranks-IsSemver disk (some config) planner (local_2 ∷ []) [] none
      (codes "seed") planner_accepted all_scanned

file_name-parses_example :
    (match : Groups) × (find_submatch
        (file_pattern true)
        (file_name (codes "add_it") (direction_text true) (pos 15) true cypher)
      ≡ some match)
    × (parse_file_name match up_10
        ≡ ok (record up_10 { timestamp = pos 15; is_downgrade = true; file_type = cypher }))
unfolding is_word fold_code
file_name-parses_example =
    file_name-parses 15 true (codes "add_it") cypher refl
      (refl, (refl, (refl, (refl, (refl, (refl, tt)))))) true up_10 (omega arith) (omega arith)
