-- ===== src/Tests/UpdateWitnesses.antt =====
-- The theorems on updates, utilities and the database query, at concrete data.
use Prim.Native.String.{String}
use mathlib.Core.List.Memᴰ.{head, tail}
use neo4j_graph_tool_core.Base.{
  ℕ, Text, codes, text_keys, int_keys, ◌==◌, Option, none, some, List, [], ◌∷◌, ◌++◌, map, any,
  Bool, true, false, ◌≡◌, ◌≢◌, refl, ap, subst, arith, Outcome, if◌then◌else◌, ok, fail, All, eqb,
  ◌⊎◌, inl, inr,
}
use neo4j_graph_tool_core.Base.Int.{ℤ, pos}
use neo4j_graph_tool_core.Base.Dict.{lookup, insert, some-injective}
use neo4j_graph_tool_core.Base.Monad.{for_each}
use neo4j_graph_tool_core.Config.Defs.{Config, SupervisorConfig}
use neo4j_graph_tool_core.Supervisor.Wrapper.{Wrapper, running, new_wrapper, set_updating}
use neo4j_graph_tool_core.Supervisor.Utility.{Utils, start_utility}
use neo4j_graph_tool_core.Supervisor.Utility.Lock.{
  IsBlocked, start_utility-waits, start_utility-blocks,
}
use neo4j_graph_tool_core.Migrator.Database.{DatabaseModel, was_executed}
use neo4j_graph_tool_core.Migrator.Version.{
  query_version, version, add_version, add_versions, read_attempt, read_columns, read_column,
  read_files, Session,
}
use neo4j_graph_tool_core.Migrator.Version.Recorded.{Record, answer, decoded, query_version-answer}
use neo4j_graph_tool_core.Migrator.Version.Folders.{kept, rows_of, IsKept, version-keeps}
use neo4j_graph_tool_core.Tests.Fixtures.{
  ranks, sort_files, sort_folders, config, planner_config, schema_detail,
}
use neo4j_graph_tool_core.Config.Validate.{
  validate, validate_structure, validate_values, validate_supervisor, validate_planner,
  string_in_array, duplicate_elements, find_duplicate, validate_commands,
  validate_folders_and_batches, validate_folders, validate_folder, validate_batches,
  validate_batch_folders,
}
use neo4j_graph_tool_core.Migrator.Files.{sort_by_version}
use neo4j_graph_tool_core.Migrator.Steps.{cypher_step, add_cypher, write_last, written}
use neo4j_graph_tool_core.Migrator.Plan.Versions.{
  new_planner, collect, batch_folders, plan_versions, beyond_last,
}
use neo4j_graph_tool_core.Migrator.Plan.Run.{plan, run_plan}
use neo4j_graph_tool_core.Migrator.Scanner.Tree.{
  names_of, FileSystem, open_names, open_folder, scan_extra, scan_extras,
  scan_schema_and_extra_folders,
}
use neo4j_graph_tool_core.Migrator.Scanner.Snapshots.{scan_folders, add_snapshots_to, add_snapshots}
use neo4j_graph_tool_core.Supervisor.Helpers.{
  get_import_dir, ends_with_slash, drop, get_neo4j_basic_auth,
}
use neo4j_graph_tool_core.Supervisor.Helpers.Auth.{get_neo4j_basic_auth-valid}
use neo4j_graph_tool_core.Migrator.Scanner.Root.{directory, new_scanner}
use neo4j_graph_tool_core.Supervisor.Update.{Host, known_model, make_steps, update, update_body}
use neo4j_graph_tool_core.Supervisor.Update.Errors.{update-errors, update-blocks}
use neo4j_graph_tool_core.Supervisor.Update.Commands.{
  update_body-commands, with_commands, AreAlike, shell, configured,
}
use neo4j_graph_tool_core.Supervisor.Update.Success.{IsQuiet, update-succeeds}

abbrev pub quiet : Utils
quiet = record { utils_cmd = []; locked = false }

start_utility-waits_example :
    (after : Utils) × (start_utility
        (λ args. ok 7)
        (λ p. fail "exit status 1" [])
        (codes "gt" ∷ [])
        quiet
      ≡ some (fail "exit status 1" [], after))
    × (after.locked ≡ false)
    × ((k : Text) → lookup k after.utils_cmd ≡ lookup k quiet.utils_cmd)
start_utility-waits_example =
    start_utility-waits (λ args. ok 7) (λ p. fail "exit status 1" []) (codes "gt") [] quiet 7 refl
      (unfold lookup in refl) refl

start_utility-blocks_example :
    (m : String) × (details : List Text) × (after : Utils) × (start_utility
        (λ args. fail "no such file" [])
        (λ p. ok tt)
        (codes "gt" ∷ [])
        quiet
      ≡ some (fail m details, after))
    × IsBlocked (λ args. fail "no such file" []) (λ p. ok tt) after
start_utility-blocks_example =
    start_utility-blocks (λ args. fail "no such file" []) (λ p. ok tt) (codes "gt") [] quiet refl
      (inr ("no such file", [], refl))

abbrev pub recorded : List (Record ℕ)
recorded = record { text = codes "v1"; version = 2; numbers = pos 10 ∷ pos 20 ∷ [] } ∷ []

query_version-answer_example :
    (query_version ranks [] (answer ranks recorded) [] ≡ (ok tt, map (decoded ranks) recorded))
    × ((r : Record ℕ) (n : ℤ)
        → was_executed (decoded ranks r).file_timestamps n ≡ any (λ k. k == n) r.numbers)
query_version-answer_example = query_version-answer ranks recorded (((λ e. cc), refl), tt)

abbrev pub session : Session ranks
session cypher = ([], answer ranks recorded)

abbrev database : DatabaseModel (Option ℕ)
database =
    (codes "schema", map (decoded ranks) recorded)
    ∷ (codes "data", map (decoded ranks) recorded)
    ∷ []

database_read : version ranks session config ≡ ok database
unfolding version add_version add_versions query_version read_attempt read_columns read_column
    read_files insert for_each
database_read = refl

version-keeps_example :
    (lookup (codes "schema") database ≡ kept (rows_of ranks session schema_detail.node_labels))
    × All (IsKept ranks session database) planner_config.folders
    × ((k : Text)
        → codes "schema" ≢ k
        → All (λ f. f.0 ≢ k) planner_config.folders
        → lookup k database ≡ none)
version-keeps_example =
    version-keeps ranks session config planner_config schema_detail database refl refl (tt, tt)
      ((λ e. cc), tt) database_read

abbrev pub supervisor_config : SupervisorConfig
supervisor_config = record {
  log_level = codes "info";
  default_graph_version = [];
  initial_batch = codes "schema";
  neo4j_auth = codes "u/p";
  neo4j_database = [];
  port = pos 8080;
}

abbrev pub served_config : Config
served_config = record { supervisor = some supervisor_config; planner = some planner_config }

-- A configuration whose folders are empty: a clean update only drops.
abbrev pub empty_disk : FileSystem
empty_disk = record {
  resolve = λ dir. dir;
  path_join = λ dir name. name;
  list_names = λ dir. ok (names_of []);
  read_dir = λ dir. ok [];
}

abbrev pub host_with : (Option Text → List Text → Outcome ℕ) → Host ranks
host_with start_cmd = record {
  session = session;
  stat = λ path. directory;
  file_system = λ root. empty_disk;
  read_file = λ path. ok [];
  absolute = λ path. ok path;
  start_cmd = start_cmd;
  waited = λ p. ok tt;
  first_acquired = ok tt;
  last_acquired = ok tt;
}

abbrev pub host : Host ranks
host = host_with (λ stdin args. ok 7)

abbrev broken_host : Host ranks
broken_host = host_with (λ stdin args. fail "no such file" [])

abbrev pub drop_text : Text
drop_text = codes "// wipe out the entire database\n:source /initial-data/import/drop.cypher\n"

abbrev pub service : Wrapper
service = record { service_state = running; service_cmd = some 0; cancel_waiting = none }

pub made_drop :
    (start_cmd : Option Text → List Text → Outcome ℕ)
    → make_steps ranks (host_with start_cmd) served_config none true (codes "seed") []
      ≡ (ok tt, cypher_step drop_text ∷ [])
unfolding make_steps known_model new_scanner new_planner validate validate_structure validate_values
    validate_planner validate_commands validate_folders_and_batches validate_folders validate_folder
    validate_batches validate_batch_folders string_in_array duplicate_elements find_duplicate
    scan_folders scan_schema_and_extra_folders open_folder open_names scan_extras scan_extra
    add_snapshots_to add_snapshots drop get_import_dir ends_with_slash add_cypher write_last written
    plan collect batch_folders plan_versions beyond_last sort_by_version run_plan for_each lookup
    validate_supervisor sort_folders any
made_drop start_cmd = refl

refused_update :
    update ranks host served_config none false true (codes "seed") quiet new_wrapper
    ≡ some (
      fail "cannot run import when service is '%s', must be running" (codes "Stopped" ∷ []),
      quiet,
      new_wrapper,
    )
unfolding update set_updating
refused_update = refl

update-errors_example :
    ((set_updating (ok tt) new_wrapper).0
      ≡ fail "cannot run import when service is '%s', must be running" (codes "Stopped" ∷ []))
    ⊎ ((make_steps ranks host served_config none true (codes "seed") []).0
        ≡ fail "cannot run import when service is '%s', must be running" (codes "Stopped" ∷ []))
    ⊎ (◌≡◌ {A = Outcome (Unit {0})}
        (ok tt)
        (fail "cannot run import when service is '%s', must be running" (codes "Stopped" ∷ [])))
update-errors_example =
    update-errors ranks host served_config none true (codes "seed") quiet quiet new_wrapper
      new_wrapper "cannot run import when service is '%s', must be running" (codes "Stopped" ∷ [])
      refused_update

update-blocks_example :
    (after : Utils) × (update ranks broken_host served_config none false true
        (codes "seed")
        quiet
        service
      ≡ some (ok tt, after, service))
    × (update ranks broken_host served_config none false true (codes "seed") after service ≡ none)
update-blocks_example =
    update-blocks ranks broken_host served_config planner_config supervisor_config none true
      (codes "seed") drop_text [] refl refl refl refl
      (made_drop (λ stdin args. fail "no such file" [])) quiet service "no such file" [] refl refl
      refl

pub no_utilities : (k : Text) → lookup k quiet.utils_cmd ≡ none
unfolding lookup
no_utilities k = refl

update-succeeds_example :
    (after : Utils) × (update ranks host served_config none false true (codes "seed") quiet service
      ≡ some (ok tt, after, service))
    × IsQuiet after
update-succeeds_example =
    update-succeeds ranks host served_config planner_config supervisor_config none true
      (codes "seed") quiet service refl refl refl refl (λ stdin args. (7, refl)) (λ p. refl)
      (ap (λ r. r.0) (made_drop (λ stdin args. ok 7))) (refl, no_utilities) refl

-- Commands of which only `cypher-shell` starts.
abbrev only_shell : Option Text → List Text → Outcome ℕ
only_shell stdin [] = ok 7
only_shell stdin (a ∷ args) = if a == codes "rm" then fail "not permitted" [] else ok 7

one_program :
    (stdin : Option Text) (name path : Text) (args : List Text)
    → lookup name planner_config.allowed_commands ≡ some path
    → ok 7 ≡ only_shell stdin (path ∷ args)
unfolding lookup
one_program stdin name path args e = go (codes "gt" == name) e
  where
    go :
        (b : Bool)
        → (if b then some (codes "/app/gt") else none) ≡ some path
        → ok 7 ≡ only_shell stdin (path ∷ args)
    go true e = subst (λ p. ok 7 ≡ only_shell stdin (p ∷ args)) (some-injective e) refl
    go false e = cc

permitted_alike : AreAlike planner_config host.start_cmd only_shell
permitted_alike stdin _ shell = refl
permitted_alike stdin _ (configured name {path} {args} e) = one_program stdin name path args e

update_body-commands_example :
    update_body ranks host served_config none false true (codes "seed") quiet
    ≡ update_body ranks
        (with_commands ranks host served_config only_shell)
        served_config
        none
        false
        true
        (codes "seed")
        quiet
update_body-commands_example =
    update_body-commands ranks host served_config planner_config only_shell none false true
      (codes "seed") quiet refl permitted_alike

get_neo4j_basic_auth-valid_example :
    ((supervisor_config.neo4j_auth ≡ [])
      × (get_neo4j_basic_auth supervisor_config.neo4j_auth ≡ ([], [], [])))
    ⊎ ((username : Text) × (password : Text) × (get_neo4j_basic_auth supervisor_config.neo4j_auth
          ≡ (username, password, []))
        × (supervisor_config.neo4j_auth ≡ username ++ (b'/' ∷ password))
        × All (λ c. eqb c b'/' ≡ false) username)
get_neo4j_basic_auth-valid_example =
    get_neo4j_basic_auth-valid ranks planner_config supervisor_config (record {
      version = inl refl;
      batch = inl refl;
      port = (8080, refl, omega arith, omega arith);
      auth = inr (tail (head refl));
      log_level = tail (tail (tail (tail (head refl))));
    })
