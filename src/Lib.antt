-- ===== src/Lib.antt =====
-- Verification of neo4j-graph-tool-core, a tool that runs versioned migrations on a Neo4j database.
--
-- A planner is made from a validated configuration. The scanner reads the migration files of each
-- version, `Version` asks the database which of them were executed, and `Plan` computes from the
-- two which files to run, and calls a builder for each: `CreateBuilder` writes Cypher and commands
-- into the execution steps, which the supervisor hands to cypher-shell. The supervisor also starts
-- and stops the Neo4j process, keeps its state, and answers requests over HTTP.
--
-- Modules and the code they model:
--   Base: what the others share. Results of Go functions (a value, an error as its format and
--     arguments, or a panic), functions that write through a pointer, maps as association lists,
--     `sort.Slice` as a parameter with the law of a stable or unstable sort, text as code points.
--   Semver: the library github.com/Masterminds/semver/v3, a parameter with the laws of its order.
--   Config (config/config.go): Config.Defs the types and constants; Config.Validate `Validate`,
--     `ValidateWithSupervisor` and what they call; Config.Normalize `Normalize`;
--     Config.Load `LoadFile`. Config.Valid and its children hold the description of a valid
--     configuration and compare the code with it; Config.Normal is about normalized configurations.
--   Migrator.Files and Migrator.Database (migrator/scanner.go): the types `MigrationFile`,
--     `MigrationScripts`, `LocalFolders`, `DatabaseModel` and their methods; Migrator.Target:
--     `TargetVersion` as text, and decimal numbers, which Target.Digits is about.
--   Migrator.Scanner (migrator/scanner.go): Scanner.Root `NewScanner`; Scanner.Names the patterns
--     of the file names and `parseFileName`; Scanner.Folder `scanFolder`, `scanChangeTypeFolder` and
--     `scanUpDownTypeFolder`; Scanner.Tree `open` and `scanSchemaAndExtraFolders`;
--     Scanner.Snapshots `addSnapshotsTo` and `ScanFolders`. Scanner.Scripts, Scanner.Opened,
--     Scanner.Local and Scanner.Whole prove things of these.
--   Migrator.Plan (migrator/plan.go): Plan.Folder `planFolder`, `planUpgrade` and
--     `planDowngrade`; Plan.Versions the loop over the versions; Plan.Run the calls of the builder.
--     The other children prove: Effect what running a plan does, Replan planning after it, Calls
--     the builder's calls, Order their order, Snapshot the snapshots, Total and Safe the errors.
--   Migrator.Steps (migrator/execution.go): `ExecutionSteps` and `String`; Migrator.Command
--     `parseArgs` and `addCommand`; Migrator.Builder `CreateBuilder`; Migrator.Allowed,
--     Builder.Invariant, Builder.Steps, Builder.Record and Builder.Labels prove things of these.
--   Migrator.Generate (migrator/scanner.go): `GenerateMigrationFiles`, with Generate.Named about
--     the names of the files; Migrator.Json the JSON of the database model, with Json.Numbers.
--   Migrator.Version (migrator/version.go): `Version` and `queryVersion`; Version.Recorded and
--     Version.Folders prove things of these.
--   Supervisor.Wrapper (supervisor/neo4j.go): the state of `Neo4jWrapper` and what each method does
--     while it holds `serviceSem`; Supervisor.Waiting the loop of `WaitForNeo4j`;
--     Supervisor.Threads the goroutines that share the wrapper, as steps in any order. Of its
--     children, Tally, Matched, Moves and Invariant carry the invariant, Safety says what
--     cannot happen, Schedules and Races what can.
--   Supervisor.Utility (supervisor/neo4j.go): `startUtility`, `StopAll`, `AllStates` and `WaitAll`
--     with `utilsMux`, which Utility.Lock is about.
--   Supervisor.Update (supervisor/neo4j.go): `RefreshData` and `update`; Update.Allowed and
--     Update.Commands are about the commands it starts, Update.Errors and Update.Success about its
--     result.
--   Supervisor.TsCmd (supervisor/tscmd.go) and Supervisor.Helpers (supervisor/wrapper_helpers.go),
--     which Helpers.Auth is about.
--   Supervisor.Http (supervisor/server.go): the handlers, which Http.Answers is about.
--   Supervisor.Boot (supervisor/supervisor.go): `Start`, `bootstrapDB` and `stop`, which Boot.Stop
--     is about.
--   Tests: concrete data, and the theorems at it.
--
-- How state is modelled: a function that appends to the execution steps is a function from the
-- steps before to an outcome and the steps after, which keep what was written before a failure. A
-- sort in place returns the sorted list; that `Plan` also sorts the slice of its caller is not
-- modelled. Pointers that may be nil are options, and a dereferenced nil is a panic; `Plan`
-- dereferences the planner and its schema folder first in the model. Nil entries of the maps of
-- extra folders and snapshots are taken as missing entries, and a local version is not nil.
-- The order in which Go visits a map is the order of the association list, over which the
-- statements quantify. The constants preventSnapshot, runOutdated and preventRollback are false, as
-- in the code.
--
-- Concurrency: `serviceSem` is a semaphore of weight one, so that what runs under it is one step of
-- a goroutine; `spinUpMux` is a flag that a step waits for. The state that a method reads without
-- the semaphore, for the text of an error or at the end of `WaitForNeo4j` without checks, decides
-- nothing about the state. A step may be refused by `Acquire` once the context is cancelled, and a
-- process may end at any time; a signal may be refused. What the functions of Supervisor.Utility,
-- Supervisor.Update, Supervisor.Http and Supervisor.Boot do is stated for one goroutine while no
-- other uses the wrapper; a call that waits for a mutex that stays locked has no result there.
-- What `Acquire` gives is a parameter there, since it gives an error once the context is cancelled;
-- `stop` of Supervisor.Boot cancels the context itself.
-- A version of the database that is nil, of a row without that column, is a panic before planning.
--
-- Numbers: file numbers are integers as in the code; they are compared, never added to, so that no
-- bound is needed. Formatting a number runs on fuel, one round more than the number, while it has
-- fewer digits than that; every other loop is structural recursion, the checks for a connection on
-- the list of the events that they receive.
--
-- Parameters for code outside the repository: the semantic versions, `sort.Slice`, `os.ReadFile`,
-- the listing of directories, `os.Stat`, `os.Mkdir`, `os.WriteFile`, `path.Join`, `path.Clean`,
-- `filepath.Join`, `filepath.Clean`, `filepath.Abs`, what the library viper reads, the caser of
-- golang.org/x/text that makes label names, the session of the database driver and whether it
-- connects, and the start, the signals and the end of processes. `strings.TrimSpace` and
-- `strings.ToLower` are modelled for ASCII. What viper unmarshals is a function of the settings
-- that `LoadFile` makes: the file, the defaults and the names of the variables.
--
-- Where an error only passes on the text of a library's error, the text in the model is short.
--
-- Not modelled: logging, the output of processes, the environment variables that `update` sets for
-- cypher-shell, and the routing, recovery and listening of the HTTP server.
pub mod Base
pub mod Semver
pub mod Config
pub mod Migrator
pub mod Supervisor
mod Tests
