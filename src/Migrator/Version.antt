-- ===== src/Migrator/Version.antt =====
-- `Version` and `queryVersion` of migrator/version.go: the model of what the database has recorded.
-- The session is a parameter: it gives what each attempt of its transaction fetches.
pub mod Recorded
pub mod Folders
pub mod Known
use Prim.Native.String.{String}
use neo4j_graph_tool_core.Base.{
  Text, codes, text_keys, int_keys, ◌==◌, Option, none, some, List, [], ◌∷◌, ◌++◌, Bool, true,
  false, join, is_empty, Outcome, ok, fail, panic, deref, if◌then◌else◌,
}
use neo4j_graph_tool_core.Base.Result.{◌>>=◌ as ◌>>='◌}
use neo4j_graph_tool_core.Base.Monad.{Exec, pure, lift, modify, for_each, ◌>>=◌, ◌>>◌}
use neo4j_graph_tool_core.Base.Dict.{Dict, insert}
use neo4j_graph_tool_core.Base.Int.{ℤ}
use neo4j_graph_tool_core.Semver.{Semver}
use neo4j_graph_tool_core.Config.Defs.{Config, PlannerConfig, SchemaFolder, FolderDetail}
use neo4j_graph_tool_core.Migrator.Database.{FileTimestamps, DatabaseGraphVersion, DatabaseModel}

-- An element of `files`; a `float64` stands for the `int64` it is converted to, and of another
-- value only its text and the name of its type matter.
pub data FileValue : Type 0 where
  int_value float_value : ℤ → FileValue
  other_file : (text type_name : Text) → FileValue

pub data Value : Type 0 where
  string_value : Text → Value
  list_value : List FileValue → Value
  other_value : Value

-- `record.Keys` with `record.Values`
abbrev pub Row : Type 0
Row = List (Text × Value)

-- `result.Next`, `result.Err` and `result.Record` of one round, and `result.Err` after the last.
abbrev pub Fetched : Type 0
Fetched = Outcome (Unit {0}) × Option Row

-- What one attempt of the transaction fetches: `tx.Run`, the rounds, and the end.
pub record Attempt : Type 0 where
  pub run : Outcome (Unit {0})
  pub rounds : List Fetched
  pub last_err : Outcome (Unit {0})

unfoldable pub read_files : List FileValue → FileTimestamps → Outcome FileTimestamps
unfolding insert
read_files [] files = ok files
read_files (int_value n ∷ raw) files = read_files raw (insert n true files)
read_files (float_value n ∷ raw) files = read_files raw (insert n true files)
read_files (other_file text type_name ∷ raw) files =
    fail "file number '%v' is of type %T, expect int64" (text ∷ type_name ∷ [])

module _ {V : Type 0} (sv : Semver V) where
  -- The columns read so far; no version stands for nil, and `files` that are nil and empty read alike.
  abbrev pub Columns : Type 0
  Columns = DatabaseGraphVersion (Option V)

  abbrev pub parsed_version : Option V → Text → Outcome V
  parsed_version none v = fail "invalid version '%s' from response" (v ∷ [])
  parsed_version (some version) v = ok version

  abbrev pub read_version : Value → Outcome V
  read_version (string_value []) = fail "invalid version '%s' from response" ([] ∷ [])
  read_version (string_value (c ∷ v)) = parsed_version (sv.new_version (c ∷ v)) (c ∷ v)
  read_version _ = fail "invalid version '%s' from response" ([] ∷ [])

  abbrev pub read_raw_files : Value → Outcome FileTimestamps
  read_raw_files (list_value raw) = read_files raw []
  read_raw_files _ = fail "invalid version files from the response" []

  -- The body of the loop over the keys.
  unfoldable pub read_column : Text → Value → Columns → Outcome Columns
  unfolding read_files
  read_column name value row =
      if name == codes "version"
      then (read_version value >>=' λ version. ok (record row { version = some version }))
      else if name == codes "files"
      then (read_raw_files value >>=' λ files. ok (record row { file_timestamps = files }))
      else ok row

  unfoldable pub read_columns : Row → Columns → Outcome Columns
  unfolding read_column
  read_columns [] row = ok row
  read_columns ((name, value) ∷ columns) row = read_column name value row >>=' read_columns columns

  abbrev pub Rows : Type 0
  Rows = List (DatabaseGraphVersion (Option V))

  -- One round of the loop over the result; a nil record is skipped.
  abbrev pub read_record : Option Row → Exec Rows (Unit {0})
  read_record none = pure tt
  read_record (some columns) =
      lift (read_columns columns (record { version = none; file_timestamps = [] })) >>= λ row.
      modify (λ gs. gs ++ row ∷ [])

  abbrev pub read_round : Fetched → Exec Rows (Unit {0})
  read_round (err, row) = lift err >> read_record row

  -- The function that `ExecuteRead` is given.
  unfoldable pub read_attempt : Attempt → Exec Rows (Unit {0})
  unfolding read_columns for_each
  read_attempt a = lift a.run >> (for_each read_round a.rounds >> lift a.last_err)

  -- `queryVersion`: the attempts that `ExecuteRead` gave up, and the one whose error it returns. What an attempt has
  -- appended stays.
  unfoldable pub query_version : List Attempt → Attempt → Exec Rows (Unit {0})
  unfolding read_attempt
  query_version [] a gs = read_attempt a gs
  query_version (earlier ∷ more) a gs = query_version more a (read_attempt earlier gs).1

  abbrev pub Session : Type 0
  Session = Text → List Attempt × Attempt

  abbrev pub version_cypher : List Text → Text
  version_cypher labels =
      codes "MATCH (sm:"
      ++ (join labels (codes ":")
          ++ codes
              ") WHERE sm.deleted_at IS NULL RETURN sm.version AS version, collect(sm.file) AS files")

  abbrev pub query_labels : Session → List Text → Outcome (Unit {0}) × Rows
  query_labels session labels =
      let reply = session (version_cypher labels) in query_version reply.0 reply.1 []

  abbrev pub set_rows : Text → Rows → DatabaseModel (Option V) → DatabaseModel (Option V)
  set_rows folder rows model = if is_empty rows then model else insert folder rows model

  -- One folder of `Version`.
  unfoldable pub add_version :
      Session → Text → List Text → DatabaseModel (Option V) → Outcome (DatabaseModel (Option V))
  unfolding query_version insert
  add_version session folder labels model =
      let reply = query_labels session labels in
      reply.0 >>=' λ u. ok (set_rows folder reply.1 model)

  unfoldable pub add_versions :
      Session
      → Dict Text (Option FolderDetail)
      → DatabaseModel (Option V)
      → Outcome (DatabaseModel (Option V))
  unfolding add_version
  add_versions session [] model = ok model
  add_versions session ((folder, detail) ∷ folders) model = deref detail >>=' λ d.
      (add_version session folder d.node_labels model >>=' add_versions session folders)

  -- `Version`
  unfoldable pub version : Session → Config → Outcome (DatabaseModel (Option V))
  unfolding add_version add_versions
  version session cfg = deref cfg.planner >>=' λ p.
      (deref p.schema_folder >>=' λ schema.
      (add_version session schema.folder_name schema.node_labels []
        >>=' add_versions session p.folders))
