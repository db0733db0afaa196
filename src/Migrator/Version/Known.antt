-- ===== src/Migrator/Version/Known.antt =====
-- The database model of an update, none of whose versions is nil.
use neo4j_graph_tool_core.Base.{List, [], ◌∷◌, Option, Outcome, ok, deref}
use neo4j_graph_tool_core.Base.Result.{◌>>=◌ as ◌>>='◌}
use neo4j_graph_tool_core.Migrator.Database.{DatabaseGraphVersion, DatabaseModel}

-- The versions of the rows, none of which is nil: the library would dereference it.
unfoldable pub known_rows :
    {V : Type 0} → List (DatabaseGraphVersion (Option V)) → Outcome (List (DatabaseGraphVersion V))
known_rows [] = ok []
known_rows (r ∷ rows) = deref r.version >>=' λ v. known_rows rows >>=' λ rest.
    ok (record { version = v; file_timestamps = r.file_timestamps } ∷ rest)

unfoldable pub known_versions : {V : Type 0} → DatabaseModel (Option V) → Outcome (DatabaseModel V)
unfolding known_rows
known_versions [] = ok []
known_versions ((folder, rows) ∷ model) =
    known_rows rows >>=' λ known. known_versions model >>=' λ rest. ok ((folder, known) ∷ rest)
