-- ===== src/Migrator/Scanner/Root.antt =====
-- `NewScanner` of migrator/scanner.go.
use Prim.Native.String.{String}
use neo4j_graph_tool_core.Base.{Text, Option, List, [], ◌∷◌, Outcome, fail, deref}
use neo4j_graph_tool_core.Migrator.Plan.Versions.{Planner}

-- What `os.Stat` gives.
pub data FileInfo : Type 0 where
  absent : FileInfo
  unreadable : (m : String) → List Text → FileInfo
  directory other_file : FileInfo

-- `NewScanner`: the scanner has the planner's config, and reads below the root.
unfoldable pub new_scanner : FileInfo → Text → Option Planner → Outcome Planner
new_scanner absent root p = fail "directory not exists: '%s'" (root ∷ [])
new_scanner (unreadable m args) root p = fail m args
new_scanner directory root p = deref p
new_scanner other_file root p = fail "scanner must point to a directory '%s'" (root ∷ [])
