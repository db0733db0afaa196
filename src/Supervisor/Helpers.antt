-- ===== src/Supervisor/Helpers.antt =====
-- supervisor/wrapper_helpers.go: the import folder, the credentials and the drop file.
pub mod Auth
use neo4j_graph_tool_core.Base.{
  ℕ, Text, codes, text_keys, ◌==◌, Option, none, some, List, [], ◌∷◌, ◌++◌, Bool, true, false, eqb,
  has_prefix, is_empty, Outcome, ok, fail, panic, if◌then◌else◌,
}
use neo4j_graph_tool_core.Base.Monad.{Exec, lift, modify, ◌>>=◌, ◌>>◌}
use neo4j_graph_tool_core.Config.Defs.{PlannerConfig}
use neo4j_graph_tool_core.Migrator.Steps.{ExecutionSteps, add_cypher}

-- `strings.HasSuffix(s, "/")`
unfoldable pub ends_with_slash : Text → Bool
ends_with_slash [] = false
ends_with_slash (c ∷ []) = eqb c b'/'
ends_with_slash (c ∷ d ∷ s) = ends_with_slash (d ∷ s)

abbrev pub with_slash : Text → Text
with_slash path = if ends_with_slash path then path else path ++ codes "/"

-- `getImportDir`
unfoldable pub get_import_dir : Text → Text
unfolding ends_with_slash
get_import_dir base_folder = with_slash (
    if has_prefix base_folder (codes "/")
    then base_folder
    else codes "/initial-data/" ++ base_folder)

abbrev pub behind : ℕ → Option (Text × Text) → Option (Text × Text)
behind c none = none
behind c (some (first, second)) = some (c ∷ first, second)

-- `strings.SplitN(s, "/", 2)`, where it gives two parts.
unfoldable pub split_two : Text → Option (Text × Text)
split_two [] = none
split_two (c ∷ s) = let rest = split_two s in if eqb c b'/' then some ([], s) else behind c rest

-- User name, password and realm.
abbrev pub auth_of : Option (Text × Text) → Text × Text × Text
auth_of none = ([], [], [])
auth_of (some (username, password)) = (username, password, [])

-- `getNeo4jBasicAuth`
unfoldable pub get_neo4j_basic_auth : Text → Text × Text × Text
unfolding split_two
get_neo4j_basic_auth auth = auth_of (split_two auth)

-- `drop`; `absolute` is `filepath.Abs`.
unfoldable pub drop : (Text → Outcome Text) → PlannerConfig → Exec ExecutionSteps (Unit {0})
drop absolute p =
    if is_empty p.drop_cypher_file
    then lift (fail "drop cypher file is not specified" [])
    else lift (absolute (get_import_dir p.base_folder ++ p.drop_cypher_file)) >>= λ fp. modify (
        add_cypher
          (codes "// wipe out the entire database\n" ∷ codes ":source " ∷ fp ∷ codes "\n" ∷ []))
