-- ===== src/Migrator/Database.antt =====
-- `DatabaseModel` of migrator/scanner.go: the files that were executed, by folder and version.
use neo4j_graph_tool_core.Base.{
  Text, text_keys, int_keys, Option, none, some, List, [], ◌∷◌, Bool, false, not, ◌||◌, is_empty,
  if◌then◌else◌,
}
use neo4j_graph_tool_core.Base.Dict.{Dict, lookup}
use neo4j_graph_tool_core.Base.Int.{ℤ}
use neo4j_graph_tool_core.Semver.{Semver}

abbrev pub FileTimestamps : Type 0
FileTimestamps = Dict ℤ Bool

pub record DatabaseGraphVersion (V : Type 0) : Type 0 where
  pub version : V
  pub file_timestamps : FileTimestamps

abbrev pub DatabaseModel : Type 0 → Type 0
DatabaseModel V = Dict Text (List (DatabaseGraphVersion V))

-- `m[k]` of a map to `bool`: a missing key, also of a nil map, reads `false`.
abbrev pub flag : Option Bool → Bool
flag none = false
flag (some b) = b

unfoldable pub was_executed : FileTimestamps → ℤ → Bool
unfolding lookup
was_executed executed timestamp = flag (lookup timestamp executed)

module _ {V : Type 0} (sv : Semver V) where
  unfoldable pub any_higher : List (DatabaseGraphVersion V) → V → Bool
  any_higher [] version = false
  any_higher (v ∷ folder_version) version =
      sv.less_than version v.version || any_higher folder_version version

  abbrev pub higher_in : Option (List (DatabaseGraphVersion V)) → V → Bool
  higher_in none version = false
  higher_in (some folder_version) version = any_higher folder_version version

  -- `ContainsHigherVersion`
  unfoldable pub contains_higher_version : DatabaseModel V → Text → V → Bool
  unfolding any_higher lookup
  contains_higher_version dbm folder version = higher_in (lookup folder dbm) version

  unfoldable pub first_equal : List (DatabaseGraphVersion V) → V → FileTimestamps
  first_equal [] version = []
  first_equal (v ∷ folder_version) version =
      if sv.equal version v.version then v.file_timestamps else first_equal folder_version version

  abbrev pub timestamps_in : Option (List (DatabaseGraphVersion V)) → V → FileTimestamps
  timestamps_in none version = []
  timestamps_in (some folder_version) version = first_equal folder_version version

  -- `GetFileTimestamps`; a nil map and an empty one read alike.
  unfoldable pub get_file_timestamps : DatabaseModel V → Text → V → FileTimestamps
  unfolding first_equal lookup
  get_file_timestamps dbm folder version = timestamps_in (lookup folder dbm) version

module _ {V : Type 0} where
  unfoldable pub any_files : List (DatabaseGraphVersion V) → Bool
  any_files [] = false
  any_files (gv ∷ f) = not (is_empty gv.file_timestamps) || any_files f

  -- `HasAnyVersion`
  unfoldable pub has_any_version : DatabaseModel V → Bool
  unfolding any_files
  has_any_version [] = false
  has_any_version ((folder, f) ∷ dbm) = any_files f || has_any_version dbm
