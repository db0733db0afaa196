-- ===== src/Migrator/Json.antt =====
-- `toJSON`, `String` and `MarshalJSON` of migrator/scanner.go: the database model as text.
pub mod Numbers
use neo4j_graph_tool_core.Base.{
  ℕ, zero, suc, ◌+◌, ◌-◌, ◌^◌, Text, codes, List, [], ◌∷◌, ◌++◌, map, length, leb, eqb,
  if◌then◌else◌,
}
use neo4j_graph_tool_core.Base.Int.{ℤ, ltb_ℤ}
use neo4j_graph_tool_core.Base.Sort.{SortSlice, sort_slice}
use neo4j_graph_tool_core.Semver.{Semver}
use neo4j_graph_tool_core.Migrator.Database.{FileTimestamps, DatabaseGraphVersion, DatabaseModel}
use neo4j_graph_tool_core.Migrator.Target.{format_nat, format_int}

-- A comma in front of all but the first.
abbrev pub comma_at : ℕ → Text
comma_at i = if eqb i 0 then [] else codes ","

-- `executed[i:]`
unfoldable pub skip : {A : Type 0} → ℕ → List A → List A
skip zero xs = xs
skip (suc n) [] = []
skip (suc n) (x ∷ xs) = skip n xs

-- The loop that writes the numbers, from the index on.
unfoldable pub write_numbers : ℕ → List ℤ → Text
unfolding format_int
write_numbers i [] = []
write_numbers i (n ∷ ns) = comma_at i ++ (format_int n ++ write_numbers (i + 1) ns)

-- The numbers of a version: of as many as the limit or more, the last ones behind a count of the
-- others.
unfoldable pub write_executed : ℕ → List ℤ → Text
unfolding skip write_numbers format_nat
write_executed limit_files executed =
    let rest = length executed - limit_files in
    let last_ones =
      codes "\"... "
      ++ (format_nat rest ++ (codes " more\"" ++ write_numbers rest (skip rest executed))) in
    let all_of_them = write_numbers 0 executed in
    codes "["
    ++ ((if leb limit_files (length executed) then last_ones else all_of_them) ++ codes "]")

module _ {V : Type 0} (sv : Semver V) ⦃numbers : SortSlice ℤ⦄ (limit_files : ℕ) where
  abbrev pub executed_of : FileTimestamps → List ℤ
  executed_of files = sort_slice ltb_ℤ (map (λ e. e.0) files)

  unfoldable pub write_versions : ℕ → List (DatabaseGraphVersion V) → Text
  unfolding write_executed
  write_versions i [] = []
  write_versions i (ver ∷ versions) =
      comma_at i
      ++ (codes "\""
          ++ (sv.to_string ver.version
              ++ (codes "\":"
                  ++ (write_executed limit_files (executed_of ver.file_timestamps)
                      ++ write_versions (i + 1) versions))))

  unfoldable pub write_folders : ℕ → DatabaseModel V → Text
  unfolding write_versions
  write_folders i [] = []
  write_folders i ((folder_name, versions) ∷ dbm) =
      comma_at i
      ++ (codes "\""
          ++ (folder_name
              ++ (codes "\":{"
                  ++ (write_versions 0 versions ++ (codes "}" ++ write_folders (i + 1) dbm)))))

  -- `toJSON`
  unfoldable pub to_json : DatabaseModel V → Text
  unfolding write_folders
  to_json dbm = codes "{" ++ (write_folders 0 dbm ++ codes "}")

module _ {V : Type 0} (sv : Semver V) ⦃numbers : SortSlice ℤ⦄ where
  -- `String`
  unfoldable pub model_to_string : DatabaseModel V → Text
  unfolding to_json
  model_to_string dbm = to_json sv 3 dbm

  -- `MarshalJSON`, whose limit is `math.MaxInt`
  unfoldable pub marshal_json : DatabaseModel V → Text
  unfolding to_json
  marshal_json dbm = to_json sv (2 ^ 63 - 1) dbm
