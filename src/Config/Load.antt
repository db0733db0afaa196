-- ===== src/Config/Load.antt =====
-- `LoadFile` of config/config.go, with the library viper as a parameter.
use neo4j_graph_tool_core.Base.{
  Text, codes, Option, none, some, List, [], ◌∷◌, false, ◌≡◌, refl, subst, ◌↔◌, ◌⊎◌, inl, inr,
  Outcome, ok, fail, panic, deref, >>=-eq-ok, ok-injective,
}
use Prim.Native.String.{String}
use neo4j_graph_tool_core.Base.Dict.{Dict}
use neo4j_graph_tool_core.Base.Result.{◌>>=◌, ◌>>◌}
use neo4j_graph_tool_core.Semver.{Semver}
use neo4j_graph_tool_core.Base.Int.{ℤ}
use neo4j_graph_tool_core.Config.Defs.{
  Config, PlannerConfig, SchemaFolder, FolderDetail, default_port, default_log_level,
  default_initial_batch, default_neo4j_database, default_drop_cypher_file, default_base_folder,
  default_schema_folder_name, default_schema_migration_type, default_cypher_shell_format,
}
use neo4j_graph_tool_core.Config.Validate.{
  validate, validate_values, validate_structure, validate_supervisor,
}
use neo4j_graph_tool_core.Config.Normalize.{normalize, normalize_folders, normalize_folder}
use neo4j_graph_tool_core.Config.Normal.{normalize-ok, normalize-normalize, deref-eq-ok}
use neo4j_graph_tool_core.Config.Valid.{IsValidConfig}
use neo4j_graph_tool_core.Config.Valid.Whole.{validate_iff}

-- The error of `Normalize` is ignored, and leaves the configuration as it was.
abbrev pub or_unchanged : Outcome Config → Config → Outcome Config
or_unchanged (ok c) before = ok c
or_unchanged (fail m args) before = ok before
or_unchanged panic before = panic

-- A value given to `SetDefault`.
pub data Setting : Type 0 where
  of_text : Text → Setting
  of_number : ℤ → Setting

-- What `LoadFile` tells viper before `Unmarshal`: the file, the defaults, the prefix of the
-- environment variables, what a part of a key is replaced by in their names, and the keys bound to
-- other names.
pub record Settings : Type 0 where
  pub config_file : Text
  pub defaults : Dict Text Setting
  pub env_prefix : Text
  pub env_key_replacer : Text × Text
  pub bound : Dict Text Text

-- The result of `ReadInConfig`.
pub data ReadResult : Type 0 where
  config_found : ReadResult
  config_file_not_found : ReadResult  -- a `viper.ConfigFileNotFoundError`
  config_unread : Text → ReadResult  -- another error, with its text

-- The library viper: `ReadInConfig` for the file that is set, and `Unmarshal`.
pub record Viper : Type 0 where
  pub read_in_config : Text → ReadResult
  pub unmarshal : Settings → Outcome Config

abbrev pub settings_of : Text → Settings
settings_of file_name = record {
  config_file = file_name;
  defaults =
      (codes "supervisor.port", of_number default_port)
      ∷ (codes "supervisor.log_level", of_text default_log_level)
      ∷ (codes "supervisor.initial_batch", of_text default_initial_batch)
      ∷ (codes "supervisor.neo4j_database", of_text default_neo4j_database)
      ∷ (codes "planner.drop_cypher_file", of_text default_drop_cypher_file)
      ∷ (codes "planner.base_folder", of_text default_base_folder)
      ∷ (codes "planner.schema_folder.folder_name", of_text default_schema_folder_name)
      ∷ (codes "planner.schema_folder.migration_type", of_text default_schema_migration_type)
      ∷ (codes "planner.cypher_shell_format", of_text default_cypher_shell_format)
      ∷ [];
  env_prefix = codes "GT";
  env_key_replacer = (codes ".", codes "_");
  bound =
      (codes "supervisor.initial_batch", codes "GRAPH_MODEL_KIND")
      ∷ (codes "supervisor.default_graph_version", codes "GRAPH_MODEL_VERSION")
      ∷ (codes "supervisor.neo4j_auth", codes "NEO4J_AUTH")
      ∷ [];
}

-- What `LoadFile` makes of it: that no configuration is found is no error. A file that is named and
-- missing is another error; it is not found only where no file is named.
unfoldable pub check_read : ReadResult → Outcome (Unit {0})
check_read config_found = ok tt
check_read config_file_not_found = ok tt
check_read (config_unread e) = fail "%s" (e ∷ [])

-- A configuration, or a `ConfigFileNotFoundError`.
abbrev pub IsReadable : ReadResult → Type 0
IsReadable r = (r ≡ config_found) ⊎ (r ≡ config_file_not_found)

check_read_iff : (r : ReadResult) → (check_read r ≡ ok tt) ↔ IsReadable r
unfolding check_read
check_read_iff config_found = (λ h. inl refl, λ h. refl)
check_read_iff config_file_not_found = (λ h. inr refl, λ h. refl)
check_read_iff (config_unread e) = (λ h. cc, λ h. elim h [ inl e ↦ cc | inr e ↦ cc ])

-- `LoadFile`
module _ {V : Type 0} (sv : Semver V) (title : Text → Text) (viper : Viper) where
  unfoldable pub load_file : Text → Outcome Config
  load_file file_name = do
    check_read (viper.read_in_config file_name)
    read ← viper.unmarshal (settings_of file_name)
    c ← or_unchanged (normalize title (some read)) read
    validate_values sv c
    ok c

module _ {V : Type 0} (sv : Semver V) (title : Text → Text) where
  no_fail :
      (folders : Dict Text (Option FolderDetail)) (m : String) (args : List Text)
      → normalize_folders title folders ≡ fail m args
      → ⊥
  unfolding normalize_folders
  no_fail [] m args h = cc
  no_fail ((name, none) ∷ folders) m args h = cc
  no_fail ((name, some f) ∷ folders) m args h =
      go (normalize_folders title folders) (no_fail folders) h
    where
      go :
          (r : Outcome (Dict Text (Option FolderDetail)))
          → ((m : String) (args : List Text) → r ≡ fail m args → ⊥)
          → (r >>= λ rest. ok ((name, some (normalize_folder title name f)) ∷ rest)) ≡ fail m args
          → ⊥
      go (ok rest) ih h = cc
      go (fail m' args') ih h = ih m' args' refl
      go panic ih h = cc

  normalize-no_fail :
      (c : Config) (p : PlannerConfig) (sf : SchemaFolder) (m : String) (args : List Text)
      → c.planner ≡ some p
      → p.schema_folder ≡ some sf
      → normalize title (some c) ≡ fail m args
      → ⊥
  unfolding normalize validate_structure
  normalize-no_fail c p sf m args e s h = go (normalize_folders title p.folders) refl
    where
      go :
          (r : Outcome (Dict Text (Option FolderDetail)))
          → normalize_folders title p.folders ≡ r
          → ⊥
      go (ok folders) f = let made = normalize-ok title c p sf folders e s f in cc
      go (fail m' args') f = no_fail p.folders m' args' f
      go panic f = let stopped : normalize title (some c) ≡ panic = rw (e, s, f) in cc

  normal_and_valid :
      (c : Config)
      → normalize title (some c) ≡ ok c
      → validate_values sv c ≡ ok tt
      → IsValidConfig sv c
  unfolding normalize validate
  normal_and_valid c n v =
      let (_, structure, _) = >>=-eq-ok (validate_structure false (some c)) _ n in
      (validate_iff sv c).0 (rw structure v)

  -- What is returned for a configuration that is read.
  loaded :
      (c read : Config) (r : Outcome Config)
      → normalize title (some read) ≡ r
      → (or_unchanged r read >>= λ c. validate_values sv c >> ok c) ≡ ok c
      → (normalize title (some read) ≡ ok c)
        × (IsValidConfig sv c × (normalize title (some c) ≡ ok c))
  unfolding validate_values
  loaded c read (ok c') e h1 =
      let (_, valid, same) = >>=-eq-ok (validate_values sv c') (λ _. ok c') h1 in
      let normal = normalize-normalize title (some read) c' e in
      subst
        (λ c.
          (normalize title (some read) ≡ ok c)
          × (IsValidConfig sv c × (normalize title (some c) ≡ ok c)))
        (ok-injective same) (e, (normal_and_valid c' normal valid, normal))
  loaded c read (fail m args) e h1 =
      let (_, valid, _) = >>=-eq-ok (validate_values sv read) (λ _. ok read) h1 in
      let (_, _, v1) = >>=-eq-ok (validate_supervisor sv read.planner read.supervisor) _ valid in
      let (p, has_p, v2) = >>=-eq-ok (deref read.planner) _ v1 in
      let (sf, has_sf, _) = >>=-eq-ok (deref p.schema_folder) _ v2 in
      absurd (
        normalize-no_fail read p sf m args (deref-eq-ok read.planner has_p)
          (deref-eq-ok p.schema_folder has_sf) e)
  loaded c read panic e h1 = cc

  -- `LoadFile` returns a configuration exactly when `ReadInConfig` finds one or gives a
  -- `ConfigFileNotFoundError`, and no other error, and viper unmarshals a configuration that
  -- `Normalize` turns into it, and it is valid; `Normalize` then leaves it as it is.
  pub load_file-IsValidConfig :
      (viper : Viper) (file_name : Text) (c : Config)
      → (load_file sv title viper file_name ≡ ok c) ↔ (
          IsReadable (viper.read_in_config file_name)
          × ((read : Config) × (viper.unmarshal (settings_of file_name) ≡ ok read)
              × (normalize title (some read) ≡ ok c)
              × (IsValidConfig sv c × (normalize title (some c) ≡ ok c))))
  unfolding load_file validate_values validate
  load_file-IsValidConfig viper file_name c = (returned, returns)
    where
      Valid : Type 0
      Valid = IsValidConfig sv c × (normalize title (some c) ≡ ok c)

      Loaded : Type 0
      Loaded =
          IsReadable (viper.read_in_config file_name)
          × ((read : Config) × (viper.unmarshal (settings_of file_name) ≡ ok read)
              × (normalize title (some read) ≡ ok c)
              × Valid)

      returned : load_file sv title viper file_name ≡ ok c → Loaded
      returned h =
          let (_, found, h1) = >>=-eq-ok (check_read (viper.read_in_config file_name)) _ h in
          let (read, unmarshalled, h2) = >>=-eq-ok (viper.unmarshal (settings_of file_name)) _ h1 in
          let (normal, valid) = loaded c read (normalize title (some read)) refl h2 in
          (
            (check_read_iff (viper.read_in_config file_name)).0 found,
            (read, unmarshalled, normal, valid),
          )

      returns : Loaded → load_file sv title viper file_name ≡ ok c
      returns (found, (read, unmarshalled, normal, (valid, _))) =
          let passed = (check_read_iff (viper.read_in_config file_name)).1 found in
          let (_, _, values) =
            >>=-eq-ok (validate_structure false (some c)) _ ((validate_iff sv c).1 valid) in
          rw (passed, unmarshalled, normal, values)
