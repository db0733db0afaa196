-- ===== src/Migrator/Builder/Record.antt =====
-- What the builder of `CreateBuilder` writes for a migration file of Cypher.
use mathlib.Core.List.{append_assoc}
use neo4j_graph_tool_core.Base.{
  Text, codes, some, List, [], ◌∷◌, ◌++◌, Bool, true, false, ◌≡◌, sym, ap, ◌∙◌, join, Outcome, ok,
  deref, if◌then◌else◌,
}
use neo4j_graph_tool_core.Base.Monad.{lift, ◌>>=◌, ◌>>◌, >>=-ok}
use neo4j_graph_tool_core.Semver.{Semver}
use neo4j_graph_tool_core.Config.Defs.{PlannerConfig, SchemaFolder}
use neo4j_graph_tool_core.Migrator.Files.{MigrationFile, FileType, cypher}
use neo4j_graph_tool_core.Migrator.Steps.{ExecutionSteps, add_cypher, written, print_steps}
use neo4j_graph_tool_core.Migrator.Steps.Shape.{add_cypher-add_cypher}
use neo4j_graph_tool_core.Migrator.Steps.Print.{printed, followed_by, print_steps-add_cypher}
use neo4j_graph_tool_core.Migrator.Target.{format_int}
use neo4j_graph_tool_core.Migrator.Plan.Versions.{Planner}
use neo4j_graph_tool_core.Migrator.Builder.{
  header_line, file_path, add, add_content, add_record, add_ending, create_builder, node_labels,
  record_texts,
}

-- The five statements for a file, one a line.
abbrev pub record_statement : Bool → Text → Text
record_statement true labels =
    codes "MATCH (sm:"
    ++ (labels ++ codes " {version: $version, file: $file}) SET sm.deleted_at = timestamp();")
record_statement false labels =
    codes "MERGE (sm:"
    ++ (labels
        ++ codes
            " {version: $version, file: $file}) ON CREATE SET sm.created_at = timestamp() SET sm.updated_at = timestamp(), sm.deleted_at = null;")

abbrev pub migration_texts :
    {V : Type 0} → Semver V → MigrationFile → V → Text → Text → List Text → List Text
migration_texts sv cf version first path labels =
    first
    ∷ (codes ":source " ++ (path ++ codes ";\n"))
    ∷ (codes ":param version => '" ++ (sv.to_string version ++ codes "';\n"))
    ∷ (codes ":param file => " ++ (format_int cf.timestamp ++ codes ";\n"))
    ∷ record_statement cf.is_downgrade (join labels (codes ":"))
    ∷ codes "\n\n"
    ∷ []

add_three :
    (cs ds es : List Text) (steps : ExecutionSteps)
    → add_cypher es (add_cypher ds (add_cypher cs steps)) ≡ add_cypher ((cs ++ ds) ++ es) steps
add_three cs ds es steps =
    ap (add_cypher es) (add_cypher-add_cypher cs ds steps)
    ∙ add_cypher-add_cypher (cs ++ ds) es steps

abbrev recorded_as : {V : Type 0} → Semver V → MigrationFile → V → List Text → List Text
recorded_as sv cf version labels =
    codes ":param version => '"
    ∷ sv.to_string version
    ∷ codes "';\n"
    ∷ codes ":param file => "
    ∷ format_int cf.timestamp
    ∷ codes ";\n"
    ∷ (record_texts cf.is_downgrade labels ++ codes "\n\n" ∷ [])

written-record_texts :
    (is_downgrade : Bool) (label : Text) (labels : List Text)
    → written (record_texts is_downgrade (label ∷ labels) ++ codes "\n\n" ∷ [])
      ≡ record_statement is_downgrade (join (label ∷ labels) (codes ":")) ++ codes "\n\n"
unfolding written record_texts
written-record_texts true label labels =
    ap (λ t. codes "MATCH (sm:" ++ t) (sym (append_assoc (join (label ∷ labels) (codes ":")) _ _))
written-record_texts false label labels =
    ap (λ t. codes "MERGE (sm:" ++ t) (sym (append_assoc (join (label ∷ labels) (codes ":")) _ _))

module _ {V : Type 0} (sv : Semver V) (read_file : Text → Outcome Text)
    (absolute : Text → Outcome Text) (planner : Planner) (abs : Bool) where
  add_content-eq :
      (p : PlannerConfig) (cf_path path : Text) (steps : ExecutionSteps)
      → file_path sv read_file absolute planner abs cf_path ≡ ok path
      → add_content sv read_file absolute planner abs p cypher cf_path steps
        ≡ (ok tt, add_cypher (codes ":source " ∷ path ∷ codes ";\n" ∷ []) steps)
  unfolding add_content
  add_content-eq p cf_path path steps f = rw f (
      ap (λ s. (ok tt, s)) (add_three (codes ":source " ∷ []) (path ∷ []) (codes ";\n" ∷ []) steps))

  add_record-eq :
      (label : Text) (labels : List Text) (cf : MigrationFile) (version : V)
      (steps : ExecutionSteps)
      → add_record sv read_file absolute planner abs (label ∷ labels) cf version steps
        ≡ (ok tt, add_cypher (recorded_as sv cf version (label ∷ labels)) steps)
  unfolding add_record
  add_record-eq label labels cf version steps =
      let record_line = record_texts cf.is_downgrade (label ∷ labels) in
      let version_line = codes ":param version => '" ∷ sv.to_string version ∷ codes "';\n" ∷ [] in
      let file_line = codes ":param file => " ∷ format_int cf.timestamp ∷ codes ";\n" ∷ [] in
      ap (λ s. (ok tt, s))
        (ap (add_cypher (codes "\n\n" ∷ [])) (add_three version_line file_line record_line steps)
          ∙ add_cypher-add_cypher (version_line ++ file_line ++ record_line) (codes "\n\n" ∷ [])
              steps)

  add_ending-eq :
      (p : PlannerConfig) (schema : SchemaFolder) (cf : MigrationFile) (version : V) (label : Text)
      (labels : List Text) (steps : ExecutionSteps)
      → p.schema_folder ≡ some schema
      → cf.is_snapshot ≡ false
      → node_labels p schema cf.folder_name ≡ label ∷ labels
      → add_ending sv read_file absolute planner abs p cf version steps
        ≡ (ok tt, add_cypher (recorded_as sv cf version (label ∷ labels)) steps)
  unfolding add_ending
  add_ending-eq p schema cf version label labels steps s n l =
      let record_of = λ (schema : SchemaFolder).
        add_record sv read_file absolute planner abs (node_labels p schema cf.folder_name) cf
          version in
      ap
        (λ b.
          (if b then add (codes "\n" ∷ []) else lift (deref p.schema_folder) >>= record_of) steps)
        n
      ∙ (>>=-ok (lift (deref p.schema_folder)) record_of steps (ap (λ o. (deref o, steps)) s)
          ∙ (ap (λ ls. add_record sv read_file absolute planner abs ls cf version steps) l
              ∙ add_record-eq label labels cf version steps))

  add_content-eq_at :
      (p : PlannerConfig) (t : FileType) (cf_path path : Text) (steps : ExecutionSteps)
      → t ≡ cypher
      → file_path sv read_file absolute planner abs cf_path ≡ ok path
      → add_content sv read_file absolute planner abs p t cf_path steps
        ≡ (ok tt, add_cypher (codes ":source " ∷ path ∷ codes ";\n" ∷ []) steps)
  add_content-eq_at p t cf_path path steps c f =
      ap (λ t. add_content sv read_file absolute planner abs p t cf_path steps) c
      ∙ add_content-eq p cf_path path steps f

  create_builder-eq :
      (p : PlannerConfig) (schema : SchemaFolder) (cf : MigrationFile) (version : V)
      (steps : ExecutionSteps) (path label : Text) (labels : List Text)
      → planner.config.planner ≡ some p
      → p.schema_folder ≡ some schema
      → cf.file_type ≡ cypher
      → cf.is_snapshot ≡ false
      → file_path sv read_file absolute planner abs cf.path ≡ ok path
      → node_labels p schema cf.folder_name ≡ label ∷ labels
      → create_builder sv read_file absolute planner abs cf version steps ≡ (
        ok tt,
        add_cypher
            (header_line sv read_file absolute planner abs cf version
              ∷ codes ":source "
              ∷ path
              ∷ codes ";\n"
              ∷ recorded_as sv cf version (label ∷ labels))
            steps,
      )
  unfolding create_builder
  create_builder-eq p schema cf version steps path label labels c s t n f l =
      let start = header_line sv read_file absolute planner abs cf version in
      let content = codes ":source " ∷ path ∷ codes ";\n" ∷ [] in
      let ending = recorded_as sv cf version (label ∷ labels) in
      >>=-ok (lift (deref planner.config.planner))
        (λ p.
          add_content sv read_file absolute planner abs p cf.file_type cf.path
          >> add_ending sv read_file absolute planner abs p cf version)
        (add_cypher (start ∷ []) steps) (ap (λ o. (deref o, add_cypher (start ∷ []) steps)) c)
      ∙ (>>=-ok (add_content sv read_file absolute planner abs p cf.file_type cf.path)
            (λ _. add_ending sv read_file absolute planner abs p cf version) _
            (add_content-eq_at p cf.file_type cf.path path _ t f)
          ∙ (add_ending-eq p schema cf version label labels _ s n l
              ∙ ap (λ s. (ok tt, s)) (add_three (start ∷ []) content ending steps)))

  written_record :
      (start : Text) (cf : MigrationFile) (version : V) (path label : Text) (labels : List Text)
      → written (
          start
          ∷ codes ":source "
          ∷ path
          ∷ codes ";\n"
          ∷ recorded_as sv cf version (label ∷ labels))
        ≡ written (migration_texts sv cf version start path (label ∷ labels))
  unfolding written
  written_record start cf version path label labels =
      simp (append_assoc, written-record_texts cf.is_downgrade label labels)

  -- For a Cypher file that is no snapshot, of a folder with labels, the builder succeeds, and what it adds prints as
  -- the header, a `:source` line with the path, the two parameters and the statement that records
  -- the file as executed, or takes the record back for a downgrade.
  pub create_builder-printed :
      (p : PlannerConfig) (schema : SchemaFolder) (cf : MigrationFile) (version : V)
      (steps : ExecutionSteps) (path label : Text) (labels : List Text)
      → planner.config.planner ≡ some p
      → p.schema_folder ≡ some schema
      → cf.file_type ≡ cypher
      → cf.is_snapshot ≡ false
      → file_path sv read_file absolute planner abs cf.path ≡ ok path
      → node_labels p schema cf.folder_name ≡ label ∷ labels
      → let r = create_builder sv read_file absolute planner abs cf version steps in
        (r.0 ≡ ok tt)
        × (printed (print_steps r.1)
            ≡ followed_by (printed (print_steps steps)) (
                written (
                  migration_texts sv cf version
                    (header_line sv read_file absolute planner abs cf version)
                    path
                    (label ∷ labels))))
  create_builder-printed p schema cf version steps path label labels c s t n f l =
      let made = create_builder-eq p schema cf version steps path label labels c s t n f l in
      let start = header_line sv read_file absolute planner abs cf version in
      (
        ap (λ r. r.0) made,
        ap (λ r. printed (print_steps r.1)) made
            ∙ (print_steps-add_cypher _ steps
                ∙ ap (followed_by (printed (print_steps steps)))
                    (written_record start cf version path label labels)),
      )
