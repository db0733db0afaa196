-- ===== src/Migrator/Version/Folders.antt =====
-- Where `Version` keeps the rows of each folder.
use neo4j_graph_tool_core.Base.{
  Text, text_keys, int_keys, Option, none, some, List, [], ◌∷◌, ◌≡◌, ◌≢◌, refl, sym, ap, subst, ◌∙◌,
  All, All-monotone, Ordered, arith, Outcome, ok, deref, >>=-eq-ok, ok-injective,
}
use neo4j_graph_tool_core.Base.Result.{◌>>=◌ as ◌>>='◌}
use neo4j_graph_tool_core.Base.Dict.{Dict, lookup, lookup-insert}
use neo4j_graph_tool_core.Semver.{Semver}
use neo4j_graph_tool_core.Config.Defs.{Config, PlannerConfig, SchemaFolder, FolderDetail}
use neo4j_graph_tool_core.Config.Normal.{deref-eq-ok}
use neo4j_graph_tool_core.Migrator.Database.{DatabaseModel}
use neo4j_graph_tool_core.Migrator.Version.{
  Rows, Session, query_labels, set_rows, add_version, add_versions, version,
}

deref->>= :
    {A B : Type 0} (o : Option A) (a : A) (f : A → Outcome B) {r : Outcome B}
    → o ≡ some a
    → (deref o >>=' f) ≡ r
    → f a ≡ r
deref->>= o a f {r} e h = subst (λ q. (deref q >>=' f) ≡ r) e h

-- The rows that `Version` keeps of a folder.
abbrev pub kept : {A : Type 0} → List A → Option (List A)
kept [] = none
kept (r ∷ rows) = some (r ∷ rows)

module _ {V : Type 0} (sv : Semver V) (session : Session sv) where
  lookup-set_rows :
      (folder k : Text) (rows : Rows sv) (model : DatabaseModel (Option V))
      → folder ≢ k
      → lookup k (set_rows sv folder rows model) ≡ lookup k model
  lookup-set_rows folder k [] model h = refl
  lookup-set_rows folder k (r ∷ rows) model h =
      ground (arith, lookup-insert model (r ∷ rows) folder k, text_keys.same_iff folder k, h)

  lookup-set_rows_same :
      (folder : Text) (rows : Rows sv) (model : DatabaseModel (Option V))
      → lookup folder model ≡ none
      → lookup folder (set_rows sv folder rows model) ≡ kept rows
  lookup-set_rows_same folder [] model h = h
  lookup-set_rows_same folder (r ∷ rows) model h =
      ground (arith, lookup-insert model (r ∷ rows) folder folder, text_keys.same_iff folder folder)

  -- What `query_labels` gives, without its error.
  abbrev pub rows_of : List Text → Rows sv
  rows_of labels = (query_labels sv session labels).1

  add_version-parts :
      (folder : Text) (labels : List Text) (model after : DatabaseModel (Option V))
      → add_version sv session folder labels model ≡ ok after
      → after ≡ set_rows sv folder (rows_of labels) model
  unfolding add_version
  add_version-parts folder labels model after h =
      let (_, _, e) = >>=-eq-ok (query_labels sv session labels).0 _ h in sym (ok-injective e)

  abbrev IsApart : Text → Text × Option FolderDetail → Type 0
  IsApart k entry = entry.0 ≢ k

  lookup-add_versions :
      (k : Text) (folders : Dict Text (Option FolderDetail))
      (model after : DatabaseModel (Option V))
      → All (IsApart k) folders
      → add_versions sv session folders model ≡ ok after
      → lookup k after ≡ lookup k model
  unfolding add_versions
  lookup-add_versions k [] model after apart h = ap (lookup k) (sym (ok-injective h))
  lookup-add_versions k ((folder, detail) ∷ folders) model after apart h =
      let (d, _, h1) = >>=-eq-ok (deref detail) _ h in
      let (next, e, h2) = >>=-eq-ok (add_version sv session folder d.node_labels model) _ h1 in
      lookup-add_versions k folders next after apart.1 h2
      ∙ ap (lookup k) (add_version-parts folder d.node_labels model next e)
      ∙ lookup-set_rows folder k (rows_of d.node_labels) model apart.0

  -- The rows that are kept of a folder, of its detail.
  abbrev pub IsKept : DatabaseModel (Option V) → Text × Option FolderDetail → Type 0
  IsKept model entry =
      (detail : FolderDetail) × (entry.1 ≡ some detail)
      × (lookup entry.0 model ≡ kept (rows_of detail.node_labels))

  abbrev pub AreDistinctFolders : Dict Text (Option FolderDetail) → Type 0
  AreDistinctFolders folders = Ordered (λ e f. f.0 ≢ e.0) folders

  add_versions-IsKept :
      (folders : Dict Text (Option FolderDetail)) (model after : DatabaseModel (Option V))
      → AreDistinctFolders folders
      → All (λ e. lookup e.0 model ≡ none) folders
      → add_versions sv session folders model ≡ ok after
      → All (IsKept after) folders
  unfolding add_versions
  add_versions-IsKept [] model after apart fresh h = tt
  add_versions-IsKept ((folder, detail) ∷ folders) model after apart fresh h =
      let (d, present, h1) = >>=-eq-ok (deref detail) _ h in
      let (next, e, h2) = >>=-eq-ok (add_version sv session folder d.node_labels model) _ h1 in
      let made = add_version-parts folder d.node_labels model next e in
      (
        (
          d,
          deref-eq-ok detail present,
          lookup-add_versions folder folders next after apart.0 h2
              ∙ ap (lookup folder) made
              ∙ lookup-set_rows_same folder (rows_of d.node_labels) model fresh.0,
        ),
        add_versions-IsKept folders next after apart.1
            (still_fresh folders apart.0 fresh.1 (rows_of d.node_labels) made) h2,
      )
    where
      still_fresh :
          (rest : Dict Text (Option FolderDetail))
          → All (λ f. f.0 ≢ folder) rest
          → All (λ e. lookup e.0 model ≡ none) rest
          → (rows : Rows sv) → {next : DatabaseModel (Option V)}
          → next ≡ set_rows sv folder rows model
          → All (λ e. lookup e.0 next ≡ none) rest
      still_fresh [] apart fresh rows made = tt
      still_fresh (f ∷ rest) apart fresh rows made = (
        ap (lookup f.0) made
            ∙ lookup-set_rows folder f.0 rows model (λ e. apart.0 (sym e))
            ∙ fresh.0,
        still_fresh rest apart.1 fresh.1 rows made,
      )

  fresh_rows :
      (folder : Text) (rows : Rows sv) (k : Text)
      → folder ≢ k
      → lookup k (set_rows sv folder rows []) ≡ none
  unfolding lookup
  fresh_rows folder rows k h = lookup-set_rows folder k rows [] h

  folders_fresh :
      (folder : Text) (rows : Rows sv) (folders : Dict Text (Option FolderDetail))
      → All (λ f. f.0 ≢ folder) folders
      → All (λ e. lookup e.0 (set_rows sv folder rows []) ≡ none) folders
  folders_fresh folder rows folders h =
      All-monotone _ _ folders (λ f apart. fresh_rows folder rows f.0 (λ e. apart (sym e))) h

  -- Of a valid configuration, where no folder has the name of another or of the schema folder,
  -- `Version` keeps under each name the rows of the query with the labels of that folder, if there
  -- are any, and nothing under any other name.
  pub version-keeps :
      (cfg : Config) (p : PlannerConfig) (schema : SchemaFolder) (model : DatabaseModel (Option V))
      → cfg.planner ≡ some p
      → p.schema_folder ≡ some schema
      → AreDistinctFolders p.folders
      → All (λ f. f.0 ≢ schema.folder_name) p.folders
      → version sv session cfg ≡ ok model
      → (lookup schema.folder_name model ≡ kept (rows_of schema.node_labels))
        × All (IsKept model) p.folders
        × ((k : Text)
            → schema.folder_name ≢ k
            → All (λ f. f.0 ≢ k) p.folders
            → lookup k model ≡ none)
  unfolding version lookup
  version-keeps cfg p schema model has_planner has_schema apart others h =
      let name = schema.folder_name in
      let rows = rows_of schema.node_labels in
      let h1 = deref->>= cfg.planner p _ has_planner h in
      let h2 = deref->>= p.schema_folder schema _ has_schema h1 in
      let (next, e, h3) = >>=-eq-ok (add_version sv session name schema.node_labels []) _ h2 in
      let made = add_version-parts name schema.node_labels [] next e in
      let h4 = subst (λ m. add_versions sv session p.folders m ≡ ok model) made h3 in
      (
        lookup-add_versions name p.folders (set_rows sv name rows []) model others h4
            ∙ lookup-set_rows_same name rows [] refl,
        add_versions-IsKept p.folders (set_rows sv name rows []) model apart
            (folders_fresh name rows p.folders others) h4,
        λ k other unlisted.
            lookup-add_versions k p.folders (set_rows sv name rows []) model unlisted h4
            ∙ fresh_rows name rows k other,
      )
