-- ===== src/Config/Normal.antt =====
-- What `Normalize` of config/config.go reaches: a normal form, which it leaves as it is.
use neo4j_graph_tool_core.Base.{
  ℕ, Text, Option, none, some, List, [], ◌∷◌, false, ◌≡◌, refl, subst, deref, ap, ◌∙◌, All, ok,
  >>=-eq-ok, ok-injective, arith, is_empty,
}
use neo4j_graph_tool_core.Base.Dict.{Dict, some-injective}
use neo4j_graph_tool_core.Config.Defs.{
  Config, PlannerConfig, SchemaFolder, FolderDetail, SupervisorConfig, default_cypher_shell_format,
}
use neo4j_graph_tool_core.Config.Validate.{validate_structure}
use neo4j_graph_tool_core.Config.Normalize.{
  lower_code, to_lower, labels_or_default, text_or_default, normalize_folder, normalize_folders,
  normalize_supervisor, normalize_schema_folder, normalize, normalized,
}

pub deref-eq-ok : {A : Type 0} {a : A} (o : Option A) → deref o ≡ ok a → o ≡ some a
deref-eq-ok none h = cc
deref-eq-ok (some b) h = ap some (ok-injective h)

lower_code-lower_code : (c : ℕ) → lower_code (lower_code c) ≡ lower_code c
unfolding lower_code
lower_code-lower_code c = ground arith

pub to_lower-to_lower : (s : Text) → to_lower (to_lower s) ≡ to_lower s
unfolding to_lower
to_lower-to_lower [] = refl
to_lower-to_lower (c ∷ s) = rw (lower_code-lower_code c, to_lower-to_lower s)

module _ (title : Text → Text) where
  labels_or_default_twice :
      (name : Text) (ls : List Text)
      → labels_or_default title name (labels_or_default title name ls)
        ≡ labels_or_default title name ls
  labels_or_default_twice name [] = refl
  labels_or_default_twice name (l ∷ ls) = refl

  text_or_default_twice :
      (s d : Text) → text_or_default title (text_or_default title s d) d ≡ text_or_default title s d
  text_or_default_twice [] [] = refl
  text_or_default_twice [] (c ∷ d) = refl
  text_or_default_twice (c ∷ s) d = refl

  normalize_folder_twice :
      (name : Text) (f : FolderDetail)
      → normalize_folder title name (normalize_folder title name f) ≡ normalize_folder title name f
  unfolding normalize_folder
  normalize_folder_twice name f = rw (text_or_default_twice, labels_or_default_twice)

  normalize_folders_twice :
      (folders done : Dict Text (Option FolderDetail))
      → normalize_folders title folders ≡ ok done
      → normalize_folders title done ≡ ok done
  unfolding normalize_folders
  normalize_folders_twice [] [] h = refl
  normalize_folders_twice [] (x ∷ done) h = cc
  normalize_folders_twice ((name, none) ∷ folders) done h = cc
  normalize_folders_twice ((name, some f) ∷ folders) done h =
      let (rest, e, made) =
        >>=-eq-ok (normalize_folders title folders)
          (λ rest. ok ((name, some (normalize_folder title name f)) ∷ rest)) h in
      subst (λ done. normalize_folders title done ≡ ok done) (ok-injective made)
        (rw (normalize_folders_twice folders rest e, normalize_folder_twice))

  normalize_supervisor_twice :
      (s : Option SupervisorConfig)
      → normalize_supervisor title (normalize_supervisor title s) ≡ normalize_supervisor title s
  normalize_supervisor_twice none = refl
  normalize_supervisor_twice (some s) = rw to_lower-to_lower

  pub normalize-ok :
      (cfg : Config) (p : PlannerConfig) (sf : SchemaFolder)
      (folders : Dict Text (Option FolderDetail))
      → cfg.planner ≡ some p
      → p.schema_folder ≡ some sf
      → normalize_folders title p.folders ≡ ok folders
      → normalize title (some cfg) ≡ ok (normalized title cfg p sf folders)
  unfolding normalize validate_structure
  normalize-ok cfg p sf folders c s f = rw (c, s, f)

  -- Where a normalized configuration comes from.
  pub normalize-eq-ok :
      (c : Option Config) (c' : Config)
      → normalize title c ≡ ok c'
      → (cfg : Config) × (p : PlannerConfig) × (sf : SchemaFolder) × (folders : Dict Text
          (Option FolderDetail))
        × (cfg.planner ≡ some p)
        × (p.schema_folder ≡ some sf)
        × (normalize_folders title p.folders ≡ ok folders)
        × (normalized title cfg p sf folders ≡ c')
  unfolding normalize validate_structure
  normalize-eq-ok none c' h = cc
  normalize-eq-ok (some cfg) c' h =
      let (_, _, h1) = >>=-eq-ok (validate_structure false (some cfg)) _ h in
      let (p, e, h2) = >>=-eq-ok (deref cfg.planner) _ h1 in
      let (sf, s, h3) = >>=-eq-ok (deref p.schema_folder) _ h2 in
      let (folders, f, h4) = >>=-eq-ok (normalize_folders title p.folders) _ h3 in
      (
        cfg,
        p,
        sf,
        folders,
        deref-eq-ok cfg.planner e,
        deref-eq-ok p.schema_folder s,
        f,
        ok-injective h4,
      )

  normalized_twice :
      (cfg : Config) (p : PlannerConfig) (sf : SchemaFolder)
      (folders : Dict Text (Option FolderDetail))
      → normalized title
          (normalized title cfg p sf folders)
          (record p {
            schema_folder = some (normalize_schema_folder title sf);
            folders = folders;
            cypher_shell_format =
                text_or_default title p.cypher_shell_format default_cypher_shell_format;
          })
          (normalize_schema_folder title sf)
          folders
        ≡ normalized title cfg p sf folders
  normalized_twice cfg p sf folders =
      rw (normalize_supervisor_twice, labels_or_default_twice, text_or_default_twice)

  -- A configuration that `Normalize` reaches is left as it is by another `Normalize`.
  pub normalize-normalize :
      (c : Option Config) (c' : Config)
      → normalize title c ≡ ok c'
      → normalize title (some c') ≡ ok c'
  normalize-normalize c c' h =
      let (cfg, p, sf, folders, e, s, f, same) = normalize-eq-ok c c' h in
      subst (λ c'. normalize title (some c') ≡ ok c') same
        (normalize-ok (normalized title cfg p sf folders) _ _ folders refl refl
            (normalize_folders_twice p.folders folders f)
          ∙ ap ok (normalized_twice cfg p sf folders))

  -- A folder with a label; a nil folder has none to ask for.
  abbrev pub HasLabels : Option FolderDetail → Type 0
  HasLabels none = Unit
  HasLabels (some detail) = is_empty detail.node_labels ≡ false

  defaults_are_labels :
      (name : Text) (ls : List Text) → is_empty (labels_or_default title name ls) ≡ false
  defaults_are_labels name [] = refl
  defaults_are_labels name (l ∷ ls) = refl

  normalize_folder-HasLabels :
      (name : Text) (f : FolderDetail) → HasLabels (some (normalize_folder title name f))
  unfolding normalize_folder
  normalize_folder-HasLabels name f = defaults_are_labels name f.node_labels

  pub normalize_folders-HasLabels :
      (folders done : Dict Text (Option FolderDetail))
      → normalize_folders title folders ≡ ok done
      → All (λ e. HasLabels e.1) done
  unfolding normalize_folders
  normalize_folders-HasLabels [] [] h = tt
  normalize_folders-HasLabels [] (x ∷ done) h = cc
  normalize_folders-HasLabels ((name, none) ∷ folders) done h = cc
  normalize_folders-HasLabels ((name, some f) ∷ folders) done h =
      let (rest, e, made) =
        >>=-eq-ok (normalize_folders title folders)
          (λ rest. ok ((name, some (normalize_folder title name f)) ∷ rest)) h in
      subst (λ done. All (λ e. HasLabels e.1) done) (ok-injective made)
        (normalize_folder-HasLabels name f, normalize_folders-HasLabels folders rest e)

  -- Every folder of a normalized configuration has labels.
  pub normalize-HasLabels :
      (c : Option Config) (c' : Config) (p : PlannerConfig) (schema : SchemaFolder)
      → normalize title c ≡ ok c'
      → c'.planner ≡ some p
      → p.schema_folder ≡ some schema
      → (is_empty schema.node_labels ≡ false) × All (λ e. HasLabels e.1) p.folders
  normalize-HasLabels c c' p schema h e s =
      let (cfg, q, sf, folders, _, _, f, same) = normalize-eq-ok c c' h in
      let same_planner = some-injective (ap (λ c'. c'.planner) same ∙ e) in
      let same_schema =
        some-injective (ap (λ (p : PlannerConfig). p.schema_folder) same_planner ∙ s) in
      (
        subst (λ (x : SchemaFolder). is_empty x.node_labels ≡ false) same_schema
            (defaults_are_labels sf.folder_name sf.node_labels),
        subst (λ (x : PlannerConfig). All (λ e. HasLabels e.1) x.folders) same_planner
            (normalize_folders-HasLabels q.folders folders f),
      )
