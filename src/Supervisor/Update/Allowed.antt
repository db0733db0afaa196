-- ===== src/Supervisor/Update/Allowed.antt =====
-- Which commands an update can start.
use neo4j_graph_tool_core.Base.{
  Text, codes, text_keys, Option, some, [], ◌∷◌, ◌++◌, Bool, true, false, is_empty, ◌≡◌, sym, ap,
  ◌∙◌, Outcome, ok, fail, panic, deref, >>=-eq-ok, ok-injective, if◌then◌else◌,
}
use neo4j_graph_tool_core.Base.Dict.{some-injective}
use neo4j_graph_tool_core.Base.Monad.{lift, modify, ◌>>=◌}
use neo4j_graph_tool_core.Base.Monad.Keeps.{
  Keeps, Keeps-pure, Keeps-modify, Keeps->>=, Keeps->>, Keeps-lift, lifted-keeps,
}
use neo4j_graph_tool_core.Base.Sort.{SortSlice}
use neo4j_graph_tool_core.Semver.{Semver}
use neo4j_graph_tool_core.Config.Defs.{Config, PlannerConfig}
use neo4j_graph_tool_core.Config.Validate.{validate}
use neo4j_graph_tool_core.Config.Normal.{deref-eq-ok}
use neo4j_graph_tool_core.Migrator.Files.{
  MigrationFile, LocalVersionFolder, LocalFolders, TargetVersion,
}
use neo4j_graph_tool_core.Migrator.Database.{DatabaseModel}
use neo4j_graph_tool_core.Migrator.Plan.Versions.{Planner, new_planner}
use neo4j_graph_tool_core.Migrator.Plan.Run.{plan}
use neo4j_graph_tool_core.Migrator.Builder.{create_builder}
use neo4j_graph_tool_core.Migrator.Builder.Steps.{plan-AllAllowed}
use neo4j_graph_tool_core.Migrator.Scanner.Snapshots.{scan_folders}
use neo4j_graph_tool_core.Migrator.Allowed.{AllAllowed, add_cypher-AllAllowed}
use neo4j_graph_tool_core.Migrator.Steps.{add_cypher}
use neo4j_graph_tool_core.Supervisor.Helpers.{get_import_dir, drop}
use neo4j_graph_tool_core.Migrator.Scanner.Root.{
  FileInfo, absent, unreadable, directory, other_file, new_scanner,
}
use neo4j_graph_tool_core.Supervisor.Update.{
  without_error, Host, known_model, dropped, plan_known, plan_config, plan_scanned, plan_found,
  make_steps,
}

module _ {V : Type 0} (sv : Semver V) where
  new_planner-config : (c : Config) {p : Planner} → new_planner sv (some c) ≡ ok p → p.config ≡ c
  unfolding new_planner
  new_planner-config c h =
      let made : Outcome Planner = ok (record { config = c }) in
      let (_, _, e) = >>=-eq-ok (validate sv (some c)) (λ _. made) h in
      ap (λ (p : Planner). p.config) (sym (ok-injective e))

without_error-some : (r : Outcome Planner) {p : Planner} → without_error r ≡ some p → r ≡ ok p
without_error-some (ok q) h = ap ok (some-injective h)
without_error-some (fail m args) h = cc
without_error-some panic h = cc

new_scanner-ok :
    (info : FileInfo) (root : Text) (o : Option Planner) {p : Planner}
    → new_scanner info root o ≡ ok p
    → o ≡ some p
unfolding new_scanner
new_scanner-ok absent root o h = cc
new_scanner-ok (unreadable m args) root o h = cc
new_scanner-ok directory root o h = deref-eq-ok o h
new_scanner-ok other_file root o h = cc

module _ {V : Type 0} (sv : Semver V) ⦃files : SortSlice MigrationFile⦄
    ⦃folders : SortSlice (LocalVersionFolder V)⦄ (host : Host sv) (cfg : Config) where
  dropped-Keeps :
      (clean : Bool) (pc p : PlannerConfig)
      → Keeps (AllAllowed p.allowed_commands) (dropped sv host cfg clean pc)
  unfolding drop
  dropped-Keeps false pc p = Keeps-pure tt
  dropped-Keeps true pc p = go (is_empty pc.drop_cypher_file)
    where
      go :
          (b : Bool)
          → Keeps (AllAllowed p.allowed_commands) (
              if b
              then lift (fail "drop cypher file is not specified" [])
              else lift (host.absolute (get_import_dir pc.base_folder ++ pc.drop_cypher_file))
                >>= λ fp. modify (
                    add_cypher (
                      codes "// wipe out the entire database\n"
                      ∷ codes ":source "
                      ∷ fp
                      ∷ codes "\n"
                      ∷ [])))
      go true = Keeps-lift _
      go false =
          Keeps->>= _ _ (Keeps-lift _)
            (λ fp. Keeps-modify _ (λ s h. add_cypher-AllAllowed p.allowed_commands _ s h))

  plan_found-AllAllowed :
      (pc pc' : PlannerConfig) (target : Option (TargetVersion V)) (clean : Bool) (batch : Text)
      (db : DatabaseModel V) (planner : Planner) (lfs : LocalFolders V)
      → planner.config.planner ≡ some pc
      → AllAllowed pc.allowed_commands
          (plan_found sv host cfg target clean batch db pc' planner lfs []).1
  plan_found-AllAllowed pc pc' target clean batch db planner lfs e =
      (Keeps->> (dropped sv host cfg clean pc')
          (plan sv planner lfs db target batch
            (create_builder sv host.read_file host.absolute planner true))
          (dropped-Keeps clean pc' pc)
          (record {
            after = λ steps h.
                plan-AllAllowed sv host.read_file host.absolute planner true pc lfs db target batch
                  steps e h;
          })).after
        [] tt

  -- The steps of an update hold no commands but `exit` and the configured ones.
  pub make_steps-AllAllowed :
      (pc : PlannerConfig) (target : Option (TargetVersion V)) (clean : Bool) (batch : Text)
      → cfg.planner ≡ some pc
      → AllAllowed pc.allowed_commands (make_steps sv host cfg target clean batch []).1
  unfolding make_steps
  make_steps-AllAllowed pc target clean batch e =
      let P = AllAllowed pc.allowed_commands in
      let made : Outcome Planner = new_planner sv (some cfg) in
      lifted-keeps P (known_model sv host cfg clean (without_error made))
        (plan_known sv host cfg target clean batch) [] tt
        (λ db known.
          lifted-keeps P (deref cfg.planner) (plan_config sv host cfg target clean batch db) [] tt
            (λ pc' there.
              let root = get_import_dir pc'.base_folder in
              lifted-keeps P (new_scanner (host.stat root) root (without_error made))
                (plan_scanned sv host cfg target clean batch db pc') [] tt
                (λ planner found.
                  lifted-keeps P (scan_folders sv (host.file_system root) planner)
                    (plan_found sv host cfg target clean batch db pc' planner) [] tt
                    (λ lfs scanned. plan_found-AllAllowed pc pc' target clean batch db planner lfs (
                      ap (λ (c : Config). c.planner)
                        (new_planner-config sv cfg (
                          without_error-some made
                            (new_scanner-ok (host.stat root) root (without_error made) found)))
                      ∙ e)))))
