-- ===== src/Migrator/Plan/Replan.antt =====
-- Planning again after a plan was run.
use neo4j_graph_tool_core.Base.{
  Text, Option, none, some, List, [], ◌∷◌, ◌++◌, Bool, true, false, ◌≡◌, refl, ◌∙◌, arith, All,
  All-monotone, select, any, ==_self, int_keys,
}
use neo4j_graph_tool_core.Base.Int.{ℤ, pos, negsuc, max_int64, ltb_ℤ-not-leb_ℤ}
use neo4j_graph_tool_core.Semver.{Semver, IsSemver}
use neo4j_graph_tool_core.Migrator.Files.{MigrationFile, MigrationScripts, no_scripts}
use neo4j_graph_tool_core.Migrator.Database.{
  DatabaseModel, FileTimestamps, was_executed, get_file_timestamps,
}
use neo4j_graph_tool_core.Migrator.Plan.Folder.{
  Target, target_commit, plan_upgrade, plan_downgrade, plan_older, plan_scripts,
}
use neo4j_graph_tool_core.Migrator.Plan.Effect.{
  run_files, has_number, IsSplit, goal_commit, is_outdated, settled, IsNumber, place, below, at,
  above, plan_scripts-settles,
}

select-none :
    (p : MigrationFile → Bool) (fs : List MigrationFile)
    → All (λ f. p f ≡ false) fs
    → select p fs ≡ []
unfolding select
select-none p [] h = refl
select-none p (f ∷ fs) h = rw (h.0, select-none p fs h.1)

-- Every file of a list has its number there.
numbers_there : (fs : List MigrationFile) → All (λ f. has_number f.timestamp fs ≡ true) fs
unfolding any
numbers_there [] = tt
numbers_there (f ∷ fs) = (
  ground (arith, ==_self f.timestamp),
  All-monotone _ _ fs (λ g h. ground (arith, h)) (numbers_there fs),
)

abbrev pub HasNumbers : MigrationScripts → Type 0
HasNumbers ms = All (λ f. IsNumber f.timestamp) ms.up × All (λ f. IsNumber f.timestamp) ms.down

All-and :
    (P Q : MigrationFile → Type 0) (fs : List MigrationFile)
    → All P fs
    → All Q fs
    → All (λ f. P f × Q f) fs
All-and P Q [] hp hq = tt
All-and P Q (f ∷ fs) hp hq = ((hp.0, hq.0), All-and P Q fs hp.1 hq.1)

module _ (ms : MigrationScripts) (e : ℤ → Bool) (ex : FileTimestamps) (goal : ℤ)
    (numbers : HasNumbers ms)
    (done : (t : ℤ) → IsNumber t → was_executed ex t ≡ settled goal ms e t) where
  nothing_to_upgrade : (commit : ℤ) → target_commit commit ≡ goal → plan_upgrade ms ex commit ≡ []
  unfolding plan_upgrade
  nothing_to_upgrade commit c = select-none _ ms.up (
      All-monotone _ _ ms.up (λ f h. ground (arith, c, done f.timestamp h.0))
        (All-and _ _ ms.up numbers.0 (numbers_there ms.up)))

  nothing_to_downgrade :
      (commit : ℤ) → target_commit commit ≡ goal → plan_downgrade ms ex commit ≡ []
  unfolding plan_downgrade
  nothing_to_downgrade commit c = select-none _ ms.down (
      All-monotone _ _ ms.down
        (λ f h. ground (arith, c, done f.timestamp h.0, ltb_ℤ-not-leb_ℤ f.timestamp goal))
        (All-and _ _ ms.down numbers.1 (numbers_there ms.down)))

module _ {V : Type 0} (sv : Semver V) (law : IsSemver sv) where
  older_done :
      (name : Text) (version : V) (ms : MigrationScripts) (db : DatabaseModel V)
      → plan_upgrade ms (get_file_timestamps sv db name version) (pos 0) ≡ []
      → plan_older sv name version ms db ≡ no_scripts
  older_done name version ms db h = ground (arith, h)

  settled_done :
      (name : Text) (version : V) (ms : MigrationScripts) (e : ℤ → Bool) (db : DatabaseModel V)
      (target : Option (Target V))
      → HasNumbers ms
      → ((t : ℤ)
          → IsNumber t
          → was_executed (get_file_timestamps sv db name version) t
            ≡ settled (goal_commit sv version target) ms e t)
      → plan_scripts sv name version ms db target ≡ no_scripts
  unfolding plan_scripts
  settled_done name version ms e db none numbers done =
      older_done name version ms db (nothing_to_upgrade ms e _ max_int64 numbers done (pos 0) refl)
  settled_done name version ms e db (some g) numbers done = elim (place sv law version g.version) [
    | below l ↦ rw l (
        older_done name version ms db
          (nothing_to_upgrade ms e _ max_int64 numbers (λ t n. rw l at (done t n)) (pos 0) refl))
    | at l q ↦
        let done' = λ (t : ℤ) (n : IsNumber t). rw (l, q) at (done t n) in
        rw (l, q)
          (rw (
            nothing_to_upgrade ms e _ _ numbers done' g.revision refl,
            nothing_to_downgrade ms e _ _ numbers done' g.revision refl,
          ))
    | above l q a ↦
        rw (l, q, a)
          (rw (
            nothing_to_downgrade ms e _ (negsuc 0) numbers (λ t n. rw (l, q) at (done t n))
              (negsuc 0) refl))
  ]

  -- If the upgrades and downgrades of a folder's version are split, their numbers are from 0 to the
  -- largest of 64 bits and the version is not outdated, then planning it again for the same target
  -- on a database where its plan was run finds nothing to do.
  pub plan_scripts-idempotent :
      (name : Text) (version : V) (ms : MigrationScripts) (db db' : DatabaseModel V)
      (target : Option (Target V))
      → IsSplit ms
      → HasNumbers ms
      → is_outdated sv name version db target ≡ false
      → ((t : ℤ)
          → IsNumber t
          → let s = plan_scripts sv name version ms db target in
            was_executed (get_file_timestamps sv db' name version) t
            ≡ run_files (was_executed (get_file_timestamps sv db name version)) (s.up ++ s.down) t)
      → plan_scripts sv name version ms db' target ≡ no_scripts
  plan_scripts-idempotent name version ms db db' target split numbers outdated ran =
      settled_done name version ms _ db' target numbers
        (λ t n. ran t n ∙ plan_scripts-settles sv law name version ms db target t split outdated n)
