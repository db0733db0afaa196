-- ===== src/Migrator/Plan/Effect.antt =====
-- What running the planned files of one folder and version does to the set of executed files.
use mathlib.Core.List.{foldl, foldl-append, append-nil}
use neo4j_graph_tool_core.Base.{
  Text, Option, none, some, List, [], ◌∷◌, ◌++◌, Bool, true, false, not, ◌&&◌, ◌||◌, ◌≡◌, refl, inl,
  inr, ◌∙◌, arith, All, All-select, select, any, Bool-cases, if◌then◌else◌,
}
use neo4j_graph_tool_core.Base.Int.{
  ℤ, pos, negsuc, leb_ℤ, ltb_ℤ, eqb_ℤ, eqb_ℤ_iff, max_int64, ltb_ℤ-not-leb_ℤ, leb_ℤ-not-ltb_ℤ,
}
use neo4j_graph_tool_core.Semver.{Semver, IsSemver}
use neo4j_graph_tool_core.Migrator.Files.{MigrationFile, MigrationScripts}
use neo4j_graph_tool_core.Migrator.Database.{
  DatabaseModel, FileTimestamps, was_executed, contains_higher_version, get_file_timestamps,
}
use neo4j_graph_tool_core.Migrator.Plan.Folder.{
  Target, target_commit, plan_upgrade, plan_downgrade, plan_older, plan_scripts,
}

-- Running an upgrade marks its number as executed, running a downgrade takes the mark away.
abbrev pub run_file : (ℤ → Bool) → MigrationFile → ℤ → Bool
run_file executed f t = if eqb_ℤ f.timestamp t then not f.is_downgrade else executed t

abbrev pub run_files : (ℤ → Bool) → List MigrationFile → ℤ → Bool
run_files = foldl run_file

-- A file with this number is there.
abbrev pub has_number : ℤ → List MigrationFile → Bool
has_number t = any (λ f. eqb_ℤ f.timestamp t)

-- The upgrades and the downgrades stand in their own lists, as the scanner leaves them.
abbrev pub IsSplit : MigrationScripts → Type 0
IsSplit ms = All (λ f. f.is_downgrade ≡ false) ms.up × All (λ f. f.is_downgrade ≡ true) ms.down

run_files-up :
    (e : ℤ → Bool) (fs : List MigrationFile) (t : ℤ)
    → All (λ f. f.is_downgrade ≡ false) fs
    → run_files e fs t ≡ (has_number t fs || e t)
unfolding any
run_files-up e [] t h = refl
run_files-up e (f ∷ fs) t h = ground (arith, run_files-up (run_file e f) fs t h.1)

run_files-down :
    (e : ℤ → Bool) (fs : List MigrationFile) (t : ℤ)
    → All (λ f. f.is_downgrade ≡ true) fs
    → run_files e fs t ≡ (not (has_number t fs) && e t)
unfolding any
run_files-down e [] t h = refl
run_files-down e (f ∷ fs) t h = ground (arith, run_files-down (run_file e f) fs t h.1)

-- What is selected of a list by a test on the numbers has a number if the list has it and it passes.
has_number-select :
    (p : ℤ → Bool) (fs : List MigrationFile) (t : ℤ)
    → has_number t (select (λ f. p f.timestamp) fs) ≡ (has_number t fs && p t)
unfolding select any
has_number-select p [] t = refl
has_number-select p (f ∷ fs) t = ground (arith, has_number-select p fs t, eqb_ℤ_iff f.timestamp t)

module _ {V : Type 0} (sv : Semver V) where
  -- The number up to which a version's files are to be executed, for a target.
  abbrev pub goal_commit : V → Option (Target V) → ℤ
  goal_commit version none = max_int64
  goal_commit version (some t) =
      if sv.less_than version t.version
      then max_int64
      else if sv.equal version t.version
      then target_commit t.revision
      else negsuc 0

  -- A version below the target is left alone if the folder already ran a later one.
  abbrev pub is_outdated : Text → V → DatabaseModel V → Option (Target V) → Bool
  is_outdated name version db none = contains_higher_version sv db name version
  is_outdated name version db (some t) =
      sv.less_than version t.version && contains_higher_version sv db name version

-- The executed numbers once the files up to `goal` ran and those above it were taken back.
abbrev pub settled : ℤ → MigrationScripts → (ℤ → Bool) → ℤ → Bool
settled goal ms executed t =
    if leb_ℤ t goal
    then has_number t ms.up || executed t
    else not (has_number t ms.down) && executed t

-- A number that the scanner accepts.
abbrev pub IsNumber : ℤ → Type 0
IsNumber t = (leb_ℤ (pos 0) t ≡ true) × (leb_ℤ t max_int64 ≡ true)

module _ (ms : MigrationScripts) (ex : FileTimestamps) (split : IsSplit ms) where
  run_plan_upgrade :
      (commit t : ℤ)
      → run_files (was_executed ex) (plan_upgrade ms ex commit) t
        ≡ (has_number t ms.up && leb_ℤ t (target_commit commit)) || was_executed ex t
  unfolding plan_upgrade
  run_plan_upgrade commit t =
      run_files-up (was_executed ex) (plan_upgrade ms ex commit) t
        (All-select (λ f. f.is_downgrade ≡ false) _ ms.up split.0)
      ∙ ground (
        arith,
        has_number-select (λ n. leb_ℤ n (target_commit commit) && not (was_executed ex n)) ms.up t,
      )

  run_plan_downgrade :
      (commit t : ℤ) (e : ℤ → Bool)
      → run_files e (plan_downgrade ms ex commit) t
        ≡ not (has_number t ms.down && (ltb_ℤ (target_commit commit) t && was_executed ex t)) && e t
  unfolding plan_downgrade
  run_plan_downgrade commit t e =
      run_files-down e (plan_downgrade ms ex commit) t
        (All-select (λ f. f.is_downgrade ≡ true) _ ms.down split.1)
      ∙ ground (
        arith,
        has_number-select (λ n. ltb_ℤ (target_commit commit) n && was_executed ex n) ms.down t,
      )

  settle_both :
      (commit t : ℤ)
      → run_files (was_executed ex) (plan_upgrade ms ex commit ++ plan_downgrade ms ex commit) t
        ≡ settled (target_commit commit) ms (was_executed ex) t
  settle_both commit t =
      rw (foldl-append, run_plan_downgrade commit t, run_plan_upgrade commit t)
        (ground (
          arith,
          ltb_ℤ-not-leb_ℤ t (target_commit commit),
          leb_ℤ-not-ltb_ℤ t (target_commit commit),
        ))

  settle_up :
      (t : ℤ)
      → IsNumber t
      → run_files (was_executed ex) (plan_upgrade ms ex (pos 0) ++ []) t
        ≡ settled max_int64 ms (was_executed ex) t
  settle_up t n = rw (append-nil, run_plan_upgrade (pos 0) t) (ground (arith, n.1))

  settle_down :
      (t : ℤ)
      → IsNumber t
      → run_files (was_executed ex) (plan_downgrade ms ex (negsuc 0)) t
        ≡ settled (negsuc 0) ms (was_executed ex) t
  settle_down (pos k) n = rw (run_plan_downgrade (negsuc 0) (pos k)) (ground arith)
  settle_down (negsuc k) n = cc

-- Where a version stands to the target, as the `switch` asks it.
pub data Place {V : Type 0} (sv : Semver V) (version target : V) : Type 0 where
  below : sv.less_than version target ≡ true → Place sv version target
  at :
      sv.less_than version target ≡ false → sv.equal version target ≡ true → Place sv version target
  above :
      sv.less_than version target ≡ false
      → sv.equal version target ≡ false
      → sv.greater_than version target ≡ true
      → Place sv version target

module _ {V : Type 0} (sv : Semver V) (law : IsSemver sv) where
  pub place : (version target : V) → Place sv version target
  place version target = elim (Bool-cases (sv.less_than version target)) [
    | inl l ↦ below l
    | inr l ↦ elim (Bool-cases (sv.less_than target version)) [
      | inl g ↦
          above l (law.equal_lem version target ∙ rw (l, g))
            (law.greater_than_lem version target ∙ g)
      | inr g ↦ at l (law.equal_lem version target ∙ rw (l, g))
    ]
  ]

  older_settles :
      (name : Text) (version : V) (ms : MigrationScripts) (db : DatabaseModel V) (t : ℤ)
      → IsSplit ms
      → contains_higher_version sv db name version ≡ false
      → IsNumber t
      → let s = plan_older sv name version ms db in
        let executed = was_executed (get_file_timestamps sv db name version) in
        run_files executed (s.up ++ s.down) t ≡ settled max_int64 ms executed t
  older_settles name version ms db t split latest n = rw latest (settle_up ms _ split t n)

  -- If the upgrades and downgrades of a folder's version are split and the folder ran no later
  -- version that makes this one outdated, then running its plan on the state that it was planned
  -- for brings every file number from 0 to the largest of 64 bits up to the goal to executed if it
  -- has an upgrade, takes it back above the goal if it was executed and has a downgrade, and leaves
  -- it as it was otherwise.
  pub plan_scripts-settles :
      (name : Text) (version : V) (ms : MigrationScripts) (db : DatabaseModel V)
      (target : Option (Target V)) (t : ℤ)
      → IsSplit ms
      → is_outdated sv name version db target ≡ false
      → IsNumber t
      → let s = plan_scripts sv name version ms db target in
        let executed = was_executed (get_file_timestamps sv db name version) in
        run_files executed (s.up ++ s.down) t
        ≡ settled (goal_commit sv version target) ms executed t
  unfolding plan_scripts
  plan_scripts-settles name version ms db none t split outdated n =
      older_settles name version ms db t split outdated n
  plan_scripts-settles name version ms db (some g) t split outdated n =
      elim (place version g.version) [
        | below l ↦ rw l (older_settles name version ms db t split (rw l at outdated) n)
        | at l e ↦ rw (l, e) (settle_both ms _ split g.revision t)
        | above l e a ↦ rw (l, e, a) (settle_down ms _ split t n)
      ]
