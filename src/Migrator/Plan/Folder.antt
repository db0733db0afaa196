-- ===== src/Migrator/Plan/Folder.antt =====
-- `planUpgrade`, `planDowngrade` and `planFolder` of migrator/plan.go.
use neo4j_graph_tool_core.Base.{
  Text, Option, none, some, List, [], Bool, true, not, ◌&&◌, ◌||◌, select, if◌then◌else◌,
}
use neo4j_graph_tool_core.Base.Int.{ℤ, pos, negsuc, leb_ℤ, ltb_ℤ, eqb_ℤ, max_int64}
use neo4j_graph_tool_core.Semver.{Semver}
use neo4j_graph_tool_core.Migrator.Files.{
  MigrationFile, MigrationScripts, no_scripts, TargetVersion,
}
use neo4j_graph_tool_core.Migrator.Database.{
  DatabaseModel, FileTimestamps, was_executed, contains_higher_version, get_file_timestamps,
}

-- `targetCommit`, where 0 stands for all
abbrev pub target_commit : ℤ → ℤ
target_commit commit = if eqb_ℤ commit (pos 0) then max_int64 else commit

-- `planUpgrade`
unfoldable pub plan_upgrade : MigrationScripts → FileTimestamps → ℤ → List MigrationFile
unfolding select
plan_upgrade scripts executed commit =
    select
      (λ f. leb_ℤ f.timestamp (target_commit commit) && not (was_executed executed f.timestamp))
      scripts.up

-- `planDowngrade`
unfoldable pub plan_downgrade : MigrationScripts → FileTimestamps → ℤ → List MigrationFile
unfolding select
plan_downgrade scripts executed commit =
    select (λ f. ltb_ℤ (target_commit commit) f.timestamp && was_executed executed f.timestamp)
      scripts.down

-- The target of a plan: a `TargetVersion` whose version is not nil.
pub record Target (V : Type 0) : Type 0 where
  pub version : V
  pub revision : ℤ

module _ {V : Type 0} where
  abbrev pub with_version : Option V → ℤ → Option (Target V)
  with_version none revision = none
  with_version (some v) revision = some (record { version = v; revision = revision })

  -- A target with no version counts as no target.
  abbrev pub effective_target : Option (TargetVersion V) → Option (Target V)
  effective_target none = none
  effective_target (some t) = with_version t.version t.revision

module _ {V : Type 0} (sv : Semver V) where
  -- The files of a folder below the target: all that were not run, unless the folder already ran a
  -- later version (`runOutdated` is false).
  abbrev pub plan_older : Text → V → MigrationScripts → DatabaseModel V → MigrationScripts
  plan_older name version scripts db =
      if contains_higher_version sv db name version then no_scripts else record {
        up = plan_upgrade scripts (get_file_timestamps sv db name version) (pos 0);
        down = [];
      }

  -- The `switch` of `planFolder` (`preventRollback` is false).
  unfoldable pub plan_scripts :
      Text → V → MigrationScripts → DatabaseModel V → Option (Target V) → MigrationScripts
  unfolding plan_upgrade plan_downgrade contains_higher_version get_file_timestamps was_executed
  plan_scripts name version scripts db none = plan_older name version scripts db
  plan_scripts name version scripts db (some t) =
      let executed = get_file_timestamps sv db name version in
      if sv.less_than version t.version
      then plan_older name version scripts db
      else if sv.equal version t.version
      then record {
        up = plan_upgrade scripts executed t.revision;
        down = plan_downgrade scripts executed t.revision;
      }
      else if sv.greater_than version t.version
      then record { up = []; down = plan_downgrade scripts executed (negsuc 0) }
      else no_scripts

  -- `planFolder`
  unfoldable pub plan_folder :
      Text
      → V
      → Option MigrationScripts
      → DatabaseModel V
      → Option (Target V)
      → Option MigrationScripts
  unfolding plan_scripts
  plan_folder name version none db target = none
  plan_folder name version (some scripts) db target =
      some (plan_scripts name version scripts db target)

  -- A snapshot of the version may stand for all files up to the target.
  unfoldable pub snapshot_reaches : V → Option (Target V) → Bool
  snapshot_reaches version none = true
  snapshot_reaches version (some t) =
      sv.less_than version t.version || (sv.equal version t.version && eqb_ℤ t.revision (pos 0))
