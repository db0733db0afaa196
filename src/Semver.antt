-- ===== src/Semver.antt =====
-- The library github.com/Masterminds/semver/v3, which is not part of the repository: the operations
-- that the program calls, on non-nil versions, and what their documentation promises of the order.
use neo4j_graph_tool_core.Base.{◌≡◌, Text, Bool, not, ◌&&◌, Option}
use neo4j_graph_tool_core.Base.Sort.{IsWeakOrder}

pub record Semver (V : Type 0) : Type 0 where
  -- `semver.NewVersion`
  pub new_version : Text → Option V
  pub less_than : V → V → Bool
  pub equal : V → V → Bool
  pub greater_than : V → V → Bool
  pub to_string : V → Text
  pub original : V → Text
  pub metadata : V → Text
  -- `SetMetadata`, whose error the program ignores
  pub set_metadata : V → Text → V

-- `Compare` ranks any two versions, and the three tests read its sign.
pub record IsSemver {V : Type 0} (sv : Semver V) : Type 0 where
  pub order : IsWeakOrder sv.less_than
  pub equal_lem : (a b : V) → sv.equal a b ≡ (not (sv.less_than a b) && not (sv.less_than b a))
  pub greater_than_lem : (a b : V) → sv.greater_than a b ≡ sv.less_than b a
