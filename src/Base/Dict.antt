-- ===== src/Base/Dict.antt =====
-- Go maps as association lists. A `range` over a map visits the entries in an order that Go leaves
-- open: the order of the list, over which statements quantify.
use neo4j_graph_tool_core.Base.Equality.{Comparable, ◌==◌}
use neo4j_graph_tool_core.Base.Tests.{if◌then◌else◌}
use mathlib.Core.Path.{◌≡◌, refl, subst}
use neo4j_graph_tool_core.Base.Lists.{All}
use mathlib.Core.Option.{Option, none, some}
use mathlib.Core.Bool.{Bool, true, false}
use mathlib.Core.List.{List, [], ◌∷◌}
use native.Mathlib.Omega.{arith}

abbrev pub Dict {ℓ} : Type ℓ → Type ℓ → Type ℓ
Dict K V = List (K × V)

pub some-injective : {A : Type 0} {a b : A} → some a ≡ some b → a ≡ b
some-injective h = cc

module _ {K V : Type 0} ⦃keys : Comparable K⦄ where
  -- `m[k]`, and `none` for a missing key.
  unfoldable pub lookup : K → Dict K V → Option V
  lookup k [] = none
  lookup k ((j, v) ∷ m) = if j == k then some v else lookup k m

  -- `m[k] = v`.
  unfoldable pub insert : K → V → Dict K V → Dict K V
  insert k v ((j, w) ∷ m) = if j == k then (k, v) ∷ m else (j, w) ∷ insert k v m
  insert k v [] = (k, v) ∷ []

  -- `delete(m, k)`.
  unfoldable pub erase : K → Dict K V → Dict K V
  erase k [] = []
  erase k ((j, w) ∷ m) = let rest = erase k m in if j == k then rest else (j, w) ∷ rest

  pub lookup-insert :
      (m : Dict K V) (v : V) (written read : K)
      → lookup read (insert written v m) ≡ (if written == read then some v else lookup read m)
  unfolding insert lookup
  lookup-insert ((i, w) ∷ m) v written read =
      let rest = lookup-insert m v written read in
      ground
        (arith, rest, keys.same_iff i read, keys.same_iff written read, keys.same_iff i written)
  lookup-insert [] v written read = refl

  pub lookup-erase :
      (m : Dict K V) (gone read : K)
      → lookup read (erase gone m) ≡ (if gone == read then none else lookup read m)
  unfolding erase lookup
  lookup-erase ((i, w) ∷ m) gone read =
      let rest = lookup-erase m gone read in
      ground (arith, rest, keys.same_iff i read, keys.same_iff gone read, keys.same_iff i gone)
  lookup-erase [] gone read = ground arith

  pub lookup-All :
      (P : V → Type 0) (k : K) (m : Dict K V) {v : V}
      → All (λ e. P e.1) m
      → lookup k m ≡ some v
      → P v
  unfolding lookup
  lookup-All P k [] h e = cc
  lookup-All P k ((j, w) ∷ m) h e = go (j == k) e (λ found. lookup-All P k m h.1 found)
    where
      go :
          (b : Bool) {v : V}
          → (if b then some w else lookup k m) ≡ some v
          → (lookup k m ≡ some v → P v)
          → P v
      go true e rest = subst P (some-injective e) h.0
      go false e rest = rest e

  pub insert-All :
      (P : V → Type 0) (k : K) (m : Dict K V) (v : V)
      → P v
      → All (λ e. P e.1) m
      → All (λ e. P e.1) (insert k v m)
  unfolding insert
  insert-All P k [] v p h = (p, tt)
  insert-All P k ((j, w) ∷ m) v p h = go (j == k) (insert-All P k m v p h.1)
    where
      go :
          (b : Bool)
          → All (λ e. P e.1) (insert k v m)
          → All (λ e. P e.1) (if b then (k, v) ∷ m else (j, w) ∷ insert k v m)
      go true rest = (p, h.1)
      go false rest = (h.0, rest)

-- `_, has := m[k]`.
abbrev pub has {ℓ} : {V : Type ℓ} → Option V → Bool
has none = false
has (some v) = true
