-- ===== src/Base/Sort.antt =====
-- `sort.Slice` of Go's standard library, by what its documentation promises: for a strict weak
-- order the result is a permutation in ascending order. Equal elements may change places.

pub mod Insertion
use mathlib.Core.Path.{◌≡◌}
use mathlib.Core.Bool.{Bool, true, false}
use mathlib.Core.List.{List, Permᴰ}
use neo4j_graph_tool_core.Base.Lists.{Ordered}

pub record IsWeakOrder {A : Type 0} (less : A → A → Bool) : Type 0 where
  pub irrefl : (a : A) → less a a ≡ false
  pub trans : (a b c : A) → less a b ≡ true → less b c ≡ true → less a c ≡ true
  pub co_trans : (a b c : A) → less b a ≡ false → less c b ≡ false → less c a ≡ false

-- No element is below one that stands before it.
abbrev pub IsSorted : {A : Type 0} → (A → A → Bool) → List A → Type 0
IsSorted less = Ordered (λ a b. less b a ≡ false)

pub record SortSlice (A : Type 0) : Type 0 where
  pub sort : (A → A → Bool) → List A → List A
  pub sort_perm : (less : A → A → Bool) (xs : List A) → Permᴰ (sort less xs) xs
  pub sort-IsSorted :
      (less : A → A → Bool) → IsWeakOrder less → (xs : List A) → IsSorted less (sort less xs)

abbrev pub sort_slice : {A : Type 0} ⦃s : SortSlice A⦄ → (A → A → Bool) → List A → List A
sort_slice ⦃s⦄ = s.sort
