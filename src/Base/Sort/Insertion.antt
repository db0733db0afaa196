-- ===== src/Base/Sort/Insertion.antt =====
-- Insertion sort keeps the promises of `SortSlice`, so they can be met.
use mathlib.Core.Path.{◌≡◌, refl}
use mathlib.Core.Bool.{Bool, true, false}
use mathlib.Core.List.{List, [], ◌∷◌, Permᴰ}
use mathlib.Core.Logic.{inl, inr}
use neo4j_graph_tool_core.Base.Tests.{if◌then◌else◌, Bool-cases}
use neo4j_graph_tool_core.Base.Lists.{All, All-monotone}
use neo4j_graph_tool_core.Base.Sort.{IsWeakOrder, IsSorted, SortSlice}

module _ {A : Type 0} (less : A → A → Bool) where
  insert_sorted : A → List A → List A
  insert_sorted x [] = x ∷ []
  insert_sorted x (y ∷ ys) = if less y x then y ∷ insert_sorted x ys else x ∷ y ∷ ys

  pub insertion_sort : List A → List A
  insertion_sort [] = []
  insertion_sort (x ∷ xs) = insert_sorted x (insertion_sort xs)

  Permᴰ-same : (xs : List A) → Permᴰ xs xs
  Permᴰ-same [] = Permᴰ.nil
  Permᴰ-same (x ∷ xs) = Permᴰ.cons refl (Permᴰ-same xs)

  insert_sorted-perm : (x : A) (ys : List A) → Permᴰ (insert_sorted x ys) (x ∷ ys)
  unfolding insert_sorted
  insert_sorted-perm x [] = Permᴰ-same _
  insert_sorted-perm x (y ∷ ys) = elim (Bool-cases (less y x)) [
    | inl h ↦
        rw (h, insert_sorted)
          (Permᴰ.trans (Permᴰ.cons refl (insert_sorted-perm x ys)) (Permᴰ.swap refl refl))
    | inr h ↦ rw (h, insert_sorted) (Permᴰ-same _)
  ]

  pub insertion_sort-perm : (xs : List A) → Permᴰ (insertion_sort xs) xs
  unfolding insertion_sort
  insertion_sort-perm [] = Permᴰ.nil
  insertion_sort-perm (x ∷ xs) =
      Permᴰ.trans (insert_sorted-perm x (insertion_sort xs))
        (Permᴰ.cons refl (insertion_sort-perm xs))

module _ {A : Type 0} (less : A → A → Bool) (w : IsWeakOrder less) where
  All-insert_sorted :
      (P : A → Type 0) (x : A) (ys : List A) → P x → All P ys → All P (insert_sorted less x ys)
  unfolding insert_sorted
  All-insert_sorted P x [] hx h = (hx, tt)
  All-insert_sorted P x (y ∷ ys) hx h = elim (Bool-cases (less y x)) [
    | inl l ↦ rw (l, insert_sorted) (h.0, All-insert_sorted P x ys hx h.1)
    | inr l ↦ rw (l, insert_sorted) (hx, h)
  ]

  not_below : (y x : A) → less y x ≡ true → less x y ≡ false
  not_below y x h = elim (Bool-cases (less x y)) [
    | inl k ↦ absurd (absurd_of (w.irrefl x) (w.trans x y x k h))
    | inr k ↦ k
  ]
    where
      absurd_of : {b : Bool} → b ≡ false → b ≡ true → ⊥
      absurd_of p q = cc

  insert_sorted-IsSorted :
      (x : A) (ys : List A) → IsSorted less ys → IsSorted less (insert_sorted less x ys)
  unfolding insert_sorted
  insert_sorted-IsSorted x [] h = (tt, tt)
  insert_sorted-IsSorted x (y ∷ ys) h = elim (Bool-cases (less y x)) [
    | inl l ↦
        rw (l, insert_sorted)
          (
            All-insert_sorted (λ b. less b y ≡ false) x ys (not_below y x l) h.0,
            insert_sorted-IsSorted x ys h.1,
          )
    | inr l ↦
        rw (l, insert_sorted)
          (
            (
              l,
              All-monotone (λ b. less b y ≡ false) (λ b. less b x ≡ false) ys
                  (λ b k. w.co_trans x y b l k) h.0,
            ),
            h,
          )
  ]

  pub insertion_sort-IsSorted : (xs : List A) → IsSorted less (insertion_sort less xs)
  unfolding insertion_sort
  insertion_sort-IsSorted [] = tt
  insertion_sort-IsSorted (x ∷ xs) =
      insert_sorted-IsSorted x (insertion_sort less xs) (insertion_sort-IsSorted xs)

unfoldable pub insertion_slice : {A : Type 0} → SortSlice A
unfolding insertion_sort insert_sorted
insertion_slice = record {
  sort = insertion_sort;
  sort_perm = insertion_sort-perm;
  sort-IsSorted = insertion_sort-IsSorted;
}
