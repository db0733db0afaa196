-- ===== src/Config/Valid/Checks.antt =====
-- The checks of the validation in config/config.go, one by one: what it means that they pass.
use Prim.Native.String.{String}
use mathlib.Core.List.{Memᴰ}
use mathlib.Core.List.Memᴰ.{head, tail}
use neo4j_graph_tool_core.Base.{
  Text, Option, none, some, List, [], ◌∷◌, Bool, true, false, not, ◌||◌, ◌≡◌, ◌≢◌, ◌↔◌, refl, sym,
  text_keys, ◌==◌, All, All-universal, Outcome, ok, fail, panic, refuse_if, is_empty, Bool-cases,
  inl, inr, if◌then◌else◌,
}
use neo4j_graph_tool_core.Base.Dict.{has}
use neo4j_graph_tool_core.Base.Result.{◌>>=◌, ◌>>◌}
use neo4j_graph_tool_core.Config.Validate.{
  string_in_array, find_duplicate, duplicate_elements, refuse_duplicate,
}
use neo4j_graph_tool_core.Config.Valid.{IsDistinct}

-- Two checks in a row.
pub both_iff :
    {P Q : Type 0} (m k : Outcome (Unit {0}))
    → ((m ≡ ok tt) ↔ P)
    → ((k ≡ ok tt) ↔ Q)
    → ((m >> k) ≡ ok tt) ↔ (P × Q)
both_iff (ok u) k h h' = (λ e. (h.0 refl, h'.0 e), λ e. h'.1 e.1)
both_iff (fail m args) k h h' = (λ e. cc, λ e. let clash = h.1 e.0 in cc)
both_iff panic k h h' = (λ e. cc, λ e. let clash = h.1 e.0 in cc)

pub through_iff :
    {A P Q : Type 0} (r : Outcome A) (f : A → Outcome (Unit {0})) (k : Outcome (Unit {0}))
    → (((r >>= f) ≡ ok tt) ↔ P)
    → ((k ≡ ok tt) ↔ Q)
    → ((r >>= λ a. f a >> k) ≡ ok tt) ↔ (P × Q)
through_iff (ok a) f k h h' = both_iff (f a) k h h'
through_iff (fail m args) f k h h' = (λ e. cc, λ e. let clash = h.1 e.0 in cc)
through_iff panic f k h h' = (λ e. cc, λ e. let clash = h.1 e.0 in cc)

pub refuse_if_iff :
    {P : Type 0} (b : Bool) (m : String) (args : List Text)
    → ((b ≡ false) ↔ P)
    → (refuse_if b m args ≡ ok tt) ↔ P
refuse_if_iff true m args h = (λ e. cc, λ p. let clash = h.1 p in cc)
refuse_if_iff false m args h = (λ e. h.0 refl, λ p. refl)

pub fail_iff :
    (m : String) (args : List Text) → (◌≡◌ {A = Outcome (Unit {0})} (fail m args) (ok tt)) ↔ ⊥
fail_iff m args = (λ h. cc, λ h. absurd h)

pub is_empty_iff : (s : Text) → (is_empty s ≡ false) ↔ (s ≢ [])
is_empty_iff [] = (λ h e. cc, λ h. absurd (h refl))
is_empty_iff (c ∷ s) = (λ h e. cc, λ h. refl)

pub has_iff : {A : Type 0} (o : Option A) → (has o ≡ false) ↔ (o ≡ none)
has_iff none = (λ h. refl, λ h. refl)
has_iff (some a) = (λ h. cc, λ h. cc)

pub ==_iff : (a b : Text) → ((a == b) ≡ false) ↔ (a ≢ b)
==_iff a b = (
  λ h e. let hit = (text_keys.same_iff a b).0 e in cc,
  λ h. elim (Bool-cases (a == b)) [
    | inl hit ↦ absurd (h ((text_keys.same_iff a b).1 hit))
    | inr miss ↦ miss
  ],
)

pub string_in_array_iff : (xs : List Text) (s : Text) → (string_in_array xs s ≡ true) ↔ Memᴰ s xs
unfolding string_in_array
string_in_array_iff [] s = (λ h. cc, λ h. elim h [ ])
string_in_array_iff (x ∷ xs) s = (
  forth (x == s) ((text_keys.same_iff x s).1) (string_in_array_iff xs s).0,
  back (x == s) ((text_keys.same_iff x s).0) (string_in_array_iff xs s).1,
)
  where
    forth :
        (b : Bool)
        → (b ≡ true → x ≡ s)
        → (string_in_array xs s ≡ true → Memᴰ s xs)
        → (b || string_in_array xs s) ≡ true
        → Memᴰ s (x ∷ xs)
    forth true e ih h = head (sym (e refl))
    forth false e ih h = tail (ih h)

    back :
        (b : Bool)
        → (x ≡ s → b ≡ true)
        → (Memᴰ s xs → string_in_array xs s ≡ true)
        → Memᴰ s (x ∷ xs)
        → (b || string_in_array xs s) ≡ true
    back true e ih h = refl
    back false e ih (head same) = let clash = e (sym same) in cc
    back false e ih (tail m) = ih m

pub not_in_array_iff :
    (xs : List Text) (s : Text) → (not (string_in_array xs s) ≡ false) ↔ Memᴰ s xs
not_in_array_iff xs s = (
  λ h. (string_in_array_iff xs s).0 (go (string_in_array xs s) h),
  λ m. rw ((string_in_array_iff xs s).1 m),
)
  where
    go : (b : Bool) → not b ≡ false → b ≡ true
    go true h = refl
    go false h = cc

-- None of the labels is among those that were seen.
abbrev IsNew : List Text → List Text → Type 0
IsNew seen ls = All (λ l. Memᴰ l seen → ⊥) ls

fresh_iff :
    (l : Text) (seen ls : List Text) → IsNew (l ∷ seen) ls ↔ (All (λ x. l ≢ x) ls × IsNew seen ls)
fresh_iff l seen [] = (λ h. (tt, tt), λ h. tt)
fresh_iff l seen (x ∷ ls) = (
  λ h.
      let (differ, fresh) = (fresh_iff l seen ls).0 h.1 in
      ((λ e. h.0 (head (sym e)), differ), (λ m. h.0 (tail m), fresh)),
  λ h. (
    λ m. elim m [ head e ↦ h.0.0 (sym e) | tail t ↦ h.1.0 t ],
    (fresh_iff l seen ls).1 (h.0.1, h.1.1),
  ),
)

find_duplicate_iff :
    (seen ls : List Text) → (find_duplicate seen ls ≡ none) ↔ (IsNew seen ls × IsDistinct ls)
unfolding find_duplicate
find_duplicate_iff seen [] = (λ h. (tt, tt), λ h. refl)
find_duplicate_iff seen (l ∷ ls) =
    go (string_in_array seen l) (string_in_array_iff seen l) (find_duplicate_iff (l ∷ seen) ls)
      (fresh_iff l seen ls)
  where
    go :
        (b : Bool)
        → (b ≡ true ↔ Memᴰ l seen)
        → (find_duplicate (l ∷ seen) ls ≡ none) ↔ (IsNew (l ∷ seen) ls × IsDistinct ls)
        → IsNew (l ∷ seen) ls ↔ (All (λ x. l ≢ x) ls × IsNew seen ls)
        → ((if b then some l else find_duplicate (l ∷ seen) ls) ≡ none)
          ↔ (IsNew seen (l ∷ ls) × IsDistinct (l ∷ ls))
    go true m ih new = (λ h. cc, λ h. absurd (h.0.0 (m.0 refl)))
    go false m ih new = (
      λ h.
          let (fresh, distinct) = ih.0 h in
          let (differ, old) = new.0 fresh in
          ((λ t. let clash = m.1 t in cc, old), (differ, distinct)),
      λ h. ih.1 (new.1 (h.1.0, h.0.1), h.1.1),
    )

pub refuse_duplicate_iff :
    (ls : List Text) (m : String) (args : List Text)
    → (refuse_duplicate (duplicate_elements ls) m args ≡ ok tt) ↔ IsDistinct ls
unfolding duplicate_elements
refuse_duplicate_iff ls m args = go (find_duplicate [] ls) (find_duplicate_iff [] ls)
  where
    go :
        (o : Option Text)
        → (o ≡ none) ↔ (IsNew [] ls × IsDistinct ls)
        → (refuse_duplicate o m args ≡ ok tt) ↔ IsDistinct ls
    go none h = (λ e. (h.0 refl).1, λ e. refl)
    go (some l) h =
        (λ e. cc, λ e. let clash = h.1 (All-universal _ ls (λ x m. elim m [ ]), e) in cc)
