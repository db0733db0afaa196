-- ===== src/Base/Monad.antt =====
-- Functions that write through a pointer and may fail: what was written before the failure stays.
pub mod Keeps
use mathlib.Core.List.{List, [], ◌∷◌, ◌++◌, map}
use mathlib.Core.Path.{◌≡◌, refl, fun_ext}
use neo4j_graph_tool_core.Base.Result.{Outcome, ok, fail, panic}

abbrev pub Exec : Type 0 → Type 0 → Type 0
Exec S A = S → Outcome A × S

module _ {S A B : Type 0} where
  abbrev pub continue : Outcome A → (A → Exec S B) → Exec S B
  continue (ok a) f s = f a s
  continue (fail m args) f s = (fail m args, s)
  continue panic f s = (panic, s)

module _ {S : Type 0} where
  abbrev pub pure : {A : Type 0} → A → Exec S A
  pure a s = (ok a, s)

  abbrev pub lift : {A : Type 0} → Outcome A → Exec S A
  lift r s = (r, s)

  infixl 5 ◌>>=◌ ◌>>◌
  abbrev pub ◌>>=◌ : {A B : Type 0} → Exec S A → (A → Exec S B) → Exec S B
  ◌>>=◌ m f s = let r = m s in continue r.0 f r.1

  -- A chain goes on with what its first action returned and left.
  pub >>=-ok :
      {A B : Type 0} (m : Exec S A) (f : A → Exec S B) (s : S) {a : A} {s' : S}
      → m s ≡ (ok a, s')
      → (m >>= f) s ≡ f a s'
  >>=-ok m f s e = rw e

  abbrev pub ◌>>◌ : {B : Type 0} → Exec S (Unit {0}) → Exec S B → Exec S B
  m >> k = m >>= λ _. k

  -- A write that cannot fail.
  abbrev pub modify : (S → S) → Exec S (Unit {0})
  modify f s = (ok tt, f s)

  -- `for _, x := range xs { if err := act(x); err != nil { return err } }`.
  unfoldable pub for_each : {A : Type 0} → (A → Exec S (Unit {0})) → List A → Exec S (Unit {0})
  for_each act [] = pure tt
  for_each act (x ∷ xs) = act x >> for_each act xs

module _ {S A : Type 0} (act : A → Exec S (Unit {0})) where
  for_each-append_at :
      (xs ys : List A) (s : S) → for_each act (xs ++ ys) s ≡ (for_each act xs >> for_each act ys) s
  unfolding for_each
  for_each-append_at [] ys s = refl
  for_each-append_at (x ∷ xs) ys s = go (act x s).0 (act x s).1 (for_each-append_at xs ys)
    where
      go :
          (r : Outcome (Unit {0})) (s' : S)
          → ((s : S) → for_each act (xs ++ ys) s ≡ (for_each act xs >> for_each act ys) s)
          → continue r (λ _. for_each act (xs ++ ys)) s' ≡ (
              let m = continue r (λ _. for_each act xs) s' in
              continue m.0 (λ _. for_each act ys) m.1)
      go (ok u) s' ih = ih s'
      go (fail m args) s' ih = refl
      go panic s' ih = refl

  -- A loop over two lists in a row is two loops in a row.
  pub for_each-append :
      (xs ys : List A) → for_each act (xs ++ ys) ≡ (for_each act xs >> for_each act ys)
  for_each-append xs ys = fun_ext (for_each-append_at xs ys)

module _ {S A B : Type 0} (act : B → Exec S (Unit {0})) (f : A → B) where
  pub for_each-map : (xs : List A) → for_each act (map f xs) ≡ for_each (λ x. act (f x)) xs
  unfolding for_each
  for_each-map [] = refl
  for_each-map (x ∷ xs) = rw (for_each-map xs)
