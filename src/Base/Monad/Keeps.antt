-- ===== src/Base/Monad/Keeps.antt =====
-- Invariants of actions: what holds of the state before holds after, also after a failure.
use mathlib.Core.Path.{◌≡◌, refl}
use mathlib.Core.List.{List, [], ◌∷◌}
use neo4j_graph_tool_core.Base.Result.{Outcome, ok, fail, panic}
use neo4j_graph_tool_core.Base.Monad.{Exec, continue, pure, lift, modify, for_each, ◌>>=◌, ◌>>◌}

pub record Keeps {S A : Type 0} (P : S → Type 0) (m : Exec S A) : Type 0 where
  pub after : (s : S) → P s → P (m s).1

module _ {S A : Type 0} {P : S → Type 0} where
  pub Keeps-lift : (r : Outcome A) → Keeps P (lift r)
  Keeps-lift r = record { after = λ s h. h }

  pub Keeps-pure : (a : A) → Keeps P (pure a)
  Keeps-pure a = record { after = λ s h. h }

module _ {S : Type 0} {P : S → Type 0} where
  pub Keeps-modify : (f : S → S) → ((s : S) → P s → P (f s)) → Keeps P (modify f)
  Keeps-modify f h = record { after = h }

module _ {S A B : Type 0} (P : S → Type 0) where
  -- A computed value in front: what goes on may use what the value is.
  pub lifted-keeps :
      (r : Outcome A) (f : A → Exec S B) (s : S)
      → P s
      → ((a : A) → r ≡ ok a → P (f a s).1)
      → P ((lift r >>= f) s).1
  lifted-keeps (ok a) f s h k = k a refl
  lifted-keeps (fail m args) f s h k = h
  lifted-keeps panic f s h k = h

module _ {S A B : Type 0} {P : S → Type 0} where
  continue_keeps :
      (r : Outcome A) (s : S) (f : A → Exec S B)
      → P s
      → ((a : A) → Keeps P (f a))
      → P (continue r f s).1
  continue_keeps (ok a) s f h k = (k a).after s h
  continue_keeps (fail m args) s f h k = h
  continue_keeps panic s f h k = h

  pub Keeps->>= :
      (m : Exec S A) (f : A → Exec S B) → Keeps P m → ((a : A) → Keeps P (f a)) → Keeps P (m >>= f)
  Keeps->>= m f h k = record { after = λ s p. continue_keeps (m s).0 (m s).1 f (h.after s p) k }

module _ {S B : Type 0} {P : S → Type 0} where
  pub Keeps->> : (m : Exec S (Unit {0})) (k : Exec S B) → Keeps P m → Keeps P k → Keeps P (m >> k)
  Keeps->> m k h q = Keeps->>= m (λ _. k) h (λ _. q)

module _ {S A : Type 0} {P : S → Type 0} where
  pub Keeps-for_each :
      (act : A → Exec S (Unit {0})) (xs : List A)
      → ((x : A) → Keeps P (act x))
      → Keeps P (for_each act xs)
  unfolding for_each
  Keeps-for_each act [] h = Keeps-pure tt
  Keeps-for_each act (x ∷ xs) h = Keeps->> (act x) (for_each act xs) (h x) (Keeps-for_each act xs h)
