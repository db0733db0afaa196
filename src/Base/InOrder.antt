-- ===== src/Base/InOrder.antt =====
-- Lists in which every element stands in a relation to each one behind it.
use mathlib.Core.Path.{◌≡◌, refl, ◌∙◌, subst}
use mathlib.Core.List.{List, [], ◌∷◌, ◌++◌, map, reverse, reverse-cons, Permᴰ}
use neo4j_graph_tool_core.Base.Lists.{is_empty, All, All-monotone, All-append, Ordered}

module _ {A : Type 0} where
  pub All-Permᴰ : (P : A → Type 0) {xs ys : List A} → Permᴰ xs ys → All P xs → All P ys
  All-Permᴰ P Permᴰ.nil h = tt
  All-Permᴰ P (Permᴰ.cons e p) h = (subst P e h.0, All-Permᴰ P p h.1)
  All-Permᴰ P (Permᴰ.swap e f) h = (subst P f h.1.0, (subst P e h.0, h.1.1))
  All-Permᴰ P (Permᴰ.trans p q) h = All-Permᴰ P q (All-Permᴰ P p h)

  pub is_empty-Permᴰ : {xs ys : List A} → Permᴰ xs ys → is_empty xs ≡ is_empty ys
  is_empty-Permᴰ Permᴰ.nil = refl
  is_empty-Permᴰ (Permᴰ.cons e p) = refl
  is_empty-Permᴰ (Permᴰ.swap e f) = refl
  is_empty-Permᴰ (Permᴰ.trans p q) = is_empty-Permᴰ p ∙ is_empty-Permᴰ q

  pub All-reverse : (P : A → Type 0) (xs : List A) → All P xs → All P (reverse xs)
  All-reverse P [] h = tt
  All-reverse P (x ∷ xs) h =
      rw (reverse-cons x xs) (All-append P (reverse xs) (x ∷ []) (All-reverse P xs h.1) (h.0, tt))

  -- Two relations that give a third.
  pub Ordered-both :
      (R S T : A → A → Type 0) (xs : List A)
      → ((a b : A) → R a b → S a b → T a b)
      → Ordered R xs
      → Ordered S xs
      → Ordered T xs
  Ordered-both R S T [] f r s = tt
  Ordered-both R S T (x ∷ xs) f r s = (All_both x xs r.0 s.0, Ordered-both R S T xs f r.1 s.1)
    where
      All_both : (x : A) (ys : List A) → All (R x) ys → All (S x) ys → All (T x) ys
      All_both x [] p q = tt
      All_both x (y ∷ ys) p q = (f x y p.0 q.0, All_both x ys p.1 q.1)

  pub Ordered-monotone :
      (R S : A → A → Type 0) (xs : List A)
      → ((a b : A) → R a b → S a b)
      → Ordered R xs
      → Ordered S xs
  Ordered-monotone R S [] f h = tt
  Ordered-monotone R S (x ∷ xs) f h =
      (All-monotone (R x) (S x) xs (f x) h.0, Ordered-monotone R S xs f h.1)

  pub Ordered-append :
      (R : A → A → Type 0) (xs ys : List A)
      → Ordered R xs
      → Ordered R ys
      → All (λ x. All (R x) ys) xs
      → Ordered R (xs ++ ys)
  Ordered-append R [] ys hx hy h = hy
  Ordered-append R (x ∷ xs) ys hx hy h =
      (All-append (R x) xs ys hx.0 h.0, Ordered-append R xs ys hx.1 hy h.1)

  pub Ordered-reverse :
      (R : A → A → Type 0) (xs : List A) → Ordered R xs → Ordered (λ a b. R b a) (reverse xs)
  Ordered-reverse R [] h = tt
  Ordered-reverse R (x ∷ xs) h = rw (reverse-cons x xs) (
      Ordered-append (λ a b. R b a) (reverse xs) (x ∷ []) (Ordered-reverse R xs h.1) (tt, tt)
        (All-monotone (R x) _ (reverse xs) (λ a r. (r, tt)) (All-reverse (R x) xs h.0)))

  -- A symmetric relation between all elements survives any change of the order.
  pub Ordered-Permᴰ :
      (R : A → A → Type 0)
      → ((a b : A) → R a b → R b a)
      → {xs ys : List A} → Permᴰ xs ys
      → Ordered R xs
      → Ordered R ys
  Ordered-Permᴰ R flip Permᴰ.nil h = tt
  Ordered-Permᴰ R flip (Permᴰ.cons {l₂ = l₂} e p) h =
      (subst (λ a. All (R a) l₂) e (All-Permᴰ (R _) p h.0), Ordered-Permᴰ R flip p h.1)
  Ordered-Permᴰ R flip (Permᴰ.swap {a = a} {b = b} {b' = b'} {l = l} e f) h = (
    (
      subst (λ x. R x b') f (subst (λ x. R b x) e (flip a b h.0.0)),
      subst (λ a. All (R a) l) f h.1.0,
    ),
    (subst (λ a. All (R a) l) e h.0.1, h.1.1),
  )
  Ordered-Permᴰ R flip (Permᴰ.trans p q) h = Ordered-Permᴰ R flip q (Ordered-Permᴰ R flip p h)

module _ {A B : Type 0} (f : A → B) where
  pub All-map : (P : B → Type 0) (xs : List A) → All (λ x. P (f x)) xs → All P (map f xs)
  All-map P [] h = tt
  All-map P (x ∷ xs) h = (h.0, All-map P xs h.1)

  pub Ordered-map :
      (R : B → B → Type 0) (xs : List A) → Ordered (λ a b. R (f a) (f b)) xs → Ordered R (map f xs)
  Ordered-map R [] h = tt
  Ordered-map R (x ∷ xs) h = (All-map (R (f x)) xs h.0, Ordered-map R xs h.1)
