-- ===== src/Base/Equality.antt =====
-- Types whose values the program compares with `==`.
use mathlib.Core.Bool.{Bool, true}
use mathlib.Core.Logic.{◌↔◌}
use mathlib.Core.Path.{◌≡◌, refl}
use neo4j_graph_tool_core.Base.Int.{ℤ, eqb_ℤ, eqb_ℤ_iff}
use neo4j_graph_tool_core.Base.Texts.{Text, text_eq, text_eq_iff}

pub record Comparable (K : Type 0) : Type 0 where
  pub same : K → K → Bool
  pub same_iff : (j k : K) → (j ≡ k) ↔ (same j k ≡ true)

infix 50 ◌==◌
abbrev pub ◌==◌ : {K : Type 0} ⦃keys : Comparable K⦄ → K → K → Bool
◌==◌ ⦃keys⦄ = keys.same

instance abbrev pub int_keys : Comparable ℤ
int_keys = record { same = eqb_ℤ; same_iff = λ j k. ((eqb_ℤ_iff j k).1, (eqb_ℤ_iff j k).0) }

instance abbrev pub text_keys : Comparable Text
text_keys = record { same = text_eq; same_iff = λ j k. ((text_eq_iff j k).1, (text_eq_iff j k).0) }

pub ==_self : {K : Type 0} ⦃keys : Comparable K⦄ (k : K) → (k == k) ≡ true
==_self ⦃keys⦄ k = (keys.same_iff k k).0 refl
