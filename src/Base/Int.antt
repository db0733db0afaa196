-- ===== src/Base/Int.antt =====
-- Signed 64-bit numbers: `negsuc n` is -(n + 1). The program only compares them.
use Prim.Native.Nat.{ℕ, ◌-◌, ◌^◌}
use mathlib.Core.Path.{◌≡◌}
use mathlib.Core.Logic.{◌↔◌}
use mathlib.Core.Bool.{Bool, true, false}
use native.Mathlib.Omega.{arith}
use neo4j_graph_tool_core.Base.Tests.{ltb, leb, eqb}

pub data ℤ : Type 0 where
  pos : ℕ → ℤ
  negsuc : ℕ → ℤ

abbrev pub leb_ℤ : ℤ → ℤ → Bool
leb_ℤ (pos a) (pos b) = leb a b
leb_ℤ (pos a) (negsuc b) = false
leb_ℤ (negsuc a) (pos b) = true
leb_ℤ (negsuc a) (negsuc b) = leb b a

abbrev pub ltb_ℤ : ℤ → ℤ → Bool
ltb_ℤ (pos a) (pos b) = ltb a b
ltb_ℤ (pos a) (negsuc b) = false
ltb_ℤ (negsuc a) (pos b) = true
ltb_ℤ (negsuc a) (negsuc b) = ltb b a

abbrev pub eqb_ℤ : ℤ → ℤ → Bool
eqb_ℤ (pos a) (pos b) = eqb a b
eqb_ℤ (negsuc a) (negsuc b) = eqb a b
eqb_ℤ _ _ = false

pub eqb_ℤ_iff : (a b : ℤ) → (eqb_ℤ a b ≡ true) ↔ (a ≡ b)
eqb_ℤ_iff (pos a) (pos b) = ground arith
eqb_ℤ_iff (pos a) (negsuc b) = ground arith
eqb_ℤ_iff (negsuc a) (pos b) = ground arith
eqb_ℤ_iff (negsuc a) (negsuc b) = ground arith

-- `math.MaxInt64`.
abbrev pub max_int64 : ℤ
max_int64 = pos (2 ^ 63 - 1)

-- A number of Go's `int64`, as far as its upper end.
abbrev pub FitsInt64 : ℤ → Type 0
FitsInt64 a = leb_ℤ a max_int64 ≡ true

pub ltb_ℤ_trans : (a b c : ℤ) → ltb_ℤ a b ≡ true → ltb_ℤ b c ≡ true → ltb_ℤ a c ≡ true
ltb_ℤ_trans (pos a) (pos b) (pos c) h k = ground arith
ltb_ℤ_trans (negsuc a) (pos b) (pos c) h k = ground arith
ltb_ℤ_trans (negsuc a) (negsuc b) (pos c) h k = ground arith
ltb_ℤ_trans (negsuc a) (negsuc b) (negsuc c) h k = ground arith
ltb_ℤ_trans _ _ _ h k = ground arith

-- What is not below stays so along a chain.
pub ltb_ℤ_co_trans : (a b c : ℤ) → ltb_ℤ b a ≡ false → ltb_ℤ c b ≡ false → ltb_ℤ c a ≡ false
ltb_ℤ_co_trans (pos a) (pos b) (pos c) h k = ground arith
ltb_ℤ_co_trans (negsuc a) (pos b) (pos c) h k = ground arith
ltb_ℤ_co_trans (negsuc a) (negsuc b) (pos c) h k = ground arith
ltb_ℤ_co_trans (negsuc a) (negsuc b) (negsuc c) h k = ground arith
ltb_ℤ_co_trans _ _ _ h k = ground arith

pub ltb_ℤ_irrefl : (a : ℤ) → ltb_ℤ a a ≡ false
ltb_ℤ_irrefl (pos a) = ground arith
ltb_ℤ_irrefl (negsuc a) = ground arith

pub ltb_ℤ-not-leb_ℤ : (a b : ℤ) → leb_ℤ a b ≡ true → ltb_ℤ b a ≡ false
ltb_ℤ-not-leb_ℤ (pos a) (pos b) h = ground arith
ltb_ℤ-not-leb_ℤ (negsuc a) (negsuc b) h = ground arith
ltb_ℤ-not-leb_ℤ (negsuc a) (pos b) h = ground arith
ltb_ℤ-not-leb_ℤ (pos a) (negsuc b) h = ground arith

pub leb_ℤ-not-ltb_ℤ : (a b : ℤ) → leb_ℤ a b ≡ false → ltb_ℤ b a ≡ true
leb_ℤ-not-ltb_ℤ (pos a) (pos b) h = ground arith
leb_ℤ-not-ltb_ℤ (negsuc a) (negsuc b) h = ground arith
leb_ℤ-not-ltb_ℤ (negsuc a) (pos b) h = ground arith
leb_ℤ-not-ltb_ℤ (pos a) (negsuc b) h = ground arith
