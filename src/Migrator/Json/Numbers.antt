-- ===== src/Migrator/Json/Numbers.antt =====
-- The array of a version's numbers, as the JSON of the model writes it.
use mathlib.Core.List.{append-nil, append_assoc}
use neo4j_graph_tool_core.Base.{
  ℕ, zero, suc, ◌+◌, ◌-◌, ◌<◌, Text, codes, List, [], ◌∷◌, ◌++◌, map, join, true, false, length,
  leb, eqb, ◌≡◌, refl, sym, ap, ◌∙◌, arith,
}
use neo4j_graph_tool_core.Base.Int.{ℤ}
use neo4j_graph_tool_core.Migrator.Target.{format_nat, format_int}
use neo4j_graph_tool_core.Migrator.Json.{skip, write_numbers, write_executed}

-- The numbers with a comma in front of each.
abbrev with_commas : List ℤ → Text
with_commas [] = []
with_commas (n ∷ ns) = codes "," ++ (format_int n ++ with_commas ns)

-- The numbers separated by commas.
abbrev pub separated : List ℤ → Text
separated ns = join (map format_int ns) (codes ",")

separated-cons : (n : ℤ) (ns : List ℤ) → separated (n ∷ ns) ≡ format_int n ++ with_commas ns
separated-cons n [] = sym (append-nil (format_int n))
separated-cons n (m ∷ ns) = ap (λ s. format_int n ++ (codes "," ++ s)) (separated-cons m ns)

write_numbers-later : (i : ℕ) (ns : List ℤ) → write_numbers (suc i) ns ≡ with_commas ns
unfolding write_numbers
write_numbers-later i [] = refl
write_numbers-later i (n ∷ ns) =
    let first : eqb (suc i) 0 ≡ false = ground arith in
    let next : suc i + 1 ≡ suc (suc i) = omega arith in
    rw (first, next, write_numbers-later (suc i) ns) refl

write_numbers-first : (ns : List ℤ) → write_numbers 0 ns ≡ separated ns
unfolding write_numbers
write_numbers-first [] = refl
write_numbers-first (n ∷ ns) =
    ap (λ s. format_int n ++ s) (write_numbers-later 0 ns) ∙ sym (separated-cons n ns)

length-skip : (k : ℕ) (ns : List ℤ) → length (skip k ns) ≡ length ns - k
unfolding skip
length-skip zero ns = omega arith
length-skip (suc k) [] = omega arith
length-skip (suc k) (n ∷ ns) = omega (arith, length-skip k ns)

write_numbers-behind :
    (i : ℕ) (ns : List ℤ) → 0 < i → 0 < length ns → write_numbers i ns ≡ codes "," ++ separated ns
write_numbers-behind i [] h k = absurd (omega arith)
write_numbers-behind zero (n ∷ ns) h k = absurd (omega arith)
write_numbers-behind (suc i) (n ∷ ns) h k =
    write_numbers-later i (n ∷ ns) ∙ ap (λ s. codes "," ++ s) (sym (separated-cons n ns))

-- A version with fewer numbers than the limit, which is positive, lists them all; one with more
-- lists the last ones behind the count of the others; and one with as many as the limit lists them
-- all behind a count of 0, with no comma between the count and the first number.
pub write_executed-lists :
    (limit : ℕ) (ns : List ℤ)
    → 0 < limit
    → let others = length ns - limit in
      (length ns < limit → write_executed limit ns ≡ codes "[" ++ (separated ns ++ codes "]"))
      × (limit < length ns
          → write_executed limit ns
            ≡ codes "[\"... "
              ++ (format_nat others
                  ++ (codes " more\"," ++ (separated (skip others ns) ++ codes "]"))))
      × (length ns ≡ limit
          → write_executed limit ns ≡ codes "[\"... 0 more\"" ++ (separated ns ++ codes "]"))
unfolding write_executed
write_executed-lists limit ns positive = (
  λ fewer.
      let test : leb limit (length ns) ≡ false = ground arith in
      rw (test, write_numbers-first ns) refl,
  λ more.
      let test : leb limit (length ns) ≡ true = ground arith in
      let count = length-skip (length ns - limit) ns in
      rw
        (
          test,
          write_numbers-behind (length ns - limit) (skip (length ns - limit) ns) (omega arith)
              (omega (arith, count)),
        )
        (ap (λ (t : Text). codes "[\"... " ++ t)
          (append_assoc (format_nat (length ns - limit))
            (codes " more\"," ++ separated (skip (length ns - limit) ns)) (codes "]"))),
  λ same.
      let test : leb limit (length ns) ≡ true = ground arith in
      let no_others : length ns - limit ≡ 0 = omega arith in
      rw (test, no_others, write_numbers-first ns) refl,
)
