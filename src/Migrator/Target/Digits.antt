-- ===== src/Migrator/Target/Digits.antt =====
-- Decimal numbers of migrator/scanner.go and migrator/execution.go: what is written reads back.
use neo4j_graph_tool_core.Base.{
  ℕ, zero, suc, ◌+◌, ◌-◌, ◌*◌, ◌/◌, ◌%◌, ◌^◌, ◌≤◌, ◌<◌, Text, some, [], ◌∷◌, Bool, true, false, ltb,
  leb, eqb, ◌≡◌, refl, ◌∙◌, ap, arith, All, if◌then◌else◌, is_empty,
}
use neo4j_graph_tool_core.Base.Int.{ℤ, pos, negsuc}
use neo4j_graph_tool_core.Migrator.Target.{
  digits_before, format_nat, format_int, scan_digits, parse_nat, negative, parse_int,
}

abbrev pub IsDigit : ℕ → Type 0
IsDigit c = (b'0' ≤ c) × (c ≤ b'9')

scan_one :
    (k d : ℕ) (acc : Text)
    → d < 10
    → scan_digits k ((b'0' + d) ∷ acc) ≡ scan_digits (k * 10 + d) acc
unfolding scan_digits
scan_one k d acc h =
    let low : leb 48 (48 + d) ≡ true = ground arith in
    let high : leb (48 + d) 57 ≡ true = ground arith in
    let digit : 48 + d - 48 ≡ d = omega arith in rw (low, high, digit)

scan_digits-digits_before :
    (rounds n : ℕ) (acc : Text)
    → n < rounds
    → scan_digits 0 (digits_before rounds n acc) ≡ scan_digits n acc
unfolding scan_digits digits_before
scan_digits-digits_before zero n acc h = ground arith
scan_digits-digits_before (suc rounds) n acc h =
    go (ltb n 10) refl (scan_digits-digits_before rounds (n / 10) ((b'0' + n % 10) ∷ acc))
  where
    go :
        (b : Bool)
        → ltb n 10 ≡ b
        → (n / 10 < rounds
            → scan_digits 0 (digits_before rounds (n / 10) ((b'0' + n % 10) ∷ acc))
              ≡ scan_digits (n / 10) ((b'0' + n % 10) ∷ acc))
        → scan_digits 0
            (if b then (b'0' + n) ∷ acc else digits_before rounds (n / 10) ((b'0' + n % 10) ∷ acc))
          ≡ scan_digits n acc
    go true e ih = scan_one 0 n acc (ground arith) ∙ ap (λ k. scan_digits k acc) (omega arith)
    go false e ih =
        let ten : 10 ≤ n = ground arith in
        ih (omega arith)
        ∙ (scan_one (n / 10) (n % 10) acc (omega arith) ∙ ap (λ k. scan_digits k acc) (omega arith))

digits_before-IsDigit :
    (rounds n : ℕ) (acc : Text) → All IsDigit acc → All IsDigit (digits_before rounds n acc)
unfolding digits_before
digits_before-IsDigit zero n acc h = h
digits_before-IsDigit (suc rounds) n acc h =
    go (ltb n 10) refl (
      digits_before-IsDigit rounds (n / 10) ((b'0' + n % 10) ∷ acc) ((omega arith, omega arith), h))
  where
    go :
        (b : Bool)
        → ltb n 10 ≡ b
        → All IsDigit (digits_before rounds (n / 10) ((b'0' + n % 10) ∷ acc))
        → All IsDigit
            (if b then (b'0' + n) ∷ acc else digits_before rounds (n / 10) ((b'0' + n % 10) ∷ acc))
    go true e ih = ((ground arith, ground arith), h)
    go false e ih = ih

digits_before-more :
    (rounds n c : ℕ) (acc : Text) → is_empty (digits_before rounds n (c ∷ acc)) ≡ false
unfolding digits_before
digits_before-more zero n c acc = refl
digits_before-more (suc rounds) n c acc =
    go (ltb n 10) (digits_before-more rounds (n / 10) (b'0' + n % 10) (c ∷ acc))
  where
    go :
        (b : Bool)
        → is_empty (digits_before rounds (n / 10) ((b'0' + n % 10) ∷ c ∷ acc)) ≡ false
        → is_empty (
            if b
            then (b'0' + n) ∷ c ∷ acc
            else digits_before rounds (n / 10) ((b'0' + n % 10) ∷ c ∷ acc))
          ≡ false
    go true ih = refl
    go false ih = ih

pub format_nat-some : (n : ℕ) → is_empty (format_nat n) ≡ false
unfolding format_nat digits_before
format_nat-some n = go (ltb n 10) (digits_before-more n (n / 10) (b'0' + n % 10) [])
  where
    go :
        (b : Bool)
        → is_empty (digits_before n (n / 10) ((b'0' + n % 10) ∷ [])) ≡ false
        → is_empty (if b then (b'0' + n) ∷ [] else digits_before n (n / 10) ((b'0' + n % 10) ∷ []))
          ≡ false
    go true ih = refl
    go false ih = ih

-- The rounds that `format_nat` is given are enough: its digits are those of the number.
scan_digits-format_nat : (n : ℕ) → scan_digits 0 (format_nat n) ≡ some n
unfolding format_nat scan_digits
scan_digits-format_nat n = scan_digits-digits_before (suc n) n [] (omega arith)

pub format_nat-IsDigit : (n : ℕ) → All IsDigit (format_nat n)
unfolding format_nat
format_nat-IsDigit n = digits_before-IsDigit (suc n) n [] tt

parse_nat-digits :
    (limit : ℕ) (s : Text) (n : ℕ)
    → is_empty s ≡ false
    → scan_digits 0 s ≡ some n
    → n ≤ limit
    → parse_nat limit s ≡ some n
unfolding parse_nat
parse_nat-digits limit [] n h e le = cc
parse_nat-digits limit (c ∷ s) n h e le =
    let small : leb n limit ≡ true = ground arith in rw (e, small)

unsigned :
    (s : Text) (n : ℕ)
    → is_empty s ≡ false
    → All IsDigit s
    → parse_nat (2 ^ 63 - 1) s ≡ some n
    → parse_int s ≡ some (pos n)
unfolding parse_int
unsigned [] n h d e = cc
unsigned (c ∷ s) n h d e =
    let minus : eqb c 45 ≡ false = ground arith in
    let plus : eqb c 43 ≡ false = ground arith in rw (minus, plus, e)

-- A number of 64 bits.
abbrev pub IsInt64 : ℤ → Type 0
IsInt64 (pos n) = n ≤ 2 ^ 63 - 1
IsInt64 (negsuc n) = n ≤ 2 ^ 63 - 1

-- A number of 64 bits that is written in decimal digits reads back as the same number.
pub parse_int-format_int : (i : ℤ) → IsInt64 i → parse_int (format_int i) ≡ some i
unfolding format_int
parse_int-format_int (pos n) h =
    unsigned (format_nat n) n (format_nat-some n) (format_nat-IsDigit n) (
      parse_nat-digits (2 ^ 63 - 1) (format_nat n) n (format_nat-some n) (scan_digits-format_nat n)
        h)
parse_int-format_int (negsuc n) h =
    unfold parse_int in
    ap negative (
      parse_nat-digits (2 ^ 63) (format_nat (suc n)) (suc n) (format_nat-some (suc n))
        (scan_digits-format_nat (suc n)) (omega arith))
