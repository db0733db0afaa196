-- ===== src/Migrator/Target.antt =====
-- `TargetVersion` of migrator/scanner.go as text, and decimal numbers.
pub mod Digits
use neo4j_graph_tool_core.Base.{
  ℕ, zero, suc, ◌+◌, ◌-◌, ◌*◌, ◌/◌, ◌%◌, ◌^◌, Text, Option, none, some, [], ◌∷◌, ◌&&◌, ltb, leb,
  eqb, Outcome, ok, fail, if◌then◌else◌,
}
use neo4j_graph_tool_core.Base.Int.{ℤ, pos, negsuc, eqb_ℤ}
use neo4j_graph_tool_core.Base.Result.{◌>>=◌}
use neo4j_graph_tool_core.Semver.{Semver}
use neo4j_graph_tool_core.Migrator.Files.{TargetVersion}

-- The decimal digits of a number, before the text `acc`; `n + 1` rounds are enough for `n`.
unfoldable pub digits_before : ℕ → ℕ → Text → Text
digits_before zero n acc = acc
digits_before (suc rounds) n acc =
    let rest = digits_before rounds (n / 10) ((b'0' + n % 10) ∷ acc) in
    if ltb n 10 then (b'0' + n) ∷ acc else rest

unfoldable pub format_nat : ℕ → Text
unfolding digits_before
format_nat n = digits_before (suc n) n []

-- `strconv.FormatInt(n, 10)`
unfoldable pub format_int : ℤ → Text
unfolding format_nat
format_int (pos n) = format_nat n
format_int (negsuc n) = b'-' ∷ format_nat (suc n)

-- `fmt.Sprintf("%02d", n)`
unfoldable pub format_two : ℤ → Text
unfolding format_int
format_two (pos n) = if ltb n 10 then b'0' ∷ format_nat n else format_nat n
format_two (negsuc n) = format_int (negsuc n)

unfoldable pub scan_digits : ℕ → Text → Option ℕ
scan_digits n [] = some n
scan_digits n (c ∷ s) =
    let rest = scan_digits (n * 10 + (c - b'0')) s in
    if leb b'0' c && leb c b'9' then rest else none

abbrev pub at_most : ℕ → Option ℕ → Option ℕ
at_most limit none = none
at_most limit (some n) = if leb n limit then some n else none

-- One or more digits, for a number up to `limit`.
unfoldable pub parse_nat : ℕ → Text → Option ℕ
parse_nat limit [] = none
parse_nat limit (c ∷ s) = at_most limit (scan_digits 0 (c ∷ s))

abbrev pub positive : Option ℕ → Option ℤ
positive none = none
positive (some n) = some (pos n)

abbrev pub negative : Option ℕ → Option ℤ
negative none = none
negative (some zero) = some (pos 0)
negative (some (suc n)) = some (negsuc n)

-- `strconv.ParseInt(s, 10, 0)`, where `int` has 64 bits
unfoldable pub parse_int : Text → Option ℤ
parse_int [] = none
parse_int (c ∷ s) =
    if eqb c b'-'
    then negative (parse_nat (2 ^ 63) s)
    else if eqb c b'+'
    then positive (parse_nat (2 ^ 63 - 1) s)
    else positive (parse_nat (2 ^ 63 - 1) (c ∷ s))

abbrev pub numeric : Option ℤ → Text → Outcome ℤ
numeric none s = fail "metadata are not numeric: '%s'" (s ∷ [])
numeric (some n) s = ok n

abbrev pub revision_of : Text → Outcome ℤ
revision_of [] = ok (pos 0)
revision_of (c ∷ s) = numeric (parse_int (c ∷ s)) (c ∷ s)

abbrev pub versioned_text : {V : Type 0} → Semver V → Option V → ℤ → Text
versioned_text sv none revision = []
versioned_text sv (some v) revision =
    if eqb_ℤ revision (pos 0)
    then sv.to_string v
    else sv.to_string (sv.set_metadata v (format_two revision))

module _ {V : Type 0} (sv : Semver V) where
  -- `TargetVersion.String`, which a nil receiver has too
  unfoldable pub target_to_string : Option (TargetVersion V) → Text
  target_to_string none = []
  target_to_string (some t) = versioned_text sv t.version t.revision

  abbrev pub parsed_target : Option V → Outcome (TargetVersion V)
  parsed_target none = fail "invalid semantic version" []
  parsed_target (some v) = do
    revision ← revision_of (sv.metadata v)
    ok (record { version = some v; revision = revision })

  -- `ParseTargetVersion`
  unfoldable pub parse_target_version : Text → Outcome (TargetVersion V)
  parse_target_version v = parsed_target (sv.new_version v)

  -- `Set`: on an error the target stays as it was
  unfoldable pub set_target : Option (TargetVersion V) → Text → Outcome (TargetVersion V)
  set_target none v = fail "object is not initialized" []
  set_target (some a) v = parse_target_version v
