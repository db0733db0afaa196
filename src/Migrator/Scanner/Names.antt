-- ===== src/Migrator/Scanner/Names.antt =====
-- The file name patterns of migrator/scanner.go, and `parseFileName`.
use neo4j_graph_tool_core.Base.{
  ℕ, ◌+◌, Text, codes, text_keys, ◌==◌, Option, none, some, [], ◌∷◌, map, Bool, ◌&&◌, ◌||◌, eqb,
  leb, is_empty, Outcome, ok, fail, refuse_if, if◌then◌else◌,
}
use neo4j_graph_tool_core.Base.Int.{ℤ, pos, eqb_ℤ}
use neo4j_graph_tool_core.Base.Result.{◌>>=◌, ◌>>◌}
use neo4j_graph_tool_core.Migrator.Files.{MigrationFile, cypher, command}
use neo4j_graph_tool_core.Migrator.Target.{parse_int}

-- Letters that Go takes for equal when it ignores case, among those that occur in the patterns; two
-- letters beyond ASCII fold to `s` and `k`.
unfoldable pub fold_code : ℕ → ℕ
fold_code c =
    if leb b'A' c && leb c b'Z'
    then c + 32
    else if eqb c 383
    then b's'
    else if eqb c 8490
    then b'k'
    else c

-- `strings.EqualFold`
unfoldable pub equal_fold : Text → Text → Bool
unfolding fold_code
equal_fold s t = map fold_code s == map fold_code t

abbrev pub is_digit : ℕ → Bool
is_digit c = leb b'0' c && leb c b'9'

-- `\w`, ignoring case
unfoldable pub is_word : ℕ → Bool
unfolding fold_code
is_word c = let f = fold_code c in is_digit c || (leb b'a' f && leb f b'z') || eqb c b'_'

-- The longest start of characters that pass, and what follows.
unfoldable pub span : (ℕ → Bool) → Text → Text × Text
span p [] = ([], [])
span p (c ∷ s) = let (first, rest) = span p s in if p c then (c ∷ first, rest) else ([], c ∷ s)

-- The groups of a pattern; `direction` is empty where the pattern has none.
pub record Groups : Type 0 where
  pub commit : Text
  pub direction : Text
  pub extension : Text

abbrev pub Rest : Type 0
Rest = Text × Text

-- The text behind an underscore.
unfoldable pub after : ℕ → Text → Option Text
after c [] = none
after c (d ∷ s) = if eqb d c then some s else none

-- `(?P<name>\w+)\.(?P<type>cypher|run)$`
abbrev pub known_extension : Option Text → Option Text
known_extension none = none
known_extension (some e) =
    if equal_fold e (codes "cypher") || equal_fold e (codes "run") then some e else none

unfoldable pub match_ending : Text → Option Text
unfolding equal_fold
match_ending s =
    let (name, rest) = span is_word s in
    if is_empty name then none else known_extension (after b'.' rest)

-- `(?P<direction>up|down)_`
unfoldable pub match_direction : Text → Option Rest
match_direction (u ∷ p ∷ s) =
    let up = equal_fold (u ∷ p ∷ []) (codes "up") in
    if up then with_start (u ∷ p ∷ []) (after b'_' s) else match_down (u ∷ p ∷ s)
  where
    with_start : Text → Option Text → Option Rest
    with_start start none = none
    with_start start (some rest) = some (start, rest)

    match_down : Text → Option Rest
    match_down (d ∷ o ∷ w ∷ n ∷ s) =
        if equal_fold (d ∷ o ∷ w ∷ n ∷ []) (codes "down")
        then with_start (d ∷ o ∷ w ∷ n ∷ []) (after b'_' s)
        else none
    match_down _ = none
match_direction _ = none

-- `upDownFilePattern` and `changeFilePattern`
pub data Pattern : Type 0 where
  up_down_file change_file : Pattern

abbrev pub groups_of : Text → Text → Option Text → Option Groups
groups_of commit direction none = none
groups_of commit direction (some extension) =
    some (record { commit = commit; direction = direction; extension = extension })

abbrev pub match_with_direction : Text → Option Rest → Option Groups
match_with_direction commit none = none
match_with_direction commit (some (direction, s)) = groups_of commit direction (match_ending s)

abbrev pub match_behind_commit : Pattern → Text → Option Text → Option Groups
match_behind_commit pattern commit none = none
match_behind_commit up_down_file commit (some s) = match_with_direction commit (match_direction s)
match_behind_commit change_file commit (some s) = groups_of commit [] (match_ending s)

-- `fileNamePattern.FindStringSubmatch`
unfoldable pub find_submatch : Pattern → Text → Option Groups
unfolding span after match_ending match_direction
find_submatch pattern name =
    let (commit, rest) = span is_digit name in
    if is_empty commit then none else match_behind_commit pattern commit (after b'_' rest)

abbrev pub parsed_commit : Option ℤ → Text → Outcome ℤ
parsed_commit none s = fail "strconv.ParseInt: parsing %s: value out of range" (s ∷ [])
parsed_commit (some n) s = ok n

-- `parseFileName`, which compares the direction and the type as they are written
unfoldable pub parse_file_name : Groups → MigrationFile → Outcome MigrationFile
parse_file_name match mf = do
  n ← parsed_commit (parse_int match.commit) match.commit
  refuse_if (eqb_ℤ n (pos 0)) "forbidden number '0' at file '%s'" (mf.path ∷ [])
  ok (record mf {
    timestamp = n;
    is_downgrade = match.direction == codes "down";
    file_type = if match.extension == codes "run" then command else cypher;
  })
