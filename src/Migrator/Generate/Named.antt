-- ===== src/Migrator/Generate/Named.antt =====
-- The scanner reads the names of generated files as they were meant.
use neo4j_graph_tool_core.Base.{
  ℕ, ◌≤◌, ◌<◌, ◌-◌, ◌^◌, Text, codes, text_keys, some, [], ◌∷◌, ◌++◌, Bool, true, false, ◌&&◌, ◌≡◌,
  refl, ap, arith, All, All-monotone, is_empty, ok,
}
use neo4j_graph_tool_core.Base.Int.{pos, eqb_ℤ}
use neo4j_graph_tool_core.Migrator.Files.{MigrationFile, FileType, cypher, command}
use neo4j_graph_tool_core.Migrator.Target.{format_int, format_nat, parse_int}
use neo4j_graph_tool_core.Migrator.Target.Digits.{
  IsDigit, format_nat-some, format_nat-IsDigit, parse_int-format_int,
}
use neo4j_graph_tool_core.Migrator.Scanner.Names.{
  is_digit, is_word, fold_code, equal_fold, span, after, Groups, match_ending, match_direction,
  Pattern, up_down_file, change_file, groups_of, match_behind_commit, find_submatch,
  parse_file_name,
}
use neo4j_graph_tool_core.Migrator.Generate.{file_name, suffix_of, direction_prefix}

span-stops :
    (p : ℕ → Bool) (s : Text) (c : ℕ) (t : Text)
    → All (λ d. p d ≡ true) s
    → p c ≡ false
    → span p (s ++ (c ∷ t)) ≡ (s, c ∷ t)
unfolding span
span-stops p [] c t h stop = rw stop refl
span-stops p (d ∷ s) c t h stop = rw (span-stops p s c t h.1 stop, h.0) refl

extension_of : FileType → Text
extension_of cypher = codes "cypher"
extension_of command = codes "run"

match_ending-suffix_of :
    (name : Text) (file_type : FileType)
    → is_empty name ≡ false
    → All (λ c. is_word c ≡ true) name
    → match_ending (name ++ suffix_of file_type) ≡ some (extension_of file_type)
unfolding match_ending is_word after equal_fold fold_code extension_of
match_ending-suffix_of name cypher some_name word =
    rw (span-stops is_word name b'.' (codes "cypher") word refl, some_name) refl
match_ending-suffix_of name command some_name word =
    rw (span-stops is_word name b'.' (codes "run") word refl, some_name) refl

-- The pattern that the scanner uses for a folder.
abbrev pub file_pattern : Bool → Pattern
file_pattern true = up_down_file
file_pattern false = change_file

abbrev pub direction_text : Bool → Text
direction_text true = codes "down"
direction_text false = codes "up"

abbrev pub direction_group : Bool → Bool → Text
direction_group true down = direction_text down
direction_group false down = []

digits_pass : (s : Text) → All IsDigit s → All (λ c. is_digit c ≡ true) s
digits_pass s h = All-monotone IsDigit (λ c. is_digit c ≡ true) s (λ c d. ground arith) h

abbrev behind_number : Bool → Bool → Text → FileType → Text
behind_number is_up_down down name file_type =
    direction_prefix is_up_down (direction_text down) ++ (name ++ suffix_of file_type)

abbrev groups_found : ℕ → Bool → Bool → FileType → Groups
groups_found n is_up_down down file_type = record {
  commit = format_nat n;
  direction = direction_group is_up_down down;
  extension = extension_of file_type;
}

parse_file_name-groups :
    (n : ℕ) (commit : Text) (is_up_down down : Bool) (file_type : FileType) (mf : MigrationFile)
    → parse_int commit ≡ some (pos n)
    → eqb_ℤ (pos n) (pos 0) ≡ false
    → parse_file_name
        (record {
          commit = commit;
          direction = direction_group is_up_down down;
          extension = extension_of file_type;
        })
        mf
      ≡ ok (record mf {
        timestamp = pos n;
        is_downgrade = is_up_down && down;
        file_type = file_type;
      })
unfolding parse_file_name extension_of
parse_file_name-groups n commit true true cypher mf e nonzero = rw (e, nonzero) refl
parse_file_name-groups n commit true true command mf e nonzero = rw (e, nonzero) refl
parse_file_name-groups n commit true false cypher mf e nonzero = rw (e, nonzero) refl
parse_file_name-groups n commit true false command mf e nonzero = rw (e, nonzero) refl
parse_file_name-groups n commit false down cypher mf e nonzero = rw (e, nonzero) refl
parse_file_name-groups n commit false down command mf e nonzero = rw (e, nonzero) refl

module _ (n : ℕ) (down : Bool) (name : Text) (file_type : FileType)
    (some_name : is_empty name ≡ false) (word : All (λ c. is_word c ≡ true) name) where
  behind_number-matches :
      (commit : Text) (is_up_down : Bool)
      → match_behind_commit
          (file_pattern is_up_down)
          commit
          (some (behind_number is_up_down down name file_type))
        ≡ some (record {
          commit = commit;
          direction = direction_group is_up_down down;
          extension = extension_of file_type;
        })
  unfolding after match_direction equal_fold fold_code
  behind_number-matches commit is_up_down =
      go is_up_down down (match_ending-suffix_of name file_type some_name word)
    where
      go :
          (u d : Bool)
          → match_ending (name ++ suffix_of file_type) ≡ some (extension_of file_type)
          → match_behind_commit (file_pattern u) commit (some (behind_number u d name file_type))
            ≡ some (record {
              commit = commit;
              direction = direction_group u d;
              extension = extension_of file_type;
            })
      go true true ending = ap (groups_of commit (codes "down")) ending
      go true false ending = ap (groups_of commit (codes "up")) ending
      go false d ending = ap (groups_of commit []) ending

  find_submatch-file_name :
      (is_up_down : Bool)
      → find_submatch
          (file_pattern is_up_down)
          (file_name name (direction_text down) (pos n) is_up_down file_type)
        ≡ some (groups_found n is_up_down down file_type)
  unfolding find_submatch file_name format_int after
  find_submatch-file_name is_up_down =
      let number : span is_digit
            (format_nat n ++ (b'_' ∷ behind_number is_up_down down name file_type))
          ≡ (format_nat n, b'_' ∷ behind_number is_up_down down name file_type) =
        span-stops is_digit (format_nat n) b'_' (behind_number is_up_down down name file_type)
          (digits_pass (format_nat n) (format_nat-IsDigit n)) refl in
      rw (number, format_nat-some n) (behind_number-matches (format_nat n) is_up_down)

  -- The name of a file that is generated for a positive number of 64 bits and a name of word
  -- characters matches the pattern of the folder, and is read as what it was generated for: the
  -- number, the type, and the direction in a folder with pairs of files.
  pub file_name-parses :
      (is_up_down : Bool) (mf : MigrationFile)
      → 0 < n
      → n ≤ 2 ^ 63 - 1
      → (match : Groups) × (find_submatch
            (file_pattern is_up_down)
            (file_name name (direction_text down) (pos n) is_up_down file_type)
          ≡ some match)
        × (parse_file_name match mf
            ≡ ok (record mf {
              timestamp = pos n;
              is_downgrade = is_up_down && down;
              file_type = file_type;
            }))
  unfolding parse_file_name format_int
  file_name-parses is_up_down mf positive small = (
    groups_found n is_up_down down file_type,
    find_submatch-file_name is_up_down,
    parse_file_name-groups n (format_nat n) is_up_down down file_type mf
        (parse_int-format_int (pos n) small) (ground arith),
  )
