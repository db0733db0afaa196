-- ===== src/Migrator/Command.antt =====
-- `parseArgs` and `addCommand` of migrator/execution.go: the commands of a `.run` file.
use neo4j_graph_tool_core.Base.{
  ℕ, zero, suc, Text, codes, text_keys, ◌==◌, Option, none, some, List, [], ◌∷◌, ◌++◌, Bool, false,
  not, ◌&&◌, ◌||◌, eqb, any, is_empty, has_prefix, map, Outcome, fail, panic, if◌then◌else◌,
}
use mathlib.Core.List.{reverse}
use neo4j_graph_tool_core.Base.Dict.{Dict, lookup}
use neo4j_graph_tool_core.Base.Monad.{Exec, pure, lift, modify, ◌>>=◌, ◌>>◌}
use neo4j_graph_tool_core.Migrator.Steps.{ExecutionSteps, add_command_step}

-- White space to the regular expression `\S`.
unfoldable pub is_space : ℕ → Bool
is_space c = eqb c 9 || eqb c 10 || eqb c 12 || eqb c 13 || eqb c b' '

-- White space of ASCII to `strings.TrimSpace`.
unfoldable pub is_blank : ℕ → Bool
unfolding is_space
is_blank c = is_space c || eqb c 11

abbrev pub quote_code : ℕ
quote_code = b'"'

-- A quoted part `"[^"]+"` begins here, after its first quote: something and then a quote.
unfoldable pub closes : Text → Bool
closes [] = false
closes (c ∷ s) = not (eqb c quote_code) && any (eqb quote_code) s

-- Where the regular expression `"[^"]+"|\S+` stands in the line.
pub data Mode : Type 0 where
  between : Mode
  in_word : Text → Mode
  in_quotes : Text → Mode

-- What a character does: the match that it ends, if any, and what follows.
unfoldable pub match_step : Mode → ℕ → Text → List Text × Mode
match_step between c s =
    if is_space c
    then ([], between)
    else if eqb c quote_code && closes s
    then ([], in_quotes (c ∷ []))
    else ([], in_word (c ∷ []))
match_step (in_word w) c s = if is_space c then (w ∷ [], between) else ([], in_word (w ++ c ∷ []))
match_step (in_quotes w) c s =
    if eqb c quote_code then ((w ++ c ∷ []) ∷ [], between) else ([], in_quotes (w ++ c ∷ []))

abbrev pub match_end : Mode → List Text
match_end between = []
match_end (in_word w) = w ∷ []
match_end (in_quotes w) = w ∷ []

-- `parseCmd.FindAllString(line, -1)`
unfoldable pub find_all : Mode → Text → List Text
find_all mode [] = match_end mode
find_all mode (c ∷ s) = let (found, next) = match_step mode c s in found ++ find_all next s

unfoldable pub trim_left : (ℕ → Bool) → Text → Text
trim_left p [] = []
trim_left p (c ∷ s) = if p c then trim_left p s else c ∷ s

-- `strings.TrimFunc`
unfoldable pub trim : (ℕ → Bool) → Text → Text
trim p s = reverse (trim_left p (reverse (trim_left p s)))

-- `parseArgs`
unfoldable pub parse_args : Text → List Text
parse_args line = map (trim (eqb quote_code)) (find_all between line)

-- `strings.Split(text, "\n")`
unfoldable pub split_lines : Text → Text → List Text
split_lines current [] = current ∷ []
split_lines current (c ∷ s) =
    let rest = split_lines (if eqb c 10 then [] else current ++ c ∷ []) s in
    if eqb c 10 then current ∷ rest else rest

-- What a line of a `.run` file asks for.
pub data Line : Type 0 where
  ignored exit_line broken : Line
  forbidden : Text → Line
  run : List Text → Line

abbrev pub allowed_line : Option Text → Text → List Text → Line
allowed_line none name args = forbidden name
allowed_line (some full_path) name args = run (full_path ∷ args)

abbrev pub line_of_args : Dict Text Text → List Text → Line
line_of_args allowed [] = broken
line_of_args allowed (name ∷ args) =
    if name == codes "exit" then exit_line else allowed_line (lookup name allowed) name args

unfoldable pub read_line : Dict Text Text → Text → Line
read_line allowed line =
    let l = trim is_blank line in
    if is_empty l || has_prefix l (codes "//") || has_prefix l (codes "#")
    then ignored
    else line_of_args allowed (parse_args l)

-- What the loop does with a line, when `n` commands came before it and `rest` is what follows.
abbrev pub on_line : Text → Line → ℕ → (ℕ → Exec ExecutionSteps ℕ) → Exec ExecutionSteps ℕ
on_line path ignored n rest = rest n
on_line path exit_line zero rest = modify (add_command_step (codes "exit" ∷ [])) >> pure 1
on_line path exit_line (suc n) rest = pure (suc n)
on_line path broken n rest = lift panic
on_line path (forbidden name) n rest = lift (
    fail "command '%s' from file '%s' is not listed in configuration allowed command section"
      (name ∷ path ∷ []))
on_line path (run args) n rest = modify (add_command_step args) >> rest (suc n)

-- The loop of `addCommand`: it returns `newCommands`.
unfoldable pub add_lines : Dict Text Text → Text → List Text → ℕ → Exec ExecutionSteps ℕ
add_lines allowed path [] n = pure n
add_lines allowed path (l ∷ ls) n = on_line path (read_line allowed l) n (add_lines allowed path ls)

abbrev pub some_command : Text → ℕ → Exec ExecutionSteps (Unit {0})
some_command path zero =
    lift (fail "no commands to run in file %s, use 'exit' command to ignore file" (path ∷ []))
some_command path (suc n) = pure tt

-- `addCommand`; `read_file` is `os.ReadFile`.
module _ (read_file : Text → Outcome Text) (allowed : Dict Text Text) where
  unfoldable pub add_command : Text → Exec ExecutionSteps (Unit {0})
  add_command path = lift (read_file path) >>= λ content.
      add_lines allowed path (split_lines [] content) 0 >>= some_command path
