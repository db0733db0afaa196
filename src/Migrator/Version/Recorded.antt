-- ===== src/Migrator/Version/Recorded.antt =====
-- What `queryVersion` makes of rows with a version and numbers.
use mathlib.Core.List.{append_assoc, append-nil}
use mathlib.Core.Bool.{or-false}
use neo4j_graph_tool_core.Base.{
  Text, codes, text_keys, int_keys, ◌==◌, Option, none, some, List, [], ◌∷◌, ◌++◌, map, Bool, true,
  false, ◌||◌, any, ◌≡◌, ◌≢◌, refl, sym, ap, ◌∙◌, All, ok, if◌then◌else◌,
}
use neo4j_graph_tool_core.Base.Monad.{for_each, >>=-ok}
use neo4j_graph_tool_core.Base.Dict.{lookup, insert, lookup-insert}
use neo4j_graph_tool_core.Base.Int.{ℤ}
use neo4j_graph_tool_core.Semver.{Semver}
use neo4j_graph_tool_core.Migrator.Database.{
  FileTimestamps, DatabaseGraphVersion, was_executed, flag,
}
use neo4j_graph_tool_core.Migrator.Version.{
  int_value, string_value, list_value, Row, Attempt, read_files, read_version, read_column,
  read_columns, Rows, read_round, read_attempt, query_version,
}

-- The numbers as a set.
abbrev pub number_set : List ℤ → FileTimestamps → FileTimestamps
number_set [] files = files
number_set (n ∷ ns) files = number_set ns (insert n true files)

read_files-number_set :
    (ns : List ℤ) (files : FileTimestamps)
    → read_files (map int_value ns) files ≡ ok (number_set ns files)
unfolding read_files
read_files-number_set [] files = refl
read_files-number_set (n ∷ ns) files = read_files-number_set ns (insert n true files)

was_executed-number_set :
    (ns : List ℤ) (files : FileTimestamps) (n : ℤ)
    → was_executed (number_set ns files) n ≡ (any (λ k. k == n) ns || was_executed files n)
unfolding was_executed any
was_executed-number_set [] files n = refl
was_executed-number_set (k ∷ ns) files n =
    was_executed-number_set ns (insert k true files) n
    ∙ go (k == n) (any (λ k. k == n) ns) (lookup-insert files true k n)
  where
    go :
        (b more : Bool) {o : Option Bool}
        → o ≡ (if b then some true else lookup n files)
        → (more || flag o) ≡ ((b || more) || flag (lookup n files))
    go true true e = refl
    go true false e = ap flag e
    go false more e = ap (λ o. more || flag o) e

-- A version of the database, and the numbers of the files recorded with it.
pub record Record (V : Type 0) : Type 0 where
  pub text : Text
  pub version : V
  pub numbers : List ℤ

module _ {V : Type 0} (sv : Semver V) where
  abbrev pub IsParsed : Record V → Type 0
  IsParsed r = (r.text ≢ []) × (sv.new_version r.text ≡ some r.version)

  abbrev pub row_of : Record V → Row
  row_of r =
      (codes "version", string_value r.text)
      ∷ (codes "files", list_value (map int_value r.numbers))
      ∷ []

  abbrev pub answer : List (Record V) → Attempt
  answer rs = record {
    run = ok tt;
    rounds = map (λ r. (ok tt, some (row_of r))) rs;
    last_err = ok tt;
  }

  abbrev pub decoded : Record V → DatabaseGraphVersion (Option V)
  decoded r = record { version = some r.version; file_timestamps = number_set r.numbers [] }

  read_version-parsed :
      (t : Text) (v : V)
      → t ≢ []
      → sv.new_version t ≡ some v
      → read_version sv (string_value t) ≡ ok v
  read_version-parsed [] v h e = absurd (h refl)
  read_version-parsed (c ∷ t) v h e = rw e refl

  read_columns-row_of :
      (r : Record V)
      → IsParsed r
      → read_columns sv (row_of r) (record { version = none; file_timestamps = [] })
        ≡ ok (decoded r)
  unfolding read_columns read_column
  read_columns-row_of r h =
      rw (read_version-parsed r.text r.version h.0 h.1, read_files-number_set r.numbers []) refl

  round-row_of :
      (r : Record V) (gs : Rows sv)
      → IsParsed r
      → read_round sv (ok tt, some (row_of r)) gs ≡ (ok tt, gs ++ decoded r ∷ [])
  round-row_of r gs h = rw (read_columns-row_of r h) refl

  rounds-answer :
      (rs : List (Record V)) (gs : Rows sv)
      → All IsParsed rs
      → for_each (read_round sv) (map (λ r. (ok tt, some (row_of r))) rs) gs
        ≡ (ok tt, gs ++ map decoded rs)
  unfolding for_each
  rounds-answer [] gs h = ap (λ rows. (ok tt, rows)) (sym (append-nil gs))
  rounds-answer (r ∷ rs) gs h =
      >>=-ok (read_round sv (ok tt, some (row_of r))) _ gs (round-row_of r gs h.0)
      ∙ rounds-answer rs (gs ++ decoded r ∷ []) h.1
      ∙ ap (λ rows. (ok tt, rows)) (append_assoc gs (decoded r ∷ []) (map decoded rs))

  -- The rows of an answer, in its order: each with its version, and with the numbers recorded for
  -- it and no other.
  pub query_version-answer :
      (rs : List (Record V))
      → All IsParsed rs
      → (query_version sv [] (answer rs) [] ≡ (ok tt, map decoded rs))
        × ((r : Record V) (n : ℤ)
            → was_executed (decoded r).file_timestamps n ≡ any (λ k. k == n) r.numbers)
  unfolding query_version read_attempt was_executed lookup
  query_version-answer rs h = (
    >>=-ok (for_each (read_round sv) (answer rs).rounds) _ [] (rounds-answer rs [] h),
    λ r n. was_executed-number_set r.numbers [] n ∙ or-false (any (λ k. k == n) r.numbers),
  )
