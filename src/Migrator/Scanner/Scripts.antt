-- ===== src/Migrator/Scanner/Scripts.antt =====
-- What the scanner finds in a folder of a version: the scripts that the planner relies on.
use Prim.Native.String.{String}
use neo4j_graph_tool_core.Base.{
  ◌+◌, Text, codes, text_keys, ◌==◌, int_keys, Option, none, some, List, [], ◌∷◌, ◌++◌, Bool, true,
  false, not, ◌||◌, any, map, length, eqb, has_prefix, ◌≡◌, ◌≢◌, refl, sym, subst, arith, All,
  All-append, All-monotone, Ordered, Outcome, ok, refuse_if, >>=-eq-ok, ok-injective, if◌then◌else◌,
}
use mathlib.Core.List.Permᴰ
use mathlib.Core.List.{reverse, reverse-cons}
use neo4j_graph_tool_core.Base.InOrder.{All-Permᴰ, Ordered-Permᴰ, Ordered-append}
use neo4j_graph_tool_core.Base.Sort.{SortSlice}
use neo4j_graph_tool_core.Base.Result.{◌>>=◌, ◌>>◌}
use neo4j_graph_tool_core.Migrator.Files.{
  MigrationFile, MigrationScripts, no_scripts, up_before, down_before, sort_up_files,
  sort_down_files,
}
use neo4j_graph_tool_core.Migrator.Target.{format_int}
use neo4j_graph_tool_core.Migrator.Plan.Effect.{IsSplit}
use neo4j_graph_tool_core.Migrator.Scanner.Names.{
  Groups, Pattern, up_down_file, parse_file_name, find_submatch,
}
use neo4j_graph_tool_core.Migrator.Scanner.Folder.{
  DirEntry, Scanned, same_number, add_file, add_matched, new_file, scan_entry, scan_entries,
  check_pairs, scan_folder, scan_up_down_type_folder,
}

-- No two files have the same number.
abbrev pub AreDistinct : List MigrationFile → Type 0
AreDistinct fs = Ordered (λ (f g : MigrationFile). f.timestamp ≢ g.timestamp) fs

-- What the planner asks of the scripts of a folder.
abbrev pub IsWellFormed : MigrationScripts → Type 0
IsWellFormed ms = IsSplit ms × AreDistinct ms.up × AreDistinct ms.down

distinct_from :
    (mf : MigrationFile) (fs : List MigrationFile)
    → any (same_number mf) fs ≡ false
    → All (λ v. v.timestamp ≢ mf.timestamp) fs
unfolding any
distinct_from mf [] h = tt
distinct_from mf (f ∷ fs) h = go (f.timestamp == mf.timestamp) refl (distinct_from mf fs) h
  where
    go :
        (b : Bool)
        → (f.timestamp == mf.timestamp) ≡ b
        → (any (same_number mf) fs ≡ false → All (λ v. v.timestamp ≢ mf.timestamp) fs)
        → (b || any (same_number mf) fs) ≡ false
        → All (λ v. v.timestamp ≢ mf.timestamp) (f ∷ fs)
    go true e ih h = cc
    go false e ih h =
        (λ same. let hit = (int_keys.same_iff f.timestamp mf.timestamp).0 same in cc, ih h)

append-AreDistinct :
    (mf : MigrationFile) (fs : List MigrationFile)
    → any (same_number mf) fs ≡ false
    → AreDistinct fs
    → AreDistinct (fs ++ mf ∷ [])
append-AreDistinct mf fs h d =
    Ordered-append _ fs (mf ∷ []) d (tt, tt)
      (All-monotone _ _ fs (λ v other. (other, tt)) (distinct_from mf fs h))

append-All :
    (P : MigrationFile → Type 0) (mf : MigrationFile) (fs : List MigrationFile)
    → P mf
    → All P fs
    → All P (fs ++ mf ∷ [])
append-All P mf fs h k = All-append P fs (mf ∷ []) k (h, tt)

-- What a check lets through.
checked :
    {A : Type 0} (b : Bool) (m : String) (args : List Text) (r : Outcome A) {x : A}
    → (refuse_if b m args >>= λ _. r) ≡ ok x
    → (b ≡ false) × (r ≡ ok x)
checked true m args r h = cc
checked false m args r h = (refl, h)

add_file-IsWellFormed :
    (dir_path : Text) (mf : MigrationFile) (s s' : Scanned)
    → IsWellFormed s.0
    → add_file dir_path mf s ≡ ok s'
    → IsWellFormed s'.0
unfolding add_file
add_file-IsWellFormed dir_path mf (ms, keep) s' w h = go mf.is_downgrade refl h
  where
    go :
        (b : Bool)
        → mf.is_downgrade ≡ b
        → (if b
            then refuse_if
                (any (same_number mf) ms.down)
                "can't have two down commit match '%d' in folder '%s'"
                (format_int mf.timestamp ∷ dir_path ∷ [])
              >> ok (record ms { down = ms.down ++ mf ∷ [] }, keep)
            else refuse_if
                (any (same_number mf) ms.up)
                "can't have two commit match '%d' in folder '%s'"
                (format_int mf.timestamp ∷ dir_path ∷ [])
              >> ok (record ms { up = ms.up ++ mf ∷ [] }, keep))
          ≡ ok s'
        → IsWellFormed s'.0
    go true e h =
        let (free, made) = checked (any (same_number mf) ms.down) _ _ _ h in
        subst (λ (t : Scanned). IsWellFormed t.0) (ok-injective made)
          ((w.0.0, append-All _ mf ms.down e w.0.1), w.1, append-AreDistinct mf ms.down free w.2)
    go false e h =
        let (free, made) = checked (any (same_number mf) ms.up) _ _ _ h in
        subst (λ (t : Scanned). IsWellFormed t.0) (ok-injective made)
          ((append-All _ mf ms.up e w.0.0, w.0.1), append-AreDistinct mf ms.up free w.1, w.2)

module _ (path_join : Text → Text → Text) (pattern : Pattern) (folder_name dir_path : Text) where
  scan_entry-IsWellFormed :
      (info : DirEntry) (s s' : Scanned)
      → IsWellFormed s.0
      → scan_entry path_join pattern folder_name dir_path info s ≡ ok s'
      → IsWellFormed s'.0
  unfolding scan_entry
  scan_entry-IsWellFormed info (ms, keep) s' w h =
      go info.is_dir (has_prefix info.name (codes ".")) (find_submatch pattern info.name) _ h
    where
      go :
          (b c : Bool) (o : Option Groups) (more : Bool)
          → (if b
              then ok (ms, keep)
              else if c
              then ok (ms, more)
              else add_matched path_join pattern folder_name dir_path info.name o (ms, keep))
            ≡ ok s'
          → IsWellFormed s'.0
      go true c o more h = subst (λ (t : Scanned). IsWellFormed t.0) (ok-injective h) w
      go false true o more h = subst (λ (t : Scanned). IsWellFormed t.0) (ok-injective h) w
      go false false none more h = cc
      go false false (some match) more h =
          let (mf, _, added) =
            >>=-eq-ok
              (parse_file_name match (new_file path_join pattern folder_name dir_path info.name)) _
              h in
          add_file-IsWellFormed dir_path mf (ms, keep) s' w added

  scan_entries-IsWellFormed :
      (list : List DirEntry) (s s' : Scanned)
      → IsWellFormed s.0
      → scan_entries path_join pattern folder_name dir_path list s ≡ ok s'
      → IsWellFormed s'.0
  unfolding scan_entries
  scan_entries-IsWellFormed [] s s' w h =
      subst (λ (t : Scanned). IsWellFormed t.0) (ok-injective h) w
  scan_entries-IsWellFormed (info ∷ list) s s' w h =
      let (t, e, rest) = >>=-eq-ok (scan_entry path_join pattern folder_name dir_path info s) _ h in
      scan_entries-IsWellFormed list t s' (scan_entry-IsWellFormed info s t w e) rest

unnegated : (b : Bool) → not b ≡ false → b ≡ true
unnegated true h = refl
unnegated false h = cc

length-append : (fs gs : List MigrationFile) → length (fs ++ gs) ≡ length fs + length gs
length-append [] gs = ground arith
length-append (f ∷ fs) gs = let rest = length-append fs gs in ground arith

length-reverse : (fs : List MigrationFile) → length (reverse fs) ≡ length fs
length-reverse [] = refl
length-reverse (f ∷ fs) =
    rw (reverse-cons f fs, length-append (reverse fs) (f ∷ []))
      (let rest = length-reverse fs in ground arith)

module _ (path_join : Text → Text → Text) (read_dir : Text → Outcome (List DirEntry))
    ⦃files : SortSlice MigrationFile⦄ where
  sorted-IsWellFormed :
      (ms : MigrationScripts) → IsWellFormed ms → IsWellFormed (sort_down_files (sort_up_files ms))
  unfolding sort_up_files sort_down_files
  sorted-IsWellFormed ms w =
      let ups = Permᴰ.symm (files.sort_perm up_before ms.up) in
      let downs = Permᴰ.symm (files.sort_perm down_before ms.down) in
      (
        (All-Permᴰ _ ups w.0.0, All-Permᴰ _ downs w.0.1),
        Ordered-Permᴰ _ (λ f g h e. h (sym e)) ups w.1,
        Ordered-Permᴰ _ (λ f g h e. h (sym e)) downs w.2,
      )

  -- What `scanFolder` returns has its upgrades and downgrades apart, and no number twice among
  -- either.
  pub scan_folder-IsWellFormed :
      (pattern : Pattern) (folder_name dir_path : Text) (ms : MigrationScripts) (keep : Bool)
      → scan_folder path_join read_dir pattern folder_name dir_path ≡ ok (ms, keep)
      → IsWellFormed ms
  unfolding scan_folder
  scan_folder-IsWellFormed pattern folder_name dir_path ms keep h =
      let (list, _, h1) = >>=-eq-ok (read_dir dir_path) _ h in
      let (scanned, e, made) =
        >>=-eq-ok (scan_entries path_join pattern folder_name dir_path list (no_scripts, false)) _
          h1 in
      subst (λ (t : Scanned). IsWellFormed t.0) (ok-injective made)
        (sorted-IsWellFormed scanned.0 (
          scan_entries-IsWellFormed path_join pattern folder_name dir_path list (no_scripts, false)
            scanned ((tt, tt), tt, tt) e))

  check_pairs-numbers :
      (ups downs : List MigrationFile)
      → length ups ≡ length downs
      → check_pairs path_join read_dir ups downs ≡ ok tt
      → map (λ (f : MigrationFile). f.timestamp) ups
        ≡ map (λ (f : MigrationFile). f.timestamp) downs
  unfolding check_pairs
  check_pairs-numbers [] [] l h = refl
  check_pairs-numbers [] (d ∷ downs) l h = ground arith
  check_pairs-numbers (u ∷ ups) [] l h = cc
  check_pairs-numbers (u ∷ ups) (d ∷ downs) l h =
      let (same, rest) = checked (not (d.timestamp == u.timestamp)) _ _ _ h in
      let numbers = check_pairs-numbers ups downs (ground arith) rest in
      let u_number =
        (int_keys.same_iff d.timestamp u.timestamp).1
          (unnegated (d.timestamp == u.timestamp) same) in
      rw (numbers, u_number)

  -- What `scanUpDownTypeFolder` returns has its upgrades and downgrades apart, no number twice
  -- among either, and the numbers of the upgrades are those of the downgrades from the last on.
  pub scan_up_down_type_folder-pairs :
      (folder_name dir_path : Text) (ms : MigrationScripts) (keep : Bool)
      → scan_up_down_type_folder path_join read_dir folder_name dir_path ≡ ok (ms, keep)
      → IsWellFormed ms
        × (map (λ (f : MigrationFile). f.timestamp) ms.up
            ≡ map (λ (f : MigrationFile). f.timestamp) (reverse ms.down))
  unfolding scan_up_down_type_folder
  scan_up_down_type_folder-pairs folder_name dir_path ms keep h =
      let ((found, kept), e, h1) =
        >>=-eq-ok (scan_folder path_join read_dir up_down_file folder_name dir_path) _ h in
      let (same_length, h2) = checked (not (eqb (length found.up) (length found.down))) _ _ _ h1 in
      let (_, pairs, made) =
        >>=-eq-ok (check_pairs path_join read_dir found.up (reverse found.down)) _ h2 in
      let reversed = length-reverse found.down in
      subst
        (λ (t : Scanned).
          IsWellFormed t.0
          × (map (λ (f : MigrationFile). f.timestamp) t.0.up
              ≡ map (λ (f : MigrationFile). f.timestamp) (reverse t.0.down)))
        (ok-injective made)
        (
          scan_folder-IsWellFormed up_down_file folder_name dir_path found kept e,
          check_pairs-numbers found.up (reverse found.down) (ground arith) pairs,
        )
