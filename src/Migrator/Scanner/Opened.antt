-- ===== src/Migrator/Scanner/Opened.antt =====
-- `open` of migrator/scanner.go: what its callback keeps and returns, it keeps and returns.
use neo4j_graph_tool_core.Base.{
  Text, codes, text_keys, Option, none, some, List, [], ◌∷◌, ◌++◌, Bool, true, false, not, ◌≡◌,
  refl, subst, All, All-append, Outcome, ok, fail, panic, has_prefix, ok-injective, if◌then◌else◌,
}
use neo4j_graph_tool_core.Base.Monad.{continue, lift, ◌>>=◌}
use neo4j_graph_tool_core.Base.Monad.Keeps.{Keeps, Keeps-lift, Keeps-pure, Keeps->>=}
use neo4j_graph_tool_core.Semver.{Semver}
use neo4j_graph_tool_core.Migrator.Files.{LocalVersionFolder, LocalFolders}
use neo4j_graph_tool_core.Migrator.Scanner.Tree.{
  Listing, missing, not_a_directory, names_of, FileSystem, OnVersion, and_version, on_named,
  open_names, open_listed, open_folder,
}

module _ {V S : Type 0} (sv : Semver V) (fs : FileSystem) (op : OnVersion V S) where
  -- What every call of `op` keeps, `open` keeps.
  open_names-Keeps :
      {P : S → Type 0} (dir_path : Text) (names : List Text) (versions : LocalFolders V)
      → ((ver : V) (path : Text) → Keeps P (op ver path))
      → Keeps P (open_names sv fs op dir_path names versions)
  unfolding open_names
  open_names-Keeps dir_path [] versions h = Keeps-pure versions
  open_names-Keeps {P} dir_path (dn ∷ names) versions h =
      go (has_prefix dn (codes ".")) (not (has_prefix dn (codes "v"))) (sv.new_version dn)
        (open_names-Keeps dir_path names versions h)
        (λ v. open_names-Keeps dir_path names (and_version v versions) h)
    where
      go :
          (b c : Bool) (ver : Option V)
          → Keeps P (open_names sv fs op dir_path names versions)
          → ((v : Option (LocalVersionFolder V))
              → Keeps P (open_names sv fs op dir_path names (and_version v versions)))
          → Keeps P (
              if b
              then open_names sv fs op dir_path names versions
              else if c
              then lift (
                  fail "folder name '%s' does not start with letter 'v' at %s" (dn ∷ dir_path ∷ []))
              else on_named sv fs op ver (fs.path_join dir_path dn) >>= λ v.
                  open_names sv fs op dir_path names (and_version v versions))
      go true c ver skip rest = skip
      go false true ver skip rest = Keeps-lift _
      go false false none skip rest =
          Keeps->>= (on_named sv fs op none (fs.path_join dir_path dn)) _
            (Keeps-lift (fail "invalid semantic version - %s" (fs.path_join dir_path dn ∷ []))) rest
      go false false (some ver) skip rest = Keeps->>= _ _ (h ver (fs.path_join dir_path dn)) rest

  -- What holds of every version that `op` returns holds of those that `open` returns.
  open_names-All :
      (Q : LocalVersionFolder V → Type 0) (dir_path : Text)
      → ((ver : V) (path : Text) (s : S) (v : LocalVersionFolder V)
          → (op ver path s).0 ≡ ok (some v)
          → Q v)
      → (names : List Text) (versions : LocalFolders V) (s : S) (lfs : LocalFolders V)
      → All Q versions
      → (open_names sv fs op dir_path names versions s).0 ≡ ok lfs
      → All Q lfs
  unfolding open_names
  open_names-All Q dir_path h [] versions s lfs all e = subst (All Q) (ok-injective e) all
  open_names-All Q dir_path h (dn ∷ names) versions s lfs all e =
      go (has_prefix dn (codes ".")) (not (has_prefix dn (codes "v"))) (sv.new_version dn)
        (λ versions s. open_names-All Q dir_path h names versions s lfs) e
    where
      Later : Type 0
      Later =
          (versions : LocalFolders V) (s : S)
          → All Q versions
          → (open_names sv fs op dir_path names versions s).0 ≡ ok lfs
          → All Q lfs

      added :
          Later
          → (r : Outcome (Option (LocalVersionFolder V))) (s' : S)
          → ((v : LocalVersionFolder V) → r ≡ ok (some v) → Q v)
          → (continue r (λ v. open_names sv fs op dir_path names (and_version v versions)) s').0
            ≡ ok lfs
          → All Q lfs
      added ih (ok none) s' q e = ih versions s' all e
      added ih (ok (some v)) s' q e =
          ih (versions ++ v ∷ []) s' (All-append Q versions (v ∷ []) all (q v refl, tt)) e
      added ih (fail m args) s' q e = cc
      added ih panic s' q e = cc

      go :
          (b c : Bool) (ver : Option V)
          → Later
          → ((if b
                then open_names sv fs op dir_path names versions
                else if c
                then lift (
                    fail "folder name '%s' does not start with letter 'v' at %s"
                      (dn ∷ dir_path ∷ []))
                else on_named sv fs op ver (fs.path_join dir_path dn) >>= λ v.
                    open_names sv fs op dir_path names (and_version v versions))
              s).0
            ≡ ok lfs
          → All Q lfs
      go true c ver ih e = ih versions s all e
      go false true ver ih e = cc
      go false false none ih e = cc
      go false false (some ver) ih e =
          added ih (op ver (fs.path_join dir_path dn) s).0 _ (h ver (fs.path_join dir_path dn) s) e

module _ {V : Type 0} (sv : Semver V) (fs : FileSystem) where
  pub open_folder-Keeps :
      {S : Type 0} {P : S → Type 0} (folder_name : Text) (op : OnVersion V S)
      → ((ver : V) (path : Text) → Keeps P (op ver path))
      → Keeps P (open_folder sv fs folder_name op)
  unfolding open_folder
  open_folder-Keeps {S} {P} folder_name op h =
      Keeps->>= _ _ (Keeps-lift (fs.list_names (fs.resolve folder_name))) listed
    where
      listed : (names : Listing) → Keeps P (open_listed sv fs op (fs.resolve folder_name) names)
      listed missing = Keeps-lift _
      listed not_a_directory = Keeps-lift _
      listed (names_of names) = open_names-Keeps sv fs op (fs.resolve folder_name) names [] h

  pub open_folder-All :
      {S : Type 0} (Q : LocalVersionFolder V → Type 0) (folder_name : Text) (op : OnVersion V S)
      → ((ver : V) (path : Text) (s : S) (v : LocalVersionFolder V)
          → (op ver path s).0 ≡ ok (some v)
          → Q v)
      → (s : S) (lfs : LocalFolders V) → (open_folder sv fs folder_name op s).0 ≡ ok lfs
      → All Q lfs
  unfolding open_folder
  open_folder-All Q folder_name op h s lfs e = go (fs.list_names (fs.resolve folder_name)) e
    where
      go :
          (r : Outcome Listing)
          → (continue {B = LocalFolders V} r (open_listed sv fs op (fs.resolve folder_name)) s).0
            ≡ ok lfs
          → All Q lfs
      go (ok missing) e = cc
      go (ok not_a_directory) e = cc
      go (ok (names_of names)) e =
          open_names-All sv fs op Q (fs.resolve folder_name) h names [] s lfs tt e
      go (fail m args) e = cc
      go panic e = cc
