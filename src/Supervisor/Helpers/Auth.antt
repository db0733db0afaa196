-- ===== src/Supervisor/Helpers/Auth.antt =====
-- What the helpers give: an absolute import folder, and the configured credentials.
use neo4j_graph_tool_core.Base.{
  ℕ, Text, codes, Option, some, [], ◌∷◌, ◌++◌, Bool, true, false, eqb, ◌&&◌, ◌≡◌, refl, ap, ◌⊎◌,
  inl, inr, arith, has_prefix, if◌then◌else◌, All,
}
use mathlib.Core.List.{Memᴰ}
use mathlib.Core.List.Memᴰ
use neo4j_graph_tool_core.Semver.{Semver}
use neo4j_graph_tool_core.Config.Defs.{SupervisorConfig, PlannerConfig}
use neo4j_graph_tool_core.Config.Valid.{IsValidSupervisor}
use neo4j_graph_tool_core.Supervisor.Helpers.{
  ends_with_slash, with_slash, get_import_dir, split_two, behind, auth_of, get_neo4j_basic_auth,
}

ends_with_slash-append : (s : Text) → ends_with_slash (s ++ codes "/") ≡ true
unfolding ends_with_slash
ends_with_slash-append [] = refl
ends_with_slash-append (c ∷ []) = refl
ends_with_slash-append (c ∷ d ∷ s) = ends_with_slash-append (d ∷ s)

with_slash-ends : (s : Text) → ends_with_slash (with_slash s) ≡ true
with_slash-ends s = go (ends_with_slash s) refl
  where
    go :
        (b : Bool)
        → ends_with_slash s ≡ b
        → ends_with_slash (if b then s else s ++ codes "/") ≡ true
    go true e = e
    go false e = ends_with_slash-append s

with_slash-absolute :
    (c : ℕ) (s : Text) → eqb c b'/' ≡ true → has_prefix (with_slash (c ∷ s)) (codes "/") ≡ true
with_slash-absolute c s h = go (ends_with_slash (c ∷ s))
  where
    go : (b : Bool) → has_prefix (if b then c ∷ s else (c ∷ s) ++ codes "/") (codes "/") ≡ true
    go true = rw h refl
    go false = rw h refl

-- The import folder is an absolute path that ends with a slash, whatever the base folder is.
pub get_import_dir-absolute :
    (base_folder : Text)
    → (has_prefix (get_import_dir base_folder) (codes "/") ≡ true)
      × (ends_with_slash (get_import_dir base_folder) ≡ true)
unfolding get_import_dir
get_import_dir-absolute [] = (refl, refl)
get_import_dir-absolute (c ∷ s) = go (eqb c b'/') refl
  where
    go :
        (b : Bool)
        → eqb c b'/' ≡ b
        → (has_prefix
              (with_slash (if b && true then c ∷ s else codes "/initial-data/" ++ (c ∷ s)))
              (codes "/")
            ≡ true)
          × (ends_with_slash
                (with_slash (if b && true then c ∷ s else codes "/initial-data/" ++ (c ∷ s)))
              ≡ true)
    go true e = (with_slash-absolute c s e, with_slash-ends (c ∷ s))
    go false e = (
      with_slash-absolute b'/' (codes "initial-data/" ++ (c ∷ s)) refl,
      with_slash-ends (codes "/initial-data/" ++ (c ∷ s)),
    )

-- Both parts of a text with a slash, cut at the first one.
abbrev pub IsCut : Text → Option (Text × Text) → Type 0
IsCut s o =
    (username : Text) × (password : Text) × (o ≡ some (username, password))
    × (s ≡ username ++ (b'/' ∷ password))
    × All (λ c. eqb c b'/' ≡ false) username

split_behind :
    (c : ℕ) (s : Text) (o : Option (Text × Text))
    → eqb c b'/' ≡ false
    → IsCut s o
    → IsCut (c ∷ s) (behind c o)
split_behind c s o other (username, password, found, whole, none_before) = (
  c ∷ username,
  password,
  ap (behind c) found,
  ap (λ (r : Text). c ∷ r) whole,
  (other, none_before),
)

split_two-IsCut : (s : Text) → Memᴰ b'/' s → IsCut s (split_two s)
unfolding split_two
split_two-IsCut [] h = absurd (Memᴰ.not-nil h)
split_two-IsCut (c ∷ s) h = go (eqb c b'/') refl (Memᴰ.cases_cons h) (λ m. split_two-IsCut s m)
  where
    go :
        (b : Bool)
        → eqb c b'/' ≡ b
        → (b'/' ≡ c) ⊎ Memᴰ b'/' s
        → (Memᴰ b'/' s → IsCut s (split_two s))
        → IsCut (c ∷ s) (if b then some ([], s) else behind c (split_two s))
    go true e where_it_is ih =
        let same : c ≡ b'/' = ground arith in ([], s, refl, ap (λ (d : ℕ). d ∷ s) same, tt)
    go false e (inl same) ih = absurd (ground arith)
    go false e (inr m) ih = split_behind c s (split_two s) e (ih m)

-- With a valid configuration, either no credentials are configured and both are empty, or user name
-- and password, with a slash between them, are what is configured, and the user name has no slash.
pub get_neo4j_basic_auth-valid :
    {V : Type 0} (sv : Semver V) (p : PlannerConfig) (s : SupervisorConfig)
    → IsValidSupervisor sv p s
    → ((s.neo4j_auth ≡ []) × (get_neo4j_basic_auth s.neo4j_auth ≡ ([], [], [])))
      ⊎ ((username : Text) × (password : Text) × (get_neo4j_basic_auth s.neo4j_auth
            ≡ (username, password, []))
          × (s.neo4j_auth ≡ username ++ (b'/' ∷ password))
          × All (λ c. eqb c b'/' ≡ false) username)
unfolding get_neo4j_basic_auth split_two
get_neo4j_basic_auth-valid sv p s valid = elim valid.auth [
  | inl e ↦ inl (e, ap get_neo4j_basic_auth e)
  | inr m ↦
      let cut : IsCut s.neo4j_auth (split_two s.neo4j_auth) = split_two-IsCut s.neo4j_auth m in
      inr (cut.0, cut.1, ap auth_of cut.2, cut.3, cut.4)
]
