-- ===== src/Config/Valid/Supervisor.antt =====
-- `validateSupervisor` of config/config.go accepts the valid supervisors.
use neo4j_graph_tool_core.Base.{
  ℕ, ◌≤◌, Text, text_keys, ◌==◌, Option, none, some, [], ◌∷◌, Bool, true, false, not, ◌||◌, ◌&&◌,
  ◌≡◌, ◌↔◌, ◌⊎◌, inl, inr, refl, ap, arith, ok, refuse_if, is_empty, Bool-cases, any, eqb,
  if◌then◌else◌,
}
use Prim.Native.String.{String}
use mathlib.Core.List.{Memᴰ}
use mathlib.Core.List.Memᴰ.{head, tail}
use neo4j_graph_tool_core.Base.Int.{ℤ, pos, negsuc, ltb_ℤ}
use neo4j_graph_tool_core.Base.Dict.{lookup, has}
use neo4j_graph_tool_core.Base.Result.{◌>>=◌}
use neo4j_graph_tool_core.Semver.{Semver}
use neo4j_graph_tool_core.Config.Defs.{
  PlannerConfig, BatchDetail, SupervisorConfig, default_initial_batch, log_level_values,
}
use neo4j_graph_tool_core.Config.Validate.{
  string_in_array, default_version_ok, initial_batch_defined, validate_supervisor,
}
use neo4j_graph_tool_core.Config.Valid.{IsValidSupervisor}
use neo4j_graph_tool_core.Config.Valid.Checks.{
  both_iff, through_iff, refuse_if_iff, not_in_array_iff,
}

port_iff :
    (port : ℤ)
    → ((ltb_ℤ port (pos 1024) || ltb_ℤ (pos 65535) port) ≡ false)
      ↔ ((n : ℕ) × (port ≡ pos n) × (1024 ≤ n) × (n ≤ 65535))
port_iff (pos n) = (λ h. (n, refl, ground arith, ground arith), λ (m, e, lo, hi). ground arith)
port_iff (negsuc n) = (λ h. cc, λ (m, e, lo, hi). cc)

any_slash_iff : (s : Text) → (any (eqb b'/') s ≡ true) ↔ Memᴰ b'/' s
unfolding any
any_slash_iff [] = (λ h. cc, λ m. elim m [ ])
any_slash_iff (c ∷ s) = (
  λ h. elim (Bool-cases (eqb b'/' c)) [
    | inl hit ↦ head (ground arith)
    | inr miss ↦ tail ((any_slash_iff s).0 (ground arith))
  ],
  λ m. elim m [
    | head e ↦ ground arith
    | tail t ↦ let found = (any_slash_iff s).1 t in ground arith
  ],
)

auth_iff :
    (s : Text) → ((not (is_empty s) && not (any (eqb b'/') s)) ≡ false) ↔ ((s ≡ []) ⊎ Memᴰ b'/' s)
auth_iff [] = (λ h. inl refl, λ h. refl)
auth_iff (c ∷ s) = (
  λ h. inr ((any_slash_iff (c ∷ s)).0 (ground arith)),
  λ m. elim m [ inl e ↦ cc | inr t ↦ ap (λ b. not b) ((any_slash_iff (c ∷ s)).1 t) ],
)

version_iff :
    {V : Type 0} (sv : Semver V) (s : Text)
    → (not (default_version_ok sv s) ≡ false) ↔ ((s ≡ []) ⊎ ((v : V) × (sv.new_version s ≡ some v)))
version_iff sv [] = (λ h. inl refl, λ h. refl)
version_iff {V} sv (c ∷ s) = go (sv.new_version (c ∷ s)) refl
  where
    go :
        (o : Option V)
        → sv.new_version (c ∷ s) ≡ o
        → (not (has o) ≡ false) ↔ (((c ∷ s) ≡ []) ⊎ ((v : V) × (sv.new_version (c ∷ s) ≡ some v)))
    go none e = (λ h. cc, λ h. elim h [ inl f ↦ cc | inr (v, f) ↦ cc ])
    go (some v) e = (λ h. inr (v, e), λ h. refl)

batch_iff :
    (s : SupervisorConfig) (p : PlannerConfig) (m : String)
    → ((initial_batch_defined s (some p) >>= λ defined. refuse_if (not defined) m []) ≡ ok tt) ↔ (
        (s.initial_batch ≡ default_initial_batch)
        ⊎ ((d : Option BatchDetail) × (lookup s.initial_batch p.batches ≡ some d)))
batch_iff s p m =
    go (s.initial_batch == default_initial_batch)
      (text_keys.same_iff s.initial_batch default_initial_batch) (lookup s.initial_batch p.batches)
      refl
  where
    go :
        (b : Bool)
        → (s.initial_batch ≡ default_initial_batch) ↔ (b ≡ true)
        → (o : Option (Option BatchDetail)) → lookup s.initial_batch p.batches ≡ o
        → (((if b then ok true else ok (has o)) >>= λ defined. refuse_if (not defined) m [])
            ≡ ok tt)
          ↔ ((s.initial_batch ≡ default_initial_batch)
              ⊎ ((d : Option BatchDetail) × (lookup s.initial_batch p.batches ≡ some d)))
    go true same o e = (λ h. inl (same.1 refl), λ h. refl)
    go false same none e =
        (λ h. cc, λ h. elim h [ inl f ↦ let clash = same.0 f in cc | inr (d, f) ↦ cc ])
    go false same (some d) e = (λ h. inr (d, e), λ h. refl)

pub validate_supervisor_iff :
    {V : Type 0} (sv : Semver V) (p : PlannerConfig) (s : SupervisorConfig)
    → (validate_supervisor sv (some p) (some s) ≡ ok tt) ↔ IsValidSupervisor sv p s
unfolding validate_supervisor
validate_supervisor_iff sv p s =
    let step =
      both_iff _ _
        (refuse_if_iff (not (default_version_ok sv s.default_graph_version)) _ _
          (version_iff sv s.default_graph_version))
        (through_iff (initial_batch_defined s (some p)) (λ defined. refuse_if (not defined) _ _) _
          (batch_iff s p _)
          (both_iff _ _
            (refuse_if_iff (ltb_ℤ s.port (pos 1024) || ltb_ℤ (pos 65535) s.port) _ _
              (port_iff s.port))
            (both_iff _ _
              (refuse_if_iff (not (is_empty s.neo4j_auth) && not (any (eqb b'/') s.neo4j_auth)) _ _
                (auth_iff s.neo4j_auth))
              (refuse_if_iff (not (string_in_array log_level_values s.log_level)) _ _
                (not_in_array_iff log_level_values s.log_level))))) in
    (
      λ h.
          let (v, (b, (port, (auth, level)))) = step.0 h in
          record { version = v; batch = b; port = port; auth = auth; log_level = level },
      λ v. step.1 (v.version, (v.batch, (v.port, (v.auth, v.log_level)))),
    )
