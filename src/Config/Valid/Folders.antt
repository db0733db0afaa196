-- ===== src/Config/Valid/Folders.antt =====
-- `validateFoldersAndBatches` of config/config.go accepts the valid folders and batches.
use mathlib.Core.List.{Memᴰ}
use mathlib.Core.List.Memᴰ.{head, tail}
use neo4j_graph_tool_core.Base.{
  Text, Option, none, some, List, [], ◌∷◌, map, not, ◌≡◌, ◌≢◌, ◌↔◌, ◌⊎◌, inl, inr, refl, sym, ap,
  subst, text_keys, ◌==◌, All, All-monotone, Outcome, ok, fail, panic, >>=-eq-ok, ok-injective,
  is_empty,
}
use neo4j_graph_tool_core.Base.Dict.{Dict}
use neo4j_graph_tool_core.Base.Result.{◌>>=◌, ◌>>◌}
use neo4j_graph_tool_core.Config.Defs.{PlannerConfig, SchemaFolder, FolderDetail, BatchDetail}
use neo4j_graph_tool_core.Config.Validate.{
  string_in_array, validate_folder, validate_folders, validate_batch_folders, validate_batches,
  validate_folders_and_batches,
}
use neo4j_graph_tool_core.Config.Valid.{IsValidFolder, IsValidBatch, AreValidFolders}
use neo4j_graph_tool_core.Config.Valid.Checks.{
  both_iff, fail_iff, refuse_if_iff, is_empty_iff, ==_iff, not_in_array_iff,
}
use neo4j_graph_tool_core.Config.Valid.Planner.{validate_folder_iff}

-- `possibleFolders` after the loop, the last folder first.
abbrev collected : List Text → Dict Text (Option FolderDetail) → List Text
collected possible [] = possible
collected possible (f ∷ fs) = collected (f.0 ∷ possible) fs

collected_iff :
    (name : Text) (possible : List Text) (fs : Dict Text (Option FolderDetail))
    → Memᴰ name (collected possible fs) ↔ (Memᴰ name (map (λ e. e.0) fs) ⊎ Memᴰ name possible)
collected_iff name possible [] = (λ m. inr m, λ s. elim s [ inl m ↦ elim m [ ] | inr m ↦ m ])
collected_iff name possible (f ∷ fs) =
    let rest = collected_iff name (f.0 ∷ possible) fs in
    (
      λ m. elim (rest.0 m) [
        | inl later ↦ inl (tail later)
        | inr (head e) ↦ inl (head e)
        | inr (tail before) ↦ inr before
      ],
      λ s. rest.1 (elim s [
        | inl (head e) ↦ inr (head e)
        | inl (tail later) ↦ inl later
        | inr before ↦ inr (tail before)
      ]),
    )

among_collected_iff :
    (name : Text) (fs : Dict Text (Option FolderDetail))
    → Memᴰ name (collected [] fs) ↔ Memᴰ name (map (λ e. e.0) fs)
among_collected_iff name fs =
    let all = collected_iff name [] fs in
    (λ m. elim (all.0 m) [ inl later ↦ later | inr before ↦ elim before [ ] ], λ m. all.1 (inl m))

validate_folders_iff :
    (sf : SchemaFolder) (possible q : List Text) (fs : Dict Text (Option FolderDetail))
    → (validate_folders sf possible fs ≡ ok q)
      ↔ (All (IsValidFolder sf) fs × (collected possible fs ≡ q))
unfolding validate_folders
validate_folders_iff sf possible q [] = (λ h. (tt, ok-injective h), λ h. ap ok h.1)
validate_folders_iff sf possible q ((name, detail) ∷ fs) =
    go (validate_folder sf name detail) (validate_folder_iff sf name detail)
      (validate_folders_iff sf (name ∷ possible) q fs)
  where
    go :
        (r : Outcome (Unit {0})) {P Q R : Type 0}
        → (r ≡ ok tt) ↔ P
        → (validate_folders sf (name ∷ possible) fs ≡ ok q) ↔ (Q × R)
        → ((r >> validate_folders sf (name ∷ possible) fs) ≡ ok q) ↔ ((P × Q) × R)
    go (ok u) h k =
        (λ e. let (rest, same) = k.0 e in ((h.0 refl, rest), same), λ e. k.1 (e.0.1, e.1))
    go (fail m args) h k = (λ e. cc, λ e. let clash = h.1 e.0.0 in cc)
    go panic h k = (λ e. cc, λ e. let clash = h.1 e.0.0 in cc)

validate_batch_folders_iff :
    (sf : SchemaFolder) (possible : List Text) (batch : Text) (folders : List Text)
    → (validate_batch_folders sf possible batch folders ≡ ok tt)
      ↔ All (λ folder. (folder ≢ sf.folder_name) × Memᴰ folder possible) folders
unfolding validate_batch_folders
validate_batch_folders_iff sf possible batch [] = (λ h. tt, λ h. refl)
validate_batch_folders_iff sf possible batch (folder ∷ folders) =
    let step =
      both_iff _ _ (refuse_if_iff (folder == sf.folder_name) _ _ (==_iff folder sf.folder_name)) (
        both_iff _ _
          (refuse_if_iff (not (string_in_array possible folder)) _ _
            (not_in_array_iff possible folder))
          (validate_batch_folders_iff sf possible batch folders)) in
    (
      λ h. let (other, (known, rest)) = step.0 h in ((other, known), rest),
      λ h. step.1 (h.0.0, (h.0.1, h.1)),
    )

validate_batches_iff :
    (sf : SchemaFolder) (possible : List Text) (batches : Dict Text (Option BatchDetail))
    → (validate_batches sf possible batches ≡ ok tt) ↔ All (IsValidBatch sf possible) batches
unfolding validate_batches
validate_batches_iff sf possible [] = (λ h. tt, λ h. refl)
validate_batches_iff sf possible ((batch, none) ∷ batches) =
    let step =
      both_iff _ _ (refuse_if_iff {P = batch ≢ []} (is_empty batch) _ _ (is_empty_iff batch))
        (both_iff _ _ (fail_iff _ _) (validate_batches_iff sf possible batches)) in
    (λ h. let (_, (clash, rest)) = step.0 h in (clash, rest), λ h. absurd h.0)
validate_batches_iff sf possible ((batch, some detail) ∷ batches) =
    let step = both_iff _ _ (refuse_if_iff (is_empty batch) _ _ (is_empty_iff batch)) (
      both_iff _ _ (validate_batch_folders_iff sf possible batch detail.folders)
        (validate_batches_iff sf possible batches)) in
    (
      λ h. let (named, (known, rest)) = step.0 h in ((named, known), rest),
      λ h. step.1 (h.0.0, (h.0.1, h.1)),
    )

IsValidBatch-monotone :
    (sf : SchemaFolder) (xs ys : List Text)
    → ((x : Text) → Memᴰ x xs → Memᴰ x ys)
    → (e : Text × Option BatchDetail) → IsValidBatch sf xs e
    → IsValidBatch sf ys e
IsValidBatch-monotone sf xs ys f (batch, none) h = absurd h
IsValidBatch-monotone sf xs ys f (batch, some detail) h =
    (h.0, All-monotone _ _ detail.folders (λ x m. (m.0, f x m.1)) h.1)

pub validate_folders_and_batches_iff :
    (p : PlannerConfig) (sf : SchemaFolder)
    → (validate_folders_and_batches p sf ≡ ok tt) ↔ AreValidFolders p sf
unfolding validate_folders_and_batches
validate_folders_and_batches_iff p sf = (forth, back)
  where
    names : List Text
    names = map (λ e. e.0) p.folders

    forth :
        (validate_folders sf [] p.folders >>= λ q. validate_batches sf q p.batches) ≡ ok tt
        → AreValidFolders p sf
    forth h =
        let (q, e, rest) =
          >>=-eq-ok (validate_folders sf [] p.folders) (λ q. validate_batches sf q p.batches) h in
        let (valid, same) = (validate_folders_iff sf [] q p.folders).0 e in
        let batches = (validate_batches_iff sf q p.batches).0 rest in
        (
          valid,
          All-monotone _ _ p.batches
              (IsValidBatch-monotone sf (collected [] p.folders) names
                λ x. (among_collected_iff x p.folders).0)
              (subst (λ q. All (IsValidBatch sf q) p.batches) (sym same) batches),
        )

    back :
        AreValidFolders p sf
        → (validate_folders sf [] p.folders >>= λ q. validate_batches sf q p.batches) ≡ ok tt
    back h =
        let ran = (validate_folders_iff sf [] (collected [] p.folders) p.folders).1 (h.0, refl) in
        let batches =
          All-monotone _ _ p.batches
            (IsValidBatch-monotone sf names (collected [] p.folders)
              λ x. (among_collected_iff x p.folders).1)
            h.1 in
        rw ran ((validate_batches_iff sf (collected [] p.folders) p.batches).1 batches)
