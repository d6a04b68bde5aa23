-- ===== src/Moderation/Checks/Standing.antt =====
-- The check of files leaves the repositories at their paths, moderation/component/repo.go.
use csghub_server.Moderation.Checks.{
  write_repo, is_fail, mark_repo, to_lower, upsert, put_check, save_check_result, map,
  process_files, process_file, check_fail, ℕ, some, verdict, text_eq, repo_at, List, Repo, Status,
  Env, RepositoryFileCheck, RepositoryFile, Text, World,
}
use csghub_server.Prelude.{
  subst, sym, to_lower, inr, inl, Bool-cases, refl, ap, if◌then◌else◌, ◌==◌, ◌≡◌, ◌∙◌, true, List,
  [], ◌∷◌, text_eq, Text,
}
use csghub_server.Moderation.Files.{check_fail, Status}

-- The repository still stands at its path.
abbrev pub Stands : Text → Repo → List Repo → Type 0
Stands q r rs =
    (x : Repo) × (repo_at q rs ≡ some x) × (x.id ≡ r.id) × (x.default_branch ≡ r.default_branch)

abbrev failed_repo : ℕ → Repo → Repo
failed_repo j r = if r.id == j then record r { private = true; status = check_fail } else r

failed_repo-same :
    (j : ℕ) (r : Repo)
    → ((failed_repo j r).id ≡ r.id)
      × ((failed_repo j r).git_path ≡ r.git_path)
      × ((failed_repo j r).default_branch ≡ r.default_branch)
failed_repo-same j r = elim (Bool-cases (r.id == j)) [
  | inl own ↦ rw own (refl, refl, refl)
  | inr other ↦ rw other (refl, refl, refl)
]

Stands-map :
    (q : Text) (r : Repo) (j : ℕ) (rs : List Repo)
    → Stands q r rs
    → Stands q r (map (failed_repo j) rs)
Stands-map q r j [] h = h
Stands-map q r j (y ∷ rs) (x, found, same_id, same_branch) =
    let (id_kept, path_kept, branch_kept) = failed_repo-same j y in
    elim (Bool-cases (text_eq (to_lower y.git_path) (to_lower q))) [
      | inl here_found ↦
          (let same : y ≡ x = cc (rw here_found at found) in
            (
              failed_repo j y,
              rw (path_kept, here_found) refl,
              id_kept ∙ ap (λ u. u.id) same ∙ same_id,
              branch_kept ∙ ap (λ u. u.default_branch) same ∙ same_branch,
            ))
      | inr later ↦
          (let (z, found_z, z_id, z_branch) =
              Stands-map q r j rs (x, (rw later at found), same_id, same_branch) in
            (z, rw (path_kept, later) found_z, z_id, z_branch))
    ]

module _ (env : Env) where
  mark_repo-Stands :
      (q : Text) (r : Repo) (f : RepositoryFile) (s : Status) (w : World)
      → Stands q r w.repos
      → Stands q r (mark_repo env f s w).repos
  unfolding mark_repo
  mark_repo-Stands q r f s w h = elim (Bool-cases (is_fail s)) [
    | inl fails ↦ elim (Bool-cases (env.fails (write_repo f.repository_id))) [
      | inl lost ↦ rw (fails, lost) h
      | inr works ↦ rw (fails, works) (Stands-map q r f.repository_id w.repos h)
    ]
    | inr fine ↦ rw fine h
  ]

  upsert-repos : (c : RepositoryFileCheck) (w : World) → (upsert env c w).repos ≡ w.repos
  unfolding upsert
  upsert-repos c w = elim (Bool-cases (env.fails (put_check c.repo_file_id))) [
    | inl lost ↦ rw lost refl
    | inr works ↦ rw works refl
  ]

  pub process_files-Stands :
      (q : Text) (r : Repo) (fs : List RepositoryFile) (w : World)
      → Stands q r w.repos
      → Stands q r (process_files env fs w).repos
  unfolding process_files process_file save_check_result
  process_files-Stands q r [] w h = h
  process_files-Stands q r (f ∷ fs) w h = process_files-Stands q r fs _ (
      subst (Stands q r) (sym (upsert-repos _ (mark_repo env f (verdict env f).0 w)))
        (mark_repo-Stands q r f (verdict env f).0 w h))
