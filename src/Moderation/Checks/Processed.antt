-- ===== src/Moderation/Checks/Processed.antt =====
-- What the check of files changes, moderation/component/repo.go.
use csghub_server.Prelude.{
  here, ==_iff, there, ==_refl, All-map, arith, inr, refl, In, inl, All, Bool-cases, ℕ, ◌≡◌, ◌==◌,
  ◌∙◌, ap, if◌then◌else◌, ◌++◌, ◌<◌,
}
use csghub_server.Moderation.Checks.{
  write_repo, is_fail, put_row, some, Status, check_status, false, put_check, verdict, ◌∷◌, List,
  RepositoryFile, World, save_check_result, RepositoryFileCheck, mark_repo, process_files,
  process_file, upsert, Env,
}
use mathlib.Core.List.{[]}
use csghub_server.Moderation.Checks.Batches.{Ascending}
use csghub_server.Moderation.Files.{Status}

-- What the check of a file changes
check_status-put_row :
    (i : ℕ) (c : RepositoryFileCheck) (cs : List RepositoryFileCheck)
    → check_status i (put_row c cs)
      ≡ (if c.repo_file_id == i then some c.status else check_status i cs)
check_status-put_row i c [] = refl
check_status-put_row i c (d ∷ cs) = elim (Bool-cases (d.repo_file_id == c.repo_file_id)) [
  | inl same ↦ rw same (ground (arith, (==_iff d.repo_file_id c.repo_file_id).0 same))
  | inr other ↦ rw other (ground (arith, check_status-put_row i c cs, other))
]

module _ (env : Env) where
  pub mark_repo-tables :
      (f : RepositoryFile) (s : Status) (w : World)
      → ((mark_repo env f s w).files ≡ w.files) × ((mark_repo env f s w).checks ≡ w.checks)
  unfolding mark_repo
  mark_repo-tables f s w = elim (Bool-cases (is_fail s)) [
    | inl fails ↦ elim (Bool-cases (env.fails (write_repo f.repository_id))) [
      | inl lost ↦ rw (fails, lost) (refl, refl)
      | inr works ↦ rw (fails, works) (refl, refl)
    ]
    | inr fine ↦ rw fine (refl, refl)
  ]

  upsert-files : (c : RepositoryFileCheck) (w : World) → (upsert env c w).files ≡ w.files
  unfolding upsert
  upsert-files c w = elim (Bool-cases (env.fails (put_check c.repo_file_id))) [
    | inl lost ↦ rw lost refl
    | inr works ↦ rw works refl
  ]

  upsert-other :
      (i : ℕ) (c : RepositoryFileCheck) (w : World)
      → (c.repo_file_id == i) ≡ false
      → check_status i (upsert env c w).checks ≡ check_status i w.checks
  unfolding upsert
  upsert-other i c w h = elim (Bool-cases (env.fails (put_check c.repo_file_id))) [
    | inl lost ↦ rw lost refl
    | inr works ↦ rw works (check_status-put_row i c w.checks ∙ rw h refl)
  ]

  upsert-own :
      (c : RepositoryFileCheck) (w : World)
      → env.fails (put_check c.repo_file_id) ≡ false
      → check_status c.repo_file_id (upsert env c w).checks ≡ some c.status
  unfolding upsert
  upsert-own c w h =
      rw h (check_status-put_row c.repo_file_id c w.checks ∙ rw (==_refl c.repo_file_id) refl)

  process_file-files : (f : RepositoryFile) (w : World) → (process_file env f w).files ≡ w.files
  unfolding process_file save_check_result
  process_file-files f w =
      upsert-files _ (mark_repo env f (verdict env f).0 w)
      ∙ (mark_repo-tables f (verdict env f).0 w).0

  process_file-other :
      (i : ℕ) (f : RepositoryFile) (w : World)
      → (f.id == i) ≡ false
      → check_status i (process_file env f w).checks ≡ check_status i w.checks
  unfolding process_file save_check_result
  process_file-other i f w h =
      upsert-other i _ (mark_repo env f (verdict env f).0 w) h
      ∙ ap (check_status i) (mark_repo-tables f (verdict env f).0 w).1

  pub process_file-own :
      (f : RepositoryFile) (w : World)
      → env.fails (put_check f.id) ≡ false
      → check_status f.id (process_file env f w).checks ≡ some (verdict env f).0
  unfolding process_file save_check_result
  process_file-own f w h = upsert-own _ (mark_repo env f (verdict env f).0 w) h

  pub process_files-files :
      (fs : List RepositoryFile) (w : World) → (process_files env fs w).files ≡ w.files
  unfolding process_files
  process_files-files [] w = refl
  process_files-files (f ∷ fs) w =
      process_files-files fs (process_file env f w) ∙ process_file-files f w

  pub process_files-other :
      (i : ℕ) (fs : List RepositoryFile) (w : World)
      → All (λ f. (f.id == i) ≡ false) fs
      → check_status i (process_files env fs w).checks ≡ check_status i w.checks
  unfolding process_files
  process_files-other i [] w h = refl
  process_files-other i (f ∷ fs) w h =
      process_files-other i fs (process_file env f w) h.1 ∙ process_file-other i f w h.0

  pub process_files-append :
      (fs gs : List RepositoryFile) (w : World)
      → process_files env (fs ++ gs) w ≡ process_files env gs (process_files env fs w)
  unfolding process_files
  process_files-append [] gs w = refl
  process_files-append (f ∷ fs) gs w = process_files-append fs gs (process_file env f w)

  -- Each file of an ascending list has its own verdict in the end.
  pub process_files-own :
      (fs : List RepositoryFile) (w : World) (f : RepositoryFile)
      → Ascending fs
      → In f fs
      → env.fails (put_check f.id) ≡ false
      → check_status f.id (process_files env fs w).checks ≡ some (verdict env f).0
  unfolding process_files
  process_files-own [] w f h m kept = elim m [ ]
  process_files-own (g ∷ fs) w f h here kept =
      process_files-other f.id fs (process_file env f w)
        (All-map (λ g. f.id < g.id) _ (λ g lt. ground (arith, lt)) fs h.0)
      ∙ process_file-own f w kept
  process_files-own (g ∷ fs) w f h (there m) kept =
      process_files-own fs (process_file env g w) f h.1 m kept
