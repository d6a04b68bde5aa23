-- ===== src/Moderation/Checks/Private.antt =====
-- A file that fails makes its repository private, moderation/component/repo.go.
use csghub_server.Moderation.Checks.Pass.{check_repo_files_lem, Readable}
use csghub_server.Moderation.Checks.{
  check_repo_files, selected, is_fail, RepositoryFileCheck, Status, check_fail, Repo,
  RepositoryFile, World, Env, mark_repo, save_check_result, process_file, process_files, verdict,
  upsert, write_repo, put_check,
}
use csghub_server.Moderation.Checks.Batches.{Ascending}
use csghub_server.Prelude.{
  subst, ◌≡◌, refl, ◌==◌, ==_iff, sym, map, ℕ, Bool, true, false, List, [], ◌∷◌, All, In, here,
  there, if◌then◌else◌, inl, inr, Bool-cases, length, suc,
}
use csghub_server.Moderation.Files.{Status, check_fail}
use csghub_server.Repos.Store.{Place}

-- All rows with the key are private and have failed.
abbrev pub Marked : ℕ → List Repo → Type 0
Marked i rs = All (λ r. r.id ≡ i → (r.private ≡ true) × (r.status ≡ check_fail)) rs

abbrev marked : Repo → Repo
marked r = record r { private = true; status = check_fail }

Marked-map :
    (i j : ℕ) (rs : List Repo)
    → Marked i rs
    → Marked i (map (λ r. if r.id == j then marked r else r) rs)
Marked-map i j [] h = tt
Marked-map i j (r ∷ rs) h = elim (Bool-cases (r.id == j)) [
  | inl same ↦ rw same ((λ e. (refl, refl)), Marked-map i j rs h.1)
  | inr other ↦ rw other (h.0, Marked-map i j rs h.1)
]

map-Marked : (i : ℕ) (rs : List Repo) → Marked i (map (λ r. if r.id == i then marked r else r) rs)
map-Marked i [] = tt
map-Marked i (r ∷ rs) = elim (Bool-cases (r.id == i)) [
  | inl same ↦ rw same ((λ e. (refl, refl)), map-Marked i rs)
  | inr other ↦ rw other ((λ e. absurd (cc (other, (==_iff r.id i).1 e))), map-Marked i rs)
]

module _ (env : Env) (i : ℕ) where
  upsert-Marked :
      (c : RepositoryFileCheck) (w : World) → Marked i w.repos → Marked i (upsert env c w).repos
  unfolding upsert
  upsert-Marked c w h = elim (Bool-cases (env.fails (put_check c.repo_file_id))) [
    | inl lost ↦ rw lost h
    | inr works ↦ rw works h
  ]

  mark_repo-keeps :
      (f : RepositoryFile) (s : Status) (w : World)
      → Marked i w.repos
      → Marked i (mark_repo env f s w).repos
  unfolding mark_repo
  mark_repo-keeps f s w h = elim (Bool-cases (is_fail s)) [
    | inl fails ↦ elim (Bool-cases (env.fails (write_repo f.repository_id))) [
      | inl lost ↦ rw (fails, lost) h
      | inr works ↦ rw (fails, works) (Marked-map i f.repository_id w.repos h)
    ]
    | inr fine ↦ rw fine h
  ]

  mark_repo-Marked :
      (f : RepositoryFile) (w : World)
      → f.repository_id ≡ i
      → env.fails (write_repo f.repository_id) ≡ false
      → Marked i (mark_repo env f check_fail w).repos
  unfolding mark_repo
  mark_repo-Marked f w e works = rw works (rw e (map-Marked i w.repos))

  process_files-keeps :
      (fs : List RepositoryFile) (w : World)
      → Marked i w.repos
      → Marked i (process_files env fs w).repos
  unfolding process_files process_file save_check_result
  process_files-keeps [] w h = h
  process_files-keeps (f ∷ fs) w h =
      process_files-keeps fs _ (upsert-Marked _ _ (mark_repo-keeps f (verdict env f).0 w h))

  pub process_files-Marked :
      (fs : List RepositoryFile) (w : World) (f : RepositoryFile)
      → In f fs
      → f.repository_id ≡ i
      → env.fails (write_repo f.repository_id) ≡ false
      → (verdict env f).0 ≡ check_fail
      → Marked i (process_files env fs w).repos
  unfolding process_files process_file save_check_result
  process_files-Marked [] w f m e works bad = elim m [ ]
  process_files-Marked (g ∷ fs) w f here e works bad = process_files-keeps fs _ (
      upsert-Marked _ _ (
        subst (λ s. Marked i (mark_repo env f s w).repos) (sym bad) (mark_repo-Marked f w e works)))
  process_files-Marked (g ∷ fs) w f (there m) e works bad =
      process_files-Marked fs _ f m e works bad

-- If `CheckRepoFiles` can read the files and write the repository, and the checker of one of the
-- selected files finds sensitive content, then the repository is private in the end and its status is
-- that of a failed check, whatever the other files are.
pub check_repo_files-private :
    (env : Env) (p : Place) (r : Repo) (force : Bool) (last batch : ℕ) (w : World)
    (f : RepositoryFile)
    → Readable env p r w
    → Ascending w.files
    → env.fails (write_repo f.repository_id) ≡ false
    → In f (selected force r.id last w)
    → (verdict env f).0 ≡ check_fail
    → Marked f.repository_id
        (check_repo_files (suc (length w.files)) env p force last batch w).0.repos
check_repo_files-private env p r force last batch w f readable h works m bad =
    rw (check_repo_files_lem env p r force last batch w readable h)
      (process_files-Marked env f.repository_id (selected force r.id last w) w f m refl works bad)
