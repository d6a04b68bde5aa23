-- ===== src/Moderation/Checks/Decided.antt =====
-- The check of the files and the detection of the status one after the other, as the workflow of the
-- moderation runs them, moderation/component.
use csghub_server.Moderation.Checks.Processed.{process_files-files}
use csghub_server.Moderation.Checks.{
  find_repo, exists_sensitive_check_record, find_by_path, set_detected, set_status, selected,
  change_repo, length, suc, check_repo_files, detect_repo_sensitive_check_status, exists_check,
  put_check, map, process_files, check_pass, check_exception, check_fail, ℕ, some, keep, repo_at,
  Bool, List, Repo, Status, Env, RepositoryFile, World,
}
use csghub_server.Moderation.Checks.Pass.{with_repo-found, check_repo_files_lem, Readable}
use csghub_server.Prelude.{
  &&_true, length, ==_iff, subst, sym, here, inr, inl, Bool-cases, there, refl, ap, if◌then◌else◌,
  ◌++◌, ◌≡◌, ◌∙◌, true, false, List, [], ◌∷◌, All, In, keep,
}
use csghub_server.Moderation.Files.{check_pass, check_exception, check_fail, Status}
use csghub_server.Moderation.Checks.Standing.{Stands, process_files-Stands}
use csghub_server.Moderation.Checks.Rows.{
  some_verdict, on_branch, row, Fresh, process_files-checks, any-rows,
}
use csghub_server.Repos.Store.{Place, git_path_of}
use csghub_server.Moderation.Checks.Batches.{Ascending, keep-Ascending}

-- The status that the verdicts on some files come to, without any table of checks
unfoldable pub decided : Env → List RepositoryFile → Status
decided env fs =
    if some_verdict env check_fail fs
    then check_fail
    else if some_verdict env check_exception fs
    then check_exception
    else check_pass

All-keep :
    {P : RepositoryFile → Type 0} (p : RepositoryFile → Bool) (fs : List RepositoryFile)
    → ((f : RepositoryFile) → In f fs → p f ≡ true → P f)
    → All P (keep p fs)
All-keep p [] h = tt
All-keep p (f ∷ fs) h = elim (Bool-cases (p f)) [
  | inl kept ↦ rw kept (h f here kept, All-keep p fs (λ g m e. h g (there m) e))
  | inr dropped ↦ rw dropped (All-keep p fs (λ g m e. h g (there m) e))
]

set_status_by_id :
    (env : Env) (s : Status) (i : ℕ) (x : Repo) (v : World)
    → x.id ≡ i
    → set_status env s x v ≡ change_repo env i (λ y. record y { status = s }) v
unfolding set_status
set_status_by_id env s i x v same = rw same refl

module _ (env : Env) (p : Place) (r : Repo) where
  -- `DetectRepoSensitiveCheckStatus` decides by the answers to its two queries.
  set_detected-decided :
      (x : Repo) (v : World) (fs : List RepositoryFile)
      → ((s : Status)
          → exists_sensitive_check_record env x.id x.default_branch s v
            ≡ some (some_verdict env s fs))
      → set_detected env x v ≡ set_status env (decided env fs) x v
  unfolding set_detected decided
  set_detected-decided x v fs looked = elim (Bool-cases (some_verdict env check_fail fs)) [
    | inl bad ↦ rw (looked check_fail, bad) refl
    | inr fine ↦ elim (Bool-cases (some_verdict env check_exception fs)) [
      | inl odd ↦ rw (looked check_fail, fine, looked check_exception, odd) refl
      | inr even ↦ rw (looked check_fail, fine, looked check_exception, even) refl
    ]
  ]

  found-Stands : (w : World) → find_by_path env p w ≡ some r → Stands (git_path_of p) r w.repos
  unfolding find_by_path
  found-Stands w found = elim (Bool-cases (env.fails (find_repo p))) [
    | inl lost ↦ absurd (cc (rw lost at found))
    | inr works ↦ (r, rw works at found, refl, refl)
  ]

  Stands-found :
      (w v : World) (x : Repo)
      → find_by_path env p w ≡ some r
      → repo_at (git_path_of p) v.repos ≡ some x
      → find_by_path env p v ≡ some x
  unfolding find_by_path
  Stands-found w v x found at_path = elim (Bool-cases (env.fails (find_repo p))) [
    | inl lost ↦ absurd (cc (rw lost at found))
    | inr works ↦ rw works at_path
  ]

  Fresh-none : (fs : List RepositoryFile) → Fresh env fs []
  Fresh-none [] = tt
  Fresh-none (f ∷ fs) = (tt, Fresh-none fs)

  selected-In :
      (force : Bool) (last : ℕ) (w : World)
      → All (λ f. In f w.files × (f.repository_id ≡ r.id)) (selected force r.id last w)
  unfolding selected
  selected-In force last w =
      All-keep _ w.files
        (λ f m e. (m, (==_iff f.repository_id r.id).0 (&&_true _ _ (&&_true _ _ e).0).0))

  selected-Ascending :
      (force : Bool) (last : ℕ) (w : World)
      → Ascending w.files
      → Ascending (selected force r.id last w)
  unfolding selected
  selected-Ascending force last w h = keep-Ascending _ w.files h

  looked_up :
      (fs : List RepositoryFile) (w : World) (x : Repo) (s : Status)
      → All (λ f. In f w.files × (f.repository_id ≡ r.id)) fs
      → Ascending w.files
      → Ascending fs
      → w.checks ≡ []
      → ((i : ℕ) → env.fails (put_check i) ≡ false)
      → ((s : Status) → env.fails (exists_check s) ≡ false)
      → x.id ≡ r.id
      → x.default_branch ≡ r.default_branch
      → exists_sensitive_check_record env x.id x.default_branch s (process_files env fs w)
        ≡ some (some_verdict env s (on_branch r.default_branch fs))
  unfolding exists_sensitive_check_record
  looked_up fs w x s ins h hs none puts asks same_id same_branch =
      let stored : (process_files env fs w).checks ≡ map (row env) fs =
        process_files-checks env fs w puts hs (subst (Fresh env fs) (sym none) (Fresh-none fs))
        ∙ ap (λ cs. cs ++ map (row env) fs) none in
      rw (asks s, same_id, same_branch, stored, process_files-files env fs w)
        (ap (λ b. some b) (any-rows env w.files r.id r.default_branch s fs h ins))

-- If the table of the checks is empty, the repository is found, its files can be read, and the checks
-- can be stored and queried, then `DetectRepoSensitiveCheckStatus` after `CheckRepoFiles` sets the
-- status that the checkers' verdicts on the selected files of the default branch come to: that of a
-- failed check if one of them is that, else that of an exception if one of them is that, else that
-- the repository passes.
pub check_then_detect :
    (env : Env) (p : Place) (r : Repo) (force : Bool) (last batch : ℕ) (w : World)
    → Readable env p r w
    → Ascending w.files
    → w.checks ≡ []
    → ((i : ℕ) → env.fails (put_check i) ≡ false)
    → ((s : Status) → env.fails (exists_check s) ≡ false)
    → detect_repo_sensitive_check_status env p
        (check_repo_files (suc (length w.files)) env p force last batch w).0
      ≡ change_repo env r.id
          (λ x. record x {
            status = decided env (on_branch r.default_branch (selected force r.id last w));
          })
          (check_repo_files (suc (length w.files)) env p force last batch w).0
unfolding detect_repo_sensitive_check_status
check_then_detect env p r force last batch w readable h none puts asks =
    rw (check_repo_files_lem env p r force last batch w readable h) (
      let S = selected force r.id last w in
      let hs = selected-Ascending env p r force last w h in
      let (x, at_path, same_id, same_branch) =
        process_files-Stands env (git_path_of p) r S w (found-Stands env p r w readable.0) in
      with_repo-found env p x (set_detected env) (process_files env S w)
        (Stands-found env p r w (process_files env S w) x readable.0 at_path)
      ∙ (set_detected-decided env p r x (process_files env S w) (on_branch r.default_branch S) (λ s.
            looked_up env p r S w x s (selected-In env p r force last w) h hs none puts asks same_id
              same_branch)
          ∙ set_status_by_id env (decided env (on_branch r.default_branch S)) r.id x
              (process_files env S w) same_id))
