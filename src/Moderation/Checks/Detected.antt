-- ===== src/Moderation/Checks/Detected.antt =====
-- What the checks of its files make of a repository, moderation/component/repo_file.go.
use csghub_server.Moderation.Checks.Pass.{with_repo-found}
use csghub_server.Moderation.Checks.{
  set_detected, check_skip, check_pending, code, check_pass, check_exception, check_fail, some,
  Repo, RepositoryFile, RepositoryFileCheck, World, Env, Status, same_status, has_check,
  exists_sensitive_check_record, set_status, detect_repo_sensitive_check_status, find_by_path,
  exists_check,
}
use csghub_server.Moderation.Files.{
  check_skip, check_pending, check_pass, check_exception, check_fail,
}
use csghub_server.Prelude.{
  or_true, ◌↔◌, ◌≡◌, refl, ◌==◌, ==_iff, ◌∙◌, ap, any, ℕ, Bool, true, false, &&_true, List, [], ◌∷◌,
  In, here, there, inl, inr, Bool-cases, text_eq_iff, ◌⊎◌, if◌then◌else◌,
}
use csghub_server.Repos.Store.{Place}

-- Some check of a file of the repository's default branch has the status.
abbrev pub HasCheck : World → Repo → Status → Type 0
HasCheck w r s =
    (c : RepositoryFileCheck) × In c w.checks
    × (c.status ≡ s)
    × ((f : RepositoryFile) × In f w.files
        × (f.id ≡ c.repo_file_id)
        × (f.repository_id ≡ r.id)
        × (f.branch ≡ r.default_branch))

-- The status that the checks come to: a failed check counts most, then an exception.
abbrev pub IsWorst : World → Repo → Status → Type 0
IsWorst w r s =
    ((s ≡ check_fail) × HasCheck w r check_fail)
    ⊎ (((s ≡ check_exception) × (¬ HasCheck w r check_fail) × HasCheck w r check_exception)
        ⊎ ((s ≡ check_pass) × (¬ HasCheck w r check_fail) × (¬ HasCheck w r check_exception)))

status_of : ℕ → Status
status_of n =
    if n == 0
    then check_fail
    else if n == 1
    then check_pending
    else if n == 2
    then check_pass
    else if n == 3
    then check_skip
    else check_exception

status_of-code : (s : Status) → status_of (code s) ≡ s
unfolding status_of
status_of-code check_fail = refl
status_of-code check_pending = refl
status_of-code check_pass = refl
status_of-code check_skip = refl
status_of-code check_exception = refl

same_status_iff : (s t : Status) → (same_status s t ≡ true) ↔ (s ≡ t)
same_status_iff s t = (
  λ h. cc (status_of-code s, status_of-code t, ap status_of ((==_iff (code s) (code t)).0 h)),
  λ e. (==_iff (code s) (code t)).1 (ap code e),
)

module _ {ℓ} {A : Type ℓ} where
  pub any-In : (p : A → Bool) (xs : List A) → any p xs ≡ true → (x : A) × In x xs × (p x ≡ true)
  any-In p [] h = absurd (cc (h))
  any-In p (x ∷ xs) h = elim (Bool-cases (p x)) [
    | inl found ↦ (x, here, found)
    | inr other ↦ (let (y, m, e) = any-In p xs (rw other at h) in (y, there m, e))
  ]

  pub In-any : (p : A → Bool) (xs : List A) (x : A) → In x xs → p x ≡ true → any p xs ≡ true
  In-any p [] x m h = elim m [ ]
  In-any p (y ∷ xs) x here h = rw h refl
  In-any p (y ∷ xs) x (there m) h = rw (In-any p xs x m h) (or_true (p y))

has_check_iff :
    (w : World) (r : Repo) (s : Status)
    → (any (has_check w.files r.id r.default_branch s) w.checks ≡ true) ↔ HasCheck w r s
has_check_iff w r s = (
  λ h.
      (let (c, m, e) = any-In _ w.checks h in
        let (same, others) = &&_true _ _ e in
        let (f, mf, ef) = any-In _ w.files others in
        let (key, rest) = &&_true _ _ ef in
        let (repo, branch) = &&_true _ _ rest in
        (
          c,
          m,
          (same_status_iff c.status s).0 same,
          (
            f,
            mf,
            (==_iff f.id c.repo_file_id).0 key,
            (==_iff f.repository_id r.id).0 repo,
            (text_eq_iff f.branch r.default_branch).0 branch,
          ),
        )),
  λ (c, m, same, (f, mf, key, repo, branch)). In-any _ w.checks c m (
      rw ((same_status_iff c.status s).1 same) (
        In-any _ w.files f mf (
          rw
            (
              (==_iff f.id c.repo_file_id).1 key,
              (==_iff f.repository_id r.id).1 repo,
              (text_eq_iff f.branch r.default_branch).1 branch,
            )
            refl))),
)

-- If the repository is found and the queries work, then `DetectRepoSensitiveCheckStatus` sets the
-- status that the stored checks of files on its default branch come to: that of a failed check if
-- there is one, also if the file is no longer in the repository, else that of an exception if there is
-- one, else that it passes.
pub detect_repo_sensitive_check_status_lem :
    (env : Env) (p : Place) (r : Repo) (w : World)
    → find_by_path env p w ≡ some r
    → ((s : Status) → env.fails (exists_check s) ≡ false)
    → (s : Status) × IsWorst w r s
      × (detect_repo_sensitive_check_status env p w ≡ set_status env s r w)
unfolding detect_repo_sensitive_check_status set_detected exists_sensitive_check_record
detect_repo_sensitive_check_status_lem env p r w found works =
    elim (Bool-cases (any (has_check w.files r.id r.default_branch check_fail) w.checks)) [
      | inl fails ↦ (
        check_fail,
        inl (refl, (has_check_iff w r check_fail).0 fails),
        with_repo-found env p r (set_detected env) w found ∙ rw (works check_fail, fails) refl,
      )
      | inr no_fail ↦
          elim (Bool-cases
            (any (has_check w.files r.id r.default_branch check_exception) w.checks)) [
              | inl odd ↦ (
                check_exception,
                inr (
                    inl (
                      refl,
                      none_of check_fail no_fail,
                      (has_check_iff w r check_exception).0 odd,
                    )),
                with_repo-found env p r (set_detected env) w found
                    ∙ rw (works check_fail, no_fail, works check_exception, odd) refl,
              )
              | inr no_odd ↦ (
                check_pass,
                inr (inr (refl, none_of check_fail no_fail, none_of check_exception no_odd)),
                with_repo-found env p r (set_detected env) w found
                    ∙ rw (works check_fail, no_fail, works check_exception, no_odd) refl,
              )
            ]
    ]
  where
    none_of :
        (s : Status)
        → any (has_check w.files r.id r.default_branch s) w.checks ≡ false
        → ¬ HasCheck w r s
    none_of s h has = cc (h, (has_check_iff w r s).1 has)
