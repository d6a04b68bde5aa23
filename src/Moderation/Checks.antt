-- ===== src/Moderation/Checks.antt =====
-- moderation/component: the records of a repository's files, the check of each, and what they make of
-- the repository; the tables are those of builder/store/database/repository_file.go and
-- repository_file_check.go, the files in the order of their keys. Which calls fail is an argument.
pub mod Batches
pub mod Processed
pub mod Pass
pub mod Private
pub mod Detected
pub mod Rows
pub mod Standing
pub mod Decided
use csghub_server.Prelude.{
  Text, text_eq, to_lower, length, take, keep, any, map, ltb, ◌==◌, ◌&&◌, ◌||◌, ◌++◌, not, ℕ, zero,
  suc, Bool, true, false, Option, none, some, List, [], ◌∷◌, if◌then◌else◌,
}
use csghub_server.Repos.Store.{Place, git_path_of}
use csghub_server.Moderation.Files.{
  Status, check_fail, check_pending, check_pass, check_skip, check_exception, Content, Checkers,
  Verdict, get_file_checker, run_checker,
}

pub record Repo : Type 0 where
  pub id : ℕ
  pub git_path : Text
  pub default_branch : Text
  pub private : Bool
  pub status : Status

pub record RepositoryFile : Type 0 where
  pub id : ℕ
  pub repository_id : ℕ
  pub path : Text
  pub file_type : Text
  pub size : ℕ
  pub commit_sha : Text
  pub lfs_relative_path : Text
  pub branch : Text

pub record RepositoryFileCheck : Type 0 where
  pub repo_file_id : ℕ
  pub status : Status
  pub message : Text

pub record World : Type 0 where
  pub repos : List Repo
  pub files : List RepositoryFile
  pub checks : List RepositoryFileCheck

pub data Call : Type 0 where
  find_repo : Place → Call
  write_repo get_files put_check : ℕ → Call
  exists_file create_file : Text → Call
  exists_check : Status → Call

pub record Env : Type 0 where
  pub fails : Call → Bool
  pub checkers : Checkers
  pub content : RepositoryFile → Content

pub data Ended : Type 0 where
  succeeded errored polling : Ended

abbrev pub Result : Type 0
Result = World × Ended

abbrev pub repo_at : Text → List Repo → Option Repo
repo_at p [] = none
repo_at p (r ∷ rs) = if text_eq (to_lower r.git_path) (to_lower p) then some r else repo_at p rs

-- `FindByPath`
unfoldable pub find_by_path : Env → Place → World → Option Repo
find_by_path env p w = if env.fails (find_repo p) then none else repo_at (git_path_of p) w.repos

-- What follows if the repository is found
abbrev pub with_repo : Env → Place → (Repo → World → Result) → World → Result
with_repo env p f w = elim (find_by_path env p w) [ none ↦ (w, errored) | some r ↦ f r w ]

-- `UpdateRepo` of the row with this key
abbrev pub change_repo : Env → ℕ → (Repo → Repo) → World → Result
change_repo env i f w =
    if env.fails (write_repo i)
    then (w, errored)
    else (record w { repos = map (λ r. if r.id == i then f r else r) w.repos }, succeeded)

unfoldable pub set_status : Env → Status → Repo → World → Result
set_status env s repo w = change_repo env repo.id (λ r. record r { status = s }) w

unfoldable pub update_repo_sensitive_check_status : Env → Place → Status → World → Result
update_repo_sensitive_check_status env p s w = with_repo env p (set_status env s) w

-- The check of a file, if there is one
abbrev pub check_status : ℕ → List RepositoryFileCheck → Option Status
check_status i [] = none
check_status i (c ∷ cs) = if c.repo_file_id == i then some c.status else check_status i cs

abbrev pub is_open : Option Status → Bool
is_open none = true
is_open (some check_pending) = true
is_open (some s) = false

-- The rows that `BatchGet` selects, or `BatchGetUnchcked` without `force`
abbrev pub is_selected : Bool → ℕ → List RepositoryFileCheck → RepositoryFile → Bool
is_selected force repo_id checks f =
    f.repository_id == repo_id && (force || is_open (check_status f.id checks))

unfoldable pub selected : Bool → ℕ → ℕ → World → List RepositoryFile
selected force repo_id last w =
    keep (λ f. is_selected force repo_id w.checks f && ltb last f.id) w.files

-- `Upsert`
abbrev pub put_row : RepositoryFileCheck → List RepositoryFileCheck → List RepositoryFileCheck
put_row c [] = c ∷ []
put_row c (d ∷ ds) = if d.repo_file_id == c.repo_file_id then c ∷ ds else d ∷ put_row c ds

unfoldable pub upsert : Env → RepositoryFileCheck → World → World
upsert env c w =
    if env.fails (put_check c.repo_file_id) then w else record w { checks = put_row c w.checks }

abbrev pub is_fail : Status → Bool
is_fail check_fail = true
is_fail s = false

-- A repository with a file that fails becomes private; errors are logged only.
unfoldable pub mark_repo : Env → RepositoryFile → Status → World → World
mark_repo env f s w =
    if is_fail s
    then (change_repo env f.repository_id (λ r. record r { private = true; status = check_fail })
        w).0
    else w

unfoldable pub save_check_result : Env → RepositoryFile → Verdict → World → World
save_check_result env f v w =
    upsert env (record { repo_file_id = f.id; status = v.0; message = v.1 }) (mark_repo env f v.0 w)

abbrev pub verdict : Env → RepositoryFile → Verdict
verdict env f =
    run_checker env.checkers (get_file_checker f.file_type f.path f.lfs_relative_path)
      (env.content f)

unfoldable pub process_file : Env → RepositoryFile → World → World
process_file env f w = save_check_result env f (verdict env f) w

unfoldable pub process_files : Env → List RepositoryFile → World → World
process_files env [] w = w
process_files env (f ∷ fs) w = process_files env fs (process_file env f w)

abbrev pub last_id : ℕ → List RepositoryFile → ℕ
last_id i [] = i
last_id i (f ∷ fs) = last_id f.id fs

-- The loop of `CheckRepoFiles`, of so many rounds at most
unfoldable pub check_rounds : ℕ → Env → Bool → ℕ → ℕ → ℕ → World → Result
check_rounds zero env force repo_id batch last w = (w, polling)
check_rounds (suc fuel) env force repo_id batch last w =
    if env.fails (get_files last)
    then (w, errored)
    else (let fs = take batch (selected force repo_id last w) in
        let v = process_files env fs w in
        elim (ltb (length fs) batch) [
          | true ↦ (v, succeeded)
          | false ↦ check_rounds fuel env force repo_id batch (last_id last fs) v
        ])

abbrev pub batch_size : ℕ → ℕ
batch_size n = if n == 0 then 10 else n

unfoldable pub check_repo_files : ℕ → Env → Place → Bool → ℕ → ℕ → World → Result
check_repo_files fuel env p force last batch w =
    with_repo env p (λ r. check_rounds fuel env force r.id (batch_size batch) last) w

abbrev pub code : Status → ℕ
code check_fail = 0
code check_pending = 1
code check_pass = 2
code check_skip = 3
code check_exception = 4

abbrev pub same_status : Status → Status → Bool
same_status s t = code s == code t

-- `ExistsSensitiveCheckRecord`
abbrev pub has_check : List RepositoryFile → ℕ → Text → Status → RepositoryFileCheck → Bool
has_check files repo_id branch s c =
    same_status c.status s
    && any (λ f. f.id == c.repo_file_id && (f.repository_id == repo_id && text_eq f.branch branch))
        files

unfoldable pub exists_sensitive_check_record : Env → ℕ → Text → Status → World → Option Bool
exists_sensitive_check_record env repo_id branch s w =
    if env.fails (exists_check s)
    then none
    else some (any (has_check w.files repo_id branch s) w.checks)

-- What follows a query for checks: the status is set if there is one.
abbrev pub or_else : Option Bool → Result → World → Result → Result
or_else none found w next = (w, errored)
or_else (some true) found w next = found
or_else (some false) found w next = next

unfoldable pub set_detected : Env → Repo → World → Result
set_detected env r w =
    or_else (exists_sensitive_check_record env r.id r.default_branch check_fail w)
      (set_status env check_fail r w) w
      (or_else (exists_sensitive_check_record env r.id r.default_branch check_exception w)
        (set_status env check_exception r w) w (set_status env check_pass r w))

unfoldable pub detect_repo_sensitive_check_status : Env → Place → World → Result
detect_repo_sensitive_check_status env p w = with_repo env p (set_detected env) w
