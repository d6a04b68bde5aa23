-- ===== src/Repos/Git/Locks.antt =====
-- component/git_http.go: the locks of LFS files, with their table (builder/store/database/lfs_lock.go),
-- which has a unique index on repository and path. The time of a lock is left out.
use Prim.Native.Nat.{zero}
pub mod Exclusive
use csghub_server.Prelude.{
  Text, text_eq, is_empty, ℕ, suc, ◌-◌, ◌*◌, ◌+◌, Bool, true, false, not, ◌&&◌, ◌||◌, Option, none,
  some, if◌then◌else◌, List, [], ◌∷◌, ◌++◌, map, keep, length, ◌==◌, ltb, ◌≡◌,
}
use csghub_server.Repos.Store.{
  Repository, User, World, Env, Place, LfsLock, Outcome, ok, err, ◌>>=◌, ◌>>◌, guard, Error,
  not_found, unauthorized, no_permission, store_failed, already_exists, Done, checked, find_by_path,
  find_by_username, find_lock, insert_lock, find_lock_by_id, remove_lock, list_locks,
}
use csghub_server.Repos.Access.{allow_read_access, allow_write_access}
use csghub_server.Repos.Git.{known_user}

abbrev pub is_lock_of : ℕ → Text → LfsLock → Bool
is_lock_of r p l = l.repository_id == r && text_eq l.path p

abbrev pub lock_of : ℕ → Text → List LfsLock → Option LfsLock
lock_of r p [] = none
lock_of r p (l ∷ ls) = if is_lock_of r p l then some l else lock_of r p ls

abbrev pub lock_with_id : ℕ → List LfsLock → Option LfsLock
lock_with_id i [] = none
lock_with_id i (l ∷ ls) = if l.id == i then some l else lock_with_id i ls

-- `FindByPath`, `FindByID`: `none` is "no rows".
unfoldable pub lock_by_path : Env → ℕ → Text → World → Outcome (Option LfsLock)
lock_by_path env r p w =
    if env.fails (find_lock r p) then err store_failed else ok (lock_of r p w.locks)

unfoldable pub lock_by_id : Env → ℕ → World → Outcome (Option LfsLock)
lock_by_id env i w =
    if env.fails (find_lock_by_id i) then err store_failed else ok (lock_with_id i w.locks)

abbrev pub drop_locks : ℕ → List LfsLock → List LfsLock
drop_locks zero ls = ls
drop_locks (suc n) [] = []
drop_locks (suc n) (l ∷ ls) = drop_locks n ls

abbrev pub take_locks : ℕ → List LfsLock → List LfsLock
take_locks zero ls = []
take_locks (suc n) [] = []
take_locks (suc n) (l ∷ ls) = l ∷ take_locks n ls

-- `FindByRepoID`: a page from 1 on, or all locks.
unfoldable pub locks_of_repo : Env → ℕ → ℕ → ℕ → World → Outcome (List LfsLock)
locks_of_repo env r page per w =
    let ls = keep (λ l. l.repository_id == r) w.locks in
    if env.fails (list_locks r)
    then err store_failed
    else ok
        (if ltb 0 page && ltb 0 per then take_locks per (drop_locks ((page - 1) * per) ls) else ls)

-- The insert of a second lock of a path fails by the unique index.
abbrev pub insert : Env → ℕ → ℕ → Text → Option LfsLock → World → Done LfsLock
insert env r u p (some l) w = (w, err already_exists)
insert env r u p none w =
    let l : LfsLock = record { id = w.next_lock; repository_id = r; user_id = u; path = p } in
    if env.fails (insert_lock r p)
    then (w, err already_exists)
    else (record w { locks = w.locks ++ l ∷ []; next_lock = suc w.next_lock }, ok l)

-- A refusal is reported as unauthorized, an error of the check as it is.
abbrev pub must : Outcome Bool → Outcome (Unit {0})
must x = x >>= λ b. guard b unauthorized

-- The repository, the user, and the right to write or to read.
abbrev pub lock_checks :
    (Env → Place → Text → World → Outcome Bool)
    → Env
    → Place
    → Text
    → World
    → Outcome (Repository × User)
lock_checks allow env p user w = find_by_path env p w >>= λ repo.
    known_user (find_by_username env user w) >>= λ u. must (allow env p user w) >> ok (repo, u)

unfoldable pub writer_checks : Env → Place → Text → World → Outcome (Repository × User)
writer_checks = lock_checks allow_write_access

unfoldable pub reader_checks : Env → Place → Text → World → Outcome (Repository × User)
reader_checks = lock_checks allow_read_access

-- `CreateLock`: the checks, and the insert where no lock is found.
abbrev pub insert_for : Env → Text → (Repository × User) × Option LfsLock → World → Done LfsLock
insert_for env file y = insert env (y.0.0).id (y.0.1).id file y.1

unfoldable pub create_lock_checks :
    Env → Place → Text → Text → World → Outcome ((Repository × User) × Option LfsLock)
create_lock_checks env p user file w = do
  x ← writer_checks env p user w
  l ← lock_by_path env (x.0).id file w
  ok (x, l)

unfoldable pub create_lock : Env → Place → Text → Text → World → Done LfsLock
create_lock env p user file w =
    checked (create_lock_checks env p user file w) (insert_for env file) w

abbrev pub there' : Option LfsLock → Outcome LfsLock
there' none = err not_found
there' (some l) = ok l

-- The lock that `UnLock` is to remove, as far as the user may remove it.
unfoldable pub unlock_checks : Env → Place → Text → ℕ → Bool → World → Outcome LfsLock
unlock_checks env p user i force w = do
  x ← writer_checks env p user w
  found ← lock_by_id env i w
  l ← there' found
  guard (force || l.user_id == (x.1).id) no_permission
  ok l

abbrev pub remove : Env → ℕ → LfsLock → World → Done LfsLock
remove env i l w =
    if env.fails (remove_lock i)
    then (w, err store_failed)
    else (record w { locks = keep (λ m. not (m.id == i)) w.locks }, ok l)

-- `UnLock`
unfoldable pub unlock : Env → Place → Text → ℕ → Bool → World → Done LfsLock
unlock env p user i force w = checked (unlock_checks env p user i force w) (remove env i) w

-- A page of locks, with the number of the next one, if the page is full.
abbrev pub next_page : ℕ → ℕ → List LfsLock → Option ℕ
next_page cursor limit ls = if ltb 0 limit && length ls == limit then some (cursor + 1) else none

-- `VerifyLock`: the user's own locks, and those of others.
unfoldable pub verify_lock :
    Env → Place → Text → ℕ → ℕ → World → Outcome (List LfsLock × List LfsLock × Option ℕ)
verify_lock env p user cursor limit w = do
  x ← reader_checks env p user w
  ls ← locks_of_repo env (x.0).id cursor limit w
  ok (
    keep (λ l. l.user_id == (x.1).id) ls,
    keep (λ l. not (l.user_id == (x.1).id)) ls,
    next_page cursor limit ls,
  )

abbrev pub only_of : ℕ → Option LfsLock → List LfsLock
only_of r none = []
only_of r (some l) = if l.repository_id == r then l ∷ [] else []

abbrev pub as_list : Option LfsLock → List LfsLock
as_list none = []
as_list (some l) = l ∷ []

-- `ListLocks`, by key, by path or by page.
unfoldable pub list_lfs_locks :
    Env → Place → Text → ℕ → Text → ℕ → ℕ → World → Outcome (List LfsLock × Option ℕ)
list_lfs_locks env p user i file cursor limit w = do
  x ← reader_checks env p user w
  (if not (i == 0)
      then (lock_by_id env i w >>= λ l. ok (only_of (x.0).id l, none))
      else if not (is_empty file)
      then (lock_by_path env (x.0).id file w >>= λ l. ok (as_list l, none))
      else (locks_of_repo env (x.0).id cursor limit w >>= λ ls. ok (ls, next_page cursor limit ls)))
