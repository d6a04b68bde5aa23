-- ===== src/Repos/Mirrors.antt =====
-- component/repo.go: the mirror of a repository, its row (builder/store/database/mirror.go) and
-- its synchronisation, which is put into the queue or asked of the server for mirrors.
use csghub_server.Prelude.{
  none, some, false, true, Option, any, map, ◌||◌, ◌==◌, Text, Bool, not, if◌then◌else◌, List, [],
  ◌∷◌, ◌++◌, keep, ℕ, suc,
}
pub mod Owned
pub mod Saas
pub mod Guard
pub mod Table
pub mod Unique
pub mod Kept
mod Examples
use csghub_server.Repos.Store.{
  write_repo, ◌>>=◌, Repository, World, Env, Place, Outcome, ok, err, guard, ◌>>=◌, no_permission,
  store_failed, not_found,
}
use csghub_server.Repos.Access.{check_current_user_permission}
use csghub_server.Org.Role.{admin}
use csghub_server.Mirror.Sync.{MirrorTask, SyncStatus, MirrorStatus}

pub data GitServer : Type 0 where
  gitea gitaly other_server : GitServer

-- No status is the empty text of a new row.
pub record Mirror : Type 0 where
  pub id : ℕ
  pub interval : Text
  pub source_url : Text
  pub mirror_source_id : ℕ
  pub username : Text
  pub access_token : Text
  pub push_url : Text
  pub push_username : Text
  pub push_access_token : Text
  pub repository_id : ℕ
  pub source_repo_path : Text
  pub local_repo_path : Text
  pub mirror_task_id : ℕ
  pub status : Option MirrorStatus
  pub priority : ℕ
  pub created_at : ℕ

-- What the server for mirrors and the git server were asked to do, and did.
pub data MirrorCall : Type 0 where
  -- name, clone address, user and token
  create_mirror_repo : Text → Text → Text → Text → MirrorCall
  sync_mirror_repo : Text → MirrorCall
  -- clone address, user, token and the token of the mirror
  mirror_sync : Place → Text → Text → Text → Text → MirrorCall
  create_git_mirror : Place → Text → Text → MirrorCall

pub data Query : Type 0 where
  is_exist find_by_repo_id find_by_id insert_mirror update_mirror_row delete_mirror_row
        write_status :
      ℕ → Query

-- The tables of repositories and the others, the mirrors with the next key, the statuses of
-- synchronisation that were written to repositories, the tasks that were pushed, and the calls.
pub record MirrorSite : Type 0 where
  pub world : World
  pub mirrors : List Mirror
  pub next_mirror : ℕ
  pub sync_statuses : List (ℕ × SyncStatus)
  pub queue : List MirrorTask
  pub calls : List MirrorCall

-- The configuration, the clock, which calls fail, the key that a server gives to a task, and what the
-- other tables say: the name of a mirror source, the version of a repository's source, and the token
-- of this site.
pub record MirrorEnv : Type 0 where
  pub env : Env
  pub git_server : GitServer
  pub saas : Bool
  pub mirror_token : Text
  pub sync_domain : Text
  pub now : ℕ
  pub fails_query : Query → Bool
  pub answer : MirrorCall → Outcome ℕ
  pub source_name : ℕ → Outcome Text
  pub sync_version : Repository → Text → Outcome ℕ
  pub client_token : Outcome Text

abbrev pub Acted {ℓ} : Type ℓ → Type ℓ
Acted A = MirrorSite × Outcome A

-- The checks read the site; what comes behind them runs only if they all pass.
abbrev pub permitted {ℓ κ} :
    {A : Type ℓ} {B : Type κ} → Outcome A → (A → MirrorSite → Acted B) → MirrorSite → Acted B
permitted (ok a) f s = f a s
permitted (err e) f s = (s, err e)

abbrev pub on_success {ℓ κ} :
    {A : Type ℓ} {B : Type κ} → Acted A → (A → MirrorSite → Acted B) → Acted B
on_success (s, ok a) f = f a s
on_success (s, err e) f = (s, err e)

-- The check that all operations on a mirror but `MirrorFromSaas` begin with.
unfoldable pub admin_check : Env → Text → Text → World → Outcome (Unit {0})
admin_check env user ns w = do
  can ← check_current_user_permission env user ns admin w
  guard can no_permission

abbrev pub first_mirror : ℕ → List Mirror → Option Mirror
first_mirror i [] = none
first_mirror i (m ∷ ms) = if m.repository_id == i then some m else first_mirror i ms

-- `IsExist`
abbrev pub exists_for : MirrorEnv → ℕ → MirrorSite → Outcome Bool
exists_for e i s =
    if e.fails_query (is_exist i)
    then err store_failed
    else ok (any (λ m. m.repository_id == i) s.mirrors)

-- `FindByRepoID`, with no row told apart from another error
unfoldable pub find_mirror : MirrorEnv → ℕ → MirrorSite → Outcome (Option Mirror)
find_mirror e i s =
    if e.fails_query (find_by_repo_id i) then err store_failed else ok (first_mirror i s.mirrors)

abbrev pub or_not_found : Option Mirror → Outcome Mirror
or_not_found none = err not_found
or_not_found (some m) = ok m

unfoldable pub mirror_by_repo_id : MirrorEnv → ℕ → MirrorSite → Outcome Mirror
mirror_by_repo_id e i s = find_mirror e i s >>= or_not_found

-- `Create`, with the key and the time of the database
unfoldable pub create_mirror_row : MirrorEnv → Mirror → MirrorSite → Acted Mirror
create_mirror_row e m s =
    let m' = record m { id = s.next_mirror; created_at = e.now } in
    if e.fails_query (insert_mirror m.repository_id)
    then (s, err store_failed)
    else (record s { mirrors = s.mirrors ++ m' ∷ []; next_mirror = suc s.next_mirror }, ok m')

abbrev pub put_mirror : Mirror → List Mirror → List Mirror
put_mirror m = map (λ x. if x.id == m.id then m else x)

-- `Update`, which is an error if there is no such row
unfoldable pub update_mirror_by_key : MirrorEnv → Mirror → MirrorSite → Acted Mirror
update_mirror_by_key e m s =
    if e.fails_query (update_mirror_row m.id) || not (any (λ x. x.id == m.id) s.mirrors)
    then (s, err store_failed)
    else (record s { mirrors = put_mirror m s.mirrors }, ok m)

-- `Delete`
unfoldable pub delete_mirror_by_key : MirrorEnv → Mirror → MirrorSite → Acted (Unit {0})
delete_mirror_by_key e m s =
    if e.fails_query (delete_mirror_row m.id)
    then (s, err store_failed)
    else (record s { mirrors = keep (λ x. not (x.id == m.id)) s.mirrors }, ok tt)

-- A call of a server, with the key that it answers.
unfoldable pub call_server : MirrorEnv → MirrorCall → MirrorSite → Acted ℕ
call_server e c s = elim (e.answer c) [
  | ok n ↦ (record s { calls = s.calls ++ c ∷ [] }, ok n)
  | err x ↦ (s, err x)
]

abbrev pub push_repo_mirror : MirrorTask → MirrorSite → MirrorSite
push_repo_mirror t s = record s { queue = s.queue ++ t ∷ [] }

abbrev pub is_gitea : GitServer → Bool
is_gitea gitea = true
is_gitea gitaly = false
is_gitea other_server = false

abbrev pub is_gitaly : GitServer → Bool
is_gitaly gitea = false
is_gitaly gitaly = true
is_gitaly other_server = false

-- The status of synchronisation, by `UpdateRepo`
unfoldable pub set_sync_status : MirrorEnv → ℕ → SyncStatus → MirrorSite → Acted (Unit {0})
set_sync_status e i status s =
    if e.env.fails (write_repo i)
    then (s, err store_failed)
    else (record s { sync_statuses = s.sync_statuses ++ (i, status) ∷ [] }, ok tt)
