-- ===== src/Repos/Mirrors/Owned.antt =====
-- component/repo.go: `CreateMirror`, `GetMirror`, `UpdateMirror`, `DeleteMirror` and `SyncMirror`,
-- which are for those who administer the namespace.
use csghub_server.Prelude.{leb, Text, not, ◌&&◌, if◌then◌else◌, [], ◌∷◌, ◌++◌, ℕ, none, some}
use csghub_server.Mirror.Sync.{MirrorTask, waiting}
use csghub_server.Repos.Mirrors.{
  MirrorSite, MirrorEnv, Mirror, Acted, permitted, on_success, admin_check, exists_for,
  mirror_by_repo_id, create_mirror_row, update_mirror_by_key, delete_mirror_by_key, call_server,
  push_repo_mirror, is_gitea, is_gitaly, create_mirror_repo, sync_mirror_repo, mirror_sync,
}
use csghub_server.Repos.Store.{
  Repository, Place, Outcome, ok, ◌>>=◌, ◌>>◌, guard, find_by_path, already_exists,
}

-- But for the fields that no operation reads.
pub record CreateMirrorReq : Type 0 where
  pub place : Place
  pub current_user : Text
  pub interval : Text
  pub source_url : Text
  pub mirror_source_id : ℕ
  pub username : Text
  pub access_token : Text
  pub push_url : Text
  pub source_repo_path : Text

abbrev pub UpdateMirrorReq : Type 0
UpdateMirrorReq = CreateMirrorReq

-- `PriorityMap`, where a missing key gives 0
abbrev pub priority_map : ℕ → ℕ
priority_map p = if leb p 3 then p else 0

abbrev pub repo_task : ℕ → Mirror → MirrorTask
repo_task p m = record {
  mirror_id = m.id;
  priority = p;
  created_at = m.created_at;
  mirror_token = [];
}

-- `fmt.Sprintf("%s_%s_%s_%s", …)`
abbrev pub local_path : Text → Place → Text
local_path source p = source ++ (b'_' ∷ (p.repo_type ++ (b'_' ∷ (p.namespace ++ (b'_' ∷ p.name)))))

-- The mirror before it has a key. The user and the token to push with are set for SaaS with Gitea only.
abbrev pub new_mirror : MirrorEnv → CreateMirrorReq → Repository → Text → Text → Mirror
new_mirror e q r source token =
    let pushes = e.saas && is_gitea e.git_server in
    record {
      id = 0;
      interval = q.interval;
      source_url = q.source_url;
      mirror_source_id = q.mirror_source_id;
      username = q.username;
      access_token = q.access_token;
      push_url = r.http_clone_url;
      push_username = if pushes then q.current_user else [];
      push_access_token = if pushes then token else [];
      repository_id = r.id;
      source_repo_path = q.source_repo_path;
      local_repo_path = local_path source q.place;
      mirror_task_id = 0;
      status = none;
      priority = 0;
      created_at = 0;
    }

unfoldable pub create_mirror_checks : MirrorEnv → CreateMirrorReq → MirrorSite → Outcome Mirror
create_mirror_checks e q s = do
  admin_check e.env q.current_user q.place.namespace s.world
  r ← find_by_path e.env q.place s.world
  exists ← exists_for e r.id s
  guard (not exists) already_exists
  source ← e.source_name q.mirror_source_id
  token ← e.env.git_token q.current_user
  ok (new_mirror e q r source token)

-- With Gitea the mirror is made at the server for mirrors, or its repository is synchronised.
abbrev pub announce : MirrorEnv → CreateMirrorReq → Mirror → MirrorSite → Acted ℕ
announce e q m s =
    if is_gitea e.git_server
    then (if e.saas
        then call_server e
            (create_mirror_repo m.local_repo_path m.source_url m.username m.access_token) s
        else (on_success
            (call_server e (mirror_sync q.place m.source_url m.username m.access_token []) s)
            (λ n v. (v, ok 0))))
    else (s, ok 0)

-- With Gitaly the mirror is put into the queue.
abbrev pub enqueue : MirrorEnv → ℕ → Mirror → MirrorSite → Acted Mirror
enqueue e p m s =
    if is_gitaly e.git_server
    then update_mirror_by_key e (record m { status = some waiting })
        (push_repo_mirror (repo_task p m) s)
    else (s, ok m)

unfoldable pub create_mirror : MirrorEnv → CreateMirrorReq → MirrorSite → Acted Mirror
create_mirror e q s =
    permitted (create_mirror_checks e q s)
      (λ m v. on_success (announce e q m v) (λ task x.
        on_success (create_mirror_row e (record m { mirror_task_id = task }) x)
          (λ made y. enqueue e (priority_map made.priority) made y)))
      s

-- What the other four begin with.
unfoldable pub mirror_checks : MirrorEnv → Place → Text → MirrorSite → Outcome Mirror
mirror_checks e p user s = do
  admin_check e.env user p.namespace s.world
  r ← find_by_path e.env p s.world
  mirror_by_repo_id e r.id s

unfoldable pub get_mirror : MirrorEnv → Place → Text → MirrorSite → Outcome Mirror
get_mirror e p user s = mirror_checks e p user s

abbrev pub updated_mirror : UpdateMirrorReq → Text → Text → Mirror → Mirror
updated_mirror q source token m = record m {
  interval = q.interval;
  source_url = q.source_url;
  mirror_source_id = q.mirror_source_id;
  username = q.username;
  push_url = q.push_url;
  access_token = q.access_token;
  push_username = q.current_user;
  push_access_token = token;
  source_repo_path = q.source_repo_path;
  local_repo_path = local_path source q.place;
}

unfoldable pub update_mirror_checks : MirrorEnv → UpdateMirrorReq → MirrorSite → Outcome Mirror
update_mirror_checks e q s = do
  m ← mirror_checks e q.place q.current_user s
  source ← e.source_name q.mirror_source_id
  token ← e.env.git_token q.current_user
  ok (updated_mirror q source token m)

unfoldable pub update_mirror : MirrorEnv → UpdateMirrorReq → MirrorSite → Acted Mirror
update_mirror e q s = permitted (update_mirror_checks e q s) (update_mirror_by_key e) s

unfoldable pub delete_mirror : MirrorEnv → Place → Text → MirrorSite → Acted (Unit {0})
delete_mirror e p user s = permitted (mirror_checks e p user s) (delete_mirror_by_key e) s

-- The mirror has the high priority from here on, which is stored with Gitaly only.
unfoldable pub sync_mirror : MirrorEnv → Place → Text → MirrorSite → Acted (Unit {0})
sync_mirror e p user s =
    permitted (mirror_checks e p user s)
      (λ m v.
        let high = record m { priority = 3 } in
        if is_gitea e.git_server
        then on_success (call_server e (sync_mirror_repo m.local_repo_path) v) (λ n x. (x, ok tt))
        else on_success (enqueue e (priority_map 3) high v) (λ made x. (x, ok tt)))
      s
