-- ===== src/Repos/Mirrors/Saas.antt =====
-- component/repo.go: `MirrorFromSaas` and `mirrorFromSaasSync`, the mirror of a repository of the
-- hub's own service; common/utils/common/sync_version.go: the address that it is cloned from.
use csghub_server.Org.Store.{store_failed}
use csghub_server.Repos.Mirrors.{
  store_failed, write_repo, MirrorSite, MirrorEnv, Mirror, Acted, permitted, on_success,
  find_mirror, set_sync_status, create_mirror_row, call_server, push_repo_mirror, is_gitea,
  is_gitaly, create_git_mirror, mirror_sync,
}
use csghub_server.Repos.Store.{write_repo, Repository, Place, Outcome, ok, err, ◌>>=◌, find_by_path}
use csghub_server.Prelude.{Text, codes, if◌then◌else◌, Option, none, some, [], ◌∷◌, ◌++◌, ◌==◌, ℕ}
use csghub_server.Deploy.CloneUrl.{trim_prefix}
use csghub_server.Mirror.Sync.{MirrorTask, pending, in_progress}
use csghub_server.Repos.Deploys.Rights.{find_by_id}

-- `getprefixBySourceID`: 0 is OpenCSG and 1 is Hugging Face.
abbrev pub prefix_by_source_id : ℕ → Text
prefix_by_source_id i = if i == 0 then codes "CSG_" else if i == 1 then codes "HF_" else []

-- `TrimPrefixCloneURLBySourceID`
unfoldable pub trim_prefix_clone_url : Text → Place → ℕ → Text
trim_prefix_clone_url url p i =
    url
    ++ (b'/'
        ∷ (p.repo_type
            ++ (codes "s/"
                ++ (trim_prefix p.namespace (prefix_by_source_id i)
                    ++ (b'/' ∷ (p.name ++ codes ".git"))))))

abbrev pub saas_task : Text → Mirror → MirrorTask
saas_task token m = record {
  mirror_id = m.id;
  priority = m.priority;
  created_at = m.created_at;
  mirror_token = token;
}

abbrev pub saas_mirror : MirrorEnv → Place → Text → Repository → ℕ → Mirror
saas_mirror e p user r version = record {
  id = 0;
  interval = [];
  source_url = trim_prefix_clone_url e.sync_domain p version;
  mirror_source_id = 0;
  username = user;
  access_token = e.mirror_token;
  push_url = [];
  push_username = [];
  push_access_token = [];
  repository_id = r.id;
  source_repo_path = p.namespace ++ (b'/' ∷ p.name);
  local_repo_path = [];
  mirror_task_id = 0;
  status = none;
  priority = 0;
  created_at = 0;
}

abbrev pub saas_checks : MirrorEnv → Place → Text → Repository → Outcome (Mirror × Text)
saas_checks e p user r = do
  version ← e.sync_version r p.repo_type
  token ← e.client_token
  ok (saas_mirror e p user r version, token)

-- The mirror is made at the git server and stored; with Gitaly it waits in the queue.
unfoldable pub make_from_saas :
    MirrorEnv → Place → Text → Repository → MirrorSite → Acted (Unit {0})
make_from_saas e p user r s =
    permitted (saas_checks e p user r)
      (λ x v. on_success (call_server e (create_git_mirror p x.0.source_url x.1) v) (λ task y.
        on_success (create_mirror_row e (record x.0 { mirror_task_id = task }) y) (λ m z.
          if is_gitaly e.git_server
          then set_sync_status e r.id pending (push_repo_mirror (saas_task x.1 m) z)
          else set_sync_status e r.id in_progress z)))
      s

abbrev pub sync_checks : MirrorEnv → Mirror → MirrorSite → Outcome (Text × Repository)
sync_checks e m s = do
  token ← e.client_token
  r ← find_by_id e.env m.repository_id s.world
  ok (token, r)

-- `UpdateRepo` writes the row as it was read, unless there is a new status.
abbrev pub write_back : MirrorEnv → ℕ → MirrorSite → Acted (Unit {0})
write_back e i s = if e.env.fails (write_repo i) then (s, err store_failed) else (s, ok tt)

unfoldable pub mirror_from_saas_sync : MirrorEnv → Place → Mirror → MirrorSite → Acted (Unit {0})
mirror_from_saas_sync e p m s =
    permitted (sync_checks e m s)
      (λ x v.
        if is_gitea e.git_server
        then on_success (call_server e (mirror_sync p [] [] [] x.0) v)
            (λ n y. write_back e x.1.id y)
        else if is_gitaly e.git_server
        then set_sync_status e x.1.id pending (push_repo_mirror (saas_task x.0 m) v)
        else write_back e x.1.id v)
      s

abbrev pub by_mirror :
    MirrorEnv → Place → Text → Repository → Option Mirror → MirrorSite → Acted (Unit {0})
by_mirror e p user r none s = make_from_saas e p user r s
by_mirror e p user r (some m) s = mirror_from_saas_sync e p m s

unfoldable pub mirror_from_saas : MirrorEnv → Place → Text → MirrorSite → Acted (Unit {0})
mirror_from_saas e p user s =
    permitted (find_by_path e.env p s.world)
      (λ r v. permitted (find_mirror e r.id v) (by_mirror e p user r) v) s
