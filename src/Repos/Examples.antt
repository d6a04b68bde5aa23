-- ===== src/Repos/Examples.antt =====
-- The theorems on rights, pulls and pushes, and on creating and deleting, at a concrete site.
use csghub_server.Repos.Git.{upload, receive, serve_info_refs, git_receive_pack, git_upload_pack}
use csghub_server.Repos.Store.{
  upload_pack, can_admin_site, namespace_by_path, Repository, World, ok, err, Error, Refused,
  not_found, git_path_of, find_by_path, find_by_username, namespace_and_name, info_refs,
  receive_pack, delete_repo, create_repo,
}
use csghub_server.Repos.Sample.{bob, open_repo, hidden_repo, world, env, at_open, at_hidden, at_lab}
use csghub_server.Repos.Related.Shown.{related_repos_lem}
use csghub_server.Repos.Related.{
  or_empty, by_type, compact, insert_sorted, sort, repos_by_ids, ids_to, ids_from, related_repos,
}
use csghub_server.Prelude.{
  insert, codes, true, false, none, some, [], ◌∷◌, ◌≡◌, ◌≢◌, refl, ◌↔◌, ◌⊎◌, In, lookup,
}
use csghub_server.Repos.Access.{
  visible_to_user, allow_admin_access, allow_read_access_repo, check_current_user_permission,
  allow_write_access, allow_read_access, get_user_repo_permission,
}
use csghub_server.Org.Role.{read, write, admin}
use csghub_server.Repos.Manage.Stored.{create_repository-find, delete_repository-gone}
use csghub_server.Repos.Manage.Guard.{manage-authorized, IsSiteAdmin, InCharge}
use csghub_server.Repos.Manage.{
  creation, update_repository, delete_repository, may_manage, CreateRepoReq, UpdateRepoReq,
  create_checks, create_repository, delete_checks,
}
use csghub_server.Repos.Access.Rights.{allow_access_lem, get_user_repo_permission_lem, Holds}
use csghub_server.Repos.Git.Guard.{git_http-authorized, git_http_decided, May, Decides}

allow_access_example :
    ((allow_read_access env at_hidden (codes "alice") world ≡ ok true)
      ↔ ((codes "alice" ≢ []) × Holds env world (codes "alice") (codes "alice") read))
    × ((allow_write_access env at_hidden (codes "alice") world ≡ ok true)
        ↔ ((codes "alice" ≢ []) × Holds env world (codes "alice") (codes "alice") write))
    × ((allow_admin_access env at_hidden (codes "alice") world ≡ ok true)
        ↔ ((codes "alice" ≢ []) × Holds env world (codes "alice") (codes "alice") admin))
unfolding find_by_path git_path_of namespace_and_name
allow_access_example =
    allow_access_lem env at_hidden (codes "alice") (codes "alice") (codes "hidden") world
      hidden_repo refl refl refl

get_user_repo_permission_example :
    (allow_read_access_repo env hidden_repo (codes "bob") world ≡ ok false)
    × (check_current_user_permission env (codes "bob") (codes "alice") write world ≡ ok false)
    × (check_current_user_permission env (codes "bob") (codes "alice") admin world ≡ ok false)
unfolding get_user_repo_permission namespace_and_name namespace_by_path
get_user_repo_permission_example =
    get_user_repo_permission_lem env (codes "bob") (codes "alice") (codes "hidden") hidden_repo
      world (record { can_read = false; can_write = false; can_admin = false }) (λ e. cc e) refl
      refl

git_http-authorized_example :
    (Refused world (git_upload_pack env at_hidden (codes "bob") world)
      ⊎ Holds env world (codes "bob") (codes "alice") read)
    × (Refused world (serve_info_refs env at_hidden (codes "git-upload-pack") (codes "bob") world)
        ⊎ Holds env world (codes "bob") (codes "alice") read)
    × (Refused world (git_receive_pack env at_hidden (codes "bob") world)
        ⊎ Holds env world (codes "bob") (codes "alice") write)
    × (Refused world (serve_info_refs env at_hidden receive (codes "bob") world)
        ⊎ Holds env world (codes "bob") (codes "alice") write)
unfolding find_by_path git_path_of namespace_and_name
git_http-authorized_example =
    git_http-authorized env at_hidden (codes "bob") (codes "alice") (codes "hidden") world
      hidden_repo refl refl refl (codes "git-upload-pack") (λ e. cc e)

-- The stranger is refused in fact.
stranger_is_refused :
    (git_upload_pack env at_hidden (codes "bob") world ≡ (world, err Error.forbidden))
    × (git_receive_pack env at_hidden (codes "bob") world ≡ (world, err Error.forbidden))
unfolding git_upload_pack git_receive_pack allow_read_access allow_write_access
    allow_read_access_repo check_current_user_permission find_by_path git_path_of namespace_and_name
    namespace_by_path find_by_username
stranger_is_refused = (refl, refl)

git_http_decided_example :
    Decides env world
      (May env world open_repo (codes "bob") (codes "alice") read)
      (upload_pack at_open)
      (git_upload_pack env at_open (codes "bob") world)
    × Decides env world
        (May env world open_repo (codes "bob") (codes "alice") read)
        (info_refs at_open upload)
        (serve_info_refs env at_open upload (codes "bob") world)
    × Decides env world
        (May env world open_repo (codes "bob") (codes "alice") write)
        (receive_pack at_open 2 (codes "bob"))
        (git_receive_pack env at_open (codes "bob") world)
    × Decides env world
        (May env world open_repo (codes "bob") (codes "alice") write)
        (info_refs at_open receive)
        (serve_info_refs env at_open receive (codes "bob") world)
unfolding find_by_path git_path_of namespace_and_name find_by_username
git_http_decided_example =
    git_http_decided env at_open (codes "bob") (codes "alice") (codes "open") world open_repo refl
      refl upload bob (λ e. cc e) refl

abbrev new_model : CreateRepoReq
new_model = record {
  place = at_lab;
  username = codes "bob";
  nickname = codes "New";
  description = [];
  private = true;
  license = codes "mit";
  default_branch = [];
  readme = [];
}

abbrev hide_open : UpdateRepoReq
hide_open = record {
  place = at_open;
  username = codes "bob";
  private = some true;
  nickname = none;
  description = none;
}

manage-authorized_example :
    (Refused world (create_repository env new_model world)
      ⊎ (InCharge env world (codes "bob") (codes "lab") write
          ⊎ IsSiteAdmin env world (codes "bob")))
    × (Refused world (update_repository env hide_open world)
        ⊎ (InCharge env world (codes "bob") (codes "alice") write
            ⊎ IsSiteAdmin env world (codes "bob")))
    × (Refused world (delete_repository env at_hidden (codes "bob") world)
        ⊎ InCharge env world (codes "bob") (codes "alice") admin)
manage-authorized_example = manage-authorized env world new_model hide_open at_hidden (codes "bob")

create_repository-find_example :
    (v : World) × (r : Repository) × (create_repository env new_model world
      ≡ (v, ok (env.created at_lab, r)))
    × (find_by_path env at_lab v ≡ ok r)
    × (r.id ≡ 9)
    × (r.user_id ≡ 2)
    × (r.private ≡ true)
    × (v.git ≡ create_repo at_lab (creation new_model) ∷ [])
unfolding create_checks may_manage check_current_user_permission find_by_path git_path_of
    namespace_by_path find_by_username can_admin_site
create_repository-find_example =
    create_repository-find env (λ c. refl) world new_model bob refl refl refl

delete_repository-gone_test :
    (v : World) × (delete_repository env at_hidden (codes "alice") world ≡ (v, ok hidden_repo))
    × (find_by_path env at_hidden v ≡ err not_found)
    × (¬ In 8 v.frameworks)
    × (¬ In 8 v.likes)
    × (v.git ≡ delete_repo at_hidden ∷ [])
unfolding delete_checks may_manage find_by_path git_path_of namespace_by_path find_by_username
delete_repository-gone_test =
    delete_repository-gone env (λ c. refl) world at_hidden (codes "alice") hidden_repo refl
      (λ h. cc h, (λ h. refl, tt))

related_repos_example :
    or_empty (lookup (codes "model") ((codes "model", open_repo ∷ hidden_repo ∷ []) ∷ []))
    ≡ open_repo ∷ hidden_repo ∷ []
unfolding related_repos ids_from ids_to repos_by_ids sort insert_sorted compact visible_to_user
    by_type lookup insert check_current_user_permission namespace_and_name namespace_by_path
related_repos_example =
    related_repos_lem env 7 (codes "alice") world
      ((codes "model", open_repo ∷ hidden_repo ∷ []) ∷ []) (codes "model") refl
