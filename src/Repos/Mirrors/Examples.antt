-- ===== src/Repos/Mirrors/Examples.antt =====
-- A site with one mirror, and the theorems at it.
use csghub_server.Repos.Mirrors.{err, Mirror, MirrorSite, MirrorEnv, gitaly}
use csghub_server.Repos.Store.{err, Error, ok}
use csghub_server.Prelude.{arith, codes, [], ◌∷◌, some, refl, false, ◌≡◌, ◌⊎◌}
use csghub_server.Repos.Mirrors.Owned.{
  create_mirror_checks, CreateMirrorReq, UpdateMirrorReq, create_mirror, update_mirror,
  delete_mirror, sync_mirror, get_mirror,
}
use csghub_server.Repos.Sample.{world, env, at_open, at_hidden}
use csghub_server.Org.Role.{admin}
use csghub_server.Mirror.Sync.{finished}
use csghub_server.Repos.Mirrors.Saas.{mirror_from_saas, trim_prefix_clone_url}
use csghub_server.Repos.Mirrors.Unique.{HasOneEach}
use csghub_server.Repos.Mirrors.Kept.{mirrors-HasOneEach}
use csghub_server.Repos.Mirrors.Guard.{mirrors-authorized, Untouched}
use csghub_server.Repos.Access.Rights.{Holds}
use csghub_server.Repos.Access.{check_current_user_permission}
use csghub_server.Repos.Store.{namespace_by_path, find_by_path, git_path_of}
use csghub_server.Repos.Mirrors.{admin_check, create_mirror_row, update_mirror_by_key}

abbrev mirror : Mirror
mirror = record {
  id = 4;
  interval = codes "8h";
  source_url = codes "https://b/x.git";
  mirror_source_id = 1;
  username = [];
  access_token = [];
  push_url = [];
  push_username = [];
  push_access_token = [];
  repository_id = 7;
  source_repo_path = codes "x";
  local_repo_path = codes "b_x";
  mirror_task_id = 0;
  status = some finished;
  priority = 1;
  created_at = 100;
}

abbrev site : MirrorSite
site = record {
  world = world;
  mirrors = mirror ∷ [];
  next_mirror = 5;
  sync_statuses = [];
  queue = [];
  calls = [];
}

abbrev mirror_env : MirrorEnv
mirror_env = record {
  env = env;
  git_server = gitaly;
  saas = false;
  mirror_token = [];
  sync_domain = codes "https://hub";
  now = 200;
  fails_query = λ q. false;
  answer = λ c. ok 1;
  source_name = λ i. ok (codes "b");
  sync_version = λ r t. ok 0;
  client_token = ok (codes "t");
}

abbrev to_create : CreateMirrorReq
to_create = record {
  place = at_hidden;
  current_user = codes "alice";
  interval = codes "8h";
  source_url = codes "https://b/y.git";
  mirror_source_id = 1;
  username = [];
  access_token = [];
  push_url = [];
  source_repo_path = codes "y";
}

abbrev to_update : UpdateMirrorReq
to_update = record {
  place = at_open;
  current_user = codes "alice";
  interval = codes "1h";
  source_url = codes "https://b/x.git";
  mirror_source_id = 1;
  username = [];
  access_token = [];
  push_url = [];
  source_repo_path = codes "x";
}

-- The mirror of the hidden repository is made and put into the queue with no priority.
created_test :
    (create_mirror mirror_env to_create site).0.queue
    ≡ record { mirror_id = 5; priority = 0; created_at = 200; mirror_token = [] } ∷ []
unfolding create_mirror create_mirror_checks admin_check check_current_user_permission
    namespace_by_path find_by_path git_path_of create_mirror_row update_mirror_by_key
created_test = refl

-- The prefix is `CSG_`, and no longer one.
address_test :
    trim_prefix_clone_url
      (codes "https://h")
      (record { repo_type = codes "model"; namespace = codes "OpenCSG_n"; name = codes "m" })
      0
    ≡ codes "https://h/models/OpenCSG_n/m.git"
unfolding trim_prefix_clone_url
address_test = refl

mirrors-authorized_example :
    (Untouched site (create_mirror mirror_env to_create site)
      ⊎ Holds env world (codes "alice") (codes "alice") admin)
    × (Untouched site (update_mirror mirror_env to_update site)
        ⊎ Holds env world (codes "alice") (codes "alice") admin)
    × (Untouched site (delete_mirror mirror_env at_open (codes "bob") site)
        ⊎ Holds env world (codes "bob") (codes "alice") admin)
    × (Untouched site (sync_mirror mirror_env at_open (codes "bob") site)
        ⊎ Holds env world (codes "bob") (codes "alice") admin)
    × (((x : Error) × (get_mirror mirror_env at_open (codes "bob") site ≡ err x))
        ⊎ Holds env world (codes "bob") (codes "alice") admin)
mirrors-authorized_example =
    mirrors-authorized mirror_env site to_create to_update at_open (codes "bob")

site-HasOneEach : HasOneEach site
site-HasOneEach = record { below = (omega arith, tt); keys = (refl, tt); one_each = (refl, tt) }

mirrors-HasOneEach_example :
    HasOneEach (create_mirror mirror_env to_create site).0
    × HasOneEach (update_mirror mirror_env to_update site).0
    × HasOneEach (delete_mirror mirror_env at_open (codes "alice") site).0
    × HasOneEach (sync_mirror mirror_env at_open (codes "alice") site).0
    × HasOneEach (mirror_from_saas mirror_env at_open (codes "alice") site).0
mirrors-HasOneEach_example =
    mirrors-HasOneEach mirror_env site to_create to_update at_open (codes "alice") site-HasOneEach
