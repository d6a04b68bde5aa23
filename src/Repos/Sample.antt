-- ===== src/Repos/Sample.antt =====
-- A concrete site with three users, an organization, a public and a private repository.
use csghub_server.Prelude.{codes, true, false, [], ◌∷◌, text_eq, if◌then◌else◌}
use csghub_server.Repos.Store.{Repository, User, World, Env, Place, ok, err, not_found, git_path_of}
use csghub_server.Org.Role.{write}

abbrev pub alice : User
alice = record { id = 1; username = codes "alice"; email = codes "a@x"; role_mask = [] }

abbrev pub bob : User
bob = record { id = 2; username = codes "bob"; email = codes "b@x"; role_mask = [] }

abbrev pub root : User
root = record { id = 3; username = codes "root"; email = codes "r@x"; role_mask = codes "admin" }

abbrev pub open_repo : Repository
open_repo = record {
  id = 7;
  user_id = 1;
  path = codes "alice/open";
  git_path = codes "models_alice/open";
  name = codes "open";
  nickname = codes "open";
  description = [];
  private = false;
  license = [];
  default_branch = codes "main";
  http_clone_url = [];
  ssh_clone_url = [];
  repository_type = codes "model";
}

abbrev pub hidden_repo : Repository
hidden_repo = record open_repo {
  id = 8;
  path = codes "alice/hidden";
  git_path = codes "models_alice/hidden";
  name = codes "hidden";
  private = true;
}

abbrev pub world : World
world = record {
  repos = open_repo ∷ hidden_repo ∷ [];
  next_id = 9;
  frameworks = 8 ∷ [];
  likes = 7 ∷ 8 ∷ [];
  namespaces =
      record { id = 1; path = codes "alice"; namespace_type = codes "user" }
      ∷ record { id = 2; path = codes "lab"; namespace_type = codes "organization" }
      ∷ [];
  users = alice ∷ bob ∷ root ∷ [];
  ssh_keys = [];
  git = [];
  tags = [];
  objects = [];
  lfs_metas = [];
  touched = [];
  relations = (7, 8) ∷ (8, 7) ∷ (7, 7) ∷ [];
  locks = [];
  next_lock = 1;
}

-- Bob may write in the organization; no call fails.
abbrev pub env : Env
env = record {
  fails = λ c. false;
  member_role = λ org user. if text_eq user (codes "bob") then ok write else err not_found;
  created = λ p. record {
    git_path = git_path_of p;
    default_branch = codes "main";
    http_clone_url = [];
    ssh_clone_url = [];
  };
  git_token = λ user. ok (codes "token");
}

abbrev pub at_open : Place
at_open = record { repo_type = codes "model"; namespace = codes "alice"; name = codes "open" }

abbrev pub at_hidden : Place
at_hidden = record { repo_type = codes "model"; namespace = codes "alice"; name = codes "hidden" }

abbrev pub at_lab : Place
at_lab = record { repo_type = codes "model"; namespace = codes "lab"; name = codes "new" }
