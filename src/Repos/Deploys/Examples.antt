-- ===== src/Repos/Deploys/Examples.antt =====
-- A deploy of the concrete site, and the theorems at it.
use csghub_server.Repos.Deploys.Stopped.{deploy_stop_lem}
use csghub_server.Prelude.{ℕ, no_rows, Text, codes, true, none, some, [], ◌∷◌, ◌≡◌, ◌≢◌, refl, ◌⊎◌}
use csghub_server.Deploy.Store.{deploy_by_id, Deploy}
use csghub_server.Repos.Deploys.Effects.{deploys-authorized, Administers, Created, Unchanged}
use csghub_server.Repos.Deploys.{
  delete_deploy, service, deploy_update, stop, deploy_start, store_failed, find_deploy,
  no_permission, DeployActReq, check_for_serverless, deploy_stop, DeployEnv, Site, check_deploy,
}
use csghub_server.Org.Store.{store_failed}
use csghub_server.Deploy.Deployer.Service.{exist, code}
use csghub_server.Repos.Deploys.Rights.{check_access_deploy_for_user, allow_access_endpoint}
use csghub_server.Deploy.Deployer.Update.{DeployUpdateReq}
use csghub_server.Repos.Sample.{root, world, env, at_open}
use csghub_server.Repos.Store.{can_admin_site, ok, err, not_found, find_by_username}

abbrev deploy4 : Deploy
deploy4 = record {
  id = 4;
  space_id = 0;
  status = 23;
  git_path = codes "models_alice/open";
  git_branch = codes "main";
  env = [];
  secret = [];
  template = [];
  hardware = [];
  image_id = codes "img";
  deploy_name = codes "chat";
  user_id = 1;
  model_id = 6;
  repo_id = 7;
  runtime_framework = codes "vllm";
  container_port = 8000;
  annotation = [];
  min_replica = 1;
  max_replica = 1;
  svc_name = codes "svc4";
  endpoint = [];
  cluster_id = codes "c1";
  secure_level = 2;
  deploy_type = 3;
  user_uuid = [];
  sku = [];
}

abbrev site : Site
site = record {
  world = world;
  hub = record {
    db = record { deploys = deploy4 ∷ record deploy4 { id = 5; repo_id = 8 } ∷ []; tasks = [] };
    next_deploy = 6;
    next_task = 1;
    queued = [];
  };
  cluster = [];
}

abbrev deploy_env : DeployEnv
deploy_env = record {
  env = env;
  finds_deploy = true;
  cluster_works = true;
  check = some (code 0);
  updates_status = true;
  answers = record {
    finds = true;
    updates = true;
    creates = true;
    creates_build = true;
    creates_run = true;
    snowflake = [];
  };
  stores = record { framework = λ i. no_rows; resource = λ i. no_rows; updates = true };
  framework = λ n. err not_found;
  has_cluster = λ c. true;
  format = λ n. [];
  parse = λ t. none;
}

-- A request of a user for the serverless deploy.
abbrev ask_by : Text → DeployActReq
ask_by name = record { place = at_open; current_user = name; deploy_id = 4; deploy_type = 3 }

abbrev no_change : DeployUpdateReq
no_change = record {
  deploy_name = none;
  cluster_id = none;
  env = none;
  resource_id = none;
  runtime_framework_id = none;
  min_replica = none;
  max_replica = none;
  revision = none;
  secure_level = none;
}

deploys-authorized_example :
    (Unchanged site (deploy_stop deploy_env (ask_by (codes "bob")) site)
      ⊎ (Created deploy_env (ask_by (codes "bob")) site
          ⊎ Administers deploy_env (ask_by (codes "bob")) site))
    × (Unchanged site (deploy_start deploy_env (ask_by (codes "bob")) site)
        ⊎ (Created deploy_env (ask_by (codes "bob")) site
            ⊎ Administers deploy_env (ask_by (codes "bob")) site))
    × (Unchanged site (deploy_update deploy_env (ask_by (codes "bob")) no_change site)
        ⊎ (Created deploy_env (ask_by (codes "bob")) site
            ⊎ Administers deploy_env (ask_by (codes "bob")) site))
    × (Unchanged site (delete_deploy deploy_env (ask_by (codes "bob")) site)
        ⊎ Created deploy_env (ask_by (codes "bob")) site)
deploys-authorized_example = deploys-authorized deploy_env (ask_by (codes "bob")) no_change site

-- The administrator of the site stops the deploy of another user: an error, and the row stays.
deploy_stop_example :
    (t : Site) × (deploy_stop deploy_env (ask_by (codes "root")) site ≡ (t, err store_failed))
    × (t.cluster ≡ stop (service 0 (ask_by (codes "root")) deploy4) ∷ [])
    × (deploy_by_id 4 t.hub.db.deploys ≡ some deploy4)
    × ((j : ℕ) → j ≢ 4 → deploy_by_id j t.hub.db.deploys ≡ deploy_by_id j site.hub.db.deploys)
unfolding check_deploy check_for_serverless find_by_username find_deploy can_admin_site exist
deploy_stop_example =
    deploy_stop_lem deploy_env (ask_by (codes "root")) site root deploy4 refl refl refl refl refl
      refl

allow_access_endpoint_test :
    (allow_access_endpoint env (codes "alice") deploy4 world ≡ ok true)
    × (allow_access_endpoint env (codes "bob") deploy4 world ≡ err no_permission)
unfolding allow_access_endpoint check_access_deploy_for_user find_by_username
allow_access_endpoint_test = (refl, refl)
