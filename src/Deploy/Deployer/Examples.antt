-- ===== src/Deploy/Deployer/Examples.antt =====
-- Concrete requests to the deployer, and the theorems at them.
use csghub_server.Deploy.Deployer.{
  suc, ℤ, unique_space_app_name, generate_unique_svc_name, dedicated_deploy, serverless_deploy,
  build_deploy, made, new_deploy, DeployRepo, deploy,
}
use csghub_server.Deploy.Store.{TaskRow, get_deploy_by_id, Db, Deploy}
use csghub_server.Prelude.{
  ℤ, lookup, codes, Text, ℕ, pos, true, none, some, List, [], ◌∷◌, ◌++◌, if◌then◌else◌, ◌==◌, ◌≡◌,
  refl, ◌≢◌, ◌⊎◌, found, no_rows, failed,
}
use csghub_server.Metering.Event.{get_unit_string, row_of}
use csghub_server.Deploy.Deployer.Service.{
  metered, scene_unknow, get_valid_scene_type, StatusResponse, service_status,
  start_accounting_request_meter,
}
use csghub_server.Deploy.Deployer.Service.Metered.{
  service_status-Listed, start_accounting_request_meter_lem, Listed,
}
use csghub_server.Deploy.Deployer.Starting.{deploy_lem, Started}
use csghub_server.Deploy.Deployer.Building.{Fails}
use csghub_server.Deploy.AppName.{unique_space_app_name, number_to_string, normal, encode}
use csghub_server.Deploy.Hub.{
  first_serverless, get_serverless_deploy_by_rep_id, get_latest_deploy_by_space_id, latest_of,
  create_deploy_task, create_deploy, Answers, Hub,
}
use csghub_server.Deploy.Deployer.Resources.{
  check_resource-Roomy, Roomy, without_gi, digits, atoi, check_node, check_nodes, int_le, Hardware,
  NodeResourceInfo, check_resource,
}
use csghub_server.Deploy.Deployer.Update.Effects.{
  update_deploy_fields-cpu_image, update_deploy_fields_lem,
}
use csghub_server.Deploy.Repo.{made}
use csghub_server.Deploy.Deployer.Update.Fields.{Written}
use csghub_server.Deploy.Deployer.Update.{
  DeployUpdateReq, RuntimeFramework, Stores, update_deploy_fields,
}

abbrev demo : DeployRepo
demo = record {
  deploy_id = 7;
  deploy_name = [];
  space_id = 3;
  path = codes "ann/demo";
  namespace = codes "ann";
  name = codes "demo";
  git_branch = codes "main";
  env = [];
  secret = [];
  template = [];
  hardware = [];
  image_id = [];
  user_id = 5;
  model_id = 0;
  repo_id = 9;
  runtime_framework = [];
  container_port = 8080;
  annotation = [];
  min_replica = 1;
  max_replica = 1;
  svc_name = [];
  cluster_id = [];
  secure_level = 1;
  deploy_type = 0;
  user_uuid = codes "u5";
  sku = codes "2";
  instance_name = [];
}

abbrev all_work : Answers
all_work = record {
  finds = true;
  updates = true;
  creates = true;
  creates_build = true;
  creates_run = true;
  snowflake = codes "k3";
}

abbrev empty_hub : Hub
empty_hub = record {
  db = record { deploys = []; tasks = [] };
  next_deploy = 7;
  next_task = 11;
  queued = [];
}

abbrev demo7 : Deploy
demo7 = record (new_deploy demo (codes "u-ann-demo-3")) { id = 7 }

-- A build task with a status, and the run task behind it
abbrev tasks_from : ℕ → ℤ → Text → List TaskRow
tasks_from n status message =
    record { id = n; task_type = 0; status = status; message = message; deploy_id = 7 }
    ∷ record { id = suc n; task_type = 1; status = pos 0; message = []; deploy_id = 7 }
    ∷ []

-- The first deploy of a space makes a row, the second one uses it again.
deployed_twice :
    (deploy all_work (record demo { image_id = codes "img" }) (deploy all_work demo empty_hub).0).0
    ≡ record {
      db = record {
        deploys = record demo7 { image_id = codes "img" } ∷ [];
        tasks = tasks_from 11 (pos 0) [] ++ tasks_from 13 (pos 4) (codes "Skip");
      };
      next_deploy = 8;
      next_task = 15;
      queued = 11 ∷ 13 ∷ [];
    }
unfolding deploy build_deploy serverless_deploy dedicated_deploy create_deploy create_deploy_task
    latest_of get_latest_deploy_by_space_id get_serverless_deploy_by_rep_id first_serverless
    generate_unique_svc_name unique_space_app_name number_to_string normal encode
deployed_twice = refl

deploy_example :
    Fails empty_hub (deploy all_work demo empty_hub)
    ⊎ ((i : ℕ) × ((deploy all_work demo empty_hub).1 ≡ made i)
        × Started demo empty_hub (deploy all_work demo empty_hub).0 i)
deploy_example = deploy_lem all_work demo empty_hub tt refl refl

abbrev frame : RuntimeFramework
frame = record {
  id = 4;
  frame_name = codes "vllm";
  frame_image = codes "vllm:gpu";
  frame_cpu_image = codes "vllm:cpu";
  container_port = 8000;
}

abbrev stores : Stores
stores = record {
  framework = λ i. if i == 4 then found frame else no_rows;
  resource = λ i. failed;
  updates = true;
}

abbrev new_frame : DeployUpdateReq
new_frame = record {
  deploy_name = none;
  cluster_id = none;
  env = none;
  resource_id = none;
  runtime_framework_id = some 4;
  min_replica = some 2;
  max_replica = some 3;
  revision = some (codes "v2");
  secure_level = none;
}

-- A deploy with a GPU
abbrev on_gpu : Deploy
on_gpu = record demo7 { hardware = codes "gpu"; image_id = codes "vllm:gpu" }

abbrev db7 : Db
db7 = record { deploys = on_gpu ∷ []; tasks = [] }

update_deploy_fields_example :
    Written
      (λ n. codes "2")
      (λ t. some (codes "1"))
      stores
      new_frame
      on_gpu
      db7
      (update_deploy_fields (λ n. codes "2") (λ t. some (codes "1")) stores new_frame on_gpu db7)
update_deploy_fields_example =
    update_deploy_fields_lem (λ n. codes "2") (λ t. some (codes "1")) stores new_frame on_gpu db7

update_deploy_fields-cpu_image_test :
    ((update_deploy_fields
        (λ n. codes "2")
        (λ t. some (codes "1"))
        stores
        new_frame
        on_gpu
        db7).0.image_id
      ≡ codes "vllm:cpu")
    × ((update_deploy_fields
          (λ n. codes "2")
          (λ t. some (codes "1"))
          stores
          new_frame
          on_gpu
          db7).0.hardware
        ≡ codes "gpu")
update_deploy_fields-cpu_image_test =
    update_deploy_fields-cpu_image (λ n. codes "2") (λ t. some (codes "1")) stores new_frame 4 frame
      on_gpu db7 refl refl refl

abbrev response : StatusResponse
response = record {
  deploy_id = 7;
  user_id = codes "u5";
  code = 23;
  instances = [];
  deploy_type = 0;
  service_name = codes "u-ann-demo-3";
  deploy_sku = codes "2";
}

abbrev cache : List (Text × StatusResponse)
cache = (codes "u-ann-demo-3", response) ∷ []

service_status-Listed_test : (d : Deploy) × (get_deploy_by_id 7 db7 ≡ found d) × Listed cache d
unfolding service_status lookup
service_status-Listed_test = service_status-Listed true demo none cache db7 refl

abbrev resources : List (Text × Text)
resources = (codes "2", codes "small") ∷ []

start_accounting_request_meter_test :
    (response.code ≡ 23)
    × ((name : Text) × (lookup (codes "2") resources ≡ some name) × (codes "small" ≡ name))
    × (get_valid_scene_type 0 ≢ scene_unknow)
    × ((metered 5 (codes "e1") 100 response (codes "small")).value ≡ pos 5)
    × (get_unit_string (get_valid_scene_type 0) ≡ codes "minute")
    × (response.user_id ≡ codes "u5")
    × (response.service_name ≡ codes "u-ann-demo-3")
unfolding start_accounting_request_meter lookup row_of
start_accounting_request_meter_test =
    start_accounting_request_meter_lem 5 (codes "e1") 100 resources response
      (metered 5 (codes "e1") 100 response (codes "small")) refl

-- Whole gigabytes and CPUs as numbers, in place of floats
abbrev node : NodeResourceInfo ℕ ℕ (λ z n. int_le z (pos n)) (λ n. pos n)
node = record {
  xpu_model = codes "A10";
  available_cpu = 8;
  available_xpu = pos 2;
  available_mem = 32;
}

abbrev wanted : Hardware
wanted = record {
  memory = codes "16Gi";
  gpu_num = codes "1";
  gpu_type = codes "A10";
  cpu_num = codes "4";
}

check_resource-Roomy_test : Roomy ℕ ℕ (λ z n. int_le z (pos n)) (λ n. pos n) wanted (node ∷ [])
unfolding check_resource check_nodes check_node atoi digits without_gi
check_resource-Roomy_test =
    check_resource-Roomy ℕ ℕ (λ z n. int_le z (pos n)) (λ n. pos n) wanted (node ∷ []) refl
