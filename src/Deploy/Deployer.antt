-- ===== src/Deploy/Deployer.antt =====
-- builder/deploy/deployer.go, the part that starts a deploy: `Deploy`, `StartDeploy` and what they
-- call. Which calls of the store work is an argument; a call that does not work changes no table.
use csghub_server.Deploy.Hub.{
  Hub, Answers, Result, ◌>=>◌, later, latest_of, get_latest_deploy_by_space_id, is_serverless_of,
  first_serverless, get_serverless_deploy_by_rep_id, create_deploy, create_deploy_task, queue,
}
use csghub_server.Deploy.AppName.{unique_space_app_name}
use csghub_server.Deploy.Repo.{panicked, refused, ◌>>=◌, made, path_field, Made}
use csghub_server.Deploy.Request.{serverless_type, space_type}
use csghub_server.Deploy.Store.{update_deploy, Db, Deploy}
use csghub_server.Prelude.{
  fetched, codes, Text, ℕ, suc, ◌+◌, Bool, true, false, not, ◌&&◌, Option, none, some, List, [],
  ◌∷◌, ◌++◌, if◌then◌else◌, ◌==◌, ltb, ◌≡◌, pos, ℤ, any, Fetched, found, no_rows, failed,
}
pub mod Building
pub mod Starting
pub mod Update
pub mod Service
pub mod Resources
mod Examples
use csghub_server.Deploy.Status.Task
use csghub_server.Deploy.Status

pub record DeployRepo : Type 0 where
  pub deploy_id : ℕ
  pub deploy_name : Text
  pub space_id : ℕ
  pub path : Text
  pub namespace : Text
  pub name : Text
  pub git_branch : Text
  pub env : Text
  pub secret : Text
  pub template : Text
  pub hardware : Text
  pub image_id : Text
  pub user_id : ℕ
  pub model_id : ℕ
  pub repo_id : ℕ
  pub runtime_framework : Text
  pub container_port : ℕ
  pub annotation : Text
  pub min_replica : ℕ
  pub max_replica : ℕ
  pub svc_name : Text
  pub cluster_id : Text
  pub secure_level : ℕ
  pub deploy_type : ℕ
  pub user_uuid : Text
  pub sku : Text
  pub instance_name : Text

-- `UniqueSpaceAppName` of the two fields of the path
abbrev pub name_by_path : Text → DeployRepo → ℕ → Made Text
name_by_path prefix dr i = path_field dr.path 0 >>= λ ns.
    path_field dr.path 1 >>= λ n. made (unique_space_app_name prefix ns n i)

unfoldable pub generate_unique_svc_name : Answers → DeployRepo → Made Text
generate_unique_svc_name a dr =
    if dr.deploy_type == space_type
    then name_by_path (codes "u") dr dr.space_id
    else if dr.deploy_type == serverless_type
    then name_by_path (codes "s") dr dr.repo_id
    else made a.snowflake

abbrev pub reset : DeployRepo → Deploy → Deploy
reset dr d = record d { user_uuid = dr.user_uuid; sku = dr.sku; image_id = dr.image_id }

-- The deploy that was found is written back with user, resource and image of the request.
abbrev pub reuse : Answers → DeployRepo → Fetched Deploy → Hub → Result (Option Deploy)
reuse a dr no_rows h = (h, made none)
reuse a dr failed h = (h, refused (codes "fail to find space or serverless deploy"))
reuse a dr (found d) h =
    if a.updates
    then (record h { db = update_deploy (reset dr d) h.db }, made (some (reset dr d)))
    else (h, refused (codes "fail reset deploy image"))

unfoldable pub serverless_deploy : Answers → DeployRepo → Hub → Result (Option Deploy)
serverless_deploy a dr h =
    let latest = get_latest_deploy_by_space_id a.finds dr.space_id h.db in
    let serverless = get_serverless_deploy_by_rep_id a.finds dr.repo_id h.db in
    reuse a dr (if dr.deploy_type == space_type then latest else serverless) h

abbrev pub new_deploy : DeployRepo → Text → Deploy
new_deploy dr svc = record {
  id = 0;
  space_id = dr.space_id;
  status = Status.pending;
  git_path = dr.path;
  git_branch = dr.git_branch;
  env = dr.env;
  secret = dr.secret;
  template = dr.template;
  hardware = dr.hardware;
  image_id = dr.image_id;
  deploy_name = dr.deploy_name;
  user_id = dr.user_id;
  model_id = dr.model_id;
  repo_id = dr.repo_id;
  runtime_framework = dr.runtime_framework;
  container_port = dr.container_port;
  annotation = dr.annotation;
  min_replica = dr.min_replica;
  max_replica = dr.max_replica;
  svc_name = svc;
  endpoint = [];
  cluster_id = dr.cluster_id;
  secure_level = dr.secure_level;
  deploy_type = dr.deploy_type;
  user_uuid = dr.user_uuid;
  sku = dr.sku;
}

abbrev pub create_named : Answers → DeployRepo → Made Text → Hub → Result Deploy
create_named a dr (made []) h = (h, refused (codes "fail to generate uuid for deploy"))
create_named a dr (made (c ∷ svc)) h = create_deploy a.creates (new_deploy dr (c ∷ svc)) h
create_named a dr (refused e) h = (h, refused e)
create_named a dr panicked h = (h, panicked)

unfoldable pub dedicated_deploy : Answers → DeployRepo → Hub → Result Deploy
dedicated_deploy a dr = create_named a dr (generate_unique_svc_name a dr)

abbrev pub or_dedicated : Answers → DeployRepo → Option Deploy → Hub → Result Deploy
or_dedicated a dr none h = dedicated_deploy a dr h
or_dedicated a dr (some d) h = (h, made d)

abbrev pub is_reusable : DeployRepo → Bool
is_reusable dr = if dr.deploy_type == space_type then true else dr.deploy_type == serverless_type

unfoldable pub build_deploy : Answers → DeployRepo → Hub → Result Deploy
build_deploy a dr h =
    (if is_reusable dr then serverless_deploy a dr h else (h, made none)) >=> or_dedicated a dr

-- `len(strings.Trim(image, " ")) > 0`
abbrev pub has_image : Text → Bool
has_image = any (λ c. not (c == b' '))

abbrev pub build_status : Deploy → ℤ
build_status d = if has_image d.image_id then Task.build_skip else pos 0

abbrev pub build_message : Deploy → Text
build_message d = if has_image d.image_id then codes "Skip" else []

-- The two tasks of a deploy; the scheduler is told of the first one.
abbrev pub start_tasks : Answers → Deploy → Hub → Result ℕ
start_tasks a d h =
    let (h1, build_id) =
      create_deploy_task a.creates_build 0 (build_status d) (build_message d) d.id h in
    let (h2, run_id) = create_deploy_task a.creates_run 1 (pos 0) [] d.id h1 in
    (queue (h2, build_id), made d.id)

unfoldable pub deploy : Answers → DeployRepo → Hub → Result ℕ
deploy a dr h = build_deploy a dr h >=> start_tasks a

-- `StartDeploy`
unfoldable pub start_deploy : Answers → Deploy → Hub → Result (Unit {0})
start_deploy a d h =
    let pending = record d { status = Status.pending } in
    let h1 = record h { db = update_deploy pending h.db } in
    if a.updates
    then (queue (create_deploy_task a.creates_run 1 (pos 0) [] d.id h1), made tt)
    else (h, refused (codes "failed to update deploy"))
