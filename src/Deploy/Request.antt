-- ===== src/Deploy/Request.antt =====
-- `makeDeployRequest` of builder/deploy/scheduler/deploy_runner.go: what the image runner is asked
-- for. The parsers of JSON and `url.JoinPath` are parameters.
pub mod Env
use csghub_server.Prelude.{
  ℕ, Text, codes, ◌++◌, [], ◌∷◌, List, Bool, true, false, ◌||◌, ◌&&◌, text_eq, is_empty, ◌==◌, ltb,
  if◌then◌else◌, Fetched, found, no_rows, failed, decimal, insert, has_prefix, keep, not,
}
use csghub_server.Deploy.Store.{Deploy}
use csghub_server.Deploy.Repo.{
  gradio, streamlit, nginx, RepoInfo, AccessToken, Made, made, refused, panicked, ◌>>=◌, path_field,
}
use csghub_server.Deploy.Build.{token_or_error}

pub record DeployConfig : Type 0 where
  pub space_deploy_timeout : ℕ  -- minutes
  pub model_deploy_timeout : ℕ  -- minutes
  pub model_download_endpoint : Text
  pub public_root_domain : Text
  pub s3_internal : Bool

-- common/types: the type of a deploy.
abbrev pub space_type : ℕ
space_type = 0

abbrev pub inference_type : ℕ
inference_type = 1

abbrev pub finetune_type : ℕ
finetune_type = 2

abbrev pub serverless_type : ℕ
serverless_type = 3

abbrev pub StringMap : Type 0
StringMap = List (Text × Text)

-- `json.Unmarshal` into a map: a map, the nil map of the text `null`, or an error.
pub data JsonMap : Type 0 where
  parsed : StringMap → JsonMap
  null : JsonMap
  invalid : Text → JsonMap

-- What the standard library does; of the hardware only the number of GPUs is read.
pub record Formats : Type 0 where
  pub json_map : Text → JsonMap
  pub json_gpu_num : Text → Made Text
  pub join_path : Text → Text → Text

-- `strings.Trim(s, " ")` is empty.
abbrev pub is_blank : Text → Bool
is_blank s = is_empty (keep (λ c. not (c == b' ')) s)

-- builder/deploy/common/utils.go, `JsonStrToMap`
unfoldable pub json_str_to_map : Formats → Text → JsonMap
json_str_to_map fm s = if is_blank s then parsed [] else fm.json_map s

-- A write to the nil map panics.
abbrev pub writable : JsonMap → Made StringMap
writable (parsed m) = made m
writable null = panicked
writable (invalid e) = refused e

-- A map that is written after the next step only: the error is returned at once.
abbrev pub readable : JsonMap → Made JsonMap
readable (parsed m) = made (parsed m)
readable null = made null
readable (invalid e) = refused e

abbrev deploy_or_error : Text → Fetched Deploy → Made Deploy
deploy_or_error db_error (found d) = made d
deploy_or_error db_error no_rows =
    refused (codes "fail to get deploy with error :sql: no rows in result set")
deploy_or_error db_error failed = refused (codes "fail to get deploy with error :" ++ db_error)

pub record RunRequest : Type 0 where
  pub id : ℕ
  pub org_name : Text
  pub repo_name : Text
  pub repo_type : Text
  pub user_name : Text
  pub annotation : StringMap
  pub hardware : Text
  pub env : StringMap
  pub git_path : Text
  pub git_ref : Text
  pub image_id : Text
  pub deploy_id : ℕ
  pub min_replica : ℕ
  pub max_replica : ℕ
  pub access_token : Text
  pub cluster_id : Text
  pub svc_name : Text
  pub deploy_type : ℕ
  pub user_id : Text
  pub sku : Text

-- The address behind the two bytes that follow a `:`.
abbrev pub drop_two : Text → Text
drop_two [] = []
drop_two (x ∷ []) = []
drop_two (x ∷ y ∷ xs) = xs

-- `getHttpCloneURLWithToken`: the token goes behind the first `://`.
unfoldable pub with_token : Text → Text → Text
with_token token [] = []
with_token token (c ∷ s) =
    let rest = with_token token s in
    if has_prefix (c ∷ s) (codes "://")
    then codes "://" ++ (token ++ (b'@' ∷ drop_two s))
    else c ∷ rest

abbrev pub bool_text : Bool → Text
bool_text true = codes "true"
bool_text false = codes "false"

-- The variables of every deploy, over those that its owner gave.
abbrev pub common_env : DeployConfig → RepoInfo → Text → Deploy → Text → StringMap → StringMap
common_env cfg r token d gpu env =
    let e1 = insert (codes "S3_INTERNAL") (bool_text cfg.s3_internal) env in
    let e2 = insert (codes "HTTPCloneURL") (with_token token r.http_clone_url) e1 in
    let e3 = insert (codes "ACCESS_TOKEN") token e2 in
    let e4 = insert (codes "REPO_ID") r.path e3 in
    let e5 = insert (codes "REVISION") d.git_branch e4 in
    if is_empty gpu then e5 else insert (codes "GPU_NUM") gpu e5

abbrev pub sdk_port : Text → Text
sdk_port sdk =
    if text_eq sdk gradio.name
    then gradio.port
    else if text_eq sdk streamlit.name
    then streamlit.port
    else if text_eq sdk nginx.name
    then nginx.port
    else codes "8080"

abbrev pub space_env : RepoInfo → Deploy → StringMap → StringMap
space_env r d env = if ltb 0 d.space_id then insert (codes "port") (sdk_port r.sdk) env else env

abbrev pub inference_env : DeployConfig → Deploy → StringMap → StringMap
inference_env cfg d env =
    if d.deploy_type == inference_type || d.deploy_type == serverless_type
    then insert (codes "HF_HUB_OFFLINE") (codes "1") (
        insert (codes "HF_ENDPOINT") cfg.model_download_endpoint
          (insert (codes "port") (decimal d.container_port) env))
    else env

abbrev pub finetune_env : Formats → DeployConfig → Text → Deploy → StringMap → StringMap
finetune_env fm cfg token d env =
    if d.deploy_type == finetune_type
    then insert (codes "USE_CSGHUB_MODEL") (codes "1") (
        insert (codes "HF_TOKEN") token (
          insert (codes "HF_ENDPOINT") (fm.join_path cfg.model_download_endpoint (codes "hf"))
            (insert (codes "port") (decimal d.container_port) env)))
    else env

abbrev pub endpoint_path : Deploy → Text
endpoint_path d = codes "/endpoint/" ++ d.svc_name

abbrev pub context_env : Deploy → StringMap → StringMap
context_env d env =
    if d.deploy_type == finetune_type
    then insert (codes "CONTEXT_PATH") (endpoint_path d) env
    else env

abbrev pub root_env : Deploy → StringMap → StringMap
root_env d env =
    if d.deploy_type == space_type
    then insert (codes "STREAMLIT_SERVER_BASE_URL_PATH") (endpoint_path d)
        (insert (codes "GRADIO_ROOT_PATH") (endpoint_path d) env)
    else env

abbrev pub domain_env : DeployConfig → Deploy → StringMap → StringMap
domain_env cfg d env =
    if is_empty cfg.public_root_domain then root_env d (context_env d env) else env

-- All of the variables.
unfoldable pub full_env :
    Formats → DeployConfig → RepoInfo → Text → Deploy → Text → StringMap → StringMap
full_env fm cfg r token d gpu env = domain_env cfg d (
    finetune_env fm cfg token d
      (inference_env cfg d (space_env r d (common_env cfg r token d gpu env))))

abbrev pub run_target : Deploy → ℕ
run_target d = if d.space_id == 0 && ltb 0 d.model_id then d.id else d.space_id

-- `stored` is what `GetDeployByID` returned: the deploy is read again at every call.
unfoldable pub make_deploy_request :
    Formats
    → DeployConfig
    → RepoInfo
    → Text
    → Fetched AccessToken
    → Fetched Deploy
    → Made RunRequest
unfolding full_env json_str_to_map
make_deploy_request fm cfg r db_error token stored = do
  t ← token_or_error db_error token
  d ← deploy_or_error db_error stored
  annotation ← readable (json_str_to_map fm d.annotation)
  anno ← writable annotation
  env ← readable (json_str_to_map fm d.env)
  gpu ← fm.json_gpu_num d.hardware
  vars ← writable env
  org ← path_field r.path 0
  name ← path_field r.path 1
  made (record {
    id = run_target d;
    org_name = org;
    repo_name = name;
    repo_type = r.repo_type;
    user_name = r.user_name;
    annotation = insert (codes "hub-deploy-id") (decimal d.id) anno;
    hardware = d.hardware;
    env = full_env fm cfg r t.token d gpu vars;
    git_path = d.git_path;
    git_ref = d.git_branch;
    image_id = d.image_id;
    deploy_id = d.id;
    min_replica = d.min_replica;
    max_replica = d.max_replica;
    access_token = t.token;
    cluster_id = d.cluster_id;
    svc_name = d.svc_name;
    deploy_type = d.deploy_type;
    user_id = d.user_uuid;
    sku = d.sku;
  })
