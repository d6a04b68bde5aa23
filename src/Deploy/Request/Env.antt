-- ===== src/Deploy/Request/Env.antt =====
-- Which variables the container of a deploy gets.
use csghub_server.Deploy.Request.{
  serverless_type, bool_text, finetune_type, inference_type, is_empty, space_type, context_env,
  domain_env, finetune_env, inference_env, root_env, space_env, with_token, common_env, full_env,
  Deploy, insert, RepoInfo, codes, DeployConfig, StringMap, text_eq, Formats,
}
use csghub_server.Prelude.{
  is_empty, text_eq_refl, lookup-insert, insert, codes, lookup, text_eq, Text, ◌≡◌, refl, Bool,
  true, false, some, if◌then◌else◌, ◌||◌, ltb, ◌==◌, ◌∙◌,
}
use csghub_server.Deploy.Store.{Deploy}
use csghub_server.Deploy.Repo.{RepoInfo}

lookup-insert_ne :
    (k j : Text) (v : Text) (m : StringMap)
    → text_eq k j ≡ false
    → lookup j (insert k v m) ≡ lookup j m
lookup-insert_ne k j v m h = rw (lookup-insert, h)

lookup-insert_eq : (k v : Text) (m : StringMap) → lookup k (insert k v m) ≡ some v
lookup-insert_eq k v m = rw (lookup-insert, text_eq_refl)

-- A group of variables that is there under a condition does not touch another key.
lookup-if :
    (b : Bool) (k : Text) (m n : StringMap)
    → lookup k m ≡ lookup k n
    → lookup k (if b then m else n) ≡ lookup k n
lookup-if true k m n h = h
lookup-if false k m n h = refl

-- A key other than those that depend on the kind of the deploy.
record IsCommonKey (k : Text) : Type 0 where
  ne_port : text_eq (codes "port") k ≡ false
  ne_offline : text_eq (codes "HF_HUB_OFFLINE") k ≡ false
  ne_endpoint : text_eq (codes "HF_ENDPOINT") k ≡ false
  ne_csghub : text_eq (codes "USE_CSGHUB_MODEL") k ≡ false
  ne_hf_token : text_eq (codes "HF_TOKEN") k ≡ false
  ne_context : text_eq (codes "CONTEXT_PATH") k ≡ false
  ne_streamlit : text_eq (codes "STREAMLIT_SERVER_BASE_URL_PATH") k ≡ false
  ne_gradio_root : text_eq (codes "GRADIO_ROOT_PATH") k ≡ false

module _ (k : Text) (c : IsCommonKey k) where
  common-space_env :
      (r : RepoInfo) (d : Deploy) (m : StringMap) → lookup k (space_env r d m) ≡ lookup k m
  common-space_env r d m =
      lookup-if (ltb 0 d.space_id) k _ m (lookup-insert_ne (codes "port") k _ m c.ne_port)

  common-inference_env :
      (cfg : DeployConfig) (d : Deploy) (m : StringMap)
      → lookup k (inference_env cfg d m) ≡ lookup k m
  common-inference_env cfg d m =
      lookup-if (d.deploy_type == inference_type || d.deploy_type == serverless_type) k _ m (
        lookup-insert_ne _ k _ _ c.ne_offline
        ∙ (lookup-insert_ne _ k _ _ c.ne_endpoint ∙ lookup-insert_ne _ k _ _ c.ne_port))

  common-finetune_env :
      (fm : Formats) (cfg : DeployConfig) (token : Text) (d : Deploy) (m : StringMap)
      → lookup k (finetune_env fm cfg token d m) ≡ lookup k m
  common-finetune_env fm cfg token d m = lookup-if (d.deploy_type == finetune_type) k _ m (
      lookup-insert_ne _ k _ _ c.ne_csghub
      ∙ (lookup-insert_ne _ k _ _ c.ne_hf_token
          ∙ (lookup-insert_ne _ k _ _ c.ne_endpoint ∙ lookup-insert_ne _ k _ _ c.ne_port)))

  common-root_env : (d : Deploy) (m : StringMap) → lookup k (root_env d m) ≡ lookup k m
  common-root_env d m =
      lookup-if (d.deploy_type == space_type) k _ m
        (lookup-insert_ne _ k _ _ c.ne_streamlit ∙ lookup-insert_ne _ k _ _ c.ne_gradio_root)

  common-context_env : (d : Deploy) (m : StringMap) → lookup k (context_env d m) ≡ lookup k m
  common-context_env d m =
      lookup-if (d.deploy_type == finetune_type) k _ m (lookup-insert_ne _ k _ _ c.ne_context)

  common-domain_env :
      (cfg : DeployConfig) (d : Deploy) (m : StringMap) → lookup k (domain_env cfg d m) ≡ lookup k m
  common-domain_env cfg d m =
      lookup-if (is_empty cfg.public_root_domain) k _ m
        (common-root_env d (context_env d m) ∙ common-context_env d m)

  common-full_env :
      (fm : Formats) (cfg : DeployConfig) (r : RepoInfo) (token : Text) (d : Deploy) (gpu : Text)
      (m : StringMap)
      → lookup k (full_env fm cfg r token d gpu m) ≡ lookup k (common_env cfg r token d gpu m)
  unfolding full_env
  common-full_env fm cfg r token d gpu m =
      common-domain_env cfg d _
      ∙ (common-finetune_env fm cfg token d _
          ∙ (common-inference_env cfg d _ ∙ common-space_env r d _))

-- The keys of the token and of the repository.
token_key : IsCommonKey (codes "ACCESS_TOKEN")
token_key = record {
  ne_port = refl;
  ne_offline = refl;
  ne_endpoint = refl;
  ne_csghub = refl;
  ne_hf_token = refl;
  ne_context = refl;
  ne_streamlit = refl;
  ne_gradio_root = refl;
}

repo_key : IsCommonKey (codes "REPO_ID")
repo_key = record {
  ne_port = refl;
  ne_offline = refl;
  ne_endpoint = refl;
  ne_csghub = refl;
  ne_hf_token = refl;
  ne_context = refl;
  ne_streamlit = refl;
  ne_gradio_root = refl;
}

revision_key : IsCommonKey (codes "REVISION")
revision_key = record {
  ne_port = refl;
  ne_offline = refl;
  ne_endpoint = refl;
  ne_csghub = refl;
  ne_hf_token = refl;
  ne_context = refl;
  ne_streamlit = refl;
  ne_gradio_root = refl;
}

-- Whatever variables the owner of a deploy gave it, of whatever kind it is, its container gets the
-- token of the user who deploys, the path of the repository and the branch of the deploy under
-- the names that it reads them by.
pub full_env-fixed :
    (fm : Formats) (cfg : DeployConfig) (r : RepoInfo) (token : Text) (d : Deploy) (gpu : Text)
    (m : StringMap)
    → (lookup (codes "ACCESS_TOKEN") (full_env fm cfg r token d gpu m) ≡ some token)
      × (lookup (codes "REPO_ID") (full_env fm cfg r token d gpu m) ≡ some r.path)
      × (lookup (codes "REVISION") (full_env fm cfg r token d gpu m) ≡ some d.git_branch)
full_env-fixed fm cfg r token d gpu m = (
  common-full_env _ token_key fm cfg r token d gpu m ∙ at_token (is_empty gpu),
  common-full_env _ repo_key fm cfg r token d gpu m ∙ at_repo (is_empty gpu),
  common-full_env _ revision_key fm cfg r token d gpu m ∙ at_revision (is_empty gpu),
)
  where
    vars : StringMap
    vars =
        insert (codes "HTTPCloneURL") (with_token token r.http_clone_url)
          (insert (codes "S3_INTERNAL") (bool_text cfg.s3_internal) m)

    env5 : StringMap
    env5 =
        insert (codes "REVISION") d.git_branch
          (insert (codes "REPO_ID") r.path (insert (codes "ACCESS_TOKEN") token vars))

    at_token :
        (b : Bool)
        → lookup (codes "ACCESS_TOKEN") (if b then env5 else insert (codes "GPU_NUM") gpu env5)
          ≡ some token
    at_token true = simp lookup-insert
    at_token false = simp lookup-insert

    at_repo :
        (b : Bool)
        → lookup (codes "REPO_ID") (if b then env5 else insert (codes "GPU_NUM") gpu env5)
          ≡ some r.path
    at_repo true = simp lookup-insert
    at_repo false = simp lookup-insert

    at_revision :
        (b : Bool)
        → lookup (codes "REVISION") (if b then env5 else insert (codes "GPU_NUM") gpu env5)
          ≡ some d.git_branch
    at_revision true = simp lookup-insert
    at_revision false = simp lookup-insert
