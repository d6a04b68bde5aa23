-- ===== src/Deploy/Repo.antt =====
-- builder/deploy/scheduler/config.go and what a runner returns: the data that both runners share.
use csghub_server.Prelude.{ℕ, Text, codes, Option, none, some, [], split, get_elem?}
use csghub_server.Deploy.Store.{Deploy, TaskRow, Db}

pub record SdkConfig : Type 0 where
  pub name : Text
  pub version : Text
  pub port : Text
  pub image : Text

abbrev pub gradio : SdkConfig
gradio = record { name = codes "gradio"; version = codes "3.37.0"; port = codes "7860"; image = [] }

abbrev pub streamlit : SdkConfig
streamlit = record {
  name = codes "streamlit";
  version = codes "1.33.0";
  port = codes "8501";
  image = [];
}

abbrev pub nginx : SdkConfig
nginx = record {
  name = codes "nginx";
  version = codes "1.25.0";
  port = codes "8000";
  image = codes "csg-nginx:1.2";
}

pub record RepoInfo : Type 0 where
  pub deploy_id : ℕ
  pub space_id : ℕ
  pub model_id : ℕ
  pub repo_id : ℕ
  pub path : Text
  pub name : Text
  pub sdk : Text
  pub sdk_version : Text
  pub http_clone_url : Text
  pub user_name : Text
  pub repo_type : Text

-- The access token of the user who deploys, and the name of that user.
pub record AccessToken : Type 0 where
  pub token : Text
  pub username : Text

-- A call that may return an error (its text), or panic.
pub data Made {ℓ} (A : Type ℓ) : Type ℓ where
  made : A → Made A
  refused : Text → Made A
  panicked : Made A

infixl 5 ◌>>=◌
abbrev pub ◌>>=◌ {ℓ κ} : {A : Type ℓ} {B : Type κ} → Made A → (A → Made B) → Made B
made a >>= f = f a
refused e >>= f = refused e
panicked >>= f = panicked

-- `strings.Split(path, "/")[i]`, which panics out of range.
abbrev pub at_field : Option Text → Made Text
at_field none = panicked
at_field (some t) = made t

abbrev pub path_field : Text → ℕ → Made Text
path_field path i = at_field (get_elem? (split b'/' path) i)

-- How `Run` ends: `nil`, an error, a panic, or not at all within what was observed.
pub data Ended : Type 0 where
  succeeded : Ended
  errored : Text → Ended
  crashed : Ended
  polling : Ended

-- What a runner holds: its task and its deploy, both of its own, and the tables.
pub record Held : Type 0 where
  pub task : TaskRow
  pub deploy : Deploy
  pub db : Db
