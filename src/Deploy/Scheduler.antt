-- ===== src/Deploy/Scheduler.antt =====
-- builder/deploy/scheduler/scheduler.go: `next` picks a task and puts its runner into the channel,
-- and `failDeployFollowingTasks` stops what comes after a task that failed.
pub mod Order
pub mod Failure
pub mod Channel
use csghub_server.Prelude.{
  ℕ, pos, Text, codes, [], ◌∷◌, List, Bool, true, false, ◌==◌, ltb, if◌then◌else◌, Option, none,
  some, Fetched, found, no_rows, failed, map, ◌++◌,
}
use csghub_server.Deploy.Status.Task
use csghub_server.Deploy.Store.{
  Deploy, TaskRow, DeployTask, Db, TaskColumn, get_new_task_first, get_new_task_after,
  update_deploy_task, get_deploy_task, get_deploy_tasks_of_deploy, update_in_tx,
}
use csghub_server.Deploy.Repo.{RepoInfo}
use csghub_server.Deploy.CloneUrl.{build_http_clone_url}

-- A space or a model with its repository, as `ByID` of its store loads it.
pub record Repository : Type 0 where
  pub id : ℕ
  pub path : Text
  pub name : Text
  pub username : Text
  pub repository_type : Text

pub record Space : Type 0 where
  pub id : ℕ
  pub sdk : Text
  pub sdk_version : Text
  pub repository : Repository

pub record Model : Type 0 where
  pub id : ℕ
  pub repository : Repository

-- What the channel carries. A runner holds its task and the deploy that was loaded with it.
pub data Runner : Type 0 where
  sleep_task : Runner
  build_runner : RepoInfo → TaskRow → Deploy → Runner
  deploy_runner : RepoInfo → TaskRow → Deploy → Runner

-- `WatchID`
abbrev pub watch_id : Runner → ℕ
watch_id sleep_task = 0
watch_id (build_runner r t d) = t.id
watch_id (deploy_runner r t d) = t.id

abbrev pub is_sleep : Runner → Bool
is_sleep sleep_task = true
is_sleep (build_runner r t d) = false
is_sleep (deploy_runner r t d) = false

-- What one call of `next` meets: whether the query for a task and the write of a cancelled task
-- go through, and the two stores that it reads.
pub record Calls : Type 0 where
  pub query_ok : Bool
  pub space_by_id : ℕ → Fetched Space
  pub model_by_id : ℕ → Fetched Model
  pub update_ok : Bool
  pub public_domain : Text

pub record Scheduler : Type 0 where
  pub last : Option TaskRow
  pub db : Db

abbrev empty_repo : RepoInfo
empty_repo = record {
  deploy_id = 0;
  space_id = 0;
  model_id = 0;
  repo_id = 0;
  path = [];
  name = [];
  sdk = [];
  sdk_version = [];
  http_clone_url = [];
  user_name = [];
  repo_type = [];
}

abbrev space_repo : Text → Deploy → Fetched Space → Fetched RepoInfo
space_repo domain d (found s) = found (record {
  deploy_id = d.id;
  space_id = s.id;
  model_id = 0;
  repo_id = s.repository.id;
  path = s.repository.path;
  name = s.repository.name;
  sdk = s.sdk;
  sdk_version = s.sdk_version;
  http_clone_url = build_http_clone_url domain s.repository.repository_type s.repository.path;
  user_name = s.repository.username;
  repo_type = codes "space";
})
space_repo domain d no_rows = no_rows
space_repo domain d failed = failed

abbrev model_repo : Deploy → Fetched Model → Fetched RepoInfo
model_repo d (found m) = found (record {
  deploy_id = d.id;
  space_id = 0;
  model_id = m.id;
  repo_id = m.repository.id;
  path = m.repository.path;
  name = m.repository.name;
  sdk = [];
  sdk_version = [];
  http_clone_url = [];
  user_name = m.repository.username;
  repo_type = codes "model";
})
model_repo d no_rows = no_rows
model_repo d failed = failed

-- The repository of a deploy; a deploy of neither a space nor a model has the empty one.
unfoldable pub repo_of : Calls → Deploy → Fetched RepoInfo
repo_of c d =
    if ltb 0 d.space_id
    then space_repo c.public_domain d (c.space_by_id d.space_id)
    else if ltb 0 d.model_id
    then model_repo d (c.model_by_id d.model_id)
    else found empty_repo

abbrev runner_of : RepoInfo → TaskRow → Deploy → Runner
runner_of r t d = if t.task_type == 0 then build_runner r t d else deploy_runner r t d

-- The row of a task whose repository is gone.
abbrev pub cancel_row : TaskRow → TaskRow
cancel_row t = record t { status = Task.cancelled; message = codes "repo not found" }

abbrev pub cancel_in_db : Bool → TaskRow → Db → Db
cancel_in_db true t db = update_deploy_task (cancel_row t) db
cancel_in_db false t db = db

-- `none` is a panic: the task has no deploy.
abbrev pub Picked : Type 0
Picked = Option (Scheduler × Runner)

unfoldable pub with_repo :
    Calls → TaskRow → Deploy → Fetched RepoInfo → Scheduler → Scheduler × Runner
with_repo c t d (found r) s = (record s { last = some t }, runner_of r t d)
with_repo c t d no_rows s =
    (record s { last = some (cancel_row t); db = cancel_in_db c.update_ok t s.db }, sleep_task)
with_repo c t d failed s = (record s { last = some t }, sleep_task)

abbrev pub with_deploy : Calls → TaskRow → Option Deploy → Scheduler → Picked
with_deploy c t none s = none
with_deploy c t (some d) s = some (with_repo c t d (repo_of c d) s)

abbrev pub with_task : Calls → Fetched DeployTask → Scheduler → Picked
with_task c (found t) s = with_deploy c t.row t.deploy s
with_task c no_rows s = some (s, sleep_task)
with_task c failed s = some (s, sleep_task)

unfoldable pub query_next : Bool → Option TaskRow → Db → Fetched DeployTask
query_next false last db = failed
query_next true none db = get_new_task_first db
query_next true (some t) db = get_new_task_after t.id db

-- `next`, up to the send into the channel: the new state, and the runner that is sent.
unfoldable pub next : Calls → Scheduler → Picked
unfolding query_next
next c s = with_task c (query_next c.query_ok s.last s.db) s

-- `failDeployFollowingTasks`: the row of the task itself, and those after it.
abbrev pub fail_row : ℕ → Text → TaskRow → TaskRow
fail_row i reason t =
    if t.id == i
    then record t { status = Task.build_failed; message = reason }
    else if ltb i t.id
    then record t { status = Task.cancelled; message = codes "cancel as previous task failed" }
    else t

-- A query that fails leaves the zero value, with id 0 of deploy 0.
abbrev pub ids_of : Fetched DeployTask → ℕ × ℕ
ids_of (found t) = (t.row.id, t.row.deploy_id)
ids_of no_rows = (0, 0)
ids_of failed = (0, 0)

-- Which of its three database calls go through.
pub record FailCalls : Type 0 where
  pub get_ok : Bool
  pub list_ok : Bool
  pub stored : Bool

abbrev pub if_ok : Bool → Fetched DeployTask → Fetched DeployTask
if_ok true r = r
if_ok false r = failed

abbrev task_columns : List TaskColumn
task_columns = TaskColumn.status ∷ TaskColumn.message ∷ []

unfoldable pub fail_deploy_following_tasks : FailCalls → ℕ → Text → Db → Db
unfolding update_in_tx
fail_deploy_following_tasks c i reason db =
    let (id, deploy_id) = ids_of (if_ok c.get_ok (get_deploy_task i db)) in
    if c.list_ok
    then update_in_tx c.stored [] task_columns none
        (map (fail_row id reason) (get_deploy_tasks_of_deploy deploy_id db)) db
    else db
