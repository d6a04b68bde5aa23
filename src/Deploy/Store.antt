-- ===== src/Deploy/Store.antt =====
-- builder/store/database/deploy_task.go: the tables of deploys and of their tasks, with the queries
-- of the scheduler and the deployer. A query walks the table; a time stamp column is left out.
pub mod Queries
use csghub_server.Prelude.{
  ℕ, ℤ, pos, ◌≡◌, Bool, true, false, ◌&&◌, ◌||◌, Option, none, some, List, [], ◌∷◌, map, ltb, ◌==◌,
  int_eq, if◌then◌else◌, keep, Text, Fetched, fetched, ◌++◌, ◌+◌, found, no_rows, length,
}
use csghub_server.Deploy.Status

pub record Deploy : Type 0 where
  pub id : ℕ
  pub space_id : ℕ
  pub status : ℕ
  pub git_path : Text
  pub git_branch : Text
  pub env : Text
  pub secret : Text
  pub template : Text
  pub hardware : Text
  pub image_id : Text
  pub deploy_name : Text
  pub user_id : ℕ
  pub model_id : ℕ
  pub repo_id : ℕ
  pub runtime_framework : Text
  pub container_port : ℕ
  pub annotation : Text
  pub min_replica : ℕ
  pub max_replica : ℕ
  pub svc_name : Text
  pub endpoint : Text
  pub cluster_id : Text
  pub secure_level : ℕ
  pub deploy_type : ℕ
  pub user_uuid : Text
  pub sku : Text

-- A row of the task table. `task_type` is 0 for a build and 1 for a run.
pub record TaskRow : Type 0 where
  pub id : ℕ
  pub task_type : ℕ
  pub status : ℤ
  pub message : Text
  pub deploy_id : ℕ

-- A row with its relation loaded; `none` is the nil pointer of a row whose deploy is not there.
pub record DeployTask : Type 0 where
  pub row : TaskRow
  pub open row use *
  pub deploy : Option Deploy

pub record Db : Type 0 where
  pub deploys : List Deploy
  pub tasks : List TaskRow

abbrev pub deploy_by_id : ℕ → List Deploy → Option Deploy
deploy_by_id i [] = none
deploy_by_id i (d ∷ ds) = if d.id == i then some d else deploy_by_id i ds

abbrev pub task_by_id : ℕ → List TaskRow → Option TaskRow
task_by_id i [] = none
task_by_id i (t ∷ ts) = if t.id == i then some t else task_by_id i ts

-- The condition on type and status that both queries for a new task share.
unfoldable pub is_unfinished : TaskRow → Bool
is_unfinished t =
    (t.task_type == 0 && (int_eq t.status (pos 0) || int_eq t.status (pos 1)))
    || (t.task_type == 1
        && (int_eq t.status (pos 0) || (int_eq t.status (pos 1) || int_eq t.status (pos 3))))

-- `ORDER BY id ASC LIMIT 1`
abbrev pub earlier : TaskRow → Option TaskRow → TaskRow
earlier t none = t
earlier t (some u) = if ltb u.id t.id then u else t

unfoldable pub first_by_id : List TaskRow → Option TaskRow
first_by_id [] = none
first_by_id (t ∷ ts) = some (earlier t (first_by_id ts))

-- `Relation("Deploy")`
abbrev pub load_relation : List Deploy → Option TaskRow → Option DeployTask
load_relation ds none = none
load_relation ds (some t) = some (record { row = t; deploy = deploy_by_id t.deploy_id ds })

unfoldable pub get_new_task_first : Db → Fetched DeployTask
unfolding is_unfinished first_by_id
get_new_task_first db =
    fetched (load_relation db.deploys (first_by_id (keep is_unfinished db.tasks)))

abbrev pub is_new_after : ℕ → TaskRow → Bool
is_new_after current t = ltb current t.id && is_unfinished t

unfoldable pub get_new_task_after : ℕ → Db → Fetched DeployTask
unfolding is_unfinished first_by_id
get_new_task_after current db =
    fetched (load_relation db.deploys (first_by_id (keep (is_new_after current) db.tasks)))

abbrev pub get_deploy_task : ℕ → Db → Fetched DeployTask
get_deploy_task i db = fetched (load_relation db.deploys (task_by_id i db.tasks))

abbrev pub get_deploy_tasks_of_deploy : ℕ → Db → List TaskRow
get_deploy_tasks_of_deploy i db = keep (λ t. t.deploy_id == i) db.tasks

abbrev pub get_deploy_by_id : ℕ → Db → Fetched Deploy
get_deploy_by_id i db = fetched (deploy_by_id i db.deploys)

-- `NewUpdate().Model(t).WherePK()`: the row with the key of `t` becomes `t`.
abbrev pub put_task : TaskRow → List TaskRow → List TaskRow
put_task t [] = []
put_task t (u ∷ us) = (if u.id == t.id then t else u) ∷ put_task t us

abbrev pub put_deploy : Deploy → List Deploy → List Deploy
put_deploy d [] = []
put_deploy d (e ∷ es) = (if e.id == d.id then d else e) ∷ put_deploy d es

abbrev pub update_deploy_task : TaskRow → Db → Db
update_deploy_task t db = record db { tasks = put_task t db.tasks }

abbrev pub update_deploy : Deploy → Db → Db
update_deploy d db = record db { deploys = put_deploy d db.deploys }

-- The columns that `UpdateInTx` is called with.
pub data DeployColumn : Type 0 where
  status svc_name image_id endpoint : DeployColumn

pub data TaskColumn : Type 0 where
  status message : TaskColumn

abbrev pub write_deploy : List DeployColumn → Deploy → Deploy → Deploy
write_deploy [] new old = old
write_deploy (DeployColumn.status ∷ cs) new old =
    write_deploy cs new (record old { status = new.status })
write_deploy (svc_name ∷ cs) new old = write_deploy cs new (record old { svc_name = new.svc_name })
write_deploy (image_id ∷ cs) new old = write_deploy cs new (record old { image_id = new.image_id })
write_deploy (endpoint ∷ cs) new old = write_deploy cs new (record old { endpoint = new.endpoint })

abbrev pub write_task : List TaskColumn → TaskRow → TaskRow → TaskRow
write_task [] new old = old
write_task (TaskColumn.status ∷ cs) new old = write_task cs new (record old { status = new.status })
write_task (message ∷ cs) new old = write_task cs new (record old { message = new.message })

abbrev pub write_deploys : List DeployColumn → Option Deploy → List Deploy → List Deploy
write_deploys cs none ds = ds
write_deploys cs (some new) [] = []
write_deploys cs (some new) (d ∷ ds) =
    (if d.id == new.id then write_deploy cs new d else d) ∷ write_deploys cs (some new) ds

-- The bulk update sets the columns of each row whose key is among the new rows.
abbrev pub write_row : List TaskColumn → List TaskRow → TaskRow → TaskRow
write_row cs [] old = old
write_row cs (new ∷ news) old =
    if old.id == new.id then write_task cs new old else write_row cs news old

-- One transaction: a failure of any statement rolls all of it back, and the tables stay.
unfoldable pub update_in_tx :
    Bool → List DeployColumn → List TaskColumn → Option Deploy → List TaskRow → Db → Db
update_in_tx false dcs tcs d ts db = db
update_in_tx true dcs tcs d ts db = record {
  deploys = write_deploys dcs d db.deploys;
  tasks = map (write_row tcs ts) db.tasks;
}
