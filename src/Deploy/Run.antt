-- ===== src/Deploy/Run.antt =====
-- builder/deploy/scheduler/deploy_runner.go: the task that has an image run, and watches it until it
-- runs, fails or takes too long. The image runner is a service: every round of the loop is given its
-- answers. A clock counts seconds; the rounding of its float of minutes is left out.
pub mod Rows
pub mod Outcome
pub mod Ends
use csghub_server.Prelude.{
  ℕ, Text, codes, ◌++◌, [], ◌∷◌, List, Bool, ◌&&◌, is_empty, int_eq, ◌==◌, ltb, leb, if◌then◌else◌,
  some, none, Option, Fetched, decimal, ◌*◌, ◌-◌,
}
use csghub_server.Deploy.Status
use csghub_server.Deploy.Status.Task
use csghub_server.Deploy.Store.{Deploy, TaskRow, DeployColumn, TaskColumn, update_in_tx}
use csghub_server.Deploy.Repo.{
  RepoInfo, AccessToken, Made, made, refused, panicked, path_field, Ended, succeeded, errored,
  crashed, polling, Held,
}
use csghub_server.Deploy.Request.{DeployConfig, Formats, RunRequest, make_deploy_request}

abbrev pub task_columns : List TaskColumn
task_columns = TaskColumn.status ∷ TaskColumn.message ∷ []

-- Writes the named columns of what is held to the tables.
abbrev pub store : Bool → List DeployColumn → TaskRow → Deploy → Held → Held
store stored columns t d h = record {
  task = t;
  deploy = d;
  db = update_in_tx stored columns task_columns (some d) (t ∷ []) h.db;
}

unfoldable pub deploy_in_progress : Bool → Text → Held → Held
deploy_in_progress stored svc h =
    let t = record h.task { status = Task.deploying; message = codes "deploy in progress" } in
    let d = record h.deploy {
      status = Status.deploying;
      svc_name = (if is_empty svc then h.deploy.svc_name else svc);
    } in
    store stored (DeployColumn.status ∷ DeployColumn.svc_name ∷ []) t d h

unfoldable pub deploy_success : Bool → Held → Held
deploy_success stored h =
    let t = record h.task {
      status = Task.deploy_start_up;
      message = codes "deploy succeeded, wati for startup";
    } in
    let d = record h.deploy { status = Status.startup } in
    store stored (DeployColumn.status ∷ []) t d h

unfoldable pub deploy_failed : Bool → Text → Held → Held
deploy_failed stored msg h =
    let t = record h.task { status = Task.deploy_failed; message = msg } in
    let d = record h.deploy { status = Status.deploy_failed } in
    store stored (DeployColumn.status ∷ []) t d h

unfoldable pub running : Bool → Text → Held → Held
running stored url h =
    let t = record h.task { status = Task.deploy_running; message = codes "running" } in
    let d = record h.deploy { status = Status.running; endpoint = url } in
    store stored (DeployColumn.status ∷ DeployColumn.endpoint ∷ []) t d h

unfoldable pub runtime_error : Bool → Text → Held → Held
runtime_error stored msg h =
    let t = record h.task { status = Task.deploy_run_time_error; message = msg } in
    let d = record h.deploy { status = Status.run_time_error } in
    store stored (DeployColumn.status ∷ []) t d h

-- The answers to `Run` (with the name of the service), `Stop` and `Status`.
pub data RunAnswer : Type 0 where
  unavailable : Text → RunAnswer
  started : Text → RunAnswer

pub record RunStatus : Type 0 where
  pub deploy_id : ℕ
  pub code : ℕ
  pub message : Text
  pub endpoint : Text

-- One round: what the stores and the image runner answer, and the clock when they have.
pub record Round : Type 0 where
  pub db_error : Text
  pub token : Fetched AccessToken
  pub stored_deploy : Fetched Deploy
  pub run_answer : RunAnswer
  pub started_at : ℕ
  pub status : Option RunStatus
  pub now : ℕ
  pub stop_error : Option Text
  pub start_stored : Bool
  pub stored : Bool

-- A watch: what is held, and when the service was created.
pub record Watch : Type 0 where
  pub held : Held
  pub since : ℕ

-- After a round the loop goes on or ends.
pub data Turn : Type 0 where
  again : Watch → Turn
  end : Watch → Ended → Turn

abbrev pub over : Watch → Held → Ended → Turn
over w h e = end (record w { held = h }) e

abbrev pub go_on : Watch → Held → Turn
go_on w h = again (record w { held = h })

-- `cancelDeploy`
abbrev pub cancel_deploy : Option Text → Bool → Watch → Turn
cancel_deploy (some e) stored w =
    end w (errored (codes "fail to undeploy space/model with err: " ++ e))
cancel_deploy none stored w =
    over w (deploy_failed stored (codes "space/model deploy timeout") w.held) succeeded

abbrev pub limit_time : DeployConfig → Deploy → ℕ
limit_time cfg d =
    if d.space_id == 0 && ltb 0 d.model_id
    then cfg.model_deploy_timeout
    else cfg.space_deploy_timeout

abbrev pub is_timed_out : DeployConfig → Round → Watch → Bool
is_timed_out cfg o w = leb (60 * limit_time cfg w.held.deploy) (o.now - w.since)

-- The `switch` on the code of the status.
unfoldable pub on_status : DeployConfig → Round → RunStatus → Watch → Turn
on_status cfg o s w =
    if s.code == Status.deploying
    then (if is_timed_out cfg o w
        then cancel_deploy o.stop_error o.stored w
        else go_on w (deploy_in_progress o.stored [] w.held))
    else if s.code == Status.deploy_failed
    then over w (deploy_failed o.stored s.message w.held)
        (errored (codes "deploy failed, resp msg:" ++ s.message))
    else if s.code == Status.startup
    then go_on w (deploy_success o.stored w.held)
    else if s.code == Status.running
    then over w (running o.stored s.endpoint w.held) succeeded
    else if s.code == Status.run_time_error
    then over w (runtime_error o.stored s.message w.held)
        (errored (codes "runtime error, resp msg:" ++ s.message))
    else end w (errored (codes "unknown image status, resp msg:" ++ s.message))

unfoldable pub on_answer : DeployConfig → Round → Option RunStatus → Watch → Turn
on_answer cfg o none w = again w
on_answer cfg o (some s) w =
    if ltb w.held.task.deploy_id s.deploy_id
    then over w
        (deploy_failed o.stored (codes "cancel by new deploy:" ++ decimal s.deploy_id) w.held)
        succeeded
    else on_status cfg o s w

-- The second half of a round, which reads the fields of the path and asks for the status.
unfoldable pub watch_status : DeployConfig → Round → Made Text → Watch → Turn
watch_status cfg o (made t) w = on_answer cfg o o.status w
watch_status cfg o (refused e) w = end w crashed
watch_status cfg o panicked w = end w crashed

abbrev pub on_started : DeployConfig → RepoInfo → Round → RunAnswer → Watch → Turn
on_started cfg r o (unavailable e) w = end w (errored (codes "call image runner failed: " ++ e))
on_started cfg r o (started svc) w =
    watch_status cfg o (path_field r.path 1)
      (record { held = deploy_in_progress o.start_stored svc w.held; since = o.started_at })

-- While the image is not there, the loop asks for it again.
abbrev pub on_request : DeployConfig → RepoInfo → Round → Made RunRequest → Watch → Turn
on_request cfg r o (made q) w =
    if is_empty q.image_id then again w else on_started cfg r o o.run_answer w
on_request cfg r o (refused e) w = end w (errored (codes "fail to make deploy request: " ++ e))
on_request cfg r o panicked w = end w crashed

-- One round of the loop of `DeployRunner.Run`.
unfoldable pub turn : Formats → DeployConfig → RepoInfo → Round → Watch → Turn
unfolding watch_status on_answer on_status deploy_in_progress deploy_success deploy_failed running
    runtime_error update_in_tx
turn fm cfg r o w =
    if int_eq w.held.task.status Task.deploy_pending
    then on_request cfg r o (make_deploy_request fm cfg r o.db_error o.token o.stored_deploy) w
    else watch_status cfg o (path_field r.path 1) w

abbrev pub after_turn : (Watch → Watch × Ended) → Turn → Watch × Ended
after_turn next (again w) = next w
after_turn next (end w e) = (w, e)

-- `DeployRunner.Run` over the rounds that are observed.
unfoldable pub run_deploy : Formats → DeployConfig → RepoInfo → List Round → Watch → Watch × Ended
run_deploy fm cfg r [] w = (w, polling)
run_deploy fm cfg r (o ∷ os) w = after_turn (run_deploy fm cfg r os) (turn fm cfg r o w)
