-- ===== src/Deploy/Build.antt =====
-- builder/deploy/scheduler/builder_runner.go: the task that has an image built. The image builder
-- is a service: `Run` is given its answers, one for each call.
pub mod Outcome
use csghub_server.Prelude.{
  ℤ, pos, Text, codes, ◌++◌, [], ◌∷◌, List, Bool, false, ◌||◌, contains, text_eq, is_empty, int_eq,
  if◌then◌else◌, some, Fetched, found, no_rows, failed, decimal, decimal_ℤ,
}
use csghub_server.Deploy.Status
use csghub_server.Deploy.Status.Task
use csghub_server.Deploy.Store.{DeployColumn, TaskColumn, update_in_tx}
use csghub_server.Deploy.Repo.{
  gradio, streamlit, RepoInfo, AccessToken, Made, made, refused, panicked, ◌>>=◌, path_field, Ended,
  succeeded, errored, crashed, polling, Held,
}

pub record BuildRequest : Type 0 where
  pub org_name : Text
  pub space_name : Text
  pub hardware : Text
  pub python_version : Text
  pub sdk_type : Text
  pub sdk_version : Text
  pub space_git_url : Text
  pub git_ref : Text
  pub git_user_id : Text
  pub git_access_token : Text
  pub build_id : Text
  pub factory_build : Bool

abbrev pub parse_hardware : Text → Text
parse_hardware input =
    if contains input (codes "GPU") || contains input (codes "NVIDIA")
    then codes "gpu"
    else codes "cpu"

abbrev pub sdk_version_of : RepoInfo → Text
sdk_version_of r =
    if is_empty r.sdk_version
    then (if text_eq r.sdk gradio.name
        then gradio.version
        else if text_eq r.sdk streamlit.name
        then streamlit.version
        else [])
    else r.sdk_version

abbrev no_token : Text → Text
no_token e = codes "cant get git access token:" ++ e

-- `token` is what `FindByUID` returned; its error text is `db_error`.
abbrev pub token_or_error : Text → Fetched AccessToken → Made AccessToken
token_or_error db_error (found t) = made t
token_or_error db_error no_rows = refused (no_token (codes "sql: no rows in result set"))
token_or_error db_error failed = refused (no_token db_error)

unfoldable pub make_build_request : RepoInfo → Held → Text → Fetched AccessToken → Made BuildRequest
make_build_request r h db_error token = do
  t ← token_or_error db_error token
  org ← path_field r.path 0
  space ← path_field r.path 1
  made (record {
    org_name = org;
    space_name = space;
    hardware = parse_hardware h.deploy.hardware;
    python_version = codes "3.10";
    sdk_type = r.sdk;
    sdk_version = sdk_version_of r;
    space_git_url = r.http_clone_url;
    git_ref = h.deploy.git_branch;
    git_user_id = t.username;
    git_access_token = t.token;
    build_id = decimal h.task.deploy_id;
    factory_build = false;
  })

-- A change of the task and its deploy in memory, and the write of some columns; `stored` says
-- whether the transaction went through, whose error is only logged.
unfoldable pub build_in_progress : Bool → Held → Held
unfolding update_in_tx
build_in_progress stored h =
    let t = record h.task {
      status = Task.build_in_progress;
      message = codes "build in progress";
    } in
    let d = record h.deploy { status = Status.building } in
    record {
      task = t;
      deploy = d;
      db =
          update_in_tx stored (DeployColumn.status ∷ [])
            (TaskColumn.status ∷ TaskColumn.message ∷ []) (some d) (t ∷ []) h.db;
    }

unfoldable pub build_success : Bool → Text → Held → Held
unfolding update_in_tx
build_success stored image h =
    let t = record h.task { status = Task.build_succeed; message = codes "build succeeded" } in
    let d = record h.deploy { status = Status.build_success; image_id = image } in
    record {
      task = t;
      deploy = d;
      db =
          update_in_tx stored (DeployColumn.status ∷ DeployColumn.image_id ∷ [])
            (TaskColumn.status ∷ TaskColumn.message ∷ []) (some d) (t ∷ []) h.db;
    }

unfoldable pub build_failed : Bool → Held → Held
unfolding update_in_tx
build_failed stored h =
    let t = record h.task { status = Task.build_failed; message = codes "build failed" } in
    let d = record h.deploy { status = Status.build_failed } in
    record {
      task = t;
      deploy = d;
      db =
          update_in_tx stored (DeployColumn.status ∷ [])
            (TaskColumn.status ∷ TaskColumn.message ∷ []) (some d) (t ∷ []) h.db;
    }

-- The answer of the builder to `Build`, and to one call of `Status`.
pub data BuildAnswer : Type 0 where
  unreachable : Text → BuildAnswer
  answered : ℤ → Text → BuildAnswer

pub data StatusAnswer : Type 0 where
  unreachable : StatusAnswer
  answered : ℤ → Text → Bool → StatusAnswer

-- `Success`, `Fail` and `Inprogress` of builder/deploy/imagebuilder/requests.go
abbrev pub is_success : ℤ → Bool
is_success code = int_eq code (pos 0)

abbrev pub is_fail : ℤ → Bool
is_fail code = int_eq code (pos 1)

abbrev pub is_in_progress : ℤ → Bool
is_in_progress code = int_eq code (pos 2)

-- The polling loop: an answer with a code that is none of the three is asked for again.
unfoldable pub poll_build : List StatusAnswer → Held → Held × Ended
unfolding build_success build_failed
poll_build [] h = (h, polling)
poll_build (StatusAnswer.unreachable ∷ as') h = poll_build as' h
poll_build (StatusAnswer.answered code image stored ∷ as') h =
    let again = poll_build as' h in
    if is_in_progress code
    then again
    else if is_success code
    then (build_success stored image h, succeeded)
    else if is_fail code
    then (build_failed stored h, succeeded)
    else again

-- The fields of the path are read before each call of `Status`.
abbrev pub after_path : Made Text → Held → Held × Ended → Held × Ended
after_path (made t) h next = next
after_path (refused e) h next = (h, crashed)
after_path panicked h next = (h, crashed)

unfoldable pub poll : RepoInfo → List StatusAnswer → Held → Held × Ended
unfolding poll_build
poll r as' h = after_path (path_field r.path 1) h (poll_build as' h)

abbrev reported : ℤ → Text → Text
reported code msg =
    codes "image builder reported error,code:" ++ (decimal_ℤ code ++ (codes ",msg:" ++ msg))

-- What `Run` is answered before it polls.
pub record BuildCalls : Type 0 where
  pub db_error : Text
  pub token : Fetched AccessToken
  pub built : BuildAnswer
  pub stored : Bool
  pub polled : List StatusAnswer

abbrev pub on_built : RepoInfo → BuildCalls → BuildAnswer → Held → Held × Ended
on_built r c (BuildAnswer.unreachable e) h = (h, errored (codes "call image builder failed: " ++ e))
on_built r c (BuildAnswer.answered code msg) h =
    if int_eq code (pos 0)
    then poll r c.polled (build_in_progress c.stored h)
    else (h, errored (reported code msg))

abbrev pub on_request : RepoInfo → BuildCalls → Made BuildRequest → Held → Held × Ended
on_request r c (made q) h = on_built r c c.built h
on_request r c (refused e) h = (h, errored (codes "make build request failed: " ++ e))
on_request r c panicked h = (h, crashed)

-- `BuilderRunner.Run`
unfoldable pub run_build : RepoInfo → BuildCalls → Held → Held × Ended
unfolding poll build_in_progress make_build_request
run_build r c h =
    if int_eq h.task.status Task.build_pending
    then on_request r c (make_build_request r h c.db_error c.token) h
    else poll r c.polled h
