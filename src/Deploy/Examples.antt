-- ===== src/Deploy/Examples.antt =====
-- Concrete deploys, tasks and answers, and the theorems at them.
use csghub_server.Deploy.Scheduler.Channel.{
  Reach-Ascending, pick, capacity, start, after, sent, fresh, task_ids, Ascending, Reach, System,
}
use csghub_server.Deploy.Build.Outcome.{
  poll_build-outcome, conclusion, poll_build-failed_silent, outcome,
}
use csghub_server.Deploy.CloneUrl.{build_http_clone_url}
use csghub_server.Deploy.Request.Env.{full_env-fixed}
use csghub_server.Deploy.Scheduler.Order.{next-repo_failed, is_due, next-Pick, Pick}
use csghub_server.Deploy.AppName.RoundTrip.{
  length-unique_space_app_name, parse-unique_space_app_name,
}
use csghub_server.Deploy.Repo.{made, polling, succeeded, Held, RepoInfo}
use csghub_server.Deploy.Request.{
  RunRequest, full_env, json_str_to_map, parsed, DeployConfig, Formats, StringMap,
  make_deploy_request,
}
use csghub_server.Deploy.Run.Ends.{run_deploy-no_image, run_deploy_ends}
use csghub_server.Deploy.Run.{started, Watch, Round, run_deploy}
use csghub_server.Deploy.Scheduler.Failure.{
  fail_deploy_following_tasks_lem, all_ok, fail_deploy_following_tasks-finished, stop_row,
  DistinctIds,
}
use csghub_server.Deploy.Scheduler.{
  with_repo, build_runner, sleep_task, Calls, Scheduler, Space, fail_deploy_following_tasks, next,
  query_next, repo_of,
}
use csghub_server.Deploy.AppName.{
  unique_space_app_name, number_to_string, parse_unique_space_app_name,
}
use csghub_server.Deploy.Run.Outcome.{run_deploy-InStep}
use csghub_server.Deploy.Run.Rows.{InStep}
use csghub_server.Deploy.Store.{get_new_task_first, Db, DeployTask, Deploy, TaskRow, is_unfinished}
use csghub_server.Prelude.{
  codes, Text, length, lookup, ℤ, ℕ, ◌≡◌, refl, ◌≢◌, inl, true, false, none, some, List, [], ◌∷◌,
  map, arith, In, here, ◌≤◌, found, no_rows, failed, pos,
}
use csghub_server.Deploy.Build.{StatusAnswer, poll_build}

abbrev text0 : Text
text0 = []

abbrev deploy7 : Deploy
deploy7 = record {
  id = 7;
  space_id = 3;
  status = 0;
  git_path = codes "ann/demo";
  git_branch = codes "main";
  env = [];
  secret = [];
  template = [];
  hardware = [];
  image_id = [];
  deploy_name = [];
  user_id = 5;
  model_id = 0;
  repo_id = 9;
  runtime_framework = [];
  container_port = 8080;
  annotation = [];
  min_replica = 0;
  max_replica = 1;
  svc_name = codes "u-ann-demo-3";
  endpoint = [];
  cluster_id = [];
  secure_level = 1;
  deploy_type = 0;
  user_uuid = [];
  sku = [];
}

abbrev task : ℕ → ℕ → ℤ → TaskRow
task i kind st = record { id = i; task_type = kind; status = st; message = []; deploy_id = 7 }

abbrev db0 : Db
db0 = record { deploys = deploy7 ∷ []; tasks = task 12 1 (pos 0) ∷ task 11 0 (pos 0) ∷ [] }

abbrev space3 : Space
space3 = record {
  id = 3;
  sdk = codes "gradio";
  sdk_version = [];
  repository = record {
    id = 9;
    path = codes "ann/demo";
    name = codes "demo";
    username = codes "ann";
    repository_type = codes "space";
  };
}

abbrev calls : Calls
calls = record {
  query_ok = true;
  space_by_id = λ i. found space3;
  model_by_id = λ i. no_rows;
  update_ok = true;
  public_domain = codes "https://hub";
}

abbrev sched0 : Scheduler
sched0 = record { last = none; db = db0 }

abbrev info : RepoInfo
info = record {
  deploy_id = 7;
  space_id = 3;
  model_id = 0;
  repo_id = 9;
  path = codes "ann/demo";
  name = codes "demo";
  sdk = codes "gradio";
  sdk_version = [];
  http_clone_url = codes "https://hub/spaces/ann/demo.git";
  user_name = codes "ann";
  repo_type = codes "space";
}

abbrev sched1 : Scheduler
sched1 = record { last = some (task 11 0 (pos 0)); db = db0 }

-- The build task is picked first, though it stands behind the run task in the table.
picks_build : next calls sched0 ≡ some (sched1, build_runner info (task 11 0 (pos 0)) deploy7)
unfolding next get_new_task_first with_repo repo_of build_http_clone_url query_next
picks_build = refl

next-Pick_example : Pick calls sched0 sched1 (build_runner info (task 11 0 (pos 0)) deploy7)
next-Pick_example =
    next-Pick calls sched0 sched1 (build_runner info (task 11 0 (pos 0)) deploy7) refl picks_build

abbrev system1 : System
system1 = record {
  sched = sched1;
  sending = some (build_runner info (task 11 0 (pos 0)) deploy7);
  queue = [];
  taken = [];
}

one_picked : Reach (fresh db0) system1
one_picked =
    after start (pick calls sched1 (build_runner info (task 11 0 (pos 0)) deploy7) refl picks_build)

Reach-Ascending_example : Ascending (task_ids (sent system1)) × (length system1.queue ≤ capacity)
Reach-Ascending_example = Reach-Ascending db0 system1 one_picked

abbrev down : Calls
down = record {
  query_ok = true;
  space_by_id = λ i. failed;
  model_by_id = λ i. no_rows;
  update_ok = true;
  public_domain = [];
}

abbrev loaded11 : DeployTask
loaded11 = record { row = task 11 0 (pos 0); deploy = some deploy7 }

first_found : query_next true none db0 ≡ found loaded11
unfolding query_next get_new_task_first
first_found = refl

store_down : repo_of down deploy7 ≡ failed
unfolding repo_of
store_down = refl

next-repo_failed_test :
    (next down sched0 ≡ some (record sched0 { last = some (task 11 0 (pos 0)) }, sleep_task))
    × ((u : TaskRow) → u.id ≤ 11 → is_due (some (task 11 0 (pos 0))) u ≡ false)
next-repo_failed_test =
    next-repo_failed down sched0 loaded11 deploy7 refl first_found refl store_down

distinct : DistinctIds db0.tasks
distinct = (((λ e. absurd (omega arith)), tt), (tt, tt))

fail_deploy_following_tasks_example :
    ((fail_deploy_following_tasks all_ok 11 (codes "x") db0).tasks
      ≡ map (stop_row 11 7 (codes "x")) db0.tasks)
    × ((fail_deploy_following_tasks all_ok 11 (codes "x") db0).deploys ≡ db0.deploys)
fail_deploy_following_tasks_example =
    fail_deploy_following_tasks_lem 11 (codes "x") db0 (task 11 0 (pos 0)) distinct refl

abbrev cancelled12 : TaskRow
cancelled12 = stop_row 11 7 (codes "x") (task 12 1 (pos 0))

run_task_stopped : In cancelled12 (fail_deploy_following_tasks all_ok 11 (codes "x") db0).tasks
unfolding fail_deploy_following_tasks
run_task_stopped = here

fail_deploy_following_tasks-finished_test : is_unfinished cancelled12 ≡ false
fail_deploy_following_tasks-finished_test =
    fail_deploy_following_tasks-finished 11 (codes "x") db0 (task 11 0 (pos 0)) cancelled12 distinct
      refl run_task_stopped refl (omega arith)

-- A build: one answer is in progress, then a failure.
abbrev held11 : Held
held11 = record { task = task 11 0 (pos 1); deploy = deploy7; db = db0 }

abbrev fails : List StatusAnswer
fails = StatusAnswer.answered (pos 2) [] true ∷ StatusAnswer.answered (pos 1) [] true ∷ []

poll_build-outcome_test : poll_build fails held11 ≡ outcome (conclusion fails) held11
poll_build-outcome_test = poll_build-outcome fails held11

build_fails : (poll_build fails held11).0.task.status ≡ pos 2
unfolding poll_build
build_fails = refl

poll_build-failed_silent_test :
    ((poll_build fails held11).1 ≡ succeeded)
    × In (task 12 1 (pos 0)) (poll_build fails held11).0.db.tasks
poll_build-failed_silent_test =
    poll_build-failed_silent fails held11 (task 12 1 (pos 0)) (λ e. ground arith) build_fails
      (λ e. absurd (omega arith)) here

-- A run that is asked for while there is no image.
abbrev formats : Formats
formats = record { json_map = λ t. parsed []; json_gpu_num = λ t. made []; join_path = λ a b. a }

abbrev config : DeployConfig
config = record {
  space_deploy_timeout = 30;
  model_deploy_timeout = 30;
  model_download_endpoint = codes "https://hub";
  public_root_domain = codes "apps";
  s3_internal = false;
}

abbrev round : ℕ → ℕ → Round
round code now = record {
  db_error = [];
  token = found (record { token = codes "t"; username = codes "ann" });
  stored_deploy = found deploy7;
  run_answer = started (codes "svc");
  started_at = 0;
  status = some (record { deploy_id = 7; code = code; message = []; endpoint = codes "url" });
  now = now;
  stop_error = none;
  start_stored = true;
  stored = true;
}

abbrev watch12 : ℤ → Watch
watch12 st = record { held = record { task = task 12 1 st; deploy = deploy7; db = db0 }; since = 0 }

no_image :
    (q : RunRequest) × (make_deploy_request formats config info []
        (found (record { token = codes "t"; username = codes "ann" }))
        (found deploy7)
      ≡ made q)
    × (q.image_id ≡ [])
unfolding make_deploy_request json_str_to_map
no_image = (_, refl, refl)

run_deploy-no_image_test :
    run_deploy formats config info (round 20 5 ∷ round 20 9 ∷ []) (watch12 (pos 0))
    ≡ (watch12 (pos 0), polling)
run_deploy-no_image_test =
    run_deploy-no_image formats config info (round 20 5 ∷ round 20 9 ∷ []) (watch12 (pos 0)) refl
      (no_image, (no_image, tt))

run_deploy_ends_example :
    (run_deploy formats config info (round 20 5 ∷ round 20 1800 ∷ []) (watch12 (pos 1))).1 ≢ polling
run_deploy_ends_example =
    run_deploy_ends formats config info (round 20 5 ∷ round 20 1800 ∷ []) (watch12 (pos 1))
      (inl refl) refl

-- The watch of a pending task whose rows are in the tables
abbrev pending_watch : Watch
pending_watch = record {
  held = record {
    task = task 12 1 (pos 0);
    deploy = deploy7;
    db = record { deploys = deploy7 ∷ []; tasks = task 12 1 (pos 0) ∷ [] };
  };
  since = 0;
}

pending-InStep : InStep 12 7 true pending_watch.held
pending-InStep = record {
  task_key = refl;
  deploy_key = refl;
  held = inl refl;
  rows = record {
    task = task 12 1 (pos 0);
    deploy = deploy7;
    task_there = refl;
    deploy_there = refl;
    agree = inl refl;
  };
  current = (refl, refl);
}

run_deploy-InStep_example :
    InStep 12 7 true
      (run_deploy formats config info (round 22 5 ∷ round 23 9 ∷ []) pending_watch).0.held
run_deploy-InStep_example =
    run_deploy-InStep 12 7 true formats config info (round 22 5 ∷ round 23 9 ∷ []) pending_watch
      ((refl, refl), ((refl, refl), tt)) pending-InStep

parse-unique_space_app_name_example :
    parse_unique_space_app_name
      (unique_space_app_name (codes "u") (codes "Ann_B") (codes "de-mo.x") 123456)
    ≡ 123456
parse-unique_space_app_name_example =
    parse-unique_space_app_name (codes "u") (codes "Ann_B") (codes "de-mo.x") 123456 (omega arith)

length-unique_space_app_name_test :
    length (unique_space_app_name (codes "u") (codes "ann") (codes "demo") 123456) ≤ 63
length-unique_space_app_name_test =
    length-unique_space_app_name (codes "u") (codes "ann") (codes "demo") 123456 (omega arith)

-- The number of the program's own test.
encoded : number_to_string 123456 ≡ codes "2n9c"
unfolding number_to_string
encoded = refl

abbrev own_vars : StringMap
own_vars = (codes "ACCESS_TOKEN", codes "mine") ∷ []

full_env-fixed_test :
    (lookup (codes "ACCESS_TOKEN") (full_env formats config info (codes "t") deploy7 [] own_vars)
      ≡ some (codes "t"))
    × (lookup (codes "REPO_ID") (full_env formats config info (codes "t") deploy7 [] own_vars)
        ≡ some (codes "ann/demo"))
    × (lookup (codes "REVISION") (full_env formats config info (codes "t") deploy7 [] own_vars)
        ≡ some (codes "main"))
full_env-fixed_test = full_env-fixed formats config info (codes "t") deploy7 [] own_vars
