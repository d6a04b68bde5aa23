-- ===== src/Deploy/Status/Task.antt =====
-- The status codes of a task, builder/deploy/scheduler/runner.go: build and run tasks share numbers.
use csghub_server.Prelude.{ℤ, pos, negsuc}

abbrev pub cancelled : ℤ
cancelled = negsuc 0

abbrev pub build_pending : ℤ
build_pending = pos 0

abbrev pub build_in_progress : ℤ
build_in_progress = pos 1

abbrev pub build_failed : ℤ
build_failed = pos 2

abbrev pub build_succeed : ℤ
build_succeed = pos 3

abbrev pub build_skip : ℤ
build_skip = pos 4

abbrev pub deploy_pending : ℤ
deploy_pending = pos 0

abbrev pub deploying : ℤ
deploying = pos 1

abbrev pub deploy_failed : ℤ
deploy_failed = pos 2

abbrev pub deploy_start_up : ℤ
deploy_start_up = pos 3

abbrev pub deploy_running : ℤ
deploy_running = pos 4

abbrev pub deploy_run_time_error : ℤ
deploy_run_time_error = pos 5
