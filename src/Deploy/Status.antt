-- ===== src/Deploy/Status.antt =====
-- The status codes of a deploy (builder/deploy/common/status.go) and of its tasks
-- (builder/deploy/scheduler/runner.go).
pub mod Task
use csghub_server.Prelude.{ℕ}

abbrev pub pending : ℕ
pending = 0

abbrev pub building : ℕ
building = 11

abbrev pub build_failed : ℕ
build_failed = 12

abbrev pub build_success : ℕ
build_success = 13

abbrev pub deploying : ℕ
deploying = 20

abbrev pub deploy_failed : ℕ
deploy_failed = 21

abbrev pub startup : ℕ
startup = 22

abbrev pub running : ℕ
running = 23

abbrev pub run_time_error : ℕ
run_time_error = 24

abbrev pub stopped : ℕ
stopped = 26

abbrev pub deleted : ℕ
deleted = 27
