-- ===== src/Deploy/Run/Outcome.antt =====
-- The states of a run task, and how a run ends.
use csghub_server.Deploy.Run.Rows.{Works, InStep, store-InStep}
use csghub_server.Prelude.{
  All, int_eq, refl, inl, is_empty, Bool-cases, inr, Text, ℕ, Option, none, some, pos,
  if◌then◌else◌, ◌==◌, ltb,
}
use mathlib.Core.Bool.{false, true}
use csghub_server.Deploy.Run.{
  cancel_deploy, is_timed_out, after_turn, int_eq, is_empty, started, unavailable, on_started,
  RunAnswer, ◌∷◌, List, on_request, run_deploy, turn, Text, Bool, watch_status, RunStatus, Round,
  DeployConfig, runtime_error, running, deploy_failed, deploy_success, end, again,
  deploy_in_progress, Watch, on_status, Turn, on_answer,
}
use mathlib.Core.List.{[]}
use csghub_server.Deploy.Repo.{path_field, panicked, refused, made, Made, RepoInfo, Held}
use csghub_server.Deploy.Request.{make_deploy_request, RunRequest, Formats, DeployConfig}
use csghub_server.Deploy.Status

abbrev watch_of : Turn → Watch
watch_of (again w) = w
watch_of (end w e) = w

abbrev Leaves : ℕ → ℕ → Bool → Turn → Type 0
Leaves i j all_work t = InStep i j all_work (watch_of t).held

-- The transactions of the round work, if all of them are to.
abbrev pub RoundWorks : Bool → Round → Type 0
RoundWorks all_work o = Works all_work o.start_stored × Works all_work o.stored

if_Leaves :
    (i j : ℕ) (all_work b : Bool) (t u : Turn)
    → Leaves i j all_work t
    → Leaves i j all_work u
    → Leaves i j all_work (if b then t else u)
if_Leaves i j all_work true t u x y = x
if_Leaves i j all_work false t u x y = y

module _ (i j : ℕ) (all_work stored : Bool) (works : Works all_work stored) where
  deploy_in_progress-InStep :
      (svc : Text) (h : Held)
      → InStep i j all_work h
      → InStep i j all_work (deploy_in_progress stored svc h)
  unfolding deploy_in_progress
  deploy_in_progress-InStep svc h s =
      store-InStep i j all_work stored _ _ _ h works s.task_key s.deploy_key refl (λ old. refl) s

  deploy_success-InStep :
      (h : Held) → InStep i j all_work h → InStep i j all_work (deploy_success stored h)
  unfolding deploy_success
  deploy_success-InStep h s =
      store-InStep i j all_work stored _ _ _ h works s.task_key s.deploy_key refl (λ old. refl) s

  deploy_failed-InStep :
      (msg : Text) (h : Held)
      → InStep i j all_work h
      → InStep i j all_work (deploy_failed stored msg h)
  unfolding deploy_failed
  deploy_failed-InStep msg h s =
      store-InStep i j all_work stored _ _ _ h works s.task_key s.deploy_key refl (λ old. refl) s

  running-InStep :
      (url : Text) (h : Held) → InStep i j all_work h → InStep i j all_work (running stored url h)
  unfolding running
  running-InStep url h s =
      store-InStep i j all_work stored _ _ _ h works s.task_key s.deploy_key refl (λ old. refl) s

  runtime_error-InStep :
      (msg : Text) (h : Held)
      → InStep i j all_work h
      → InStep i j all_work (runtime_error stored msg h)
  unfolding runtime_error
  runtime_error-InStep msg h s =
      store-InStep i j all_work stored _ _ _ h works s.task_key s.deploy_key refl (λ old. refl) s

  cancel_deploy-Leaves :
      (e : Option Text) (w : Watch)
      → InStep i j all_work w.held
      → Leaves i j all_work (cancel_deploy e stored w)
  cancel_deploy-Leaves none w h = deploy_failed-InStep _ w.held h
  cancel_deploy-Leaves (some e) w h = h

module _ (i j : ℕ) (all_work : Bool) (cfg : DeployConfig) (o : Round)
    (works : RoundWorks all_work o) where
  on_status-Leaves :
      (s : RunStatus) (w : Watch)
      → InStep i j all_work w.held
      → Leaves i j all_work (on_status cfg o s w)
  unfolding on_status
  on_status-Leaves s w h =
      let either = if_Leaves i j all_work in
      let by_time =
        either (is_timed_out cfg o w) _ _
          (cancel_deploy-Leaves i j all_work o.stored works.1 o.stop_error w h)
          (deploy_in_progress-InStep i j all_work o.stored works.1 [] w.held h) in
      let failed = deploy_failed-InStep i j all_work o.stored works.1 s.message w.held h in
      let success = deploy_success-InStep i j all_work o.stored works.1 w.held h in
      let runs = running-InStep i j all_work o.stored works.1 s.endpoint w.held h in
      let broken = runtime_error-InStep i j all_work o.stored works.1 s.message w.held h in
      either (s.code == Status.deploying) _ _ by_time (
        either (s.code == Status.deploy_failed) _ _ failed (
          either (s.code == Status.startup) _ _ success (
            either (s.code == Status.running) _ _ runs
              (either (s.code == Status.run_time_error) _ _ broken h))))

  on_answer-Leaves :
      (a : Option RunStatus) (w : Watch)
      → InStep i j all_work w.held
      → Leaves i j all_work (on_answer cfg o a w)
  unfolding on_answer
  on_answer-Leaves none w h = h
  on_answer-Leaves (some s) w h = elim (Bool-cases (ltb w.held.task.deploy_id s.deploy_id)) [
    | inl newer ↦ rw newer (deploy_failed-InStep i j all_work o.stored works.1 _ w.held h)
    | inr same ↦ rw same (on_status-Leaves s w h)
  ]

  watch_status-Leaves :
      (p : Made Text) (w : Watch)
      → InStep i j all_work w.held
      → Leaves i j all_work (watch_status cfg o p w)
  unfolding watch_status
  watch_status-Leaves (made t) w h = on_answer-Leaves o.status w h
  watch_status-Leaves (refused e) w h = h
  watch_status-Leaves panicked w h = h

  on_request-Leaves :
      (r : RepoInfo) (q : Made RunRequest) (w : Watch)
      → InStep i j all_work w.held
      → Leaves i j all_work (on_request cfg r o q w)
  on_request-Leaves r (made q) w h = elim (Bool-cases (is_empty q.image_id)) [
    | inl e ↦ rw e h
    | inr e ↦ rw e (on_started-Leaves o.run_answer)
  ]
    where
      on_started-Leaves : (a : RunAnswer) → Leaves i j all_work (on_started cfg r o a w)
      on_started-Leaves (unavailable x) = h
      on_started-Leaves (started svc) =
          watch_status-Leaves _ _
            (deploy_in_progress-InStep i j all_work o.start_stored works.0 svc w.held h)
  on_request-Leaves r (refused e) w h = h
  on_request-Leaves r panicked w h = h

  turn-Leaves :
      (fm : Formats) (r : RepoInfo) (w : Watch)
      → InStep i j all_work w.held
      → Leaves i j all_work (turn fm cfg r o w)
  unfolding turn
  turn-Leaves fm r w h = elim (Bool-cases (int_eq w.held.task.status (pos 0))) [
    | inl e ↦
        rw e (
          on_request-Leaves r (make_deploy_request fm cfg r o.db_error o.token o.stored_deploy) w h)
    | inr e ↦ rw e (watch_status-Leaves (path_field r.path 1) w h)
  ]

-- Over any answers: if the runner holds the task and the deploy of two keys, the tables have a row for
-- each, and both the task and the deploy that are held and the two rows agree, which is that the task
-- is pending or the deploy has the status that goes with that of the task, then all this is so after
-- the run, whichever transactions fail; and if all of them work and the two rows have the statuses
-- that are held, then so they do after the run.
pub run_deploy-InStep :
    (i j : ℕ) (all_work : Bool) (fm : Formats) (cfg : DeployConfig) (r : RepoInfo) (os : List Round)
    (w : Watch)
    → All (RoundWorks all_work) os
    → InStep i j all_work w.held
    → InStep i j all_work (run_deploy fm cfg r os w).0.held
unfolding run_deploy
run_deploy-InStep i j all_work fm cfg r [] w works h = h
run_deploy-InStep i j all_work fm cfg r (o ∷ os) w works h =
    after (turn fm cfg r o w) (turn-Leaves i j all_work cfg o works.0 fm r w h)
      (λ w' h'. run_deploy-InStep i j all_work fm cfg r os w' works.1 h')
  where
    after :
        (t : Turn)
        → Leaves i j all_work t
        → ((w' : Watch)
            → InStep i j all_work w'.held
            → InStep i j all_work (run_deploy fm cfg r os w').0.held)
        → InStep i j all_work (after_turn (run_deploy fm cfg r os) t).0.held
    after (again w') h' next = next w' h'
    after (end w' e) h' next = h'
