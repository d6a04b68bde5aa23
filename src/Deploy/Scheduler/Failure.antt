-- ===== src/Deploy/Scheduler/Failure.antt =====
-- What `failDeployFollowingTasks` leaves behind.
use csghub_server.Deploy.Scheduler.{codes, ltb, FailCalls, fail_deploy_following_tasks, fail_row}
use csghub_server.Prelude.{
  codes, ltb, not, subst, In-map, ◌∙◌, Bool-cases, ◌==◌, ◌≤◌, All-In, Text, map-cong, ℕ, ◌≡◌, refl,
  ◌≢◌, inl, inr, Bool, true, false, some, List, [], ◌∷◌, map, arith, All, In, here, there, keep,
  if◌then◌else◌,
}
use csghub_server.Deploy.Status.Task
use csghub_server.Deploy.Store.{
  Db, is_unfinished, task_by_id, write_task, write_row, TaskColumn, TaskRow,
}

-- The rows of a table have different keys.
abbrev pub DistinctIds : List TaskRow → Type 0
DistinctIds [] = Unit
DistinctIds (t ∷ ts) = All (λ u. u.id ≢ t.id) ts × DistinctIds ts

-- The bulk update of the rows that pass a test, each by a function of itself.
module _ (cs : List TaskColumn) (p : TaskRow → Bool) (f : TaskRow → TaskRow)
    (same_id : (t : TaskRow) → (f t).id ≡ t.id) where
  write_row_absent :
      (ts : List TaskRow) (x : TaskRow)
      → All (λ u. u.id ≢ x.id) ts
      → write_row cs (map f (keep p ts)) x ≡ x
  write_row_absent [] x h = refl
  write_row_absent (t ∷ ts) x h = ground (arith, same_id t, h.0, write_row_absent ts x h.1)

  write_row_present :
      (ts : List TaskRow) (x : TaskRow)
      → DistinctIds ts
      → In x ts
      → write_row cs (map f (keep p ts)) x ≡ (if p x then write_task cs (f x) x else x)
  write_row_present [] x d m = elim m [ ]
  write_row_present (t ∷ ts) x d here = ground (arith, same_id t, write_row_absent ts t d.0)
  write_row_present (t ∷ ts) x d (there m) =
      ground (arith, same_id t, All-In (λ u. u.id ≢ t.id) ts d.0 m, write_row_present ts x d.1 m)

  pub map-write_row :
      (ts : List TaskRow)
      → DistinctIds ts
      → map (write_row cs (map f (keep p ts))) ts
        ≡ map (λ x. if p x then write_task cs (f x) x else x) ts
  map-write_row ts d = map-cong _ _ ts (λ x m. write_row_present ts x d m)

-- All three calls go through.
abbrev pub all_ok : FailCalls
all_ok = record { get_ok = true; list_ok = true; stored = true }

-- What one row of the table becomes when task `i` of deploy `d` has failed.
abbrev pub stop_row : ℕ → ℕ → Text → TaskRow → TaskRow
stop_row i d reason x =
    if not (x.deploy_id == d)
    then x
    else if ltb x.id i
    then x
    else if x.id == i
    then record x { status = Task.build_failed; message = reason }
    else record x { status = Task.cancelled; message = codes "cancel as previous task failed" }

fail_row-id : (i : ℕ) (reason : Text) (t : TaskRow) → (fail_row i reason t).id ≡ t.id
fail_row-id i reason t = ground arith

task_by_id-id : (i : ℕ) (ts : List TaskRow) (t : TaskRow) → task_by_id i ts ≡ some t → t.id ≡ i
task_by_id-id i [] t h = absurd (cc)
task_by_id-id i (u ∷ ts) t h = elim (Bool-cases (u.id == i)) [
  | inl e ↦ let e' : some u ≡ some t = rw e at h in ground (arith, e')
  | inr e ↦ task_by_id-id i ts t (rw e at h)
]

stop_row-write :
    (i d : ℕ) (reason : Text) (x : TaskRow)
    → (if x.deploy_id == d
        then write_task (TaskColumn.status ∷ TaskColumn.message ∷ []) (fail_row i reason x) x
        else x)
      ≡ stop_row i d reason x
stop_row-write i d reason x = ground arith

-- If the rows have different keys and task `i` is there, then `failDeployFollowingTasks`, when its
-- calls go through, leaves every row of other deploys and every earlier row of the deploy as it
-- was, marks the row of the task as failed with the reason, and every later row of the deploy as
-- cancelled. The deploys do not change.
pub fail_deploy_following_tasks_lem :
    (i : ℕ) (reason : Text) (db : Db) (t : TaskRow)
    → DistinctIds db.tasks
    → task_by_id i db.tasks ≡ some t
    → ((fail_deploy_following_tasks all_ok i reason db).tasks
        ≡ map (stop_row i t.deploy_id reason) db.tasks)
      × ((fail_deploy_following_tasks all_ok i reason db).deploys ≡ db.deploys)
unfolding fail_deploy_following_tasks
fail_deploy_following_tasks_lem i reason db t d h =
    rw (h, task_by_id-id i db.tasks t h)
      (
        map-write_row (TaskColumn.status ∷ TaskColumn.message ∷ [])
              (λ x. x.deploy_id == t.deploy_id) (fail_row i reason) (fail_row-id i reason) db.tasks
              d
            ∙ map-cong _ _ db.tasks (λ x m. stop_row-write i t.deploy_id reason x),
        refl,
      )

stop_row-finished :
    (i d : ℕ) (reason : Text) (x : TaskRow)
    → (stop_row i d reason x).deploy_id ≡ d
    → i ≤ (stop_row i d reason x).id
    → is_unfinished (stop_row i d reason x) ≡ false
unfolding is_unfinished
stop_row-finished i d reason x same later = ground arith

-- Under the same conditions no query for a new task finds the failed task or a later task of its
-- deploy again: none of them is unfinished.
pub fail_deploy_following_tasks-finished :
    (i : ℕ) (reason : Text) (db : Db) (t u : TaskRow)
    → DistinctIds db.tasks
    → task_by_id i db.tasks ≡ some t
    → In u (fail_deploy_following_tasks all_ok i reason db).tasks
    → u.deploy_id ≡ t.deploy_id
    → i ≤ u.id
    → is_unfinished u ≡ false
fail_deploy_following_tasks-finished i reason db t u d h m same later =
    let (x, mx, e) =
      In-map (stop_row i t.deploy_id reason) db.tasks
        (subst (In u) (fail_deploy_following_tasks_lem i reason db t d h).0 m) in
    rw e (stop_row-finished i t.deploy_id reason x (rw (← e) same) (rw (← e) later))
