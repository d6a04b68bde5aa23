-- ===== src/Deploy/Run/Rows.antt =====
-- The rows of a run task and its deploy in the tables, and what a transaction of the runner makes of
-- them (builder/store/database/deploy_task.go).
use csghub_server.Prelude.{
  ap, ℤ, ℕ, zero, suc, pos, negsuc, Bool, true, false, Option, none, some, List, [], ◌∷◌, map, ◌≡◌,
  refl, ◌∙◌, ◌⊎◌, inl, inr, Bool-cases, ◌==◌, ==_iff,
}
use csghub_server.Deploy.Repo.{Held}
use csghub_server.Deploy.Run.{store}
use csghub_server.Deploy.Store.{
  Deploy, TaskRow, Db, DeployColumn, TaskColumn, deploy_by_id, task_by_id, write_deploy, write_task,
  write_row, write_deploys, update_in_tx,
}

-- The status of a deploy that goes with that of its run task, once the task is not pending.
abbrev pub deploy_status : ℤ → Option ℕ
deploy_status (negsuc n) = none
deploy_status (pos zero) = none
deploy_status (pos (suc zero)) = some 20
deploy_status (pos (suc (suc zero))) = some 21
deploy_status (pos (suc (suc (suc zero)))) = some 22
deploy_status (pos (suc (suc (suc (suc zero))))) = some 23
deploy_status (pos (suc (suc (suc (suc (suc n)))))) = some 24

-- A pending task goes with any deploy, another one with a deploy that tells the same.
abbrev pub Agree : TaskRow → Deploy → Type 0
Agree t d = (t.status ≡ pos 0) ⊎ (deploy_status t.status ≡ some d.status)

-- The tables have a row of the task and one of the deploy, and these two agree.
pub record RowsAgree (task_id deploy_id : ℕ) (db : Db) : Type 0 where
  pub task : TaskRow
  pub deploy : Deploy
  pub task_there : task_by_id task_id db.tasks ≡ some task
  pub deploy_there : deploy_by_id deploy_id db.deploys ≡ some deploy
  pub agree : Agree task deploy

-- The transaction works, if all of them are to.
abbrev pub Works : Bool → Bool → Type 0
Works false stored = Unit
Works true stored = stored ≡ true

-- The rows have the status of the task and of the deploy that are held, if all transactions work.
abbrev pub Current : {i j : ℕ} → Bool → (h : Held) → RowsAgree i j h.db → Type 0
Current false h rows = Unit
Current true h rows = (rows.task.status ≡ h.task.status) × (rows.deploy.status ≡ h.deploy.status)

-- What the runner holds and what the tables have, where all transactions work or any of them may fail.
pub record InStep (task_id deploy_id : ℕ) (all_work : Bool) (h : Held) : Type 0 where
  pub task_key : h.task.id ≡ task_id
  pub deploy_key : h.deploy.id ≡ deploy_id
  pub held : Agree h.task h.deploy
  pub rows : RowsAgree task_id deploy_id h.db
  pub current : Current all_work h rows

abbrev pub both_columns : List TaskColumn
both_columns = TaskColumn.status ∷ TaskColumn.message ∷ []

own_key : (a i k : ℕ) → (a == i) ≡ true → k ≡ i → (a == k) ≡ true
own_key a i k own same = rw same own

other_key : (a i k : ℕ) → (a == i) ≡ false → k ≡ i → (a == k) ≡ false
other_key a i k other same = rw same other

first_task : (t : TaskRow) (ts : List TaskRow) (i : ℕ) → t.id ≡ i → task_by_id i (t ∷ ts) ≡ some t
first_task t ts i same = rw ((==_iff t.id i).1 same) refl

first_deploy : (d : Deploy) (ds : List Deploy) (i : ℕ) → d.id ≡ i → deploy_by_id i (d ∷ ds) ≡ some d
first_deploy d ds i same = rw ((==_iff d.id i).1 same) refl

task_by_id-write :
    (i : ℕ) (t new : TaskRow) (ts : List TaskRow)
    → new.id ≡ i
    → task_by_id i ts ≡ some t
    → task_by_id i (map (write_row both_columns (new ∷ [])) ts)
      ≡ some (record t { status = new.status; message = new.message })
task_by_id-write i t new [] same h = absurd (cc (h))
task_by_id-write i t new (u ∷ ts) same h = elim (Bool-cases (u.id == i)) [
  | inl own ↦
      (let one : u ≡ t = cc (rw own at h) in
        rw (own_key u.id i new.id own same) (
          first_task (write_task both_columns new u) _ i ((==_iff u.id i).0 own)
          ∙ ap {A = TaskRow} (λ x. some (write_task both_columns new x)) one))
  | inr other ↦
      rw (other_key u.id i new.id other same, other)
        (task_by_id-write i t new ts same (rw other at h))
]

write_deploy-id :
    (cs : List DeployColumn) (new old : Deploy) → (write_deploy cs new old).id ≡ old.id
write_deploy-id [] new old = refl
write_deploy-id (DeployColumn.status ∷ cs) new old = write_deploy-id cs new _
write_deploy-id (DeployColumn.svc_name ∷ cs) new old = write_deploy-id cs new _
write_deploy-id (DeployColumn.image_id ∷ cs) new old = write_deploy-id cs new _
write_deploy-id (DeployColumn.endpoint ∷ cs) new old = write_deploy-id cs new _

deploy_by_id-write :
    (cs : List DeployColumn) (i : ℕ) (d new : Deploy) (ds : List Deploy)
    → new.id ≡ i
    → deploy_by_id i ds ≡ some d
    → deploy_by_id i (write_deploys cs (some new) ds) ≡ some (write_deploy cs new d)
deploy_by_id-write cs i d new [] same h = absurd (cc (h))
deploy_by_id-write cs i d new (e ∷ ds) same h = elim (Bool-cases (e.id == i)) [
  | inl own ↦
      (let one : e ≡ d = cc (rw own at h) in
        rw (own_key e.id i new.id own same) (
          first_deploy (write_deploy cs new e) _ i
            (write_deploy-id cs new e ∙ (==_iff e.id i).0 own)
          ∙ ap {A = Deploy} (λ x. some (write_deploy cs new x)) one))
  | inr other ↦
      rw (other_key e.id i new.id other same, other)
        (deploy_by_id-write cs i d new ds same (rw other at h))
]

-- A transaction that writes the status of both keeps them in step, and so does one that fails.
pub store-InStep :
    (i j : ℕ) (all_work stored : Bool) (cs : List DeployColumn) (t : TaskRow) (d : Deploy)
    (h : Held)
    → Works all_work stored
    → t.id ≡ i
    → d.id ≡ j
    → deploy_status t.status ≡ some d.status
    → ((old : Deploy) → (write_deploy cs d old).status ≡ d.status)
    → InStep i j all_work h
    → InStep i j all_work (store stored cs t d h)
unfolding update_in_tx
store-InStep i j true false cs t d h works ti dj same writes s = absurd (cc (works))
store-InStep i j false false cs t d h works ti dj same writes s = record {
  task_key = ti;
  deploy_key = dj;
  held = inr same;
  rows = s.rows;
  current = tt;
}
store-InStep i j all_work true cs t d h works ti dj same writes s = record {
  task_key = ti;
  deploy_key = dj;
  held = inr same;
  rows = written;
  current = now all_work;
}
  where
    written : RowsAgree i j (store true cs t d h).db
    written = record {
      task = record s.rows.task { status = t.status; message = t.message };
      deploy = write_deploy cs d s.rows.deploy;
      task_there = task_by_id-write i s.rows.task t h.db.tasks ti s.rows.task_there;
      deploy_there = deploy_by_id-write cs j s.rows.deploy d h.db.deploys dj s.rows.deploy_there;
      agree = inr (rw (writes s.rows.deploy) same);
    }

    now : (b : Bool) → Current b (store true cs t d h) written
    now false = tt
    now true = (refl, writes s.rows.deploy)
