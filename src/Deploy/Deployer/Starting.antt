-- ===== src/Deploy/Deployer/Starting.antt =====
-- What `Deploy` leaves in the tables.
use csghub_server.Prelude.{
  ==_iff, append_assoc, codes, Text, ℕ, suc, true, false, some, [], ◌∷◌, ◌++◌, ◌==◌, ◌≡◌, refl, ◌⊎◌,
  inl, inr, pos, All, Bool-cases,
}
use csghub_server.Deploy.Deployer.{
  has_image, build_message, build_status, start_tasks, deploy, made, DeployRepo,
}
use csghub_server.Deploy.Hub.{create_deploy_task, Answers, Hub}
use csghub_server.Deploy.Store.{TaskRow, deploy_by_id, Deploy}
use csghub_server.Deploy.Repo.{made}
use csghub_server.Deploy.Deployer.Building.{Stored, Fails, KeysBelow, build_deploy_cases}

-- The image is not there, or its name has spaces only.
abbrev pub IsBlank : Text → Type 0
IsBlank = All (λ c. c ≡ 32)

-- A build task without an image is open; one with an image has the status of a skipped task, 4.
abbrev pub IsToBuild : Text → TaskRow → Type 0
IsToBuild image t =
    (IsBlank image × (t.status ≡ pos 0) × (t.message ≡ []))
    ⊎ ((¬ IsBlank image) × (t.status ≡ pos 4) × (t.message ≡ codes "Skip"))

-- A successful `Deploy`.
pub record Started (dr : DeployRepo) (h h' : Hub) (i : ℕ) : Type 0 where
  pub row : Deploy
  pub there' : deploy_by_id i h'.db.deploys ≡ some row
  pub user : row.user_uuid ≡ dr.user_uuid
  pub resource : row.sku ≡ dr.sku
  pub image : row.image_id ≡ dr.image_id
  pub build : TaskRow
  pub run : TaskRow
  pub tasks : h'.db.tasks ≡ h.db.tasks ++ build ∷ run ∷ []
  pub build_key : build.id ≡ h.next_task
  pub run_key : run.id ≡ suc h.next_task
  pub build_type : build.task_type ≡ 0
  pub run_type : run.task_type ≡ 1
  pub build_deploy_id : build.deploy_id ≡ i
  pub run_deploy_id : run.deploy_id ≡ i
  pub to_build : IsToBuild dr.image_id build
  pub to_run : (run.status ≡ pos 0) × (run.message ≡ [])
  pub queued : h'.queued ≡ h.queued ++ h.next_task ∷ []

image_cases :
    (image : Text)
    → (IsBlank image × (has_image image ≡ false)) ⊎ ((¬ IsBlank image) × (has_image image ≡ true))
image_cases [] = inl (tt, refl)
image_cases (c ∷ image) = elim (Bool-cases (c == 32)) [
  | inl space ↦ elim (image_cases image) [
    | inl (blank, e) ↦ inl (((==_iff c 32).0 space, blank), rw (space, e) refl)
    | inr (some_image, e) ↦ inr ((λ h. some_image h.1), rw (space, e) refl)
  ]
  | inr letter ↦ inr ((λ h. cc (letter, (==_iff c 32).1 h.0)), rw letter refl)
]

build_row : ℕ → Deploy → TaskRow
build_row n d = record {
  id = n;
  task_type = 0;
  status = build_status d;
  message = build_message d;
  deploy_id = d.id;
}

build_row-IsToBuild :
    (n : ℕ) (d : Deploy) (image : Text) → d.image_id ≡ image → IsToBuild image (build_row n d)
unfolding build_row
build_row-IsToBuild n d image same = elim (image_cases image) [
  | inl (blank, e) ↦ inl (blank, rw (same, e) refl, rw (same, e) refl)
  | inr (some_image, e) ↦ inr (some_image, rw (same, e) refl, rw (same, e) refl)
]

starts :
    (a : Answers) (dr : DeployRepo) (d : Deploy) (h h' : Hub)
    → a.creates_build ≡ true
    → a.creates_run ≡ true
    → Stored dr d h h'
    → Started dr h (start_tasks a d h').0 d.id
unfolding create_deploy_task build_row
starts a dr d h h' yb yr st = record {
  row = d;
  there' = rw (yb, yr) st.there';
  user = st.user;
  resource = st.resource;
  image = st.image;
  build = build_row h.next_task d;
  run = record {
    id = suc h.next_task;
    task_type = 1;
    status = pos 0;
    message = [];
    deploy_id = d.id;
  };
  tasks = rw (yb, yr, st.same_tasks, st.same_key, append_assoc) refl;
  build_key = refl;
  run_key = refl;
  build_type = refl;
  run_type = refl;
  build_deploy_id = refl;
  run_deploy_id = refl;
  to_build = build_row-IsToBuild h.next_task d dr.image_id st.image;
  to_run = (refl, refl);
  queued = rw (yb, yr, st.same_queue, st.same_key) refl;
}

-- If the keys of the deploys are below the next one and the two tasks can be inserted, then
-- `Deploy` either ends with an error or a panic and changes nothing, or it returns the key of a
-- deploy that is stored with the user, the resource and the image of the request, has added behind
-- the tasks that were there an open run task and before it a build task for that deploy, which is open
-- if the request has no image or only spaces for it and is marked as skipped otherwise, and has told
-- the scheduler of the build task.
pub deploy_lem :
    (a : Answers) (dr : DeployRepo) (h : Hub)
    → KeysBelow h.next_deploy h.db.deploys
    → a.creates_build ≡ true
    → a.creates_run ≡ true
    → Fails h (deploy a dr h)
      ⊎ ((i : ℕ) × ((deploy a dr h).1 ≡ made i) × Started dr h (deploy a dr h).0 i)
unfolding deploy
deploy_lem a dr h below yb yr = elim (build_deploy_cases a dr h below) [
  | inl (inl (e, r)) ↦ rw r (inl (inl (e, refl)))
  | inl (inr r) ↦ rw r (inl (inr refl))
  | inr (h', d, r, st) ↦ rw r (inr (d.id, refl, starts a dr d h h' yb yr st))
]
