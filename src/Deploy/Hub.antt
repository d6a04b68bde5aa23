-- ===== src/Deploy/Hub.antt =====
-- The tables of deploys and tasks as the deployer changes them (builder/store/database/deploy_task.go).
-- `created_at` is left out: the latest row is the one inserted last, with the greatest key.
use csghub_server.Deploy.Repo.{panicked, refused, made, Made}
use csghub_server.Deploy.Request.{serverless_type}
use csghub_server.Deploy.Store.{Db, Deploy}
use csghub_server.Prelude.{
  fetched, codes, Text, ℕ, suc, Bool, ◌&&◌, Option, none, some, List, [], ◌∷◌, ◌++◌, if◌then◌else◌,
  ◌==◌, ltb, ℤ, Fetched, failed,
}

-- The tables with the keys that the next rows get, and the tasks that the scheduler was told of.
pub record Hub : Type 0 where
  pub db : Db
  pub next_deploy : ℕ
  pub next_task : ℕ
  pub queued : List ℕ

-- Which calls of the store work, and the name that the generator of names would make.
pub record Answers : Type 0 where
  pub finds : Bool
  pub updates : Bool
  pub creates : Bool
  pub creates_build : Bool
  pub creates_run : Bool
  pub snowflake : Text

abbrev pub Result {ℓ} : Type ℓ → Type ℓ
Result A = Hub × Made A

-- The next statement, unless there was an error.
infixl 5 ◌>=>◌
abbrev pub ◌>=>◌ {ℓ κ} : {A : Type ℓ} {B : Type κ} → Result A → (A → Hub → Result B) → Result B
(h, made a) >=> f = f a h
(h, refused e) >=> f = (h, refused e)
(h, panicked) >=> f = (h, panicked)

-- `Order("created_at DESC").Limit(1)`
abbrev pub later : Deploy → Option Deploy → Deploy
later d none = d
later d (some e) = if ltb d.id e.id then e else d

unfoldable pub latest_of : ℕ → List Deploy → Option Deploy
latest_of s [] = none
latest_of s (d ∷ ds) =
    let rest = latest_of s ds in if d.space_id == s then some (later d rest) else rest

unfoldable pub get_latest_deploy_by_space_id : Bool → ℕ → Db → Fetched Deploy
get_latest_deploy_by_space_id works s db =
    if works then fetched (latest_of s db.deploys) else failed

abbrev pub is_serverless_of : ℕ → Deploy → Bool
is_serverless_of r d = d.repo_id == r && d.deploy_type == serverless_type

unfoldable pub first_serverless : ℕ → List Deploy → Option Deploy
first_serverless r [] = none
first_serverless r (d ∷ ds) = if is_serverless_of r d then some d else first_serverless r ds

unfoldable pub get_serverless_deploy_by_rep_id : Bool → ℕ → Db → Fetched Deploy
get_serverless_deploy_by_rep_id works r db =
    if works then fetched (first_serverless r db.deploys) else failed

-- An insert gives the row its key.
unfoldable pub create_deploy : Bool → Deploy → Hub → Result Deploy
create_deploy works d h =
    let row = record d { id = h.next_deploy } in
    if works
    then (
      record h {
        db = record h.db { deploys = h.db.deploys ++ row ∷ [] };
        next_deploy = suc h.next_deploy;
      },
      made row,
    )
    else (h, refused (codes "create deploy"))

-- `CreateDeployTask`, whose error the callers ignore: the key stays 0 then.
unfoldable pub create_deploy_task : Bool → ℕ → ℤ → Text → ℕ → Hub → Hub × ℕ
create_deploy_task works kind st msg d h =
    if works
    then (
      record h {
        db = record h.db {
          tasks =
              h.db.tasks
              ++ record {
                id = h.next_task;
                task_type = kind;
                status = st;
                message = msg;
                deploy_id = d;
              }
                ∷ [];
        };
        next_task = suc h.next_task;
      },
      h.next_task,
    )
    else (h, 0)

abbrev pub queue : Hub × ℕ → Hub
queue (h, i) = record h { queued = h.queued ++ i ∷ [] }
