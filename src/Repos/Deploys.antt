-- ===== src/Repos/Deploys.antt =====
-- component/repo.go: the deploys of a repository: who stops, deletes, starts and updates them. The
-- deployer's own part is that of `Deploy`; a call of the cluster that fails is only written to the log.
pub mod Effects
pub mod Shown
pub mod Rights
pub mod Stopped
mod Examples
use csghub_server.Repos.Store.{
  still_there, User, World, Env, Place, Outcome, ok, err, ◌>>=◌, ◌>>◌, guard, or_missing, Error,
  not_found, no_permission, store_failed, find_by_username, can_admin_site,
}
use csghub_server.Prelude.{
  Text, ℕ, Bool, ◌&&◌, Option, none, some, if◌then◌else◌, List, [], ◌∷◌, ◌++◌, map, keep, length,
  ◌==◌, Fetched, found, no_rows, failed,
}
use csghub_server.Deploy.Store.{Deploy, get_deploy_by_id}
use csghub_server.Deploy.Hub.{Hub, Answers}
use csghub_server.Deploy.Repo.{Made, made, refused, panicked}
use csghub_server.Deploy.Request.{serverless_type}
use csghub_server.Deploy.Deployer.{start_deploy}
use csghub_server.Deploy.Deployer.Service.{exist, CheckCode}
use csghub_server.Deploy.Deployer.Update.{
  DeployUpdateReq, RuntimeFramework, Stores, Updated, update_deploy_fields,
}
use csghub_server.Deploy.Status

-- A service as the cluster is asked for it: the number, the repository, the name and the cluster.
pub record Service : Type 0 where
  pub target : ℕ
  pub org_name : Text
  pub repo_name : Text
  pub svc_name : Text
  pub cluster_id : Text

pub data ClusterCall : Type 0 where
  stop purge : Service → ClusterCall

-- The users and repositories, the tables of the deploys, and what the cluster was asked to do.
pub record Site : Type 0 where
  pub world : World
  pub hub : Hub
  pub cluster : List ClusterCall

-- How one request is answered: by the tables of deploys, by the cluster, and by the other stores.
pub record DeployEnv : Type 0 where
  pub env : Env
  pub finds_deploy : Bool
  pub cluster_works : Bool
  pub check : Option CheckCode
  pub updates_status : Bool
  pub answers : Answers
  pub stores : Stores
  pub framework : Text → Outcome RuntimeFramework
  pub has_cluster : Text → Bool
  pub format : ℕ → Text
  pub parse : Text → Option Text

pub record DeployActReq : Type 0 where
  pub place : Place
  pub current_user : Text
  pub deploy_id : ℕ
  pub deploy_type : ℕ

abbrev pub Acted : Type 0
Acted = Site × Outcome (Unit {0})

abbrev pub row_found : Fetched Deploy → Outcome Deploy
row_found (found d) = ok d
row_found no_rows = err not_found
row_found failed = err store_failed

unfoldable pub find_deploy : DeployEnv → ℕ → Site → Outcome Deploy
find_deploy e i s = row_found (if e.finds_deploy then get_deploy_by_id i s.hub.db else failed)

-- `checkDeployPermissionForUser`
unfoldable pub check_for_user : DeployEnv → DeployActReq → Site → Outcome (User × Deploy)
check_for_user e q s = do
  u ← or_missing (find_by_username e.env q.current_user s.world)
  d ← find_deploy e q.deploy_id s
  guard (d.user_id == u.id) no_permission
  ok (u, d)

-- `checkDeployPermissionForServerless`
unfoldable pub check_for_serverless : DeployEnv → DeployActReq → Site → Outcome (User × Deploy)
check_for_serverless e q s = do
  u ← find_by_username e.env q.current_user s.world
  guard (can_admin_site u) no_permission
  d ← find_deploy e q.deploy_id s
  ok (u, d)

unfoldable pub check_deploy : DeployEnv → DeployActReq → Site → Outcome (User × Deploy)
check_deploy e q s =
    if q.deploy_type == serverless_type then check_for_serverless e q s else check_for_user e q s

abbrev pub permitted : Outcome (User × Deploy) → (User → Deploy → Site → Acted) → Site → Acted
permitted (ok x) f s = f (x.0) (x.1) s
permitted (err e) f s = (s, err e)

-- `targetID` of the deployer
abbrev pub service : ℕ → DeployActReq → Deploy → Service
service space q d = record {
  target = if space == 0 then q.deploy_id else space;
  org_name = q.place.namespace;
  repo_name = q.place.name;
  svc_name = d.svc_name;
  cluster_id = d.cluster_id;
}

-- The answer of the cluster, and whether the service is still there.
abbrev pub must_be_gone : DeployEnv → (Site → Acted) → Site → Acted
must_be_gone e next s =
    let (there, fails) = exist e.check in
    if fails then (s, err store_failed) else if there then (s, err still_there) else next s

abbrev pub is_row : ℕ → ℕ → ℕ → Deploy → Bool
is_row i r u d = d.id == i && (d.repo_id == r && d.user_id == u)

abbrev pub with_status : ℕ → (Deploy → Bool) → Deploy → Deploy
with_status code p d = if p d then record d { status = code } else d

-- `DeleteDeploy` and `StopDeploy` of the store: the row has to be that of the repository and the
-- user, and more or fewer than one row changed are an error.
unfoldable pub set_status : Bool → ℕ → ℕ → ℕ → ℕ → Site → Acted
set_status works code i r u s =
    let db = s.hub.db in
    let changed = record db { deploys = map (with_status code (is_row i r u)) db.deploys } in
    let s' = record s { hub = record s.hub { db = changed } } in
    if works
    then (s', if length (keep (is_row i r u) db.deploys) == 1 then ok tt else err store_failed)
    else (s, err store_failed)

abbrev pub ask : DeployEnv → ClusterCall → Site → Site
ask e c s = if e.cluster_works then record s { cluster = s.cluster ++ c ∷ [] } else s

unfoldable pub deploy_stop : DeployEnv → DeployActReq → Site → Acted
deploy_stop e q s =
    permitted (check_deploy e q s)
      (λ u d t.
        must_be_gone e (set_status e.updates_status Status.stopped q.deploy_id d.repo_id u.id)
          (ask e (stop (service d.space_id q d)) t))
      s

-- Deleting is for the creator alone, whatever the type.
unfoldable pub delete_deploy : DeployEnv → DeployActReq → Site → Acted
delete_deploy e q s =
    permitted (check_for_user e q s)
      (λ u d t.
        must_be_gone e (set_status e.updates_status Status.deleted q.deploy_id d.repo_id u.id)
          (ask e (purge (service 0 q d)) t))
      s

abbrev pub started : Site → Hub × Made (Unit {0}) → Acted
started s (h, made a) = (record s { hub = h }, ok tt)
started s (h, refused m) = (record s { hub = h }, err store_failed)
started s (h, panicked) = (record s { hub = h }, err Error.panicked)

unfoldable pub deploy_start : DeployEnv → DeployActReq → Site → Acted
deploy_start e q s =
    permitted (check_deploy e q s)
      (λ u d. must_be_gone e (λ t. started t (start_deploy e.answers d t.hub))) s

abbrev pub by_resource :
    Outcome RuntimeFramework → DeployUpdateReq → Option ℕ → Outcome DeployUpdateReq
by_resource f r none = ok r
by_resource f r (some i) = f >>= λ x. ok (record r { runtime_framework_id = some x.id })

-- A change of the resource asks for the runtime framework of the deploy, by its name.
abbrev pub with_framework : DeployEnv → Deploy → DeployUpdateReq → Outcome DeployUpdateReq
with_framework e d r = by_resource (e.framework d.runtime_framework) r r.resource_id

abbrev pub in_cluster : DeployEnv → Option Text → Outcome (Unit {0})
in_cluster e none = ok tt
in_cluster e (some c) = guard (e.has_cluster c) not_found

abbrev pub after : Outcome DeployUpdateReq → (DeployUpdateReq → Site → Acted) → Site → Acted
after (ok r) f s = f r s
after (err e) f s = (s, err e)

abbrev pub updated : Site → Updated → Acted
updated s (d, db, none) = (record s { hub = record s.hub { db = db } }, ok tt)
updated s (d, db, some x) = (record s { hub = record s.hub { db = db } }, err store_failed)

abbrev pub update_gone : DeployEnv → Deploy → DeployUpdateReq → Site → Acted
update_gone e d r =
    must_be_gone e (λ t. updated t (update_deploy_fields e.format e.parse e.stores r d t.hub.db))

unfoldable pub deploy_update : DeployEnv → DeployActReq → DeployUpdateReq → Site → Acted
deploy_update e q r s =
    permitted (check_deploy e q s)
      (λ u d t.
        after (with_framework e d r >>= λ r'. in_cluster e r.cluster_id >> ok r') (update_gone e d)
          t)
      s
