-- ===== src/Repos/Deploys/Effects.antt =====
-- Who acts on a deploy, and what stopping one does.
use csghub_server.Prelude.{Bool, true, false, if◌then◌else◌, ◌≡◌, ◌==◌, ==_iff, ◌⊎◌, inl, inr, refl}
use csghub_server.Repos.Store.{
  User, Outcome, ok, err, guard, guard-ok, bind-ok, or_missing, or_missing-ok, Error, no_permission,
  find_by_username, can_admin_site,
}
use csghub_server.Deploy.Store.{Deploy}
use csghub_server.Deploy.Request.{serverless_type}
use csghub_server.Deploy.Deployer.Update.{DeployUpdateReq}
use csghub_server.Repos.Deploys.{
  Site, DeployEnv, DeployActReq, Acted, find_deploy, check_for_user, check_for_serverless,
  check_deploy, permitted, deploy_stop, delete_deploy, deploy_start, deploy_update,
}

-- The user created the deploy.
pub record Created (e : DeployEnv) (q : DeployActReq) (s : Site) : Type 0 where
  pub user : User
  pub deploy : Deploy
  pub user_there : find_by_username e.env q.current_user s.world ≡ ok user
  pub deploy_there : find_deploy e q.deploy_id s ≡ ok deploy
  pub created_by : deploy.user_id ≡ user.id

-- The request is for a serverless deploy, and the user administers the site.
pub record Administers (e : DeployEnv) (q : DeployActReq) (s : Site) : Type 0 where
  pub user : User
  pub user_there : find_by_username e.env q.current_user s.world ≡ ok user
  pub is_serverless : q.deploy_type ≡ serverless_type
  pub is_admin : can_admin_site user ≡ true

-- The operation ended with an error and changed nothing.
abbrev pub Unchanged : Site → Acted → Type 0
Unchanged s d = (x : Error) × (d ≡ (s, err x))

module _ (e : DeployEnv) (q : DeployActReq) (s : Site) where
  check_for_user-Created : (x : User × Deploy) → check_for_user e q s ≡ ok x → Created e q s
  unfolding check_for_user
  check_for_user-Created x h =
      let (u, named, h1) =
        bind-ok (or_missing (find_by_username e.env q.current_user s.world)) _ x h in
      let (d, there, h2) = bind-ok (find_deploy e q.deploy_id s) _ x h1 in
      let (y, mine, h3) = bind-ok (guard (d.user_id == u.id) no_permission) _ x h2 in
      record {
        user = u;
        deploy = d;
        user_there = or_missing-ok _ u named;
        deploy_there = there;
        created_by = (==_iff d.user_id u.id).0 (guard-ok _ no_permission y mine);
      }

  check_deploy-if :
      (b : Bool) (x : User × Deploy)
      → (q.deploy_type == serverless_type) ≡ b
      → (if b then check_for_serverless e q s else check_for_user e q s) ≡ ok x
      → Created e q s ⊎ Administers e q s
  unfolding check_for_serverless
  check_deploy-if false x t h = inl (check_for_user-Created x h)
  check_deploy-if true x t h =
      let (u, named, h1) = bind-ok (find_by_username e.env q.current_user s.world) _ x h in
      let (y, adm, h2) = bind-ok (guard (can_admin_site u) no_permission) _ x h1 in
      inr (record {
        user = u;
        user_there = named;
        is_serverless = (==_iff q.deploy_type serverless_type).0 t;
        is_admin = guard-ok _ no_permission y adm;
      })

  check_deploy-cases :
      (x : User × Deploy) → check_deploy e q s ≡ ok x → Created e q s ⊎ Administers e q s
  unfolding check_deploy
  check_deploy-cases x h = check_deploy-if _ x refl h

permitted_or {ℓ} :
    {P : Type ℓ} (x : Outcome (User × Deploy)) (f : User → Deploy → Site → Acted) (s : Site)
    → ((a : User × Deploy) → x ≡ ok a → P)
    → Unchanged s (permitted x f s) ⊎ P
permitted_or (ok a) f s h = inr (h a refl)
permitted_or (err e) f s h = inl (e, refl)

-- Stopping, starting and updating a deploy end with an error and change nothing, neither the tables
-- nor the cluster, unless the user created the deploy, or the request is for a serverless deploy and
-- the user is an administrator of the site; deleting one, unless the user created it.
pub deploys-authorized :
    (e : DeployEnv) (q : DeployActReq) (r : DeployUpdateReq) (s : Site)
    → (Unchanged s (deploy_stop e q s) ⊎ (Created e q s ⊎ Administers e q s))
      × (Unchanged s (deploy_start e q s) ⊎ (Created e q s ⊎ Administers e q s))
      × (Unchanged s (deploy_update e q r s) ⊎ (Created e q s ⊎ Administers e q s))
      × (Unchanged s (delete_deploy e q s) ⊎ Created e q s)
unfolding deploy_stop deploy_start deploy_update delete_deploy
deploys-authorized e q r s = (
  permitted_or (check_deploy e q s) _ s (check_deploy-cases e q s),
  permitted_or (check_deploy e q s) _ s (check_deploy-cases e q s),
  permitted_or (check_deploy e q s) _ s (check_deploy-cases e q s),
  permitted_or (check_for_user e q s) _ s (check_for_user-Created e q s),
)
