-- ===== src/Repos/Deploys/Rights.antt =====
-- component/repo.go: who may see a deploy or reach its endpoint.
use csghub_server.Repos.Store.{
  guard-ok, Repository, User, World, Env, Outcome, ok, err, ◌>>=◌, ◌>>◌, guard, bind-ok, or_missing,
  or_missing-ok, not_found, no_permission, store_failed, bad_deploy, namespace_and_name,
  find_by_path, find_by_username, can_admin_site, find_repo_by_id,
}
use csghub_server.Prelude.{
  Text, ℕ, Bool, true, ◌↔◌, ◌⊎◌, inl, inr, if◌then◌else◌, List, [], ◌∷◌, ◌≡◌, refl, ◌==◌, ==_iff,
  Bool-cases,
}
use csghub_server.Repos.Access.{allow_read_access, allow_read_access_repo}
use csghub_server.Deploy.Store.{Deploy}
use csghub_server.Deploy.Request.{serverless_type}
use csghub_server.Repos.Deploys.{Site, DeployEnv, DeployActReq, find_deploy}

abbrev pub repo_with_id : ℕ → List Repository → Outcome Repository
repo_with_id i [] = err not_found
repo_with_id i (r ∷ rs) = if r.id == i then ok r else repo_with_id i rs

-- `FindById` of the repositories
unfoldable pub find_by_id : Env → ℕ → World → Outcome Repository
find_by_id env i w =
    if env.fails (find_repo_by_id i) then err store_failed else repo_with_id i w.repos

-- `AllowAccessByRepoID`
unfoldable pub allow_access_by_repo_id : Env → ℕ → Text → World → Outcome Bool
allow_access_by_repo_id env i user w = do
  r ← find_by_id env i w
  x ← namespace_and_name r
  allow_read_access env (record { repo_type = r.repository_type; namespace = x.0; name = x.1 }) user
      w

-- `checkAccessDeployForUser`
unfoldable pub check_access_deploy_for_user : Env → ℕ → Text → Deploy → World → Outcome Bool
check_access_deploy_for_user env repo_id user d w = do
  u ← or_missing (find_by_username env user w)
  guard (d.user_id == u.id) no_permission
  guard (d.repo_id == repo_id) bad_deploy
  ok true

-- `checkAccessDeployForServerless`
unfoldable pub check_access_deploy_for_serverless : Env → ℕ → Text → Deploy → World → Outcome Bool
check_access_deploy_for_serverless env repo_id user d w = do
  u ← or_missing (find_by_username env user w)
  guard (can_admin_site u) no_permission
  guard (d.repo_id == repo_id) bad_deploy
  ok true

abbrev pub endpoint_public : ℕ
endpoint_public = 1

-- `AllowAccessEndpoint`
unfoldable pub allow_access_endpoint : Env → Text → Deploy → World → Outcome Bool
allow_access_endpoint env user d w =
    if d.secure_level == endpoint_public
    then ok true
    else check_access_deploy_for_user env d.repo_id user d w

-- `AllowAccessDeploy`
unfoldable pub allow_access_deploy : DeployEnv → DeployActReq → Site → Outcome Bool
allow_access_deploy e q s = do
  r ← find_by_path e.env q.place s.world
  d ← find_deploy e q.deploy_id s
  (if q.deploy_type == serverless_type
      then check_access_deploy_for_serverless e.env r.id q.current_user d s.world
      else check_access_deploy_for_user e.env r.id q.current_user d s.world)

-- `AllowReadAccessByDeployID`
unfoldable pub allow_read_access_by_deploy_id : DeployEnv → DeployActReq → Site → Outcome Bool
allow_read_access_by_deploy_id e q s = do
  u ← or_missing (find_by_username e.env q.current_user s.world)
  r ← find_by_path e.env q.place s.world
  d ← find_deploy e q.deploy_id s
  guard (d.user_id == u.id) no_permission
  guard (d.repo_id == r.id) bad_deploy
  allow_read_access_repo e.env r q.current_user s.world

check_access-creator :
    (env : Env) (i : ℕ) (name : Text) (d : Deploy) (w : World) (u : User)
    → find_by_username env name w ≡ ok u
    → d.user_id ≡ u.id
    → d.repo_id ≡ i
    → check_access_deploy_for_user env i name d w ≡ ok true
unfolding check_access_deploy_for_user
check_access-creator env i name d w u there mine of_repo =
    rw (there, (==_iff d.user_id u.id).1 mine, (==_iff d.repo_id i).1 of_repo) refl

creator-check_access :
    (env : Env) (i : ℕ) (name : Text) (d : Deploy) (w : World)
    → check_access_deploy_for_user env i name d w ≡ ok true
    → (u : User) × (find_by_username env name w ≡ ok u) × (d.user_id ≡ u.id) × (d.repo_id ≡ i)
unfolding check_access_deploy_for_user
creator-check_access env i name d w h =
    let (u, there, h1) = bind-ok (or_missing (find_by_username env name w)) _ true h in
    let (x, mine, h2) = bind-ok (guard (d.user_id == u.id) no_permission) _ true h1 in
    let (y, of_repo, h3) = bind-ok (guard (d.repo_id == i) bad_deploy) _ true h2 in
    (
      u,
      or_missing-ok _ u there,
      (==_iff d.user_id u.id).0 (guard-ok _ no_permission x mine),
      (==_iff d.repo_id i).0 (guard-ok _ bad_deploy y of_repo),
    )

-- A private endpoint is open to the creator of the deploy alone, and a public one to everybody.
pub allow_access_endpoint_lem :
    (env : Env) (name : Text) (d : Deploy) (w : World)
    → (allow_access_endpoint env name d w ≡ ok true) ↔ (
        (d.secure_level ≡ endpoint_public)
        ⊎ ((u : User) × (find_by_username env name w ≡ ok u) × (d.user_id ≡ u.id)))
unfolding allow_access_endpoint
allow_access_endpoint_lem env name d w = elim (Bool-cases (d.secure_level == endpoint_public)) [
  | inl open_to_all ↦
      rw open_to_all (λ h. inl ((==_iff d.secure_level endpoint_public).0 open_to_all), λ p. refl)
  | inr hidden ↦ rw hidden (
    λ h.
        let (u, there, mine, of_repo) = creator-check_access env d.repo_id name d w h in
        inr (u, there, mine),
    λ p. elim p [
      | inl level ↦ absurd (cc (hidden, (==_iff d.secure_level endpoint_public).1 level))
      | inr (u, there, mine) ↦ check_access-creator env d.repo_id name d w u there mine refl
    ],
  )
]
