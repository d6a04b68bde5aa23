-- ===== src/Repos/Deploys/Stopped.antt =====
-- What stopping a deploy does to its row.
use csghub_server.Prelude.{
  ℕ, Bool, true, false, some, if◌then◌else◌, List, [], ◌∷◌, ◌++◌, map, keep, length, ◌≡◌, ◌≢◌, ◌==◌,
  refl, arith, ap, ◌∙◌,
}
use csghub_server.Repos.Store.{User, Outcome, ok, err, store_failed}
use csghub_server.Deploy.Store.{Deploy, deploy_by_id}
use csghub_server.Deploy.Deployer.Service.{exist}
use csghub_server.Repos.Deploys.{
  Site, DeployEnv, DeployActReq, check_deploy, set_status, is_row, with_status, stop, service,
  deploy_stop,
}
use csghub_server.Deploy.Status

-- A row is found again where a change keeps its key.
deploy_by_id-map :
    (f : Deploy → Deploy) (i : ℕ) (d : Deploy) (ds : List Deploy)
    → ((x : Deploy) → (f x).id ≡ x.id)
    → deploy_by_id i ds ≡ some d
    → deploy_by_id i (map f ds) ≡ some (f d)
deploy_by_id-map f i d [] key h = cc h
deploy_by_id-map f i d (x ∷ ds) key h = ground (arith, key x, deploy_by_id-map f i d ds key)

module _ (i r u c : ℕ) where
  same_id : (d : Deploy) → (with_status c (is_row i r u) d).id ≡ d.id
  same_id d = ground arith

  -- The rows of the other keys, and that of the key, after the update.
  update-other :
      (j : ℕ) (ds : List Deploy)
      → j ≢ i
      → deploy_by_id j (map (with_status c (is_row i r u)) ds) ≡ deploy_by_id j ds
  update-other j [] ne = refl
  update-other j (d ∷ ds) ne = ground (arith, update-other j ds ne)

  rows-none :
      (ds : List Deploy)
      → length (keep (λ d. d.id == i) ds) ≡ 0
      → length (keep (is_row i r u) ds) ≡ 0
  rows-none [] h = refl
  rows-none (d ∷ ds) h = ground (arith, rows-none ds)

  rows-one :
      (ds : List Deploy) (d : Deploy)
      → length (keep (λ x. x.id == i) ds) ≡ 1
      → deploy_by_id i ds ≡ some d
      → length (keep (is_row i r u) ds) ≡ (if is_row i r u d then 1 else 0)
  rows-one [] d h there = cc h
  rows-one (x ∷ ds) d h there = ground (arith, rows-none ds, rows-one ds d)

deploy_by_id-key : (i : ℕ) (d : Deploy) (ds : List Deploy) → deploy_by_id i ds ≡ some d → d.id ≡ i
deploy_by_id-key i d [] h = cc h
deploy_by_id-key i d (x ∷ ds) h = ground (arith, deploy_by_id-key i d ds)

-- Whether the row is that of the user.
is_row-own : (i u : ℕ) (d : Deploy) → d.id ≡ i → is_row i d.repo_id u d ≡ (d.user_id == u)
is_row-own i u d key = ground arith

-- The result where one row has to have changed.
abbrev pub result : Bool → Outcome (Unit {0})
result b = if b then ok tt else err store_failed

counted : (b : Bool) (n : ℕ) → n ≡ (if b then 1 else 0) → result (n == 1) ≡ result b
counted b n h = ground arith

-- The deploy is stopped if the user who asks created it, and stays as it is for anybody else.
abbrev pub stopped_by : User → Deploy → Deploy
stopped_by u d = if d.user_id == u.id then record d { status = Status.stopped } else d

-- If the user is permitted to act on a deploy, whose key is that of one row, the cluster carries out
-- the request and finds no service afterwards, and the update of the row goes through, then
-- `DeployStop` asks the cluster to stop the service; it succeeds and sets the row's status to
-- stopped if the user created the deploy. For anybody else, that is, an administrator who stops a
-- serverless deploy of another user, it ends with an error and leaves the row as it is. The rows of
-- all other keys stay.
pub deploy_stop_lem :
    (e : DeployEnv) (q : DeployActReq) (s : Site) (u : User) (d : Deploy)
    → check_deploy e q s ≡ ok (u, d)
    → deploy_by_id q.deploy_id s.hub.db.deploys ≡ some d
    → length (keep (λ x. x.id == q.deploy_id) s.hub.db.deploys) ≡ 1
    → e.cluster_works ≡ true
    → exist e.check ≡ (false, false)
    → e.updates_status ≡ true
    → (t : Site) × (deploy_stop e q s ≡ (t, result (d.user_id == u.id)))
      × (t.cluster ≡ s.cluster ++ stop (service d.space_id q d) ∷ [])
      × (deploy_by_id q.deploy_id t.hub.db.deploys ≡ some (stopped_by u d))
      × ((j : ℕ)
          → j ≢ q.deploy_id
          → deploy_by_id j t.hub.db.deploys ≡ deploy_by_id j s.hub.db.deploys)
unfolding deploy_stop set_status
deploy_stop_lem e q s u d passes there one works gone updates =
    let p = is_row q.deploy_id d.repo_id u.id in
    let f = with_status Status.stopped p in
    let ds = s.hub.db.deploys in
    let own =
      is_row-own q.deploy_id u.id d (deploy_by_id-key q.deploy_id d s.hub.db.deploys there) in
    let rows = rows-one q.deploy_id d.repo_id u.id Status.stopped ds d one there in
    let db = record s.hub.db { deploys = map f ds } in
    let t : Site = record s {
      hub = record s.hub { db = db };
      cluster = s.cluster ++ stop (service d.space_id q d) ∷ [];
    } in
    (
      t,
      rw (passes, works, gone, updates)
          (ap (λ o. (t, o)) (counted (d.user_id == u.id) (length (keep p ds)) (rw own at rows))),
      refl,
      deploy_by_id-map f q.deploy_id d ds (same_id q.deploy_id d.repo_id u.id Status.stopped) there
          ∙ ap (λ b. some (if b then record d { status = Status.stopped } else d)) own,
      λ j ne. update-other q.deploy_id d.repo_id u.id Status.stopped j ds ne,
    )
