-- ===== src/Deploy/Deployer/Building.antt =====
-- The row of a deploy that `Deploy` finds or makes.
use csghub_server.Prelude.{
  fetched, subst, codes, Text, ℕ, ◌<◌, Bool, true, false, Option, none, some, List, [], ◌∷◌, ◌++◌,
  if◌then◌else◌, ◌==◌, ltb, ◌≡◌, refl, ◌⊎◌, inl, inr, In, here, there, All, Bool-cases,
  Option-cases, Fetched, found, no_rows, failed, arith, ◌∙◌,
}
use csghub_server.Deploy.Deployer.{
  Db, space_type, create_named, generate_unique_svc_name, is_reusable, new_deploy, reuse,
  update_deploy, build_deploy, dedicated_deploy, fetched, reset, serverless_deploy, panicked, made,
  refused, DeployRepo,
}
use csghub_server.Deploy.Hub.{
  get_serverless_deploy_by_rep_id, get_latest_deploy_by_space_id, Answers, create_deploy, Result,
  is_serverless_of, Hub, first_serverless, latest_of,
}
use csghub_server.Deploy.Request.{space_type}
use csghub_server.Deploy.Store.{Db, update_deploy, put_deploy, deploy_by_id, Deploy}
use csghub_server.Deploy.Repo.{panicked, made, refused}

here-some :
    (e d : Deploy) (ds : List Deploy) → ◌≡◌ {A = Option Deploy} (some e) (some d) → In d (e ∷ ds)
here-some e d ds h = let eq : e ≡ d = cc h in subst (λ x. In x (e ∷ ds)) eq here

latest_of-In : (s : ℕ) (ds : List Deploy) (d : Deploy) → latest_of s ds ≡ some d → In d ds
unfolding latest_of
latest_of-In s [] d h = absurd (cc)
latest_of-In s (e ∷ ds) d h = elim (Bool-cases (e.space_id == s)) [
  | inr other ↦ there (latest_of-In s ds d (rw other at h))
  | inl this ↦ elim (Option-cases (latest_of s ds)) [
    | inl no_more ↦ here-some e d ds (rw (this, no_more) at h)
    | inr (f, more) ↦ elim (Bool-cases (ltb e.id f.id)) [
      | inl lt ↦ there (latest_of-In s ds d (more ∙ (rw (this, more, lt) at h)))
      | inr ge ↦ here-some e d ds (rw (this, more, ge) at h)
    ]
  ]
]

first_serverless-In :
    (r : ℕ) (ds : List Deploy) (d : Deploy) → first_serverless r ds ≡ some d → In d ds
unfolding first_serverless
first_serverless-In r [] d h = absurd (cc)
first_serverless-In r (e ∷ ds) d h = elim (Bool-cases (is_serverless_of r e)) [
  | inr other ↦ there (first_serverless-In r ds d (rw other at h))
  | inl this ↦ here-some e d ds (rw this at h)
]

deploy_by_id-put_deploy :
    (d e : Deploy) (ds : List Deploy)
    → In d ds
    → e.id ≡ d.id
    → deploy_by_id e.id (put_deploy e ds) ≡ some e
deploy_by_id-put_deploy d e [] m h = elim m [ ]
deploy_by_id-put_deploy d e (_ ∷ ds) here h = ground (arith, h)
deploy_by_id-put_deploy d e (x ∷ ds) (there m) h =
    ground (arith, deploy_by_id-put_deploy d e ds m h)

-- All keys are lesser than the next one.
abbrev pub KeysBelow : ℕ → List Deploy → Type 0
KeysBelow n ds = All (λ d. d.id < n) ds

deploy_by_id-append :
    (n : ℕ) (e : Deploy) (ds : List Deploy)
    → KeysBelow n ds
    → e.id ≡ n
    → deploy_by_id n (ds ++ e ∷ []) ≡ some e
deploy_by_id-append n e [] h eq = ground (arith, eq)
deploy_by_id-append n e (d ∷ ds) h eq = ground (arith, h.0, deploy_by_id-append n e ds h.1 eq)

-- The row of the deploy is stored, with user, resource and image of the request; the tasks are not
-- touched.
pub record Stored (dr : DeployRepo) (d : Deploy) (h h' : Hub) : Type 0 where
  pub there' : deploy_by_id d.id h'.db.deploys ≡ some d
  pub user : d.user_uuid ≡ dr.user_uuid
  pub resource : d.sku ≡ dr.sku
  pub image : d.image_id ≡ dr.image_id
  pub same_tasks : h'.db.tasks ≡ h.db.tasks
  pub same_key : h'.next_task ≡ h.next_task
  pub same_queue : h'.queued ≡ h.queued

-- A step that fails changes nothing.
abbrev pub Fails {ℓ} : {A : Type ℓ} → Hub → Result A → Type ℓ
Fails {A} h r = ((e : Text) × (r ≡ (h, refused e))) ⊎ (r ≡ (h, panicked))

abbrev pub Stores : DeployRepo → Hub → Result Deploy → Type 0
Stores dr h r = (h' : Hub) × (d : Deploy) × (r ≡ (h', made d)) × Stored dr d h h'

-- A deploy of the tables is written back.
reset-Stored :
    (dr : DeployRepo) (d : Deploy) (h : Hub)
    → In d h.db.deploys
    → Stored dr (reset dr d) h (record h { db = update_deploy (reset dr d) h.db })
reset-Stored dr d h m = record {
  there' = deploy_by_id-put_deploy d (reset dr d) h.db.deploys m refl;
  user = refl;
  resource = refl;
  image = refl;
  same_tasks = refl;
  same_key = refl;
  same_queue = refl;
}

abbrev Reuses : DeployRepo → Hub → Result (Option Deploy) → Type 0
Reuses dr h r =
    Fails h r
    ⊎ ((r ≡ (h, made none))
        ⊎ ((h' : Hub) × (d : Deploy) × (r ≡ (h', made (some d))) × Stored dr d h h'))

reuse_cases :
    (a : Answers) (dr : DeployRepo) (x : Fetched Deploy) (h : Hub)
    → ((d : Deploy) → x ≡ found d → In d h.db.deploys)
    → Reuses dr h (reuse a dr x h)
reuse_cases a dr no_rows h m = inr (inl refl)
reuse_cases a dr failed h m = inl (inl (_, refl))
reuse_cases a dr (found d) h m = elim (Bool-cases a.updates) [
  | inl y ↦ inr (
      inr (
        record h { db = update_deploy (reset dr d) h.db },
        reset dr d,
        rw y refl,
        reset-Stored dr d h (m d refl),
      ))
  | inr n ↦ inl (inl (codes "fail reset deploy image", rw n refl))
]

fetched-found : (o : Option Deploy) (d : Deploy) → fetched o ≡ found d → o ≡ some d
fetched-found none d h = absurd (cc)
fetched-found (some e) d h = cc

latest-there :
    (works : Bool) (s : ℕ) (db : Db) (d : Deploy)
    → get_latest_deploy_by_space_id works s db ≡ found d
    → In d db.deploys
unfolding get_latest_deploy_by_space_id
latest-there true s db d e = latest_of-In s db.deploys d (fetched-found _ d e)
latest-there false s db d e = absurd (cc)

serverless-there :
    (works : Bool) (r : ℕ) (db : Db) (d : Deploy)
    → get_serverless_deploy_by_rep_id works r db ≡ found d
    → In d db.deploys
unfolding get_serverless_deploy_by_rep_id
serverless-there true r db d e = first_serverless-In r db.deploys d (fetched-found _ d e)
serverless-there false r db d e = absurd (cc)

latest_is_there :
    (works : Bool) (dr : DeployRepo) (h : Hub) (d : Deploy)
    → (if dr.deploy_type == space_type
        then get_latest_deploy_by_space_id works dr.space_id h.db
        else get_serverless_deploy_by_rep_id works dr.repo_id h.db)
      ≡ found d
    → In d h.db.deploys
latest_is_there works dr h d e = elim (Bool-cases (dr.deploy_type == space_type)) [
  | inl y ↦ latest-there works dr.space_id h.db d (rw y at e)
  | inr n ↦ serverless-there works dr.repo_id h.db d (rw n at e)
]

serverless_deploy_cases :
    (a : Answers) (dr : DeployRepo) (h : Hub) → Reuses dr h (serverless_deploy a dr h)
unfolding serverless_deploy get_latest_deploy_by_space_id get_serverless_deploy_by_rep_id
serverless_deploy_cases a dr h = reuse_cases a dr _ h (latest_is_there a.finds dr h)

create_deploy_cases :
    (works : Bool) (dr : DeployRepo) (svc : Text) (h : Hub)
    → KeysBelow h.next_deploy h.db.deploys
    → Fails h (create_deploy works (new_deploy dr svc) h)
      ⊎ Stores dr h (create_deploy works (new_deploy dr svc) h)
unfolding create_deploy
create_deploy_cases false dr svc h below = inl (inl (_, refl))
create_deploy_cases true dr svc h below = inr (
  _,
  record (new_deploy dr svc) { id = h.next_deploy },
  refl,
  record {
    there' = deploy_by_id-append h.next_deploy _ h.db.deploys below refl;
    user = refl;
    resource = refl;
    image = refl;
    same_tasks = refl;
    same_key = refl;
    same_queue = refl;
  },
)

dedicated_deploy_cases :
    (a : Answers) (dr : DeployRepo) (h : Hub)
    → KeysBelow h.next_deploy h.db.deploys
    → Fails h (dedicated_deploy a dr h) ⊎ Stores dr h (dedicated_deploy a dr h)
unfolding dedicated_deploy
dedicated_deploy_cases a dr h below =
    elim (generate_unique_svc_name a dr)
      as (λ x. Fails h (create_named a dr x h) ⊎ Stores dr h (create_named a dr x h)) [
        | made [] ↦ inl (inl (_, refl))
        | made (c ∷ svc) ↦ create_deploy_cases a.creates dr (c ∷ svc) h below
        | refused e ↦ inl (inl (e, refl))
        | panicked ↦ inl (inr refl)
      ]

pub build_deploy_cases :
    (a : Answers) (dr : DeployRepo) (h : Hub)
    → KeysBelow h.next_deploy h.db.deploys
    → Fails h (build_deploy a dr h) ⊎ Stores dr h (build_deploy a dr h)
unfolding build_deploy
build_deploy_cases a dr h below = elim (Bool-cases (is_reusable dr)) [
  | inr n ↦ rw n (dedicated_deploy_cases a dr h below)
  | inl y ↦ elim (serverless_deploy_cases a dr h) [
    | inl (inl (e, r)) ↦ rw (y, r) (inl (inl (e, refl)))
    | inl (inr r) ↦ rw (y, r) (inl (inr refl))
    | inr (inl r) ↦ rw (y, r) (dedicated_deploy_cases a dr h below)
    | inr (inr (h', d, r, st)) ↦ rw (y, r) (inr (h', d, refl, st))
  ]
]
