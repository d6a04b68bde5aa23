-- ===== src/Deploy/Deployer/Update/Fields.antt =====
-- What `UpdateDeploy` is to write, by the request and the rows found for it.
use csghub_server.Prelude.{
  failed, ◌∙◌, ap, no_rows, sym, true, Fetched, ◌∷◌, if◌then◌else◌, ◌==◌, is_empty, [], List, ◌≢◌,
  Text, ℕ, ◌≤◌, Option, none, some, ◌≡◌, refl, ◌⊎◌, inl, inr, found, arith,
}
use csghub_server.Deploy.Deployer.Update.{
  framework_found, resource_found, Fetched, false, with_hardware, absent, wrong, here',
  find_resource, find_framework, given, UpdateError, SpaceResource, Updated, Db, RuntimeFramework,
  Deploy, Lookup, DeployUpdateReq, Stores,
}
use csghub_server.Deploy.Store.{put_deploy, deploy_by_id, Db, Deploy}

-- A field that the request gives has the given value, and else the old one.
abbrev pub Sets {ℓ} : {A : Type ℓ} → Option A → A → A → Type ℓ
Sets none old new = new ≡ old
Sets (some a) old new = new ≡ a

pub given-Sets : {A : Type 0} (o : Option A) (old : A) → Sets o old (given o old)
given-Sets none old = refl
given-Sets (some a) old = refl

-- The fields that each request leaves, and those that it sets by a value of its own.
pub record Follows (q : DeployUpdateReq) (d d' : Deploy) : Type 0 where
  pub id : d'.id ≡ d.id
  pub status : d'.status ≡ d.status
  pub svc_name : d'.svc_name ≡ d.svc_name
  pub endpoint : d'.endpoint ≡ d.endpoint
  pub owner : (d'.user_id ≡ d.user_id) × (d'.user_uuid ≡ d.user_uuid)
  pub of :
      (d'.space_id ≡ d.space_id)
      × (d'.model_id ≡ d.model_id)
      × (d'.repo_id ≡ d.repo_id)
      × (d'.git_path ≡ d.git_path)
  pub others :
      (d'.secret ≡ d.secret)
      × (d'.template ≡ d.template)
      × (d'.annotation ≡ d.annotation)
      × (d'.deploy_type ≡ d.deploy_type)
  pub min_replica : Sets q.min_replica d.min_replica d'.min_replica
  pub max_replica : Sets q.max_replica d.max_replica d'.max_replica
  pub git_branch : Sets q.revision d.git_branch d'.git_branch
  pub deploy_name : Sets q.deploy_name d.deploy_name d'.deploy_name
  pub env : Sets q.env d.env d'.env
  pub secure_level : Sets q.secure_level d.secure_level d'.secure_level
  pub cluster_id : Sets q.cluster_id d.cluster_id d'.cluster_id

-- The row that is found gets the new value.
abbrev pub instead : Deploy → Option Deploy → Option Deploy
instead new none = none
instead new (some old) = some new

-- The row with the key of the deploy is replaced by it, and nothing else changes.
abbrev pub Replaces : Deploy → Db → Db → Type 0
Replaces d db db' =
    (db'.tasks ≡ db.tasks)
    × ((i : ℕ)
        → deploy_by_id i db'.deploys ≡ (
            if i == d.id then instead d (deploy_by_id i db.deploys) else deploy_by_id i db.deploys))

pub deploy_by_id-put :
    (d : Deploy) (ds : List Deploy) (i : ℕ)
    → deploy_by_id i (put_deploy d ds)
      ≡ (if i == d.id then instead d (deploy_by_id i ds) else deploy_by_id i ds)
deploy_by_id-put d [] i = ground arith
deploy_by_id-put d (e ∷ ds) i = ground (arith, deploy_by_id-put d ds i)

module _ (format : ℕ → Text) (parse : Text → Option Text) (s : Stores) where
  -- The request names a resource that has GPUs.
  abbrev pub HasGpus : Option ℕ → Type 0
  HasGpus o =
      (i : ℕ) × (r : SpaceResource) × (gpus : Text) × (o ≡ some i)
      × (s.resource i ≡ found r)
      × (parse r.resources ≡ some gpus)
      × (gpus ≢ [])

  -- A resource that the request names is found, and gives hardware and sku.
  abbrev pub SetsResource : Option ℕ → Deploy → Deploy → Type 0
  SetsResource none d d' = (d'.hardware ≡ d.hardware) × (d'.sku ≡ d.sku)
  SetsResource (some i) d d' =
      (r : SpaceResource) × (s.resource i ≡ found r)
      × (d'.hardware ≡ r.resources)
      × (d'.sku ≡ format r.id)

  -- A framework that the request names is found, and gives its name, its port and one of its images.
  abbrev pub SetsFramework : Option ℕ → Option ℕ → Deploy → Deploy → Type 0
  SetsFramework none o d d' =
      (d'.runtime_framework ≡ d.runtime_framework)
      × (d'.container_port ≡ d.container_port)
      × (d'.image_id ≡ d.image_id)
  SetsFramework (some i) o d d' =
      (f : RuntimeFramework) × (s.framework i ≡ found f)
      × (d'.runtime_framework ≡ f.frame_name)
      × (d'.container_port ≡ f.container_port)
      × ((HasGpus o × (d'.image_id ≡ f.frame_image))
          ⊎ ((¬ HasGpus o) × (d'.image_id ≡ f.frame_cpu_image)))

  -- An error leaves the tables; without one the row is written, with a minimum of replicas that is not
  -- above the maximum.
  abbrev pub Written : DeployUpdateReq → Deploy → Db → Updated → Type 0
  Written q d db u =
      ((e : UpdateError) × (u.2 ≡ some e) × (u.1 ≡ db))
      ⊎ ((u.2 ≡ none)
          × Replaces u.0 db u.1
          × (u.0.min_replica ≤ u.0.max_replica)
          × Follows q d u.0
          × SetsResource q.resource_id d u.0
          × SetsFramework q.runtime_framework_id q.resource_id d u.0)

  -- What the lookup of an id of the request says of it
  abbrev pub ResourceIs : Option ℕ → Lookup (SpaceResource × Text) → Type 0
  ResourceIs o absent = o ≡ none
  ResourceIs o (here' (r, gpus)) =
      (i : ℕ) × (o ≡ some i) × (s.resource i ≡ found r) × (parse r.resources ≡ some gpus)
  ResourceIs o (wrong e) = Unit

  abbrev pub FrameworkIs : Option ℕ → Lookup RuntimeFramework → Type 0
  FrameworkIs o absent = o ≡ none
  FrameworkIs o (here' f) = (i : ℕ) × (o ≡ some i) × (s.framework i ≡ found f)
  FrameworkIs o (wrong e) = Unit

  pub find_resource-ResourceIs : (o : Option ℕ) → ResourceIs o (find_resource format parse s o)
  unfolding find_resource
  find_resource-ResourceIs none = refl
  find_resource-ResourceIs (some i) = by_row (s.resource i) refl
    where
      by_hardware :
          (r : SpaceResource) (x : Option Text)
          → s.resource i ≡ found r
          → parse r.resources ≡ x
          → ResourceIs (some i) (with_hardware format parse s r x)
      by_hardware r none e p = tt
      by_hardware r (some gpus) e p = (i, refl, e, p)

      by_row :
          (x : Fetched SpaceResource)
          → s.resource i ≡ x
          → ResourceIs (some i) (resource_found format parse s x)
      by_row (found r) e = by_hardware r (parse r.resources) e refl
      by_row no_rows e = tt
      by_row failed e = tt

  pub find_framework-FrameworkIs : (o : Option ℕ) → FrameworkIs o (find_framework format parse s o)
  unfolding find_framework
  find_framework-FrameworkIs none = refl
  find_framework-FrameworkIs (some i) = by_row (s.framework i) refl
    where
      by_row :
          (x : Fetched RuntimeFramework)
          → s.framework i ≡ x
          → FrameworkIs (some i) (framework_found format parse s x)
      by_row (found f) e = (i, refl, e)
      by_row no_rows e = tt
      by_row failed e = tt

  -- The GPUs of the resource that was found are those that the request names.
  pub gpus_cases :
      (o : Option ℕ) (r : SpaceResource) (gpus : Text)
      → ResourceIs o (here' (r, gpus))
      → (HasGpus o × (is_empty gpus ≡ false)) ⊎ ((¬ HasGpus o) × (is_empty gpus ≡ true))
  gpus_cases o r [] (i, named, there, parsed) = inr (
    (λ (i', r', gpus', named', there', parsed', some_gpus).
        some_gpus
          (same_gpus i i' r r' gpus' (some-same (sym named ∙ named')) there there' parsed parsed')),
    refl,
  )
    where
      some-same : {a b : ℕ} → ◌≡◌ {A = Option ℕ} (some a) (some b) → a ≡ b
      some-same e = cc (e)

      same_gpus :
          (a b : ℕ) (x y : SpaceResource) (g : Text)
          → a ≡ b
          → s.resource a ≡ found x
          → s.resource b ≡ found y
          → parse x.resources ≡ some []
          → parse y.resources ≡ some g
          → g ≡ []
      same_gpus a b x y g e ha hb px py =
          let same : x ≡ y = cc (e, ha, hb) in cc (ap (λ u. parse u.resources) same, px, py)
  gpus_cases o r (c ∷ gpus) (i, named, there, parsed) =
      inl ((i, r, c ∷ gpus, named, there, parsed, (λ e. cc (e))), refl)
