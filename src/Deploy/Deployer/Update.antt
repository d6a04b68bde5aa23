-- ===== src/Deploy/Deployer/Update.antt =====
-- builder/deploy/deployer.go, `UpdateDeploy`. A pointer of the request that may be nil is an option.
-- `parse` is `json.Unmarshal` of the resources of a row: the number of GPUs, empty if there is none.
pub mod Fields
pub mod Effects
use csghub_server.Prelude.{
  Text, ℕ, Bool, false, Option, none, some, if◌then◌else◌, ltb, Fetched, found, no_rows, failed,
  is_empty, not,
}
use csghub_server.Deploy.Store.{Deploy, Db, update_deploy}

pub record RuntimeFramework : Type 0 where
  pub id : ℕ
  pub frame_name : Text
  pub frame_image : Text
  pub frame_cpu_image : Text
  pub container_port : ℕ

pub record SpaceResource : Type 0 where
  pub id : ℕ
  pub name : Text
  pub resources : Text

pub record DeployUpdateReq : Type 0 where
  pub deploy_name : Option Text
  pub cluster_id : Option Text
  pub env : Option Text
  pub resource_id : Option ℕ
  pub runtime_framework_id : Option ℕ
  pub min_replica : Option ℕ
  pub max_replica : Option ℕ
  pub revision : Option Text
  pub secure_level : Option ℕ

pub data UpdateError : Type 0 where
  no_framework no_resource bad_hardware bad_replicas not_updated : UpdateError

-- The deploy that the caller holds, the tables, and the error: `none` is nil.
abbrev pub Updated : Type 0
Updated = Deploy × Db × Option UpdateError

-- `if x != nil { field = *x }`
abbrev pub given {ℓ} : {A : Type ℓ} → Option A → A → A
given none old = old
given (some a) old = a

-- What the stores find for the ids of a request.
pub record Stores : Type 0 where
  pub framework : ℕ → Fetched RuntimeFramework
  pub resource : ℕ → Fetched SpaceResource
  pub updates : Bool

pub data Lookup {ℓ} (A : Type ℓ) : Type ℓ where
  absent : Lookup A
  here' : A → Lookup A
  wrong : UpdateError → Lookup A

module _ (format : ℕ → Text) (parse : Text → Option Text) (s : Stores) where
  abbrev pub framework_found : Fetched RuntimeFramework → Lookup RuntimeFramework
  framework_found (found f) = here' f
  framework_found no_rows = wrong no_framework
  framework_found failed = wrong no_framework

  unfoldable pub find_framework : Option ℕ → Lookup RuntimeFramework
  find_framework none = absent
  find_framework (some i) = framework_found (s.framework i)

  -- The resource with the number of its GPUs.
  abbrev pub with_hardware : SpaceResource → Option Text → Lookup (SpaceResource × Text)
  with_hardware r none = wrong bad_hardware
  with_hardware r (some gpus) = here' (r, gpus)

  abbrev pub resource_found : Fetched SpaceResource → Lookup (SpaceResource × Text)
  resource_found (found r) = with_hardware r (parse r.resources)
  resource_found no_rows = wrong no_resource
  resource_found failed = wrong no_resource

  unfoldable pub find_resource : Option ℕ → Lookup (SpaceResource × Text)
  find_resource none = absent
  find_resource (some i) = resource_found (s.resource i)

  abbrev pub has_gpu : Lookup (SpaceResource × Text) → Bool
  has_gpu absent = false
  has_gpu (here' r) = not (is_empty r.1)
  has_gpu (wrong e) = false

  abbrev pub container_img : Bool → RuntimeFramework → Text
  container_img gpu f = if gpu then f.frame_image else f.frame_cpu_image

  abbrev pub from {ℓ κ} : {A : Type ℓ} {B : Type κ} → (A → B) → Lookup A → B → B
  from f absent old = old
  from f (here' a) old = f a
  from f (wrong e) old = old

  -- The fields that are set before the check of the replicas.
  unfoldable pub first_fields :
      DeployUpdateReq → Lookup RuntimeFramework → Lookup (SpaceResource × Text) → Deploy → Deploy
  first_fields q f r d = record d {
    deploy_name = given q.deploy_name d.deploy_name;
    env = given q.env d.env;
    hardware = from (λ x. x.0.resources) r d.hardware;
    sku = from (λ x. format x.0.id) r d.sku;
    image_id = from (container_img (has_gpu r)) f d.image_id;
    runtime_framework = from (λ x. x.frame_name) f d.runtime_framework;
    container_port = from (λ x. x.container_port) f d.container_port;
    min_replica = given q.min_replica d.min_replica;
    max_replica = given q.max_replica d.max_replica;
  }

  unfoldable pub last_fields : DeployUpdateReq → Deploy → Deploy
  last_fields q d = record d {
    git_branch = given q.revision d.git_branch;
    secure_level = given q.secure_level d.secure_level;
    cluster_id = given q.cluster_id d.cluster_id;
  }

  abbrev pub write_updated : Deploy → Db → Updated
  write_updated d db =
      if s.updates then (d, update_deploy d db, none) else (d, db, some not_updated)

  abbrev pub checked : DeployUpdateReq → Deploy → Db → Updated
  checked q d db =
      if ltb d.max_replica d.min_replica
      then (d, db, some bad_replicas)
      else write_updated (last_fields q d) db

  abbrev pub with_found :
      DeployUpdateReq
      → Lookup RuntimeFramework
      → Lookup (SpaceResource × Text)
      → Deploy
      → Db
      → Updated
  with_found q (wrong e) r d db = (d, db, some e)
  with_found q absent (wrong e) d db = (d, db, some e)
  with_found q (here' f) (wrong e) d db = (d, db, some e)
  with_found q absent absent d db = checked q (first_fields q absent absent d) db
  with_found q absent (here' r) d db = checked q (first_fields q absent (here' r) d) db
  with_found q (here' f) absent d db = checked q (first_fields q (here' f) absent d) db
  with_found q (here' f) (here' r) d db = checked q (first_fields q (here' f) (here' r) d) db

  unfoldable pub update_deploy_fields : DeployUpdateReq → Deploy → Db → Updated
  update_deploy_fields q d db =
      with_found q (find_framework q.runtime_framework_id) (find_resource q.resource_id) d db
