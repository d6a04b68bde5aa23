-- ===== src/Deploy/Deployer/Service.antt =====
-- builder/deploy/deployer.go: the state of a running service, and the metering of it. The cache of
-- the states is a map from the names of the services; the answers of the image runner are arguments.
pub mod Metered
use csghub_server.Deploy.Deployer.{serverless_type, Db, Deploy, space_type, DeployRepo}
use csghub_server.Deploy.Request.{serverless_type, finetune_type, inference_type, space_type}
use csghub_server.Deploy.Store.{get_deploy_by_id, Db, Deploy}
use csghub_server.Deploy.Deployer.Update.{SpaceResource}
use csghub_server.Prelude.{
  int_eq, Text, ℕ, ℤ, pos, Bool, true, false, Option, none, some, List, [], ◌∷◌, if◌then◌else◌,
  ◌==◌, ltb, Fetched, found, no_rows, failed, is_empty, lookup, insert,
}
use csghub_server.Deploy.Status
use csghub_server.Metering.Event.{
  MeteringEvent, scene_space, scene_model_inference, scene_model_finetune,
}

pub record StatusResponse : Type 0 where
  pub deploy_id : ℕ
  pub user_id : Text
  pub code : ℕ
  pub instances : List Text
  pub deploy_type : ℕ
  pub service_name : Text
  pub deploy_sku : Text

-- What `Status` returns: name, code and instances, and whether there is an error.
pub record Shown : Type 0 where
  pub name : Text
  pub code : ℕ
  pub instances : List Text
  pub has_error : Bool

abbrev no_service : Deploy → Shown
no_service d = record {
  name = d.svc_name;
  code = (if d.status == Status.running then Status.stopped else d.status);
  instances = [];
  has_error = false;
}

-- The runner is asked about a model, about a space the cache alone.
abbrev asked : Deploy → Option StatusResponse → Shown
asked d none = record { name = []; code = Status.run_time_error; instances = []; has_error = true }
asked d (some r) = record {
  name = d.svc_name;
  code = r.code;
  instances = r.instances;
  has_error = false;
}

abbrev in_service : DeployRepo → Option StatusResponse → Deploy → Option StatusResponse → Shown
in_service dr answer d none = no_service d
in_service dr answer d (some r) =
    if ltb 0 dr.model_id
    then asked d answer
    else record { name = d.svc_name; code = r.code; instances = r.instances; has_error = false }

abbrev shown_of :
    DeployRepo → Option StatusResponse → List (Text × StatusResponse) → Fetched Deploy → Shown
shown_of dr answer cache (found d) = in_service dr answer d (lookup d.svc_name cache)
shown_of dr answer cache no_rows = record {
  name = [];
  code = Status.stopped;
  instances = [];
  has_error = true;
}
shown_of dr answer cache failed = record {
  name = [];
  code = Status.stopped;
  instances = [];
  has_error = true;
}

-- `Status`; `works` says whether the store can be asked.
unfoldable pub service_status :
    Bool → DeployRepo → Option StatusResponse → List (Text × StatusResponse) → Db → Shown
service_status works dr answer cache db =
    shown_of dr answer cache (if works then get_deploy_by_id dr.deploy_id db else failed)

-- `targetID`, the id that the runner knows a service by
abbrev pub target_id : DeployRepo → ℕ
target_id dr = if dr.space_id == 0 then dr.deploy_id else dr.space_id

-- `Exist` by the code of the answer; `negative` stands for -1.
pub data CheckCode : Type 0 where
  negative : CheckCode
  code : ℕ → CheckCode

unfoldable pub exist : Option CheckCode → Bool × Bool
exist none = (true, true)
exist (some negative) = (true, true)
exist (some (code n)) = (n == 1, false)

abbrev pub scene_unknow : ℤ
scene_unknow = pos 99

abbrev pub get_valid_scene_type : ℕ → ℤ
get_valid_scene_type t =
    if t == space_type
    then scene_space
    else if t == inference_type
    then scene_model_inference
    else if t == finetune_type
    then scene_model_finetune
    else if t == serverless_type
    then scene_model_inference
    else scene_unknow

-- `getResourceMap`; `format` is `strconv.FormatInt`, and `none` an error of the store.
unfoldable pub resources_by_id :
    (ℕ → Text) → List SpaceResource → List (Text × Text) → List (Text × Text)
resources_by_id format [] m = m
resources_by_id format (r ∷ rs) m = resources_by_id format rs (insert (format r.id) r.name m)

unfoldable pub get_resource_map : (ℕ → Text) → Option (List SpaceResource) → List (Text × Text)
get_resource_map format none = []
get_resource_map format (some rs) = resources_by_id format rs []

abbrev pub metered : ℕ → Text → ℕ → StatusResponse → Text → MeteringEvent
metered interval uuid now r name = record {
  uuid = uuid;
  user_uuid = r.user_id;
  value = pos interval;
  value_type = pos 0;
  scene = get_valid_scene_type r.deploy_type;
  op_uid = [];
  resource_id = r.deploy_sku;
  resource_name = name;
  customer_id = r.service_name;
  created_at = now;
  extra = [];
}

abbrev meter_named : ℕ → Text → ℕ → StatusResponse → Option Text → Option MeteringEvent
meter_named interval uuid now r none = none
meter_named interval uuid now r (some name) =
    if int_eq (get_valid_scene_type r.deploy_type) scene_unknow
    then none
    else some (metered interval uuid now r name)

-- `startAccountingRequestMeter`: the event that it publishes, if any.
unfoldable pub start_accounting_request_meter :
    ℕ → Text → ℕ → List (Text × Text) → StatusResponse → Option MeteringEvent
start_accounting_request_meter interval uuid now resources r =
    if r.code == Status.running
    then (if is_empty r.deploy_sku
        then none
        else meter_named interval uuid now r (lookup r.deploy_sku resources))
    else none
